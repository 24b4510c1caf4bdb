-- ===== src/Data/Codec.antt =====
-- `DataEncoder` and `DataDecoder` of python_binding/lsm/_data.py: the data classes as dicts that json
-- writes, and back. A class name that none of the data classes has is an AttributeError; the other
-- names of the module (what it imports, IData) are left out.
pub mod RoundTrip
use libstoragemgmt.Base.{
  ℕ, String, Bool, true, false, Option, none, some, List, [], ◌∷◌, ◌==◌, ◌||◌, str_eq,
  if◌then◌else◌,
}
use libstoragemgmt.Text.{codes, equal}
use libstoragemgmt.Text.Hex.{hexlify}
use libstoragemgmt.Data.Value
use libstoragemgmt.Data.Value.{
  Class, disk, volume, system, pool, file_system, fs_snapshot, nfs_export, block_range,
  access_group, target_port, battery, Value, Items, nil, cons, Fields, end, field, get, has,
}
use libstoragemgmt.Data.Classes.{construct, construct_caps}
use libstoragemgmt.Ipc.Raised.{Raised, value_error, attribute_error, other_error, Outcome, ok, err}

-- `c.__name__`
unfoldable pub class_name : Class → List ℕ
class_name disk = codes "Disk"
class_name volume = codes "Volume"
class_name system = codes "System"
class_name pool = codes "Pool"
class_name file_system = codes "FileSystem"
class_name fs_snapshot = codes "FsSnapshot"
class_name nfs_export = codes "NfsExport"
class_name block_range = codes "BlockRange"
class_name access_group = codes "AccessGroup"
class_name target_port = codes "TargetPort"
class_name battery = codes "Battery"

abbrev classes : List Class
classes =
    disk ∷ volume ∷ system ∷ pool ∷ file_system ∷ fs_snapshot ∷ nfs_export ∷ block_range
    ∷ access_group ∷ target_port ∷ battery ∷ []

abbrev pub capabilities : List ℕ
capabilities = codes "Capabilities"

abbrev map_ok : {A B : Type 0} → (A → B) → Outcome A → Outcome B
map_ok f (ok a) = ok (f a)
map_ok f (err x) = err x

abbrev both : {A B C : Type 0} → (A → B → C) → Outcome A → Outcome B → Outcome C
both f (ok a) (ok b) = ok (f a b)
both f (ok a) (err x) = err x
both f (err x) b = err x

-- `IData._to_dict`, with what `DataEncoder.default` makes of the values in it: the JSON that is written
-- for a value.
unfoldable mutual
  pub plain : Value → Outcome Value
  plain (Value.list is) = map_ok Value.list (plain_items is)
  plain (Value.dict fs) = map_ok Value.dict (plain_fields fs)
  plain (Value.obj c fs) =
      map_ok (λ gs. Value.dict (field "class" (Value.str (class_name c)) gs)) (plain_fields fs)
  plain (Value.caps bs) = ok (
      Value.dict
        (field "class" (Value.str capabilities) (field "cap" (Value.str (hexlify bs)) end)))
  plain Value.other = err value_error
  plain v = ok v

  pub plain_items : Items → Outcome Items
  plain_items nil = ok nil
  plain_items (cons v is) = both cons (plain v) (plain_items is)

  pub plain_fields : Fields → Outcome Fields
  plain_fields end = ok end
  plain_fields (field k v fs) = both (field k) (plain v) (plain_fields fs)

-- the first class of that name
find_class : List ℕ → List Class → Option Class
find_class s [] = none
find_class s (c ∷ cs) =
    let rest = find_class s cs in if equal (class_name c) s then some c else rest

has_dot : List ℕ → Bool
has_dot [] = false
has_dot (c ∷ s) = c == b'.' || has_dot s

-- `get_class` of a name that no class has: with a dot in it a module is missing, an ImportError, and
-- without one an attribute of the module.
no_class : List ℕ → Raised
unfolding has_dot
no_class s = if has_dot s then other_error else attribute_error

abbrev then_construct : Raised → Option Class → Outcome Fields → Outcome Value
then_construct x none kwargs = err x
then_construct x (some c) (err y) = err y
then_construct x (some c) (ok kwargs) = construct c kwargs

abbrev then_caps : Outcome Fields → Outcome Value
then_caps (err x) = err x
then_caps (ok kwargs) = construct_caps kwargs

-- `get_class(…)(**d)`; a class name that is no text is a TypeError.
unfoldable pub make : Option Value → Outcome Fields → Outcome Value
unfolding find_class no_class
make (some (Value.str s)) kwargs =
    if equal capabilities s
    then then_caps kwargs
    else then_construct (no_class s) (find_class s classes) kwargs
make _ kwargs = err other_error

-- The keyword arguments that `IData._factory` makes of a dict: the class goes, an attribute that is a
-- dict with a class is made too, and any other attribute stays as it is.
unfoldable pub attributes : Fields → Outcome Fields
attributes end = ok end
attributes (field k (Value.dict gs) fs) =
    let rest = attributes fs in
    let inner = attributes gs in
    if str_eq k "class"
    then rest
    else if has "class" gs
    then both (field k) (make (get "class" gs) inner) rest
    else map_ok (field k (Value.dict gs)) rest
attributes (field k v fs) =
    let rest = attributes fs in if str_eq k "class" then rest else map_ok (field k v) rest

-- `IData._factory`
unfoldable pub factory : Fields → Outcome Value
factory d = make (get "class" d) (attributes d)

-- `DataDecoder.__decode`, `__process_list` and `__process_dict`
unfoldable mutual
  pub decode : Value → Outcome Value
  decode (Value.list is) = map_ok Value.list (process_list is)
  decode (Value.dict fs) =
      let rest = process_items fs in if has "class" fs then factory fs else map_ok Value.dict rest
  decode v = ok v

  pub process_list : Items → Outcome Items
  process_list nil = ok nil
  process_list (cons v is) = both cons (decode v) (process_list is)

  pub process_items : Fields → Outcome Fields
  process_items end = ok end
  process_items (field k v fs) = both (field k) (decode v) (process_items fs)
