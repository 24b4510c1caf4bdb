-- ===== src/Data/Classes.antt =====
-- The constructors of the data classes of python_binding/lsm/_data.py: `construct c kwargs` is the call
-- `c(**kwargs)`, with the names of the parameters without their underscore.
use libstoragemgmt.Base.{
  ℕ, zero, suc, ℤ, pos, String, Bool, true, false, ◌&&◌, ◌||◌, Option, none, some, List, [], ◌∷◌,
  ◌++◌, ◌==◌, str_eq, if◌then◌else◌,
}
use libstoragemgmt.Text.{codes, int}
use libstoragemgmt.Text.Hex.{is_lower_hex, unhexlify}
use libstoragemgmt.Data.Value.{
  Class, disk, volume, system, fs_snapshot, nfs_export, access_group, Value, Items, nil, cons,
  Fields, end, field, get,
}
use libstoragemgmt.Data.Initiators.{at_end, initiator_id_verify}
use libstoragemgmt.Ipc.Raised.{
  Raised, value_error, attribute_error, lsm_error, other_error, Outcome, ok, err,
}
use libstoragemgmt.Data.Params.{optional, no_support, or_default, params, bind}

-- `[0-9a-f]{k}` at the start, and what is behind it
hex_run : ℕ → List ℕ → Option (List ℕ)
hex_run zero s = some s
hex_run (suc k) [] = none
hex_run (suc k) (c ∷ s) = let rest = hex_run k s in if is_lower_hex c then rest else none

abbrev matched : Option (List ℕ) → Bool
matched none = false
matched (some s) = true

abbrev matched_to_end : Option (List ℕ) → Bool
matched_to_end none = false
matched_to_end (some s) = at_end s

-- `Volume.vpd83_verify`: the `$` of the pattern belongs to its second alternative.
unfoldable pub vpd83_verify : List ℕ → Bool
unfolding hex_run
vpd83_verify [] = false
vpd83_verify (c ∷ s) =
    c == b'6' && matched (hex_run 31 s)
    || (c == b'2' || c == b'3' || c == b'5') && matched_to_end (hex_run 15 s)

abbrev pub invalid_argument : List ℕ → Raised
invalid_argument message = lsm_error (Value.num (pos 101)) (Value.str message) Value.null

abbrev bad_vpd83 : List ℕ → List ℕ
bad_vpd83 s =
    codes "Incorrect format of VPD 0x83 NAA(3) string: '"
    ++ s
    ++ codes "', expecting 32 or 16 lower case hex characters"

-- `if _vpd83 and not Volume.vpd83_verify(_vpd83)`; a number, a list or a dict is a TypeError of the
-- pattern unless it is false.
unfoldable pub check_vpd83 : Value → Value → Outcome Value
check_vpd83 (Value.str []) made = ok made
check_vpd83 (Value.str (c ∷ s)) made =
    if vpd83_verify (c ∷ s) then ok made else err (invalid_argument (bad_vpd83 (c ∷ s)))
check_vpd83 Value.null made = ok made
check_vpd83 (Value.bool false) made = ok made
check_vpd83 (Value.num (pos zero)) made = ok made
check_vpd83 (Value.list nil) made = ok made
check_vpd83 (Value.dict end) made = ok made
check_vpd83 _ made = err other_error

abbrev int_of_text : Option ℤ → Outcome ℤ
int_of_text none = err value_error
int_of_text (some z) = ok z

-- `int(v)`
unfoldable pub as_int : Value → Outcome ℤ
as_int (Value.num z) = ok z
as_int (Value.bool false) = ok (pos 0)
as_int (Value.bool true) = ok (pos 1)
as_int (Value.str s) = int_of_text (int s)
as_int _ = err other_error

abbrev or_no_support : Value → Value
or_no_support Value.null = no_support
or_no_support v = v

abbrev verified : List ℕ → Option (List ℕ) → Outcome Items → Outcome Items
verified s none rest = err (invalid_argument (codes "Invalid initiator ID " ++ s))
verified s (some i) (ok is) = ok (cons (Value.str i) is)
verified s (some i) (err x) = err x

standardize : Items → Outcome Items
standardize nil = ok nil
standardize (cons (Value.str i) is) = verified i (initiator_id_verify i) (standardize is)
standardize (cons v is) = err attribute_error

-- a text as its characters
singles : List ℕ → Items
singles [] = nil
singles (c ∷ s) = cons (Value.str (c ∷ [])) (singles s)

keys : Fields → Items
keys end = nil
keys (field k v fs) = cons (Value.str (codes k)) (keys fs)

-- `_standardize_init_list` of whatever a `for` can go through
unfoldable pub standardize_init_list : Value → Outcome Items
unfolding standardize singles keys
standardize_init_list (Value.list is) = standardize is
standardize_init_list (Value.str s) = standardize (singles s)
standardize_init_list (Value.dict fs) = standardize (keys fs)
standardize_init_list _ = err other_error

-- the attribute `k` of the bound parameters, changed
set : String → Value → Fields → Fields
set k v end = end
set k v (field j w fs) =
    let rest = set k v fs in if str_eq j k then field j v fs else field j w rest

-- an argument that is bound, so never the null of a missing one
abbrev arg : String → Fields → Value
arg k fs = or_default (get k fs) Value.null

abbrev made_snapshot : Fields → Outcome ℤ → Outcome Value
made_snapshot fs (err x) = err x
made_snapshot fs (ok z) = ok (Value.obj fs_snapshot (set "ts" (Value.num z) fs))

abbrev made_group : Fields → Outcome Items → Outcome Value
made_group fs (err x) = err x
made_group fs (ok is) = ok (Value.obj access_group (set "init_ids" (Value.list is) fs))

is_none : Value → Bool
is_none Value.null = true
is_none v = false

abbrev init_disk : Fields → Outcome Value
init_disk fs = check_vpd83 (arg "vpd83" fs) (Value.obj disk fs)

abbrev init_volume : Fields → Outcome Value
init_volume fs = check_vpd83 (arg "vpd83" fs) (Value.obj volume fs)

abbrev init_system : Fields → Outcome Value
init_system fs = ok (
    Value.obj system (
      field "id" (arg "id" fs) (
        field "name" (arg "name" fs) (
          field "status" (arg "status" fs) (
            field "status_info" (arg "status_info" fs) (
              field "plugin_data" (arg "plugin_data" fs) (
                field "fw_version" (arg "fw_version" fs) (
                  field "read_cache_pct" (or_no_support (arg "read_cache_pct" fs))
                    (field "mode" (or_no_support (arg "mode" fs)) end)))))))))

unfoldable init_nfs_export : Fields → Outcome Value
unfolding is_none
init_nfs_export fs =
    if is_none (arg "fs_id" fs) || is_none (arg "export_path" fs)
    then err other_error
    else ok (Value.obj nfs_export fs)

-- the bodies of the `__init__`
unfoldable pub init : Class → Fields → Outcome Value
unfolding set init_nfs_export
init disk fs = init_disk fs
init volume fs = init_volume fs
init system fs = init_system fs
init fs_snapshot fs = made_snapshot fs (as_int (arg "ts" fs))
init nfs_export fs = init_nfs_export fs
init access_group fs = made_group fs (standardize_init_list (arg "init_ids" fs))
init c fs = ok (Value.obj c fs)

abbrev bound : Class → Outcome Fields → Outcome Value
bound c (err x) = err x
bound c (ok fs) = init c fs

-- `c(**kwargs)`
unfoldable pub construct : Class → Fields → Outcome Value
construct c kwargs = bound c (bind (params c) kwargs)

abbrev caps_of : Option (List ℕ) → Outcome Value
caps_of none = err value_error
caps_of (some bs) = ok (Value.caps bs)

zero_bytes : ℕ → List ℕ
zero_bytes zero = []
zero_bytes (suc k) = 0 ∷ zero_bytes k

-- `Capabilities.__init__`
unfoldable pub init_caps : Value → Outcome Value
unfolding zero_bytes
init_caps Value.null = ok (Value.caps (zero_bytes 512))
init_caps (Value.str s) = caps_of (unhexlify s)
init_caps _ = err other_error

abbrev bound_caps : Outcome Fields → Outcome Value
bound_caps (err x) = err x
bound_caps (ok fs) = init_caps (arg "cap" fs)

-- `Capabilities(**kwargs)`
unfoldable pub construct_caps : Fields → Outcome Value
construct_caps kwargs = bound_caps (bind (optional "cap" Value.null ∷ []) kwargs)
