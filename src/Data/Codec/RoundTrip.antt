-- ===== src/Data/Codec/RoundTrip.antt =====
-- A value that is sent arrives as it was: `DataDecoder` after `DataEncoder` (python_binding/lsm/_data.py).
use libstoragemgmt.Base.{ℕ, List, String, ◌∙◌, true, false, some, str_eq, ◌≡◌, refl}
use libstoragemgmt.Text.{equal}
use libstoragemgmt.Text.Hex.{hexlify, AllBytes, unhexlify-hexlify}
use libstoragemgmt.Data.Value.{
  Class, disk, volume, system, pool, file_system, fs_snapshot, nfs_export, block_range,
  access_group, target_port, battery, Value, Items, nil, cons, Fields, end, field, get, has,
}
use libstoragemgmt.Data.Classes.{construct, construct_caps, init_caps}
use libstoragemgmt.Data.Params.{bind}
use libstoragemgmt.Data.Codec.{
  class_name, capabilities, plain, plain_items, plain_fields, make, attributes, factory, decode,
  process_list, process_items,
}
use libstoragemgmt.Ipc.Raised.{Outcome, ok}

-- The attributes of an object that survive: a list or a dict among them is one that json knows as it is,
-- without objects, since `_factory` does not look into it; and no dict has a key `class`.
unfoldable mutual
  pub Attribute : Value → Type 0
  Attribute (Value.list is) = plain (Value.list is) ≡ ok (Value.list is)
  Attribute (Value.dict fs) =
      (has "class" fs ≡ false) × (plain (Value.dict fs) ≡ ok (Value.dict fs))
  Attribute (Value.obj c fs) = (construct c fs ≡ ok (Value.obj c fs)) × Attributes fs
  Attribute (Value.caps bs) = AllBytes bs
  Attribute Value.other = ⊥
  Attribute v = Unit

  pub Attributes : Fields → Type 0
  Attributes end = Unit
  Attributes (field k v fs) = (str_eq k "class" ≡ false) × Attribute v × Attributes fs

-- The values that survive: an object is what its constructor makes of its own attributes.
unfoldable mutual
  pub Sends : Value → Type 0
  Sends (Value.list is) = SendsItems is
  Sends (Value.dict fs) = (has "class" fs ≡ false) × SendsFields fs
  Sends (Value.obj c fs) = (construct c fs ≡ ok (Value.obj c fs)) × Attributes fs
  Sends (Value.caps bs) = AllBytes bs
  Sends Value.other = ⊥
  Sends v = Unit

  pub SendsItems : Items → Type 0
  SendsItems nil = Unit
  SendsItems (cons v is) = Sends v × SendsItems is

  pub SendsFields : Fields → Type 0
  SendsFields end = Unit
  SendsFields (field k v fs) = Sends v × SendsFields fs

make-name :
    (c : Class) (kwargs : Fields)
    → make (some (Value.str (class_name c))) (ok kwargs) ≡ construct c kwargs
unfolding make class_name equal
make-name disk kwargs = refl
make-name volume kwargs = refl
make-name system kwargs = refl
make-name pool kwargs = refl
make-name file_system kwargs = refl
make-name fs_snapshot kwargs = refl
make-name nfs_export kwargs = refl
make-name block_range kwargs = refl
make-name access_group kwargs = refl
make-name target_port kwargs = refl
make-name battery kwargs = refl

abbrev ComesBack : {A : Type 0} → (A → Outcome A) → (A → Outcome A) → A → Type 0
ComesBack {A} f g a = (b : A) × (f a ≡ ok b) × (g b ≡ ok a)

caps-make :
    (bs : List ℕ)
    → AllBytes bs
    → factory (field "class" (Value.str capabilities) (field "cap" (Value.str (hexlify bs)) end))
      ≡ ok (Value.caps bs)
unfolding factory make attributes get has equal construct_caps bind init_caps
caps-make bs h = rw (unhexlify-hexlify bs h) refl

plain-field :
    (k : String) (v w : Value) (fs gs : Fields)
    → plain v ≡ ok w
    → plain_fields fs ≡ ok gs
    → plain_fields (field k v fs) ≡ ok (field k w gs)
unfolding plain
plain-field k v w fs gs p q = rw (p, q) refl

plain-obj :
    (c : Class) (fs gs : Fields)
    → plain_fields fs ≡ ok gs
    → plain (Value.obj c fs) ≡ ok (Value.dict (field "class" (Value.str (class_name c)) gs))
unfolding plain
plain-obj c fs gs p = rw p refl

attributes-class :
    (v : Class) (gs fs : Fields)
    → attributes gs ≡ ok fs
    → factory (field "class" (Value.str (class_name v)) gs) ≡ construct v fs
unfolding factory attributes get
attributes-class c gs fs q = rw q (make-name c fs)

attributes-made :
    (k : String) (ds gs fs : Fields) (v : Value)
    → str_eq k "class" ≡ false
    → has "class" ds ≡ true
    → factory ds ≡ ok v
    → attributes gs ≡ ok fs
    → attributes (field k (Value.dict ds) gs) ≡ ok (field k v fs)
unfolding attributes factory
attributes-made k ds gs fs v other_key with_class made q = rw (other_key, with_class, made, q) refl

attributes-dict :
    (k : String) (ds gs fs : Fields)
    → str_eq k "class" ≡ false
    → has "class" ds ≡ false
    → attributes gs ≡ ok fs
    → attributes (field k (Value.dict ds) gs) ≡ ok (field k (Value.dict ds) fs)
unfolding attributes
attributes-dict k ds gs fs other_key no_class q = rw (other_key, no_class, q) refl

kept_attributes : (fs : Fields) → Attributes fs → ComesBack plain_fields attributes fs
unfolding plain attributes has Attribute
kept_attributes end h = (end, refl, refl)
kept_attributes (field k (Value.obj c ds) fs) h =
    let (gs, p, q) = kept_attributes fs h.2 in
    let (bs, p', q') = kept_attributes ds h.1.1 in
    (
      field k (Value.dict (field "class" (Value.str (class_name c)) bs)) gs,
      plain-field k (Value.obj c ds) _ fs gs (plain-obj c ds bs p') p,
      attributes-made k (field "class" (Value.str (class_name c)) bs) gs fs (Value.obj c ds) h.0
          refl (attributes-class c bs ds q' ∙ h.1.0) q,
    )
kept_attributes (field k (Value.caps bs) fs) h =
    let (gs, p, q) = kept_attributes fs h.2 in
    let ds = field "class" (Value.str capabilities) (field "cap" (Value.str (hexlify bs)) end) in
    (
      field k (Value.dict ds) gs,
      rw p refl,
      attributes-made k ds gs fs (Value.caps bs) h.0 refl (caps-make bs h.1) q,
    )
kept_attributes (field k (Value.dict ds) fs) h =
    let (gs, p, q) = kept_attributes fs h.2 in
    (
      field k (Value.dict ds) gs,
      plain-field k (Value.dict ds) _ fs gs h.1.1 p,
      attributes-dict k ds gs fs h.0 h.1.0 q,
    )
kept_attributes (field k (Value.list is) fs) h =
    let (gs, p, q) = kept_attributes fs h.2 in
    (field k (Value.list is) gs, plain-field k (Value.list is) _ fs gs h.1 p, rw (h.0, q) refl)
kept_attributes (field k Value.null fs) h =
    let (gs, p, q) = kept_attributes fs h.2 in (field k Value.null gs, rw p refl, rw (h.0, q) refl)
kept_attributes (field k (Value.bool b) fs) h =
    let (gs, p, q) = kept_attributes fs h.2 in
    (field k (Value.bool b) gs, rw p refl, rw (h.0, q) refl)
kept_attributes (field k (Value.num z) fs) h =
    let (gs, p, q) = kept_attributes fs h.2 in
    (field k (Value.num z) gs, rw p refl, rw (h.0, q) refl)
kept_attributes (field k (Value.str s) fs) h =
    let (gs, p, q) = kept_attributes fs h.2 in
    (field k (Value.str s) gs, rw p refl, rw (h.0, q) refl)
kept_attributes (field k Value.other fs) h = absurd h.1

-- The fields of a dict keep their keys too.
abbrev FieldsComeBack : Fields → Type 0
FieldsComeBack fs =
    (gs : Fields) × (plain_fields fs ≡ ok gs)
    × (process_items gs ≡ ok fs)
    × (has "class" gs ≡ has "class" fs)

kept_obj :
    (c : Class) (fs : Fields)
    → construct c fs ≡ ok (Value.obj c fs)
    → Attributes fs
    → ComesBack plain decode (Value.obj c fs)
unfolding decode has
kept_obj c fs made h =
    let (gs, p, q) = kept_attributes fs h in
    (_, plain-obj c fs gs p, attributes-class c gs fs q ∙ made)

kept_dict :
    (fs : Fields)
    → has "class" fs ≡ false
    → FieldsComeBack fs
    → ComesBack plain decode (Value.dict fs)
unfolding plain decode
kept_dict fs h (gs, p, q, same) = (Value.dict gs, rw p refl, rw (same, h, q) refl)

kept_field :
    (k : String) (v : Value) (fs : Fields)
    → ComesBack plain decode v
    → FieldsComeBack fs
    → FieldsComeBack (field k v fs)
unfolding plain decode has
kept_field k v fs (w, p, q) (gs, p', q', same) =
    (field k w gs, rw (p, p') refl, rw (q, q') refl, rw same refl)

kept_item :
    (v : Value) (is : Items)
    → ComesBack plain decode v
    → ComesBack plain_items process_list is
    → ComesBack plain_items process_list (cons v is)
unfolding plain decode
kept_item v is (w, p, q) (ws, p', q') = (cons w ws, rw (p, p') refl, rw (q, q') refl)

kept_list :
    (is : Items) → ComesBack plain_items process_list is → ComesBack plain decode (Value.list is)
unfolding plain decode
kept_list is (ws, p, q) = (Value.list ws, rw p refl, rw q refl)

kept_end : FieldsComeBack end
unfolding plain decode
kept_end = (end, refl, refl, refl)

kept_nil : ComesBack plain_items process_list nil
unfolding plain decode
kept_nil = (nil, refl, refl)

kept_caps : (bs : List ℕ) → AllBytes bs → ComesBack plain decode (Value.caps bs)
unfolding plain decode has
kept_caps bs h = (_, refl, caps-make bs h)

kept_null : ComesBack plain decode Value.null
unfolding plain decode
kept_null = (Value.null, refl, refl)

mutual
  unfolding plain decode Sends

  kept : (v : Value) → Sends v → ComesBack plain decode v
  kept (Value.list is) h = kept_list is (kept_items is h)
  kept (Value.dict fs) h = kept_dict fs h.0 (kept_fields fs h.1)
  kept (Value.obj c fs) h = kept_obj c fs h.0 h.1
  kept (Value.caps bs) h = kept_caps bs h
  kept Value.other h = absurd h
  kept Value.null h = kept_null
  kept (Value.bool b) h = (Value.bool b, refl, refl)
  kept (Value.num z) h = (Value.num z, refl, refl)
  kept (Value.str s) h = (Value.str s, refl, refl)

  kept_items : (is : Items) → SendsItems is → ComesBack plain_items process_list is
  kept_items nil h = kept_nil
  kept_items (cons v is) h = kept_item v is (kept v h.0) (kept_items is h.1)

  kept_fields : (fs : Fields) → SendsFields fs → FieldsComeBack fs
  kept_fields end h = kept_end
  kept_fields (field k v fs) h = kept_field k v fs (kept v h.0) (kept_fields fs h.1)

-- What DataEncoder makes of a value, DataDecoder makes the value again, objects of the data classes in
-- lists and dicts included, for the values of `Sends`.
pub decode-plain : (v : Value) → Sends v → (w : Value) × (plain v ≡ ok w) × (decode w ≡ ok v)
decode-plain v h = kept v h
