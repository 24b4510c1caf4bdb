-- ===== src/Client/Listings.antt =====
-- A listing of `Client` (python_binding/lsm/_client.py) that is answered by `SimPlugin`
-- (plugin/sim_plugin/simulator.py).
use mathlib.Core.Path.{subst, ap}
use libstoragemgmt.Base.{
  ℕ, ◌≡◌, refl, String, Bool, true, false, Option, none, some, List, [], ◌∷◌, if◌then◌else◌,
  is_some, inl, inr, Bool-cases, arith,
}
use libstoragemgmt.Text.{codes, equal, equal_iff}
use libstoragemgmt.Data.Value.{Class, Value, Items, nil, cons, Fields}
use libstoragemgmt.Data.Codec.{class_name}
use libstoragemgmt.Ipc.Raised.{Raised, other_error, Outcome, ok, err}
use libstoragemgmt.Client.Expected.{
  Expecteds, one, seq, none_left, next, instance_of, return_requires, type_compare, is_kind, every,
}
use libstoragemgmt.Client.Guards.{Call, check_search_key, is_in}
use libstoragemgmt.Client.Connection
use libstoragemgmt.Client.Block
use libstoragemgmt.Client.Files
use libstoragemgmt.Sim.Tables.{Db}
use libstoragemgmt.Sim.Plugin.Search.{
  attribute, equal_value, property_of, search, search_property, Listing, rows, answer,
}
use libstoragemgmt.Client.Listed.{
  class_of, keys_of, IsListed, GivesAll, has_all, AllListed, rows-Listed,
}

-- the method of `Client`
unfoldable pub asked : Listing → Option (List ℕ) → Value → Value → Outcome Call
asked Listing.pool_list key value flags = Connection.pools key value flags
asked Listing.volume_list key value flags = Block.volumes key value flags
asked Listing.disk_list key value flags = Connection.disks key value flags
asked Listing.fs_list key value flags = Files.fs key value flags
asked Listing.target_port_list key value flags = Connection.target_ports key value flags
asked Listing.battery_list key value flags = Connection.batteries key value flags

some_of : {A : Type 0} (o : Option A) → is_some o ≡ true → (v : A) × (o ≡ some v)
some_of none h = absurd (ground arith)
some_of (some v) h = (v, refl)

-- an object that has all the attributes has the one that is asked for
attribute-some :
    (ks : List String) (gs : Fields) (k : List ℕ)
    → has_all ks gs ≡ true
    → is_in k ks ≡ true
    → (v : Value) × (attribute k gs ≡ some v)
unfolding has_all is_in
attribute-some [] gs k h i = absurd (ground arith)
attribute-some (j ∷ ks) gs k h i = elim (Bool-cases (equal (codes j) k)) [
  | inl same ↦
      subst (λ x. (v : Value) × (attribute x gs ≡ some v)) ((equal_iff (codes j) k).0 same)
        (some_of (attribute (codes j) gs) (ground (arith, h)))
  | inr other ↦ attribute-some ks gs k (ground (arith, h)) (ground (arith, i, other))
]

-- the search that goes on with an element that has the property
kept-Listed :
    (c : Class) (ks : List String) (b : Bool) (o : Value) (is : Items)
    → IsListed c ks o
    → AllListed c ks is
    → (js : Items) × ((if b then ok (cons o is) else ok is) ≡ ok js) × AllListed c ks js
unfolding AllListed
kept-Listed c ks true o is h g = (cons o is, refl, (h, g))
kept-Listed c ks false o is h g = (is, refl, g)

search-Listed :
    (c : Class) (ks : List String) (k : List ℕ) (value : Value)
    → is_in k ks ≡ true
    → (is : Items) → AllListed c ks is
    → (js : Items) × (search k value is ≡ ok js) × AllListed c ks js
unfolding search AllListed property_of
search-Listed c ks k value i nil h = (nil, refl, tt)
search-Listed c ks k value i (cons o is) ((gs, e, a), g) =
    let (p, has_p) = attribute-some ks gs k a i in
    let (js, found, all) = search-Listed c ks k value i is g in
    rw (e, has_p, found)
      (kept-Listed c ks (equal_value p value) (Value.obj c gs) js (gs, refl, a) all)

every-Listed :
    (c : Class) (ks : List String) (is : Items)
    → AllListed c ks is
    → every (type_compare (one (instance_of c))) is ≡ ok tt
unfolding every AllListed type_compare is_kind
every-Listed c ks nil h = refl
every-Listed c ks (cons o is) ((gs, e, a), g) =
    rw (e, (equal_iff (class_name c) (class_name c)).1 refl, every-Listed c ks is g) refl

abbrev list_of : Class → Expecteds
list_of c = next (seq (next (one (instance_of c)) none_left)) none_left

return_requires-Listed :
    (c : Class) (ks : List String) (is : Items)
    → AllListed c ks is
    → return_requires (list_of c) (Value.list is) ≡ ok (Value.list is)
unfolding return_requires type_compare
return_requires-Listed c ks is h = rw (every-Listed c ks is h) refl

if_through :
    (b : Bool) (c d : Call) (x : Raised) → (if b then ok c else err x) ≡ ok d → (d ≡ c) × (b ≡ true)
if_through true c d x h = (cc, refl)
if_through false c d x h = absurd (cc)

-- the key is not given, is the empty text, or is one of the names
abbrev IsKnown : Option (List ℕ) → List String → Type 0
IsKnown none ks = Unit
IsKnown (some []) ks = Unit
IsKnown (some (x ∷ k)) ks = is_in (x ∷ k) ks ≡ true

let_through :
    (key : Option (List ℕ)) (ks : List String) (c d : Call)
    → check_search_key key ks c ≡ ok d
    → (d.returns ≡ c.returns) × IsKnown key ks
unfolding check_search_key
let_through none ks c d h =
    let (e, b) = if_through true c d other_error h in (ap Call.returns e, tt)
let_through (some []) ks c d h =
    let (e, b) = if_through true c d other_error h in (ap Call.returns e, tt)
let_through (some (x ∷ k)) ks c d h =
    let (e, known) = if_through (is_in (x ∷ k) ks) c d _ h in (ap Call.returns e, known)

asked-IsKnown :
    (l : Listing) (key : Option (List ℕ)) (value flags : Value) (c : Call)
    → asked l key value flags ≡ ok c
    → (c.returns ≡ list_of (class_of l)) × IsKnown key (keys_of l)
unfolding asked Connection.pools Block.volumes Connection.disks Files.fs Connection.target_ports
    Connection.batteries
asked-IsKnown Listing.pool_list key value flags c h = let_through key _ _ c h
asked-IsKnown Listing.volume_list key value flags c h = let_through key _ _ c h
asked-IsKnown Listing.disk_list key value flags c h = let_through key _ _ c h
asked-IsKnown Listing.fs_list key value flags c h = let_through key _ _ c h
asked-IsKnown Listing.target_port_list key value flags c h = let_through key _ _ c h
asked-IsKnown Listing.battery_list key value flags c h = let_through key _ _ c h

abbrev is_empty_text : Option (List ℕ) → Bool
is_empty_text (some []) = true
is_empty_text key = false

searched-Listed :
    (c : Class) (ks : List String) (key : Option (List ℕ)) (value : Value) (is : Items)
    → IsKnown key ks
    → is_empty_text key ≡ false
    → AllListed c ks is
    → (js : Items) × (search_property is key value ≡ ok js) × AllListed c ks js
unfolding search_property
searched-Listed c ks none value is k n h = (is, refl, h)
searched-Listed c ks (some []) value is k n h = absurd (ground arith)
searched-Listed c ks (some (x ∷ k)) value is known n h = search-Listed c ks (x ∷ k) value known is h

-- A listing of pools, volumes, disks, file systems, target ports or batteries that the client lets through, with a
-- search key that is not the empty text or with none, and whose rows the array turns into objects, is answered by
-- the plugin: the search does not miss a property, and the answer passes the client's check of its type.
pub answer-return_requires :
    (l : Listing) (key : Option (List ℕ)) (value flags : Value) (c : Call) (db : Db) (is : Items)
    → asked l key value flags ≡ ok c
    → is_empty_text key ≡ false
    → rows l db ≡ ok is
    → (js : Items) × (answer l key value db ≡ ok js)
      × (return_requires c.returns (Value.list js) ≡ ok (Value.list js))
unfolding answer
answer-return_requires l key value flags c db is h n r =
    let (returns, known) = asked-IsKnown l key value flags c h in
    let all : AllListed (class_of l) (keys_of l) is =
      subst (λ o. GivesAll (class_of l) (keys_of l) o) r (rows-Listed l db) in
    let (js, found, listed) = searched-Listed (class_of l) (keys_of l) key value is known n all in
    (js, rw (r, found) refl, rw returns (return_requires-Listed (class_of l) (keys_of l) js listed))
