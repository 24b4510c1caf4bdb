-- ===== src/Client/Guards.antt =====
-- The checks that the methods of `Client` make before the remote call (python_binding/lsm/_client.py).
-- Search keys, initiator ids and host names are texts.
use libstoragemgmt.Base.{
  ℕ, ℤ, pos, String, Bool, true, false, ◌&&◌, ◌||◌, not, Option, none, some, List, [], ◌∷◌, ◌++◌,
  ◌==◌, ltb, ◌%◌, ltb_ℤ, eqb_ℤ, if◌then◌else◌,
}
use libstoragemgmt.Text.{codes, equal}
use libstoragemgmt.Data.Value.{Value, Items, nil, cons, Fields}
use libstoragemgmt.Data.Classes.{invalid_argument}
use libstoragemgmt.Data.Initiators.{starts_with, is_wwpn, wwpn_to_lsm_type}
use libstoragemgmt.Ipc.Raised.{lsm_error, Outcome, ok, err}
use libstoragemgmt.Client.Expected.{Expecteds}

-- a remote call, with the types that its result must have
pub record Call : Type 0 where
  pub method : String
  pub args : Fields
  pub returns : Expecteds

-- `if failed: raise LsmError(INVALID_ARGUMENT, message)` before the call
unfoldable pub unless : Bool → String → Call → Outcome Call
unless failed message c = if failed then err (invalid_argument (codes message)) else ok c

unfoldable pub is_in : List ℕ → List String → Bool
is_in k [] = false
is_in k (j ∷ js) = equal (codes j) k || is_in k js

-- `_check_search_key`; None and the empty text are false.
unfoldable pub check_search_key : Option (List ℕ) → List String → Call → Outcome Call
unfolding is_in
check_search_key none supported_keys c = ok c
check_search_key (some []) supported_keys c = ok c
check_search_key (some (x ∷ k)) supported_keys c =
    if is_in (x ∷ k) supported_keys
    then ok c
    else err (
        lsm_error (Value.num (pos 510))
          (Value.str (codes "Unsupported search_key: '" ++ (x ∷ k) ++ codes "'")) Value.null)

abbrev pub key_value : Option (List ℕ) → Value
key_value none = Value.null
key_value (some k) = Value.str k

-- the test of `isinstance(read_pct, int)`, and of the bounds
unfoldable pub check_read_pct : Value → Call → Outcome Call
check_read_pct (Value.num z) c =
    unless (ltb_ℤ (pos 100) z || ltb_ℤ z (pos 0)) "Invalid read_pct, should be in range 0 - 100" c
check_read_pct (Value.bool b) c = ok c
check_read_pct _ c = err (invalid_argument (codes "Invalid read_pct, should be an integer"))

-- `v == z` for an integer; True is 1 and False is 0.
unfoldable pub is_num : Value → ℤ → Bool
is_num (Value.num y) z = eqb_ℤ y z
is_num (Value.bool b) z = eqb_ℤ (if b then pos 1 else pos 0) z
is_num _ z = false

abbrev is_none_or : Value → ℤ → Bool
is_none_or Value.null z = true
is_none_or v z = is_num v z

-- `initiator_id_verify(init_id, init_type)`: the type and the id that it returns, none for one that is
-- not valid
unfoldable pub initiator_verify : List ℕ → Value → Option (Value × List ℕ)
initiator_verify s init_type =
    if (starts_with s (codes "iqn") || starts_with s (codes "eui") || starts_with s (codes "naa"))
      && is_none_or init_type (pos 5)
    then some (Value.num (pos 5), s)
    else if is_wwpn s && is_none_or init_type (pos 2)
    then some (Value.num (pos 2), wwpn_to_lsm_type s)
    else none

abbrev pub if_verified : List ℕ → (Value → List ℕ → Call) → Option (Value × List ℕ) → Outcome Call
if_verified s call none =
    err (invalid_argument (codes "Initiator id '" ++ s ++ codes "' is invalid"))
if_verified s call (some (t, i)) = ok (call t i)

-- with `raise_exception=True`: the call with the type and the id as they are returned
unfoldable pub with_initiator : List ℕ → Value → (Value → List ℕ → Call) → Outcome Call
with_initiator s init_type call = if_verified s call (initiator_verify s init_type)

texts : List (List ℕ) → Items
texts [] = nil
texts (t ∷ ts) = cons (Value.str t) (texts ts)

-- a list of texts as an argument
unfoldable pub text_list : List (List ℕ) → Value
unfolding texts
text_list ts = Value.list (texts ts)

has_text : List ℕ → List (List ℕ) → Bool
has_text t [] = false
has_text t (u ∷ us) = equal u t || has_text t us

-- `set(rw_list) - (set(rw_list) - set(ro_list))`, whether it is not empty
unfoldable pub share_host : List (List ℕ) → List (List ℕ) → Bool
unfolding has_text
share_host [] ro_list = false
share_host (t ∷ rw_list) ro_list = has_text t ro_list || share_host rw_list ro_list

items : List Value → Items
items [] = nil
items (v ∷ vs) = cons v (items vs)

-- a list as an argument
unfoldable pub value_list : List Value → Value
unfolding items
value_list vs = Value.list (items vs)

-- The message of the test of `volume_raid_create` that refuses a number of disks, the first one in their
-- order: Volume.RAID_TYPE_RAID1 is 1, RAID5 5, RAID6 6, RAID10 10, RAID50 50 and RAID60 60.
unfoldable pub disks_message : Value → ℕ → Option String
disks_message raid_type n =
    if n == 0
    then some "Illegal input disks argument: no disk included"
    else if is_num raid_type (pos 1) && not (n == 2)
    then some "Illegal input disks argument: RAID 1 only allow 2 disks"
    else if is_num raid_type (pos 5) && ltb n 3
    then some "Illegal input disks argument: RAID 5 require 3 or more disks"
    else if is_num raid_type (pos 6) && ltb n 4
    then some "Illegal input disks argument: RAID 6 require 4 or more disks"
    else if is_num raid_type (pos 10) && (not (n % 2 == 0) || ltb n 4)
    then some "Illegal input disks argument: RAID 10 require even disks count and 4 or more disks"
    else if is_num raid_type (pos 50) && (not (n % 2 == 0) || ltb n 6)
    then some "Illegal input disks argument: RAID 50 require even disks count and 6 or more disks"
    else if is_num raid_type (pos 60) && (not (n % 2 == 0) || ltb n 8)
    then some "Illegal input disks argument: RAID 60 require even disks count and 8 or more disks"
    else none

abbrev pub refuse : Option String → Call → Outcome Call
refuse none c = ok c
refuse (some message) c = err (invalid_argument (codes message))

unfoldable pub check_disks : Value → ℕ → Call → Outcome Call
check_disks raid_type n c = refuse (disks_message raid_type n) c
