-- ===== src/Data/Initiators.antt =====
-- `AccessGroup.initiator_id_verify` and the WWPN's normal form (python_binding/lsm/_data.py), for texts
-- in ASCII.
use libstoragemgmt.Base.{
  ℕ, zero, suc, Bool, true, false, ◌&&◌, ◌||◌, Option, none, some, List, [], ◌∷◌, ◌==◌, leb, ◌+◌,
  if◌then◌else◌,
}
use libstoragemgmt.Text.{codes}
use libstoragemgmt.Text.Hex.{is_hex, is_lower_hex}

-- `s.startswith(t)`
unfoldable pub starts_with : List ℕ → List ℕ → Bool
starts_with s [] = true
starts_with [] (d ∷ t) = false
starts_with (c ∷ s) (d ∷ t) = c == d && starts_with s t

-- `$`: the end, or a line feed before it
unfoldable pub at_end : List ℕ → Bool
at_end [] = true
at_end (c ∷ []) = c == 10
at_end (c ∷ d ∷ s) = false

-- `[\.:\-]`
unfoldable pub is_separator : ℕ → Bool
is_separator c = c == b'.' || c == b':' || c == b'-'

-- `(([\.:\-])?[0-9A-Fa-f]{2}){k}$`
unfoldable pub pairs : ℕ → List ℕ → Bool
unfolding at_end is_separator
pairs zero s = at_end s
pairs (suc k) (c ∷ d ∷ s) = elim (is_separator c) [
  | false ↦ is_hex c && is_hex d && pairs k s
  | true ↦ elim s [ [] ↦ false | e ∷ r ↦ is_hex d && is_hex e && pairs k r ]
]
pairs (suc k) _ = false

abbrev first_pair : List ℕ → Bool
first_pair (c ∷ d ∷ s) = is_hex c && is_hex d && pairs 7 s
first_pair _ = false

-- `_regex_wwpn.match(s)`: no digit is an `x`, so the prefix is there or it is not.
unfoldable pub is_wwpn : List ℕ → Bool
unfolding starts_with
is_wwpn (c ∷ d ∷ s) =
    if c == b'0' && (d == b'x' || d == b'X') then first_pair s else first_pair (c ∷ d ∷ s)
is_wwpn _ = false

-- `s.lower()`
unfoldable pub lower : List ℕ → List ℕ
lower [] = []
lower (c ∷ s) = (if leb b'A' c && leb c b'Z' then c + 32 else c) ∷ lower s

-- `re.sub(r'0x', '', s)`
unfoldable pub without_0x : List ℕ → List ℕ
without_0x (c ∷ d ∷ s) =
    let gone = without_0x s in
    let kept = c ∷ without_0x (d ∷ s) in if c == b'0' && d == b'x' then gone else kept
without_0x s = s

-- `re.sub(r'[^0-9a-f]', '', s)`
unfoldable pub hex_only : List ℕ → List ℕ
hex_only [] = []
hex_only (c ∷ s) = let rest = hex_only s in if is_lower_hex c then c ∷ rest else rest

-- `":".join(re.findall(r'..', s))`
unfoldable pub by_pairs : List ℕ → List ℕ
by_pairs (c ∷ d ∷ []) = c ∷ d ∷ []
by_pairs (c ∷ d ∷ e ∷ []) = c ∷ d ∷ []
by_pairs (c ∷ d ∷ e ∷ f ∷ s) = c ∷ d ∷ b':' ∷ by_pairs (e ∷ f ∷ s)
by_pairs _ = []

-- `_wwpn_to_lsm_type` of a text that is a WWPN
unfoldable pub wwpn_to_lsm_type : List ℕ → List ℕ
wwpn_to_lsm_type s = by_pairs (hex_only (without_0x (lower s)))

-- `initiator_id_verify(s)` without the other arguments: the identifier it returns, none for an
-- identifier that is not valid
unfoldable pub initiator_id_verify : List ℕ → Option (List ℕ)
unfolding starts_with
initiator_id_verify s =
    if starts_with s (codes "iqn") || starts_with s (codes "eui") || starts_with s (codes "naa")
    then some s
    else if is_wwpn s
    then some (wwpn_to_lsm_type s)
    else none
