-- ===== src/Cmdline/Address.antt =====
-- The checks of an address or a host name of tools/lsmcli/cmdline.py: `_valid_ip4_address`,
-- `_valid_ip6_address` and `_is_valid_network_name`, for texts in ASCII.
pub mod Parts
pub mod Dotted
use libstoragemgmt.Base.{
  ℕ, zero, suc, ◌+◌, ℤ, pos, Bool, true, false, ◌&&◌, ◌||◌, not, Option, none, some, List, [], ◌∷◌,
  ◌++◌, ◌==◌, ltb, leb, ltb_ℤ, if◌then◌else◌, length,
}
use libstoragemgmt.Text.{int, codes}
use libstoragemgmt.Text.Hex.{is_hex}

-- the text with one character more at its start
abbrev pub put : ℕ → List (List ℕ) → List (List ℕ)
put c [] = (c ∷ []) ∷ []
put c (p ∷ ps) = (c ∷ p) ∷ ps

-- `s.split(sep)` for one character
unfoldable pub split : ℕ → List ℕ → List (List ℕ)
split sep [] = [] ∷ []
split sep (c ∷ s) = let rest = split sep s in if c == sep then [] ∷ rest else put c rest

unfoldable pub has : ℕ → List ℕ → Bool
has c [] = false
has c (d ∷ s) = d == c || has c s

unfoldable pub every : (List ℕ → Bool) → List (List ℕ) → Bool
every test [] = true
every test (p ∷ ps) = test p && every test ps

-- whether `int(i, 10) > 255` is false and raises nothing
abbrev at_most_255 : Option ℤ → Bool
at_most_255 none = false
at_most_255 (some z) = not (ltb_ℤ (pos 255) z)

abbrev leading_zero : List ℕ → Bool
leading_zero (c ∷ d ∷ s) = c == b'0'
leading_zero s = false

-- one round of the loop over the parts
unfoldable pub valid_part : List ℕ → Bool
valid_part i = ltb 0 (length i) && leb (length i) 3 && not (leading_zero i) && at_most_255 (int i)

-- `_valid_ip4_address`
unfoldable pub valid_ip4_address : List ℕ → Bool
valid_ip4_address [] = false
valid_ip4_address (c ∷ s) =
    length (split b'.' (c ∷ s)) == 4
    && not (has b'/' (c ∷ s))
    && every valid_part (split b'.' (c ∷ s))

-- whether `address.split("::")` has more than two parts: a second "::" behind the first
has_pair : List ℕ → Bool
has_pair (c ∷ d ∷ s) = let rest = has_pair (d ∷ s) in c == b':' && d == b':' || rest
has_pair s = false

two_pairs : List ℕ → Bool
unfolding has_pair
two_pairs (c ∷ d ∷ s) =
    let rest = two_pairs (d ∷ s) in if c == b':' && d == b':' then has_pair s else rest
two_pairs s = false

-- `parts[-1]` and the parts before it
last_part : List (List ℕ) → List ℕ
last_part [] = []
last_part (p ∷ []) = p
last_part (p ∷ q ∷ ps) = last_part (q ∷ ps)

all_but_last : List (List ℕ) → List (List ℕ)
all_but_last [] = []
all_but_last (p ∷ []) = []
all_but_last (p ∷ q ∷ ps) = p ∷ all_but_last (q ∷ ps)

not_empty : List (List ℕ) → List (List ℕ)
not_empty [] = []
not_empty ([] ∷ ps) = not_empty ps
not_empty ((c ∷ p) ∷ ps) = (c ∷ p) ∷ not_empty ps

all_hex : List ℕ → Bool
all_hex [] = true
all_hex (c ∷ s) = is_hex c && all_hex s

-- `len(x) <= 4`, and `x in allowed` for every character; no part has a colon
short_hex : List ℕ → Bool
unfolding all_hex
short_hex p = leb (length p) 4 && all_hex p

-- The parts once an IPv4 suffix has been replaced by two zeros; none where it is not valid.
without_suffix : List (List ℕ) → Option (List (List ℕ))
unfolding last_part all_but_last
without_suffix parts =
    if has b'.' (last_part parts)
    then if valid_ip4_address (last_part parts)
      then some (all_but_last parts ++ (b'0' ∷ []) ∷ (b'0' ∷ []) ∷ [])
      else none
    else some parts

-- the last test, on the parts that are left
right_count : (has_zeros : Bool) → List (List ℕ) → Bool
unfolding short_hex
right_count has_zeros parts =
    if has_zeros && leb (length parts) 8 || length parts == 8 then every short_hex parts else false

-- with "::" the parts that are not empty, and a zero
filled_up : List ℕ → Option (List (List ℕ)) → Bool
unfolding has_pair not_empty right_count
filled_up address none = false
filled_up address (some parts) =
    if has_pair address
    then right_count true (not_empty parts ++ (b'0' ∷ []) ∷ [])
    else right_count false parts

-- `_valid_ip6_address`
unfoldable pub valid_ip6_address : List ℕ → Bool
unfolding two_pairs without_suffix filled_up
valid_ip6_address [] = false
valid_ip6_address (c ∷ s) =
    if has b'/' (c ∷ s) || two_pairs (c ∷ s)
    then false
    else if ltb (length (split b':' (c ∷ s))) 3 || ltb 9 (length (split b':' (c ∷ s)))
    then false
    else filled_up (c ∷ s) (without_suffix (split b':' (c ∷ s)))

is_digit_or_dot : ℕ → Bool
is_digit_or_dot c = leb b'0' c && leb c b'9' || c == b'.'

-- `^[0-9.]+$` behind the first character; `$` is also before a line feed at the end.
digits_to_end : List ℕ → Bool
unfolding is_digit_or_dot
digits_to_end [] = true
digits_to_end (c ∷ []) = is_digit_or_dot c || c == 10
digits_to_end (c ∷ d ∷ s) = is_digit_or_dot c && digits_to_end (d ∷ s)

digits_only : List ℕ → Bool
unfolding is_digit_or_dot digits_to_end
digits_only [] = false
digits_only (c ∷ s) = is_digit_or_dot c && digits_to_end s

-- `[A-Z0-9-]` with re.IGNORECASE
is_label_char : ℕ → Bool
is_label_char c =
    leb b'0' c && leb c b'9' || leb b'a' c && leb c b'z' || leb b'A' c && leb c b'Z' || c == b'-'

-- The characters of a label, of which n may come, to the end or a line feed there, the last one no hyphen.
label_from : ℕ → List ℕ → Bool
unfolding is_label_char
label_from zero s = false
label_from (suc n) [] = false
label_from (suc n) (c ∷ []) = is_label_char c && not (c == b'-')
label_from (suc n) (c ∷ d ∷ s) =
    let rest = label_from n (d ∷ s) in
    is_label_char c && (if d == 10 && length s == 0 then not (c == b'-') else rest)

-- `(?!-)[A-Z0-9-]{1,63}(?<!-)$`
is_label : List ℕ → Bool
unfolding label_from
is_label [] = false
is_label (c ∷ s) = not (c == b'-') && label_from 63 (c ∷ s)

-- the text without a dot at its end
without_dot : List ℕ → List ℕ
without_dot [] = []
without_dot (c ∷ []) = if c == b'.' then [] else c ∷ []
without_dot (c ∷ d ∷ s) = c ∷ without_dot (d ∷ s)

-- `_is_valid_network_name`; `none` is the IndexError of `ip_hn[-1]` on the empty text.
unfoldable pub is_valid_network_name : List ℕ → Option Bool
unfolding digits_only without_dot is_label
is_valid_network_name [] = none
is_valid_network_name (c ∷ s) =
    if valid_ip4_address (c ∷ s) || valid_ip6_address (c ∷ s)
    then some true
    else if ltb 255 (length (c ∷ s)) || digits_only (c ∷ s)
    then some false
    else some (every is_label (split b'.' (without_dot (c ∷ s))))
