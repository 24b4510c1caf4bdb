-- ===== src/Text.antt =====
-- Python's numbers in texts: `str`, `zfill`, slices and `int`. Texts are lists of code points. Of what
-- `int` reads beyond ASCII (other digits and blanks) nothing is modelled.
pub mod Numbers
pub mod Hex
use Prim.Native.Char.{code}
use libstoragemgmt.Base.{
  String, ℕ, zero, suc, ◌+◌, ◌-◌, ◌*◌, ◌/◌, ◌%◌, ℤ, pos, negsuc, Bool, true, false, ◌&&◌, ◌||◌,
  Option, none, some, List, [], ◌∷◌, ◌++◌, ltb, leb, ◌==◌, if◌then◌else◌, length, drop, ◌≡◌, ◌↔◌,
  arith,
}

-- `str(n)`, on fuel of at least the number of digits.
unfoldable pub decimal : ℕ → ℕ → List ℕ
decimal zero n = []
decimal (suc f) n =
    let more = decimal f (n / 10) ++ (b'0' + n % 10) ∷ [] in
    if ltb n 10 then (b'0' + n) ∷ [] else more

unfoldable pub str : ℕ → List ℕ
str n = decimal (suc n) n

unfoldable pub zeros : ℕ → List ℕ
zeros zero = []
zeros (suc k) = b'0' ∷ zeros k

-- `s[-k:]`, and SUBSTR(s, -k, k) of a text of at least k characters
unfoldable pub last : ℕ → List ℕ → List ℕ
last k s = drop (length s - k) s

-- `s.zfill(w)` of a text that has no sign
unfoldable pub zfill : ℕ → List ℕ → List ℕ
zfill w s = zeros (w - length s) ++ s

is_blank : ℕ → Bool
is_blank c = c == 32 || leb 9 c && leb c 13 || leb 28 c && leb c 31

is_digit : ℕ → Bool
is_digit c = leb b'0' c && leb c b'9'

all_blank : List ℕ → Bool
unfolding is_blank
all_blank [] = true
all_blank (c ∷ s) = is_blank c && all_blank s

-- Digits, one underscore between two of them allowed, then blanks. `open_end` says that a digit must
-- come next: none came yet, or an underscore has just been read.
digits : ℕ → Bool → List ℕ → Option ℕ
digits acc open_end [] = if open_end then none else some acc
digits acc open_end (c ∷ s) =
    let next = digits (acc * 10 + (c - b'0')) false s in
    let under = digits acc true s in
    if is_digit c
    then next
    else if open_end
    then none
    else if c == b'_'
    then under
    else if is_blank c && all_blank s
    then some acc
    else none

negative : Option ℕ → Option ℤ
negative none = none
negative (some zero) = some (pos 0)
negative (some (suc n)) = some (negsuc n)

nonneg : Option ℕ → Option ℤ
nonneg none = none
nonneg (some n) = some (pos n)

signed : List ℕ → Option ℤ
unfolding digits negative nonneg
signed [] = none
signed (c ∷ s) =
    if c == b'-'
    then negative (digits 0 true s)
    else if c == b'+'
    then nonneg (digits 0 true s)
    else nonneg (digits 0 true (c ∷ s))

-- `int(s)`; `none` stands for a ValueError.
unfoldable pub int : List ℕ → Option ℤ
unfolding is_blank is_digit all_blank signed
int [] = none
int (c ∷ s) = let rest = int s in if is_blank c then rest else signed (c ∷ s)

-- The code points of a text.
abbrev pub codes : String → List ℕ
codes String.[] = []
codes (String.◌∷◌ c s) = code c ∷ codes s

-- `s == t` on texts
unfoldable pub equal : List ℕ → List ℕ → Bool
equal [] [] = true
equal (c ∷ s) (d ∷ t) = c == d && equal s t
equal _ _ = false

pub equal_iff : (s t : List ℕ) → (equal s t ≡ true) ↔ (s ≡ t)
unfolding equal
equal_iff (c ∷ s) (d ∷ t) = ground (arith, equal_iff s t)
equal_iff _ _ = ground arith
