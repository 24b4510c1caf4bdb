-- ===== src/Cmdline/Address/Parts.antt =====
-- The parts of an IPv4 address (tools/lsmcli/cmdline.py), checked one by one.
use libstoragemgmt.Base.{
  ℕ, zero, suc, ◌+◌, ◌-◌, sym, ◌*◌, ◌<◌, ◌≡◌, refl, Bool, true, false, ◌&&◌, ◌||◌, not, List, [],
  ◌∷◌, ltb, leb, arith,
}
use libstoragemgmt.Text.{equal_iff, str, equal, int, decimal}
use libstoragemgmt.Cmdline.Address.{valid_part, has}

-- a test of every number below a bound
all_below : (ℕ → Bool) → ℕ → Bool
all_below test zero = true
all_below test (suc n) = test n && all_below test n

all_below_lem : (test : ℕ → Bool) (n k : ℕ) → all_below test n ≡ true → k < n → test k ≡ true
unfolding all_below
all_below_lem test zero k a h = absurd (omega arith)
all_below_lem test (suc n) k a h = ground (arith, all_below_lem test n k)

byte_test : ℕ → Bool
byte_test n = valid_part (str n) && not (has b'.' (str n))

byte_lem : (n : ℕ) → n < 256 → byte_test n ≡ true
unfolding all_below byte_test valid_part str decimal has int
byte_lem n h = all_below_lem byte_test 256 n refl h

-- A part of one, two or three digits that is valid is a number as `str` writes it.
one_test : ℕ → Bool
one_test a = equal (str a) ((b'0' + a) ∷ []) && ltb a 256

two_test : ℕ → ℕ → Bool
two_test b a =
    not (valid_part ((b'0' + a) ∷ (b'0' + b) ∷ []))
    || equal (str (a * 10 + b)) ((b'0' + a) ∷ (b'0' + b) ∷ []) && ltb (a * 10 + b) 256

three_test : ℕ → ℕ → ℕ → Bool
three_test c b a =
    not (valid_part ((b'0' + a) ∷ (b'0' + b) ∷ (b'0' + c) ∷ []))
    || equal (str ((a * 10 + b) * 10 + c)) ((b'0' + a) ∷ (b'0' + b) ∷ (b'0' + c) ∷ [])
      && ltb ((a * 10 + b) * 10 + c) 256

ones : all_below one_test 10 ≡ true
unfolding all_below one_test valid_part str decimal int equal
ones = refl

twos : all_below (λ b. all_below (two_test b) 10) 10 ≡ true
unfolding all_below two_test valid_part str decimal int equal
twos = refl

threes : all_below (λ c. all_below (λ b. all_below (three_test c b) 10) 10) 10 ≡ true
unfolding all_below three_test valid_part str decimal int equal
threes = refl

abbrev pub is_digit : ℕ → Bool
is_digit c = leb b'0' c && leb c b'9'

unfoldable pub all_digits : List ℕ → Bool
all_digits [] = true
all_digits (c ∷ s) = is_digit c && all_digits s

-- what a digit stands for
digit_of : (c : ℕ) → is_digit c ≡ true → (a : ℕ) × (a < 10) × (c ≡ b'0' + a)
digit_of c h = (c - b'0', ground arith, ground arith)

-- The part is one that `str` writes for a byte.
abbrev pub IsByte : List ℕ → Type 0
IsByte p = (n : ℕ) × (n < 256) × (p ≡ str n)

from_test : (p : List ℕ) (n : ℕ) → (equal (str n) p && ltb n 256) ≡ true → IsByte p
from_test p n h = (n, ground arith, sym ((equal_iff (str n) p).0 (ground arith)))

one_digit : (c : ℕ) → is_digit c ≡ true → IsByte (c ∷ [])
unfolding one_test
one_digit c h =
    let (a, l, e) = digit_of c h in
    rw e (from_test ((b'0' + a) ∷ []) a (all_below_lem one_test 10 a ones l))

two_digits :
    (c d : ℕ)
    → is_digit c ≡ true
    → is_digit d ≡ true
    → valid_part (c ∷ d ∷ []) ≡ true
    → IsByte (c ∷ d ∷ [])
unfolding two_test
two_digits c d h g v =
    let (a, l, e) = digit_of c h in
    let (b, k, f) = digit_of d g in
    let t =
      all_below_lem (two_test b) 10 a (all_below_lem (λ b. all_below (two_test b) 10) 10 b twos k)
        l in
    rw (e, f) (from_test ((b'0' + a) ∷ (b'0' + b) ∷ []) (a * 10 + b) (ground (arith, t, v, e, f)))

three_digits :
    (c d x : ℕ)
    → is_digit c ≡ true
    → is_digit d ≡ true
    → is_digit x ≡ true
    → valid_part (c ∷ d ∷ x ∷ []) ≡ true
    → IsByte (c ∷ d ∷ x ∷ [])
unfolding three_test
three_digits c d x h g i v =
    let (a, l, e) = digit_of c h in
    let (b, k, f) = digit_of d g in
    let (y, m, q) = digit_of x i in
    let by_x =
      all_below_lem (λ c. all_below (λ b. all_below (three_test c b) 10) 10) 10 y threes m in
    let by_d = all_below_lem (λ b. all_below (three_test y b) 10) 10 b by_x k in
    let t = all_below_lem (three_test y b) 10 a by_d l in
    rw (e, f, q)
      (from_test ((b'0' + a) ∷ (b'0' + b) ∷ (b'0' + y) ∷ []) ((a * 10 + b) * 10 + y)
        (ground (arith, t, v, e, f, q)))

long_part : (c d x y : ℕ) (s : List ℕ) → valid_part (c ∷ d ∷ x ∷ y ∷ s) ≡ false
unfolding valid_part
long_part c d x y s = ground arith

-- A valid part of digits is a byte as `str` writes it.
pub part-IsByte : (p : List ℕ) → all_digits p ≡ true → valid_part p ≡ true → IsByte p
unfolding all_digits valid_part
part-IsByte [] g v = absurd (ground arith)
part-IsByte (c ∷ []) g v = one_digit c (ground (arith, g))
part-IsByte (c ∷ d ∷ []) g v = two_digits c d (ground (arith, g)) (ground (arith, g)) v
part-IsByte (c ∷ d ∷ x ∷ []) g v =
    three_digits c d x (ground (arith, g)) (ground (arith, g)) (ground (arith, g)) v
part-IsByte (c ∷ d ∷ x ∷ y ∷ s) g v = absurd (ground (arith, long_part c d x y s, v))

-- The other way round: a byte as `str` writes it is valid, and has no dot.
pub byte-valid : (n : ℕ) → n < 256 → valid_part (str n) ≡ true
unfolding byte_test
byte-valid n h = ground (arith, byte_lem n h)

pub byte-no_dot : (n : ℕ) → n < 256 → has b'.' (str n) ≡ false
unfolding byte_test
byte-no_dot n h = ground (arith, byte_lem n h)
