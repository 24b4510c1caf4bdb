-- ===== src/Doubles.antt =====
-- Python's floats from 0 on: a double is a multiple of 2^-1074, and is given as that multiple. A result is
-- the nearest double, to even where two are as near; none here reaches 2^1024.
use libstoragemgmt.Base.{
  ◌-◌, ◌^◌, ℕ, zero, suc, ◌+◌, ◌*◌, ◌/◌, ◌%◌, ◌≤◌, ◌<◌, true, false, ltb, leb, ◌==◌, if◌then◌else◌,
  ◌≡◌, refl, arith, ◌⊎◌, inl, inr, Bool-cases,
}
use native.Mathlib.Nat.{div-add-mod, mod-lt}

-- the integer nearest to n / d
unfoldable pub nearest : ℕ → ℕ → ℕ
nearest n d =
    if ltb (n % d + n % d) d
    then n / d
    else if ltb d (n % d + n % d)
    then suc (n / d)
    else if (n / d) % 2 == 0
    then n / d
    else suc (n / d)

-- The double nearest to n / d: of 53 bits, so the denominator is doubled until the quotient is below
-- 2^53. The first argument is fuel, of which n is enough.
unfoldable pub rounded : ℕ → ℕ → ℕ → ℕ
rounded zero n d = nearest n d
rounded (suc f) n d = elim (ltb n (9007199254740992 * d)) [
  | true ↦ nearest n d
  | false ↦ 2 * rounded f n (d + d)
]

unfoldable pub fl : ℕ → ℕ → ℕ
fl n d = rounded n n d

-- 1.0
unfoldable pub one : ℕ
one = 2 ^ 1074

-- `a - b`, where a is not below b
unfoldable pub sub_double : ℕ → ℕ → ℕ
sub_double a b = fl (a - b) 1

unfoldable pub div_double : ℕ → ℕ → ℕ
div_double a b = fl (a * one) b

-- `a * 100`
unfoldable pub hundredfold : ℕ → ℕ
hundredfold a = fl (a * 100) 1

-- `int(a)`
unfoldable pub int_of : ℕ → ℕ
int_of a = a / one

-- the quotient with the half of the divisor that is not exceeded
nearest_cases :
    (n d : ℕ)
    → ((nearest n d ≡ n / d) × (2 * (n % d) ≤ d))
      ⊎ ((nearest n d ≡ suc (n / d)) × (d ≤ 2 * (n % d)))
unfolding nearest
nearest_cases n d = ground arith

-- Rounding to an integer is wrong by at most one half.
nearest_bounds :
    (n d : ℕ) → 0 < d → (2 * (nearest n d * d) ≤ 2 * n + d) × (2 * n ≤ 2 * (nearest n d * d) + d)
nearest_bounds n d h =
    let e : d * (n / d) + n % d ≡ n = div-add-mod n d in
    let l : n % d < d = mod-lt n h in
    elim (nearest_cases n d) [
      | inl (below, half) ↦ rw below (omega (arith, e), omega (arith, e))
      | inr (above, half) ↦ rw above (omega (arith, e, l), omega (arith, e, l))
    ]

-- A rounded quotient of at least 2^52 is wrong by at most the part 2^-53 of it.
pub rounded_bounds :
    (f n d : ℕ)
    → 0 < d
    → n ≤ f + d
    → 4503599627370496 * d ≤ n
    → (9007199254740992 * (rounded f n d * d) ≤ 9007199254740992 * n + n)
      × (9007199254740992 * n ≤ 9007199254740992 * (rounded f n d * d) + n)
unfolding rounded
rounded_bounds zero n d p h g =
    let (u, l) = nearest_bounds n d p in (omega (arith, u), omega (arith, l))
rounded_bounds (suc f) n d p h g = elim (Bool-cases (ltb n (9007199254740992 * d))) [
  | inl small ↦
      let (u, l) = nearest_bounds n d p in rw (rounded, small) (omega (arith, u), omega (arith, l))
  | inr large ↦
      let (u, l) = rounded_bounds f n (d + d) (omega arith) (omega arith) (ground arith) in
      rw (rounded, large) (omega (arith, u), omega (arith, l))
]

-- a smaller one is at most 2^52
rounded_small :
    (f n d : ℕ) → 0 < d → n ≤ 4503599627370496 * d → rounded f n d * d ≤ 4503599627370496 * d + d
unfolding rounded
rounded_small zero n d p h = let (u, l) = nearest_bounds n d p in omega (arith, u)
rounded_small (suc f) n d p h = elim (Bool-cases (ltb n (9007199254740992 * d))) [
  | inl small ↦ let (u, l) = nearest_bounds n d p in rw (rounded, small) (omega (arith, u))
  | inr large ↦ absurd (ground arith)
]

-- The result of `fl` is right up to the part 2^-53 of it, if it is at least 2^52.
pub fl_bounds :
    (n d : ℕ)
    → 0 < d
    → 4503599627370496 * d ≤ n
    → (9007199254740992 * (fl n d * d) ≤ 9007199254740992 * n + n)
      × (9007199254740992 * n ≤ 9007199254740992 * (fl n d * d) + n)
unfolding fl
fl_bounds n d p h = rounded_bounds n n d p (omega arith) h

pub fl_small : (n d : ℕ) → 0 < d → n ≤ 4503599627370496 * d → fl n d * d ≤ 4503599627370496 * d + d
unfolding fl
fl_small n d p h = rounded_small n n d p h

one_large : leb 1152921504606846976 one ≡ true
unfolding one
one_large = refl

-- 1.0 is more than 2^59 units
pub one-lt : 1152921504606846975 < one
one-lt = ground (arith, one_large)
