-- ===== src/Text/Numbers.antt =====
-- What `int` reads of a number that `str` wrote, with zeros before it, or cut to its last digits.
use Prim.Native.Nat.add
use native.Mathlib.Nat.{sub-zero}
use mathlib.Core.List.{append_assoc, append-nil}
use libstoragemgmt.Base.{
  ℕ, zero, suc, ◌+◌, ◌-◌, ◌*◌, ◌/◌, ◌%◌, ◌≤◌, ◌<◌, pos, ◌≡◌, refl, sym, ap, ◌∙◌, inl, inr, ltb,
  Bool-cases, Bool, true, false, some, List, [], ◌∷◌, ◌++◌, arith, ◌==◌, leb, ◌&&◌, length, drop,
  length-append,
}
use libstoragemgmt.Text.{decimal, str, zeros, last, zfill, digits, nonneg, is_blank, is_digit, int}

-- the last k decimal digits of a number
unfoldable pub pad : ℕ → ℕ → List ℕ
pad zero n = []
pad (suc k) n = pad k (n / 10) ++ (b'0' + n % 10) ∷ []

pub drop-append : (k : ℕ) (s t : List ℕ) → drop (length s + k) (s ++ t) ≡ drop k t
drop-append k [] t = rw (add.zero k)
drop-append k (c ∷ s) t = rw (add.suc (length s) k) (drop-append k s t)

drop-append_left : (k : ℕ) (s t : List ℕ) → k ≤ length s → drop k (s ++ t) ≡ drop k s ++ t
drop-append_left zero s t h = refl
drop-append_left (suc k) [] t h = elim h [ ]
drop-append_left (suc k) (c ∷ s) t h = drop-append_left k s t (omega arith)

drop-length : (s : List ℕ) → drop (length s) s ≡ []
drop-length [] = refl
drop-length (c ∷ s) = drop-length s

-- The characters from the end are taken off one by one.
last-append :
    (k : ℕ) (s : List ℕ) (c : ℕ) → k ≤ length s → last (suc k) (s ++ c ∷ []) ≡ last k s ++ c ∷ []
unfolding last
last-append k s c h =
    let l : length (s ++ c ∷ []) ≡ length s + 1 = length-append s (c ∷ []) in
    let e : length (s ++ c ∷ []) - suc k ≡ length s - k = omega arith in
    rw e (drop-append_left (length s - k) s (c ∷ []) (omega arith))

length-zeros : (k : ℕ) → length (zeros k) ≡ k
unfolding zeros
length-zeros zero = refl
length-zeros (suc k) = ap suc (length-zeros k)

zeros-suc : (k : ℕ) → zeros (suc k) ≡ zeros k ++ b'0' ∷ []
unfolding zeros
zeros-suc zero = refl
zeros-suc (suc k) = ap (λ s. b'0' ∷ s) (zeros-suc k)

last-zero : (s : List ℕ) → last 0 s ≡ []
unfolding last
last-zero s = rw (sub-zero (length s)) (drop-length s)

last-zeros : (k j : ℕ) → k ≤ j → last k (zeros j) ≡ pad k 0
unfolding pad
last-zeros zero j h = last-zero (zeros j)
last-zeros (suc k) zero h = elim h [ ]
last-zeros (suc k) (suc j) h = rw zeros-suc (
    rw (last-append k (zeros j) b'0' (omega (arith, length-zeros j)))
      (rw (last-zeros k j (omega arith))))

enough-zeros : (k j : ℕ) (s : List ℕ) → suc k ≤ j → k ≤ length (zeros j ++ s)
enough-zeros k j s h =
    let l : length (zeros j ++ s) ≡ length (zeros j) + length s = length-append (zeros j) s in
    omega (arith, length-zeros j)

pub last-decimal : (k j f n : ℕ) → k ≤ j → n < f → last k (zeros j ++ decimal f n) ≡ pad k n
unfolding pad decimal
last-decimal zero j f n h g = last-zero (zeros j ++ decimal f n)
last-decimal (suc k) j zero n h g = elim g [ ]
last-decimal (suc k) j (suc f) n h g = elim (Bool-cases (ltb n 10)) [
  | inl small ↦ rw small (
      rw (last-append k (zeros j) (b'0' + n) (omega (arith, length-zeros j))) (
        let q : n / 10 ≡ 0 = ground arith in
        let r : n % 10 ≡ n = ground arith in rw (q, r, last-zeros k j (omega arith))))
  | inr large ↦ rw large (
      rw (← append_assoc) (
        rw
          (last-append k (zeros j ++ decimal f (n / 10)) (b'0' + n % 10)
            (enough-zeros k j (decimal f (n / 10)) h))
          (rw (last-decimal k j f (n / 10) (omega arith) (ground arith)))))
]

digits-step :
    (acc : ℕ) (o : Bool) (d : ℕ) (s : List ℕ)
    → d < 10
    → digits acc o ((b'0' + d) ∷ s) ≡ digits (acc * 10 + d) false s
unfolding digits is_digit
digits-step acc o d s h =
    let e : b'0' + d - b'0' ≡ d = omega arith in
    let f : (leb b'0' (b'0' + d) && leb (b'0' + d) b'9') ≡ true = ground arith in rw (f, e)

int-digit : (d : ℕ) (s : List ℕ) → d < 10 → int ((b'0' + d) ∷ s) ≡ nonneg (digits d false s)
unfolding int
int-digit d s h =
    let b : is_blank (b'0' + d) ≡ false = ground arith in
    let m : ((b'0' + d) == b'-') ≡ false = ground arith in
    let p : ((b'0' + d) == b'+') ≡ false = ground arith in
    rw (b, m, p) (ap nonneg (digits-step 0 true d s h ∙ ap (λ n. digits n false s) (omega arith)))

mod-ten : (m : ℕ) → m % 10 < 10
mod-ten m = omega arith

digits-end : (acc : ℕ) → digits acc false [] ≡ some acc
unfolding digits
digits-end acc = refl

-- The five last digits are read as a number below 100000.
pub int-pad : (n : ℕ) → int (pad 5 n) ≡ some (pos (n % 100000))
unfolding pad nonneg
int-pad n =
    int-digit _ _ (mod-ten (n / 10 / 10 / 10 / 10))
    ∙ ap nonneg (
        digits-step _ _ _ _ (mod-ten (n / 10 / 10 / 10))
        ∙ digits-step _ _ _ _ (mod-ten (n / 10 / 10))
        ∙ digits-step _ _ _ _ (mod-ten (n / 10))
        ∙ digits-step _ _ _ _ (mod-ten n)
        ∙ digits-end _
        ∙ ap some (omega arith))

pub length-pad : (k n : ℕ) → length (pad k n) ≡ k
unfolding pad
length-pad zero n = refl
length-pad (suc k) n =
    let l : length (pad k (n / 10) ++ (b'0' + n % 10) ∷ []) ≡ length (pad k (n / 10)) + 1 =
      length-append (pad k (n / 10)) ((b'0' + n % 10) ∷ []) in
    omega (arith, length-pad k (n / 10))

pub last-prefix : (k : ℕ) (p t : List ℕ) → length t ≡ k → last k (p ++ t) ≡ t
unfolding last
last-prefix k p t h =
    let l : length (p ++ t) ≡ length p + length t = length-append p t in
    let e : length (p ++ t) - k ≡ length p + 0 = omega arith in rw e (drop-append 0 p t)

digits-zeros :
    (k : ℕ) (o : Bool) (s : List ℕ)
    → digits 0 false s ≡ digits 0 o s
    → digits 0 o (zeros k ++ s) ≡ digits 0 o s
unfolding zeros
digits-zeros zero o s h = refl
digits-zeros (suc k) o s h =
    digits-step 0 o 0 (zeros k ++ s) (omega arith)
    ∙ ap (λ m. digits m false (zeros k ++ s)) (omega arith)
    ∙ digits-zeros k false s refl
    ∙ h

-- Digits written are digits read, with any text behind them.
digits-decimal :
    (f n : ℕ) (o : Bool) (s : List ℕ) → n < f → digits 0 o (decimal f n ++ s) ≡ digits n false s
unfolding decimal
digits-decimal zero n o s h = elim h [ ]
digits-decimal (suc f) n o s h = elim (Bool-cases (ltb n 10)) [
  | inl small ↦
      rw small (digits-step 0 o n s (ground arith) ∙ ap (λ m. digits m false s) (omega arith))
  | inr large ↦ rw large (
      rw append_assoc (
        digits-decimal f (n / 10) o ((b'0' + n % 10) ∷ s) (ground arith)
        ∙ digits-step (n / 10) false (n % 10) s (omega arith)
        ∙ ap (λ m. digits m false s) (omega arith)))
]

-- A written number starts with a digit.
decimal-head :
    (f n : ℕ) → n < f → (d : ℕ) × (s : List ℕ) × (d < 10) × (decimal f n ≡ (b'0' + d) ∷ s)
unfolding decimal
decimal-head zero n h = elim h [ ]
decimal-head (suc f) n h = elim (Bool-cases (ltb n 10)) [
  | inl small ↦ (n, [], ground arith, rw small refl)
  | inr large ↦ first (decimal-head f (n / 10) (ground arith)) large
]
  where
    first :
        (d : ℕ) × (s : List ℕ) × (d < 10) × (decimal f (n / 10) ≡ (b'0' + d) ∷ s)
        → ltb n 10 ≡ false
        → (d : ℕ) × (s : List ℕ) × (d < 10) × (decimal (suc f) n ≡ (b'0' + d) ∷ s)
    first (d, s, small, e) large = (d, s ++ (b'0' + n % 10) ∷ [], small, rw (large, e) refl)

int-of_digits :
    (d : ℕ) (s : List ℕ) → d < 10 → int ((b'0' + d) ∷ s) ≡ nonneg (digits 0 true ((b'0' + d) ∷ s))
int-of_digits d s h =
    int-digit d s h
    ∙ ap nonneg (ap (λ m. digits m false s) (omega arith) ∙ sym (digits-step 0 true d s h))

int-zeros :
    (k : ℕ) (t : List ℕ) (n : ℕ)
    → int t ≡ nonneg (digits 0 true t)
    → digits 0 true t ≡ some n
    → digits 0 false t ≡ some n
    → int (zeros k ++ t) ≡ some (pos n)
unfolding zeros nonneg
int-zeros zero t n h e e' = h ∙ ap nonneg e
int-zeros (suc k) t n h e e' =
    int-of_digits 0 (zeros k ++ t) (omega arith)
    ∙ ap nonneg (digits-zeros (suc k) true t (e' ∙ sym e) ∙ e)

int-decimal : (n : ℕ) → int (str n) ≡ nonneg (digits 0 true (str n))
unfolding str
int-decimal n = written (decimal-head (suc n) n (omega arith))
  where
    written :
        (d : ℕ) × (s : List ℕ) × (d < 10) × (decimal (suc n) n ≡ (b'0' + d) ∷ s)
        → int (decimal (suc n) n) ≡ nonneg (digits 0 true (decimal (suc n) n))
    written (d, s, small, e) = rw e (int-of_digits d s small)

digits-str : (n : ℕ) (o : Bool) → digits 0 o (str n) ≡ some n
unfolding str
digits-str n o =
    ap (digits 0 o) (sym (append-nil (decimal (suc n) n)))
    ∙ digits-decimal (suc n) n o [] (omega arith)
    ∙ digits-end n

-- A number that is written with zeros before it is read back.
pub int-zfill : (w n : ℕ) → int (zfill w (str n)) ≡ some (pos n)
unfolding zfill
int-zfill w n =
    int-zeros (w - length (str n)) (str n) n (int-decimal n) (digits-str n true)
      (digits-str n false)

-- the least number with more than k digits
unfoldable pub ten_to : ℕ → ℕ
ten_to zero = 1
ten_to (suc k) = 10 * ten_to k

length-decimal : (k f n : ℕ) → n < f → n < ten_to (suc k) → length (decimal f n) ≤ suc k
unfolding decimal ten_to
length-decimal k zero n h g = elim h [ ]
length-decimal zero (suc f) n h g = ground arith
length-decimal (suc k) (suc f) n h g = elim (Bool-cases (ltb n 10)) [
  | inl small ↦ rw small (omega arith)
  | inr large ↦ rw large (
      let rest : length (decimal f (n / 10)) ≤ suc k =
        length-decimal k f (n / 10) (ground arith) (omega arith) in
      let l : length (decimal f (n / 10) ++ (b'0' + n % 10) ∷ [])
          ≡ length (decimal f (n / 10)) + 1 =
        length-append (decimal f (n / 10)) ((b'0' + n % 10) ∷ []) in
      omega arith)
]

pub length-zfill : (k n : ℕ) → n < ten_to (suc k) → length (zfill (suc k) (str n)) ≡ suc k
unfolding zfill str
length-zfill k n h =
    let s : length (decimal (suc n) n) ≤ suc k = length-decimal k (suc n) n (omega arith) h in
    let l : length (zeros (suc k - length (decimal (suc n) n)) ++ decimal (suc n) n)
        ≡ length (zeros (suc k - length (decimal (suc n) n))) + length (decimal (suc n) n) =
      length-append (zeros (suc k - length (decimal (suc n) n))) (decimal (suc n) n) in
    omega (arith, length-zeros (suc k - length (decimal (suc n) n)))
