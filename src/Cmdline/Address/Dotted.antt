-- ===== src/Cmdline/Address/Dotted.antt =====
-- What `_valid_ip4_address` of tools/lsmcli/cmdline.py accepts, among the texts of digits and dots.
use mathlib.Core.Path.{subst}
use libstoragemgmt.Base.{
  ℕ, ◌<◌, ◌≡◌, ◌↔◌, refl, sym, Bool, true, false, ◌&&◌, ◌||◌, List, [], ◌∷◌, ◌++◌, length, ◌==◌,
  arith, inl, inr, Bool-cases, ap,
}
use libstoragemgmt.Text.{str}
use libstoragemgmt.Cmdline.Address.{valid_part, valid_ip4_address, split, put, has, every}
use libstoragemgmt.Cmdline.Address.Parts.{
  is_digit, all_digits, IsByte, part-IsByte, byte-valid, byte-no_dot,
}

-- every character is a digit or a dot
unfoldable pub digits_or_dots : List ℕ → Bool
digits_or_dots [] = true
digits_or_dots (c ∷ s) = (is_digit c || c == b'.') && digits_or_dots s

-- the parts with a dot between two of them
join : List (List ℕ) → List ℕ
join [] = []
join (p ∷ []) = p
join (p ∷ q ∷ ps) = p ++ b'.' ∷ join (q ∷ ps)

-- The text is four bytes in decimal with dots between them.
abbrev pub IsDotted : List ℕ → Type 0
IsDotted s =
    (a b c d : ℕ) × (a < 256)
    × (b < 256)
    × (c < 256)
    × (d < 256)
    × (s ≡ str a ++ b'.' ∷ (str b ++ b'.' ∷ (str c ++ b'.' ∷ str d)))

join-put : (c : ℕ) (ps : List (List ℕ)) → join (put c ps) ≡ c ∷ join ps
unfolding join
join-put c [] = refl
join-put c (p ∷ []) = refl
join-put c (p ∷ q ∷ ps) = refl

-- splitting gives a first part
split_first : (s : List ℕ) → (p : List ℕ) × (ps : List (List ℕ)) × (split b'.' s ≡ p ∷ ps)
unfolding split
split_first [] = ([], [], refl)
split_first (c ∷ s) = elim (Bool-cases (c == b'.')) [
  | inl dot ↦ ([], split b'.' s, rw dot refl)
  | inr other ↦ let (p, ps, e) = split_first s in (c ∷ p, ps, rw (other, e) refl)
]

join-split : (s : List ℕ) → join (split b'.' s) ≡ s
unfolding join split
join-split [] = refl
join-split (c ∷ s) = elim (Bool-cases (c == b'.')) [
  | inl dot ↦
      let (p, ps, e) = split_first s in
      let j : join (p ∷ ps) ≡ s = rw (sym e) (join-split s) in
      let at : c ≡ b'.' = ground arith in rw (dot, e, at) (ap (λ t. b'.' ∷ t) j)
  | inr other ↦ rw (other, join-put c (split b'.' s)) (ap (λ t. c ∷ t) (join-split s))
]

put-digits :
    (c : ℕ) (ps : List (List ℕ))
    → is_digit c ≡ true
    → every all_digits ps ≡ true
    → every all_digits (put c ps) ≡ true
unfolding every all_digits
put-digits c [] h g = ground arith
put-digits c (p ∷ ps) h g = ground arith

split-digits : (s : List ℕ) → digits_or_dots s ≡ true → every all_digits (split b'.' s) ≡ true
unfolding split digits_or_dots every all_digits
split-digits [] h = refl
split-digits (c ∷ s) h = elim (Bool-cases (c == b'.')) [
  | inl dot ↦ rw dot (split-digits s (ground (arith, h)))
  | inr other ↦
      rw other
        (put-digits c (split b'.' s) (ground (arith, h)) (split-digits s (ground (arith, h))))
]

no_slash : (s : List ℕ) → digits_or_dots s ≡ true → has b'/' s ≡ false
unfolding digits_or_dots has
no_slash [] h = refl
no_slash (c ∷ s) h = ground (arith, no_slash s)

four_bytes :
    (p q r t : List ℕ)
    → IsByte p
    → IsByte q
    → IsByte r
    → IsByte t
    → IsDotted (p ++ b'.' ∷ (q ++ b'.' ∷ (r ++ b'.' ∷ t)))
four_bytes p q r t (a, al, ae) (b, bl, be) (c, cl, ce) (d, dl, de) =
    (a, b, c, d, al, bl, cl, dl, rw (ae, be, ce, de) refl)

four_parts :
    (ps : List (List ℕ))
    → length ps ≡ 4
    → every all_digits ps ≡ true
    → every valid_part ps ≡ true
    → IsDotted (join ps)
unfolding every join
four_parts [] l h v = absurd (omega arith)
four_parts (p ∷ []) l h v = absurd (omega arith)
four_parts (p ∷ q ∷ []) l h v = absurd (omega arith)
four_parts (p ∷ q ∷ r ∷ []) l h v = absurd (omega arith)
four_parts (p ∷ q ∷ r ∷ t ∷ []) l h v =
    four_bytes p q r t (part-IsByte p (ground (arith, h)) (ground (arith, v)))
      (part-IsByte q (ground (arith, h)) (ground (arith, v)))
      (part-IsByte r (ground (arith, h)) (ground (arith, v)))
      (part-IsByte t (ground (arith, h)) (ground (arith, v)))
four_parts (p ∷ q ∷ r ∷ t ∷ x ∷ ps) l h v = absurd (omega arith)

split-append : (p s : List ℕ) → has b'.' p ≡ false → split b'.' (p ++ b'.' ∷ s) ≡ p ∷ split b'.' s
unfolding split has
split-append [] s h = refl
split-append (c ∷ p) s h =
    let n : (c == b'.') ≡ false = ground (arith, h) in
    rw (n, split-append p s (ground (arith, h))) refl

split-whole : (p : List ℕ) → has b'.' p ≡ false → split b'.' p ≡ p ∷ []
unfolding split has
split-whole [] h = refl
split-whole (c ∷ p) h =
    let n : (c == b'.') ≡ false = ground (arith, h) in
    rw (n, split-whole p (ground (arith, h))) refl

split-dotted :
    (a b c d : ℕ)
    → a < 256
    → b < 256
    → c < 256
    → d < 256
    → split b'.' (str a ++ b'.' ∷ (str b ++ b'.' ∷ (str c ++ b'.' ∷ str d)))
      ≡ str a ∷ str b ∷ str c ∷ str d ∷ []
split-dotted a b c d al bl cl dl =
    rw
      (
        split-append (str a) (str b ++ b'.' ∷ (str c ++ b'.' ∷ str d)) (byte-no_dot a al),
        split-append (str b) (str c ++ b'.' ∷ str d) (byte-no_dot b bl),
        split-append (str c) (str d) (byte-no_dot c cl),
        split-whole (str d) (byte-no_dot d dl),
      )
      refl

every_dotted :
    (a b c d : ℕ)
    → a < 256
    → b < 256
    → c < 256
    → d < 256
    → every valid_part (str a ∷ str b ∷ str c ∷ str d ∷ []) ≡ true
unfolding every
every_dotted a b c d al bl cl dl =
    rw (byte-valid a al, byte-valid b bl, byte-valid c cl, byte-valid d dl) refl

accepted : (s : List ℕ) → digits_or_dots s ≡ true → valid_ip4_address s ≡ true → IsDotted s
unfolding valid_ip4_address
accepted [] h v = absurd (ground arith)
accepted (c ∷ s) h v = subst IsDotted (join-split (c ∷ s)) (
    four_parts (split b'.' (c ∷ s)) (ground (arith, v)) (split-digits (c ∷ s) h)
      (ground (arith, v)))

valid_if :
    (s : List ℕ)
    → length (split b'.' s) ≡ 4
    → has b'/' s ≡ false
    → every valid_part (split b'.' s) ≡ true
    → valid_ip4_address s ≡ true
unfolding valid_ip4_address split
valid_if [] l h v = absurd (omega (arith, l))
valid_if (c ∷ s) l h v = rw (l, h, v) refl

dotted-valid : (s : List ℕ) → digits_or_dots s ≡ true → IsDotted s → valid_ip4_address s ≡ true
dotted-valid s h (a, b, c, d, al, bl, cl, dl, e) =
    let parts : split b'.' s ≡ str a ∷ str b ∷ str c ∷ str d ∷ [] =
      rw e (split-dotted a b c d al bl cl dl) in
    valid_if s (rw parts refl) (no_slash s h) (rw parts (every_dotted a b c d al bl cl dl))

-- Of the texts that hold only digits and dots, an IPv4 address is valid exactly where it is four numbers from 0
-- to 255, as `str` writes them, with dots between them.
pub valid_ip4_address_iff :
    (s : List ℕ) → digits_or_dots s ≡ true → (valid_ip4_address s ≡ true) ↔ IsDotted s
valid_ip4_address_iff s h = (accepted s h, dotted-valid s h)
