-- ===== src/Cmdline/Sorting.antt =====
-- The ranges of tools/lsmcli/cmdline.py as `sort` orders them, and what sorting keeps.
use mathlib.Core.Path.{subst}
use libstoragemgmt.Base.{
  ℕ, ◌+◌, ◌≤◌, ◌≡◌, refl, ◌⊎◌, inl, inr, true, false, List, [], ◌∷◌, leb, arith, Bool-cases,
}
use libstoragemgmt.Sql.Rows.{All}
use libstoragemgmt.Cmdline.{BlockRange, insert, sort}

module _ (member : BlockRange → ℕ) where
  -- no block of one range is a block of the other
  abbrev pub Apart : BlockRange → BlockRange → Type 0
  Apart x y = (member x + x.block_count ≤ member y) ⊎ (member y + y.block_count ≤ member x)

  unfoldable pub Disjoint : List BlockRange → Type 0
  Disjoint [] = Unit
  Disjoint (x ∷ r) = All (Apart x) r × Disjoint r

  Apart-sym : (x y : BlockRange) → Apart x y → Apart y x
  Apart-sym x y (inl h) = inr h
  Apart-sym x y (inr h) = inl h

module _ (member : BlockRange → ℕ) where
  pub All-insert :
      (P : BlockRange → Type 0) (x : BlockRange) (r : List BlockRange)
      → P x
      → All P r
      → All P (insert member x r)
  unfolding insert
  All-insert P x [] p h = (p, tt)
  All-insert P x (y ∷ r) p h = elim (Bool-cases (leb (member x) (member y))) [
    | inl first ↦ rw first (p, h)
    | inr later ↦ rw later (h.0, All-insert P x r p h.1)
  ]

  insert_first :
      (x y : BlockRange) (r : List BlockRange)
      → leb (member x) (member y) ≡ true
      → insert member x (y ∷ r) ≡ x ∷ y ∷ r
  unfolding insert
  insert_first x y r h = rw h refl

  insert_later :
      (x y : BlockRange) (r : List BlockRange)
      → leb (member x) (member y) ≡ false
      → insert member x (y ∷ r) ≡ y ∷ insert member x r
  unfolding insert
  insert_later x y r h = rw h refl

  insert_end : (x : BlockRange) → insert member x [] ≡ x ∷ []
  unfolding insert
  insert_end x = refl

  insert-All :
      (P : BlockRange → Type 0) (x : BlockRange) (r : List BlockRange)
      → All P (insert member x r)
      → P x × All P r
  insert-All P x [] h = subst (All P) (insert_end x) h
  insert-All P x (y ∷ r) h = elim (Bool-cases (leb (member x) (member y))) [
    | inl first ↦ subst (All P) (insert_first x y r first) h
    | inr later ↦
        let (py, rest) = subst (All P) (insert_later x y r later) h in
        let (px, pr) = insert-All P x r rest in (px, (py, pr))
  ]

  Disjoint-insert :
      (m : BlockRange → ℕ) (x : BlockRange) (r : List BlockRange)
      → Disjoint m (x ∷ r)
      → Disjoint m (insert member x r)
  unfolding Disjoint
  Disjoint-insert m x [] h = rw (insert_end x) h
  Disjoint-insert m x (y ∷ r) ((xy, xr), (yr, rest)) =
      elim (Bool-cases (leb (member x) (member y))) [
        | inl first ↦ rw (insert_first x y r first) ((xy, xr), (yr, rest))
        | inr later ↦
            rw (insert_later x y r later)
              (All-insert (Apart m y) x r (Apart-sym m x y xy) yr, Disjoint-insert m x r (xr, rest))
      ]

  insert-Disjoint :
      (m : BlockRange → ℕ) (x : BlockRange) (r : List BlockRange)
      → Disjoint m (insert member x r)
      → Disjoint m (x ∷ r)
  unfolding Disjoint
  insert-Disjoint m x [] h = (tt, tt)
  insert-Disjoint m x (y ∷ r) h = elim (Bool-cases (leb (member x) (member y))) [
    | inl first ↦ subst (Disjoint m) (insert_first x y r first) h
    | inr later ↦
        let (all_y, tail) = subst (Disjoint m) (insert_later x y r later) h in
        let (yx, yr) = insert-All (Apart m y) x r all_y in
        let (xr, rest) = insert-Disjoint m x r tail in ((Apart-sym m y x yx, xr), (yr, rest))
  ]

  -- Sorting keeps what holds of every range, and of every two of them.
  pub All-sort : (P : BlockRange → Type 0) (r : List BlockRange) → All P r → All P (sort member r)
  unfolding sort
  All-sort P [] h = tt
  All-sort P (x ∷ r) (p, h) = All-insert P x (sort member r) p (All-sort P r h)

  pub sort-All : (P : BlockRange → Type 0) (r : List BlockRange) → All P (sort member r) → All P r
  unfolding sort
  sort-All P [] h = tt
  sort-All P (x ∷ r) h = let (p, rest) = insert-All P x (sort member r) h in (p, sort-All P r rest)

  pub Disjoint-sort :
      (m : BlockRange → ℕ) (r : List BlockRange) → Disjoint m r → Disjoint m (sort member r)
  unfolding sort Disjoint
  Disjoint-sort m [] h = tt
  Disjoint-sort m (x ∷ r) (xr, h) =
      Disjoint-insert m x (sort member r) (All-sort (Apart m x) r xr, Disjoint-sort m r h)

  pub sort-Disjoint :
      (m : BlockRange → ℕ) (r : List BlockRange) → Disjoint m (sort member r) → Disjoint m r
  unfolding sort Disjoint
  sort-Disjoint m [] h = tt
  sort-Disjoint m (x ∷ r) h =
      let (xr, rest) = insert-Disjoint m x (sort member r) h in
      (sort-All (Apart m x) r xr, sort-Disjoint m r rest)

  -- the members do not fall
  unfoldable pub Sorted : List BlockRange → Type 0
  Sorted [] = Unit
  Sorted (x ∷ r) = All (λ y. member x ≤ member y) r × Sorted r

  pub All-above :
      (a b : ℕ) (r : List BlockRange)
      → a ≤ b
      → All (λ y. b ≤ member y) r
      → All (λ y. a ≤ member y) r
  All-above a b [] le h = tt
  All-above a b (y ∷ r) le (p, h) = (omega arith, All-above a b r le h)

  Sorted-insert : (x : BlockRange) (r : List BlockRange) → Sorted r → Sorted (insert member x r)
  unfolding Sorted
  Sorted-insert x [] h = rw (insert_end x) (tt, tt)
  Sorted-insert x (y ∷ r) (yr, rest) = elim (Bool-cases (leb (member x) (member y))) [
    | inl first ↦
        rw (insert_first x y r first)
          ((ground arith, All-above (member x) (member y) r (ground arith) yr), (yr, rest))
    | inr later ↦
        rw (insert_later x y r later)
          (All-insert (λ z. member y ≤ member z) x r (ground arith) yr, Sorted-insert x r rest)
  ]

  pub sort-Sorted : (r : List BlockRange) → Sorted (sort member r)
  unfolding sort Sorted
  sort-Sorted [] = tt
  sort-Sorted (x ∷ r) = Sorted-insert x (sort member r) (sort-Sorted r)
