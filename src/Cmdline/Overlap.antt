-- ===== src/Cmdline/Overlap.antt =====
-- What `_check_overlap` of tools/lsmcli/cmdline.py accepts: sorting and comparing neighbours decides that
-- no two ranges share a block.
use libstoragemgmt.Base.{
  is_some, ℕ, ◌+◌, ◌≤◌, ◌<◌, ◌≡◌, refl, ◌↔◌, ◌⊎◌, inl, inr, true, false, none, some, List, [], ◌∷◌,
  arith, Bool-cases,
}
use libstoragemgmt.Sql.Rows.{All}
use libstoragemgmt.Cmdline.{BlockRange, sort, overlap, check_overlap}
use libstoragemgmt.Cmdline.Sorting.{
  Apart, Disjoint, Sorted, All-sort, All-above, Disjoint-sort, sort-Disjoint, sort-Sorted,
}

module _ (member : BlockRange → ℕ) where
  -- neighbours that do not meet: every later range begins behind the first one
  overlap-All :
      (x : BlockRange) (r : List BlockRange)
      → overlap member (x ∷ r) ≡ false
      → All (λ y. member x + x.block_count ≤ member y) r
  unfolding overlap
  overlap-All x [] h = tt
  overlap-All x (y ∷ r) h =
      let rest : overlap member (y ∷ r) ≡ false = ground arith in
      let near : member x + x.block_count ≤ member y = ground arith in
      (
        near,
        All-above member (member x + x.block_count) (member y + y.block_count) r (omega arith)
            (overlap-All y r rest),
      )

  All-Apart :
      (x : BlockRange) (r : List BlockRange)
      → All (λ y. member x + x.block_count ≤ member y) r
      → All (Apart member x) r
  All-Apart x [] h = tt
  All-Apart x (y ∷ r) (p, h) = (inl p, All-Apart x r h)

  tail-overlap :
      (x : BlockRange) (r : List BlockRange)
      → overlap member (x ∷ r) ≡ false
      → overlap member r ≡ false
  unfolding overlap
  tail-overlap x [] h = refl
  tail-overlap x (y ∷ r) h = ground arith

  pub overlap-Disjoint : (r : List BlockRange) → overlap member r ≡ false → Disjoint member r
  unfolding Disjoint
  overlap-Disjoint [] h = tt
  overlap-Disjoint (x ∷ r) h =
      (All-Apart x r (overlap-All x r h), overlap-Disjoint r (tail-overlap x r h))

  Disjoint-overlap :
      (r : List BlockRange)
      → Sorted member r
      → Disjoint member r
      → All (λ x. 0 < x.block_count) r
      → overlap member r ≡ false
  unfolding overlap Sorted Disjoint
  Disjoint-overlap [] s d p = refl
  Disjoint-overlap (x ∷ []) s d p = refl
  Disjoint-overlap (x ∷ y ∷ r) ((le, _), s) ((xy, _), d) (px, (py, p)) =
      let rest : overlap member (y ∷ r) ≡ false = Disjoint-overlap (y ∷ r) s d (py, p) in
      elim xy [ inl before ↦ ground arith | inr after ↦ absurd (omega arith) ]

abbrev pub src : BlockRange → ℕ
src x = x.src_block

abbrev pub dest : BlockRange → ℕ
dest x = x.dest_block

-- No two ranges share a source block, and no two a destination block.
unfoldable pub BothDisjoint : List BlockRange → Type 0
BothDisjoint r = Disjoint src r × Disjoint dest r

accepted_by :
    (r : List BlockRange)
    → overlap src (sort src r) ≡ false
    → overlap dest (sort dest (sort src r)) ≡ false
    → check_overlap r ≡ some (sort dest (sort src r))
unfolding check_overlap
accepted_by r a b = rw (a, b) refl

refused_src : (r : List BlockRange) → overlap src (sort src r) ≡ true → check_overlap r ≡ none
unfolding check_overlap
refused_src r a = rw a refl

refused_dest :
    (r : List BlockRange)
    → overlap src (sort src r) ≡ false
    → overlap dest (sort dest (sort src r)) ≡ true
    → check_overlap r ≡ none
unfolding check_overlap
refused_dest r a b = rw (a, b) refl

-- Either way of `_check_overlap`.
pub outcomes :
    (r : List BlockRange)
    → ((check_overlap r ≡ none)
        × ((overlap src (sort src r) ≡ true) ⊎ (overlap dest (sort dest (sort src r)) ≡ true)))
      ⊎ ((check_overlap r ≡ some (sort dest (sort src r)))
          × (overlap src (sort src r) ≡ false)
          × (overlap dest (sort dest (sort src r)) ≡ false))
outcomes r = elim (Bool-cases (overlap src (sort src r))) [
  | inl a ↦ inl (refused_src r a, inl a)
  | inr a ↦ elim (Bool-cases (overlap dest (sort dest (sort src r)))) [
    | inl b ↦ inl (refused_dest r a b, inr b)
    | inr b ↦ inr (accepted_by r a b, a, b)
  ]
]

pub accepted-BothDisjoint :
    (r : List BlockRange)
    → overlap src (sort src r) ≡ false
    → overlap dest (sort dest (sort src r)) ≡ false
    → BothDisjoint r
unfolding BothDisjoint
accepted-BothDisjoint r a b = (
  sort-Disjoint src src r (overlap-Disjoint src (sort src r) a),
  sort-Disjoint src dest r
      (sort-Disjoint dest dest (sort src r) (overlap-Disjoint dest (sort dest (sort src r)) b)),
)

BothDisjoint-neighbours :
    (r : List BlockRange)
    → All (λ x. 0 < x.block_count) r
    → BothDisjoint r
    → (overlap src (sort src r) ≡ false) × (overlap dest (sort dest (sort src r)) ≡ false)
unfolding BothDisjoint
BothDisjoint-neighbours r h (a, b) =
    let p = All-sort src (λ x. 0 < x.block_count) r h in
    let q = All-sort dest (λ x. 0 < x.block_count) (sort src r) p in
    (
      Disjoint-overlap src (sort src r) (sort-Sorted src r) (Disjoint-sort src src r a) p,
      Disjoint-overlap dest (sort dest (sort src r)) (sort-Sorted dest (sort src r))
          (Disjoint-sort dest dest (sort src r) (Disjoint-sort src dest r b)) q,
    )

is_accepted : (r : List BlockRange) → is_some (check_overlap r) ≡ true → BothDisjoint r
is_accepted r h = elim (outcomes r) [
  | inl (refused, _) ↦ absurd (ground (arith, refused))
  | inr (_, a, b) ↦ accepted-BothDisjoint r a b
]

-- Comparing neighbours after sorting decides whether any two ranges share a block: for ranges of at least
-- one block, `_check_overlap` returns exactly where no two share a source block and no two share a
-- destination block.
pub check_overlap_iff :
    (r : List BlockRange)
    → All (λ x. 0 < x.block_count) r
    → (is_some (check_overlap r) ≡ true) ↔ BothDisjoint r
check_overlap_iff r h =
    (is_accepted r, λ d. let (a, b) = BothDisjoint-neighbours r h d in rw (accepted_by r a b) refl)
