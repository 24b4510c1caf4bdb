-- ===== src/Cmdline/Ranges.antt =====
-- The ranges that `volume_replicate_range` of tools/lsmcli/cmdline.py asks to replicate.
use mathlib.Core.Path.{subst}
use libstoragemgmt.Base.{
  ◌==◌, ◌||◌, ◌&&◌, not, ℕ, ◌+◌, ◌≤◌, ◌≡◌, inl, inr, Option, none, some, List, [], ◌∷◌, ltb, arith,
  Bool-cases, length,
}
use libstoragemgmt.Sql.Rows.{All}
use libstoragemgmt.Cmdline.{
  BlockRange, sort, check_overlap, ranges_of, replicate_ranges, with_range, then_check,
}
use libstoragemgmt.Cmdline.Sorting.{All-sort, Disjoint-sort}
use libstoragemgmt.Cmdline.Overlap.{src, dest, BothDisjoint, outcomes, accepted-BothDisjoint}

-- every range lies in both volumes
unfoldable pub Within : ℕ → ℕ → List BlockRange → Type 0
Within src_blocks dst_blocks r =
    All
      (λ x.
        (x.src_block + x.block_count ≤ src_blocks) × (x.dest_block + x.block_count ≤ dst_blocks))
      r

-- what is known of ranges that were not refused
abbrev Good : ℕ → ℕ → Option (List BlockRange) → Type 0
Good a b none = Unit
Good a b (some r) = Within a b r

with_range-Good :
    (a b : ℕ) (x : BlockRange) (o : Option (List BlockRange))
    → x.src_block + x.block_count ≤ a
    → x.dest_block + x.block_count ≤ b
    → Good a b o
    → Good a b (with_range x o)
unfolding Within
with_range-Good a b x none h k g = tt
with_range-Good a b x (some r) h k g = ((h, k), g)

ranges_of-Good : (a b : ℕ) (ss ds cs : List ℕ) → Good a b (ranges_of a b ss ds cs)
unfolding ranges_of Within
ranges_of-Good a b [] ds cs = tt
ranges_of-Good a b (s ∷ ss) [] cs = tt
ranges_of-Good a b (s ∷ ss) (d ∷ ds) [] = tt
ranges_of-Good a b (s ∷ ss) (d ∷ ds) (c ∷ cs) = elim (Bool-cases (ltb a (s + c))) [
  | inl over ↦ rw over tt
  | inr fits ↦ elim (Bool-cases (ltb b (d + c))) [
    | inl over ↦ rw (fits, over) tt
    | inr fits' ↦
        rw (fits, fits')
          (with_range-Good a b (record { src_block = s; dest_block = d; block_count = c })
            (ranges_of a b ss ds cs) (ground arith) (ground arith) (ranges_of-Good a b ss ds cs))
  ]
]

abbrev Safe : ℕ → ℕ → Option (List BlockRange) → Type 0
Safe a b none = Unit
Safe a b (some r) = Within a b r × BothDisjoint r

checked-Safe : (a b : ℕ) (r : List BlockRange) → Within a b r → Safe a b (check_overlap r)
unfolding Within BothDisjoint
checked-Safe a b r h = elim (outcomes r) [
  | inl (refused, _) ↦ rw refused tt
  | inr (accepted, p, q) ↦
      let (d, e) = accepted-BothDisjoint r p q in
      rw accepted (
        All-sort dest _ (sort src r) (All-sort src _ r h),
        (
          Disjoint-sort dest src (sort src r) (Disjoint-sort src src r d),
          Disjoint-sort dest dest (sort src r) (Disjoint-sort src dest r e),
        ),
      )
]

then_check-Safe : (a b : ℕ) (o : Option (List BlockRange)) → Good a b o → Safe a b (then_check o)
then_check-Safe a b none g = tt
then_check-Safe a b (some r) g = checked-Safe a b r g

replicate_ranges-Safe : (a b : ℕ) (ss ds cs : List ℕ) → Safe a b (replicate_ranges a b ss ds cs)
unfolding replicate_ranges
replicate_ranges-Safe a b ss ds cs =
    elim (Bool-cases (length ss == 0 || not (length ss == length ds && length ds == length cs))) [
      | inl bad ↦ rw bad tt
      | inr good ↦
          rw good (then_check-Safe a b (ranges_of a b ss ds cs) (ranges_of-Good a b ss ds cs))
    ]

-- The ranges that `volume_replicate_range` asks to replicate lie within both volumes, and no two share a source
-- block or a destination block, ranges of no blocks included.
pub replicate_ranges-Within :
    (src_blocks dst_blocks : ℕ) (src_starts dst_starts counts : List ℕ) (r : List BlockRange)
    → replicate_ranges src_blocks dst_blocks src_starts dst_starts counts ≡ some r
    → Within src_blocks dst_blocks r × BothDisjoint r
replicate_ranges-Within a b ss ds cs r e = subst (Safe a b) e (replicate_ranges-Safe a b ss ds cs)
