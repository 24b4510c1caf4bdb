-- ===== src/Cmdline.antt =====
-- The command line, tools/lsmcli/cmdline.py. Here: the ranges of `volume-replicate-range`. argparse has made
-- the numbers non-negative (_check_positive_integer), so the three tests for negative ones never fire.
mod Sorting
mod Overlap
mod Ranges
mod Waiting
mod Address
mod Tests
use libstoragemgmt.Base.{
  ℕ, ◌+◌, Bool, true, false, ◌||◌, not, ◌&&◌, Option, none, some, List, [], ◌∷◌, ltb, leb, ◌==◌,
  if◌then◌else◌, length,
}

pub record BlockRange : Type 0 where
  pub src_block : ℕ
  pub dest_block : ℕ
  pub block_count : ℕ

module _ (member : BlockRange → ℕ) where
  unfoldable pub insert : BlockRange → List BlockRange → List BlockRange
  insert x [] = x ∷ []
  insert x (y ∷ r) =
      let later = y ∷ insert x r in if leb (member x) (member y) then x ∷ y ∷ r else later

  -- `ranges.sort(key=…)`, which is stable
  unfoldable pub sort : List BlockRange → List BlockRange
  sort [] = []
  sort (x ∷ r) = insert x (sort r)

  -- `_overlap(r, member)`: true where it raises
  unfoldable pub overlap : List BlockRange → Bool
  overlap [] = false
  overlap (x ∷ []) = false
  overlap (x ∷ y ∷ r) = ltb (member y) (member x + x.block_count) || overlap (y ∷ r)

-- `_check_overlap`: the list as it leaves it, none for the ArgError
unfoldable pub check_overlap : List BlockRange → Option (List BlockRange)
check_overlap ranges =
    let by_src = sort (λ x. x.src_block) ranges in
    let by_dest = sort (λ x. x.dest_block) by_src in
    if overlap (λ x. x.src_block) by_src
    then none
    else if overlap (λ x. x.dest_block) by_dest
    then none
    else some by_dest

abbrev pub with_range : BlockRange → Option (List BlockRange) → Option (List BlockRange)
with_range x none = none
with_range x (some r) = some (x ∷ r)

-- The loop of `volume_replicate_range`, on lists of one length: none for an ArgError.
unfoldable pub ranges_of : ℕ → ℕ → List ℕ → List ℕ → List ℕ → Option (List BlockRange)
ranges_of src_blocks dst_blocks (s ∷ ss) (d ∷ ds) (c ∷ cs) =
    let rest = ranges_of src_blocks dst_blocks ss ds cs in
    if ltb src_blocks (s + c)
    then none
    else if ltb dst_blocks (d + c)
    then none
    else with_range (record { src_block = s; dest_block = d; block_count = c }) rest
ranges_of src_blocks dst_blocks _ _ _ = some []

abbrev pub then_check : Option (List BlockRange) → Option (List BlockRange)
then_check none = none
then_check (some r) = check_overlap r

-- `volume_replicate_range`, of volumes with these numbers of blocks, as far as the ranges that it asks
-- to replicate
unfoldable pub replicate_ranges : ℕ → ℕ → List ℕ → List ℕ → List ℕ → Option (List BlockRange)
replicate_ranges src_blocks dst_blocks src_starts dst_starts counts =
    if length src_starts == 0
      || not (length src_starts == length dst_starts && length dst_starts == length counts)
    then none
    else then_check (ranges_of src_blocks dst_blocks src_starts dst_starts counts)
