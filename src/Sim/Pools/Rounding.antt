-- ===== src/Sim/Pools/Rounding.antt =====
-- `_block_rounding` of plugin/sim_plugin/simarray.py.
use libstoragemgmt.Base.{◌+◌, ◌%◌, ◌<◌, ℤ, ◌+ℤ◌, ◌≤ℤ◌, pos_part, neg_part, ◌≡◌, arith, floor_512}
use libstoragemgmt.Sim.Pools.{block_rounding}

-- The whole blocks that hold a size: the rounded size is a multiple of 512, at least the size, and
-- less than one block more. It is so for a negative size too.
pub block_rounding_lem :
    (n : ℤ)
    → (n ≤ℤ block_rounding n)
      × (pos_part (block_rounding n) + neg_part n < pos_part n + neg_part (block_rounding n) + 512)
      × (pos_part (block_rounding n) % 512 ≡ 0)
      × (neg_part (block_rounding n) % 512 ≡ 0)
unfolding block_rounding floor_512 ◌+ℤ◌
block_rounding_lem n = ground arith
