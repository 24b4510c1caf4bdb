-- ===== src/Sim/Raid/Bounds.antt =====
-- The data disks that `PoolRAID.data_disk_count` counts (plugin/sim_plugin/simarray.py).
use libstoragemgmt.Base.{ℕ, ◌+◌, ◌*◌, ◌≤◌, ◌<◌, ◌≡◌, arith}
use libstoragemgmt.Common.{ok}
use libstoragemgmt.Sim.Constants.{RaidType}
use libstoragemgmt.Sim.Raid.{data_disk_count, copies, parity_disks}

-- An accepted disk count leaves at least one data disk, and the disks of the set are enough for every
-- copy of the data and for the parity of the level.
pub data_disk_count_bounds :
    (t : RaidType) (n d : ℕ)
    → data_disk_count t n ≡ ok d
    → (0 < d) × (copies t * (d + parity_disks t) ≤ n)
unfolding data_disk_count
data_disk_count_bounds RaidType.jbod n d h = ground arith
data_disk_count_bounds _ n d h = ground arith
