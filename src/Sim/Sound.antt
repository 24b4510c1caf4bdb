-- ===== src/Sim/Sound.antt =====
-- The invariant of the state file under the methods of `SimArray` (plugin/sim_plugin/simarray.py).
pub mod Frame
pub mod Volumes
pub mod Filesystems
pub mod Transactions
pub mod Bodies
pub mod Calls
pub mod Requests
pub mod Sequences
use libstoragemgmt.Base.{ℕ, ◌≡◌}
use libstoragemgmt.Sql.Rows.{All}
use libstoragemgmt.Sim.Tables.{Volume, Db}
use libstoragemgmt.Sim.Exec.{Exec}
use libstoragemgmt.Sim.Exec.Keeps.{Keeps}
use libstoragemgmt.Sim.Pools.{
  free_space_of, total_space_of, vol_consumed_size, fs_consumed_size, sub_pool_consumed_size,
}
use libstoragemgmt.Sim.Pools.Space.{IsSolvent}

-- No pool is overdrawn, and no volume is of a hardware RAID.
pub record IsSound (db : Db) : Type 0 where
  pub solvent : IsSolvent db
  pub plain : All (λ v. Volume.is_hw_raid_vol v ≡ 0) db.volumes

-- The tables that the space of the pools is read from are the same.
abbrev pub SameSpace : Db → Db → Type 0
SameSpace db db' =
    (db'.pools ≡ db.pools)
    × (db'.disks ≡ db.disks)
    × (db'.volumes ≡ db.volumes)
    × (db'.fss ≡ db.fss)

pub IsSound-SameSpace : (db db' : Db) → SameSpace db db' → IsSound db → IsSound db'
unfolding free_space_of total_space_of vol_consumed_size fs_consumed_size sub_pool_consumed_size
IsSound-SameSpace db db' (p, d, v, f) sound = record {
  solvent = record {
    room = rw (p, d, v, f) sound.solvent.room;
    volume_sizes = rw v sound.solvent.volume_sizes;
    fs_sizes = rw f sound.solvent.fs_sizes;
  };
  plain = rw v sound.plain;
}

-- An operation that leaves those tables keeps the invariant.
pub Keeps-of_same :
    {A : Type 0} (m : Exec A) → ((db : Db) → SameSpace db (m db).1) → Keeps IsSound m
Keeps-of_same m same db sound = IsSound-SameSpace db (m db).1 (same db) sound
