-- ===== src/Sim/Tests.antt =====
-- Runs of the simulated array on a small state file, and the theorems about it at that state.
pub mod Sequences
pub mod Filesystems
use libstoragemgmt.Base.{
  ℕ, ◌+◌, ◌*◌, ◌<◌, ◌≤◌, ◌%◌, pos, ◌+ℤ◌, ◌-ℤ◌, ◌≤ℤ◌, pos_part, neg_part, ◌≡◌, refl, true, false,
  none, some, [], ◌∷◌, arith,
}
use libstoragemgmt.Common.{ErrorNumber, ok, err, lsm_error}
use libstoragemgmt.Sql.{select, sum_where}
use libstoragemgmt.Sim.Constants.{RaidType, member_disk}
use libstoragemgmt.Sim.Tables.{Pool, role_data, Disk, Volume, Db}
use libstoragemgmt.Sim.Raid.{data_disk_count}
use libstoragemgmt.Sim.Raid.Bounds.{data_disk_count_bounds}
use libstoragemgmt.Sim.Ids.{lsm_id, lsm_id_to_sim_id}
use libstoragemgmt.Sim.Ids.RoundTrip.{lsm_id_to_sim_id-lsm_id}
use libstoragemgmt.Sim.Cascade.{sim_data_of_id}
use libstoragemgmt.Sim.Pools.{
  block_rounding, free_space_of, total_space_of, vol_consumed_size, fs_consumed_size,
  sub_pool_consumed_size,
}
use libstoragemgmt.Sim.Pools.Rounding.{block_rounding_lem}
use libstoragemgmt.Sim.Pools.Space.{IsSolvent}
use libstoragemgmt.Sim.Volumes.{sim_vol_of_id, sim_vol_create, sim_vol_resize}
use libstoragemgmt.Sim.Volumes.Create.{Creates, sim_vol_create-Creates}
use libstoragemgmt.Sim.Volumes.Solvent.{sim_vol_create-IsSolvent}
use libstoragemgmt.Sim.Volumes.Resize.{Resizes, sim_vol_resize-Resizes, sim_vol_resize-IsSolvent}
use libstoragemgmt.Sim.Groups.{sim_ag_of_id, sim_ag_format, sim_ag_of_row, inits_of}
use libstoragemgmt.Sim.Groups.Split.{join_ids, split_ids, split_ids-join_ids}
use libstoragemgmt.Sim.Masks.{sim_vol_mask, sim_vol_unmask}
use libstoragemgmt.Sim.Masks.RoundTrip.{Masked, sim_vol_mask-Masked, unmask-mask}
use libstoragemgmt.Sim.Array.Session.{
  Session, trans_begin, handle_errors, transaction, handled, codes,
}
use libstoragemgmt.Sim.Array.Atomic.{
  Ends, transaction-Ends, EndsRolledBack, handle_errors-IsLsmError,
}

abbrev disk : ℕ → Disk
disk i = record {
  id = i;
  total_space = pos 4096;
  disk_type = 4;
  status = 2;
  disk_prefix = "disk";
  location = "bay";
  owner_pool_id = some 1;
  role = some role_data;
  vpd83 = "50";
  rpm = 7200;
  link_type = 1;
}

abbrev pub pool : Pool
pool = record {
  id = 1;
  name = "Pool 1";
  status = 2;
  element_type = 4;
  unsupported_actions = 0;
  raid_type = RaidType.raid0;
  parent_pool_id = none;
  member_type = member_disk;
  strip_size = some 512;
  total_space = none;
}

abbrev pub volume : Volume
volume = record {
  id = 1;
  vpd83 = "50";
  name = "vol";
  total_space = pos 1024;
  consumed_size = pos 1024;
  admin_state = 1;
  is_hw_raid_vol = 0;
  write_cache_policy = 3;
  read_cache_policy = 2;
  phy_disk_cache = 3;
  pool_id = 1;
}

-- one pool of 8192 bytes, a volume of 1024 bytes, and an access group with one initiator
abbrev pub sample : Db
sample = record {
  pools = pool ∷ [];
  disks = disk 1 ∷ disk 2 ∷ [];
  volumes = volume ∷ [];
  ags = record { id = 1; name = "ag" } ∷ [];
  inits = record { id = "iqn.a"; init_type = 5; owner_ag_id = 1 } ∷ [];
  systems = [];
  tgts = [];
  batteries = [];
  vol_masks = [];
  vol_reps = [];
  fss = [];
  fs_snaps = [];
  fs_clones = [];
  exps = [];
  exp_root_hosts = [];
  exp_rw_hosts = [];
  exp_ro_hosts = [];
  jobs = [];
}

abbrev pub session : Session
session = record {
  saved = sample;
  current = sample;
  in_transaction = false;
  locked = false;
  reading = false;
}

sample_free : free_space_of sample pool ≡ pos 7168
unfolding free_space_of total_space_of vol_consumed_size fs_consumed_size sub_pool_consumed_size
    sum_where ◌+ℤ◌ ◌-ℤ◌
sample_free = refl

pub sample-IsSolvent : IsSolvent sample
unfolding free_space_of total_space_of vol_consumed_size fs_consumed_size sub_pool_consumed_size
    sum_where ◌+ℤ◌ ◌-ℤ◌
sample-IsSolvent = record {
  room = (omega arith, tt);
  volume_sizes = ((omega arith, refl), tt);
  fs_sizes = tt;
}

sim_vol_create-Creates_example :
    Creates "50" "new"
      (pos 1000)
      (pos 1)
      0
      sample
      (sim_vol_create "50" "new" (pos 1000) (pos 1) 0 sample)
sim_vol_create-Creates_example = sim_vol_create-Creates "50" "new" (pos 1000) (pos 1) 0 sample

sim_vol_create-IsSolvent_example :
    IsSolvent (sim_vol_create "50" "new" (pos 1000) (pos 1) 0 sample).1
sim_vol_create-IsSolvent_example =
    sim_vol_create-IsSolvent "50" "new" (pos 1000) (pos 1) 0 sample (omega arith) sample-IsSolvent

sim_vol_resize-Resizes_example :
    Resizes (pos 1) (pos 3000) sample (sim_vol_resize (pos 1) (pos 3000) sample)
sim_vol_resize-Resizes_example = sim_vol_resize-Resizes (pos 1) (pos 3000) sample

sim_vol_resize-IsSolvent_example : IsSolvent (sim_vol_resize (pos 1) (pos 3000) sample).1
sim_vol_resize-IsSolvent_example =
    sim_vol_resize-IsSolvent (pos 1) (pos 3000) sample (omega arith) sample-IsSolvent

sim_vol_mask-Masked_example : Masked (pos 1) (pos 1) sample (sim_vol_mask (pos 1) (pos 1) sample)
sim_vol_mask-Masked_example = sim_vol_mask-Masked (pos 1) (pos 1) sample

unmask-mask_example :
    sim_vol_unmask (pos 1) (pos 1) (sim_vol_mask (pos 1) (pos 1) sample).1 ≡ (ok tt, sample)
unfolding sim_vol_mask sim_vol_of_id sim_ag_of_id sim_ag_format sim_ag_of_row inits_of
    sim_data_of_id select
unmask-mask_example = unmask-mask (pos 1) (pos 1) sample refl

transaction-Ends_example :
    Ends
      (sim_vol_mask (pos 1) (pos 1))
      session
      (handle_errors (transaction (sim_vol_mask (pos 1) (pos 1))) session)
transaction-Ends_example = transaction-Ends (sim_vol_mask (pos 1) (pos 1)) session

-- the array's own error "database is locked" becomes an `LsmError`
handle_errors-IsLsmError_example :
    EndsRolledBack
      (lsm_error ErrorNumber.timeout)
      (handle_errors trans_begin (record session { locked = true })).1
unfolding handle_errors trans_begin handled
handle_errors-IsLsmError_example =
    handle_errors-IsLsmError trans_begin (record session { locked = true })
      (lsm_error ErrorNumber.timeout) refl

lsm_id_to_sim_id-lsm_id_example :
    lsm_id_to_sim_id (lsm_id (codes "VOL_ID_") 42) ErrorNumber.not_found_volume ≡ ok (pos 42)
lsm_id_to_sim_id-lsm_id_example =
    lsm_id_to_sim_id-lsm_id (codes "VOL_ID_") 42 ErrorNumber.not_found_volume

block_rounding_lem_example :
    (pos 1000 ≤ℤ block_rounding (pos 1000))
    × (pos_part (block_rounding (pos 1000)) + 0 < 1000 + neg_part (block_rounding (pos 1000)) + 512)
    × (pos_part (block_rounding (pos 1000)) % 512 ≡ 0)
    × (neg_part (block_rounding (pos 1000)) % 512 ≡ 0)
block_rounding_lem_example = block_rounding_lem (pos 1000)

data_disk_count_bounds_example : (0 < 2) × (2 * (2 + 1) ≤ 6)
unfolding data_disk_count
data_disk_count_bounds_example = data_disk_count_bounds RaidType.raid15 6 2 refl

split_ids-join_ids_example : split_ids (join_ids "iqn.a" ("iqn.b" ∷ [])) ≡ "iqn.a" ∷ "iqn.b" ∷ []
split_ids-join_ids_example = split_ids-join_ids "iqn.a" ("iqn.b" ∷ []) (refl, (refl, tt))
