-- ===== src/Sim/Volumes.antt =====
-- The methods of `BackStore` on volumes (plugin/sim_plugin/simarray.py). `_random_vpd()` is an
-- argument, the text that it returned.
pub mod Create
pub mod Solvent
pub mod Resize
pub mod Delete
pub mod Removed
use libstoragemgmt.Base.{
  ℕ, ℤ, pos, ◌-ℤ◌, ltb_ℤ, eqb_ℤ, String, Bool, true, false, not, ◌||◌, none, List, [], ◌∷◌, ◌++◌,
  map, ◌==◌, str_eq, if◌then◌else◌, bit_and, length,
}
use libstoragemgmt.Common.{ErrorNumber}
use libstoragemgmt.Sql.{is_id, is_empty, select, delete, update, any, fresh}
use libstoragemgmt.Sim.Constants.{
  ReplicateType, unsupported_volume_grow, unsupported_volume_shrink, admin_state_enabled,
  write_cache_policy_auto, read_cache_policy_enabled, physical_disk_cache_disabled,
}
use libstoragemgmt.Sim.Tables.{Pool, Disk, Volume, VolMask, VolRep, Db}
use libstoragemgmt.Sim.Exec.{Exec, gets, raise_if, modify, try_integrity, ◌>>=◌, ◌>>◌}
use libstoragemgmt.Sim.Cascade.{delete_volumes, delete_pools, owned_by, data_add, sim_data_of_id}
use libstoragemgmt.Sim.Pools.{sim_pool_of_id, check_pool_free_space, block_rounding, free_space_of}

unfoldable pub sim_vol_of_id : ℤ → Exec Volume
sim_vol_of_id sim_vol_id =
    sim_data_of_id Db.volumes Volume.id sim_vol_id ErrorNumber.not_found_volume

-- INSERT INTO volumes, with its UNIQUE name and its FOREIGN KEY(pool_id)
add_volume : Volume → Exec ℕ
unfolding data_add
add_volume v db =
    data_add
      (any (λ w. str_eq w.name v.name) db.volumes || not (any (λ p. p.id == v.pool_id) db.pools))
      v.id (λ s. record s { volumes = s.volumes ++ v ∷ [] }) db

-- the row that `sim_vol_create` inserts
unfoldable pub new_volume : String → String → ℤ → ℕ → ℕ → ℕ → Volume
new_volume vpd name size_bytes pool_id is_hw_raid_vol id = record {
  id = id;
  vpd83 = vpd;
  name = name;
  total_space = size_bytes;
  consumed_size = size_bytes;
  admin_state = admin_state_enabled;
  is_hw_raid_vol = is_hw_raid_vol;
  write_cache_policy = write_cache_policy_auto;
  read_cache_policy = read_cache_policy_enabled;
  phy_disk_cache = physical_disk_cache_disabled;
  pool_id = pool_id;
}

unfoldable pub sim_vol_create : String → String → ℤ → ℤ → ℕ → Exec ℕ
unfolding add_volume new_volume
sim_vol_create vpd name size_bytes sim_pool_id is_hw_raid_vol = do
  let size = block_rounding size_bytes
  sim_pool ← check_pool_free_space sim_pool_id size
  id ← gets (λ db. fresh Volume.id db.volumes)
  try_integrity (add_volume (new_volume vpd name size sim_pool.id is_hw_raid_vol id))
      ErrorNumber.name_conflict

-- `_sim_ag_ids_of_masked_vol`
unfoldable pub sim_ag_ids_of_masked_vol : ℤ → Db → List ℕ
sim_ag_ids_of_masked_vol sim_vol_id db =
    map VolMask.ag_id (select (λ m. is_id sim_vol_id m.vol_id) db.vol_masks)

unfoldable pub dst_sim_vol_ids_of_src : ℤ → Exec (List ℕ)
dst_sim_vol_ids_of_src src_sim_vol_id = do
  sim_vol_of_id src_sim_vol_id
  gets (λ db. map VolRep.dst_vol_id (select (λ r. is_id src_sim_vol_id r.src_vol_id) db.vol_reps))

-- `for d in …: self._data_update("disks", d["id"], 'role', None)`
unfoldable reset_roles : List Disk → List Disk → List Disk
reset_roles [] disks = disks
reset_roles (d ∷ ds) disks =
    reset_roles ds (update (λ e. e.id == d.id) (λ e. record e { role = none }) disks)

-- what `sim_vol_delete` deletes once the checks are passed
unfoldable pub remove_volume : ℤ → Volume → Db → Db
unfolding reset_roles
remove_volume sim_vol_id v db =
    if v.is_hw_raid_vol == 0
    then delete_volumes (λ w. is_id sim_vol_id w.id) db
    else delete_pools (λ p. p.id == v.pool_id)
        (record db { disks = reset_roles (select (owned_by v.pool_id) db.disks) db.disks })

unfoldable pub sim_vol_delete : ℤ → Exec (Unit {0})
unfolding remove_volume
sim_vol_delete sim_vol_id = do
  sim_vol ← sim_vol_of_id sim_vol_id
  masked ← gets (sim_ag_ids_of_masked_vol sim_vol_id)
  raise_if (not (is_empty masked)) ErrorNumber.is_masked
  dst_sim_vol_ids ← dst_sim_vol_ids_of_src sim_vol_id
  raise_if (any (λ d. not (is_id sim_vol_id d)) dst_sim_vol_ids) ErrorNumber.has_child_dependency
  modify (remove_volume sim_vol_id sim_vol)

abbrev pub has_flag : ℕ → ℕ → Bool
has_flag actions flag = not (bit_and actions flag == 0)

-- the guard of `sim_vol_resize` on the pool, for a volume of `old` bytes
unfoldable pub check_resize : Pool → ℤ → ℤ → Exec (Unit {0})
check_resize sim_pool old new_size_bytes db =
    let increment = new_size_bytes -ℤ old in
    if ltb_ℤ (pos 0) increment
    then (do
      raise_if (has_flag sim_pool.unsupported_actions unsupported_volume_grow)
          ErrorNumber.no_support
      raise_if (ltb_ℤ (free_space_of db sim_pool) increment) ErrorNumber.not_enough_space)
        db
    else raise_if (has_flag sim_pool.unsupported_actions unsupported_volume_shrink)
        ErrorNumber.no_support db

unfoldable pub sim_vol_resize : ℤ → ℤ → Exec (Unit {0})
sim_vol_resize sim_vol_id size_bytes = do
  let new_size_bytes = block_rounding size_bytes
  sim_vol ← sim_vol_of_id sim_vol_id
  raise_if (eqb_ℤ sim_vol.total_space new_size_bytes) ErrorNumber.no_state_change
  sim_pool ← sim_pool_of_id (pos sim_vol.pool_id)
  check_resize sim_pool sim_vol.total_space new_size_bytes
  modify (λ db. record db {
    volumes =
        update (λ v. is_id sim_vol_id v.id)
          (λ v. record v { total_space = new_size_bytes; consumed_size = new_size_bytes })
          db.volumes;
  })

abbrev is_copy : ReplicateType → Bool
is_copy ReplicateType.copy = true
is_copy _ = false

unfoldable pub sim_vol_replica : ℤ → ℤ → ReplicateType → Exec (Unit {0})
sim_vol_replica src_sim_vol_id dst_sim_vol_id rep_type = do
  src ← sim_vol_of_id src_sim_vol_id
  dst ← sim_vol_of_id dst_sim_vol_id
  cur_src ← gets (λ db. select (λ r. is_id dst_sim_vol_id r.dst_vol_id) db.vol_reps)
  modify (λ db.
      if src.id == dst.id || is_copy rep_type || length cur_src == 1 then db else record db {
        vol_reps =
            db.vol_reps
            ++ record { rep_type = rep_type; src_vol_id = src.id; dst_vol_id = dst.id } ∷ [];
      })

unfoldable pub sim_vol_src_replica_break : ℤ → Exec (Unit {0})
sim_vol_src_replica_break src_sim_vol_id = do
  dst_ids ← dst_sim_vol_ids_of_src src_sim_vol_id
  raise_if (is_empty dst_ids) ErrorNumber.no_state_change
  modify
      (λ db. record db { vol_reps = delete (λ r. is_id src_sim_vol_id r.src_vol_id) db.vol_reps })

unfoldable pub sim_vol_state_change : ℤ → ℕ → Exec (Unit {0})
sim_vol_state_change sim_vol_id new_admin_state = do
  sim_vol ← sim_vol_of_id sim_vol_id
  raise_if (sim_vol.admin_state == new_admin_state) ErrorNumber.no_state_change
  modify (λ db. record db {
    volumes =
        update (λ v. is_id sim_vol_id v.id) (λ v. record v { admin_state = new_admin_state })
          db.volumes;
  })

unfoldable pub sim_vol_pdc_set : ℤ → ℕ → Exec (Unit {0})
sim_vol_pdc_set sim_vol_id pdc = do
  sim_vol_of_id sim_vol_id
  modify (λ db. record db {
    volumes =
        update (λ v. is_id sim_vol_id v.id) (λ v. record v { phy_disk_cache = pdc }) db.volumes;
  })

unfoldable pub sim_vol_rcp_set : ℤ → ℕ → Exec (Unit {0})
sim_vol_rcp_set sim_vol_id rcp = do
  sim_vol_of_id sim_vol_id
  modify (λ db. record db {
    volumes =
        update (λ v. is_id sim_vol_id v.id) (λ v. record v { read_cache_policy = rcp }) db.volumes;
  })

unfoldable pub sim_vol_wcp_set : ℤ → ℕ → Exec (Unit {0})
sim_vol_wcp_set sim_vol_id wcp = do
  sim_vol_of_id sim_vol_id
  modify (λ db. record db {
    volumes =
        update (λ v. is_id sim_vol_id v.id) (λ v. record v { write_cache_policy = wcp }) db.volumes;
  })
