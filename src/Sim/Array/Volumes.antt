-- ===== src/Sim/Array/Volumes.antt =====
-- `SimArray`'s methods on volumes (plugin/sim_plugin/simarray.py). The parameter `flags`, which no
-- method reads, is left out, and so are the `_internal_use` calls' own decorators where they only
-- repeat the caller's rollback.
use libstoragemgmt.Base.{ℕ, ℤ, pos, String, Bool, not, none, some}
use libstoragemgmt.Sql.{is_id, any}
use libstoragemgmt.Sim.Constants.{ReplicateType, admin_state_enabled, admin_state_disabled}
use libstoragemgmt.Sim.Tables.{job_data_vol}
use libstoragemgmt.Sim.Exec.{Exec, pure, ◌>>=◌, ◌>>◌}
use libstoragemgmt.Sim.Volumes.{
  sim_vol_of_id, sim_vol_create, sim_vol_delete, sim_vol_resize, sim_vol_replica,
  sim_vol_src_replica_break, sim_vol_state_change, sim_vol_pdc_set, sim_vol_rcp_set,
  sim_vol_wcp_set, dst_sim_vol_ids_of_src,
}
use libstoragemgmt.Sim.Masks.{sim_vol_mask, sim_vol_unmask}
use libstoragemgmt.Sim.Array.Session.{
  Action, on_db, handle_errors, transaction, LsmId, Env, sim_vol_id_of, sim_pool_id_of,
  sim_ag_id_of, job_create,
}

-- `volume_create` with `_internal_use=True`, inside a caller's transaction
unfoldable pub volume_create_internal : Env → LsmId → String → ℤ → ℕ → Exec ℕ
volume_create_internal env pool_id vol_name size_bytes is_hw_raid_vol = do
  sim_pool_id ← sim_pool_id_of pool_id
  sim_vol_create env.vpd vol_name size_bytes sim_pool_id is_hw_raid_vol

unfoldable pub volume_create : Env → LsmId → String → ℤ → Action LsmId
unfolding volume_create_internal
volume_create env pool_id vol_name size_bytes = handle_errors (
    transaction (do
      new_sim_vol_id ← volume_create_internal env pool_id vol_name size_bytes 0
      job_create env (some (job_data_vol, pos new_sim_vol_id))))

unfoldable pub volume_delete : Env → LsmId → Action LsmId
volume_delete env vol_id = handle_errors (
    transaction
      (do sim_vol_id ← sim_vol_id_of vol_id; sim_vol_delete sim_vol_id; job_create env none))

unfoldable pub volume_resize : Env → LsmId → ℤ → Action LsmId
volume_resize env vol_id new_size_bytes = handle_errors (
    transaction (do
      sim_vol_id ← sim_vol_id_of vol_id
      sim_vol_resize sim_vol_id new_size_bytes
      job_create env (some (job_data_vol, sim_vol_id))))

-- The source volume's id is read by `_sim_pool_id_of`.
unfoldable pub volume_replicate : Env → LsmId → ReplicateType → LsmId → String → Action LsmId
unfolding volume_create_internal
volume_replicate env dst_pool_id rep_type src_vol_id new_vol_name = handle_errors (
    transaction (do
      src_sim_vol_id ← sim_pool_id_of src_vol_id
      src_sim_vol ← sim_vol_of_id src_sim_vol_id
      dst_sim_vol_id ← volume_create_internal env dst_pool_id new_vol_name src_sim_vol.total_space 0
      sim_vol_replica src_sim_vol_id (pos dst_sim_vol_id) rep_type
      job_create env (some (job_data_vol, pos dst_sim_vol_id))))

-- The block ranges are not looked at.
unfoldable pub volume_replicate_range : Env → ReplicateType → LsmId → LsmId → Action LsmId
volume_replicate_range env rep_type src_vol_id dst_vol_id = handle_errors (
    transaction (do
      src ← sim_pool_id_of src_vol_id
      dst ← sim_pool_id_of dst_vol_id
      sim_vol_replica src dst rep_type
      job_create env none))

unfoldable pub volume_enable : LsmId → Action (Unit {0})
volume_enable vol_id = handle_errors (
    transaction
      (do sim_vol_id ← sim_vol_id_of vol_id; sim_vol_state_change sim_vol_id admin_state_enabled))

unfoldable pub volume_disable : LsmId → Action (Unit {0})
volume_disable vol_id = handle_errors (
    transaction
      (do sim_vol_id ← sim_vol_id_of vol_id; sim_vol_state_change sim_vol_id admin_state_disabled))

unfoldable pub volume_child_dependency : LsmId → Action Bool
volume_child_dependency vol_id = handle_errors (
    on_db (do
      src_sim_vol_id ← sim_vol_id_of vol_id
      dst_sim_vol_ids ← dst_sim_vol_ids_of_src src_sim_vol_id
      pure (any (λ d. not (is_id src_sim_vol_id d)) dst_sim_vol_ids)))

unfoldable pub volume_child_dependency_rm : Env → LsmId → Action LsmId
volume_child_dependency_rm env vol_id = handle_errors (
    transaction (do
      src_sim_vol_id ← sim_vol_id_of vol_id
      sim_vol_src_replica_break src_sim_vol_id
      job_create env none))

unfoldable pub volume_mask : LsmId → LsmId → Action (Unit {0})
volume_mask ag_id vol_id = handle_errors (
    transaction (do
      sim_vol_id ← sim_vol_id_of vol_id
      sim_ag_id ← sim_ag_id_of ag_id
      sim_vol_mask sim_vol_id sim_ag_id))

unfoldable pub volume_unmask : LsmId → LsmId → Action (Unit {0})
volume_unmask ag_id vol_id = handle_errors (
    transaction (do
      sim_vol_id ← sim_vol_id_of vol_id
      sim_ag_id ← sim_ag_id_of ag_id
      sim_vol_unmask sim_vol_id sim_ag_id))

unfoldable pub volume_physical_disk_cache_update : LsmId → ℕ → Action (Unit {0})
volume_physical_disk_cache_update vol_id pdc =
    handle_errors
      (transaction (do sim_vol_id ← sim_vol_id_of vol_id; sim_vol_pdc_set sim_vol_id pdc))

unfoldable pub volume_read_cache_policy_update : LsmId → ℕ → Action (Unit {0})
volume_read_cache_policy_update vol_id rcp =
    handle_errors
      (transaction (do sim_vol_id ← sim_vol_id_of vol_id; sim_vol_rcp_set sim_vol_id rcp))

unfoldable pub volume_write_cache_policy_update : LsmId → ℕ → Action (Unit {0})
volume_write_cache_policy_update vol_id wcp =
    handle_errors
      (transaction (do sim_vol_id ← sim_vol_id_of vol_id; sim_vol_wcp_set sim_vol_id wcp))
