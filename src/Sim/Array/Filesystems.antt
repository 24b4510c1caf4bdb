-- ===== src/Sim/Array/Filesystems.antt =====
-- `SimArray`'s methods on file systems, snapshots and exports (plugin/sim_plugin/simarray.py).
use libstoragemgmt.Base.{ℕ, ℤ, pos, String, Bool, not, ◌&&◌, Option, none, some, List, []}
use libstoragemgmt.Common.{ErrorNumber}
use libstoragemgmt.Sql.{is_empty}
use libstoragemgmt.Sim.Tables.{FsSnap, job_data_fs, job_data_fs_snap}
use libstoragemgmt.Sim.Exec.{Exec, pure, raise_if, ◌>>=◌, ◌>>◌}
use libstoragemgmt.Sim.Ids.{lsm_id}
use libstoragemgmt.Sim.Filesystems.{
  sim_fs_of_id, sim_fs_create, sim_fs_delete, sim_fs_resize, sim_fs_snaps, sim_fs_snap_create,
  sim_fs_snap_delete, sim_fs_snap_del_by_fs, sim_fs_snap_restore, sim_fs_file_clone, sim_fs_clone,
  sim_fs_src_clone_break, clone_dst_sim_fs_ids_of_src,
}
use libstoragemgmt.Sim.Exports.{SimExp, sim_exp_of_id, sim_exp_create, sim_exp_delete}
use libstoragemgmt.Sim.Array.Session.{
  Action, handle_errors, transaction, trans_begin, trans_rollback, on_db, codes, LsmId, Env,
  sim_pool_id_of, sim_fs_id_of, sim_fs_snap_id_of, sim_exp_id_of, job_create,
}

-- `fs_create` with `_internal_use=True`, inside a caller's transaction
unfoldable pub fs_create_internal : LsmId → String → ℤ → Exec ℕ
fs_create_internal pool_id fs_name size_bytes = do
  sim_pool_id ← sim_pool_id_of pool_id
  sim_fs_create fs_name size_bytes sim_pool_id

unfoldable pub fs_create : Env → LsmId → String → ℤ → Action LsmId
unfolding fs_create_internal
fs_create env pool_id fs_name size_bytes = handle_errors (
    transaction (do
      new_sim_fs_id ← fs_create_internal pool_id fs_name size_bytes
      job_create env (some (job_data_fs, pos new_sim_fs_id))))

unfoldable pub fs_delete : Env → LsmId → Action LsmId
fs_delete env fs_id =
    handle_errors (
      transaction (do sim_fs_id ← sim_fs_id_of fs_id; sim_fs_delete sim_fs_id; job_create env none))

unfoldable pub fs_resize : Env → LsmId → ℤ → Action LsmId
fs_resize env fs_id new_size_bytes = handle_errors (do
  sim_fs_id ← sim_fs_id_of fs_id
  transaction
      (do sim_fs_resize sim_fs_id new_size_bytes; job_create env (some (job_data_fs, sim_fs_id))))

-- `if snap_id: sim_fs_snap_id = SimArray._sim_fs_snap_id_of(snap_id)`; None and '' are no snapshot.
unfoldable pub snap_id_of : Option LsmId → Exec (Option ℤ)
snap_id_of none = pure none
snap_id_of (some []) = pure none
snap_id_of (some s) = do z ← sim_fs_snap_id_of s; pure (some z)

unfoldable pub fs_clone : Env → LsmId → String → Option LsmId → Action LsmId
unfolding fs_create_internal
fs_clone env src_fs_id dst_fs_name snap_id = handle_errors (
    transaction (do
      sim_fs_snap_id ← snap_id_of snap_id
      src_sim_fs_id ← sim_fs_id_of src_fs_id
      src_sim_fs ← sim_fs_of_id src_sim_fs_id
      dst_sim_fs_id ←
          fs_create_internal (lsm_id (codes "POOL_ID_") src_sim_fs.pool_id) dst_fs_name
            src_sim_fs.total_space
      sim_fs_clone src_sim_fs_id (pos dst_sim_fs_id) sim_fs_snap_id
      job_create env (some (job_data_fs, pos dst_sim_fs_id))))

-- The names of the files are not looked at.
unfoldable pub fs_file_clone : Env → LsmId → Option LsmId → Action LsmId
fs_file_clone env fs_id snap_id = handle_errors (
    transaction (do
      sim_fs_snap_id ← snap_id_of snap_id
      sim_fs_id ← sim_fs_id_of fs_id
      sim_fs_file_clone sim_fs_id sim_fs_snap_id
      job_create env none))

unfoldable pub fs_snapshots : LsmId → Action (List FsSnap)
fs_snapshots fs_id =
    handle_errors (on_db (do sim_fs_id ← sim_fs_id_of fs_id; sim_fs_snaps sim_fs_id))

unfoldable pub fs_snapshot_create : Env → LsmId → String → Action LsmId
fs_snapshot_create env fs_id snap_name = handle_errors (
    transaction (do
      sim_fs_id ← sim_fs_id_of fs_id
      sim_fs_snap_id ← sim_fs_snap_create env.now sim_fs_id snap_name
      job_create env (some (job_data_fs_snap, pos sim_fs_snap_id))))

unfoldable pub fs_snapshot_delete : Env → LsmId → LsmId → Action LsmId
fs_snapshot_delete env fs_id snap_id = handle_errors (
    transaction (do
      sim_fs_snap_id ← sim_fs_snap_id_of snap_id
      sim_fs_id ← sim_fs_id_of fs_id
      sim_fs_snap_delete sim_fs_snap_id sim_fs_id
      job_create env none))

unfoldable pub fs_snapshot_restore : Env → LsmId → Option LsmId → Action LsmId
fs_snapshot_restore env fs_id snap_id = handle_errors (
    transaction (do
      sim_fs_snap_id ← snap_id_of snap_id
      sim_fs_id ← sim_fs_id_of fs_id
      sim_fs_snap_restore sim_fs_id sim_fs_snap_id
      job_create env none))

-- `fs_child_dependency` with `_internal_use=True`; the snapshots are looked up only where there is
-- no clone.
unfoldable pub has_child_dependency : ℤ → Exec Bool
has_child_dependency sim_fs_id = do
  clones ← clone_dst_sim_fs_ids_of_src sim_fs_id
  snaps ← sim_fs_snaps sim_fs_id
  pure (not (is_empty clones && is_empty snaps))

unfoldable pub fs_child_dependency : LsmId → Action Bool
unfolding has_child_dependency
fs_child_dependency fs_id = handle_errors (do
  sim_fs_id ← sim_fs_id_of fs_id
  trans_begin
  found ← on_db (has_child_dependency sim_fs_id)
  trans_rollback
  pure found)

unfoldable pub fs_child_dependency_rm : Env → LsmId → Action LsmId
unfolding has_child_dependency
fs_child_dependency_rm env fs_id = handle_errors (
    transaction (do
      src_sim_fs_id ← sim_fs_id_of fs_id
      found ← has_child_dependency src_sim_fs_id
      raise_if (not found) ErrorNumber.no_state_change
      sim_fs_src_clone_break src_sim_fs_id
      sim_fs_snap_del_by_fs src_sim_fs_id
      job_create env none))

unfoldable pub fs_export :
    String
    → LsmId
    → Option String
    → List String
    → List String
    → List String
    → String
    → String
    → String
    → String
    → Action SimExp
fs_export random fs_id exp_path root_hosts rw_hosts ro_hosts anon_uid anon_gid auth_type options =
    handle_errors (
      transaction (do
        sim_fs_id ← sim_fs_id_of fs_id
        sim_exp_id ←
            sim_exp_create random sim_fs_id exp_path root_hosts rw_hosts ro_hosts anon_uid anon_gid
              auth_type options
        sim_exp_of_id (pos sim_exp_id)))

unfoldable pub fs_unexport : LsmId → Action (Unit {0})
fs_unexport exp_id =
    handle_errors (transaction (do sim_exp_id ← sim_exp_id_of exp_id; sim_exp_delete sim_exp_id))
