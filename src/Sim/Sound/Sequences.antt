-- ===== src/Sim/Sound/Sequences.antt =====
-- Sequences of calls on one connection to the state file (plugin/sim_plugin/simarray.py).
use libstoragemgmt.Base.{Bool, List, [], ◌∷◌}
use libstoragemgmt.Sql.Rows.{All}
use libstoragemgmt.Sim.Sound.Requests.{Request, IsSizedRequest}
use libstoragemgmt.Sim.Sound.Transactions.{SessionIsSound}
use libstoragemgmt.Sim.Array.Session.{Session, Env}
use libstoragemgmt.Sim.Array.Volumes.{
  volume_physical_disk_cache_update, volume_read_cache_policy_update,
  volume_write_cache_policy_update, volume_create, volume_delete, volume_resize, volume_replicate,
  volume_replicate_range, volume_enable, volume_disable, volume_child_dependency_rm, volume_mask,
  volume_unmask,
}
use libstoragemgmt.Sim.Array.Groups.{
  access_group_create, access_group_delete, access_group_initiator_add,
  access_group_initiator_delete,
}
use libstoragemgmt.Sim.Array.Filesystems.{
  fs_create, fs_delete, fs_resize, fs_clone, fs_file_clone, fs_snapshot_create, fs_snapshot_delete,
  fs_snapshot_restore, fs_child_dependency_rm, fs_export, fs_unexport,
}
use libstoragemgmt.Sim.Array.Jobs.{job_free}
use libstoragemgmt.Sim.Array.Systems.{system_read_cache_pct_update}
use libstoragemgmt.Sim.Sound.Bodies.{
  volume_create-Keeps, volume_delete-Keeps, volume_resize-Keeps, volume_replicate-Keeps,
  fs_create-Keeps, fs_delete-Keeps, fs_resize-Keeps, fs_clone-Keeps,
}
use libstoragemgmt.Sim.Sound.Calls.{
  volume_physical_disk_cache_update-Keeps, volume_read_cache_policy_update-Keeps,
  volume_write_cache_policy_update-Keeps, volume_replicate_range-Keeps, volume_enable-Keeps,
  volume_disable-Keeps, volume_child_dependency_rm-Keeps, volume_mask-Keeps, volume_unmask-Keeps,
  access_group_create-Keeps, access_group_delete-Keeps, access_group_initiator_add-Keeps,
  access_group_initiator_delete-Keeps, fs_file_clone-Keeps, fs_snapshot_create-Keeps,
  fs_snapshot_delete-Keeps, fs_snapshot_restore-Keeps, fs_child_dependency_rm-Keeps,
  fs_export-Keeps, fs_unexport-Keeps, job_free-Keeps, system_read_cache_pct_update-Keeps,
}

-- One call: what it finds outside, whether another connection holds the lock, whether another one reads
-- the file, and what is asked.
pub record Call : Type 0 where
  pub env : Env
  pub locked : Bool
  pub reading : Bool
  pub request : Request

unfoldable pub serve : Env → Request → Session → Session
serve env (Request.volume_create pool_id name size) s = (volume_create env pool_id name size s).1
serve env (Request.volume_delete vol_id) s = (volume_delete env vol_id s).1
serve env (Request.volume_resize vol_id size) s = (volume_resize env vol_id size s).1
serve env (Request.volume_replicate pool_id rep_type vol_id name) s =
    (volume_replicate env pool_id rep_type vol_id name s).1
serve env (Request.volume_replicate_range rep_type src dst) s =
    (volume_replicate_range env rep_type src dst s).1
serve env (Request.volume_enable vol_id) s = (volume_enable vol_id s).1
serve env (Request.volume_disable vol_id) s = (volume_disable vol_id s).1
serve env (Request.volume_child_dependency_rm vol_id) s =
    (volume_child_dependency_rm env vol_id s).1
serve env (Request.volume_mask ag_id vol_id) s = (volume_mask ag_id vol_id s).1
serve env (Request.volume_unmask ag_id vol_id) s = (volume_unmask ag_id vol_id s).1
serve env (Request.access_group_create name init_id init_type system_id) s =
    (access_group_create name init_id init_type system_id s).1
serve env (Request.access_group_delete ag_id) s = (access_group_delete ag_id s).1
serve env (Request.access_group_initiator_add ag_id init_id init_type) s =
    (access_group_initiator_add ag_id init_id init_type s).1
serve env (Request.access_group_initiator_delete ag_id init_id) s =
    (access_group_initiator_delete ag_id init_id s).1
serve env (Request.fs_create pool_id name size) s = (fs_create env pool_id name size s).1
serve env (Request.fs_delete fs_id) s = (fs_delete env fs_id s).1
serve env (Request.fs_resize fs_id size) s = (fs_resize env fs_id size s).1
serve env (Request.fs_clone fs_id name snap_id) s = (fs_clone env fs_id name snap_id s).1
serve env (Request.fs_file_clone fs_id snap_id) s = (fs_file_clone env fs_id snap_id s).1
serve env (Request.fs_snapshot_create fs_id name) s = (fs_snapshot_create env fs_id name s).1
serve env (Request.fs_snapshot_delete fs_id snap_id) s = (fs_snapshot_delete env fs_id snap_id s).1
serve env (Request.fs_snapshot_restore fs_id snap_id) s =
    (fs_snapshot_restore env fs_id snap_id s).1
serve env (Request.fs_child_dependency_rm fs_id) s = (fs_child_dependency_rm env fs_id s).1
serve env
      (Request.fs_export random fs_id exp_path root_hosts rw_hosts ro_hosts anon_uid anon_gid
        auth_type options)
      s =
    (fs_export random fs_id exp_path root_hosts rw_hosts ro_hosts anon_uid anon_gid auth_type
      options s).1
serve env (Request.fs_unexport exp_id) s = (fs_unexport exp_id s).1
serve env (Request.volume_physical_disk_cache_update vol_id x) s =
    (volume_physical_disk_cache_update vol_id x s).1
serve env (Request.volume_read_cache_policy_update vol_id x) s =
    (volume_read_cache_policy_update vol_id x s).1
serve env (Request.volume_write_cache_policy_update vol_id x) s =
    (volume_write_cache_policy_update vol_id x s).1
serve env (Request.job_free job_id) s = (job_free job_id s).1
serve env (Request.system_read_cache_pct_update system_id read_pct) s =
    (system_read_cache_pct_update system_id read_pct s).1

-- The calls one after the other.
unfoldable pub run : List Call → Session → Session
run [] s = s
run (c ∷ cs) s =
    run cs (serve c.env c.request (record s { locked = c.locked; reading = c.reading }))

serve-Keeps :
    (env : Env) (r : Request)
    → IsSizedRequest r
    → (s : Session) → SessionIsSound s
    → SessionIsSound (serve env r s)
unfolding serve
serve-Keeps env (Request.volume_create pool_id name size) h s k =
    volume_create-Keeps env pool_id name size h s k
serve-Keeps env (Request.volume_delete vol_id) h s k = volume_delete-Keeps env vol_id s k
serve-Keeps env (Request.volume_resize vol_id size) h s k =
    volume_resize-Keeps env vol_id size h s k
serve-Keeps env (Request.volume_replicate pool_id rep_type vol_id name) h s k =
    volume_replicate-Keeps env pool_id rep_type vol_id name s k
serve-Keeps env (Request.volume_replicate_range rep_type src dst) h s k =
    volume_replicate_range-Keeps env rep_type src dst s k
serve-Keeps env (Request.volume_enable vol_id) h s k = volume_enable-Keeps vol_id s k
serve-Keeps env (Request.volume_disable vol_id) h s k = volume_disable-Keeps vol_id s k
serve-Keeps env (Request.volume_child_dependency_rm vol_id) h s k =
    volume_child_dependency_rm-Keeps env vol_id s k
serve-Keeps env (Request.volume_mask ag_id vol_id) h s k = volume_mask-Keeps ag_id vol_id s k
serve-Keeps env (Request.volume_unmask ag_id vol_id) h s k = volume_unmask-Keeps ag_id vol_id s k
serve-Keeps env (Request.access_group_create name init_id init_type system_id) h s k =
    access_group_create-Keeps name init_id init_type system_id s k
serve-Keeps env (Request.access_group_delete ag_id) h s k = access_group_delete-Keeps ag_id s k
serve-Keeps env (Request.access_group_initiator_add ag_id init_id init_type) h s k =
    access_group_initiator_add-Keeps ag_id init_id init_type s k
serve-Keeps env (Request.access_group_initiator_delete ag_id init_id) h s k =
    access_group_initiator_delete-Keeps ag_id init_id s k
serve-Keeps env (Request.fs_create pool_id name size) h s k =
    fs_create-Keeps env pool_id name size h s k
serve-Keeps env (Request.fs_delete fs_id) h s k = fs_delete-Keeps env fs_id s k
serve-Keeps env (Request.fs_resize fs_id size) h s k = fs_resize-Keeps env fs_id size h s k
serve-Keeps env (Request.fs_clone fs_id name snap_id) h s k =
    fs_clone-Keeps env fs_id name snap_id s k
serve-Keeps env (Request.fs_file_clone fs_id snap_id) h s k =
    fs_file_clone-Keeps env fs_id snap_id s k
serve-Keeps env (Request.fs_snapshot_create fs_id name) h s k =
    fs_snapshot_create-Keeps env fs_id name s k
serve-Keeps env (Request.fs_snapshot_delete fs_id snap_id) h s k =
    fs_snapshot_delete-Keeps env fs_id snap_id s k
serve-Keeps env (Request.fs_snapshot_restore fs_id snap_id) h s k =
    fs_snapshot_restore-Keeps env fs_id snap_id s k
serve-Keeps env (Request.fs_child_dependency_rm fs_id) h s k =
    fs_child_dependency_rm-Keeps env fs_id s k
serve-Keeps env
      (Request.fs_export random fs_id exp_path root_hosts rw_hosts ro_hosts anon_uid anon_gid
        auth_type options)
      h s k =
    fs_export-Keeps random fs_id exp_path root_hosts rw_hosts ro_hosts anon_uid anon_gid auth_type
      options s k
serve-Keeps env (Request.fs_unexport exp_id) h s k = fs_unexport-Keeps exp_id s k
serve-Keeps env (Request.volume_physical_disk_cache_update vol_id x) h s k =
    volume_physical_disk_cache_update-Keeps vol_id x s k
serve-Keeps env (Request.volume_read_cache_policy_update vol_id x) h s k =
    volume_read_cache_policy_update-Keeps vol_id x s k
serve-Keeps env (Request.volume_write_cache_policy_update vol_id x) h s k =
    volume_write_cache_policy_update-Keeps vol_id x s k
serve-Keeps env (Request.job_free job_id) h s k = job_free-Keeps job_id s k
serve-Keeps env (Request.system_read_cache_pct_update system_id read_pct) h s k =
    system_read_cache_pct_update-Keeps system_id read_pct s k

-- From a sound state file and connection (no pool is overdrawn, no size is negative, no volume is of a
-- hardware RAID), any sequence of the calls that `Request` lists, with no negative size asked for,
-- leaves a sound state file and connection, whatever any call returns or raises, at any times, and
-- whether or not other connections hold the lock or read the file.
pub run-SessionIsSound :
    (cs : List Call) (s : Session)
    → All (λ c. IsSizedRequest (Call.request c)) cs
    → SessionIsSound s
    → SessionIsSound (run cs s)
unfolding run
run-SessionIsSound [] s h sound = sound
run-SessionIsSound (c ∷ cs) s h sound =
    run-SessionIsSound cs _ h.1
      (serve-Keeps c.env c.request h.0 (record s { locked = c.locked; reading = c.reading }) sound)
