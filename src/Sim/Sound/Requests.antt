-- ===== src/Sim/Sound/Requests.antt =====
-- The calls of `SimArray` (plugin/sim_plugin/simarray.py) that change the state file, as requests of
-- clients. `volume_raid_create` is not among them.
use libstoragemgmt.Base.{ℕ, ℤ, pos, ◌≤ℤ◌, String, Option, List}
use libstoragemgmt.Sim.Constants.{ReplicateType}
use libstoragemgmt.Sim.Array.Session.{LsmId}

pub data Request : Type 0 where
  volume_create : (pool_id : LsmId) (name : String) (size : ℤ) → Request
  volume_delete : (vol_id : LsmId) → Request
  volume_resize : (vol_id : LsmId) (size : ℤ) → Request
  volume_replicate :
      (pool_id : LsmId) (rep_type : ReplicateType) (vol_id : LsmId) (name : String) → Request
  volume_replicate_range : (rep_type : ReplicateType) (src dst : LsmId) → Request
  volume_enable : (vol_id : LsmId) → Request
  volume_disable : (vol_id : LsmId) → Request
  volume_child_dependency_rm : (vol_id : LsmId) → Request
  volume_mask : (ag_id vol_id : LsmId) → Request
  volume_unmask : (ag_id vol_id : LsmId) → Request
  access_group_create : (name init_id : String) (init_type : ℕ) (system_id : String) → Request
  access_group_delete : (ag_id : LsmId) → Request
  access_group_initiator_add : (ag_id : LsmId) (init_id : String) (init_type : ℕ) → Request
  access_group_initiator_delete : (ag_id : LsmId) (init_id : String) → Request
  fs_create : (pool_id : LsmId) (name : String) (size : ℤ) → Request
  fs_delete : (fs_id : LsmId) → Request
  fs_resize : (fs_id : LsmId) (size : ℤ) → Request
  fs_clone : (fs_id : LsmId) (name : String) (snap_id : Option LsmId) → Request
  fs_file_clone : (fs_id : LsmId) (snap_id : Option LsmId) → Request
  fs_snapshot_create : (fs_id : LsmId) (name : String) → Request
  fs_snapshot_delete : (fs_id snap_id : LsmId) → Request
  fs_snapshot_restore : (fs_id : LsmId) (snap_id : Option LsmId) → Request
  fs_child_dependency_rm : (fs_id : LsmId) → Request
  fs_export :
      (random : String) (fs_id : LsmId) (exp_path : Option String)
      (root_hosts rw_hosts ro_hosts : List String) (anon_uid anon_gid auth_type options : String)
      → Request
  fs_unexport : (exp_id : LsmId) → Request
  volume_physical_disk_cache_update : (vol_id : LsmId) (x : ℕ) → Request
  volume_read_cache_policy_update : (vol_id : LsmId) (x : ℕ) → Request
  volume_write_cache_policy_update : (vol_id : LsmId) (x : ℕ) → Request
  job_free : (job_id : LsmId) → Request
  system_read_cache_pct_update : (system_id : String) (read_pct : ℕ) → Request

-- A size that the client asks for is not negative.
abbrev pub IsSizedRequest : Request → Type 0
IsSizedRequest (Request.volume_create pool_id name size) = pos 0 ≤ℤ size
IsSizedRequest (Request.volume_resize vol_id size) = pos 0 ≤ℤ size
IsSizedRequest (Request.fs_create pool_id name size) = pos 0 ≤ℤ size
IsSizedRequest (Request.fs_resize fs_id size) = pos 0 ≤ℤ size
IsSizedRequest _ = Unit
