-- ===== src/Sim/Tables.antt =====
-- The tables that `BackStore.__init__` creates (plugin/sim_plugin/simarray.py), a record for each,
-- and the state file as the record of the tables. A column that may be NULL is an `Option`.
use libstoragemgmt.Base.{ℕ, ℤ, String, Option, List}
use libstoragemgmt.Sim.Constants.{RaidType, MemberType, ReplicateType}

-- `status_info` is the empty text wherever the code sets it.
pub record System : Type 0 where
  pub id : String
  pub name : String
  pub status : ℕ
  pub read_cache_pct : ℕ
  pub version : String

pub record Tgt : Type 0 where
  pub id : ℕ
  pub port_type : ℕ
  pub service_address : String
  pub network_address : String
  pub physical_address : String
  pub physical_name : String

pub record Battery : Type 0 where
  pub id : ℕ
  pub name : String
  pub battery_type : ℕ
  pub status : ℕ

pub record Pool : Type 0 where
  pub id : ℕ
  pub name : String
  pub status : ℕ
  pub element_type : ℕ
  pub unsupported_actions : ℕ
  pub raid_type : RaidType
  pub parent_pool_id : Option ℕ
  pub member_type : MemberType
  pub strip_size : Option ℕ
  pub total_space : Option ℤ

-- the two values that the column `role` of a disk takes
pub data Role : Type 0 where
  role_data role_parity : Role

pub record Disk : Type 0 where
  pub id : ℕ
  pub total_space : ℤ
  pub disk_type : ℕ
  pub status : ℕ
  pub disk_prefix : String
  pub location : String
  pub owner_pool_id : Option ℕ
  pub role : Option Role
  pub vpd83 : String
  pub rpm : ℕ
  pub link_type : ℕ

pub record Volume : Type 0 where
  pub id : ℕ
  pub vpd83 : String
  pub name : String
  pub total_space : ℤ
  pub consumed_size : ℤ
  pub admin_state : ℕ
  pub is_hw_raid_vol : ℕ
  pub write_cache_policy : ℕ
  pub read_cache_policy : ℕ
  pub phy_disk_cache : ℕ
  pub pool_id : ℕ

pub record Ag : Type 0 where
  pub id : ℕ
  pub name : String

pub record Init : Type 0 where
  pub id : String
  pub init_type : ℕ
  pub owner_ag_id : ℕ

pub record VolMask : Type 0 where
  pub vol_id : ℕ
  pub ag_id : ℕ

pub record VolRep : Type 0 where
  pub rep_type : ReplicateType
  pub src_vol_id : ℕ
  pub dst_vol_id : ℕ

pub record Fs : Type 0 where
  pub id : ℕ
  pub name : String
  pub total_space : ℤ
  pub consumed_size : ℤ
  pub free_space : ℤ
  pub pool_id : ℕ

pub record FsSnap : Type 0 where
  pub id : ℕ
  pub name : String
  pub fs_id : ℕ
  pub timestamp : ℕ

pub record FsClone : Type 0 where
  pub src_fs_id : ℕ
  pub dst_fs_id : ℕ

pub record Exp : Type 0 where
  pub id : ℕ
  pub fs_id : ℕ
  pub exp_path : String
  pub auth_type : String
  pub anon_uid : String
  pub anon_gid : String
  pub options : String

-- exp_root_hosts, exp_rw_hosts and exp_ro_hosts
pub record ExpHost : Type 0 where
  pub host : String
  pub exp_id : ℕ

pub data JobDataType : Type 0 where
  job_data_vol job_data_fs job_data_fs_snap : JobDataType

-- `data_type` and `data_id` are given together or left out together. The duration and the timestamp are
-- doubles as in Doubles, multiples of 2^-1074 seconds.
pub record Job : Type 0 where
  pub id : ℕ
  pub duration : ℕ
  pub timestamp : ℕ
  pub job_data : Option (JobDataType × ℤ)

pub record Db : Type 0 where
  pub systems : List System
  pub tgts : List Tgt
  pub batteries : List Battery
  pub pools : List Pool
  pub disks : List Disk
  pub volumes : List Volume
  pub ags : List Ag
  pub inits : List Init
  pub vol_masks : List VolMask
  pub vol_reps : List VolRep
  pub fss : List Fs
  pub fs_snaps : List FsSnap
  pub fs_clones : List FsClone
  pub exps : List Exp
  pub exp_root_hosts : List ExpHost
  pub exp_rw_hosts : List ExpHost
  pub exp_ro_hosts : List ExpHost
  pub jobs : List Job
