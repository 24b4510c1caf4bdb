-- ===== src/Sim/Sound/Frame.antt =====
-- The operations of `BackStore` (plugin/sim_plugin/simarray.py) that leave pools, disks, volumes and
-- file systems as they are.
use libstoragemgmt.Base.{
  ℕ, ℤ, pos, negsuc, suc, zero, String, Option, none, some, List, refl, arith,
}
use libstoragemgmt.Sim.Tables.{JobDataType, Db}
use libstoragemgmt.Sim.Constants.{ReplicateType}
use libstoragemgmt.Sim.Cascade.{sim_data_of_id, data_add, delete_ags, delete_exps}
use libstoragemgmt.Sim.Volumes.{
  sim_vol_of_id, dst_sim_vol_ids_of_src, sim_vol_replica, sim_vol_src_replica_break,
}
use libstoragemgmt.Sim.Groups.{
  sim_ag_of_id, sim_ag_format, sim_init_create, sim_ag_create, sim_ag_delete, sim_ag_init_add,
  sim_ag_init_delete,
}
use libstoragemgmt.Sim.Masks.{sim_vol_mask, sim_vol_unmask}
use libstoragemgmt.Sim.Filesystems.{
  sim_fs_of_id, sim_fs_snaps, clone_dst_sim_fs_ids_of_src, sim_fs_snap_create, sim_fs_snap_of_id,
  sim_fs_snap_delete, sim_fs_snap_del_by_fs, sim_fs_src_clone_break, check_snap,
  sim_fs_snap_restore, sim_fs_file_clone, sim_fs_clone,
}
use libstoragemgmt.Sim.Exports.{sim_exp_of_id, sim_exp_create, sim_exp_delete}
use libstoragemgmt.Sim.Jobs.{sim_job_create, sim_job_delete}
use libstoragemgmt.Sim.Array.Session.{Env, job_create}
use libstoragemgmt.Sim.Array.Filesystems.{has_child_dependency}
use libstoragemgmt.Sim.Sound.{SameSpace}

pub sim_vol_replica-SameSpace :
    (src dst : ℤ) (t : ReplicateType) (db : Db) → SameSpace db (sim_vol_replica src dst t db).1
unfolding sim_vol_replica sim_vol_of_id sim_data_of_id
sim_vol_replica-SameSpace src dst t db = ground arith

pub sim_vol_src_replica_break-SameSpace :
    (z : ℤ) (db : Db) → SameSpace db (sim_vol_src_replica_break z db).1
unfolding sim_vol_src_replica_break dst_sim_vol_ids_of_src sim_vol_of_id sim_data_of_id
sim_vol_src_replica_break-SameSpace z db = ground arith

pub sim_vol_mask-SameSpace : (v a : ℤ) (db : Db) → SameSpace db (sim_vol_mask v a db).1
unfolding sim_vol_mask sim_vol_of_id sim_ag_of_id sim_ag_format sim_data_of_id
sim_vol_mask-SameSpace v a db = ground arith

pub sim_vol_unmask-SameSpace : (v a : ℤ) (db : Db) → SameSpace db (sim_vol_unmask v a db).1
unfolding sim_vol_unmask sim_vol_of_id sim_ag_of_id sim_ag_format sim_data_of_id
sim_vol_unmask-SameSpace v a db = ground arith

pub sim_ag_of_id-SameSpace : (a : ℤ) (db : Db) → SameSpace db (sim_ag_of_id a db).1
unfolding sim_ag_of_id sim_ag_format sim_data_of_id
sim_ag_of_id-SameSpace a db = ground arith

pub sim_ag_create-SameSpace :
    (name : String) (t : ℕ) (i : String) (db : Db) → SameSpace db (sim_ag_create name t i db).1
unfolding sim_ag_create sim_init_create data_add
sim_ag_create-SameSpace name t i db = ground arith

pub sim_ag_delete-SameSpace : (a : ℤ) (db : Db) → SameSpace db (sim_ag_delete a db).1
unfolding sim_ag_delete sim_ag_of_id sim_ag_format sim_data_of_id delete_ags
sim_ag_delete-SameSpace a db = ground arith

pub sim_ag_init_add-SameSpace :
    (a : ℤ) (i : String) (t : ℕ) (db : Db) → SameSpace db (sim_ag_init_add a i t db).1
unfolding sim_ag_init_add sim_ag_of_id sim_ag_format sim_data_of_id sim_init_create data_add
sim_ag_init_add-SameSpace a i t db = ground arith

pub sim_ag_init_delete-SameSpace :
    (a : ℤ) (i : String) (db : Db) → SameSpace db (sim_ag_init_delete a i db).1
unfolding sim_ag_init_delete sim_ag_of_id sim_ag_format sim_data_of_id
sim_ag_init_delete-SameSpace a i db = ground arith

pub sim_vol_of_id-SameSpace : (z : ℤ) (db : Db) → SameSpace db (sim_vol_of_id z db).1
unfolding sim_vol_of_id sim_data_of_id
sim_vol_of_id-SameSpace z db = ground arith

pub sim_fs_of_id-SameSpace : (z : ℤ) (db : Db) → SameSpace db (sim_fs_of_id z db).1
unfolding sim_fs_of_id sim_data_of_id
sim_fs_of_id-SameSpace z db = ground arith

pub sim_fs_snap_create-SameSpace :
    (now : ℕ) (z : ℤ) (name : String) (db : Db) → SameSpace db (sim_fs_snap_create now z name db).1
unfolding sim_fs_snap_create sim_fs_of_id sim_data_of_id data_add
sim_fs_snap_create-SameSpace now z name db = ground arith

pub sim_fs_snap_of_id-SameSpace :
    (z : ℤ) (f : Option ℤ) (db : Db) → SameSpace db (sim_fs_snap_of_id z f db).1
unfolding sim_fs_snap_of_id sim_data_of_id
sim_fs_snap_of_id-SameSpace z f db = ground arith

pub sim_fs_snap_delete-SameSpace : (z f : ℤ) (db : Db) → SameSpace db (sim_fs_snap_delete z f db).1
unfolding sim_fs_snap_delete sim_fs_of_id sim_fs_snap_of_id sim_data_of_id
sim_fs_snap_delete-SameSpace z f db = ground arith

pub sim_fs_snap_del_by_fs-SameSpace :
    (z : ℤ) (db : Db) → SameSpace db (sim_fs_snap_del_by_fs z db).1
unfolding sim_fs_snap_del_by_fs
sim_fs_snap_del_by_fs-SameSpace z db = ground arith

pub sim_fs_src_clone_break-SameSpace :
    (z : ℤ) (db : Db) → SameSpace db (sim_fs_src_clone_break z db).1
unfolding sim_fs_src_clone_break
sim_fs_src_clone_break-SameSpace z db = ground arith

pub has_child_dependency-SameSpace : (z : ℤ) (db : Db) → SameSpace db (has_child_dependency z db).1
unfolding has_child_dependency clone_dst_sim_fs_ids_of_src sim_fs_snaps sim_fs_of_id sim_data_of_id
has_child_dependency-SameSpace z db = ground arith

pub sim_exp_of_id-SameSpace : (z : ℤ) (db : Db) → SameSpace db (sim_exp_of_id z db).1
unfolding sim_exp_of_id sim_data_of_id
sim_exp_of_id-SameSpace z db = ground arith

pub sim_exp_delete-SameSpace : (z : ℤ) (db : Db) → SameSpace db (sim_exp_delete z db).1
unfolding sim_exp_delete sim_exp_of_id sim_data_of_id delete_exps
sim_exp_delete-SameSpace z db = ground arith

pub sim_job_delete-SameSpace : (z : ℤ) (db : Db) → SameSpace db (sim_job_delete z db).1
unfolding sim_job_delete
sim_job_delete-SameSpace z db = ground arith

pub job_create-SameSpace :
    (env : Env) (d : Option (JobDataType × ℤ)) (db : Db) → SameSpace db (job_create env d db).1
unfolding job_create sim_job_create
job_create-SameSpace env d db = ground arith

pub check_snap-SameSpace : (s : Option ℤ) (z : ℤ) (db : Db) → SameSpace db (check_snap s z db).1
unfolding check_snap sim_fs_snap_of_id sim_data_of_id
check_snap-SameSpace none z db = (refl, refl, refl, refl)
check_snap-SameSpace (some (pos zero)) z db = (refl, refl, refl, refl)
check_snap-SameSpace (some (pos (suc n))) z db = ground arith
check_snap-SameSpace (some (negsuc n)) z db = ground arith

pub sim_fs_snap_restore-SameSpace :
    (z : ℤ) (s : Option ℤ) (db : Db) → SameSpace db (sim_fs_snap_restore z s db).1
unfolding sim_fs_snap_restore sim_fs_of_id sim_data_of_id
sim_fs_snap_restore-SameSpace z s db = ground (arith, check_snap-SameSpace s z db)

pub sim_fs_file_clone-SameSpace :
    (z : ℤ) (s : Option ℤ) (db : Db) → SameSpace db (sim_fs_file_clone z s db).1
unfolding sim_fs_file_clone sim_fs_of_id sim_data_of_id
sim_fs_file_clone-SameSpace z s db = ground (arith, check_snap-SameSpace s z db)

pub sim_fs_clone-SameSpace :
    (src dst : ℤ) (s : Option ℤ) (db : Db) → SameSpace db (sim_fs_clone src dst s db).1
unfolding sim_fs_clone sim_fs_of_id sim_data_of_id
sim_fs_clone-SameSpace src dst s db = ground (arith, check_snap-SameSpace s src db)

pub sim_exp_create-SameSpace :
    (random : String) (z : ℤ) (p : Option String) (r w o : List String) (u g a t : String) (db : Db)
    → SameSpace db (sim_exp_create random z p r w o u g a t db).1
unfolding sim_exp_create sim_fs_of_id sim_data_of_id data_add
sim_exp_create-SameSpace random z p r w o u g a t db = ground arith
