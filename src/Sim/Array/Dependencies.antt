-- ===== src/Sim/Array/Dependencies.antt =====
-- What `fs_child_dependency_rm` does to what `fs_child_dependency` finds, and the same of volumes
-- (plugin/sim_plugin/simarray.py).
use libstoragemgmt.Base.{ℤ}
use libstoragemgmt.Sim.Tables.{Db}
use libstoragemgmt.Sim.Filesystems.{sim_fs_src_clone_break, sim_fs_snap_del_by_fs}

module _ (z : ℤ) (db : Db) where
  -- the tables after the two steps by which `fs_child_dependency_rm` removes the dependencies
  abbrev pub freed : Db
  freed = (sim_fs_snap_del_by_fs z (sim_fs_src_clone_break z db).1).1
