-- ===== src/Sim/Tests/Filesystems.antt =====
-- A small state file with a file system that has a snapshot.
use libstoragemgmt.Base.{pos, [], ◌∷◌}
use libstoragemgmt.Sim.Tables.{Fs, Db}
use libstoragemgmt.Sim.Filesystems.{sim_fs_create, sim_fs_delete, sim_fs_resize}
use libstoragemgmt.Sim.Filesystems.Create.{Makes, sim_fs_create-Makes}
use libstoragemgmt.Sim.Filesystems.Delete.{Removes, sim_fs_delete-Removes}
use libstoragemgmt.Sim.Filesystems.Resize.{ResizesFs, sim_fs_resize-ResizesFs}
use libstoragemgmt.Sim.Tests.{sample}

abbrev fs : Fs
fs = record {
  id = 1;
  name = "fs";
  total_space = pos 2048;
  consumed_size = pos 2048;
  free_space = pos 2048;
  pool_id = 1;
}

abbrev with_snapshot : Db
with_snapshot = record sample {
  fss = fs ∷ [];
  fs_snaps = record { id = 1; name = "snap"; fs_id = 1; timestamp = 3 } ∷ [];
}

sim_fs_create-Makes_example :
    Makes "new"
      (pos 700)
      (pos 1)
      with_snapshot
      (sim_fs_create "new" (pos 700) (pos 1) with_snapshot)
sim_fs_create-Makes_example = sim_fs_create-Makes "new" (pos 700) (pos 1) with_snapshot

sim_fs_delete-Removes_example : Removes (pos 1) with_snapshot (sim_fs_delete (pos 1) with_snapshot)
sim_fs_delete-Removes_example = sim_fs_delete-Removes (pos 1) with_snapshot

sim_fs_resize-ResizesFs_example :
    ResizesFs (pos 1) (pos 4000) with_snapshot (sim_fs_resize (pos 1) (pos 4000) with_snapshot)
sim_fs_resize-ResizesFs_example = sim_fs_resize-ResizesFs (pos 1) (pos 4000) with_snapshot
