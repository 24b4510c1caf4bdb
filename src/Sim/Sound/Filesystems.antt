-- ===== src/Sim/Sound/Filesystems.antt =====
-- The operations on file systems (plugin/sim_plugin/simarray.py) keep the invariant.
use libstoragemgmt.Base.{ℕ, ℤ, pos, ◌≤ℤ◌, String, ◌≡◌, refl}
use libstoragemgmt.Common.{Result, ok, err}
use libstoragemgmt.Sim.Tables.{Db}
use libstoragemgmt.Sim.Exec.Keeps.{Keeps}
use libstoragemgmt.Sim.Filesystems.{sim_fs_create, sim_fs_resize, sim_fs_delete}
use libstoragemgmt.Sim.Filesystems.Create.{Makes, sim_fs_create-Makes, sim_fs_create-IsSolvent}
use libstoragemgmt.Sim.Filesystems.Resize.{
  ResizesFs, sim_fs_resize-ResizesFs, sim_fs_resize-IsSolvent,
}
use libstoragemgmt.Sim.Filesystems.Delete.{sim_fs_delete-same_volumes, sim_fs_delete-IsSolvent}
use libstoragemgmt.Sim.Sound.{IsSound}

made-volumes :
    (name : String) (size z : ℤ) (db : Db) (o : Result ℕ × Db)
    → Makes name size z db o
    → Db.volumes o.1 ≡ db.volumes
made-volumes name size z db (ok id, db') (p, _, _, _, _, e) = rw e refl
made-volumes name size z db (err x, db') (e, _) = rw e refl

pub sim_fs_create-IsSound :
    (name : String) (size z : ℤ) → pos 0 ≤ℤ size → Keeps IsSound (sim_fs_create name size z)
sim_fs_create-IsSound name size z sign db sound = record {
  solvent = sim_fs_create-IsSolvent name size z db sign sound.solvent;
  plain =
      rw
        (made-volumes name size z db (sim_fs_create name size z db)
          (sim_fs_create-Makes name size z db))
        sound.plain;
}

resized-volumes :
    (z size : ℤ) (db : Db) (o : Result (Unit {0}) × Db)
    → ResizesFs z size db o
    → Db.volumes o.1 ≡ db.volumes
resized-volumes z size db (ok _, db') (f, p, _, _, _, e) = rw e refl
resized-volumes z size db (err x, db') (e, _) = rw e refl

pub sim_fs_resize-IsSound : (z size : ℤ) → pos 0 ≤ℤ size → Keeps IsSound (sim_fs_resize z size)
sim_fs_resize-IsSound z size sign db sound = record {
  solvent = sim_fs_resize-IsSolvent z size db sign sound.solvent;
  plain =
      rw (resized-volumes z size db (sim_fs_resize z size db) (sim_fs_resize-ResizesFs z size db))
        sound.plain;
}

pub sim_fs_delete-IsSound : (z : ℤ) → Keeps IsSound (sim_fs_delete z)
sim_fs_delete-IsSound z db sound = record {
  solvent = sim_fs_delete-IsSolvent z db sound.solvent;
  plain = rw (sim_fs_delete-same_volumes z db) sound.plain;
}
