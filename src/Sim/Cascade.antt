-- ===== src/Sim/Cascade.antt =====
-- DELETE, INSERT and lookup on the tables of plugin/sim_plugin/simarray.py, with the foreign keys
-- (ON DELETE CASCADE, ON DELETE SET DEFAULT) and the UNIQUE columns that `BackStore.__init__`
-- declares. An INSERT returns the `lastrowid`.
pub mod Lookup
use libstoragemgmt.Base.{
  ℕ, ℤ, String, Bool, true, false, ◌&&◌, ◌||◌, Option, none, some, List, [], ◌∷◌, ◌++◌, ◌==◌,
  str_eq, if◌then◌else◌,
}
use libstoragemgmt.Common.{ErrorNumber, Exception, lsm_error, Result, ok, err}
use libstoragemgmt.Sql.{is_id, select, delete, update, any}
use libstoragemgmt.Sql.References.{loses_parent}
use libstoragemgmt.Sim.Tables.{
  Pool, Disk, Volume, Ag, Init, VolMask, VolRep, Fs, FsSnap, FsClone, Exp, ExpHost, Job, Db,
}
use libstoragemgmt.Sim.Exec.{Exec}

unfoldable pub delete_volumes : (Volume → Bool) → Db → Db
delete_volumes q db = record db {
  volumes = delete q db.volumes;
  vol_masks = delete (loses_parent VolMask.vol_id Volume.id q db.volumes) db.vol_masks;
  vol_reps =
      delete
        (λ r.
          loses_parent VolRep.src_vol_id Volume.id q db.volumes r
          || loses_parent VolRep.dst_vol_id Volume.id q db.volumes r)
        db.vol_reps;
}

unfoldable pub delete_ags : (Ag → Bool) → Db → Db
delete_ags q db = record db {
  ags = delete q db.ags;
  inits = delete (loses_parent Init.owner_ag_id Ag.id q db.ags) db.inits;
  vol_masks = delete (loses_parent VolMask.ag_id Ag.id q db.ags) db.vol_masks;
}

unfoldable pub delete_exps : (Exp → Bool) → Db → Db
delete_exps q db = record db {
  exps = delete q db.exps;
  exp_root_hosts = delete (loses_parent ExpHost.exp_id Exp.id q db.exps) db.exp_root_hosts;
  exp_rw_hosts = delete (loses_parent ExpHost.exp_id Exp.id q db.exps) db.exp_rw_hosts;
  exp_ro_hosts = delete (loses_parent ExpHost.exp_id Exp.id q db.exps) db.exp_ro_hosts;
}

unfoldable pub delete_fss : (Fs → Bool) → Db → Db
delete_fss q db =
    let rest = delete_exps (loses_parent Exp.fs_id Fs.id q db.fss) db in
    record rest {
      fss = delete q db.fss;
      fs_snaps = delete (loses_parent FsSnap.fs_id Fs.id q db.fss) db.fs_snaps;
      fs_clones =
          delete
            (λ c.
              loses_parent FsClone.src_fs_id Fs.id q db.fss c
              || loses_parent FsClone.dst_fs_id Fs.id q db.fss c)
            db.fs_clones;
    }

-- the disk is a member of the pool
abbrev pub owned_by : ℕ → Disk → Bool
owned_by k d = elim d.owner_pool_id [ none ↦ false | some p ↦ p == k ]

-- the disk's owner is among the pools that are deleted
abbrev pub loses_owner : (Pool → Bool) → List Pool → Disk → Bool
loses_owner q pools d = any (λ p. q p && owned_by p.id d) pools

unfoldable pub delete_pools : (Pool → Bool) → Db → Db
delete_pools q db =
    let v = delete_volumes (loses_parent Volume.pool_id Pool.id q db.pools) db in
    let f = delete_fss (loses_parent Fs.pool_id Pool.id q db.pools) v in
    record f {
      pools = delete q db.pools;
      disks = update (loses_owner q db.pools) (λ d. record d { owner_pool_id = none }) db.disks;
    }

-- An INSERT that would break a UNIQUE column or a foreign key raises IntegrityError.
unfoldable pub data_add : Bool → ℕ → (Db → Db) → Exec ℕ
data_add conflict new_id insert db =
    if conflict then (err Exception.integrity_error, db) else (ok new_id, insert db)

module _ {A : Type 0} where
  -- `_data_find(…, flag_unique=True)` on the rows that were found
  abbrev pub unique_row : List A → ErrorNumber → Result A
  unique_row [] e = err (lsm_error e)
  unique_row (x ∷ []) e = ok x
  unique_row (x ∷ y ∷ t) e = err (lsm_error ErrorNumber.plugin_bug)

  -- `_sim_data_of_id` with an error number
  unfoldable pub sim_data_of_id : (Db → List A) → (A → ℕ) → ℤ → ErrorNumber → Exec A
  sim_data_of_id table key sim_id e db =
      (unique_row (select (λ r. is_id sim_id (key r)) (table db)) e, db)
