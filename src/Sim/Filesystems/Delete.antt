-- ===== src/Sim/Filesystems/Delete.antt =====
-- Every outcome of `sim_fs_delete` (plugin/sim_plugin/simarray.py), and the space that it gives back.
use libstoragemgmt.Base.{ℤ, ◌+ℤ◌, ◌≡◌, ◌⊎◌, inl, inr, refl, List, [], ◌∷◌, arith, ◌==◌, ◌∙◌, ap}
use libstoragemgmt.Common.{ErrorNumber, Exception, lsm_error, Result, ok, err}
use libstoragemgmt.Sql.{is_id, select}
use libstoragemgmt.Sql.Rows.{select-delete, List-cases}
use libstoragemgmt.Sql.Sums.{sum_where-and_found}
use libstoragemgmt.Sim.Tables.{Pool, Fs, FsClone, Db}
use libstoragemgmt.Sim.Cascade.{sim_data_of_id, delete_fss, delete_exps}
use libstoragemgmt.Sim.Cascade.Lookup.{Missing, lookup_cases}
use libstoragemgmt.Sim.Pools.{free_space_of}
use libstoragemgmt.Sim.Pools.Space.{IsSolvent, charge, free_space-delete_fss, delete_fss-IsSolvent}
use libstoragemgmt.Sim.Filesystems.{sim_fs_of_id, clone_dst_sim_fs_ids_of_src, sim_fs_delete}

abbrev pub fss_of_id : ℤ → Db → List Fs
fss_of_id z db = select (λ f. is_id z f.id) db.fss

-- the clones of the file system
abbrev pub clones_of : ℤ → Db → List FsClone
clones_of z db = select (λ c. is_id z c.src_fs_id) db.fs_clones

module _ (z : ℤ) (db : Db) where
  -- What a call leaves: on success the file system was there and had no clone, no file system has the
  -- id any more, and every pool has the space again that was taken from it; an error has one of the
  -- two reasons.
  abbrev pub Removes : Result (Unit {0}) × Db → Type 0
  Removes (ok _, db') =
      (f : Fs) × (fss_of_id z db ≡ f ∷ [])
      × (clones_of z db ≡ [])
      × (fss_of_id z db' ≡ [])
      × ((p : Pool)
          → free_space_of db' p ≡ free_space_of db p +ℤ charge f.pool_id p.id f.consumed_size)
      × (IsSolvent db → IsSolvent db')
  Removes (err x, db') =
      (db' ≡ db)
      × (Missing Db.fss Fs.id z ErrorNumber.not_found_fs db x
          ⊎ ((x ≡ lsm_error ErrorNumber.has_child_dependency)
              × (c : FsClone) × (cs : List FsClone) × (clones_of z db ≡ c ∷ cs)))

  unused-eq :
      (f : Fs)
      → fss_of_id z db ≡ f ∷ []
      → clones_of z db ≡ []
      → sim_fs_delete z db ≡ (ok tt, delete_fss (λ g. is_id z g.id) db)
  unfolding sim_fs_delete clone_dst_sim_fs_ids_of_src sim_fs_of_id sim_data_of_id
  unused-eq f h k = ground arith

  cloned-eq :
      (f : Fs) (c : FsClone) (cs : List FsClone)
      → fss_of_id z db ≡ f ∷ []
      → clones_of z db ≡ c ∷ cs
      → sim_fs_delete z db ≡ (err (lsm_error ErrorNumber.has_child_dependency), db)
  unfolding sim_fs_delete clone_dst_sim_fs_ids_of_src sim_fs_of_id sim_data_of_id
  cloned-eq f c cs h k = ground arith

  lost-eq : (x : Exception) → sim_fs_of_id z db ≡ (err x, db) → sim_fs_delete z db ≡ (err x, db)
  unfolding sim_fs_delete
  lost-eq x h = ground arith

  no_fs_left : fss_of_id z (delete_fss (λ g. is_id z g.id) db) ≡ []
  unfolding delete_fss delete_exps
  no_fs_left = select-delete (λ g. is_id z g.id) db.fss

  unused-Removes :
      (f : Fs)
      → fss_of_id z db ≡ f ∷ []
      → clones_of z db ≡ []
      → Removes (ok tt, delete_fss (λ g. is_id z g.id) db)
  unused-Removes f h k = (
    f,
    h,
    k,
    no_fs_left,
    λ p.
        free_space-delete_fss db p (λ g. is_id z g.id)
        ∙ ap (λ n. free_space_of db p +ℤ n)
            (sum_where-and_found (λ g. Fs.pool_id g == p.id) (λ g. is_id z g.id) Fs.consumed_size
              db.fss f h),
    delete_fss-IsSolvent (λ g. is_id z g.id) db,
  )

  -- Every outcome of `sim_fs_delete`: if it returns, the file system was there and had no clone, no
  -- file system has the id any more, its pool has exactly its space again and every other pool what it
  -- had, and pools that were not overdrawn are not; if it raises, nothing has changed, and the file
  -- system is missing or has a clone (HAS_CHILD_DEPENDENCY).
  pub sim_fs_delete-Removes : Removes (sim_fs_delete z db)
  unfolding sim_fs_of_id
  sim_fs_delete-Removes = elim (lookup_cases Db.fss Fs.id z ErrorNumber.not_found_fs db) [
    | inl (f, h, _) ↦ elim (List-cases (clones_of z db)) [
      | inl none_left ↦ rw (unused-eq f h none_left) (unused-Removes f h none_left)
      | inr (c, cs, k) ↦ rw (cloned-eq f c cs h k) (refl, inr (refl, c, cs, k))
    ]
    | inr (x, m, e) ↦ rw (lost-eq x e) (refl, inl m)
  ]

  pub sim_fs_delete-same_volumes : (sim_fs_delete z db).1.volumes ≡ db.volumes
  unfolding sim_fs_delete clone_dst_sim_fs_ids_of_src sim_fs_of_id sim_data_of_id delete_fss
      delete_exps
  sim_fs_delete-same_volumes = ground arith

  after-IsSolvent : (o : Result (Unit {0}) × Db) → Removes o → IsSolvent db → IsSolvent o.1
  after-IsSolvent (ok _, db') (f, _, _, _, _, keeps) solvent = keeps solvent
  after-IsSolvent (err x, db') (e, _) solvent = rw e solvent

  pub sim_fs_delete-IsSolvent : IsSolvent db → IsSolvent (sim_fs_delete z db).1
  sim_fs_delete-IsSolvent = after-IsSolvent (sim_fs_delete z db) sim_fs_delete-Removes
