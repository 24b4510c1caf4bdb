-- ===== src/Sim/Filesystems/Resize.antt =====
-- Every outcome of `sim_fs_resize` (plugin/sim_plugin/simarray.py), and that it overdraws no pool.
use libstoragemgmt.Base.{
  ℤ, pos, ◌-ℤ◌, ◌≤ℤ◌, eqb_ℤ, ltb_ℤ, Bool, ◌≡◌, refl, ◌⊎◌, inl, inr, true, false, ◌&&◌, [], ◌∷◌, ◌∙◌,
  Bool-cases, arith, int_laws, if◌then◌else◌,
}
use libstoragemgmt.Common.{ErrorNumber, Exception, lsm_error, Result, ok, err}
use libstoragemgmt.Sql.{is_id, update}
use libstoragemgmt.Sql.Rows.{All-update, All-found, select-passes}
use libstoragemgmt.Sim.Tables.{Pool, Fs, Db}
use libstoragemgmt.Sim.Cascade.{sim_data_of_id}
use libstoragemgmt.Sim.Cascade.Lookup.{Missing, lookup_cases}
use libstoragemgmt.Sim.Pools.{free_space_of, block_rounding, sim_pool_of_id}
use libstoragemgmt.Sim.Pools.Rounding.{block_rounding_lem}
use libstoragemgmt.Sim.Pools.Space.{IsSizedFs, IsSolvent, free_space-update_fs, room-of-charge}
use libstoragemgmt.Sim.Volumes.Create.{pools_of_id}
use libstoragemgmt.Sim.Filesystems.{sim_fs_of_id, sim_fs_resize}
use libstoragemgmt.Sim.Filesystems.Delete.{fss_of_id}

module _ (z : ℤ) (size : ℤ) (db : Db) where
  abbrev pub with_fs_size : Fs → Fs
  with_fs_size f = record f {
    total_space = block_rounding size;
    consumed_size = block_rounding size;
    free_space = block_rounding size;
  }

  abbrev pub fs_resized : Db
  fs_resized = record db { fss = update (λ f. is_id z f.id) with_fs_size db.fss }

  -- the pool has room for what the file system grows by, or it does not grow
  abbrev pub Fits : Fs → Pool → Type 0
  Fits f p =
      (block_rounding size -ℤ f.total_space ≤ℤ free_space_of db p)
      ⊎ (block_rounding size -ℤ f.total_space ≤ℤ pos 0)

  abbrev IsSameSize : Fs → Bool → Type 0
  IsSameSize f b = eqb_ℤ f.total_space (block_rounding size) ≡ b

  -- it grows, and by more than the free space of the pool
  abbrev is_too_large : Fs → Pool → Bool
  is_too_large f p =
      ltb_ℤ f.total_space (block_rounding size)
      && ltb_ℤ (free_space_of db p) (block_rounding size -ℤ f.total_space)

  abbrev pub ResizesFs : Result (Unit {0}) × Db → Type 0
  ResizesFs (ok _, db') =
      (f : Fs) × (p : Pool) × (fss_of_id z db ≡ f ∷ [])
      × (pools_of_id (pos f.pool_id) db ≡ p ∷ [])
      × (IsSameSize f false × Fits f p)
      × (db' ≡ fs_resized)
  ResizesFs (err x, db') =
      (db' ≡ db)
      × (Missing Db.fss Fs.id z ErrorNumber.not_found_fs db x
          ⊎ ((f : Fs) × (fss_of_id z db ≡ f ∷ [])
              × (((x ≡ lsm_error ErrorNumber.no_state_change) × IsSameSize f true)
                  ⊎ Missing Db.pools Pool.id (pos f.pool_id) ErrorNumber.not_found_pool db x
                  ⊎ ((p : Pool) × (pools_of_id (pos f.pool_id) db ≡ p ∷ [])
                      × (x ≡ lsm_error ErrorNumber.not_enough_space)
                      × (is_too_large f p ≡ true)))))

  lost-eq :
      (x : Exception) → sim_fs_of_id z db ≡ (err x, db) → sim_fs_resize z size db ≡ (err x, db)
  unfolding sim_fs_resize
  lost-eq x h = ground arith

  same-eq :
      (f : Fs)
      → fss_of_id z db ≡ f ∷ []
      → eqb_ℤ f.total_space (block_rounding size) ≡ true
      → sim_fs_resize z size db ≡ (err (lsm_error ErrorNumber.no_state_change), db)
  unfolding sim_fs_resize sim_fs_of_id sim_data_of_id
  same-eq f h e = ground arith

  no_pool-eq :
      (f : Fs) (x : Exception)
      → fss_of_id z db ≡ f ∷ []
      → eqb_ℤ f.total_space (block_rounding size) ≡ false
      → sim_pool_of_id (pos f.pool_id) db ≡ (err x, db)
      → sim_fs_resize z size db ≡ (err x, db)
  unfolding sim_fs_resize sim_fs_of_id sim_data_of_id
  no_pool-eq f x h e k = ground arith

  found-eq :
      (f : Fs) (p : Pool)
      → fss_of_id z db ≡ f ∷ []
      → pools_of_id (pos f.pool_id) db ≡ p ∷ []
      → eqb_ℤ f.total_space (block_rounding size) ≡ false
      → sim_fs_resize z size db ≡ (
          if ltb_ℤ f.total_space (block_rounding size)
            && ltb_ℤ (free_space_of db p) (block_rounding size -ℤ f.total_space)
          then (err (lsm_error ErrorNumber.not_enough_space), db)
          else (ok tt, fs_resized))
  unfolding sim_fs_resize sim_fs_of_id sim_pool_of_id sim_data_of_id
  found-eq f p h k e = ground arith

  fits :
      (f : Fs) (p : Pool)
      → ltb_ℤ f.total_space (block_rounding size)
          && ltb_ℤ (free_space_of db p) (block_rounding size -ℤ f.total_space)
        ≡ false
      → Fits f p
  fits f p h = elim (Bool-cases (ltb_ℤ f.total_space (block_rounding size))) [
    | inl grows ↦ inl (grind int_laws)
    | inr stays ↦ inr (grind int_laws)
  ]

  found-ResizesFs :
      (f : Fs) (p : Pool)
      → fss_of_id z db ≡ f ∷ []
      → pools_of_id (pos f.pool_id) db ≡ p ∷ []
      → eqb_ℤ f.total_space (block_rounding size) ≡ false
      → ResizesFs (sim_fs_resize z size db)
  found-ResizesFs f p h k e = rw (found-eq f p h k e) (elim (Bool-cases (is_too_large f p)) [
    | inl full ↦ rw full (refl, inr (f, h, inr (inr (p, k, refl, full))))
    | inr room ↦ rw room (f, p, h, k, (e, fits f p room), refl)
  ])

  -- Every outcome of `sim_fs_resize`: it returns only if the file system is there, the rounded size is
  -- not the one it has, and its pool has room for what the file system grows by, or it does not grow,
  -- and then its three sizes, set to the rounded size, are the one change; if it raises, nothing has
  -- changed, and the file system or its pool is missing, the size is the same (NO_STATE_CHANGE), or
  -- the file system grows by more than the free space of the pool (NOT_ENOUGH_SPACE).
  pub sim_fs_resize-ResizesFs : ResizesFs (sim_fs_resize z size db)
  unfolding sim_fs_of_id sim_pool_of_id
  sim_fs_resize-ResizesFs = elim (lookup_cases Db.fss Fs.id z ErrorNumber.not_found_fs db) [
    | inl (f, h, _) ↦ elim (Bool-cases (eqb_ℤ f.total_space (block_rounding size))) [
      | inl same ↦ rw (same-eq f h same) (refl, inr (f, h, inl (refl, same)))
      | inr differs ↦
          elim (lookup_cases Db.pools Pool.id (pos f.pool_id) ErrorNumber.not_found_pool db) [
            | inl (p, k, _) ↦ found-ResizesFs f p h k differs
            | inr (x, m, k) ↦ rw (no_pool-eq f x h differs k) (refl, inr (f, h, inr (inl m)))
          ]
    ]
    | inr (x, m, h) ↦ rw (lost-eq x h) (refl, inl m)
  ]

  fs_resized-IsSolvent :
      (f : Fs) (p : Pool)
      → fss_of_id z db ≡ f ∷ []
      → pools_of_id (pos f.pool_id) db ≡ p ∷ []
      → Fits f p
      → pos 0 ≤ℤ size
      → IsSolvent db
      → IsSolvent fs_resized
  fs_resized-IsSolvent f p h k enough sign solvent =
      let owner : f.pool_id ≡ p.id =
        ground (arith, select-passes (λ r. is_id (pos f.pool_id) (Pool.id r)) db.pools p [] k) in
      let sized : f.total_space ≡ f.consumed_size =
        (All-found IsSizedFs (λ w. is_id z w.id) db.fss f [] h solvent.fs_sizes).1 in
      record {
        room =
            room-of-charge (pos f.pool_id) p (block_rounding size -ℤ f.total_space) db fs_resized k
              enough
              (λ q.
                free_space-update_fs db q (λ w. is_id z w.id) with_fs_size f (λ w. refl) h
                ∙ cc (owner, sized))
              solvent.room;
        volume_sizes = solvent.volume_sizes;
        fs_sizes =
            All-update IsSizedFs (λ w. is_id z w.id) with_fs_size db.fss
              (λ w _. (omega (int_laws, block_rounding_lem size), refl)) solvent.fs_sizes;
      }

  after-IsSolvent :
      (o : Result (Unit {0}) × Db) → ResizesFs o → pos 0 ≤ℤ size → IsSolvent db → IsSolvent o.1
  after-IsSolvent (ok _, db') (f, p, h, k, (_, enough), e) sign solvent =
      rw e (fs_resized-IsSolvent f p h k enough sign solvent)
  after-IsSolvent (err x, db') (e, _) sign solvent = rw e solvent

  -- Resizing a file system to any size from 0 on overdraws no pool, whether the call returns or raises.
  pub sim_fs_resize-IsSolvent : pos 0 ≤ℤ size → IsSolvent db → IsSolvent (sim_fs_resize z size db).1
  sim_fs_resize-IsSolvent = after-IsSolvent (sim_fs_resize z size db) sim_fs_resize-ResizesFs
