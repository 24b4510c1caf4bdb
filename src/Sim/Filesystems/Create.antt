-- ===== src/Sim/Filesystems/Create.antt =====
-- Every outcome of `sim_fs_create` (plugin/sim_plugin/simarray.py), and that it overdraws no pool.
use libstoragemgmt.Base.{
  ℕ, ℤ, pos, ◌≤ℤ◌, ltb_ℤ, String, ◌≡◌, ◌⊎◌, inl, inr, refl, Bool, true, false, ◌||◌, [], ◌∷◌, ◌++◌,
  str_eq, arith, if◌then◌else◌, not, ◌==◌, Bool-cases, le_of_ltb_ℤ, int_laws,
}
use libstoragemgmt.Common.{ErrorNumber, Exception, lsm_error, Result, ok, err}
use libstoragemgmt.Sql.{is_id, any, fresh}
use libstoragemgmt.Sql.Rows.{any-of-select, All-append}
use libstoragemgmt.Sim.Tables.{Pool, Fs, Db}
use libstoragemgmt.Sim.Cascade.{sim_data_of_id}
use libstoragemgmt.Sim.Cascade.Lookup.{Missing, lookup_cases}
use libstoragemgmt.Sim.Pools.{sim_pool_of_id, check_pool_free_space, block_rounding, free_space_of}
use libstoragemgmt.Sim.Pools.Rounding.{block_rounding_lem}
use libstoragemgmt.Sim.Pools.Space.{room-of-charge, IsSizedFs, IsSolvent, free_space-append_fs}
use libstoragemgmt.Sim.Volumes.Create.{pools_of_id}
use libstoragemgmt.Sim.Filesystems.{sim_fs_create}

abbrev pub fs_name_in_use : String → Db → Bool
fs_name_in_use name db = any (λ g. str_eq g.name name) db.fss

abbrev pub with_fs : Fs → Db → Db
with_fs f db = record db { fss = db.fss ++ f ∷ [] }

module _ (name : String) (size : ℤ) (sim_pool_id : ℤ) (db : Db) where
  -- the file system that goes into pool `p`
  abbrev pub made : Pool → Fs
  made p = record {
    id = fresh Fs.id db.fss;
    name = name;
    total_space = block_rounding size;
    consumed_size = block_rounding size;
    free_space = block_rounding size;
    pool_id = p.id;
  }

  -- What a call returns and leaves: on success the pool is there with the room that the rounded size
  -- takes, the name is free, and one file system is new; an error has one of the three reasons.
  abbrev pub Makes : Result ℕ × Db → Type 0
  Makes (ok id, db') =
      (p : Pool) × (pools_of_id sim_pool_id db ≡ p ∷ [])
      × (block_rounding size ≤ℤ free_space_of db p)
      × (fs_name_in_use name db ≡ false)
      × (id ≡ fresh Fs.id db.fss)
      × (db' ≡ with_fs (made p) db)
  Makes (err x, db') =
      (db' ≡ db)
      × (Missing Db.pools Pool.id sim_pool_id ErrorNumber.not_found_pool db x
          ⊎ ((x ≡ lsm_error ErrorNumber.not_enough_space)
              × (p : Pool) × (pools_of_id sim_pool_id db ≡ p ∷ [])
              × (ltb_ℤ (free_space_of db p) (block_rounding size) ≡ true))
          ⊎ ((x ≡ lsm_error ErrorNumber.name_conflict) × (fs_name_in_use name db ≡ true)))

  -- the checks and the INSERT, once the pool is found
  outcome_in : Pool → Result ℕ × Db
  outcome_in p =
      if ltb_ℤ (free_space_of db p) (block_rounding size)
      then (err (lsm_error ErrorNumber.not_enough_space), db)
      else if fs_name_in_use name db || not (any (λ q. q.id == p.id) db.pools)
      then (err (lsm_error ErrorNumber.name_conflict), db)
      else (ok (fresh Fs.id db.fss), with_fs (made p) db)

  in_pool-eq :
      (p : Pool)
      → pools_of_id sim_pool_id db ≡ p ∷ []
      → sim_fs_create name size sim_pool_id db ≡ outcome_in p
  unfolding sim_fs_create check_pool_free_space sim_pool_of_id sim_data_of_id outcome_in
  in_pool-eq p h = ground arith

  no_pool-eq :
      (x : Exception)
      → sim_pool_of_id sim_pool_id db ≡ (err x, db)
      → sim_fs_create name size sim_pool_id db ≡ (err x, db)
  unfolding sim_fs_create check_pool_free_space
  no_pool-eq x h = ground arith

  outcome-Makes : (p : Pool) → pools_of_id sim_pool_id db ≡ p ∷ [] → Makes (outcome_in p)
  unfolding outcome_in
  outcome-Makes p h = elim (Bool-cases (ltb_ℤ (free_space_of db p) (block_rounding size))) [
    | inl full ↦ rw full (refl, inr (inl (refl, p, h, full)))
    | inr room ↦ elim (Bool-cases (fs_name_in_use name db)) [
      | inl used ↦ rw (room, used) (refl, inr (inr (refl, used)))
      | inr free ↦
          rw
            (
              room,
              free,
              any-of-select (λ q. q.id == p.id) (λ q. is_id sim_pool_id q.id) db.pools p [] h
                  (ground arith),
            )
            (p, h, le_of_ltb_ℤ (free_space_of db p) (block_rounding size) room, free, refl, refl)
    ]
  ]

  -- Every outcome of `sim_fs_create`: it returns only if the pool is there, has room for the rounded
  -- size and the name is free, and then the file system under the returned id is the one change; if it
  -- raises, nothing has changed, and the pool is missing, too full, or the name is in use.
  pub sim_fs_create-Makes : Makes (sim_fs_create name size sim_pool_id db)
  unfolding sim_pool_of_id
  sim_fs_create-Makes =
      elim (lookup_cases Db.pools Pool.id sim_pool_id ErrorNumber.not_found_pool db) [
        | inl (p, h, e) ↦ rw (in_pool-eq p h) (outcome-Makes p h)
        | inr (x, m, e) ↦ rw (no_pool-eq x e) (refl, inl m)
      ]

  after-IsSolvent : (o : Result ℕ × Db) → Makes o → pos 0 ≤ℤ size → IsSolvent db → IsSolvent o.1
  after-IsSolvent (ok id, db') (p, h, enough, _, _, e) sign solvent = rw e (record {
    room =
        room-of-charge sim_pool_id p (block_rounding size) db (with_fs (made p) db) h (inl enough)
          (λ q. free_space-append_fs db q (made p)) solvent.room;
    volume_sizes = solvent.volume_sizes;
    fs_sizes =
        All-append IsSizedFs db.fss _ solvent.fs_sizes
          (omega (int_laws, block_rounding_lem size), refl);
  })
  after-IsSolvent (err x, db') (e, _) sign solvent = rw e solvent

  -- Creating a file system of any size from 0 on overdraws no pool, whether the call returns or raises.
  pub sim_fs_create-IsSolvent :
      pos 0 ≤ℤ size → IsSolvent db → IsSolvent (sim_fs_create name size sim_pool_id db).1
  sim_fs_create-IsSolvent =
      after-IsSolvent (sim_fs_create name size sim_pool_id db) sim_fs_create-Makes
