-- ===== src/Sim/Volumes/Create.antt =====
-- Every outcome of `sim_vol_create` (plugin/sim_plugin/simarray.py).
use libstoragemgmt.Base.{
  ℕ, ℤ, ◌≤ℤ◌, ltb_ℤ, String, ◌≡◌, ◌⊎◌, inl, inr, refl, Bool, true, false, ◌||◌, List, [], ◌∷◌, ◌++◌,
  str_eq, arith, if◌then◌else◌, not, ◌==◌, Bool-cases, le_of_ltb_ℤ,
}
use libstoragemgmt.Common.{ErrorNumber, Exception, lsm_error, Result, ok, err}
use libstoragemgmt.Sql.{is_id, select, any, fresh}
use libstoragemgmt.Sql.Rows.{any-of-select}
use libstoragemgmt.Sim.Tables.{Pool, Volume, Db}
use libstoragemgmt.Sim.Cascade.{sim_data_of_id}
use libstoragemgmt.Sim.Cascade.Lookup.{Missing, lookup_cases}
use libstoragemgmt.Sim.Pools.{sim_pool_of_id, check_pool_free_space, block_rounding, free_space_of}
use libstoragemgmt.Sim.Volumes.{new_volume, sim_vol_create}

abbrev pub pools_of_id : ℤ → Db → List Pool
pools_of_id z db = select (λ p. is_id z p.id) db.pools

abbrev pub name_in_use : String → Db → Bool
name_in_use name db = any (λ w. str_eq w.name name) db.volumes

-- the database with one more volume
abbrev pub with_volume : Volume → Db → Db
with_volume v db = record db { volumes = db.volumes ++ v ∷ [] }

module _ (vpd name : String) (size : ℤ) (sim_pool_id : ℤ) (hw : ℕ) (db : Db) where
  -- the volume that goes into pool `p`
  abbrev pub created : Pool → Volume
  created p = new_volume vpd name (block_rounding size) p.id hw (fresh Volume.id db.volumes)

  -- Why a call raises: the pool is not there, it has less room than the rounded size takes, or the name
  -- is in use.
  abbrev pub Refused : Exception → Type 0
  Refused x =
      Missing Db.pools Pool.id sim_pool_id ErrorNumber.not_found_pool db x
      ⊎ ((x ≡ lsm_error ErrorNumber.not_enough_space)
          × (p : Pool) × (pools_of_id sim_pool_id db ≡ p ∷ [])
          × (ltb_ℤ (free_space_of db p) (block_rounding size) ≡ true))
      ⊎ ((x ≡ lsm_error ErrorNumber.name_conflict) × (name_in_use name db ≡ true))

  -- What a call returns and leaves: on success the pool is there with the room that the rounded size
  -- takes, the name is free, and one volume is new, under the id that is returned.
  abbrev pub Creates : Result ℕ × Db → Type 0
  Creates (ok id, db') =
      (p : Pool) × (pools_of_id sim_pool_id db ≡ p ∷ [])
      × (block_rounding size ≤ℤ free_space_of db p)
      × (name_in_use name db ≡ false)
      × (id ≡ fresh Volume.id db.volumes)
      × (db' ≡ with_volume (created p) db)
  Creates (err x, db') = (db' ≡ db) × Refused x

  -- the checks and the INSERT, once the pool is found
  outcome_for : Pool → Result ℕ × Db
  outcome_for p =
      if ltb_ℤ (free_space_of db p) (block_rounding size)
      then (err (lsm_error ErrorNumber.not_enough_space), db)
      else if name_in_use name db || not (any (λ q. q.id == p.id) db.pools)
      then (err (lsm_error ErrorNumber.name_conflict), db)
      else (ok (fresh Volume.id db.volumes), with_volume (created p) db)

  found-eq :
      (p : Pool)
      → pools_of_id sim_pool_id db ≡ p ∷ []
      → sim_vol_create vpd name size sim_pool_id hw db ≡ outcome_for p
  unfolding sim_vol_create check_pool_free_space sim_pool_of_id sim_data_of_id outcome_for
  found-eq p h = ground arith

  lost-eq :
      (x : Exception)
      → sim_pool_of_id sim_pool_id db ≡ (err x, db)
      → sim_vol_create vpd name size sim_pool_id hw db ≡ (err x, db)
  unfolding sim_vol_create check_pool_free_space
  lost-eq x h = ground arith

  pool_is_there :
      (p : Pool) → pools_of_id sim_pool_id db ≡ p ∷ [] → any (λ q. q.id == p.id) db.pools ≡ true
  pool_is_there p h =
      any-of-select (λ q. q.id == p.id) (λ q. is_id sim_pool_id q.id) db.pools p [] h (ground arith)

  outcome-Creates : (p : Pool) → pools_of_id sim_pool_id db ≡ p ∷ [] → Creates (outcome_for p)
  unfolding outcome_for
  outcome-Creates p h = elim (Bool-cases (ltb_ℤ (free_space_of db p) (block_rounding size))) [
    | inl full ↦ rw full (refl, inr (inl (refl, p, h, full)))
    | inr room ↦ elim (Bool-cases (name_in_use name db)) [
      | inl used ↦ rw (room, used) (refl, inr (inr (refl, used)))
      | inr free ↦
          rw (room, free, pool_is_there p h)
            (p, h, le_of_ltb_ℤ (free_space_of db p) (block_rounding size) room, free, refl, refl)
    ]
  ]

  -- Every outcome of `sim_vol_create`: it returns only if the pool is there, has room for the rounded
  -- size and the name is free, and then the volume under the returned id is the one change; if it
  -- raises, nothing has changed, and one of the three refusals holds (NAME_CONFLICT only for a name in
  -- use, never for the foreign key of the pool).
  pub sim_vol_create-Creates : Creates (sim_vol_create vpd name size sim_pool_id hw db)
  unfolding sim_pool_of_id
  sim_vol_create-Creates =
      elim (lookup_cases Db.pools Pool.id sim_pool_id ErrorNumber.not_found_pool db) [
        | inl (p, h, e) ↦ rw (found-eq p h) (outcome-Creates p h)
        | inr (x, m, e) ↦ rw (lost-eq x e) (refl, inl m)
      ]
