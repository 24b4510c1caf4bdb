-- ===== src/Sim/Volumes/Resize.antt =====
-- Every outcome of `sim_vol_resize` (plugin/sim_plugin/simarray.py), and that it overdraws no pool.
use libstoragemgmt.Base.{
  ℤ, pos, ◌-ℤ◌, ◌≤ℤ◌, eqb_ℤ, ltb_ℤ, Bool, if◌then◌else◌, ◌≡◌, refl, ◌⊎◌, inl, inr, true, false,
  List, [], ◌∷◌, ◌∙◌, Bool-cases, arith, int_laws,
}
use libstoragemgmt.Common.{ErrorNumber, Exception, lsm_error, Result, ok, err}
use libstoragemgmt.Sql.{is_id, select, update}
use libstoragemgmt.Sql.Rows.{All-update, All-found, select-passes}
use libstoragemgmt.Sim.Constants.{unsupported_volume_grow, unsupported_volume_shrink}
use libstoragemgmt.Sim.Tables.{Pool, Volume, Db}
use libstoragemgmt.Sim.Cascade.{sim_data_of_id}
use libstoragemgmt.Sim.Cascade.Lookup.{Missing, lookup_cases}
use libstoragemgmt.Sim.Exec.{bind}
use libstoragemgmt.Sim.Pools.{free_space_of, block_rounding, sim_pool_of_id}
use libstoragemgmt.Sim.Pools.Rounding.{block_rounding_lem}
use libstoragemgmt.Sim.Pools.Space.{IsSized, IsSolvent, free_space-update_volume, room-of-charge}
use libstoragemgmt.Sim.Volumes.{sim_vol_of_id, has_flag, check_resize, sim_vol_resize}
use libstoragemgmt.Sim.Volumes.Create.{pools_of_id}

abbrev pub volumes_of_id : ℤ → Db → List Volume
volumes_of_id z db = select (λ v. is_id z v.id) db.volumes

module _ (z : ℤ) (size : ℤ) (db : Db) where
  abbrev pub with_size : Volume → Volume
  with_size v = record v { total_space = block_rounding size; consumed_size = block_rounding size }

  abbrev pub resized : Db
  resized = record db { volumes = update (λ v. is_id z v.id) with_size db.volumes }

  abbrev increment : Volume → ℤ
  increment v = block_rounding size -ℤ v.total_space

  -- the pool forbids its volumes to grow, or to shrink where this one does not grow
  abbrev Forbids : Volume → Pool → Bool → Type 0
  Forbids v p b =
      has_flag p.unsupported_actions
        (if ltb_ℤ (pos 0) (increment v) then unsupported_volume_grow else unsupported_volume_shrink)
      ≡ b

  abbrev HasRoom : Volume → Pool → Type 0
  HasRoom v p = (increment v ≤ℤ free_space_of db p) ⊎ (increment v ≤ℤ pos 0)

  -- why `check_resize` raises
  abbrev RefusesResize : Volume → Pool → Exception → Type 0
  RefusesResize v p x =
      ((x ≡ lsm_error ErrorNumber.no_support) × Forbids v p true)
      ⊎ ((x ≡ lsm_error ErrorNumber.not_enough_space)
          × (ltb_ℤ (pos 0) (increment v) ≡ true)
          × (ltb_ℤ (free_space_of db p) (increment v) ≡ true))

  abbrev FoundVolume : Volume → Type 0
  FoundVolume v = volumes_of_id z db ≡ v ∷ []

  abbrev FoundPool : Volume → Pool → Type 0
  FoundPool v p = pools_of_id (pos v.pool_id) db ≡ p ∷ []

  abbrev IsSameSize : Volume → Bool → Type 0
  IsSameSize v b = eqb_ℤ v.total_space (block_rounding size) ≡ b

  -- What a call leaves: on success the rounded size is another one, the pool of the volume allows the
  -- change and has room for what the volume grows by, if it grows, and the volume's two sizes are the
  -- one change; an error has one of the five reasons.
  abbrev pub Resizes : Result (Unit {0}) × Db → Type 0
  Resizes (ok _, db') =
      (v : Volume) × (p : Pool) × FoundVolume v
      × FoundPool v p
      × (IsSameSize v false × Forbids v p false × HasRoom v p)
      × (db' ≡ resized)
  Resizes (err x, db') =
      (db' ≡ db)
      × (Missing Db.volumes Volume.id z ErrorNumber.not_found_volume db x
          ⊎ ((v : Volume) × FoundVolume v
              × (((x ≡ lsm_error ErrorNumber.no_state_change) × IsSameSize v true)
                  ⊎ Missing Db.pools Pool.id (pos v.pool_id) ErrorNumber.not_found_pool db x
                  ⊎ ((p : Pool) × FoundPool v p × RefusesResize v p x))))

  -- `check_resize` raises, or the pool allows the change and has room.
  abbrev Checked : Volume → Pool → Result (Unit {0}) × Db → Type 0
  Checked v p (ok _, db') = (db' ≡ db) × Forbids v p false × HasRoom v p
  Checked v p (err x, db') = (db' ≡ db) × RefusesResize v p x

  check_resize-Checked :
      (v : Volume) (p : Pool) → Checked v p (check_resize p v.total_space (block_rounding size) db)
  unfolding check_resize
  check_resize-Checked v p = ground arith

  found-eq :
      (v : Volume) (p : Pool)
      → volumes_of_id z db ≡ v ∷ []
      → pools_of_id (pos v.pool_id) db ≡ p ∷ []
      → eqb_ℤ v.total_space (block_rounding size) ≡ false
      → sim_vol_resize z size db
        ≡ bind
            (check_resize p v.total_space (block_rounding size) db).0
            (check_resize p v.total_space (block_rounding size) db).1
            (λ _ s. (ok tt, record s { volumes = update (λ v. is_id z v.id) with_size s.volumes }))
  unfolding sim_vol_resize sim_vol_of_id sim_pool_of_id sim_data_of_id
  found-eq v p h k e = ground arith

  same-eq :
      (v : Volume)
      → volumes_of_id z db ≡ v ∷ []
      → eqb_ℤ v.total_space (block_rounding size) ≡ true
      → sim_vol_resize z size db ≡ (err (lsm_error ErrorNumber.no_state_change), db)
  unfolding sim_vol_resize sim_vol_of_id sim_data_of_id
  same-eq v h e = ground arith

  no_pool-eq :
      (v : Volume) (x : Exception)
      → volumes_of_id z db ≡ v ∷ []
      → eqb_ℤ v.total_space (block_rounding size) ≡ false
      → sim_pool_of_id (pos v.pool_id) db ≡ (err x, db)
      → sim_vol_resize z size db ≡ (err x, db)
  unfolding sim_vol_resize sim_vol_of_id sim_data_of_id
  no_pool-eq v x h e k = ground arith

  no_volume-eq :
      (x : Exception) → sim_vol_of_id z db ≡ (err x, db) → sim_vol_resize z size db ≡ (err x, db)
  unfolding sim_vol_resize
  no_volume-eq x h = ground arith

  finish-Resizes :
      (v : Volume) (p : Pool)
      → FoundVolume v
      → FoundPool v p
      → IsSameSize v false
      → (o : Result (Unit {0}) × Db) → Checked v p o
      → Resizes (
          bind o.0 o.1
            (λ _ s. (ok tt, record s { volumes = update (λ v. is_id z v.id) with_size s.volumes })))
  finish-Resizes v p h k differs (ok _, s) (e, allowed, room) =
      rw e (v, p, h, k, (differs, allowed, room), refl)
  finish-Resizes v p h k differs (err x, s) (e, why) = (e, inr (v, h, inr (inr (p, k, why))))

  pool-Resizes :
      (v : Volume) → FoundVolume v → IsSameSize v false → Resizes (sim_vol_resize z size db)
  unfolding sim_pool_of_id
  pool-Resizes v h e =
      elim (lookup_cases Db.pools Pool.id (pos v.pool_id) ErrorNumber.not_found_pool db) [
        | inl (p, k, _) ↦ rw (found-eq v p h k e) (
            finish-Resizes v p h k e (check_resize p v.total_space (block_rounding size) db)
              (check_resize-Checked v p))
        | inr (x, m, k) ↦ rw (no_pool-eq v x h e k) (refl, inr (v, h, inr (inl m)))
      ]

  -- Every outcome of `sim_vol_resize`: it returns only if the volume is there, the rounded size is not
  -- the one it has, its pool does not forbid the growth, or else the shrinking, and has room for what
  -- the volume grows by, or the volume does not grow, and then the two sizes of the volume, set to the
  -- rounded size, are the one change; if it raises, nothing has changed, and the volume or its pool is
  -- missing, the size is the same (NO_STATE_CHANGE), the pool forbids it (NO_SUPPORT), or the volume
  -- grows by more than the free space of the pool (NOT_ENOUGH_SPACE).
  pub sim_vol_resize-Resizes : Resizes (sim_vol_resize z size db)
  unfolding sim_vol_of_id
  sim_vol_resize-Resizes =
      elim (lookup_cases Db.volumes Volume.id z ErrorNumber.not_found_volume db) [
        | inl (v, h, _) ↦ elim (Bool-cases (eqb_ℤ v.total_space (block_rounding size))) [
          | inl same ↦ rw (same-eq v h same) (refl, inr (v, h, inl (refl, same)))
          | inr differs ↦ pool-Resizes v h differs
        ]
        | inr (x, m, h) ↦ rw (no_volume-eq x h) (refl, inl m)
      ]

  resized-IsSolvent :
      (v : Volume) (p : Pool)
      → volumes_of_id z db ≡ v ∷ []
      → pools_of_id (pos v.pool_id) db ≡ p ∷ []
      → (block_rounding size -ℤ v.total_space ≤ℤ free_space_of db p)
        ⊎ (block_rounding size -ℤ v.total_space ≤ℤ pos 0)
      → v.total_space ≡ v.consumed_size
      → pos 0 ≤ℤ size
      → IsSolvent db
      → IsSolvent resized
  resized-IsSolvent v p h k enough sized sign solvent =
      let owner : v.pool_id ≡ p.id =
        ground (arith, select-passes (λ r. is_id (pos v.pool_id) (Pool.id r)) db.pools p [] k) in
      record {
        room =
            room-of-charge (pos v.pool_id) p (block_rounding size -ℤ v.total_space) db resized k
              enough
              (λ q.
                free_space-update_volume db q (λ w. is_id z w.id) with_size v (λ w. refl) h
                ∙ cc (owner, sized))
              solvent.room;
        volume_sizes =
            All-update IsSized (λ w. is_id z w.id) with_size db.volumes
              (λ w _. (omega (int_laws, block_rounding_lem size), refl)) solvent.volume_sizes;
        fs_sizes = solvent.fs_sizes;
      }

  outcome-IsSolvent :
      (o : Result (Unit {0}) × Db) → Resizes o → pos 0 ≤ℤ size → IsSolvent db → IsSolvent o.1
  outcome-IsSolvent (ok _, db') (v, p, h, k, (_, _, enough), e) sign solvent = rw e (
      resized-IsSolvent v p h k enough
        (All-found IsSized (λ w. is_id z w.id) db.volumes v [] h solvent.volume_sizes).1 sign
        solvent)
  outcome-IsSolvent (err x, db') (e, _) sign solvent = rw e solvent

  -- Resizing a volume to any size from 0 on, in tables where no pool is overdrawn and no size is
  -- negative, keeps it so, whether the call returns or raises.
  pub sim_vol_resize-IsSolvent :
      pos 0 ≤ℤ size → IsSolvent db → IsSolvent (sim_vol_resize z size db).1
  sim_vol_resize-IsSolvent = outcome-IsSolvent (sim_vol_resize z size db) sim_vol_resize-Resizes
