-- ===== src/Sim/Volumes/Delete.antt =====
-- Every outcome of `sim_vol_delete` (plugin/sim_plugin/simarray.py), and the space that it gives back.
use libstoragemgmt.Base.{
  ℕ, ℤ, ◌+ℤ◌, ◌≡◌, ◌⊎◌, inl, inr, refl, Bool, true, false, List, [], ◌∷◌, map, arith, if◌then◌else◌,
  not, ◌==◌, Bool-cases, ◌∙◌, ap,
}
use libstoragemgmt.Common.{ErrorNumber, Exception, lsm_error, Result, ok, err}
use libstoragemgmt.Sql.{is_id, is_empty, select, any}
use libstoragemgmt.Sql.Rows.{select-delete, List-cases}
use libstoragemgmt.Sim.Tables.{Pool, Volume, VolRep, Db}
use libstoragemgmt.Sim.Cascade.{sim_data_of_id, delete_volumes}
use libstoragemgmt.Sim.Cascade.Lookup.{Missing, lookup_cases}
use libstoragemgmt.Sim.Pools.{free_space_of}
use libstoragemgmt.Sim.Pools.Space.{
  IsSolvent, charge, free_space-delete_volumes, delete_volumes-IsSolvent,
}
use libstoragemgmt.Sql.Sums.{sum_where-and_found}
use libstoragemgmt.Sim.Volumes.{
  sim_vol_of_id, sim_ag_ids_of_masked_vol, dst_sim_vol_ids_of_src, sim_vol_delete, remove_volume,
}
use libstoragemgmt.Sim.Volumes.Resize.{volumes_of_id}

module _ (z : ℤ) (db : Db) where
  -- the volumes that replicate the volume, itself left out
  abbrev pub has_other_replica : Bool
  has_other_replica =
      any (λ d. not (is_id z d))
        (map VolRep.dst_vol_id (select (λ r. is_id z r.src_vol_id) db.vol_reps))

  -- the three reasons of an error
  abbrev pub RefusesDelete : Exception → Type 0
  RefusesDelete x =
      Missing Db.volumes Volume.id z ErrorNumber.not_found_volume db x
      ⊎ ((x ≡ lsm_error ErrorNumber.is_masked)
          × (k : ℕ) × (ks : List ℕ) × (sim_ag_ids_of_masked_vol z db ≡ k ∷ ks))
      ⊎ ((x ≡ lsm_error ErrorNumber.has_child_dependency) × (has_other_replica ≡ true))

  -- What a call leaves: on success the volume was there, in no mask and without a replica, and what
  -- `remove_volume` deletes is the change; an error has one of the three reasons.
  abbrev pub Removal : Result (Unit {0}) × Db → Type 0
  Removal (ok _, db') =
      (v : Volume) × (volumes_of_id z db ≡ v ∷ [])
      × (sim_ag_ids_of_masked_vol z db ≡ [])
      × (has_other_replica ≡ false)
      × (db' ≡ remove_volume z v db)
  Removal (err x, db') = (db' ≡ db) × RefusesDelete x

  there-eq :
      (v : Volume)
      → volumes_of_id z db ≡ v ∷ []
      → sim_vol_delete z db ≡ (
          if not (is_empty (sim_ag_ids_of_masked_vol z db))
          then (err (lsm_error ErrorNumber.is_masked), db)
          else if has_other_replica
          then (err (lsm_error ErrorNumber.has_child_dependency), db)
          else (ok tt, remove_volume z v db))
  unfolding sim_vol_delete dst_sim_vol_ids_of_src sim_vol_of_id sim_data_of_id
  there-eq v h = ground arith

  gone-eq : (x : Exception) → sim_vol_of_id z db ≡ (err x, db) → sim_vol_delete z db ≡ (err x, db)
  unfolding sim_vol_delete
  gone-eq x h = ground arith

  there-Removal : (v : Volume) → volumes_of_id z db ≡ v ∷ [] → Removal (sim_vol_delete z db)
  there-Removal v h = rw (there-eq v h) (elim (List-cases (sim_ag_ids_of_masked_vol z db)) [
    | inl unmasked ↦ elim (Bool-cases has_other_replica) [
      | inl copied ↦ rw (unmasked, copied) (refl, inr (inr (refl, copied)))
      | inr alone ↦ rw (unmasked, alone) (v, h, unmasked, alone, refl)
    ]
    | inr (k, ks, masked) ↦ rw masked (refl, inr (inl (refl, k, ks, masked)))
  ])

  -- Every outcome of `sim_vol_delete`: it returns only if the volume is there, in no mask and with no
  -- replica but itself, and then the removal of the volume is the change; if it raises, nothing has
  -- changed, and the volume is missing, masked (IS_MASKED) or replicated (HAS_CHILD_DEPENDENCY).
  pub sim_vol_delete-Removal : Removal (sim_vol_delete z db)
  unfolding sim_vol_of_id
  sim_vol_delete-Removal =
      elim (lookup_cases Db.volumes Volume.id z ErrorNumber.not_found_volume db) [
        | inl (v, h, _) ↦ there-Removal v h
        | inr (x, m, e) ↦ rw (gone-eq x e) (refl, inl m)
      ]

  -- What a deletion of `v` promises where no hardware RAID made it: no volume has the id, the pool of
  -- `v` has the space of `v` again, every other pool has what it had, and no pool is overdrawn.
  abbrev pub GivesBack : Volume → Result (Unit {0}) × Db → Type 0
  GivesBack v (ok _, db') =
      (volumes_of_id z db' ≡ [])
      × ((p : Pool)
          → free_space_of db' p ≡ free_space_of db p +ℤ charge v.pool_id p.id v.consumed_size)
      × IsSolvent db'
  GivesBack v (err x, db') = db' ≡ db

  no_volume_left : volumes_of_id z (delete_volumes (λ w. is_id z w.id) db) ≡ []
  unfolding delete_volumes
  no_volume_left = select-delete (λ w. is_id z w.id) db.volumes

  removed-GivesBack :
      (v : Volume)
      → volumes_of_id z db ≡ v ∷ []
      → IsSolvent db
      → GivesBack v (ok tt, delete_volumes (λ w. is_id z w.id) db)
  removed-GivesBack v h solvent = (
    no_volume_left,
    λ p.
        free_space-delete_volumes db p (λ w. is_id z w.id)
        ∙ ap (λ n. free_space_of db p +ℤ n)
            (sum_where-and_found (λ w. Volume.pool_id w == p.id) (λ w. is_id z w.id)
              Volume.consumed_size db.volumes v h),
    delete_volumes-IsSolvent (λ w. is_id z w.id) db solvent,
  )

  pub plain-eq :
      (v : Volume)
      → v.is_hw_raid_vol ≡ 0
      → remove_volume z v db ≡ delete_volumes (λ w. is_id z w.id) db
  unfolding remove_volume
  plain-eq v plain = rw plain refl

  outcome-GivesBack :
      (v : Volume)
      → volumes_of_id z db ≡ v ∷ []
      → v.is_hw_raid_vol ≡ 0
      → IsSolvent db
      → (o : Result (Unit {0}) × Db) → Removal o
      → GivesBack v o
  outcome-GivesBack v h plain solvent (ok _, db') (w, k, _, _, e) =
      let same : w ≡ v = cc (h, k) in rw (e, same, plain-eq v plain) (removed-GivesBack v h solvent)
  outcome-GivesBack v h plain solvent (err x, db') (e, _) = e

  -- Deleting a volume that no hardware RAID made, in tables where no pool is overdrawn: if the call
  -- returns, no volume has the id, the pool of the volume has exactly the space of the volume again,
  -- every other pool has what it had, and no pool is overdrawn; if it raises, nothing has changed.
  pub sim_vol_delete-GivesBack :
      (v : Volume)
      → volumes_of_id z db ≡ v ∷ []
      → v.is_hw_raid_vol ≡ 0
      → IsSolvent db
      → GivesBack v (sim_vol_delete z db)
  sim_vol_delete-GivesBack v h plain solvent =
      outcome-GivesBack v h plain solvent (sim_vol_delete z db) sim_vol_delete-Removal
