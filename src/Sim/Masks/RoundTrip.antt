-- ===== src/Sim/Masks/RoundTrip.antt =====
-- Masking and unmasking (plugin/sim_plugin/simarray.py): every outcome, and that one undoes the other.
use libstoragemgmt.Base.{
  ℤ, ◌≡◌, refl, inl, inr, true, List, [], ◌∷◌, ◌++◌, if◌then◌else◌, arith, ap, ◌∙◌,
}
use libstoragemgmt.Common.{ErrorNumber, Exception, lsm_error, Result, ok, err}
use libstoragemgmt.Sql.{is_id, is_empty, select, delete}
use libstoragemgmt.Sql.Rows.{List-cases, select-passes, select-append_found, delete-append_found}
use libstoragemgmt.Sim.Tables.{Ag, Volume, VolMask, Db}
use libstoragemgmt.Sim.Cascade.{sim_data_of_id}
use libstoragemgmt.Sim.Cascade.Lookup.{lookup_cases}
use libstoragemgmt.Sim.Groups.Read.{ag-found, ag_read, ag-sim_ag_of_row}
use libstoragemgmt.Sim.Groups.{SimAg, sim_ag_of_row, sim_ag_of_id}
use libstoragemgmt.Sim.Volumes.{sim_vol_of_id}
use libstoragemgmt.Sim.Masks.{masks, sim_vol_mask, sim_vol_unmask}

module _ (sim_vol_id sim_ag_id : ℤ) where
  abbrev pub vols_of : Db → List Volume
  vols_of db = select (λ v. is_id sim_vol_id v.id) db.volumes

  abbrev pub masked : Db → List VolMask
  masked db = select (masks sim_ag_id sim_vol_id) db.vol_masks

  -- the two rows that a masking joins are there
  abbrev pub Exist : Volume → SimAg → Db → Type 0
  Exist v a db = (vols_of db ≡ v ∷ []) × (sim_ag_of_id sim_ag_id db ≡ (ok a, db))

  abbrev pub with_mask : Volume → SimAg → Db → Db
  with_mask v a db = record db {
    vol_masks = db.vol_masks ++ record { vol_id = v.id; ag_id = a.ag.id } ∷ [];
  }

  abbrev pub without_mask : Db → Db
  without_mask db = record db { vol_masks = delete (masks sim_ag_id sim_vol_id) db.vol_masks }

  pub mask-found :
      (v : Volume) (a : SimAg) (db : Db)
      → Exist v a db
      → sim_vol_mask sim_vol_id sim_ag_id db ≡ (
          if is_empty (masked db)
          then (ok tt, with_mask v a db)
          else (err (lsm_error ErrorNumber.no_state_change), db))
  unfolding sim_vol_mask sim_vol_of_id sim_data_of_id
  mask-found v a db h = ground arith

  pub unmask-found :
      (v : Volume) (a : SimAg) (db : Db)
      → Exist v a db
      → sim_vol_unmask sim_vol_id sim_ag_id db ≡ (
          if is_empty (masked db)
          then (err (lsm_error ErrorNumber.no_state_change), db)
          else (ok tt, without_mask db))
  unfolding sim_vol_unmask sim_vol_of_id sim_data_of_id
  unmask-found v a db h = ground arith

  mask-no_volume :
      (x : Exception) (db : Db)
      → sim_vol_of_id sim_vol_id db ≡ (err x, db)
      → sim_vol_mask sim_vol_id sim_ag_id db ≡ (err x, db)
  unfolding sim_vol_mask
  mask-no_volume x db h = ground arith

  mask-no_ag :
      (v : Volume) (x : Exception) (db : Db)
      → vols_of db ≡ v ∷ []
      → sim_ag_of_id sim_ag_id db ≡ (err x, db)
      → sim_vol_mask sim_vol_id sim_ag_id db ≡ (err x, db)
  unfolding sim_vol_mask sim_vol_of_id sim_data_of_id
  mask-no_ag v x db h k = ground arith

  -- What a call of `sim_vol_mask` leaves: the volume and the group are there and were not masked, and
  -- one mask is new; or it raised and nothing has changed.
  abbrev pub Masked : Db → Result (Unit {0}) × Db → Type 0
  Masked db (ok _, db') =
      (v : Volume) × (a : SimAg) × (r : Ag) × (vols_of db ≡ v ∷ [])
      × (select (λ r. is_id sim_ag_id (Ag.id r)) db.ags ≡ r ∷ [])
      × (sim_ag_of_row db.inits r ≡ ok a)
      × (masked db ≡ [])
      × (db' ≡ with_mask v a db)
  Masked db (err x, db') = db' ≡ db

  existing-Masked :
      (v : Volume) (a : SimAg) (r : Ag) (db : Db)
      → vols_of db ≡ v ∷ []
      → select (λ r. is_id sim_ag_id (Ag.id r)) db.ags ≡ r ∷ []
      → sim_ag_of_row db.inits r ≡ ok a
      → Masked db (sim_vol_mask sim_vol_id sim_ag_id db)
  existing-Masked v a r db h k e =
      rw (mask-found v a db (h, ag-found sim_ag_id db r k ∙ ap (λ (o : Result SimAg). (o, db)) e))
        (elim (List-cases (masked db)) [
          | inl none_yet ↦ rw none_yet (v, a, r, h, k, e, none_yet, refl)
          | inr (m, ms, some_mask) ↦ rw some_mask refl
        ])

  -- Every outcome of `sim_vol_mask`: it returns only if the volume and the access group are there and
  -- are not masked yet, and then the mask is the one change; if it raises, nothing has changed.
  pub sim_vol_mask-Masked : (db : Db) → Masked db (sim_vol_mask sim_vol_id sim_ag_id db)
  unfolding sim_vol_of_id
  sim_vol_mask-Masked db =
      elim (lookup_cases Db.volumes Volume.id sim_vol_id ErrorNumber.not_found_volume db) [
        | inl (v, h, _) ↦ elim (ag_read sim_ag_id db) [
          | inl (a, r, k, e) ↦ existing-Masked v a r db h k e
          | inr (x, e) ↦ rw (mask-no_ag v x db h e) refl
        ]
        | inr (x, _, h) ↦ rw (mask-no_volume x db h) refl
      ]

  new_mask-passes :
      (v : Volume) (a : SimAg) (r : Ag) (db : Db)
      → vols_of db ≡ v ∷ []
      → select (λ r. is_id sim_ag_id (Ag.id r)) db.ags ≡ r ∷ []
      → sim_ag_of_row db.inits r ≡ ok a
      → masks sim_ag_id sim_vol_id (record { vol_id = v.id; ag_id = a.ag.id }) ≡ true
  new_mask-passes v a r db h k e = rw (ag-sim_ag_of_row db.inits r a e) (
      ground (
        arith,
        select-passes (λ v. is_id sim_vol_id (Volume.id v)) db.volumes v [] h,
        select-passes (λ r. is_id sim_ag_id (Ag.id r)) db.ags r [] k,
      ))

  unmask-after_mask :
      (db : Db) (o : Result (Unit {0}) × Db)
      → Masked db o
      → o.0 ≡ ok tt
      → sim_vol_unmask sim_vol_id sim_ag_id o.1 ≡ (ok tt, db)
  unmask-after_mask db (err x, db') e h = absurd (cc)
  unmask-after_mask db (ok _, db') (v, a, r, h, k, e, none_yet, made) _ =
      let p : masks sim_ag_id sim_vol_id (record { vol_id = v.id; ag_id = a.ag.id }) ≡ true =
        new_mask-passes v a r db h k e in
      rw made (
        rw
          (unmask-found v a (with_mask v a db) (
            h,
            ag-found sim_ag_id (with_mask v a db) r k
                ∙ ap (λ (o : Result SimAg). (o, with_mask v a db)) e,
          ))
          (rw (select-append_found (masks sim_ag_id sim_vol_id) db.vol_masks _ none_yet p)
            (rw (delete-append_found (masks sim_ag_id sim_vol_id) db.vol_masks _ none_yet p))))

  -- `sim_vol_unmask` undoes a `sim_vol_mask` that returned: it returns too, and the tables are those
  -- before the masking.
  pub unmask-mask :
      (db : Db)
      → (sim_vol_mask sim_vol_id sim_ag_id db).0 ≡ ok tt
      → sim_vol_unmask sim_vol_id sim_ag_id (sim_vol_mask sim_vol_id sim_ag_id db).1 ≡ (ok tt, db)
  unmask-mask db =
      unmask-after_mask db (sim_vol_mask sim_vol_id sim_ag_id db) (sim_vol_mask-Masked db)
