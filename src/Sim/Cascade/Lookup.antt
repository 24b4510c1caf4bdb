-- ===== src/Sim/Cascade/Lookup.antt =====
-- The two outcomes of `_sim_data_of_id` (plugin/sim_plugin/simarray.py).
use libstoragemgmt.Base.{ℕ, ℤ, ◌≡◌, refl, ◌⊎◌, inl, inr, List, [], ◌∷◌}
use libstoragemgmt.Common.{ErrorNumber, Exception, lsm_error, ok, err}
use libstoragemgmt.Sql.{is_id, select}
use libstoragemgmt.Sim.Tables.{Db}
use libstoragemgmt.Sim.Cascade.{unique_row, sim_data_of_id}

module _ {A : Type 0} (table : Db → List A) (key : A → ℕ) (sim_id : ℤ) (e : ErrorNumber)
    (db : Db) where
  abbrev pub rows : List A
  rows = select (λ r. is_id sim_id (key r)) (table db)

  -- Why the lookup raises: no row has the id, or two rows have it.
  abbrev pub Missing : Exception → Type 0
  Missing x =
      ((x ≡ lsm_error e) × (rows ≡ []))
      ⊎ ((x ≡ lsm_error ErrorNumber.plugin_bug)
          × (r : A) × (r' : A) × (t : List A) × (rows ≡ r ∷ r' ∷ t))

  -- Either one row has the id and is returned, or the lookup raises; the tables stay.
  abbrev pub Looked : Type 0
  Looked =
      ((r : A) × (rows ≡ r ∷ []) × (sim_data_of_id table key sim_id e db ≡ (ok r, db)))
      ⊎ ((x : Exception) × Missing x × (sim_data_of_id table key sim_id e db ≡ (err x, db)))

  outcome :
      (l : List A)
      → rows ≡ l
      → ((r : A) × (rows ≡ r ∷ []) × (unique_row rows e ≡ ok r))
        ⊎ ((x : Exception) × Missing x × (unique_row rows e ≡ err x))
  outcome [] h = inr (lsm_error e, inl (refl, h), rw h)
  outcome (x ∷ []) h = inl (x, h, rw h)
  outcome (x ∷ y ∷ l) h = inr (lsm_error ErrorNumber.plugin_bug, inr (refl, x, y, l, h), rw h)

  pub lookup_cases : Looked
  unfolding sim_data_of_id
  lookup_cases = elim (outcome rows refl) [
    | inl (r, h, u) ↦ inl (r, h, rw u)
    | inr (x, m, u) ↦ inr (x, m, rw u)
  ]

  -- Where no row has the id the error is the given one.
  pub lookup_none : rows ≡ [] → sim_data_of_id table key sim_id e db ≡ (err (lsm_error e), db)
  unfolding sim_data_of_id
  lookup_none h = rw h
