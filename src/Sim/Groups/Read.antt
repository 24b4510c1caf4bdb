-- ===== src/Sim/Groups/Read.antt =====
-- How `sim_ag_of_id` ends (plugin/sim_plugin/simarray.py).
use libstoragemgmt.Base.{ℤ, ◌≡◌, ap, ◌∙◌, ◌⊎◌, inl, inr, List, [], ◌∷◌, arith}
use libstoragemgmt.Common.{ErrorNumber, Exception, Result, Result-cases, ok, err}
use libstoragemgmt.Sql.{is_id, select}
use libstoragemgmt.Sim.Tables.{Ag, Init, Db}
use libstoragemgmt.Sim.Cascade.{sim_data_of_id}
use libstoragemgmt.Sim.Cascade.Lookup.{lookup_cases}
use libstoragemgmt.Sim.Groups.{SimAg, sim_ag_of_row, sim_ag_format, sim_ag_of_id}

-- the three ways in which `sim_ag_of_id` ends: the row and its initiators are there, or it raises
abbrev pub AgRead : ℤ → Db → Type 0
AgRead z db =
    ((a : SimAg) × (r : Ag) × (select (λ r. is_id z (Ag.id r)) db.ags ≡ r ∷ [])
      × (sim_ag_of_row db.inits r ≡ ok a))
    ⊎ ((x : Exception) × (sim_ag_of_id z db ≡ (err x, db)))

pub ag-found :
    (z : ℤ) (db : Db) (r : Ag)
    → select (λ r. is_id z (Ag.id r)) db.ags ≡ r ∷ []
    → sim_ag_of_id z db ≡ (sim_ag_of_row db.inits r, db)
unfolding sim_ag_of_id sim_ag_format sim_data_of_id
ag-found z db r h = ground arith

pub ag-lost :
    (z : ℤ) (db : Db) (x : Exception)
    → sim_data_of_id Db.ags Ag.id z ErrorNumber.not_found_access_group db ≡ (err x, db)
    → sim_ag_of_id z db ≡ (err x, db)
unfolding sim_ag_of_id
ag-lost z db x h = ground arith

pub ag_read : (z : ℤ) (db : Db) → AgRead z db
ag_read z db = elim (lookup_cases Db.ags Ag.id z ErrorNumber.not_found_access_group db) [
  | inl (r, h, _) ↦ elim (Result-cases (sim_ag_of_row db.inits r)) [
    | inl (a, e) ↦ inl (a, r, h, e)
    | inr (x, e) ↦ inr (x, ag-found z db r h ∙ ap (λ (o : Result SimAg). (o, db)) e)
  ]
  | inr (x, _, h) ↦ inr (x, ag-lost z db x h)
]

pub ag-sim_ag_of_row :
    (inits : List Init) (r : Ag) (a : SimAg) → sim_ag_of_row inits r ≡ ok a → a.ag ≡ r
unfolding sim_ag_of_row
ag-sim_ag_of_row inits r a h = ground arith
