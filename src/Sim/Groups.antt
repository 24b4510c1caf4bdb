-- ===== src/Sim/Groups.antt =====
-- Access groups: the view `ags_view` and `BackStore`'s methods on access groups and initiators
-- (plugin/sim_plugin/simarray.py). SQLite leaves the order of `group_concat` open; rows come in the
-- order in which they were inserted here.
pub mod Split
pub mod Read
use Split.{join_ids, split_ids}
use libstoragemgmt.Base.{
  ℕ, ℤ, String, Bool, true, false, not, ◌&&◌, ◌||◌, none, some, Option, List, [], ◌∷◌, ◌++◌, map,
  ◌==◌, str_eq, if◌then◌else◌, length,
}
use libstoragemgmt.Common.{ErrorNumber, Exception, Result, ok, err}
use libstoragemgmt.Sql.{is_id, is_empty, select, delete, any, fresh}
use libstoragemgmt.Sim.Constants.{
  init_type_unknown, init_type_wwpn, init_type_iscsi_iqn, init_type_mixed,
}
use libstoragemgmt.Sim.Tables.{Ag, Init, VolMask, Db}
use libstoragemgmt.Sim.Exec.{Exec, pure, gets, raise_if, modify, try_integrity, ◌>>=◌, ◌>>◌}
use libstoragemgmt.Sim.Cascade.{delete_ags, data_add, sim_data_of_id}

-- The dict that `sim_ag_of_id` returns: a row of `ags_view` after `_sim_ag_format`.
pub record SimAg : Type 0 where
  pub ag : Ag
  pub init_type : ℕ
  pub init_ids : List String

-- DISTINCT
distinct : List ℕ → List ℕ
distinct [] = []
distinct (x ∷ t) = let rest = distinct t in if any (λ y. y == x) t then rest else x ∷ rest

-- the CASE of `ags_view`
case_init_type : List ℕ → ℕ
case_init_type (t ∷ []) = t
case_init_type (t ∷ u ∷ []) = init_type_mixed
case_init_type _ = init_type_unknown

unfoldable pub inits_of : List Init → ℕ → List Init
inits_of inits k = select (λ i. i.owner_ag_id == k) inits

-- `_sim_ag_format` on a row: of a group without initiators `init_ids_str` is None, which has no
-- `split`
format_row : Ag → ℕ → List String → Result SimAg
unfolding join_ids split_ids
format_row a t [] = err Exception.other_exception
format_row a t (x ∷ ids) =
    ok (record { ag = a; init_type = t; init_ids = split_ids (join_ids x ids) })

-- a row of `ags_view`, formatted
unfoldable pub sim_ag_of_row : List Init → Ag → Result SimAg
unfolding distinct case_init_type format_row
sim_ag_of_row inits a =
    format_row a (case_init_type (distinct (map Init.init_type (inits_of inits a.id))))
      (map Init.id (inits_of inits a.id))

unfoldable pub sim_ag_format : Ag → Exec SimAg
sim_ag_format a db = (sim_ag_of_row db.inits a, db)

unfoldable pub sim_ag_of_id : ℤ → Exec SimAg
sim_ag_of_id sim_ag_id = do
  a ← sim_data_of_id Db.ags Ag.id sim_ag_id ErrorNumber.not_found_access_group
  sim_ag_format a

-- `_sim_init_create`: INSERT INTO inits, with its UNIQUE id and its FOREIGN KEY(owner_ag_id)
unfoldable pub sim_init_create : ℕ → String → ℕ → Exec (Unit {0})
unfolding data_add
sim_init_create init_type init_id sim_ag_id = do
  try_integrity
      (λ db.
        data_add
          (any (λ i. str_eq i.id init_id) db.inits || not (any (λ a. a.id == sim_ag_id) db.ags)) 0
          (λ s. record s {
            inits =
                s.inits
                ++ record { id = init_id; init_type = init_type; owner_ag_id = sim_ag_id } ∷ [];
          })
          db)
      ErrorNumber.exists_initiator
  pure tt

-- INSERT INTO ags, with its UNIQUE name
add_ag : String → Exec ℕ
unfolding data_add
add_ag name db =
    data_add (any (λ a. str_eq a.name name) db.ags) (fresh Ag.id db.ags)
      (λ s. record s { ags = s.ags ++ record { id = fresh Ag.id s.ags; name = name } ∷ [] }) db

unfoldable pub sim_ag_create : String → ℕ → String → Exec ℕ
unfolding add_ag
sim_ag_create name init_type init_id = do
  sim_ag_id ← try_integrity (add_ag name) ErrorNumber.name_conflict
  sim_init_create init_type init_id sim_ag_id
  pure sim_ag_id

-- `_sim_vol_ids_of_masked_ag`
unfoldable pub sim_vol_ids_of_masked_ag : ℤ → Db → List ℕ
sim_vol_ids_of_masked_ag sim_ag_id db =
    map VolMask.vol_id (select (λ m. is_id sim_ag_id m.ag_id) db.vol_masks)

unfoldable pub sim_ag_delete : ℤ → Exec (Unit {0})
sim_ag_delete sim_ag_id = do
  sim_ag_of_id sim_ag_id
  masked ← gets (sim_vol_ids_of_masked_ag sim_ag_id)
  raise_if (not (is_empty masked)) ErrorNumber.is_masked
  modify (delete_ags (λ a. is_id sim_ag_id a.id))

-- `init_id in sim_ag['init_ids']`
abbrev pub has_id : String → List String → Bool
has_id i ids = any (λ j. str_eq j i) ids

unfoldable pub sim_ag_init_add : ℤ → String → ℕ → Exec (Unit {0})
sim_ag_init_add sim_ag_id init_id init_type = do
  sim_ag ← sim_ag_of_id sim_ag_id
  raise_if (has_id init_id sim_ag.init_ids) ErrorNumber.no_state_change
  raise_if (not (init_type == init_type_iscsi_iqn) && not (init_type == init_type_wwpn))
      ErrorNumber.no_support
  sim_init_create init_type init_id sim_ag.ag.id

unfoldable pub sim_ag_init_delete : ℤ → String → Exec (Unit {0})
sim_ag_init_delete sim_ag_id init_id = do
  sim_ag ← sim_ag_of_id sim_ag_id
  raise_if (not (has_id init_id sim_ag.init_ids)) ErrorNumber.no_state_change
  raise_if (length sim_ag.init_ids == 1) ErrorNumber.last_init_in_access_group
  modify (λ db. record db { inits = delete (λ i. str_eq i.id init_id) db.inits })
