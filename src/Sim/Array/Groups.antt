-- ===== src/Sim/Array/Groups.antt =====
-- `SimArray`'s methods on access groups, and what is masked to what (plugin/sim_plugin/simarray.py).
-- A group comes back as the dict that `_sim_ag_2_lsm` reads.
use libstoragemgmt.Base.{
  ℕ, ℤ, pos, String, not, ◌&&◌, some, Option, List, [], ◌∷◌, ◌++◌, map, ◌==◌, str_eq, if◌then◌else◌,
}
use libstoragemgmt.Common.{ErrorNumber}
use libstoragemgmt.Sql.{is_id, select}
use libstoragemgmt.Sim.Tables.{Volume, Ag, VolMask, Db}
use libstoragemgmt.Sim.Exec.{Exec, pure, gets, raise_if, ◌>>=◌, ◌>>◌}
use libstoragemgmt.Sim.Groups.{
  SimAg, sim_ag_format, sim_ag_of_id, sim_ag_create, sim_ag_delete, sim_ag_init_add,
  sim_ag_init_delete,
}
use libstoragemgmt.Sim.Filesystems.{truthy}
use libstoragemgmt.Sim.Array.Session.{
  Action, handle_errors, transaction, trans_begin, trans_rollback, on_db, LsmId, sys_id,
  sim_vol_id_of, sim_ag_id_of,
}

unfoldable pub access_group_create : String → String → ℕ → String → Action SimAg
access_group_create name init_id init_type system_id = handle_errors (do
  raise_if (not (str_eq system_id sys_id)) ErrorNumber.not_found_system
  transaction
      (do new_sim_ag_id ← sim_ag_create name init_type init_id; sim_ag_of_id (pos new_sim_ag_id)))

unfoldable pub access_group_delete : LsmId → Action (Unit {0})
access_group_delete ag_id =
    handle_errors (transaction (do sim_ag_id ← sim_ag_id_of ag_id; sim_ag_delete sim_ag_id))

unfoldable pub access_group_initiator_add : LsmId → String → ℕ → Action SimAg
access_group_initiator_add ag_id init_id init_type = handle_errors (do
  sim_ag_id ← sim_ag_id_of ag_id
  transaction (do sim_ag_init_add sim_ag_id init_id init_type; sim_ag_of_id sim_ag_id))

unfoldable pub access_group_initiator_delete : LsmId → String → Action SimAg
access_group_initiator_delete ag_id init_id = handle_errors (do
  sim_ag_id ← sim_ag_id_of ag_id
  transaction (do sim_ag_init_delete sim_ag_id init_id; sim_ag_of_id sim_ag_id))

-- the rows that one side of a LEFT JOIN with `vol_masks` gives, where a test on the masks holds
repeated : {A : Type 0} → A → List VolMask → List A
repeated a ms = map (λ _. a) ms

-- volumes_by_ag_view WHERE ag_id=…
volumes_by_ag : ℤ → List VolMask → List Volume → List Volume
unfolding repeated
volumes_by_ag sim_ag_id ms [] = []
volumes_by_ag sim_ag_id ms (v ∷ vols) =
    repeated v (select (λ m. m.vol_id == v.id && is_id sim_ag_id m.ag_id) ms)
    ++ volumes_by_ag sim_ag_id ms vols

-- `sim_vols`
unfoldable pub sim_vols : Option ℤ → Db → List Volume
unfolding volumes_by_ag
sim_vols sim_ag_id db = elim sim_ag_id [
  | Option.none ↦ db.volumes
  | some z ↦ if truthy (some z) then volumes_by_ag z db.vol_masks db.volumes else db.volumes
]

-- ags_by_vol_view WHERE vol_id=…
ags_by_vol : ℤ → List VolMask → List Ag → List Ag
unfolding repeated
ags_by_vol sim_vol_id ms [] = []
ags_by_vol sim_vol_id ms (a ∷ ags) =
    repeated a (select (λ m. m.ag_id == a.id && is_id sim_vol_id m.vol_id) ms)
    ++ ags_by_vol sim_vol_id ms ags

-- `[BackStore._sim_ag_format(a) for a in sim_ags]`
format_all : List Ag → Exec (List SimAg)
format_all [] = pure []
format_all (a ∷ ags) = do sim_ag ← sim_ag_format a; rest ← format_all ags; pure (sim_ag ∷ rest)

-- `sim_ags`
unfoldable pub sim_ags : Option ℤ → Exec (List SimAg)
unfolding ags_by_vol format_all
sim_ags sim_vol_id db =
    let found : List Ag = elim sim_vol_id [
      | Option.none ↦ db.ags
      | some z ↦ if truthy (some z) then ags_by_vol z db.vol_masks db.ags else db.ags
    ] in
    format_all found db

unfoldable pub volumes_accessible_by_access_group : LsmId → Action (List Volume)
volumes_accessible_by_access_group ag_id = handle_errors (do
  trans_begin
  vols ← on_db (do sim_ag_id ← sim_ag_id_of ag_id; gets (sim_vols (some sim_ag_id)))
  trans_rollback
  pure vols)

unfoldable pub access_groups_granted_to_volume : LsmId → Action (List SimAg)
access_groups_granted_to_volume vol_id = handle_errors (do
  trans_begin
  ags ← on_db (do sim_vol_id ← sim_vol_id_of vol_id; sim_ags (some sim_vol_id))
  trans_rollback
  pure ags)
