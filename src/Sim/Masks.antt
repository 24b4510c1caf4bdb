-- ===== src/Sim/Masks.antt =====
-- Masking of volumes to access groups: `sim_vol_mask` and `sim_vol_unmask` of
-- plugin/sim_plugin/simarray.py.
pub mod RoundTrip
pub mod References
use libstoragemgmt.Base.{ℤ, Bool, not, ◌&&◌, [], ◌∷◌, ◌++◌}
use libstoragemgmt.Common.{ErrorNumber}
use libstoragemgmt.Sql.{is_id, is_empty, select, delete}
use libstoragemgmt.Sim.Tables.{VolMask}
use libstoragemgmt.Sim.Exec.{Exec, gets, raise_if, modify, ◌>>=◌, ◌>>◌}
use libstoragemgmt.Sim.Groups.{sim_ag_of_id}
use libstoragemgmt.Sim.Volumes.{sim_vol_of_id}

-- the condition of the SELECT and the DELETE on `vol_masks`
abbrev pub masks : ℤ → ℤ → VolMask → Bool
masks sim_ag_id sim_vol_id m = is_id sim_ag_id m.ag_id && is_id sim_vol_id m.vol_id

unfoldable pub sim_vol_mask : ℤ → ℤ → Exec (Unit {0})
sim_vol_mask sim_vol_id sim_ag_id = do
  sim_vol ← sim_vol_of_id sim_vol_id
  sim_ag ← sim_ag_of_id sim_ag_id
  exist_mask ← gets (λ db. select (masks sim_ag_id sim_vol_id) db.vol_masks)
  raise_if (not (is_empty exist_mask)) ErrorNumber.no_state_change
  modify (λ db. record db {
    vol_masks = db.vol_masks ++ record { vol_id = sim_vol.id; ag_id = sim_ag.ag.id } ∷ [];
  })

unfoldable pub sim_vol_unmask : ℤ → ℤ → Exec (Unit {0})
sim_vol_unmask sim_vol_id sim_ag_id = do
  sim_vol_of_id sim_vol_id
  sim_ag_of_id sim_ag_id
  exist_mask ← gets (λ db. select (masks sim_ag_id sim_vol_id) db.vol_masks)
  raise_if (is_empty exist_mask) ErrorNumber.no_state_change
  modify (λ db. record db { vol_masks = delete (masks sim_ag_id sim_vol_id) db.vol_masks })
