-- ===== src/Sim/Array/Systems.antt =====
-- `system_read_cache_pct_update` of `SimArray` (plugin/sim_plugin/simarray.py).
use libstoragemgmt.Base.{ℕ, String, not, str_eq}
use libstoragemgmt.Common.{ErrorNumber}
use libstoragemgmt.Sql.{update}
use libstoragemgmt.Sim.Tables.{System}
use libstoragemgmt.Sim.Exec.{Exec, raise_if, modify, ◌>>◌}
use libstoragemgmt.Sim.Array.Session.{Action, handle_errors, transaction, sys_id}

-- UPDATE of the column `read_cache_pct`
unfoldable pub set_read_cache_pct : ℕ → Exec (Unit {0})
set_read_cache_pct read_pct = modify (λ db. record db {
  systems =
      update (λ s. str_eq (System.id s) sys_id) (λ s. record s { read_cache_pct = read_pct })
        db.systems;
})

unfoldable pub system_read_cache_pct_update : String → ℕ → Action (Unit {0})
system_read_cache_pct_update system_id read_pct = handle_errors (do
  raise_if (not (str_eq system_id sys_id)) ErrorNumber.not_found_system
  transaction (set_read_cache_pct read_pct))
