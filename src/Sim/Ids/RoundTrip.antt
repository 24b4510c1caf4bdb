-- ===== src/Sim/Ids/RoundTrip.antt =====
-- What `SimArray._lsm_id_to_sim_id` reads of an id that a view wrote.
use libstoragemgmt.Base.{ℕ, suc, ◌%◌, pos, ◌≡◌, List, arith}
use libstoragemgmt.Common.{ErrorNumber, ok}
use libstoragemgmt.Text.{str}
use libstoragemgmt.Text.Numbers.{pad, last-decimal, int-pad, length-pad, last-prefix}
use libstoragemgmt.Sim.Ids.{lsm_id, lsm_id_to_sim_id}

-- Of any row id the last five digits come back: what `_lsm_id_to_sim_id` reads of an id in a view is
-- the row id modulo 100000, behind any prefix.
pub lsm_id_to_sim_id-lsm_id :
    (prefix : List ℕ) (n : ℕ) (e : ErrorNumber)
    → lsm_id_to_sim_id (lsm_id prefix n) e ≡ ok (pos (n % 100000))
unfolding lsm_id lsm_id_to_sim_id str
lsm_id_to_sim_id-lsm_id prefix n e =
    rw (last-decimal 5 5 (suc n) n (omega arith) (omega arith))
      (rw (last-prefix 5 prefix (pad 5 n) (length-pad 5 n)) (rw (int-pad n)))
