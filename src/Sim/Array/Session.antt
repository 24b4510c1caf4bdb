-- ===== src/Sim/Array/Session.antt =====
-- A connection to the state file, and transactions on it (plugin/sim_plugin/simarray.py).
pub use libstoragemgmt.Text.{codes}
use libstoragemgmt.Base.{ℕ, ℤ, String, Bool, true, false, Option, List, if◌then◌else◌}
use libstoragemgmt.Common.{
  ErrorNumber, Exception, lsm_error, integrity_error, operational_error, other_exception, ok, err,
}
use libstoragemgmt.Sim.Tables.{JobDataType, Db}
use libstoragemgmt.Sim.Exec.{Method, Exec, pure, ◌>>=◌, ◌>>◌}
use libstoragemgmt.Sim.Ids.{lsm_id_to_sim_id, job_lsm_id}
use libstoragemgmt.Sim.Jobs.{sim_job_create}

-- `saved` is what the state file holds and `current` what this connection sees. `locked` says that
-- another connection holds the lock that BEGIN IMMEDIATE takes until the timeout ends, and `reading` that
-- another connection reads the file until then, so that COMMIT cannot write it.
pub record Session : Type 0 where
  pub saved : Db
  pub current : Db
  pub in_transaction : Bool
  pub locked : Bool
  pub reading : Bool

abbrev pub Action : Type 0 → Type 0
Action A = Method Session A

-- BEGIN IMMEDIATE TRANSACTION
unfoldable pub trans_begin : Action (Unit {0})
trans_begin s =
    if s.locked
    then (err (operational_error true), s)
    else if s.in_transaction
    then (err (operational_error false), s)
    else (ok tt, record s { current = s.saved; in_transaction = true })

unfoldable pub trans_commit : Action (Unit {0})
trans_commit s =
    if s.reading
    then (err (operational_error true), s)
    else (ok tt, record s { saved = s.current; in_transaction = false })

unfoldable pub trans_rollback : Action (Unit {0})
trans_rollback s = (ok tt, record s { current = s.saved; in_transaction = false })

-- a method of `self.bs_obj`
unfoldable pub on_db : {A : Type 0} → Exec A → Action A
on_db m s = let (r, db) = m s.current in (r, record s { current = db })

-- what `_handle_errors` raises for an exception
unfoldable pub handled : Exception → Exception
handled (lsm_error e) = lsm_error e
handled (operational_error true) = lsm_error ErrorNumber.timeout
handled (operational_error false) = lsm_error ErrorNumber.plugin_bug
handled integrity_error = lsm_error ErrorNumber.plugin_bug
handled other_exception = lsm_error ErrorNumber.plugin_bug

-- The decorator `_handle_errors`: after any exception the transaction is rolled back.
unfoldable pub handle_errors : {A : Type 0} → Action A → Action A
unfolding handled trans_rollback
handle_errors m s =
    let (r, s') = m s in
    elim r [ ok a ↦ (ok a, s') | err e ↦ (err (handled e), (trans_rollback s').1) ]

-- `trans_begin()`, calls of methods of `self.bs_obj`, `trans_commit()`
unfoldable pub transaction : {A : Type 0} → Exec A → Action A
unfolding trans_begin trans_commit on_db
transaction m = do trans_begin; a ← on_db m; trans_commit; pure a

-- An id as a client passes it.
abbrev pub LsmId : Type 0
LsmId = List ℕ

abbrev pub sys_id : String
sys_id = "sim-01"

-- What a call finds outside the program: the time, the duration that a new job takes, and the text
-- of `_random_vpd()`.
pub record Env : Type 0 where
  pub now : ℕ
  pub duration : ℕ
  pub vpd : String

-- `_lsm_id_to_sim_id` inside a method, and the helpers that give it its error. `_sim_ag_id_of`
-- has the error of an NFS export.
abbrev pub sim_id_of : {S : Type 0} → ErrorNumber → LsmId → Method S ℤ
sim_id_of read_error lsm_id s = (lsm_id_to_sim_id lsm_id read_error, s)

abbrev pub sim_job_id_of : {S : Type 0} → LsmId → Method S ℤ
sim_job_id_of = sim_id_of ErrorNumber.not_found_job

abbrev pub sim_pool_id_of : {S : Type 0} → LsmId → Method S ℤ
sim_pool_id_of = sim_id_of ErrorNumber.not_found_pool

abbrev pub sim_vol_id_of : {S : Type 0} → LsmId → Method S ℤ
sim_vol_id_of = sim_id_of ErrorNumber.not_found_volume

abbrev pub sim_fs_id_of : {S : Type 0} → LsmId → Method S ℤ
sim_fs_id_of = sim_id_of ErrorNumber.not_found_fs

abbrev pub sim_fs_snap_id_of : {S : Type 0} → LsmId → Method S ℤ
sim_fs_snap_id_of = sim_id_of ErrorNumber.not_found_fs_ss

abbrev pub sim_exp_id_of : {S : Type 0} → LsmId → Method S ℤ
sim_exp_id_of = sim_id_of ErrorNumber.not_found_nfs_export

abbrev pub sim_ag_id_of : {S : Type 0} → LsmId → Method S ℤ
sim_ag_id_of = sim_id_of ErrorNumber.not_found_nfs_export

-- `_job_create`
unfoldable pub job_create : Env → Option (JobDataType × ℤ) → Exec LsmId
job_create env job_data = do
  sim_job_id ← sim_job_create env.now env.duration job_data
  pure (job_lsm_id (codes "JOB_ID_") sim_job_id)
