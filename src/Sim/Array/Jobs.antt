-- ===== src/Sim/Array/Jobs.antt =====
-- `job_status` and `job_free` of `SimArray` (plugin/sim_plugin/simarray.py).
use libstoragemgmt.Base.{ℕ, Option, ◌==◌, if◌then◌else◌}
use libstoragemgmt.Sim.Exec.{pure, ◌>>=◌}
use libstoragemgmt.Sim.Jobs.{JobResult, sim_job_delete, sim_job_status}
use libstoragemgmt.Sim.Array.Session.{
  Action, handle_errors, transaction, on_db, LsmId, sim_job_id_of,
}

-- `JobStatus` of python_binding/lsm/_common.py
pub data JobStatus : Type 0 where
  in_progress complete error : JobStatus

unfoldable pub job_status : ℕ → LsmId → Action (JobStatus × ℕ × Option JobResult)
job_status now job_id = handle_errors (
    on_db (do
      sim_job_id ← sim_job_id_of job_id
      (progress, made) ← sim_job_status now sim_job_id
      pure ((if progress == 100 then complete else in_progress), progress, made)))

unfoldable pub job_free : LsmId → Action (Unit {0})
job_free job_id =
    handle_errors (transaction (do sim_job_id ← sim_job_id_of job_id; sim_job_delete sim_job_id))
