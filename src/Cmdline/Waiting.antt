-- ===== src/Cmdline/Waiting.antt =====
-- `CmdLine._wait_for_it` of tools/lsmcli/cmdline.py: a command that started a job polls it until it is
-- done.
pub mod Simulated
use libstoragemgmt.Base.{ℕ, zero, suc, Bool, true, false, Option, none, some, if◌then◌else◌}
use libstoragemgmt.Common.{Exception, Result, ok, err}
use libstoragemgmt.Sim.Exec.{Method}
use libstoragemgmt.Sim.Array.Jobs.{JobStatus, in_progress, complete, error}

-- How the method ends: it returns the item, raises ArgError for the status of the job, lets an exception
-- of the client through, or leaves the process with JOB_STARTED. `polling` says that it has not ended in
-- the rounds that it was given.
pub data Ended (A : Type 0) : Type 0 where
  returned : A → Ended A
  arg_error : JobStatus → Ended A
  raised : Exception → Ended A
  job_started : Ended A
  polling : Ended A

module _ {S A : Type 0} where
  abbrev pub freed : A → Result (Unit {0}) × S → Ended A × S
  freed item (ok u, s) = (returned item, s)
  freed item (err e, s) = (raised e, s)

  -- what a round makes of the answer to `job_status`: `again` is the next round
  abbrev pub answered :
      (job_free : Method S (Unit {0})) (again : S → Ended A × S)
      → Result (JobStatus × ℕ × A) × S
      → Ended A × S
  answered job_free again (err e, s) = (raised e, s)
  answered job_free again (ok (in_progress, percent, item), s) = again s
  answered job_free again (ok (complete, percent, item), s) = freed item (job_free s)
  answered job_free again (ok (error, percent, item), s) = (arg_error error, s)

  -- The loop, for a number of rounds. `job_status k` is the call that the round k makes.
  unfoldable pub rounds :
      (ℕ → Method S (JobStatus × ℕ × A)) → Method S (Unit {0}) → ℕ → ℕ → S → Ended A × S
  rounds job_status job_free zero k s = (polling, s)
  rounds job_status job_free (suc more) k s =
      answered job_free (rounds job_status job_free more (suc k)) (job_status k s)

  -- `_wait_for_it` with a job, or with none where the call returned the item itself
  unfoldable pub wait_for_it :
      (is_async has_job : Bool) (job_status : ℕ → Method S (JobStatus × ℕ × A))
      (job_free : Method S (Unit {0})) (item : A)
      → ℕ
      → S
      → Ended A × S
  wait_for_it is_async false job_status job_free item more s = (returned item, s)
  wait_for_it true true job_status job_free item more s = (job_started, s)
  wait_for_it false true job_status job_free item more s = rounds job_status job_free more zero s
