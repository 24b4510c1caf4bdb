-- ===== src/Cmdline/Waiting/Simulated.antt =====
-- Waiting for a job of the simulated array (plugin/sim_plugin/simarray.py): the loop ends once the time
-- that has passed has reached the duration of the job.
use mathlib.Core.Path.{ap}
use libstoragemgmt.Base.{
  ℕ, ℤ, zero, suc, ◌+◌, ◌*◌, ◌≤◌, true, false, Option, none, [], ◌∷◌, ◌≡◌, refl, ◌==◌, inl, inr,
  Bool-cases, arith,
}
use libstoragemgmt.Common.{ErrorNumber, ok}
use libstoragemgmt.Doubles.{sub_double}
use libstoragemgmt.Sql.{is_id, select, delete}
use libstoragemgmt.Sim.Tables.{Job, Db}
use libstoragemgmt.Sim.Exec.{Exec}
use libstoragemgmt.Sim.Cascade.{sim_data_of_id}
use libstoragemgmt.Sim.Ids.{lsm_id_to_sim_id}
use libstoragemgmt.Sim.Jobs.{JobResult, job_progress, job_result, sim_job_status, sim_job_delete}
use libstoragemgmt.Sim.Jobs.Progress.{job_progress_lem}
use libstoragemgmt.Sim.Array.Session.{
  Session, LsmId, handle_errors, transaction, trans_begin, trans_commit, on_db,
}
use libstoragemgmt.Sim.Array.Jobs.{in_progress, complete, job_status, job_free}
use libstoragemgmt.Cmdline.Waiting.{returned, rounds, wait_for_it}

abbrev pub connected : Db → Session
connected db = record {
  saved = db;
  current = db;
  in_transaction = false;
  locked = false;
  reading = false;
}

module _ {A : Type 0} (m : Exec A) (a : A) (db db' : Db) (e : m db ≡ (ok a, db')) where
  handle_errors-on_db : handle_errors (on_db m) (connected db) ≡ (
    ok a,
    record { saved = db; current = db'; in_transaction = false; locked = false; reading = false },
  )
  unfolding handle_errors on_db
  handle_errors-on_db = rw (handle_errors, ap (λ p. p.0) e) (rw (on_db, ap (λ p. p.1) e) refl)

  handle_errors-transaction : handle_errors (transaction m) (connected db) ≡ (ok a, connected db')
  unfolding handle_errors transaction on_db trans_begin trans_commit
  handle_errors-transaction =
      rw (handle_errors, ap (λ p. p.0) e) (rw (ap (λ p. p.0) e, ap (λ p. p.1) e) refl)

module _ (job_id : LsmId) (i : ℤ) (j : Job) (made : Option JobResult) (db : Db)
    (read : lsm_id_to_sim_id job_id ErrorNumber.not_found_job ≡ ok i)
    (found : select (λ x. is_id i (Job.id x)) db.jobs ≡ j ∷ [])
    (result : job_result j.job_data db ≡ (ok made, db)) where
  abbrev without_job : Db
  without_job = record db { jobs = delete (λ x. is_id i (Job.id x)) db.jobs }

  sim_status_complete :
      (now : ℕ)
      → (job_progress now j == 100) ≡ true
      → sim_job_status now i db ≡ (ok (job_progress now j, made), db)
  unfolding sim_job_status sim_data_of_id
  sim_status_complete now e = rw (found, e, result) refl

  sim_status_in_progress :
      (now : ℕ)
      → (job_progress now j == 100) ≡ false
      → sim_job_status now i db ≡ (ok (job_progress now j, none), db)
  unfolding sim_job_status sim_data_of_id
  sim_status_in_progress now e = rw (found, e) refl

  status_complete :
      (now : ℕ)
      → (job_progress now j == 100) ≡ true
      → job_status now job_id (connected db)
        ≡ (ok (complete, job_progress now j, made), connected db)
  unfolding job_status
  status_complete now e =
      handle_errors-on_db _ (complete, job_progress now j, made) db db
        (rw (read, sim_status_complete now e, e) refl)

  status_in_progress :
      (now : ℕ)
      → (job_progress now j == 100) ≡ false
      → job_status now job_id (connected db)
        ≡ (ok (in_progress, job_progress now j, none), connected db)
  unfolding job_status
  status_in_progress now e =
      handle_errors-on_db _ (in_progress, job_progress now j, none) db db
        (rw (read, sim_status_in_progress now e, e) refl)

  free_lem : job_free job_id (connected db) ≡ (ok tt, connected without_job)
  unfolding job_free sim_job_delete
  free_lem = handle_errors-transaction _ tt db without_job (rw read refl)

  -- A round at whose clock the job is done is the last one.
  last_round :
      (clock : ℕ → ℕ) (k m : ℕ)
      → (job_progress (clock k) j == 100) ≡ true
      → rounds (λ r. job_status (clock r) job_id) (job_free job_id) (suc m) k (connected db)
        ≡ (returned made, connected without_job)
  unfolding rounds
  last_round clock k m done = rw (status_complete (clock k) done, free_lem) refl

  -- In the round e, n rounds from now, the job is done at the latest, and there are more than n rounds.
  rounds_lem :
      (clock : ℕ → ℕ) (e n k m : ℕ)
      → k + n ≡ e
      → n ≤ m
      → j.duration * 81129638414606681695789005144064
        ≤ sub_double (clock e) j.timestamp * 81129638414606663681390495662081
      → rounds (λ r. job_status (clock r) job_id) (job_free job_id) (suc m) k (connected db)
        ≡ (returned made, connected without_job)
  unfolding rounds
  rounds_lem clock e zero k m s l h =
      let at : k ≡ e = omega arith in
      last_round clock k m (rw (at, (job_progress_lem (clock e) j).1 h) refl)
  rounds_lem clock e (suc n) k zero s l h = absurd (omega arith)
  rounds_lem clock e (suc n) k (suc m) s l h = elim (Bool-cases (job_progress (clock k) j == 100)) [
    | inl done ↦ last_round clock k (suc m) done
    | inr going ↦
        rw (status_in_progress (clock k) going)
          (rounds_lem clock e n (suc k) m (omega arith) (omega arith) h)
  ]

  -- A command that waits for a job of the simulated array returns what the job made, and the job is gone,
  -- once the time since the start of the job has reached its duration, however the clock went before: where
  -- the elapsed time, as the code computes it, times (1 - 2^-53)^2 (for two roundings) has reached it at the
  -- poll n, the loop ends within n + 1 polls, given a file that no other connection holds or reads, in which the
  -- id names one job and what the job made is there.
  pub wait_for_it_complete :
      (clock : ℕ → ℕ) (n m : ℕ) (item : Option JobResult)
      → n ≤ m
      → j.duration * 81129638414606681695789005144064
        ≤ sub_double (clock n) j.timestamp * 81129638414606663681390495662081
      → wait_for_it false true
          (λ r. job_status (clock r) job_id)
          (job_free job_id)
          item
          (suc m)
          (connected db)
        ≡ (returned made, connected without_job)
  unfolding wait_for_it
  wait_for_it_complete clock n m item l h = rounds_lem clock n n zero m (omega arith) l h
