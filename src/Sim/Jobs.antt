-- ===== src/Sim/Jobs.antt =====
-- The jobs of `BackStore` (plugin/sim_plugin/simarray.py). `time.time()` and the duration that
-- `LSM_SIM_TIME` may set, which is not negative, are arguments: doubles as in Doubles.
pub mod Progress
use libstoragemgmt.Base.{
  ℕ, ◌-◌, ◌*◌, ◌/◌, ℤ, Option, none, some, [], ◌∷◌, ◌++◌, leb, ◌==◌, if◌then◌else◌,
}
use libstoragemgmt.Doubles.{int_of, hundredfold, div_double, sub_double}
use libstoragemgmt.Common.{ErrorNumber}
use libstoragemgmt.Sql.{is_id, delete, fresh}
use libstoragemgmt.Sim.Tables.{
  Volume, Fs, FsSnap, JobDataType, job_data_vol, job_data_fs, job_data_fs_snap, Job, Db,
}
use libstoragemgmt.Sim.Exec.{Exec, pure, modify, ◌>>=◌, ◌>>◌}
use libstoragemgmt.Sim.Cascade.{sim_data_of_id}
use libstoragemgmt.Sim.Volumes.{sim_vol_of_id}
use libstoragemgmt.Sim.Filesystems.{sim_fs_of_id, sim_fs_snap_of_id}

unfoldable pub sim_job_create : ℕ → ℕ → Option (JobDataType × ℤ) → Exec ℕ
sim_job_create now duration job_data db =
    (do
      modify (λ s. record s {
        jobs =
            s.jobs
            ++ record {
              id = fresh Job.id db.jobs;
              duration = duration;
              timestamp = now;
              job_data = job_data;
            }
              ∷ [];
      })
      pure (fresh Job.id db.jobs))
      db

unfoldable pub sim_job_delete : ℤ → Exec (Unit {0})
sim_job_delete sim_job_id =
    modify (λ db. record db { jobs = delete (λ j. is_id sim_job_id j.id) db.jobs })

-- what a finished job made
pub data JobResult : Type 0 where
  made_vol : Volume → JobResult
  made_fs : Fs → JobResult
  made_fs_snap : FsSnap → JobResult

-- The percentage: below 0, where the clock went back, it is 0, and from 100 on it is 100.
unfoldable pub job_progress : ℕ → Job → ℕ
job_progress now j =
    if j.duration == 0
    then 100
    else let p = int_of (hundredfold (div_double (sub_double now j.timestamp) j.duration)) in
      if leb 100 p then 100 else p

unfoldable pub job_result : Option (JobDataType × ℤ) → Exec (Option JobResult)
job_result none = pure none
job_result (some (job_data_vol, i)) = do v ← sim_vol_of_id i; pure (some (made_vol v))
job_result (some (job_data_fs, i)) = do f ← sim_fs_of_id i; pure (some (made_fs f))
job_result (some (job_data_fs_snap, i)) = do
  s ← sim_fs_snap_of_id i none
  pure (some (made_fs_snap s))

unfoldable pub sim_job_status : ℕ → ℤ → Exec (ℕ × Option JobResult)
unfolding job_result
sim_job_status now sim_job_id = do
  j ← sim_data_of_id Db.jobs Job.id sim_job_id ErrorNumber.not_found_job
  let progress = job_progress now j
  data_made ← (if progress == 100 then job_result j.job_data else pure none)
  pure (progress, data_made)
