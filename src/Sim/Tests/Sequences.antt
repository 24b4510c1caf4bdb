-- ===== src/Sim/Tests/Sequences.antt =====
-- A sequence of calls, and deletions and jobs, on the small state file.
use libstoragemgmt.Base.{◌*◌, ◌≤◌, pos, ◌≡◌, refl, false, true, none, List, [], ◌∷◌, arith}
use libstoragemgmt.Doubles.{one, sub_double, div_double, hundredfold, int_of, fl, rounded, nearest}
use libstoragemgmt.Sim.Tables.{Job, Db}
use libstoragemgmt.Sim.Groups.{sim_ag_delete}
use libstoragemgmt.Sim.Masks.{sim_vol_mask, sim_vol_unmask}
use libstoragemgmt.Sim.Masks.References.{MasksRefer, vol_masks-MasksRefer}
use libstoragemgmt.Sim.Jobs.{job_progress}
use libstoragemgmt.Sim.Jobs.Progress.{job_progress_lem}
use libstoragemgmt.Sim.Volumes.{sim_vol_delete}
use libstoragemgmt.Sim.Volumes.Delete.{GivesBack, sim_vol_delete-GivesBack}
use libstoragemgmt.Sql.{select, any}
use libstoragemgmt.Sim.Sound.{IsSound}
use libstoragemgmt.Sim.Sound.Requests.{Request}
use libstoragemgmt.Sim.Sound.Transactions.{SessionIsSound}
use libstoragemgmt.Sim.Sound.Sequences.{Call, run, run-SessionIsSound}
use libstoragemgmt.Common.{ok}
use libstoragemgmt.Sim.Start.{open_array}
use libstoragemgmt.Sim.Start.Sound.{IsFilled, new_session, run-open_array}
use libstoragemgmt.Sim.Pools.Space.{IsSolvent}
use libstoragemgmt.Sim.Array.Session.{Env, codes}
use libstoragemgmt.Sim.Tests.{sample, sample-IsSolvent, session, volume}

abbrev env : Env
env = record { now = 5; duration = 10; vpd = "51" }

abbrev call : Request → Call
call r = record { env = env; locked = false; reading = false; request = r }

-- a volume that fits, one that does not, a mask, a resize, a call under a lock, and a deletion
abbrev calls : List Call
calls =
    call (Request.volume_create (codes "POOL_ID_00001") "new" (pos 1000))
    ∷ call (Request.volume_create (codes "POOL_ID_00001") "large" (pos 9000))
    ∷ call (Request.volume_mask (codes "AG_ID_00001") (codes "VOL_ID_00002"))
    ∷ call (Request.volume_resize (codes "VOL_ID_00001") (pos 4000))
    ∷ record {
      env = env;
      locked = true;
      reading = false;
      request = Request.access_group_delete (codes "AG_ID_00001");
    }
    ∷ call (Request.volume_delete (codes "VOL_ID_00001"))
    ∷ []

sample-IsSound : IsSound sample
sample-IsSound = record { solvent = sample-IsSolvent; plain = (refl, tt) }

run-SessionIsSound_example : SessionIsSound (run calls session)
run-SessionIsSound_example =
    run-SessionIsSound calls session
      (omega arith, (omega arith, (tt, (omega arith, (tt, (tt, tt))))))
      (sample-IsSound, sample-IsSound)

run-open_array_example :
    ((open_array (λ i. "51") new_session).0 ≡ ok tt)
    × IsFilled (open_array (λ i. "51") new_session).1.saved
    × (open_array (λ i. "52") (open_array (λ i. "51") new_session).1
        ≡ open_array (λ i. "51") new_session)
    × IsSolvent (run calls (open_array (λ i. "51") new_session).1).saved
run-open_array_example =
    run-open_array (λ i. "51") (λ i. "52") calls
      (omega arith, (omega arith, (tt, (omega arith, (tt, (tt, tt))))))

sim_vol_delete-GivesBack_example : GivesBack (pos 1) sample volume (sim_vol_delete (pos 1) sample)
unfolding select
sim_vol_delete-GivesBack_example =
    sim_vol_delete-GivesBack (pos 1) sample volume refl refl sample-IsSolvent

abbrev job : Job
job = record { id = 1; duration = 100 * one; timestamp = 0; job_data = none }

job_progress_lem_example :
    (job_progress (101 * one) job ≤ 100)
    × (100 * one * 81129638414606681695789005144064
          ≤ sub_double (101 * one) 0 * 81129638414606663681390495662081
        → job_progress (101 * one) job ≡ 100)
    × (job_progress (101 * one) job ≡ 100
        → 100 * one * 81129638414606681695789005144064
          ≤ sub_double (101 * one) 0 * 81129638414606699710187514626049)
job_progress_lem_example = job_progress_lem (101 * one) job

-- 29 of 100 seconds are 28 percent in floats
after_29_seconds : job_progress (29 * one) job ≡ 28
unfolding job_progress sub_double div_double hundredfold int_of fl rounded nearest one
after_29_seconds = refl

after_100_seconds : job_progress (100 * one) job ≡ 100
unfolding job_progress sub_double div_double hundredfold int_of fl rounded nearest one
after_100_seconds = refl

abbrev masked_sample : Db
masked_sample = record sample { vol_masks = record { vol_id = 1; ag_id = 1 } ∷ [] }

masked_sample-MasksRefer : MasksRefer masked_sample
unfolding any
masked_sample-MasksRefer = record { to_volumes = (refl, tt); to_ags = (refl, tt) }

vol_masks-MasksRefer_example :
    MasksRefer (sim_vol_mask (pos 1) (pos 1) masked_sample).1
    × MasksRefer (sim_vol_unmask (pos 1) (pos 1) masked_sample).1
    × MasksRefer (sim_vol_delete (pos 1) masked_sample).1
    × MasksRefer (sim_ag_delete (pos 1) masked_sample).1
vol_masks-MasksRefer_example =
    vol_masks-MasksRefer (pos 1) (pos 1) masked_sample masked_sample-MasksRefer
