-- ===== src/Sim/Sound/Calls.antt =====
-- The other methods of `SimArray` that change the state file, and sequences of calls
-- (plugin/sim_plugin/simarray.py).
use libstoragemgmt.Base.{String, ℕ, not, str_eq, refl}
use libstoragemgmt.Common.{ErrorNumber}
use libstoragemgmt.Sim.Exec.{raise_if}
use libstoragemgmt.Sim.Array.Session.{sys_id}
use libstoragemgmt.Sim.Array.Systems.{set_read_cache_pct, system_read_cache_pct_update}
use libstoragemgmt.Base.{ℕ, pos, String, not, Option, List}
use libstoragemgmt.Common.{ErrorNumber}
use libstoragemgmt.Sim.Constants.{ReplicateType, admin_state_enabled, admin_state_disabled}
use libstoragemgmt.Sim.Exec.{raise_if}
use libstoragemgmt.Sim.Exec.Keeps.{Keeps, Keeps-bind}
use libstoragemgmt.Sim.Volumes.{sim_vol_replica, sim_vol_src_replica_break}
use libstoragemgmt.Sim.Masks.{sim_vol_mask, sim_vol_unmask}
use libstoragemgmt.Sim.Groups.{
  sim_ag_of_id, sim_ag_create, sim_ag_delete, sim_ag_init_add, sim_ag_init_delete,
}
use libstoragemgmt.Sim.Filesystems.{
  sim_fs_file_clone, sim_fs_snap_create, sim_fs_snap_delete, sim_fs_snap_restore,
  sim_fs_src_clone_break, sim_fs_snap_del_by_fs,
}
use libstoragemgmt.Sim.Exports.{sim_exp_of_id, sim_exp_create, sim_exp_delete}
use libstoragemgmt.Sim.Jobs.{sim_job_delete}
use libstoragemgmt.Sim.Sound.{IsSound, Keeps-of_same}
use libstoragemgmt.Sim.Sound.Frame.{
  job_create-SameSpace, sim_vol_replica-SameSpace, sim_vol_src_replica_break-SameSpace,
  sim_vol_mask-SameSpace, sim_vol_unmask-SameSpace, sim_ag_of_id-SameSpace, sim_ag_create-SameSpace,
  sim_ag_delete-SameSpace, sim_ag_init_add-SameSpace, sim_ag_init_delete-SameSpace,
  sim_fs_file_clone-SameSpace, sim_fs_snap_create-SameSpace, sim_fs_snap_delete-SameSpace,
  sim_fs_snap_restore-SameSpace, sim_fs_src_clone_break-SameSpace, sim_fs_snap_del_by_fs-SameSpace,
  has_child_dependency-SameSpace, sim_exp_of_id-SameSpace, sim_exp_create-SameSpace,
  sim_exp_delete-SameSpace, sim_job_delete-SameSpace,
}
use libstoragemgmt.Sim.Sound.Volumes.{
  sim_vol_state_change-IsSound, sim_vol_pdc_set-IsSound, sim_vol_rcp_set-IsSound,
  sim_vol_wcp_set-IsSound,
}
use libstoragemgmt.Sim.Sound.Transactions.{SessionIsSound, handle_errors-Keeps, transaction-Keeps}
use libstoragemgmt.Sim.Sound.Bodies.{method-Keeps, read_id-Keeps, then_job-Keeps, snap_id_of-Keeps}
use libstoragemgmt.Sim.Array.Session.{LsmId, Env, job_create}
use libstoragemgmt.Sim.Array.Volumes.{
  volume_physical_disk_cache_update, volume_read_cache_policy_update,
  volume_write_cache_policy_update, volume_replicate_range, volume_enable, volume_disable,
  volume_child_dependency_rm, volume_mask, volume_unmask,
}
use libstoragemgmt.Sim.Array.Groups.{
  access_group_create, access_group_delete, access_group_initiator_add,
  access_group_initiator_delete,
}
use libstoragemgmt.Sim.Array.Filesystems.{
  fs_file_clone, fs_snapshot_create, fs_snapshot_delete, fs_snapshot_restore,
  fs_child_dependency_rm, fs_export, fs_unexport, has_child_dependency, snap_id_of,
}
use libstoragemgmt.Sim.Array.Jobs.{job_free}

pub volume_replicate_range-Keeps :
    (env : Env) (t : ReplicateType) (i j : LsmId)
    → Keeps SessionIsSound (volume_replicate_range env t i j)
unfolding volume_replicate_range
volume_replicate_range-Keeps env t i j = method-Keeps _ (
    read_id-Keeps IsSound _ i _ (λ src.
      (read_id-Keeps IsSound _ j _ (λ dst.
        (then_job-Keeps _ env _
          (Keeps-of_same (sim_vol_replica src dst t) (sim_vol_replica-SameSpace src dst t)))))))

pub volume_enable-Keeps : (i : LsmId) → Keeps SessionIsSound (volume_enable i)
unfolding volume_enable
volume_enable-Keeps i =
    method-Keeps _
      (read_id-Keeps IsSound _ i _ (λ z. sim_vol_state_change-IsSound z admin_state_enabled))

pub volume_disable-Keeps : (i : LsmId) → Keeps SessionIsSound (volume_disable i)
unfolding volume_disable
volume_disable-Keeps i =
    method-Keeps _
      (read_id-Keeps IsSound _ i _ (λ z. sim_vol_state_change-IsSound z admin_state_disabled))

pub volume_child_dependency_rm-Keeps :
    (env : Env) (i : LsmId) → Keeps SessionIsSound (volume_child_dependency_rm env i)
unfolding volume_child_dependency_rm
volume_child_dependency_rm-Keeps env i = method-Keeps _ (
    read_id-Keeps IsSound _ i _ (λ z.
      (then_job-Keeps _ env _
        (Keeps-of_same (sim_vol_src_replica_break z) (sim_vol_src_replica_break-SameSpace z)))))

pub volume_mask-Keeps : (a v : LsmId) → Keeps SessionIsSound (volume_mask a v)
unfolding volume_mask
volume_mask-Keeps a v = method-Keeps _ (
    read_id-Keeps IsSound _ v _ (λ x.
      (read_id-Keeps IsSound _ a _
        (λ y. (Keeps-of_same (sim_vol_mask x y) (sim_vol_mask-SameSpace x y))))))

pub volume_unmask-Keeps : (a v : LsmId) → Keeps SessionIsSound (volume_unmask a v)
unfolding volume_unmask
volume_unmask-Keeps a v = method-Keeps _ (
    read_id-Keeps IsSound _ v _ (λ x.
      (read_id-Keeps IsSound _ a _
        (λ y. (Keeps-of_same (sim_vol_unmask x y) (sim_vol_unmask-SameSpace x y))))))

pub access_group_delete-Keeps : (a : LsmId) → Keeps SessionIsSound (access_group_delete a)
unfolding access_group_delete
access_group_delete-Keeps a = method-Keeps _ (
    read_id-Keeps IsSound _ a _
      (λ x. (Keeps-of_same (sim_ag_delete x) (sim_ag_delete-SameSpace x))))

pub fs_file_clone-Keeps :
    (env : Env) (i : LsmId) (s : Option LsmId) → Keeps SessionIsSound (fs_file_clone env i s)
unfolding fs_file_clone
fs_file_clone-Keeps env i s = method-Keeps _ (
    Keeps-bind IsSound _ (snap_id_of s) (snap_id_of-Keeps s) (λ x.
      (read_id-Keeps IsSound _ i _ (λ z.
        (then_job-Keeps _ env _
          (Keeps-of_same (sim_fs_file_clone z x) (sim_fs_file_clone-SameSpace z x)))))))

pub fs_snapshot_create-Keeps :
    (env : Env) (i : LsmId) (name : String) → Keeps SessionIsSound (fs_snapshot_create env i name)
unfolding fs_snapshot_create
fs_snapshot_create-Keeps env i name = method-Keeps _ (
    read_id-Keeps IsSound _ i _ (λ z.
      (Keeps-bind IsSound _ (sim_fs_snap_create env.now z name)
        (Keeps-of_same (sim_fs_snap_create env.now z name)
          (sim_fs_snap_create-SameSpace env.now z name))
        (λ k. (Keeps-of_same (job_create env _) (job_create-SameSpace env _))))))

pub fs_snapshot_delete-Keeps :
    (env : Env) (i s : LsmId) → Keeps SessionIsSound (fs_snapshot_delete env i s)
unfolding fs_snapshot_delete
fs_snapshot_delete-Keeps env i s = method-Keeps _ (
    read_id-Keeps IsSound _ s _ (λ x.
      (read_id-Keeps IsSound _ i _ (λ z.
        (then_job-Keeps _ env _
          (Keeps-of_same (sim_fs_snap_delete x z) (sim_fs_snap_delete-SameSpace x z)))))))

pub fs_snapshot_restore-Keeps :
    (env : Env) (i : LsmId) (s : Option LsmId) → Keeps SessionIsSound (fs_snapshot_restore env i s)
unfolding fs_snapshot_restore
fs_snapshot_restore-Keeps env i s = method-Keeps _ (
    Keeps-bind IsSound _ (snap_id_of s) (snap_id_of-Keeps s) (λ x.
      (read_id-Keeps IsSound _ i _ (λ z.
        (then_job-Keeps _ env _
          (Keeps-of_same (sim_fs_snap_restore z x) (sim_fs_snap_restore-SameSpace z x)))))))

pub fs_child_dependency_rm-Keeps :
    (env : Env) (i : LsmId) → Keeps SessionIsSound (fs_child_dependency_rm env i)
unfolding fs_child_dependency_rm
fs_child_dependency_rm-Keeps env i = method-Keeps _ (
    read_id-Keeps IsSound _ i _ (λ z.
      (Keeps-bind IsSound _ (has_child_dependency z)
        (Keeps-of_same (has_child_dependency z) (has_child_dependency-SameSpace z))
        (λ b.
          (Keeps-bind IsSound _ (raise_if (not b) ErrorNumber.no_state_change) (λ s p. p)
            (λ _.
              (Keeps-bind IsSound _ (sim_fs_src_clone_break z)
                (Keeps-of_same (sim_fs_src_clone_break z) (sim_fs_src_clone_break-SameSpace z))
                (λ _.
                  (then_job-Keeps _ env _ (
                    Keeps-of_same (sim_fs_snap_del_by_fs z)
                      (sim_fs_snap_del_by_fs-SameSpace z)))))))))))

pub job_free-Keeps : (i : LsmId) → Keeps SessionIsSound (job_free i)
unfolding job_free
job_free-Keeps i = method-Keeps _ (
    read_id-Keeps IsSound _ i _
      (λ z. (Keeps-of_same (sim_job_delete z) (sim_job_delete-SameSpace z))))

pub access_group_create-Keeps :
    (name i : String) (t : ℕ) (sys : String)
    → Keeps SessionIsSound (access_group_create name i t sys)
unfolding access_group_create
access_group_create-Keeps name i t sys = handle_errors-Keeps _ (
    Keeps-bind SessionIsSound _ (raise_if _ ErrorNumber.not_found_system) (λ s p. p)
      (λ _. transaction-Keeps _ (
        Keeps-bind IsSound _ (sim_ag_create name t i)
          (Keeps-of_same (sim_ag_create name t i) (sim_ag_create-SameSpace name t i))
          (λ k. Keeps-of_same (sim_ag_of_id (pos k)) (sim_ag_of_id-SameSpace (pos k))))))

pub access_group_initiator_add-Keeps :
    (a : LsmId) (i : String) (t : ℕ) → Keeps SessionIsSound (access_group_initiator_add a i t)
unfolding access_group_initiator_add
access_group_initiator_add-Keeps a i t = handle_errors-Keeps _ (
    read_id-Keeps SessionIsSound _ a _ (λ z. transaction-Keeps _ (
      Keeps-bind IsSound _ (sim_ag_init_add z i t)
        (Keeps-of_same (sim_ag_init_add z i t) (sim_ag_init_add-SameSpace z i t))
        (λ _. Keeps-of_same (sim_ag_of_id z) (sim_ag_of_id-SameSpace z)))))

pub access_group_initiator_delete-Keeps :
    (a : LsmId) (i : String) → Keeps SessionIsSound (access_group_initiator_delete a i)
unfolding access_group_initiator_delete
access_group_initiator_delete-Keeps a i = handle_errors-Keeps _ (
    read_id-Keeps SessionIsSound _ a _ (λ z. transaction-Keeps _ (
      Keeps-bind IsSound _ (sim_ag_init_delete z i)
        (Keeps-of_same (sim_ag_init_delete z i) (sim_ag_init_delete-SameSpace z i))
        (λ _. Keeps-of_same (sim_ag_of_id z) (sim_ag_of_id-SameSpace z)))))

pub fs_export-Keeps :
    (random : String) (i : LsmId) (p : Option String) (r w o : List String) (u g a t : String)
    → Keeps SessionIsSound (fs_export random i p r w o u g a t)
unfolding fs_export
fs_export-Keeps random i p r w o u g a t = method-Keeps _ (
    read_id-Keeps IsSound _ i _ (λ z.
      Keeps-bind IsSound _ (sim_exp_create random z p r w o u g a t)
        (Keeps-of_same (sim_exp_create random z p r w o u g a t)
          (sim_exp_create-SameSpace random z p r w o u g a t))
        (λ k. Keeps-of_same (sim_exp_of_id (pos k)) (sim_exp_of_id-SameSpace (pos k)))))

pub fs_unexport-Keeps : (i : LsmId) → Keeps SessionIsSound (fs_unexport i)
unfolding fs_unexport
fs_unexport-Keeps i = method-Keeps _ (
    read_id-Keeps IsSound _ i _
      (λ z. Keeps-of_same (sim_exp_delete z) (sim_exp_delete-SameSpace z)))

pub volume_physical_disk_cache_update-Keeps :
    (i : LsmId) (x : ℕ) → Keeps SessionIsSound (volume_physical_disk_cache_update i x)
unfolding volume_physical_disk_cache_update
volume_physical_disk_cache_update-Keeps i x =
    method-Keeps _ (read_id-Keeps IsSound _ i _ (λ z. sim_vol_pdc_set-IsSound z x))

pub volume_read_cache_policy_update-Keeps :
    (i : LsmId) (x : ℕ) → Keeps SessionIsSound (volume_read_cache_policy_update i x)
unfolding volume_read_cache_policy_update
volume_read_cache_policy_update-Keeps i x =
    method-Keeps _ (read_id-Keeps IsSound _ i _ (λ z. sim_vol_rcp_set-IsSound z x))

pub volume_write_cache_policy_update-Keeps :
    (i : LsmId) (x : ℕ) → Keeps SessionIsSound (volume_write_cache_policy_update i x)
unfolding volume_write_cache_policy_update
volume_write_cache_policy_update-Keeps i x =
    method-Keeps _ (read_id-Keeps IsSound _ i _ (λ z. sim_vol_wcp_set-IsSound z x))

pub system_read_cache_pct_update-Keeps :
    (i : String) (n : ℕ) → Keeps SessionIsSound (system_read_cache_pct_update i n)
unfolding system_read_cache_pct_update set_read_cache_pct
system_read_cache_pct_update-Keeps i n = handle_errors-Keeps _ (
    Keeps-bind SessionIsSound _ (raise_if (not (str_eq i sys_id)) ErrorNumber.not_found_system)
      (λ s sound. sound)
      (λ _.
        transaction-Keeps _
          (Keeps-of_same (set_read_cache_pct n) (λ db. (refl, refl, refl, refl)))))
