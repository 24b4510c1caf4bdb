-- ===== src/Sim/Sound/Bodies.antt =====
-- The transactions on volumes and file systems of `SimArray` (plugin/sim_plugin/simarray.py) keep the
-- invariant.
use libstoragemgmt.Base.{ℤ, pos, ◌≤ℤ◌, String, Option, none, some, [], ◌∷◌, inl, inr}
use libstoragemgmt.Common.{ErrorNumber}
use libstoragemgmt.Sql.{is_id}
use libstoragemgmt.Sql.Rows.{All-found}
use libstoragemgmt.Sim.Constants.{ReplicateType}
use libstoragemgmt.Sim.Tables.{JobDataType, Volume, Fs, Db}
use libstoragemgmt.Sim.Cascade.Lookup.{lookup_cases}
use libstoragemgmt.Sim.Exec.{Exec, Method, ◌>>=◌, pure}
use libstoragemgmt.Sim.Exec.Keeps.{Keeps, Keeps-bind, Keeps-bind_value, Returns}
use libstoragemgmt.Sim.Pools.Space.{IsSized, IsSizedFs}
use libstoragemgmt.Sim.Volumes.{sim_vol_of_id, sim_vol_replica}
use libstoragemgmt.Sim.Filesystems.{sim_fs_of_id, sim_fs_clone}
use libstoragemgmt.Sim.Sound.{IsSound, Keeps-of_same}
use libstoragemgmt.Sim.Sound.Frame.{
  job_create-SameSpace, sim_vol_of_id-SameSpace, sim_fs_of_id-SameSpace, sim_vol_replica-SameSpace,
  sim_fs_clone-SameSpace,
}
use libstoragemgmt.Sim.Sound.Volumes.{
  sim_vol_create-IsSound, sim_vol_resize-IsSound, sim_vol_delete-IsSound,
}
use libstoragemgmt.Sim.Sound.Filesystems.{
  sim_fs_create-IsSound, sim_fs_resize-IsSound, sim_fs_delete-IsSound,
}
use libstoragemgmt.Sim.Sound.Transactions.{SessionIsSound, handle_errors-Keeps, transaction-Keeps}
use libstoragemgmt.Sim.Array.Session.{LsmId, Env, handle_errors, transaction, job_create, sim_id_of}
use libstoragemgmt.Sim.Array.Volumes.{
  volume_create_internal, volume_create, volume_delete, volume_resize, volume_replicate,
}
use libstoragemgmt.Sim.Array.Filesystems.{
  fs_create_internal, fs_create, fs_delete, fs_resize, fs_clone, snap_id_of,
}

-- A method that is one transaction.
pub method-Keeps :
    {A : Type 0} (m : Exec A)
    → Keeps IsSound m
    → Keeps SessionIsSound (handle_errors (transaction m))
method-Keeps m k = handle_errors-Keeps (transaction m) (transaction-Keeps m k)

-- Reading an id changes nothing.
pub read_id-Keeps :
    {S B : Type 0} (P : S → Type 0) (e : ErrorNumber) (i : LsmId) (f : ℤ → Method S B)
    → ((z : ℤ) → Keeps P (f z))
    → Keeps P (sim_id_of e i >>= f)
read_id-Keeps P e i f h = Keeps-bind P f (sim_id_of e i) (λ s p. p) h

-- A step whose value is not needed, then a job.
pub then_job-Keeps :
    {A : Type 0} (m : Exec A) (env : Env) (d : A → Option (JobDataType × ℤ))
    → Keeps IsSound m
    → Keeps IsSound (m >>= λ a. job_create env (d a))
then_job-Keeps m env d k =
    Keeps-bind IsSound _ m k
      (λ a. Keeps-of_same (job_create env (d a)) (job_create-SameSpace env (d a)))

create_internal-Keeps :
    (env : Env) (i : LsmId) (name : String) (size : ℤ)
    → pos 0 ≤ℤ size
    → Keeps IsSound (volume_create_internal env i name size 0)
unfolding volume_create_internal
create_internal-Keeps env i name size sign =
    read_id-Keeps IsSound _ i _ (λ z. sim_vol_create-IsSound env.vpd name size z sign)

pub volume_create-Keeps :
    (env : Env) (i : LsmId) (name : String) (size : ℤ)
    → pos 0 ≤ℤ size
    → Keeps SessionIsSound (volume_create env i name size)
unfolding volume_create
volume_create-Keeps env i name size sign =
    method-Keeps _ (then_job-Keeps _ env _ (create_internal-Keeps env i name size sign))

pub volume_delete-Keeps : (env : Env) (i : LsmId) → Keeps SessionIsSound (volume_delete env i)
unfolding volume_delete
volume_delete-Keeps env i =
    method-Keeps _
      (read_id-Keeps IsSound _ i _ (λ z. then_job-Keeps _ env _ (sim_vol_delete-IsSound z)))

pub volume_resize-Keeps :
    (env : Env) (i : LsmId) (size : ℤ)
    → pos 0 ≤ℤ size
    → Keeps SessionIsSound (volume_resize env i size)
unfolding volume_resize
volume_resize-Keeps env i size sign =
    method-Keeps _ (
      read_id-Keeps IsSound _ i _
        (λ z. then_job-Keeps _ env _ (sim_vol_resize-IsSound z size sign)))

-- The size of a volume that is looked up is not negative.
sized_volume :
    (z : ℤ) (db : Db)
    → IsSound db
    → Returns IsSound (λ v. pos 0 ≤ℤ Volume.total_space v) (sim_vol_of_id z db).0
unfolding sim_vol_of_id
sized_volume z db sound =
    elim (lookup_cases Db.volumes Volume.id z ErrorNumber.not_found_volume db) [
      | inl (v, h, e) ↦
          let sized : IsSized v =
            All-found IsSized (λ w. is_id z w.id) db.volumes v [] h sound.solvent.volume_sizes in
          rw e (rw sized.1 sized.0)
      | inr (x, _, e) ↦ rw e tt
    ]

sized_fs :
    (z : ℤ) (db : Db)
    → IsSound db
    → Returns IsSound (λ f. pos 0 ≤ℤ Fs.total_space f) (sim_fs_of_id z db).0
unfolding sim_fs_of_id
sized_fs z db sound = elim (lookup_cases Db.fss Fs.id z ErrorNumber.not_found_fs db) [
  | inl (f, h, e) ↦
      let sized : IsSizedFs f =
        All-found IsSizedFs (λ w. is_id z w.id) db.fss f [] h sound.solvent.fs_sizes in
      rw e (rw sized.1 sized.0)
  | inr (x, _, e) ↦ rw e tt
]

pub volume_replicate-Keeps :
    (env : Env) (i : LsmId) (t : ReplicateType) (src : LsmId) (name : String)
    → Keeps SessionIsSound (volume_replicate env i t src name)
unfolding volume_replicate
volume_replicate-Keeps env i t src name = method-Keeps _ (
    read_id-Keeps IsSound _ src _ (λ z.
      Keeps-bind_value IsSound _ (sim_vol_of_id z) (λ v. pos 0 ≤ℤ Volume.total_space v)
        (Keeps-of_same (sim_vol_of_id z) (sim_vol_of_id-SameSpace z)) (sized_volume z)
        (λ v sign.
          Keeps-bind IsSound _ (volume_create_internal env i name v.total_space 0)
            (create_internal-Keeps env i name v.total_space sign)
            (λ dst. then_job-Keeps _ env _ (
              Keeps-of_same (sim_vol_replica z (pos dst) t)
                (sim_vol_replica-SameSpace z (pos dst) t))))))

fs_create_internal-Keeps :
    (i : LsmId) (name : String) (size : ℤ)
    → pos 0 ≤ℤ size
    → Keeps IsSound (fs_create_internal i name size)
unfolding fs_create_internal
fs_create_internal-Keeps i name size sign =
    read_id-Keeps IsSound _ i _ (λ z. sim_fs_create-IsSound name size z sign)

pub fs_create-Keeps :
    (env : Env) (i : LsmId) (name : String) (size : ℤ)
    → pos 0 ≤ℤ size
    → Keeps SessionIsSound (fs_create env i name size)
unfolding fs_create
fs_create-Keeps env i name size sign =
    method-Keeps _ (then_job-Keeps _ env _ (fs_create_internal-Keeps i name size sign))

pub fs_delete-Keeps : (env : Env) (i : LsmId) → Keeps SessionIsSound (fs_delete env i)
unfolding fs_delete
fs_delete-Keeps env i =
    method-Keeps _
      (read_id-Keeps IsSound _ i _ (λ z. then_job-Keeps _ env _ (sim_fs_delete-IsSound z)))

pub fs_resize-Keeps :
    (env : Env) (i : LsmId) (size : ℤ) → pos 0 ≤ℤ size → Keeps SessionIsSound (fs_resize env i size)
unfolding fs_resize
fs_resize-Keeps env i size sign = handle_errors-Keeps _ (
    read_id-Keeps SessionIsSound _ i _
      (λ z. transaction-Keeps _ (then_job-Keeps _ env _ (sim_fs_resize-IsSound z size sign))))

pub snap_id_of-Keeps : (i : Option LsmId) → Keeps IsSound (snap_id_of i)
unfolding snap_id_of
snap_id_of-Keeps none s p = p
snap_id_of-Keeps (some []) s p = p
snap_id_of-Keeps (some (x ∷ xs)) s p =
    read_id-Keeps IsSound _ (x ∷ xs) (λ z. pure (some z)) (λ z s p. p) s p

pub fs_clone-Keeps :
    (env : Env) (src : LsmId) (name : String) (snap : Option LsmId)
    → Keeps SessionIsSound (fs_clone env src name snap)
unfolding fs_clone
fs_clone-Keeps env src name snap = method-Keeps _ (
    Keeps-bind IsSound _ (snap_id_of snap) (snap_id_of-Keeps snap) (λ s.
      read_id-Keeps IsSound _ src _ (λ z.
        Keeps-bind_value IsSound _ (sim_fs_of_id z) (λ f. pos 0 ≤ℤ Fs.total_space f)
          (Keeps-of_same (sim_fs_of_id z) (sim_fs_of_id-SameSpace z)) (sized_fs z)
          (λ f sign.
            Keeps-bind IsSound _ (fs_create_internal _ name f.total_space)
              (fs_create_internal-Keeps _ name f.total_space sign)
              (λ dst. then_job-Keeps _ env _ (
                Keeps-of_same (sim_fs_clone z (pos dst) s)
                  (sim_fs_clone-SameSpace z (pos dst) s)))))))
