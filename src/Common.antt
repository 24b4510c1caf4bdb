-- ===== src/Common.antt =====
-- python_binding/lsm/_common.py: the error numbers, and the exceptions that the methods of the
-- simulator raise.
use libstoragemgmt.Base.{Bool, ◌≡◌, refl, ◌⊎◌, inl, inr}

pub data ErrorNumber : Type 0 where
  lib_bug plugin_bug job_started timeout daemon_not_running permission_denied : ErrorNumber
  name_conflict exists_initiator invalid_argument no_state_change : ErrorNumber
  network_connrefused network_hostdown network_error no_memory no_support : ErrorNumber
  is_masked has_child_dependency : ErrorNumber
  not_found_access_group not_found_fs not_found_job not_found_pool not_found_fs_ss : ErrorNumber
  not_found_volume not_found_nfs_export not_found_system not_found_disk : ErrorNumber
  not_licensed no_support_online_change no_support_offline_change : ErrorNumber
  plugin_auth_failed plugin_ipc_fail plugin_socket_permission plugin_not_exist : ErrorNumber
  not_enough_space transport_communication transport_serialization : ErrorNumber
  transport_invalid_arg last_init_in_access_group unsupported_search_key : ErrorNumber
  empty_access_group pool_not_ready disk_not_free : ErrorNumber

-- `LsmError(code, …)`, sqlite3's IntegrityError, its OperationalError (with whether its text is
-- 'database is locked'), and any other exception. The texts of the messages are left out.
pub data Exception : Type 0 where
  lsm_error : ErrorNumber → Exception
  integrity_error : Exception
  operational_error : Bool → Exception
  other_exception : Exception

pub data Result {ℓ} (A : Type ℓ) : Type ℓ where
  ok : A → Result A
  err : Exception → Result A

pub Result-cases {ℓ} :
    {A : Type ℓ} (r : Result A) → ((a : A) × (r ≡ ok a)) ⊎ ((x : Exception) × (r ≡ err x))
Result-cases (ok a) = inl (a, refl)
Result-cases (err x) = inr (x, refl)
