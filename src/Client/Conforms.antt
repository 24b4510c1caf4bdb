-- ===== src/Client/Conforms.antt =====
-- Every request of `Client` (python_binding/lsm/_client.py) is one that a method of `SimPlugin`
-- (plugin/sim_plugin/simulator.py) takes: the two are written apart and must agree in every name.
use mathlib.Core.Path.{subst}
use libstoragemgmt.Base.{
  ℕ, ◌≡◌, refl, String, Bool, true, false, Option, none, some, List, [], ◌∷◌, Bool-cases, inl, inr,
}
use libstoragemgmt.Data.Value.{Value, get}
use libstoragemgmt.Data.Params.{Param, bind}
use libstoragemgmt.Ipc.Raised.{Outcome, ok, err}
use libstoragemgmt.Sim.Plugin.{signature}
use libstoragemgmt.Client.Guards.{
  Call, unless, check_search_key, check_read_pct, is_in, initiator_verify, with_initiator,
  if_verified, check_disks, disks_message, refuse,
}
use libstoragemgmt.Client.Requests.{ClientCall, request}
use libstoragemgmt.Client.Connection.{
  start, close, time_out_set, time_out_get, job_status, job_free, capabilities, plugin_info,
  systems, system_read_cache_pct_update, pools, target_ports, batteries, disks, pool_member_info,
}
use libstoragemgmt.Client.Block.{
  volumes, volume_create, volume_resize, volume_replicate, volume_replicate_range_block_size,
  volume_replicate_range, volume_delete, volume_enable, volume_disable, volume_child_dependency,
  volume_child_dependency_rm,
}
use libstoragemgmt.Client.Raid.{
  volume_raid_info, volume_raid_create_cap_get, volume_raid_create, volume_ident_led_on,
  volume_ident_led_off, volume_cache_info, volume_physical_disk_cache_update,
  volume_write_cache_policy_update, volume_read_cache_policy_update,
}
use libstoragemgmt.Client.Groups.{
  iscsi_chap_auth, volume_mask, volume_unmask, access_groups, access_group_create,
  access_group_delete, access_group_initiator_add, access_group_initiator_delete,
  volumes_accessible_by_access_group, access_groups_granted_to_volume,
}
use libstoragemgmt.Client.Files.{
  fs, fs_delete, fs_resize, fs_create, fs_clone, fs_file_clone, fs_snapshots, fs_snapshot_create,
  fs_snapshot_delete, fs_snapshot_restore, fs_child_dependency, fs_child_dependency_rm, export_auth,
  exports, export_fs, export_remove,
}

-- The plugin has the method, and takes the arguments as they are.
abbrev Binds : Outcome Call → Type 0
Binds (err x) = Unit
Binds (ok c) = (ps : List Param) × (signature c.method ≡ some ps) × (bind ps c.args ≡ ok c.args)

unless-Binds : (b : Bool) (m : String) (c : Call) → Binds (ok c) → Binds (unless b m c)
unfolding unless
unless-Binds true m c h = tt
unless-Binds false m c h = h

check_search_key-Binds :
    (k : Option (List ℕ)) (ks : List String) (c : Call)
    → Binds (ok c)
    → Binds (check_search_key k ks c)
unfolding check_search_key
check_search_key-Binds none ks c h = h
check_search_key-Binds (some []) ks c h = h
check_search_key-Binds (some (x ∷ k)) ks c h = elim (Bool-cases (is_in (x ∷ k) ks)) [
  | inl known ↦ rw known h
  | inr unknown ↦ rw unknown tt
]

check_read_pct-Binds : (v : Value) (c : Call) → Binds (ok c) → Binds (check_read_pct v c)
unfolding check_read_pct
check_read_pct-Binds (Value.num z) c h =
    unless-Binds _ "Invalid read_pct, should be in range 0 - 100" c h
check_read_pct-Binds (Value.bool b) c h = h
check_read_pct-Binds Value.null c h = tt
check_read_pct-Binds (Value.str s) c h = tt
check_read_pct-Binds (Value.list is) c h = tt
check_read_pct-Binds (Value.dict fs) c h = tt
check_read_pct-Binds (Value.obj d fs) c h = tt
check_read_pct-Binds (Value.caps bs) c h = tt
check_read_pct-Binds Value.other c h = tt

if_verified-Binds :
    (s : List ℕ) (call : Value → List ℕ → Call) (o : Option (Value × List ℕ))
    → ((t : Value) (i : List ℕ) → Binds (ok (call t i)))
    → Binds (if_verified s call o)
if_verified-Binds s call none h = tt
if_verified-Binds s call (some (t, i)) h = h t i

with_initiator-Binds :
    (s : List ℕ) (v : Value) (call : Value → List ℕ → Call)
    → ((t : Value) (i : List ℕ) → Binds (ok (call t i)))
    → Binds (with_initiator s v call)
unfolding with_initiator
with_initiator-Binds s v call h = if_verified-Binds s call (initiator_verify s v) h

refuse-Binds : (o : Option String) (c : Call) → Binds (ok c) → Binds (refuse o c)
refuse-Binds none c h = h
refuse-Binds (some m) c h = tt

check_disks-Binds : (v : Value) (n : ℕ) (c : Call) → Binds (ok c) → Binds (check_disks v n c)
unfolding check_disks
check_disks-Binds v n c h = refuse-Binds (disks_message v n) c h

request-Binds : (c : ClientCall) → Binds (request c)
unfolding request signature bind get start close time_out_set time_out_get job_status job_free
    capabilities plugin_info systems system_read_cache_pct_update pools target_ports batteries disks
    pool_member_info volumes volume_create volume_resize volume_replicate
    volume_replicate_range_block_size volume_replicate_range volume_delete volume_enable
    volume_disable volume_child_dependency volume_child_dependency_rm volume_raid_info
    volume_raid_create_cap_get volume_raid_create volume_ident_led_on volume_ident_led_off
    volume_cache_info volume_physical_disk_cache_update volume_write_cache_policy_update
    volume_read_cache_policy_update iscsi_chap_auth volume_mask volume_unmask access_groups
    access_group_create access_group_delete access_group_initiator_add access_group_initiator_delete
    volumes_accessible_by_access_group access_groups_granted_to_volume fs fs_delete fs_resize
    fs_create fs_clone fs_file_clone fs_snapshots fs_snapshot_create fs_snapshot_delete
    fs_snapshot_restore fs_child_dependency fs_child_dependency_rm export_auth exports export_fs
    export_remove
request-Binds (ClientCall.start uri password timeout flags) = (_, refl, refl)
request-Binds (ClientCall.close flags) = (_, refl, refl)
request-Binds (ClientCall.time_out_set ms flags) = (_, refl, refl)
request-Binds (ClientCall.time_out_get flags) = (_, refl, refl)
request-Binds (ClientCall.job_status job_id flags) = (_, refl, refl)
request-Binds (ClientCall.job_free job_id flags) = (_, refl, refl)
request-Binds (ClientCall.capabilities system flags) = (_, refl, refl)
request-Binds (ClientCall.plugin_info flags) = (_, refl, refl)
request-Binds (ClientCall.systems flags) = (_, refl, refl)
request-Binds (ClientCall.system_read_cache_pct_update system read_pct flags) =
    check_read_pct-Binds _ _ (_, refl, refl)
request-Binds (ClientCall.pools search_key search_value flags) =
    check_search_key-Binds _ _ _ (_, refl, refl)
request-Binds (ClientCall.target_ports search_key search_value flags) =
    check_search_key-Binds _ _ _ (_, refl, refl)
request-Binds (ClientCall.batteries search_key search_value flags) =
    check_search_key-Binds _ _ _ (_, refl, refl)
request-Binds (ClientCall.disks search_key search_value flags) =
    check_search_key-Binds _ _ _ (_, refl, refl)
request-Binds (ClientCall.pool_member_info pool flags) = (_, refl, refl)
request-Binds (ClientCall.volumes search_key search_value flags) =
    check_search_key-Binds _ _ _ (_, refl, refl)
request-Binds (ClientCall.volume_create pool volume_name size_bytes provisioning flags) =
    (_, refl, refl)
request-Binds (ClientCall.volume_resize volume new_size_bytes flags) = (_, refl, refl)
request-Binds (ClientCall.volume_replicate pool rep_type volume_src name flags) = (_, refl, refl)
request-Binds (ClientCall.volume_replicate_range_block_size system flags) = (_, refl, refl)
request-Binds (ClientCall.volume_replicate_range rep_type volume_src volume_dest ranges flags) =
    (_, refl, refl)
request-Binds (ClientCall.volume_delete volume flags) = (_, refl, refl)
request-Binds (ClientCall.volume_enable volume flags) = (_, refl, refl)
request-Binds (ClientCall.volume_disable volume flags) = (_, refl, refl)
request-Binds (ClientCall.volume_child_dependency volume flags) = (_, refl, refl)
request-Binds (ClientCall.volume_child_dependency_rm volume flags) = (_, refl, refl)
request-Binds (ClientCall.volume_raid_info volume flags) = (_, refl, refl)
request-Binds (ClientCall.volume_raid_create_cap_get system flags) = (_, refl, refl)
request-Binds (ClientCall.volume_raid_create name raid_type disks_arg strip_size flags) =
    check_disks-Binds _ _ _ (_, refl, refl)
request-Binds (ClientCall.volume_ident_led_on volume flags) = (_, refl, refl)
request-Binds (ClientCall.volume_ident_led_off volume flags) = (_, refl, refl)
request-Binds (ClientCall.volume_cache_info volume flags) = (_, refl, refl)
request-Binds (ClientCall.volume_physical_disk_cache_update volume pdc flags) =
    unless-Binds _ _ _ (_, refl, refl)
request-Binds (ClientCall.volume_write_cache_policy_update volume wcp flags) =
    unless-Binds _ _ _ (_, refl, refl)
request-Binds (ClientCall.volume_read_cache_policy_update volume rcp flags) =
    unless-Binds _ _ _ (_, refl, refl)
request-Binds (ClientCall.iscsi_chap_auth init_id in_user in_password out_user out_password flags) =
    with_initiator-Binds _ _ _ (λ t i. (_, refl, refl))
request-Binds (ClientCall.volume_mask access_group volume flags) = (_, refl, refl)
request-Binds (ClientCall.volume_unmask access_group volume flags) = (_, refl, refl)
request-Binds (ClientCall.access_groups search_key search_value flags) =
    check_search_key-Binds _ _ _ (_, refl, refl)
request-Binds (ClientCall.access_group_create name init_id init_type system flags) =
    with_initiator-Binds _ _ _ (λ t i. (_, refl, refl))
request-Binds (ClientCall.access_group_delete access_group flags) = (_, refl, refl)
request-Binds (ClientCall.access_group_initiator_add access_group init_id init_type flags) =
    with_initiator-Binds _ _ _ (λ t i. (_, refl, refl))
request-Binds (ClientCall.access_group_initiator_delete access_group init_id init_type flags) =
    with_initiator-Binds _ _ _ (λ t i. (_, refl, refl))
request-Binds (ClientCall.volumes_accessible_by_access_group access_group flags) = (_, refl, refl)
request-Binds (ClientCall.access_groups_granted_to_volume volume flags) = (_, refl, refl)
request-Binds (ClientCall.fs search_key search_value flags) =
    check_search_key-Binds _ _ _ (_, refl, refl)
request-Binds (ClientCall.fs_delete fs_arg flags) = (_, refl, refl)
request-Binds (ClientCall.fs_resize fs_arg new_size_bytes flags) = (_, refl, refl)
request-Binds (ClientCall.fs_create pool name size_bytes flags) = (_, refl, refl)
request-Binds (ClientCall.fs_clone src_fs dest_fs_name snapshot flags) = (_, refl, refl)
request-Binds (ClientCall.fs_file_clone fs_arg src_file_name dest_file_name snapshot flags) =
    (_, refl, refl)
request-Binds (ClientCall.fs_snapshots fs_arg flags) = (_, refl, refl)
request-Binds (ClientCall.fs_snapshot_create fs_arg snapshot_name flags) = (_, refl, refl)
request-Binds (ClientCall.fs_snapshot_delete fs_arg snapshot flags) = (_, refl, refl)
request-Binds (ClientCall.fs_snapshot_restore fs_arg snapshot files restore_files all_files flags) =
    (_, refl, refl)
request-Binds (ClientCall.fs_child_dependency fs_arg files flags) = (_, refl, refl)
request-Binds (ClientCall.fs_child_dependency_rm fs_arg files flags) = (_, refl, refl)
request-Binds (ClientCall.export_auth flags) = (_, refl, refl)
request-Binds (ClientCall.exports search_key search_value flags) =
    check_search_key-Binds _ _ _ (_, refl, refl)
request-Binds
      (ClientCall.export_fs fs_id export_path root_list rw_list ro_list anon_uid anon_gid auth_type
        options flags) =
    unless-Binds _ _ _ (_, refl, refl)
request-Binds (ClientCall.export_remove export flags) = (_, refl, refl)

-- Every request that a method of the client makes, whatever its arguments, names a method that SimPlugin has, and
-- has exactly the arguments that the method takes, in their order.
pub request-signature :
    (c : ClientCall) (k : Call)
    → request c ≡ ok k
    → (ps : List Param) × (signature k.method ≡ some ps) × (bind ps k.args ≡ ok k.args)
request-signature c k e = subst Binds e (request-Binds c)
