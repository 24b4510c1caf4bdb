-- ===== src/Client/Requests.antt =====
-- The calls that a client can make (python_binding/lsm/_client.py), and the request of each.
use libstoragemgmt.Base.{ℕ, Option, List}
use libstoragemgmt.Data.Value.{Value}
use libstoragemgmt.Ipc.Raised.{Outcome}
use libstoragemgmt.Client.Guards.{Call}
use libstoragemgmt.Client.Connection
use libstoragemgmt.Client.Block
use libstoragemgmt.Client.Raid
use libstoragemgmt.Client.Groups
use libstoragemgmt.Client.Files

pub data ClientCall : Type 0 where
  start : (uri password timeout flags : Value) → ClientCall
  close : (flags : Value) → ClientCall
  time_out_set : (ms flags : Value) → ClientCall
  time_out_get : (flags : Value) → ClientCall
  job_status : (job_id flags : Value) → ClientCall
  job_free : (job_id flags : Value) → ClientCall
  capabilities : (system flags : Value) → ClientCall
  plugin_info : (flags : Value) → ClientCall
  systems : (flags : Value) → ClientCall
  system_read_cache_pct_update : (system read_pct flags : Value) → ClientCall
  pools : (search_key : Option (List ℕ)) (search_value flags : Value) → ClientCall
  target_ports : (search_key : Option (List ℕ)) (search_value flags : Value) → ClientCall
  batteries : (search_key : Option (List ℕ)) (search_value flags : Value) → ClientCall
  disks : (search_key : Option (List ℕ)) (search_value flags : Value) → ClientCall
  pool_member_info : (pool flags : Value) → ClientCall
  volumes : (search_key : Option (List ℕ)) (search_value flags : Value) → ClientCall
  volume_create : (pool volume_name size_bytes provisioning flags : Value) → ClientCall
  volume_resize : (volume new_size_bytes flags : Value) → ClientCall
  volume_replicate : (pool rep_type volume_src name flags : Value) → ClientCall
  volume_replicate_range_block_size : (system flags : Value) → ClientCall
  volume_replicate_range : (rep_type volume_src volume_dest ranges flags : Value) → ClientCall
  volume_delete : (volume flags : Value) → ClientCall
  volume_enable : (volume flags : Value) → ClientCall
  volume_disable : (volume flags : Value) → ClientCall
  volume_child_dependency : (volume flags : Value) → ClientCall
  volume_child_dependency_rm : (volume flags : Value) → ClientCall
  volume_raid_info : (volume flags : Value) → ClientCall
  volume_raid_create_cap_get : (system flags : Value) → ClientCall
  volume_raid_create :
      (name raid_type : Value) (disks_arg : List Value) (strip_size flags : Value) → ClientCall
  volume_ident_led_on : (volume flags : Value) → ClientCall
  volume_ident_led_off : (volume flags : Value) → ClientCall
  volume_cache_info : (volume flags : Value) → ClientCall
  volume_physical_disk_cache_update : (volume pdc flags : Value) → ClientCall
  volume_write_cache_policy_update : (volume wcp flags : Value) → ClientCall
  volume_read_cache_policy_update : (volume rcp flags : Value) → ClientCall
  iscsi_chap_auth :
      (init_id : List ℕ) (in_user in_password out_user out_password flags : Value) → ClientCall
  volume_mask : (access_group volume flags : Value) → ClientCall
  volume_unmask : (access_group volume flags : Value) → ClientCall
  access_groups : (search_key : Option (List ℕ)) (search_value flags : Value) → ClientCall
  access_group_create :
      (name : Value) (init_id : List ℕ) (init_type system flags : Value) → ClientCall
  access_group_delete : (access_group flags : Value) → ClientCall
  access_group_initiator_add :
      (access_group : Value) (init_id : List ℕ) (init_type flags : Value) → ClientCall
  access_group_initiator_delete :
      (access_group : Value) (init_id : List ℕ) (init_type flags : Value) → ClientCall
  volumes_accessible_by_access_group : (access_group flags : Value) → ClientCall
  access_groups_granted_to_volume : (volume flags : Value) → ClientCall
  fs : (search_key : Option (List ℕ)) (search_value flags : Value) → ClientCall
  fs_delete : (fs_arg flags : Value) → ClientCall
  fs_resize : (fs_arg new_size_bytes flags : Value) → ClientCall
  fs_create : (pool name size_bytes flags : Value) → ClientCall
  fs_clone : (src_fs dest_fs_name snapshot flags : Value) → ClientCall
  fs_file_clone : (fs_arg src_file_name dest_file_name snapshot flags : Value) → ClientCall
  fs_snapshots : (fs_arg flags : Value) → ClientCall
  fs_snapshot_create : (fs_arg snapshot_name flags : Value) → ClientCall
  fs_snapshot_delete : (fs_arg snapshot flags : Value) → ClientCall
  fs_snapshot_restore : (fs_arg snapshot files restore_files all_files flags : Value) → ClientCall
  fs_child_dependency : (fs_arg files flags : Value) → ClientCall
  fs_child_dependency_rm : (fs_arg files flags : Value) → ClientCall
  export_auth : (flags : Value) → ClientCall
  exports : (search_key : Option (List ℕ)) (search_value flags : Value) → ClientCall
  export_fs :
      (fs_id export_path root_list : Value) (rw_list ro_list : List (List ℕ))
      (anon_uid anon_gid auth_type options flags : Value)
      → ClientCall
  export_remove : (export flags : Value) → ClientCall

unfoldable pub request : ClientCall → Outcome Call
request (ClientCall.start uri password timeout flags) = Connection.start uri password timeout flags
request (ClientCall.close flags) = Connection.close flags
request (ClientCall.time_out_set ms flags) = Connection.time_out_set ms flags
request (ClientCall.time_out_get flags) = Connection.time_out_get flags
request (ClientCall.job_status job_id flags) = Connection.job_status job_id flags
request (ClientCall.job_free job_id flags) = Connection.job_free job_id flags
request (ClientCall.capabilities system flags) = Connection.capabilities system flags
request (ClientCall.plugin_info flags) = Connection.plugin_info flags
request (ClientCall.systems flags) = Connection.systems flags
request (ClientCall.system_read_cache_pct_update system read_pct flags) =
    Connection.system_read_cache_pct_update system read_pct flags
request (ClientCall.pools search_key search_value flags) =
    Connection.pools search_key search_value flags
request (ClientCall.target_ports search_key search_value flags) =
    Connection.target_ports search_key search_value flags
request (ClientCall.batteries search_key search_value flags) =
    Connection.batteries search_key search_value flags
request (ClientCall.disks search_key search_value flags) =
    Connection.disks search_key search_value flags
request (ClientCall.pool_member_info pool flags) = Connection.pool_member_info pool flags
request (ClientCall.volumes search_key search_value flags) =
    Block.volumes search_key search_value flags
request (ClientCall.volume_create pool volume_name size_bytes provisioning flags) =
    Block.volume_create pool volume_name size_bytes provisioning flags
request (ClientCall.volume_resize volume new_size_bytes flags) =
    Block.volume_resize volume new_size_bytes flags
request (ClientCall.volume_replicate pool rep_type volume_src name flags) =
    Block.volume_replicate pool rep_type volume_src name flags
request (ClientCall.volume_replicate_range_block_size system flags) =
    Block.volume_replicate_range_block_size system flags
request (ClientCall.volume_replicate_range rep_type volume_src volume_dest ranges flags) =
    Block.volume_replicate_range rep_type volume_src volume_dest ranges flags
request (ClientCall.volume_delete volume flags) = Block.volume_delete volume flags
request (ClientCall.volume_enable volume flags) = Block.volume_enable volume flags
request (ClientCall.volume_disable volume flags) = Block.volume_disable volume flags
request (ClientCall.volume_child_dependency volume flags) =
    Block.volume_child_dependency volume flags
request (ClientCall.volume_child_dependency_rm volume flags) =
    Block.volume_child_dependency_rm volume flags
request (ClientCall.volume_raid_info volume flags) = Raid.volume_raid_info volume flags
request (ClientCall.volume_raid_create_cap_get system flags) =
    Raid.volume_raid_create_cap_get system flags
request (ClientCall.volume_raid_create name raid_type disks_arg strip_size flags) =
    Raid.volume_raid_create name raid_type disks_arg strip_size flags
request (ClientCall.volume_ident_led_on volume flags) = Raid.volume_ident_led_on volume flags
request (ClientCall.volume_ident_led_off volume flags) = Raid.volume_ident_led_off volume flags
request (ClientCall.volume_cache_info volume flags) = Raid.volume_cache_info volume flags
request (ClientCall.volume_physical_disk_cache_update volume pdc flags) =
    Raid.volume_physical_disk_cache_update volume pdc flags
request (ClientCall.volume_write_cache_policy_update volume wcp flags) =
    Raid.volume_write_cache_policy_update volume wcp flags
request (ClientCall.volume_read_cache_policy_update volume rcp flags) =
    Raid.volume_read_cache_policy_update volume rcp flags
request (ClientCall.iscsi_chap_auth init_id in_user in_password out_user out_password flags) =
    Groups.iscsi_chap_auth init_id in_user in_password out_user out_password flags
request (ClientCall.volume_mask access_group volume flags) =
    Groups.volume_mask access_group volume flags
request (ClientCall.volume_unmask access_group volume flags) =
    Groups.volume_unmask access_group volume flags
request (ClientCall.access_groups search_key search_value flags) =
    Groups.access_groups search_key search_value flags
request (ClientCall.access_group_create name init_id init_type system flags) =
    Groups.access_group_create name init_id init_type system flags
request (ClientCall.access_group_delete access_group flags) =
    Groups.access_group_delete access_group flags
request (ClientCall.access_group_initiator_add access_group init_id init_type flags) =
    Groups.access_group_initiator_add access_group init_id init_type flags
request (ClientCall.access_group_initiator_delete access_group init_id init_type flags) =
    Groups.access_group_initiator_delete access_group init_id init_type flags
request (ClientCall.volumes_accessible_by_access_group access_group flags) =
    Groups.volumes_accessible_by_access_group access_group flags
request (ClientCall.access_groups_granted_to_volume volume flags) =
    Groups.access_groups_granted_to_volume volume flags
request (ClientCall.fs search_key search_value flags) = Files.fs search_key search_value flags
request (ClientCall.fs_delete fs_arg flags) = Files.fs_delete fs_arg flags
request (ClientCall.fs_resize fs_arg new_size_bytes flags) =
    Files.fs_resize fs_arg new_size_bytes flags
request (ClientCall.fs_create pool name size_bytes flags) =
    Files.fs_create pool name size_bytes flags
request (ClientCall.fs_clone src_fs dest_fs_name snapshot flags) =
    Files.fs_clone src_fs dest_fs_name snapshot flags
request (ClientCall.fs_file_clone fs_arg src_file_name dest_file_name snapshot flags) =
    Files.fs_file_clone fs_arg src_file_name dest_file_name snapshot flags
request (ClientCall.fs_snapshots fs_arg flags) = Files.fs_snapshots fs_arg flags
request (ClientCall.fs_snapshot_create fs_arg snapshot_name flags) =
    Files.fs_snapshot_create fs_arg snapshot_name flags
request (ClientCall.fs_snapshot_delete fs_arg snapshot flags) =
    Files.fs_snapshot_delete fs_arg snapshot flags
request (ClientCall.fs_snapshot_restore fs_arg snapshot files restore_files all_files flags) =
    Files.fs_snapshot_restore fs_arg snapshot files restore_files all_files flags
request (ClientCall.fs_child_dependency fs_arg files flags) =
    Files.fs_child_dependency fs_arg files flags
request (ClientCall.fs_child_dependency_rm fs_arg files flags) =
    Files.fs_child_dependency_rm fs_arg files flags
request (ClientCall.export_auth flags) = Files.export_auth flags
request (ClientCall.exports search_key search_value flags) =
    Files.exports search_key search_value flags
request
      (ClientCall.export_fs fs_id export_path root_list rw_list ro_list anon_uid anon_gid auth_type
        options flags) =
    Files.export_fs fs_id export_path root_list rw_list ro_list anon_uid anon_gid auth_type options
      flags
request (ClientCall.export_remove export flags) = Files.export_remove export flags
