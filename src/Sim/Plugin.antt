-- ===== src/Sim/Plugin.antt =====
-- `SimPlugin` of plugin/sim_plugin/simulator.py: the methods that a request can name, with their parameters.
mod Arrays
mod Files
pub mod Search
use libstoragemgmt.Base.{String, Option, none, some, List, [], ◌∷◌, str_eq, if◌then◌else◌}
use libstoragemgmt.Data.Params.{Param}
use libstoragemgmt.Sim.Plugin.Arrays.{
  capabilities_params, systems_params, system_read_cache_pct_update_params, pools_params,
  volumes_params, disks_params, volume_create_params, volume_delete_params, volume_resize_params,
  volume_replicate_params, volume_replicate_range_block_size_params, volume_replicate_range_params,
  volume_enable_params, volume_disable_params, volume_child_dependency_params,
  volume_child_dependency_rm_params, target_ports_params, volume_raid_info_params,
  pool_member_info_params, volume_raid_create_cap_get_params, volume_raid_create_params,
  volume_ident_led_on_params, volume_ident_led_off_params, batteries_params,
  volume_cache_info_params, volume_physical_disk_cache_update_params,
  volume_read_cache_policy_update_params, volume_write_cache_policy_update_params,
}
use libstoragemgmt.Sim.Plugin.Files.{
  plugin_register_params, plugin_unregister_params, job_status_params, job_free_params,
  time_out_set_params, time_out_get_params, plugin_info_params, access_groups_params,
  access_group_create_params, access_group_delete_params, access_group_initiator_add_params,
  access_group_initiator_delete_params, volume_mask_params, volume_unmask_params,
  volumes_accessible_by_access_group_params, access_groups_granted_to_volume_params,
  iscsi_chap_auth_params, fs_params, fs_create_params, fs_delete_params, fs_resize_params,
  fs_clone_params, fs_file_clone_params, fs_snapshots_params, fs_snapshot_create_params,
  fs_snapshot_delete_params, fs_snapshot_restore_params, fs_child_dependency_params,
  fs_child_dependency_rm_params, export_auth_params, exports_params, export_fs_params,
  export_remove_params,
}

abbrev methods : List (String × List Param)
methods =
    ("plugin_register", plugin_register_params)
    ∷ ("plugin_unregister", plugin_unregister_params)
    ∷ ("job_status", job_status_params)
    ∷ ("job_free", job_free_params)
    ∷ ("time_out_set", time_out_set_params)
    ∷ ("time_out_get", time_out_get_params)
    ∷ ("capabilities", capabilities_params)
    ∷ ("plugin_info", plugin_info_params)
    ∷ ("systems", systems_params)
    ∷ ("system_read_cache_pct_update", system_read_cache_pct_update_params)
    ∷ ("pools", pools_params)
    ∷ ("volumes", volumes_params)
    ∷ ("disks", disks_params)
    ∷ ("volume_create", volume_create_params)
    ∷ ("volume_delete", volume_delete_params)
    ∷ ("volume_resize", volume_resize_params)
    ∷ ("volume_replicate", volume_replicate_params)
    ∷ ("volume_replicate_range_block_size", volume_replicate_range_block_size_params)
    ∷ ("volume_replicate_range", volume_replicate_range_params)
    ∷ ("volume_enable", volume_enable_params)
    ∷ ("volume_disable", volume_disable_params)
    ∷ ("access_groups", access_groups_params)
    ∷ ("access_group_create", access_group_create_params)
    ∷ ("access_group_delete", access_group_delete_params)
    ∷ ("access_group_initiator_add", access_group_initiator_add_params)
    ∷ ("access_group_initiator_delete", access_group_initiator_delete_params)
    ∷ ("volume_mask", volume_mask_params)
    ∷ ("volume_unmask", volume_unmask_params)
    ∷ ("volumes_accessible_by_access_group", volumes_accessible_by_access_group_params)
    ∷ ("access_groups_granted_to_volume", access_groups_granted_to_volume_params)
    ∷ ("iscsi_chap_auth", iscsi_chap_auth_params)
    ∷ ("volume_child_dependency", volume_child_dependency_params)
    ∷ ("volume_child_dependency_rm", volume_child_dependency_rm_params)
    ∷ ("fs", fs_params)
    ∷ ("fs_create", fs_create_params)
    ∷ ("fs_delete", fs_delete_params)
    ∷ ("fs_resize", fs_resize_params)
    ∷ ("fs_clone", fs_clone_params)
    ∷ ("fs_file_clone", fs_file_clone_params)
    ∷ ("fs_snapshots", fs_snapshots_params)
    ∷ ("fs_snapshot_create", fs_snapshot_create_params)
    ∷ ("fs_snapshot_delete", fs_snapshot_delete_params)
    ∷ ("fs_snapshot_restore", fs_snapshot_restore_params)
    ∷ ("fs_child_dependency", fs_child_dependency_params)
    ∷ ("fs_child_dependency_rm", fs_child_dependency_rm_params)
    ∷ ("export_auth", export_auth_params)
    ∷ ("exports", exports_params)
    ∷ ("export_fs", export_fs_params)
    ∷ ("export_remove", export_remove_params)
    ∷ ("target_ports", target_ports_params)
    ∷ ("volume_raid_info", volume_raid_info_params)
    ∷ ("pool_member_info", pool_member_info_params)
    ∷ ("volume_raid_create_cap_get", volume_raid_create_cap_get_params)
    ∷ ("volume_raid_create", volume_raid_create_params)
    ∷ ("volume_ident_led_on", volume_ident_led_on_params)
    ∷ ("volume_ident_led_off", volume_ident_led_off_params)
    ∷ ("batteries", batteries_params)
    ∷ ("volume_cache_info", volume_cache_info_params)
    ∷ ("volume_physical_disk_cache_update", volume_physical_disk_cache_update_params)
    ∷ ("volume_read_cache_policy_update", volume_read_cache_policy_update_params)
    ∷ ("volume_write_cache_policy_update", volume_write_cache_policy_update_params)
    ∷ []

find : String → List (String × List Param) → Option (List Param)
find k [] = none
find k ((j, ps) ∷ rest) = let later = find k rest in if str_eq j k then some ps else later

-- `hasattr(plugin, method)`, with the method's parameters less `self`
unfoldable pub signature : String → Option (List Param)
unfolding find
signature method = find method methods
