-- ===== src/Sim/Plugin/Files.antt =====
-- The parameters of the methods of `SimPlugin` (plugin/sim_plugin/simulator.py) for the connection, access groups, file systems and exports.
use libstoragemgmt.Base.{pos, false, List, [], ◌∷◌}
use libstoragemgmt.Data.Value.{Value}
use libstoragemgmt.Data.Params.{Param, required, optional}

abbrev pub plugin_register_params : List Param
plugin_register_params =
    required "uri"
    ∷ required "password"
    ∷ required "timeout"
    ∷ optional "flags" (Value.num (pos 0))
    ∷ []

abbrev pub plugin_unregister_params : List Param
plugin_unregister_params = optional "flags" (Value.num (pos 0)) ∷ []

abbrev pub job_status_params : List Param
job_status_params = required "job_id" ∷ optional "flags" (Value.num (pos 0)) ∷ []

abbrev pub job_free_params : List Param
job_free_params = required "job_id" ∷ optional "flags" (Value.num (pos 0)) ∷ []

abbrev pub time_out_set_params : List Param
time_out_set_params = required "ms" ∷ optional "flags" (Value.num (pos 0)) ∷ []

abbrev pub time_out_get_params : List Param
time_out_get_params = optional "flags" (Value.num (pos 0)) ∷ []

abbrev pub plugin_info_params : List Param
plugin_info_params = optional "flags" (Value.num (pos 0)) ∷ []

abbrev pub access_groups_params : List Param
access_groups_params =
    optional "search_key" Value.null
    ∷ optional "search_value" Value.null
    ∷ optional "flags" (Value.num (pos 0))
    ∷ []

abbrev pub access_group_create_params : List Param
access_group_create_params =
    required "name"
    ∷ required "init_id"
    ∷ required "init_type"
    ∷ required "system"
    ∷ optional "flags" (Value.num (pos 0))
    ∷ []

abbrev pub access_group_delete_params : List Param
access_group_delete_params = required "access_group" ∷ optional "flags" (Value.num (pos 0)) ∷ []

abbrev pub access_group_initiator_add_params : List Param
access_group_initiator_add_params =
    required "access_group"
    ∷ required "init_id"
    ∷ required "init_type"
    ∷ optional "flags" (Value.num (pos 0))
    ∷ []

abbrev pub access_group_initiator_delete_params : List Param
access_group_initiator_delete_params =
    required "access_group"
    ∷ required "init_id"
    ∷ required "init_type"
    ∷ optional "flags" (Value.num (pos 0))
    ∷ []

abbrev pub volume_mask_params : List Param
volume_mask_params =
    required "access_group" ∷ required "volume" ∷ optional "flags" (Value.num (pos 0)) ∷ []

abbrev pub volume_unmask_params : List Param
volume_unmask_params =
    required "access_group" ∷ required "volume" ∷ optional "flags" (Value.num (pos 0)) ∷ []

abbrev pub volumes_accessible_by_access_group_params : List Param
volumes_accessible_by_access_group_params =
    required "access_group" ∷ optional "flags" (Value.num (pos 0)) ∷ []

abbrev pub access_groups_granted_to_volume_params : List Param
access_groups_granted_to_volume_params =
    required "volume" ∷ optional "flags" (Value.num (pos 0)) ∷ []

abbrev pub iscsi_chap_auth_params : List Param
iscsi_chap_auth_params =
    required "init_id"
    ∷ required "in_user"
    ∷ required "in_password"
    ∷ required "out_user"
    ∷ required "out_password"
    ∷ optional "flags" (Value.num (pos 0))
    ∷ []

abbrev pub fs_params : List Param
fs_params =
    optional "search_key" Value.null
    ∷ optional "search_value" Value.null
    ∷ optional "flags" (Value.num (pos 0))
    ∷ []

abbrev pub fs_create_params : List Param
fs_create_params =
    required "pool"
    ∷ required "name"
    ∷ required "size_bytes"
    ∷ optional "flags" (Value.num (pos 0))
    ∷ []

abbrev pub fs_delete_params : List Param
fs_delete_params = required "fs" ∷ optional "flags" (Value.num (pos 0)) ∷ []

abbrev pub fs_resize_params : List Param
fs_resize_params =
    required "fs" ∷ required "new_size_bytes" ∷ optional "flags" (Value.num (pos 0)) ∷ []

abbrev pub fs_clone_params : List Param
fs_clone_params =
    required "src_fs"
    ∷ required "dest_fs_name"
    ∷ optional "snapshot" Value.null
    ∷ optional "flags" (Value.num (pos 0))
    ∷ []

abbrev pub fs_file_clone_params : List Param
fs_file_clone_params =
    required "fs"
    ∷ required "src_file_name"
    ∷ required "dest_file_name"
    ∷ optional "snapshot" Value.null
    ∷ optional "flags" (Value.num (pos 0))
    ∷ []

abbrev pub fs_snapshots_params : List Param
fs_snapshots_params = required "fs" ∷ optional "flags" (Value.num (pos 0)) ∷ []

abbrev pub fs_snapshot_create_params : List Param
fs_snapshot_create_params =
    required "fs" ∷ required "snapshot_name" ∷ optional "flags" (Value.num (pos 0)) ∷ []

abbrev pub fs_snapshot_delete_params : List Param
fs_snapshot_delete_params =
    required "fs" ∷ required "snapshot" ∷ optional "flags" (Value.num (pos 0)) ∷ []

abbrev pub fs_snapshot_restore_params : List Param
fs_snapshot_restore_params =
    required "fs"
    ∷ required "snapshot"
    ∷ required "files"
    ∷ required "restore_files"
    ∷ optional "all_files" (Value.bool false)
    ∷ optional "flags" (Value.num (pos 0))
    ∷ []

abbrev pub fs_child_dependency_params : List Param
fs_child_dependency_params =
    required "fs" ∷ required "files" ∷ optional "flags" (Value.num (pos 0)) ∷ []

abbrev pub fs_child_dependency_rm_params : List Param
fs_child_dependency_rm_params =
    required "fs" ∷ required "files" ∷ optional "flags" (Value.num (pos 0)) ∷ []

abbrev pub export_auth_params : List Param
export_auth_params = optional "flags" (Value.num (pos 0)) ∷ []

abbrev pub exports_params : List Param
exports_params =
    optional "search_key" Value.null
    ∷ optional "search_value" Value.null
    ∷ optional "flags" (Value.num (pos 0))
    ∷ []

abbrev pub export_fs_params : List Param
export_fs_params =
    required "fs_id"
    ∷ required "export_path"
    ∷ required "root_list"
    ∷ required "rw_list"
    ∷ required "ro_list"
    ∷ required "anon_uid"
    ∷ required "anon_gid"
    ∷ required "auth_type"
    ∷ required "options"
    ∷ optional "flags" (Value.num (pos 0))
    ∷ []

abbrev pub export_remove_params : List Param
export_remove_params = required "export" ∷ optional "flags" (Value.num (pos 0)) ∷ []
