-- ===== src/Sim/Plugin/Arrays.antt =====
-- The parameters of the methods of `SimPlugin` (plugin/sim_plugin/simulator.py) for systems, pools, disks and volumes.
use libstoragemgmt.Base.{pos, List, [], ◌∷◌}
use libstoragemgmt.Data.Value.{Value}
use libstoragemgmt.Data.Params.{Param, required, optional}

abbrev pub capabilities_params : List Param
capabilities_params = required "system" ∷ optional "flags" (Value.num (pos 0)) ∷ []

abbrev pub systems_params : List Param
systems_params = optional "flags" (Value.num (pos 0)) ∷ []

abbrev pub system_read_cache_pct_update_params : List Param
system_read_cache_pct_update_params =
    required "system" ∷ required "read_pct" ∷ optional "flags" (Value.num (pos 0)) ∷ []

abbrev pub pools_params : List Param
pools_params =
    optional "search_key" Value.null
    ∷ optional "search_value" Value.null
    ∷ optional "flags" (Value.num (pos 0))
    ∷ []

abbrev pub volumes_params : List Param
volumes_params =
    optional "search_key" Value.null
    ∷ optional "search_value" Value.null
    ∷ optional "flags" (Value.num (pos 0))
    ∷ []

abbrev pub disks_params : List Param
disks_params =
    optional "search_key" Value.null
    ∷ optional "search_value" Value.null
    ∷ optional "flags" (Value.num (pos 0))
    ∷ []

abbrev pub volume_create_params : List Param
volume_create_params =
    required "pool"
    ∷ required "volume_name"
    ∷ required "size_bytes"
    ∷ required "provisioning"
    ∷ optional "flags" (Value.num (pos 0))
    ∷ []

abbrev pub volume_delete_params : List Param
volume_delete_params = required "volume" ∷ optional "flags" (Value.num (pos 0)) ∷ []

abbrev pub volume_resize_params : List Param
volume_resize_params =
    required "volume" ∷ required "new_size_bytes" ∷ optional "flags" (Value.num (pos 0)) ∷ []

abbrev pub volume_replicate_params : List Param
volume_replicate_params =
    required "pool"
    ∷ required "rep_type"
    ∷ required "volume_src"
    ∷ required "name"
    ∷ optional "flags" (Value.num (pos 0))
    ∷ []

abbrev pub volume_replicate_range_block_size_params : List Param
volume_replicate_range_block_size_params =
    required "system" ∷ optional "flags" (Value.num (pos 0)) ∷ []

abbrev pub volume_replicate_range_params : List Param
volume_replicate_range_params =
    required "rep_type"
    ∷ required "volume_src"
    ∷ required "volume_dest"
    ∷ required "ranges"
    ∷ optional "flags" (Value.num (pos 0))
    ∷ []

abbrev pub volume_enable_params : List Param
volume_enable_params = required "volume" ∷ optional "flags" (Value.num (pos 0)) ∷ []

abbrev pub volume_disable_params : List Param
volume_disable_params = required "volume" ∷ optional "flags" (Value.num (pos 0)) ∷ []

abbrev pub volume_child_dependency_params : List Param
volume_child_dependency_params = required "volume" ∷ optional "flags" (Value.num (pos 0)) ∷ []

abbrev pub volume_child_dependency_rm_params : List Param
volume_child_dependency_rm_params = required "volume" ∷ optional "flags" (Value.num (pos 0)) ∷ []

abbrev pub target_ports_params : List Param
target_ports_params =
    optional "search_key" Value.null
    ∷ optional "search_value" Value.null
    ∷ optional "flags" (Value.num (pos 0))
    ∷ []

abbrev pub volume_raid_info_params : List Param
volume_raid_info_params = required "volume" ∷ optional "flags" (Value.num (pos 0)) ∷ []

abbrev pub pool_member_info_params : List Param
pool_member_info_params = required "pool" ∷ optional "flags" (Value.num (pos 0)) ∷ []

abbrev pub volume_raid_create_cap_get_params : List Param
volume_raid_create_cap_get_params = required "system" ∷ optional "flags" (Value.num (pos 0)) ∷ []

abbrev pub volume_raid_create_params : List Param
volume_raid_create_params =
    required "name"
    ∷ required "raid_type"
    ∷ required "disks"
    ∷ required "strip_size"
    ∷ optional "flags" (Value.num (pos 0))
    ∷ []

abbrev pub volume_ident_led_on_params : List Param
volume_ident_led_on_params = required "volume" ∷ optional "flags" (Value.num (pos 0)) ∷ []

abbrev pub volume_ident_led_off_params : List Param
volume_ident_led_off_params = required "volume" ∷ optional "flags" (Value.num (pos 0)) ∷ []

abbrev pub batteries_params : List Param
batteries_params =
    optional "search_key" Value.null
    ∷ optional "search_value" Value.null
    ∷ optional "flags" (Value.num (pos 0))
    ∷ []

abbrev pub volume_cache_info_params : List Param
volume_cache_info_params = required "volume" ∷ optional "flags" (Value.num (pos 0)) ∷ []

abbrev pub volume_physical_disk_cache_update_params : List Param
volume_physical_disk_cache_update_params =
    required "volume" ∷ required "pdc" ∷ optional "flags" (Value.num (pos 0)) ∷ []

abbrev pub volume_read_cache_policy_update_params : List Param
volume_read_cache_policy_update_params =
    required "volume" ∷ required "rcp" ∷ optional "flags" (Value.num (pos 0)) ∷ []

abbrev pub volume_write_cache_policy_update_params : List Param
volume_write_cache_policy_update_params =
    required "volume" ∷ required "wcp" ∷ optional "flags" (Value.num (pos 0)) ∷ []
