-- ===== src/Data/Params.antt =====
-- The parameters of the data classes of python_binding/lsm/_data.py, by their names without the underscore,
-- and how Python binds keyword arguments to them.
use libstoragemgmt.Base.{
  negsuc, String, Bool, true, false, ◌&&◌, ◌||◌, Option, none, some, List, [], ◌∷◌, str_eq,
  if◌then◌else◌,
}
use libstoragemgmt.Data.Value.{
  Class, disk, volume, system, pool, file_system, fs_snapshot, nfs_export, block_range,
  access_group, target_port, battery, Value, Fields, end, field, get,
}
use libstoragemgmt.Ipc.Raised.{other_error, Outcome, ok, err}

-- a parameter, with its default if it has one
pub data Param : Type 0 where
  required : String → Param
  optional : String → Value → Param

abbrev empty : Value
empty = Value.str []

-- RPM_NO_SUPPORT, LINK_TYPE_NO_SUPPORT, READ_CACHE_PCT_NO_SUPPORT and MODE_NO_SUPPORT
abbrev pub no_support : Value
no_support = Value.num (negsuc 1)

abbrev plugin_data_last : List Param
plugin_data_last = optional "plugin_data" Value.null ∷ []

abbrev disk_params : List Param
disk_params =
    required "id"
    ∷ required "name"
    ∷ required "disk_type"
    ∷ required "block_size"
    ∷ required "num_of_blocks"
    ∷ required "status"
    ∷ required "system_id"
    ∷ optional "plugin_data" Value.null
    ∷ optional "vpd83" empty
    ∷ optional "location" empty
    ∷ optional "rpm" no_support
    ∷ optional "link_type" no_support
    ∷ []

abbrev volume_params : List Param
volume_params =
    required "id"
    ∷ required "name"
    ∷ required "vpd83"
    ∷ required "block_size"
    ∷ required "num_of_blocks"
    ∷ required "admin_state"
    ∷ required "system_id"
    ∷ required "pool_id"
    ∷ plugin_data_last

abbrev system_params : List Param
system_params =
    required "id"
    ∷ required "name"
    ∷ required "status"
    ∷ required "status_info"
    ∷ optional "plugin_data" Value.null
    ∷ optional "fw_version" empty
    ∷ optional "mode" Value.null
    ∷ optional "read_cache_pct" Value.null
    ∷ []

abbrev pool_params : List Param
pool_params =
    required "id"
    ∷ required "name"
    ∷ required "element_type"
    ∷ required "unsupported_actions"
    ∷ required "total_space"
    ∷ required "free_space"
    ∷ required "status"
    ∷ required "status_info"
    ∷ required "system_id"
    ∷ plugin_data_last

abbrev file_system_params : List Param
file_system_params =
    required "id"
    ∷ required "name"
    ∷ required "total_space"
    ∷ required "free_space"
    ∷ required "pool_id"
    ∷ required "system_id"
    ∷ plugin_data_last

abbrev fs_snapshot_params : List Param
fs_snapshot_params = required "id" ∷ required "name" ∷ required "ts" ∷ plugin_data_last

abbrev nfs_export_params : List Param
nfs_export_params =
    required "id"
    ∷ required "fs_id"
    ∷ required "export_path"
    ∷ required "auth"
    ∷ required "root"
    ∷ required "rw"
    ∷ required "ro"
    ∷ required "anonuid"
    ∷ required "anongid"
    ∷ required "options"
    ∷ plugin_data_last

abbrev block_range_params : List Param
block_range_params = required "src_block" ∷ required "dest_block" ∷ required "block_count" ∷ []

abbrev access_group_params : List Param
access_group_params =
    required "id"
    ∷ required "name"
    ∷ required "init_ids"
    ∷ required "init_type"
    ∷ required "system_id"
    ∷ plugin_data_last

abbrev target_port_params : List Param
target_port_params =
    required "id"
    ∷ required "port_type"
    ∷ required "service_address"
    ∷ required "network_address"
    ∷ required "physical_address"
    ∷ required "physical_name"
    ∷ required "system_id"
    ∷ plugin_data_last

abbrev battery_params : List Param
battery_params =
    required "id"
    ∷ required "name"
    ∷ required "type"
    ∷ required "status"
    ∷ required "system_id"
    ∷ plugin_data_last

-- the parameters of `__init__`
unfoldable pub params : Class → List Param
params disk = disk_params
params volume = volume_params
params system = system_params
params pool = pool_params
params file_system = file_system_params
params fs_snapshot = fs_snapshot_params
params nfs_export = nfs_export_params
params block_range = block_range_params
params access_group = access_group_params
params target_port = target_port_params
params battery = battery_params

is_param : String → List Param → Bool
is_param k [] = false
is_param k (required j ∷ ps) = str_eq j k || is_param k ps
is_param k (optional j v ∷ ps) = str_eq j k || is_param k ps

all_params : Fields → List Param → Bool
unfolding is_param
all_params end ps = true
all_params (field k v fs) ps = is_param k ps && all_params fs ps

abbrev with_field : String → Option Value → Outcome Fields → Outcome Fields
with_field k (some v) (ok fs) = ok (field k v fs)
with_field k (some v) (err x) = err x
with_field k none rest = err other_error

abbrev pub or_default : Option Value → Value → Value
or_default none d = d
or_default (some v) d = v

arguments : List Param → Fields → Outcome Fields
arguments [] kwargs = ok end
arguments (required k ∷ ps) kwargs = with_field k (get k kwargs) (arguments ps kwargs)
arguments (optional k d ∷ ps) kwargs =
    with_field k (some (or_default (get k kwargs) d)) (arguments ps kwargs)

-- Python's binding of keyword arguments: a TypeError for one that no parameter has, and for a parameter
-- without a default that none has.
unfoldable pub bind : List Param → Fields → Outcome Fields
unfolding all_params arguments
bind ps kwargs = if all_params kwargs ps then arguments ps kwargs else err other_error
