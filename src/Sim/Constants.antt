-- ===== src/Sim/Constants.antt =====
-- Class constants of python_binding/lsm/_data.py and of `BackStore` in
-- plugin/sim_plugin/simarray.py.
use libstoragemgmt.Base.{ℕ, ◌*◌, List, [], ◌∷◌}

-- Volume.RAID_TYPE_*
pub data RaidType : Type 0 where
  unknown raid0 raid1 raid3 raid4 raid5 raid6 raid10 raid15 raid16 : RaidType
  raid50 raid60 raid51 raid61 jbod mixed other : RaidType

-- Pool.MEMBER_TYPE_*
pub data MemberType : Type 0 where
  member_unknown member_other member_disk member_pool : MemberType

abbrev pub unsupported_volume_grow : ℕ
unsupported_volume_grow = 1

abbrev pub unsupported_volume_shrink : ℕ
unsupported_volume_shrink = 2

abbrev pub element_type_volume : ℕ
element_type_volume = 4

abbrev pub admin_state_disabled : ℕ
admin_state_disabled = 0

abbrev pub admin_state_enabled : ℕ
admin_state_enabled = 1

-- Volume.REPLICATE_*
pub data ReplicateType : Type 0 where
  replicate_unknown clone copy mirror_sync mirror_async : ReplicateType

abbrev pub write_cache_policy_auto : ℕ
write_cache_policy_auto = 3

abbrev pub read_cache_policy_enabled : ℕ
read_cache_policy_enabled = 2

abbrev pub physical_disk_cache_disabled : ℕ
physical_disk_cache_disabled = 3

-- AccessGroup.INIT_TYPE_*
abbrev pub init_type_unknown : ℕ
init_type_unknown = 0

abbrev pub init_type_wwpn : ℕ
init_type_wwpn = 2

abbrev pub init_type_iscsi_iqn : ℕ
init_type_iscsi_iqn = 5

abbrev pub init_type_mixed : ℕ
init_type_mixed = 7

abbrev pub pool_status_ok : ℕ
pool_status_ok = 2

abbrev pub blk_size : ℕ
blk_size = 512

abbrev pub default_strip_size : ℕ
default_strip_size = 128 * 1024

abbrev pub supported_vcr_raid_types : List RaidType
supported_vcr_raid_types =
    RaidType.raid0 ∷ RaidType.raid1 ∷ RaidType.raid5 ∷ RaidType.raid6 ∷ RaidType.raid10
    ∷ RaidType.raid50 ∷ RaidType.raid60 ∷ []
