-- ===== src/Sim/Raid.antt =====
-- `PoolRAID` of plugin/sim_plugin/simarray.py: the disk counts that a RAID type takes, and how many
-- of the disks hold data.
pub mod Bounds
use libstoragemgmt.Base.{
  ℕ, ◌-◌, ◌/◌, ◌%◌, Bool, true, false, ◌&&◌, Option, none, some, ltb, leb, ◌==◌,
}
use libstoragemgmt.Common.{ErrorNumber, lsm_error, Result, ok, err}
use libstoragemgmt.Sim.Constants.{RaidType}

-- `_RAID_DISK_CHK`; `none` stands for a type that is no key of it.
unfoldable pub raid_disk_chk : RaidType → ℕ → Option Bool
raid_disk_chk RaidType.jbod x = some (ltb 0 x)
raid_disk_chk RaidType.raid0 x = some (ltb 0 x)
raid_disk_chk RaidType.raid1 x = some (x == 2)
raid_disk_chk RaidType.raid3 x = some (leb 3 x)
raid_disk_chk RaidType.raid4 x = some (leb 3 x)
raid_disk_chk RaidType.raid5 x = some (leb 3 x)
raid_disk_chk RaidType.raid6 x = some (leb 4 x)
raid_disk_chk RaidType.raid10 x = some (leb 4 x && x % 2 == 0)
raid_disk_chk RaidType.raid15 x = some (leb 6 x && x % 2 == 0)
raid_disk_chk RaidType.raid16 x = some (leb 8 x && x % 2 == 0)
raid_disk_chk RaidType.raid50 x = some (leb 6 x && x % 2 == 0)
raid_disk_chk RaidType.raid60 x = some (leb 8 x && x % 2 == 0)
raid_disk_chk RaidType.raid51 x = some (leb 6 x && x % 2 == 0)
raid_disk_chk RaidType.raid61 x = some (leb 8 x && x % 2 == 0)
raid_disk_chk _ x = none

-- `_RAID_PARITY_DISK_COUNT_FUNC`, which is called only with a count that passed the check, so that
-- no difference is below 0. The types that are no key of it take the last clause.
unfoldable pub raid_data_disks : RaidType → ℕ → ℕ
raid_data_disks RaidType.raid1 x = 1
raid_data_disks RaidType.raid3 x = x - 1
raid_data_disks RaidType.raid4 x = x - 1
raid_data_disks RaidType.raid5 x = x - 1
raid_data_disks RaidType.raid6 x = x - 2
raid_data_disks RaidType.raid10 x = x / 2
raid_data_disks RaidType.raid15 x = x / 2 - 1
raid_data_disks RaidType.raid16 x = x / 2 - 2
raid_data_disks RaidType.raid50 x = x - 2
raid_data_disks RaidType.raid60 x = x - 4
raid_data_disks RaidType.raid51 x = x / 2 - 1
raid_data_disks RaidType.raid61 x = x / 2 - 2
raid_data_disks _ x = x

legal : RaidType → ℕ → Option Bool → Result ℕ
legal t n none = err (lsm_error ErrorNumber.plugin_bug)
legal t n (some false) = err (lsm_error ErrorNumber.plugin_bug)
legal t n (some true) = ok (raid_data_disks t n)

unfoldable pub data_disk_count : RaidType → ℕ → Result ℕ
unfolding raid_disk_chk raid_data_disks legal
data_disk_count t n = legal t n (raid_disk_chk t n)

-- Levels that hold a second copy of everything.
abbrev IsMirrored : RaidType → Type 0
IsMirrored RaidType.raid1 = Unit
IsMirrored RaidType.raid10 = Unit
IsMirrored RaidType.raid15 = Unit
IsMirrored RaidType.raid16 = Unit
IsMirrored RaidType.raid51 = Unit
IsMirrored RaidType.raid61 = Unit
IsMirrored _ = ⊥

-- How many whole disks a level with parity gives up, at the least.
abbrev pub parity_disks : RaidType → ℕ
parity_disks RaidType.raid3 = 1
parity_disks RaidType.raid4 = 1
parity_disks RaidType.raid5 = 1
parity_disks RaidType.raid6 = 2
parity_disks RaidType.raid50 = 2
parity_disks RaidType.raid60 = 4
parity_disks RaidType.raid15 = 1
parity_disks RaidType.raid51 = 1
parity_disks RaidType.raid16 = 2
parity_disks RaidType.raid61 = 2
parity_disks _ = 0

-- how many copies of the data a level holds
abbrev pub copies : RaidType → ℕ
copies RaidType.raid1 = 2
copies RaidType.raid10 = 2
copies RaidType.raid15 = 2
copies RaidType.raid16 = 2
copies RaidType.raid51 = 2
copies RaidType.raid61 = 2
copies _ = 1
