-- ===== src/Client/Disks.antt =====
-- The counts of disks that `Client.volume_raid_create` (python_binding/lsm/_client.py) refuses, against
-- those that `PoolRAID` of the simulated array refuses (plugin/sim_plugin/simarray.py).
use mathlib.Core.Path.{subst}
use libstoragemgmt.Base.{String, ℕ, pos, ◌≡◌, refl, ◌↔◌, true, Option, none, some, arith}
use libstoragemgmt.Data.Value.{Value}
use libstoragemgmt.Ipc.Raised.{ok}
use libstoragemgmt.Client.Guards.{Call, check_disks, disks_message, is_num, refuse}
use libstoragemgmt.Sim.Constants.{RaidType}
use libstoragemgmt.Sim.Raid.{raid_disk_chk}

-- Volume.RAID_TYPE_* of the types that `volume_raid_create_cap_get` reports
unfoldable pub raid_number : RaidType → Option ℕ
raid_number RaidType.raid0 = some 0
raid_number RaidType.raid1 = some 1
raid_number RaidType.raid5 = some 5
raid_number RaidType.raid6 = some 6
raid_number RaidType.raid10 = some 10
raid_number RaidType.raid50 = some 50
raid_number RaidType.raid60 = some 60
raid_number _ = none

-- The client and the array agree on one type.
abbrev Agrees : RaidType → Option ℕ → ℕ → Call → Type 0
Agrees t none n c = Unit
Agrees t (some k) n c =
    (check_disks (Value.num (pos k)) n c ≡ ok c) ↔ (raid_disk_chk t n ≡ some true)

refuse_iff : (o : Option String) (c : Call) → (refuse o c ≡ ok c) ↔ (o ≡ none)
refuse_iff none c = (λ h. refl, λ h. refl)
refuse_iff (some m) c = (λ h. cc, λ h. cc)

raid0_agrees :
    (n : ℕ)
    → (disks_message (Value.num (pos 0)) n ≡ none) ↔ (raid_disk_chk RaidType.raid0 n ≡ some true)
unfolding disks_message raid_disk_chk is_num
raid0_agrees n = ground arith

raid1_agrees :
    (n : ℕ)
    → (disks_message (Value.num (pos 1)) n ≡ none) ↔ (raid_disk_chk RaidType.raid1 n ≡ some true)
unfolding disks_message raid_disk_chk is_num
raid1_agrees n = ground arith

raid5_agrees :
    (n : ℕ)
    → (disks_message (Value.num (pos 5)) n ≡ none) ↔ (raid_disk_chk RaidType.raid5 n ≡ some true)
unfolding disks_message raid_disk_chk is_num
raid5_agrees n = ground arith

raid6_agrees :
    (n : ℕ)
    → (disks_message (Value.num (pos 6)) n ≡ none) ↔ (raid_disk_chk RaidType.raid6 n ≡ some true)
unfolding disks_message raid_disk_chk is_num
raid6_agrees n = ground arith

raid10_agrees :
    (n : ℕ)
    → (disks_message (Value.num (pos 10)) n ≡ none) ↔ (raid_disk_chk RaidType.raid10 n ≡ some true)
unfolding disks_message raid_disk_chk is_num
raid10_agrees n = ground arith

raid50_agrees :
    (n : ℕ)
    → (disks_message (Value.num (pos 50)) n ≡ none) ↔ (raid_disk_chk RaidType.raid50 n ≡ some true)
unfolding disks_message raid_disk_chk is_num
raid50_agrees n = ground arith

raid60_agrees :
    (n : ℕ)
    → (disks_message (Value.num (pos 60)) n ≡ none) ↔ (raid_disk_chk RaidType.raid60 n ≡ some true)
unfolding disks_message raid_disk_chk is_num
raid60_agrees n = ground arith

agree :
    (t : RaidType) (k n : ℕ) (c : Call)
    → (disks_message (Value.num (pos k)) n ≡ none) ↔ (raid_disk_chk t n ≡ some true)
    → Agrees t (some k) n c
unfolding check_disks
agree t k n c h =
    let r = refuse_iff (disks_message (Value.num (pos k)) n) c in
    (λ e. h.0 (r.0 e), λ e. r.1 (h.1 e))

every_type : (t : RaidType) (n : ℕ) (c : Call) → Agrees t (raid_number t) n c
unfolding raid_number
every_type RaidType.raid0 n c = agree RaidType.raid0 0 n c (raid0_agrees n)
every_type RaidType.raid1 n c = agree RaidType.raid1 1 n c (raid1_agrees n)
every_type RaidType.raid5 n c = agree RaidType.raid5 5 n c (raid5_agrees n)
every_type RaidType.raid6 n c = agree RaidType.raid6 6 n c (raid6_agrees n)
every_type RaidType.raid10 n c = agree RaidType.raid10 10 n c (raid10_agrees n)
every_type RaidType.raid50 n c = agree RaidType.raid50 50 n c (raid50_agrees n)
every_type RaidType.raid60 n c = agree RaidType.raid60 60 n c (raid60_agrees n)
every_type RaidType.unknown n c = tt
every_type RaidType.raid3 n c = tt
every_type RaidType.raid4 n c = tt
every_type RaidType.raid15 n c = tt
every_type RaidType.raid16 n c = tt
every_type RaidType.raid51 n c = tt
every_type RaidType.raid61 n c = tt
every_type RaidType.jbod n c = tt
every_type RaidType.mixed n c = tt
every_type RaidType.other n c = tt

-- For every RAID type that the array reports as creatable, the client lets through exactly the numbers of
-- disks that the array accepts.
pub check_disks_iff :
    (t : RaidType) (k n : ℕ) (c : Call)
    → raid_number t ≡ some k
    → (check_disks (Value.num (pos k)) n c ≡ ok c) ↔ (raid_disk_chk t n ≡ some true)
check_disks_iff t k n c e = subst (λ o. Agrees t o n c) e (every_type t n c)
