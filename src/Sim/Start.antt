-- ===== src/Sim/Start.antt =====
-- `BackStore.check_version_and_init` and `SimArray.__init__` of plugin/sim_plugin/simarray.py: what a new
-- state file holds.
pub mod Sound
use libstoragemgmt.Base.{
  ℕ, ℤ, pos, String, Bool, true, false, not, List, [], ◌∷◌, ◌++◌, str_eq, if◌then◌else◌, none, some,
  map, take, ◌+◌, ◌*◌,
}
use libstoragemgmt.Common.{ErrorNumber, Result, ok, err, lsm_error}
use libstoragemgmt.Sql.{any, fresh}
use libstoragemgmt.Sim.Constants.{
  RaidType, unsupported_volume_grow, unsupported_volume_shrink, element_type_volume,
}
use libstoragemgmt.Sim.Tables.{System, Tgt, Battery, Disk, Db}
use libstoragemgmt.Sim.Exec.{Exec, pure, raise, gets, lift, ◌>>=◌, ◌>>◌}
use libstoragemgmt.Sim.Cascade.{data_add}
use libstoragemgmt.Sim.Pools.{sim_pool_create_from_disk, sim_pool_create_sub_pool}
use libstoragemgmt.Sim.Array.Session.{
  Session, Action, trans_begin, trans_commit, on_db, handle_errors, sys_id,
}

abbrev version_signature : String
version_signature = "LSM_SIMULATOR_DATA_4.1"

-- The state file as `CREATE TABLE` leaves it.
abbrev pub empty : Db
empty = record {
  systems = [];
  tgts = [];
  batteries = [];
  pools = [];
  disks = [];
  volumes = [];
  ags = [];
  inits = [];
  vol_masks = [];
  vol_reps = [];
  fss = [];
  fs_snaps = [];
  fs_clones = [];
  exps = [];
  exp_root_hosts = [];
  exp_rw_hosts = [];
  exp_ro_hosts = [];
  jobs = [];
}

-- `_check_version`
unfoldable pub check_version : List System → Result Bool
check_version [] = ok false
check_version (s ∷ rest) =
    if str_eq (System.version s) version_signature
    then ok true
    else err (lsm_error ErrorNumber.invalid_argument)

-- The INSERT of `_data_add` for the tables that only this method fills.
add_system : System → Exec ℕ
unfolding data_add
add_system x db =
    data_add (any (λ y. str_eq (System.id y) x.id) db.systems) 1
      (λ s. record s { systems = s.systems ++ x ∷ [] }) db

add_disk : (ℕ → Disk) → Exec ℕ
unfolding data_add
add_disk disk db =
    let i = fresh Disk.id db.disks in
    data_add false i (λ s. record s { disks = s.disks ++ disk i ∷ [] }) db

add_tgt : (ℕ → Tgt) → Exec ℕ
unfolding data_add
add_tgt tgt db =
    let i = fresh Tgt.id db.tgts in
    data_add false i (λ s. record s { tgts = s.tgts ++ tgt i ∷ [] }) db

add_battery : (ℕ → Battery) → Exec ℕ
unfolding data_add
add_battery battery db =
    let i = fresh Battery.id db.batteries in
    data_add false i (λ s. record s { batteries = s.batteries ++ battery i ∷ [] }) db

-- One of the loops that add disks, a disk for each location; the ids of the disks are returned.
add_disks : (String → ℕ → Disk) → List String → Exec (List ℤ)
unfolding add_disk
add_disks disk [] = pure []
add_disks disk (l ∷ locations) = do
  i ← add_disk (disk l)
  ids ← add_disks disk locations
  pure (pos i ∷ ids)

-- `vpd i` is the text of `_random_vpd()` for the disk with the id i.
module _ (vpd : ℕ → String) where
  abbrev new_disk : String → ℤ → ℕ → ℕ → ℕ → String → ℕ → Disk
  new_disk disk_prefix total_space disk_type rpm link_type location i = record {
    id = i;
    total_space = total_space;
    disk_type = disk_type;
    status = 2;
    disk_prefix = disk_prefix;
    location = location;
    owner_pool_id = none;
    role = none;
    vpd83 = vpd i;
    rpm = rpm;
    link_type = link_type;
  }

  abbrev size_2t : ℤ
  size_2t = pos 2199023255552

  -- TYPE_SATA is 4, LINK_TYPE_ATA 8.
  add_sata_disks : Exec (List ℤ)
  unfolding add_disks
  add_sata_disks =
      add_disks (new_disk "2TiB SATA Disk" size_2t 4 7200 8)
        ("Port: 0 Box: 1 Bay: 1" ∷ "Port: 1 Box: 1 Bay: 1" ∷ [])

  -- The disks are called 2EiB and have 1 EiB. TYPE_SAS is 5, LINK_TYPE_SAS 6.
  add_sas_disks : Exec (List ℤ)
  unfolding add_disks
  add_sas_disks = add_disks (new_disk "2EiB SAS Disk" (pos 1152921504606846976) 5 15000 6) (
      "Port: 0 Box: 1 Bay: 2" ∷ "Port: 1 Box: 1 Bay: 2" ∷ "Port: 2 Box: 1 Bay: 2"
      ∷ "Port: 3 Box: 1 Bay: 2" ∷ "Port: 4 Box: 1 Bay: 2" ∷ "Port: 5 Box: 1 Bay: 2" ∷ [])

  -- TYPE_SSD is 53, RPM_NON_ROTATING_MEDIUM 0.
  add_ssd_disks : Exec (List ℤ)
  unfolding add_disks
  add_ssd_disks = add_disks (new_disk "512GiB SSD Disk" (pos 549755813888) 53 0 8) (
      "Port: 0 Box: 1 Bay: 3" ∷ "Port: 1 Box: 1 Bay: 3" ∷ "Port: 2 Box: 1 Bay: 3"
      ∷ "Port: 3 Box: 1 Bay: 3" ∷ "Port: 4 Box: 1 Bay: 3" ∷ [])

  add_sas_ssd_disks : Exec (List ℤ)
  unfolding add_disks
  add_sas_ssd_disks = add_disks (new_disk "2TiB SSD Disk" size_2t 53 0 6) (
      "Port: 0 Box: 1 Bay: 4" ∷ "Port: 1 Box: 1 Bay: 4" ∷ "Port: 2 Box: 1 Bay: 4"
      ∷ "Port: 3 Box: 1 Bay: 4" ∷ "Port: 4 Box: 1 Bay: 4" ∷ "Port: 5 Box: 1 Bay: 4"
      ∷ "Port: 6 Box: 1 Bay: 4" ∷ [])

-- FS, VOLUME and DELTA of Pool.ELEMENT_TYPE_*
abbrev element_type_plain : ℕ
element_type_plain = 8 + element_type_volume + 16

-- the four pools
add_pools : List ℤ → List ℤ → List ℤ → Exec ℕ
unfolding sim_pool_create_from_disk sim_pool_create_sub_pool
add_pools pool_1_disks ssd_pool_disks test_pool_disks = do
  pool_1_id ←
      sim_pool_create_from_disk "Pool 1" pool_1_disks RaidType.raid1 (2 + element_type_plain + 1024)
        (unsupported_volume_grow + unsupported_volume_shrink) 0
  sim_pool_create_sub_pool "Pool 2(sub pool of Pool 1)" pool_1_id (pos 549755813888)
      element_type_plain 0
  sim_pool_create_from_disk "Pool 3" ssd_pool_disks RaidType.raid1 element_type_plain 0 0
  sim_pool_create_from_disk "lsm_test_aggr" test_pool_disks RaidType.raid0 element_type_plain 0 0

abbrev tgt : ℕ → String → String → String → String → ℕ → Tgt
tgt port_type service_address network_address physical_address physical_name i = record {
  id = i;
  port_type = port_type;
  service_address = service_address;
  network_address = network_address;
  physical_address = physical_address;
  physical_name = physical_name;
}

abbrev iqn : String
iqn = "iqn.1986-05.com.example:sim-tgt-03"

-- TYPE_FC is 2, TYPE_FCOE 3, TYPE_ISCSI 4.
add_tgts : Exec ℕ
unfolding add_tgt
add_tgts = do
  add_tgt (
      tgt 2 "50:0a:09:86:99:4b:8d:c5" "50:0a:09:86:99:4b:8d:c5" "50:0a:09:86:99:4b:8d:c5" "FC_a_0b")
  add_tgt (
      tgt 3 "50:0a:09:86:99:4b:8d:c6" "50:0a:09:86:99:4b:8d:c6" "50:0a:09:86:99:4b:8d:c6"
        "FCoE_b_0c")
  add_tgt (tgt 4 iqn "sim-iscsi-tgt-3.example.com:3260" "a4:4e:31:47:f4:e0" "iSCSI_c_0d")
  add_tgt (tgt 4 iqn "10.0.0.1:3260" "a4:4e:31:47:f4:e1" "iSCSI_c_0e")
  add_tgt (tgt 4 iqn "[2001:470:1f09:efe:a64e:31ff::1]:3260" "a4:4e:31:47:f4:e1" "iSCSI_c_0e")

-- TYPE_CHEMICAL is 3, TYPE_CAPACITOR 4, STATUS_OK 4.
add_batteries : Exec ℕ
unfolding add_battery
add_batteries = do
  add_battery (λ i. record {
    id = i;
    name = "Battery SIMB01, 8000 mAh, 05 March 2016";
    battery_type = 3;
    status = 4;
  })
  add_battery (λ i. record {
    id = i;
    name = "Capacitor SIMC01, 500 J, 05 March 2016";
    battery_type = 4;
    status = 4;
  })

-- What an empty state file is filled with.
unfoldable pub fill : (ℕ → String) → Exec ℕ
unfolding add_system add_sata_disks add_sas_disks add_ssd_disks add_sas_ssd_disks add_pools add_tgts
    add_batteries
fill vpd = do
  add_system (record {
    id = sys_id;
    name = "LSM simulated storage plug-in";
    status = 2;
    read_cache_pct = 10;
    version = version_signature;
  })
  pool_1_disks ← add_sata_disks vpd
  sas_disks ← add_sas_disks vpd
  ssd_disks ← add_ssd_disks vpd
  add_sas_ssd_disks vpd
  add_pools pool_1_disks (take 2 ssd_disks) (take 2 sas_disks)
  add_tgts
  add_batteries

unfoldable pub fill_unless : (ℕ → String) → Bool → Exec (Unit {0})
unfolding fill
fill_unless vpd true = pure tt
fill_unless vpd false = do fill vpd; pure tt

-- `check_version_and_init`
unfoldable pub check_version_and_init : (ℕ → String) → Action (Unit {0})
unfolding trans_begin trans_commit on_db check_version fill_unless
check_version_and_init vpd = do
  trans_begin
  on_db (do
    systems ← gets Db.systems
    matches ← lift (check_version systems)
    fill_unless vpd matches)
  trans_commit

-- `SimArray.__init__` on the connection that `BackStore.__init__` opens
unfoldable pub open_array : (ℕ → String) → Action (Unit {0})
open_array vpd = handle_errors (check_version_and_init vpd)
