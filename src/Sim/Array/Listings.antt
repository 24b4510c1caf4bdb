-- ===== src/Sim/Array/Listings.antt =====
-- What `SimArray` lists: systems, pools, volumes, disks, file systems, target ports and batteries, as
-- objects of the binding (plugin/sim_plugin/simarray.py).
use libstoragemgmt.Base.{
  ℕ, ℤ, pos, negsuc, ◌/◌, ◌+◌, String, Option, none, some, List, [], ◌∷◌, ◌++◌,
}
use libstoragemgmt.Text.{codes, str}
use libstoragemgmt.Data.Value.{Class, Value, Items, nil, cons, end, field}
use libstoragemgmt.Data.Classes.{construct}
use libstoragemgmt.Ipc.Raised.{Outcome, ok, err}
use libstoragemgmt.Sim.Tables.{System, Tgt, Battery, Pool, Disk, Role, Volume, Fs, Db}
use libstoragemgmt.Sim.Ids.{lsm_id}
use libstoragemgmt.Sim.Pools.{total_space_of, free_space_of}
use libstoragemgmt.Sim.Array.Session.{sys_id}

abbrev text : String → Value
text s = Value.str (codes s)

abbrev number : ℕ → Value
number n = Value.num (pos n)

-- an id as the views print it
abbrev id_of : String → ℕ → Value
id_of prefix n = Value.str (lsm_id (codes prefix) n)

-- `int(int_div(size, BLK_SIZE))`: the quotient is rounded down.
blocks_of : ℤ → ℤ
blocks_of (pos n) = pos (n / 512)
blocks_of (negsuc n) = negsuc (n / 512)

unfoldable pub sim_sys_2_lsm : System → Outcome Value
sim_sys_2_lsm s = construct Class.system (
    field "id" (text s.id) (
      field "name" (text s.name) (
        field "status" (number s.status) (
          field "status_info" (text "") (
            field "fw_version" (text s.version)
              (field "mode" (number 0) (field "read_cache_pct" (number s.read_cache_pct) end)))))))

unfoldable pub sim_vol_2_lsm : Volume → Outcome Value
unfolding blocks_of
sim_vol_2_lsm v = construct Class.volume (
    field "id" (id_of "VOL_ID_" v.id) (
      field "name" (text v.name) (
        field "vpd83" (text v.vpd83) (
          field "block_size" (number 512) (
            field "num_of_blocks" (Value.num (blocks_of v.total_space)) (
              field "admin_state" (number v.admin_state) (
                field "system_id" (text sys_id)
                  (field "pool_id" (id_of "POOL_ID_" v.pool_id) end))))))))

-- `total_space` and `free_space` are those of `pools_view`.
unfoldable pub sim_pool_2_lsm : Db → Pool → Outcome Value
sim_pool_2_lsm db p = construct Class.pool (
    field "id" (id_of "POOL_ID_" p.id) (
      field "name" (text p.name) (
        field "element_type" (number p.element_type) (
          field "unsupported_actions" (number p.unsupported_actions) (
            field "total_space" (Value.num (total_space_of db p)) (
              field "free_space" (Value.num (free_space_of db p)) (
                field "status" (number p.status)
                  (field "status_info" (text "") (field "system_id" (text sys_id) end)))))))))

-- STATUS_OK is 2, STATUS_FREE 8192.
disk_status : Option Role → ℕ
disk_status none = 2 + 8192
disk_status (some r) = 2

unfoldable pub sim_disk_2_lsm : Disk → Outcome Value
unfolding blocks_of disk_status
sim_disk_2_lsm d = construct Class.disk (
    field "id" (id_of "DISK_ID_" d.id) (
      field "name" (Value.str (codes d.disk_prefix ++ (b'_' ∷ str d.id))) (
        field "disk_type" (number d.disk_type) (
          field "block_size" (number 512) (
            field "num_of_blocks" (Value.num (blocks_of d.total_space)) (
              field "status" (number (disk_status d.role)) (
                field "system_id" (text sys_id) (
                  field "vpd83" (text d.vpd83) (
                    field "location" (text d.location) (
                      field "rpm" (number d.rpm)
                        (field "link_type" (number d.link_type) end)))))))))))

unfoldable pub sim_fs_2_lsm : Fs → Outcome Value
sim_fs_2_lsm f = construct Class.file_system (
    field "id" (id_of "FS_ID_" f.id) (
      field "name" (text f.name) (
        field "total_space" (Value.num f.total_space) (
          field "free_space" (Value.num f.free_space)
            (field "pool_id" (id_of "POOL_ID_" f.pool_id) (field "system_id" (text sys_id) end))))))

unfoldable pub sim_tgt_2_lsm : Tgt → Outcome Value
sim_tgt_2_lsm t = construct Class.target_port (
    field "id" (id_of "TGT_PORT_ID_" t.id) (
      field "port_type" (number t.port_type) (
        field "service_address" (text t.service_address) (
          field "network_address" (text t.network_address) (
            field "physical_address" (text t.physical_address) (
              field "physical_name" (text t.physical_name)
                (field "system_id" (text sys_id) end)))))))

unfoldable pub sim_bat_2_lsm : Battery → Outcome Value
sim_bat_2_lsm b = construct Class.battery (
    field "id" (id_of "BAT_ID_" b.id) (
      field "name" (text b.name) (
        field "type" (number b.battery_type)
          (field "status" (number b.status) (field "system_id" (text sys_id) end)))))

abbrev pub after : Outcome Value → Outcome Items → Outcome Items
after (err x) rest = err x
after (ok v) (err x) = err x
after (ok v) (ok is) = ok (cons v is)

-- the comprehension over the rows
unfoldable pub all_of : {A : Type 0} → (A → Outcome Value) → List A → Outcome Items
all_of to_lsm [] = ok nil
all_of to_lsm (x ∷ xs) = after (to_lsm x) (all_of to_lsm xs)

-- The listings, by the tables that they read. `_handle_errors` lets the LsmError of a constructor through;
-- `pools` reads in a transaction, which it rolls back.
unfoldable pub systems : Db → Outcome Items
systems db = all_of sim_sys_2_lsm db.systems

unfoldable pub pools : Db → Outcome Items
pools db = all_of (sim_pool_2_lsm db) db.pools

unfoldable pub volumes : Db → Outcome Items
volumes db = all_of sim_vol_2_lsm db.volumes

unfoldable pub disks : Db → Outcome Items
disks db = all_of sim_disk_2_lsm db.disks

unfoldable pub fs : Db → Outcome Items
fs db = all_of sim_fs_2_lsm db.fss

unfoldable pub target_ports : Db → Outcome Items
target_ports db = all_of sim_tgt_2_lsm db.tgts

unfoldable pub batteries : Db → Outcome Items
batteries db = all_of sim_bat_2_lsm db.batteries
