-- ===== src/Sim/Plugin/Search.antt =====
-- The listings of `SimPlugin` (plugin/sim_plugin/simulator.py) and `search_property` of
-- python_binding/lsm/_pluginrunner.py.
use libstoragemgmt.Base.{ℕ, Bool, false, Option, none, some, List, if◌then◌else◌}
use libstoragemgmt.Text.{codes, equal}
use libstoragemgmt.Data.Value.{Value, Items, nil, cons, Fields, end, field}
use libstoragemgmt.Ipc.Raised.{attribute_error, Outcome, ok, err}
use libstoragemgmt.Sim.Tables.{Db}
use libstoragemgmt.Sim.Array.Listings.{pools, volumes, disks, fs, target_ports, batteries}

abbrev pub here_or : Bool → Value → Option Value → Option Value
here_or b v rest = if b then some v else rest

-- `getattr(lsm_obj, search_key)` for the properties that are attributes of the object
unfoldable pub attribute : List ℕ → Fields → Option Value
attribute k end = none
attribute k (field j v fs) = here_or (equal (codes j) k) v (attribute k fs)

unfoldable pub property_of : List ℕ → Value → Option Value
property_of k (Value.obj c fs) = attribute k fs
property_of k v = none

-- `==` with a property that is a text
unfoldable pub equal_value : Value → Value → Bool
equal_value (Value.str s) (Value.str t) = equal s t
equal_value v w = false

abbrev pub kept : Option Value → Value → Value → Outcome Items → Outcome Items
kept none value o rest = err attribute_error
kept (some p) value o (err x) = err x
kept (some p) value o (ok is) = if equal_value p value then ok (cons o is) else ok is

-- the comprehension of `search_property`
unfoldable pub search : List ℕ → Value → Items → Outcome Items
search k value nil = ok nil
search k value (cons o is) = kept (property_of k o) value o (search k value is)

unfoldable pub search_property : Items → Option (List ℕ) → Value → Outcome Items
search_property lsm_objs none value = ok lsm_objs
search_property lsm_objs (some k) value = search k value lsm_objs

abbrev pub searched : Option (List ℕ) → Value → Outcome Items → Outcome Items
searched key value (err x) = err x
searched key value (ok is) = search_property is key value

-- the listings that a search key may narrow
pub data Listing : Type 0 where
  pool_list volume_list disk_list fs_list target_port_list battery_list : Listing

-- the method of `SimArray`
unfoldable pub rows : Listing → Db → Outcome Items
rows Listing.pool_list db = pools db
rows Listing.volume_list db = volumes db
rows Listing.disk_list db = disks db
rows Listing.fs_list db = fs db
rows Listing.target_port_list db = target_ports db
rows Listing.battery_list db = batteries db

-- the method of `SimPlugin`: `search_property([_sim_data_2_lsm(x) for x in …], search_key, search_value)`
unfoldable pub answer : Listing → Option (List ℕ) → Value → Db → Outcome Items
answer l key value db = searched key value (rows l db)
