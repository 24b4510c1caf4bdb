-- ===== src/Client/Listed.antt =====
-- What the listings of `SimPlugin` (plugin/sim_plugin/simulator.py) hold: objects of one class, with the
-- attributes that a search key may name.
use libstoragemgmt.Base.{
  ℕ, ◌≡◌, refl, String, Bool, true, false, ◌&&◌, List, [], ◌∷◌, if◌then◌else◌, is_some,
}
use libstoragemgmt.Text.{codes, equal}
use libstoragemgmt.Data.Value.{Class, Value, Items, nil, cons, Fields, get}
use libstoragemgmt.Data.Params.{bind, params}
use libstoragemgmt.Data.Classes.{construct, init, check_vpd83, vpd83_verify}
use libstoragemgmt.Ipc.Raised.{Raised, Outcome, ok, err}
use libstoragemgmt.Sim.Tables.{Db, Pool, Volume, Disk, Fs, Tgt, Battery}
use libstoragemgmt.Sim.Array.Listings.{
  sim_pool_2_lsm, sim_vol_2_lsm, sim_disk_2_lsm, sim_fs_2_lsm, sim_tgt_2_lsm, sim_bat_2_lsm, all_of,
  after, pools, volumes, disks, fs, target_ports, batteries,
}
use libstoragemgmt.Sim.Plugin.Search.{attribute, Listing, rows}

-- the class of what is listed, and the keys that the client lets through
abbrev pub class_of : Listing → Class
class_of Listing.pool_list = Class.pool
class_of Listing.volume_list = Class.volume
class_of Listing.disk_list = Class.disk
class_of Listing.fs_list = Class.file_system
class_of Listing.target_port_list = Class.target_port
class_of Listing.battery_list = Class.battery

abbrev pub keys_of : Listing → List String
keys_of Listing.volume_list = "id" ∷ "system_id" ∷ "pool_id" ∷ []
keys_of Listing.fs_list = "id" ∷ "system_id" ∷ "pool_id" ∷ []
keys_of _ = "id" ∷ "system_id" ∷ []

-- the object has an attribute of each of the names
unfoldable pub has_all : List String → Fields → Bool
has_all [] gs = true
has_all (k ∷ ks) gs = is_some (attribute (codes k) gs) && has_all ks gs

-- an object of the class with these attributes
abbrev pub IsListed : Class → List String → Value → Type 0
IsListed c ks o = (gs : Fields) × (o ≡ Value.obj c gs) × (has_all ks gs ≡ true)

-- what an outcome gives, if it gives something, is one
abbrev pub GivesListed : Class → List String → Outcome Value → Type 0
GivesListed c ks (err x) = Unit
GivesListed c ks (ok o) = IsListed c ks o

-- every element is one
unfoldable pub AllListed : Class → List String → Items → Type 0
AllListed c ks nil = Unit
AllListed c ks (cons o is) = IsListed c ks o × AllListed c ks is

either-Listed :
    (c : Class) (ks : List String) (b : Bool) (o : Value) (x : Raised)
    → IsListed c ks o
    → GivesListed c ks (if b then ok o else err x)
either-Listed c ks true o x h = h
either-Listed c ks false o x h = tt

check_vpd83-Listed :
    (c : Class) (ks : List String) (s : List ℕ) (o : Value)
    → IsListed c ks o
    → GivesListed c ks (check_vpd83 (Value.str s) o)
unfolding check_vpd83
check_vpd83-Listed c ks [] o h = h
check_vpd83-Listed c ks (x ∷ s) o h = either-Listed c ks (vpd83_verify (x ∷ s)) o _ h

pool-Listed :
    (db : Db) (p : Pool) → GivesListed Class.pool ("id" ∷ "system_id" ∷ []) (sim_pool_2_lsm db p)
unfolding sim_pool_2_lsm construct bind params init get attribute equal has_all
pool-Listed db p = (_, refl, refl)

vol-Listed :
    (v : Volume) → GivesListed Class.volume ("id" ∷ "system_id" ∷ "pool_id" ∷ []) (sim_vol_2_lsm v)
unfolding sim_vol_2_lsm construct bind params init get attribute equal has_all
vol-Listed v =
    check_vpd83-Listed Class.volume ("id" ∷ "system_id" ∷ "pool_id" ∷ []) (codes v.vpd83) _
      (_, refl, refl)

disk-Listed : (d : Disk) → GivesListed Class.disk ("id" ∷ "system_id" ∷ []) (sim_disk_2_lsm d)
unfolding sim_disk_2_lsm construct bind params init get attribute equal has_all
disk-Listed d =
    check_vpd83-Listed Class.disk ("id" ∷ "system_id" ∷ []) (codes d.vpd83) _ (_, refl, refl)

fs-Listed :
    (f : Fs) → GivesListed Class.file_system ("id" ∷ "system_id" ∷ "pool_id" ∷ []) (sim_fs_2_lsm f)
unfolding sim_fs_2_lsm construct bind params init get attribute equal has_all
fs-Listed f = (_, refl, refl)

tgt-Listed : (t : Tgt) → GivesListed Class.target_port ("id" ∷ "system_id" ∷ []) (sim_tgt_2_lsm t)
unfolding sim_tgt_2_lsm construct bind params init get attribute equal has_all
tgt-Listed t = (_, refl, refl)

bat-Listed : (b : Battery) → GivesListed Class.battery ("id" ∷ "system_id" ∷ []) (sim_bat_2_lsm b)
unfolding sim_bat_2_lsm construct bind params init get attribute equal has_all
bat-Listed b = (_, refl, refl)

-- what a comprehension gives, if it gives something
abbrev pub GivesAll : Class → List String → Outcome Items → Type 0
GivesAll c ks (err x) = Unit
GivesAll c ks (ok is) = AllListed c ks is

after-Listed :
    (c : Class) (ks : List String) (o : Outcome Value) (rest : Outcome Items)
    → GivesListed c ks o
    → GivesAll c ks rest
    → GivesAll c ks (after o rest)
unfolding AllListed
after-Listed c ks (err x) rest h g = tt
after-Listed c ks (ok v) (err x) h g = tt
after-Listed c ks (ok v) (ok is) h g = (h, g)

all_of-Listed :
    {A : Type 0} (c : Class) (ks : List String) (to_lsm : A → Outcome Value)
    → ((x : A) → GivesListed c ks (to_lsm x))
    → (xs : List A) → GivesAll c ks (all_of to_lsm xs)
unfolding all_of AllListed
all_of-Listed c ks to_lsm h [] = tt
all_of-Listed c ks to_lsm h (x ∷ xs) =
    after-Listed c ks (to_lsm x) (all_of to_lsm xs) (h x) (all_of-Listed c ks to_lsm h xs)

pub rows-Listed : (l : Listing) (db : Db) → GivesAll (class_of l) (keys_of l) (rows l db)
unfolding rows pools volumes disks fs target_ports batteries
rows-Listed Listing.pool_list db = all_of-Listed _ _ (sim_pool_2_lsm db) (pool-Listed db) db.pools
rows-Listed Listing.volume_list db = all_of-Listed _ _ sim_vol_2_lsm vol-Listed db.volumes
rows-Listed Listing.disk_list db = all_of-Listed _ _ sim_disk_2_lsm disk-Listed db.disks
rows-Listed Listing.fs_list db = all_of-Listed _ _ sim_fs_2_lsm fs-Listed db.fss
rows-Listed Listing.target_port_list db = all_of-Listed _ _ sim_tgt_2_lsm tgt-Listed db.tgts
rows-Listed Listing.battery_list db = all_of-Listed _ _ sim_bat_2_lsm bat-Listed db.batteries
