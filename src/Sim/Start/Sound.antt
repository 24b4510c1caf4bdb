-- ===== src/Sim/Start/Sound.antt =====
-- A new state file is sound, and so is every state that calls on it lead to.
use libstoragemgmt.Base.{length, true}
use libstoragemgmt.Sim.Tables.{Pool, Db}
use libstoragemgmt.Base.{ℕ, String, false, List, [], ◌∷◌, ◌≡◌, refl}
use libstoragemgmt.Common.{ok}
use libstoragemgmt.Sql.Rows.{All}
use libstoragemgmt.Base.{map, pos, ◌≤ℤ◌, arith, ◌+ℤ◌, ◌-ℤ◌, floor_512}
use libstoragemgmt.Sql.{any, fresh, sum_where, update}
use libstoragemgmt.Sim.Raid.{data_disk_count, raid_disk_chk, raid_data_disks}
use libstoragemgmt.Sim.Pools.{
  free_space_of, total_space_of, vol_consumed_size, fs_consumed_size, sub_pool_consumed_size,
}
use libstoragemgmt.Sim.Pools.Space.{IsSolvent}
use libstoragemgmt.Sim.Start.{
  empty, fill, open_array, check_version, check_version_and_init, fill_unless,
}
use libstoragemgmt.Sim.Sound.{IsSound}
use libstoragemgmt.Sim.Sound.Requests.{IsSizedRequest}
use libstoragemgmt.Sim.Sound.Sequences.{Call, run, run-SessionIsSound}
use libstoragemgmt.Sim.Array.Session.{Session, trans_begin, trans_commit, on_db, handle_errors}

-- the connection to a file that has just been created
abbrev pub new_session : Session
new_session = record {
  saved = empty;
  current = empty;
  in_transaction = false;
  locked = false;
  reading = false;
}

-- The free spaces of a new file's pools: 1.5 TiB, 512 GiB, 512 GiB and 2 EiB.
fill_room :
    (vpd : ℕ → String)
    → map (free_space_of (fill vpd empty).1) (fill vpd empty).1.pools
      ≡ pos 1649267441664 ∷ pos 549755813888 ∷ pos 549755813888 ∷ pos 2305843009213693952 ∷ []
unfolding fill any data_disk_count fresh free_space_of total_space_of vol_consumed_size
    fs_consumed_size sub_pool_consumed_size sum_where update ◌+ℤ◌ ◌-ℤ◌ raid_disk_chk raid_data_disks
    floor_512
fill_room vpd = refl

fill_volumes : (vpd : ℕ → String) → (fill vpd empty).1.volumes ≡ []
unfolding fill any data_disk_count fresh
fill_volumes vpd = refl

fill_fss : (vpd : ℕ → String) → (fill vpd empty).1.fss ≡ []
unfolding fill any data_disk_count fresh
fill_fss vpd = refl

All-unmap :
    {A B : Type 0} (P : B → Type 0) (g : A → B) (xs : List A)
    → All P (map g xs)
    → All (λ x. P (g x)) xs
All-unmap P g [] h = tt
All-unmap P g (x ∷ xs) (p, h) = (p, All-unmap P g xs h)

fill-IsSound : (vpd : ℕ → String) → IsSound (fill vpd empty).1
fill-IsSound vpd = record {
  solvent = record {
    room =
        All-unmap (λ n. pos 0 ≤ℤ n) (free_space_of (fill vpd empty).1) (fill vpd empty).1.pools
          (rw (fill_room vpd) (omega arith, (omega arith, (omega arith, (omega arith, tt)))));
    volume_sizes = rw (fill_volumes vpd) tt;
    fs_sizes = rw (fill_fss vpd) tt;
  };
  plain = rw (fill_volumes vpd) tt;
}

-- the connection once the file has been filled
abbrev filled : (ℕ → String) → Session
filled vpd = record {
  saved = (fill vpd empty).1;
  current = (fill vpd empty).1;
  in_transaction = false;
  locked = false;
  reading = false;
}

open_new : (vpd : ℕ → String) → open_array vpd new_session ≡ (ok tt, filled vpd)
unfolding fill any data_disk_count fresh open_array check_version_and_init handle_errors trans_begin
    trans_commit on_db fill_unless check_version
open_new vpd = refl

open_again : (vpd vpd' : ℕ → String) → open_array vpd' (filled vpd) ≡ (ok tt, filled vpd)
unfolding fill any data_disk_count fresh check_version open_array check_version_and_init
    handle_errors trans_begin trans_commit on_db fill_unless
open_again vpd vpd' = refl

-- What a new state file holds: the system with the version of this code, the four pools with their free
-- spaces of 1.5 TiB, 512 GiB, 512 GiB and 2 EiB, 20 disks, 5 target ports and 2 batteries.
pub record IsFilled (db : Db) : Type 0 where
  pub version : check_version db.systems ≡ ok true
  pub pools :
      map Pool.name db.pools
      ≡ "Pool 1" ∷ "Pool 2(sub pool of Pool 1)" ∷ "Pool 3" ∷ "lsm_test_aggr" ∷ []
  pub room :
      map (free_space_of db) db.pools
      ≡ pos 1649267441664 ∷ pos 549755813888 ∷ pos 549755813888 ∷ pos 2305843009213693952 ∷ []
  pub disks : length db.disks ≡ 20
  pub tgts : length db.tgts ≡ 5
  pub batteries : length db.batteries ≡ 2

fill-IsFilled : (vpd : ℕ → String) → IsFilled (fill vpd empty).1
unfolding fill any data_disk_count fresh check_version update
fill-IsFilled vpd = record {
  version = refl;
  pools = refl;
  room = fill_room vpd;
  disks = refl;
  tgts = refl;
  batteries = refl;
}

-- Opening a state file that does not exist yet succeeds and fills it with the system, pools, disks, target ports and
-- batteries that `IsFilled` counts, opening it again changes nothing, and after any sequence of the calls that
-- `Request` lists, with no negative size asked for, no pool is overdrawn and no size is negative in the file,
-- whatever any call returns or raises, and whether or not other connections hold the lock or read the file.
pub run-open_array :
    (vpd vpd' : ℕ → String) (cs : List Call)
    → All (λ c. IsSizedRequest (Call.request c)) cs
    → ((open_array vpd new_session).0 ≡ ok tt)
      × IsFilled (open_array vpd new_session).1.saved
      × (open_array vpd' (open_array vpd new_session).1 ≡ open_array vpd new_session)
      × IsSolvent (run cs (open_array vpd new_session).1).saved
run-open_array vpd vpd' cs h = rw (open_new vpd) (
  refl,
  fill-IsFilled vpd,
  open_again vpd vpd',
  (run-SessionIsSound cs (filled vpd) h (fill-IsSound vpd, fill-IsSound vpd)).0.solvent,
)
