-- ===== src/Sim/Pools.antt =====
-- The pools of plugin/sim_plugin/simarray.py: the view `pools_view`, and `BackStore`'s methods on
-- pools.
pub mod Rounding
pub mod Space
use libstoragemgmt.Base.{
  ℕ, ℤ, pos, ◌+ℤ◌, ◌-ℤ◌, floor_512, ltb_ℤ, String, Bool, true, false, ◌&&◌, Option, none, some,
  List, [], ◌∷◌, ◌++◌, ◌==◌, str_eq, if◌then◌else◌, length, take, drop,
}
use libstoragemgmt.Common.{ErrorNumber}
use libstoragemgmt.Sql.{is_id, update, any, fresh, sum_where, count_where}
use libstoragemgmt.Sim.Constants.{
  RaidType, member_disk, member_pool, blk_size, default_strip_size, pool_status_ok,
}
use libstoragemgmt.Sim.Tables.{Pool, Role, role_data, role_parity, Disk, Volume, Fs, Db}
use libstoragemgmt.Sim.Exec.{Exec, pure, lift, gets, raise_if, modify, ◌>>=◌, ◌>>◌}
use libstoragemgmt.Sim.Raid.{data_disk_count}
use libstoragemgmt.Sim.Cascade.{owned_by, data_add, sim_data_of_id}

abbrev pub or_zero : Option ℤ → ℤ
or_zero none = pos 0
or_zero (some n) = n

abbrev pub holds_data : Disk → Bool
holds_data d = elim d.role [
  | none ↦ false
  | some r ↦ elim r [ role_data ↦ true | role_parity ↦ false ]
]

abbrev pub sub_pool_of : ℕ → Pool → Bool
sub_pool_of k p = elim p.parent_pool_id [ none ↦ false | some j ↦ j == k ]

-- the subqueries pool1 to pool4 of `pools_view`
unfoldable pub total_space_of : Db → Pool → ℤ
total_space_of db p = elim p.total_space [
  | some n ↦ n
  | none ↦ sum_where (λ d. owned_by p.id d && holds_data d) Disk.total_space db.disks
]

unfoldable pub vol_consumed_size : Db → ℕ → ℤ
vol_consumed_size db k = sum_where (λ v. v.pool_id == k) Volume.consumed_size db.volumes

unfoldable pub fs_consumed_size : Db → ℕ → ℤ
fs_consumed_size db k = sum_where (λ f. f.pool_id == k) Fs.consumed_size db.fss

unfoldable pub sub_pool_consumed_size : Db → ℕ → ℤ
sub_pool_consumed_size db k = sum_where (sub_pool_of k) (λ p. or_zero p.total_space) db.pools

unfoldable pub free_space_of : Db → Pool → ℤ
free_space_of db p =
    total_space_of db p
    -ℤ vol_consumed_size db p.id
    -ℤ fs_consumed_size db p.id
    -ℤ sub_pool_consumed_size db p.id

-- `sim_pool_of_id`; the columns that `pools_view` computes are `total_space_of` and `free_space_of`
-- in the same state.
unfoldable pub sim_pool_of_id : ℤ → Exec Pool
sim_pool_of_id sim_pool_id = sim_data_of_id Db.pools Pool.id sim_pool_id ErrorNumber.not_found_pool

-- `_check_pool_free_space`; the pool that it looked up is returned
unfoldable pub check_pool_free_space : ℤ → ℤ → Exec Pool
check_pool_free_space sim_pool_id size_bytes = do
  sim_pool ← sim_pool_of_id sim_pool_id
  free ← gets (λ db. free_space_of db sim_pool)
  raise_if (ltb_ℤ free size_bytes) ErrorNumber.not_enough_space
  pure sim_pool

-- `_block_rounding`
unfoldable pub block_rounding : ℤ → ℤ
block_rounding size_bytes = floor_512 (size_bytes +ℤ pos 511)

abbrev is_raid1_or_jbod : RaidType → Bool
is_raid1_or_jbod RaidType.raid1 = true
is_raid1_or_jbod RaidType.jbod = true
is_raid1_or_jbod _ = false

abbrev pub strip_size_for : RaidType → ℕ → ℕ
strip_size_for raid_type strip_size =
    if is_raid1_or_jbod raid_type
    then blk_size
    else if strip_size == 0
    then default_strip_size
    else strip_size

add_pool : Pool → Exec ℕ
unfolding data_add
add_pool p db =
    data_add (any (λ q. str_eq q.name p.name) db.pools) p.id
      (λ s. record s { pools = s.pools ++ p ∷ [] }) db

-- the two loops over the member disks: `owner_pool_id` and `role` of each are set
set_members : ℕ → Role → List ℤ → List Disk → List Disk
set_members k role [] disks = disks
set_members k role (i ∷ ids) disks =
    set_members k role ids (
      update (λ d. is_id i d.id) (λ d. record d { owner_pool_id = some k; role = some role }) disks)

unfoldable pub sim_pool_create_from_disk : String → List ℤ → RaidType → ℕ → ℕ → ℕ → Exec ℕ
unfolding add_pool set_members
sim_pool_create_from_disk name sim_disk_ids raid_type element_type unsupported_actions strip_size
      db =
    (do
      sim_pool_id ← add_pool (record {
        id = fresh Pool.id db.pools;
        name = name;
        status = pool_status_ok;
        element_type = element_type;
        unsupported_actions = unsupported_actions;
        raid_type = raid_type;
        parent_pool_id = none;
        member_type = member_disk;
        strip_size = some (strip_size_for raid_type strip_size);
        total_space = none;
      })
      n ← lift (data_disk_count raid_type (length sim_disk_ids))
      modify (λ s. record s {
        disks = set_members sim_pool_id role_data (take n sim_disk_ids) s.disks;
      })
      modify (λ s. record s {
        disks = set_members sim_pool_id role_parity (drop n sim_disk_ids) s.disks;
      })
      pure sim_pool_id)
      db

unfoldable pub sim_pool_create_sub_pool : String → ℕ → ℤ → ℕ → ℕ → Exec ℕ
unfolding add_pool
sim_pool_create_sub_pool name parent_pool_id size element_type unsupported_actions db =
    add_pool
      (record {
        id = fresh Pool.id db.pools;
        name = name;
        status = pool_status_ok;
        element_type = element_type;
        unsupported_actions = unsupported_actions;
        raid_type = RaidType.other;
        parent_pool_id = some parent_pool_id;
        member_type = member_pool;
        strip_size = none;
        total_space = some size;
      })
      db

-- `sim_pool_disks_count` and `sim_pool_data_disks_count`, the columns of the subqueries pool5 and
-- pool1
unfoldable pub disk_count_of : Db → ℕ → ℕ
disk_count_of db k = count_where (owned_by k) db.disks

unfoldable pub data_disk_count_of : Db → ℕ → ℕ
data_disk_count_of db k = count_where (λ d. owned_by k d && holds_data d) db.disks
