-- ===== src/Sim/Array/Raid.antt =====
-- `volume_raid_create`, `volume_raid_info` and `pool_member_info` of `SimArray`
-- (plugin/sim_plugin/simarray.py).
use libstoragemgmt.Base.{
  ℕ, ◌*◌, ◌+◌, ◌^◌, ℤ, pos, ◌-ℤ◌, String, Bool, true, false, not, Option, none, some, List, [], ◌∷◌,
  map, ◌==◌, if◌then◌else◌, bit_and,
}
use libstoragemgmt.Common.{
  ErrorNumber, operational_error, other_exception, lsm_error, Result, ok, err,
}
use libstoragemgmt.Sql.{any, select}
use libstoragemgmt.Sim.Constants.{
  RaidType, MemberType, member_unknown, member_disk, member_pool, supported_vcr_raid_types,
  blk_size, default_strip_size, element_type_volume, unsupported_volume_grow,
  unsupported_volume_shrink,
}
use libstoragemgmt.Sim.Tables.{Pool, Disk, Volume, Db}
use libstoragemgmt.Sim.Exec.{Exec, pure, lift, gets, raise_if, try_integrity, ◌>>=◌, ◌>>◌}
use libstoragemgmt.Sim.Ids.{lsm_id}
use libstoragemgmt.Sim.Cascade.{owned_by}
use libstoragemgmt.Sim.Pools.{
  sim_pool_of_id, sim_pool_create_from_disk, free_space_of, disk_count_of, data_disk_count_of,
}
use libstoragemgmt.Sim.Volumes.{sim_vol_of_id}
use libstoragemgmt.Sim.Array.Session.{
  Action, handle_errors, transaction, on_db, codes, LsmId, Env, sim_id_of, sim_pool_id_of,
}
use libstoragemgmt.Sim.Array.Volumes.{volume_create_internal}

-- the fields of a `Disk` that `volume_raid_create` reads
pub record RaidDisk : Type 0 where
  pub id : LsmId
  pub status : ℕ

abbrev pub disk_status_free : ℕ
disk_status_free = 2 ^ 13

abbrev raid_type_eq : RaidType → RaidType → Bool
raid_type_eq RaidType.raid0 RaidType.raid0 = true
raid_type_eq RaidType.raid1 RaidType.raid1 = true
raid_type_eq RaidType.raid5 RaidType.raid5 = true
raid_type_eq RaidType.raid6 RaidType.raid6 = true
raid_type_eq RaidType.raid10 RaidType.raid10 = true
raid_type_eq RaidType.raid50 RaidType.raid50 = true
raid_type_eq RaidType.raid60 RaidType.raid60 = true
raid_type_eq _ _ = false

abbrev pub supported_vcr_strip_sizes : List ℕ
supported_vcr_strip_sizes = map (λ k. k * 1024) (8 ∷ 16 ∷ 32 ∷ 64 ∷ 128 ∷ 256 ∷ 512 ∷ 1024 ∷ [])

-- `VCR_STRIP_SIZE_DEFAULT` is 0
strip_size_or_default : ℕ → ℕ
strip_size_or_default n = if n == 0 then default_strip_size else n

-- `[SimArray._lsm_id_to_sim_id(d.id, …) for d in disks]`
sim_disk_ids_of : List RaidDisk → Exec (List ℤ)
sim_disk_ids_of [] = pure []
sim_disk_ids_of (d ∷ ds) = do
  z ← sim_id_of ErrorNumber.not_found_disk d.id
  rest ← sim_disk_ids_of ds
  pure (z ∷ rest)

-- The loop over `disks` that raises DISK_NOT_FREE reads the status that the client passed.
unfoldable pub volume_raid_create :
    Env → String → String → RaidType → List RaidDisk → ℕ → Action Volume
unfolding strip_size_or_default sim_disk_ids_of
volume_raid_create env pool_name name raid_type disks strip_size = handle_errors (do
  raise_if (not (any (raid_type_eq raid_type) supported_vcr_raid_types)) ErrorNumber.no_support
  raise_if (not (any (λ n. n == strip_size_or_default strip_size) supported_vcr_strip_sizes))
      ErrorNumber.no_support
  transaction (do
    sim_disk_ids ← sim_disk_ids_of disks
    raise_if (any (λ d. bit_and d.status disk_status_free == 0) disks) ErrorNumber.disk_not_free
    sim_pool_id ←
        try_integrity
          (sim_pool_create_from_disk pool_name sim_disk_ids raid_type element_type_volume
            (unsupported_volume_grow + unsupported_volume_shrink)
            (strip_size_or_default strip_size))
          ErrorNumber.name_conflict
    sim_pool ← sim_pool_of_id (pos sim_pool_id)
    free ← gets (λ db. free_space_of db sim_pool)
    sim_vol_id ←
        volume_create_internal env (lsm_id (codes "POOL_ID_") sim_pool.id) name (free -ℤ pos 1024) 1
    sim_vol_of_id (pos sim_vol_id)))

-- what `volume_raid_info` returns: the RAID type, the strip size, the disk count, and the minimum and
-- the optimal size of an access (0 is unknown)
pub record RaidInfo : Type 0 where
  pub raid_type : RaidType
  pub strip_size : Option ℕ
  pub disk_count : ℕ
  pub min_io_size : Option ℕ
  pub opt_io_size : ℕ

-- the pool whose RAID is reported: the parent of a pool that is made of another one
raid_pool : MemberType → Option ℕ → Pool → Exec Pool
raid_pool member_pool (some k) p = sim_pool_of_id (pos k)
raid_pool member_pool none p = lift (err (operational_error false))
raid_pool _ _ p = pure p

-- `int(sim_pool['data_disk_count'] * strip_size)`
times_strip : ℕ → Option ℕ → Result ℕ
times_strip n none = err other_exception
times_strip n (some k) = ok (n * k)

opt_io_size_of : RaidType → ℕ → Option ℕ → Result ℕ
unfolding times_strip
opt_io_size_of RaidType.unknown n strip = ok 0
opt_io_size_of RaidType.other n strip = ok 0
opt_io_size_of RaidType.mixed n strip = err (lsm_error ErrorNumber.plugin_bug)
opt_io_size_of RaidType.raid1 n strip = ok blk_size
opt_io_size_of RaidType.jbod n strip = ok blk_size
opt_io_size_of _ n strip = times_strip n strip

unfoldable pub volume_raid_info : LsmId → Action RaidInfo
unfolding raid_pool opt_io_size_of
volume_raid_info pool_id = handle_errors (
    on_db (do
      sim_pool_id ← sim_pool_id_of pool_id
      direct ← sim_pool_of_id sim_pool_id
      sim_pool ← raid_pool direct.member_type direct.parent_pool_id direct
      disk_count ← gets (λ db. disk_count_of db sim_pool.id)
      data_disk_count ← gets (λ db. data_disk_count_of db sim_pool.id)
      opt_io_size ← lift (opt_io_size_of sim_pool.raid_type data_disk_count sim_pool.strip_size)
      pure (record {
        raid_type = sim_pool.raid_type;
        strip_size = sim_pool.strip_size;
        disk_count = disk_count;
        min_io_size = sim_pool.strip_size;
        opt_io_size = opt_io_size;
      })))

-- `parent_lsm_pool_id`, or the ids of the disks that the pool owns
member_ids_of : MemberType → Pool → Db → List LsmId
member_ids_of member_pool p db = elim p.parent_pool_id [
  | none ↦ []
  | some k ↦ lsm_id (codes "POOL_ID_") k ∷ []
]
member_ids_of member_disk p db =
    map (λ d. lsm_id (codes "DISK_ID_") (Disk.id d)) (select (owned_by p.id) db.disks)
member_ids_of _ p db = []

reported_member_type : MemberType → MemberType
reported_member_type member_pool = member_pool
reported_member_type member_disk = member_disk
reported_member_type _ = member_unknown

unfoldable pub pool_member_info : LsmId → Action (RaidType × MemberType × List LsmId)
unfolding member_ids_of reported_member_type
pool_member_info pool_id = handle_errors (
    on_db (do
      sim_pool_id ← sim_pool_id_of pool_id
      sim_pool ← sim_pool_of_id sim_pool_id
      gets (λ db. (
        sim_pool.raid_type,
        reported_member_type sim_pool.member_type,
        member_ids_of sim_pool.member_type sim_pool db,
      ))))
