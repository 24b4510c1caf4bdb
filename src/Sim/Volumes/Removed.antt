-- ===== src/Sim/Volumes/Removed.antt =====
-- What `sim_vol_delete` (plugin/sim_plugin/simarray.py) leaves in the tables.
use libstoragemgmt.Base.{ℤ, ◌≡◌, ◌⊎◌, Bool, true, false, none, List, [], ◌∷◌, ◌==◌}
use libstoragemgmt.Common.{Result, ok, err}
use libstoragemgmt.Sql.{is_id, select, delete, update, any}
use libstoragemgmt.Sql.References.{loses_parent}
use libstoragemgmt.Sim.Tables.{Pool, Disk, Volume, Db}
use libstoragemgmt.Sim.Cascade.{delete_volumes, owned_by, loses_owner}
use libstoragemgmt.Sim.Volumes.{sim_ag_ids_of_masked_vol}
use libstoragemgmt.Sim.Volumes.Resize.{volumes_of_id}
use libstoragemgmt.Sim.Volumes.Delete.{has_other_replica, RefusesDelete}

abbrev without_role : Disk → Disk
without_role d = record d { role = none }

abbrev without_owner : Disk → Disk
without_owner d = record d { owner_pool_id = none }

-- the disk is one of the list
abbrev is_one_of : List Disk → Disk → Bool
is_one_of ds e = any (λ d. e.id == d.id) ds

module _ (z : ℤ) (db : Db) where
  -- What is left of the tables where no hardware RAID made the volume: it is gone, with what refers to it.
  abbrev PlainGone : Db → Type 0
  PlainGone db' = (db' ≡ delete_volumes (λ w. is_id z w.id) db) × (volumes_of_id z db' ≡ [])

  -- What is left where one did: the pool is gone and the volumes in it, and every member disk has
  -- neither a role nor the pool as its owner.
  abbrev RaidGone : Volume → Db → Type 0
  RaidGone v db' =
      (db'.pools ≡ delete (λ p. p.id == v.pool_id) db.pools)
      × (select (λ p. p.id == v.pool_id) db'.pools ≡ [])
      × (db'.volumes
          ≡ delete (loses_parent Volume.pool_id Pool.id (λ p. p.id == v.pool_id) db.pools)
              db.volumes)
      × (db'.disks
          ≡ update (loses_owner (λ p. p.id == v.pool_id) db.pools) without_owner
              (update (is_one_of (select (owned_by v.pool_id) db.disks)) without_role db.disks))

  -- What a call leaves.
  abbrev pub Deletes : Result (Unit {0}) × Db → Type 0
  Deletes (ok _, db') =
      (v : Volume) × (volumes_of_id z db ≡ v ∷ [])
      × (sim_ag_ids_of_masked_vol z db ≡ [])
      × (has_other_replica z db ≡ false)
      × ((((v.is_hw_raid_vol == 0) ≡ true) × PlainGone db')
          ⊎ (((v.is_hw_raid_vol == 0) ≡ false) × RaidGone v db'))
  Deletes (err x, db') = (db' ≡ db) × RefusesDelete z db x
