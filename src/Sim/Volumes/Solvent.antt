-- ===== src/Sim/Volumes/Solvent.antt =====
-- No pool is overdrawn by the methods of `BackStore` on volumes (plugin/sim_plugin/simarray.py).
use libstoragemgmt.Base.{ℕ, ℤ, pos, ◌≤ℤ◌, String, ◌≡◌, refl, inl, [], ◌∷◌, int_laws}
use libstoragemgmt.Common.{Result, ok, err}
use libstoragemgmt.Sql.Rows.{All-append}
use libstoragemgmt.Sim.Tables.{Pool, Db}
use libstoragemgmt.Sim.Pools.{free_space_of, block_rounding}
use libstoragemgmt.Sim.Pools.Rounding.{block_rounding_lem}
use libstoragemgmt.Sim.Pools.Space.{room-of-charge, IsSized, IsSolvent, free_space-append_volume}
use libstoragemgmt.Sim.Volumes.{new_volume, sim_vol_create}
use libstoragemgmt.Sim.Volumes.Create.{
  pools_of_id, with_volume, created, Creates, sim_vol_create-Creates,
}

module _ (vpd name : String) (size : ℤ) (sim_pool_id : ℤ) (hw : ℕ) (db : Db) where
  created-IsSolvent :
      (p : Pool)
      → pools_of_id sim_pool_id db ≡ p ∷ []
      → block_rounding size ≤ℤ free_space_of db p
      → pos 0 ≤ℤ size
      → IsSolvent db
      → IsSolvent (with_volume (created vpd name size sim_pool_id hw db p) db)
  unfolding new_volume
  created-IsSolvent p h enough sign solvent = record {
    room =
        room-of-charge sim_pool_id p (block_rounding size) db
          (with_volume (created vpd name size sim_pool_id hw db p) db) h (inl enough)
          (λ q. free_space-append_volume db q (created vpd name size sim_pool_id hw db p))
          solvent.room;
    volume_sizes =
        All-append IsSized db.volumes _ solvent.volume_sizes
          (omega (int_laws, block_rounding_lem size), refl);
    fs_sizes = solvent.fs_sizes;
  }

  outcome-IsSolvent :
      (o : Result ℕ × Db)
      → Creates vpd name size sim_pool_id hw db o
      → pos 0 ≤ℤ size
      → IsSolvent db
      → IsSolvent o.1
  outcome-IsSolvent (ok id, db') (p, h, enough, free, _, e) sign solvent =
      rw e (created-IsSolvent p h enough sign solvent)
  outcome-IsSolvent (err x, db') (e, _) sign solvent = rw e solvent

  -- Creating a volume of any size from 0 on, in tables where no pool is overdrawn and no size is
  -- negative, keeps it so, whether the call returns or raises.
  pub sim_vol_create-IsSolvent :
      pos 0 ≤ℤ size → IsSolvent db → IsSolvent (sim_vol_create vpd name size sim_pool_id hw db).1
  sim_vol_create-IsSolvent =
      outcome-IsSolvent (sim_vol_create vpd name size sim_pool_id hw db)
        (sim_vol_create-Creates vpd name size sim_pool_id hw db)
