-- ===== src/Sim/Masks/References.antt =====
-- The foreign keys of the table `vol_masks` (plugin/sim_plugin/simarray.py).
use libstoragemgmt.Base.{ℤ, ◌≡◌, ◌⊎◌, inl, inr, Bool, Bool-cases, [], ◌==◌, arith}
use libstoragemgmt.Common.{Result, ok, err}
use libstoragemgmt.Sql.{is_id}
use libstoragemgmt.Sql.Rows.{any-of-select}
use libstoragemgmt.Sql.References.{
  RefersTo, RefersTo-append, RefersTo-delete, RefersTo-cascade, loses_parent,
}
use libstoragemgmt.Sim.Tables.{Pool, Volume, Ag, VolMask, Db}
use libstoragemgmt.Sim.Cascade.{
  sim_data_of_id, delete_volumes, delete_ags, delete_pools, delete_fss, delete_exps,
}
use libstoragemgmt.Sim.Groups.{sim_ag_of_id, sim_ag_format, sim_ag_delete}
use libstoragemgmt.Sim.Groups.Read.{ag-sim_ag_of_row}
use libstoragemgmt.Sim.Volumes.{sim_vol_of_id, sim_vol_delete, remove_volume}
use libstoragemgmt.Sim.Volumes.Delete.{Removal, sim_vol_delete-Removal}
use libstoragemgmt.Sim.Masks.{sim_vol_mask, sim_vol_unmask}
use libstoragemgmt.Sim.Masks.RoundTrip.{Masked, sim_vol_mask-Masked, without_mask}

-- Every mask is of a volume and an access group that are there.
pub record MasksRefer (db : Db) : Type 0 where
  pub to_volumes : RefersTo VolMask.vol_id Volume.id db.vol_masks db.volumes
  pub to_ags : RefersTo VolMask.ag_id Ag.id db.vol_masks db.ags

delete_volumes-MasksRefer :
    (q : Volume → Bool) (db : Db) → MasksRefer db → MasksRefer (delete_volumes q db)
unfolding delete_volumes
delete_volumes-MasksRefer q db refer = record {
  to_volumes = RefersTo-cascade VolMask.vol_id Volume.id q db.vol_masks db.volumes refer.to_volumes;
  to_ags = RefersTo-delete VolMask.ag_id Ag.id _ db.vol_masks db.ags refer.to_ags;
}

delete_ags-MasksRefer : (q : Ag → Bool) (db : Db) → MasksRefer db → MasksRefer (delete_ags q db)
unfolding delete_ags
delete_ags-MasksRefer q db refer = record {
  to_volumes = RefersTo-delete VolMask.vol_id Volume.id _ db.vol_masks db.volumes refer.to_volumes;
  to_ags = RefersTo-cascade VolMask.ag_id Ag.id q db.vol_masks db.ags refer.to_ags;
}

delete_pools-MasksRefer :
    (q : Pool → Bool) (db : Db) → MasksRefer db → MasksRefer (delete_pools q db)
unfolding delete_pools delete_fss delete_exps
delete_pools-MasksRefer q db refer =
    let rest : MasksRefer (delete_volumes (loses_parent Volume.pool_id Pool.id q db.pools) db) =
      delete_volumes-MasksRefer (loses_parent Volume.pool_id Pool.id q db.pools) db refer in
    record { to_volumes = rest.to_volumes; to_ags = rest.to_ags }

remove_volume-MasksRefer :
    (z : ℤ) (v : Volume) (db : Db) → MasksRefer db → MasksRefer (remove_volume z v db)
unfolding remove_volume
remove_volume-MasksRefer z v db refer = elim (Bool-cases (v.is_hw_raid_vol == 0)) [
  | inl plain ↦ rw plain (delete_volumes-MasksRefer (λ w. is_id z w.id) db refer)
  | inr hw ↦ rw hw (
      delete_pools-MasksRefer (λ p. p.id == v.pool_id) _
        (record { to_volumes = refer.to_volumes; to_ags = refer.to_ags }))
]

deleted-MasksRefer :
    (z : ℤ) (db : Db) (o : Result (Unit {0}) × Db) → Removal z db o → MasksRefer db → MasksRefer o.1
deleted-MasksRefer z db (ok _, db') (v, _, _, _, e) refer =
    rw e (remove_volume-MasksRefer z v db refer)
deleted-MasksRefer z db (err x, db') (e, _) refer = rw e refer

Masked-MasksRefer :
    (z a : ℤ) (db : Db) (o : Result (Unit {0}) × Db)
    → Masked z a db o
    → MasksRefer db
    → MasksRefer o.1
Masked-MasksRefer z a db (ok _, db') (v, g, r, h, k, e, _, f) refer =
    let owner : g.ag ≡ r = ag-sim_ag_of_row db.inits r g e in
    rw f (record {
      to_volumes =
          RefersTo-append VolMask.vol_id Volume.id db.vol_masks db.volumes _ refer.to_volumes (
            any-of-select (λ w. w.id == v.id) (λ w. is_id z w.id) db.volumes v [] h (ground arith));
      to_ags = RefersTo-append VolMask.ag_id Ag.id db.vol_masks db.ags _ refer.to_ags (
          rw owner
            (any-of-select (λ w. w.id == r.id) (λ w. is_id a w.id) db.ags r [] k (ground arith)));
    })
Masked-MasksRefer z a db (err x, db') e refer = rw e refer

unmask-cases :
    (z a : ℤ) (db : Db)
    → ((sim_vol_unmask z a db).1 ≡ db) ⊎ ((sim_vol_unmask z a db).1 ≡ without_mask z a db)
unfolding sim_vol_unmask sim_vol_of_id sim_ag_of_id sim_ag_format sim_data_of_id
unmask-cases z a db = ground arith

ag_delete-cases :
    (a : ℤ) (db : Db)
    → ((sim_ag_delete a db).1 ≡ db) ⊎ ((sim_ag_delete a db).1 ≡ delete_ags (λ g. is_id a g.id) db)
unfolding sim_ag_delete sim_ag_of_id sim_ag_format sim_data_of_id
ag_delete-cases a db = ground arith

unmasked-MasksRefer : (z a : ℤ) (db : Db) → MasksRefer db → MasksRefer (without_mask z a db)
unmasked-MasksRefer z a db refer = record {
  to_volumes = RefersTo-delete VolMask.vol_id Volume.id _ db.vol_masks db.volumes refer.to_volumes;
  to_ags = RefersTo-delete VolMask.ag_id Ag.id _ db.vol_masks db.ags refer.to_ags;
}

-- Where every mask is of a volume and an access group that are there, it stays so under masking,
-- unmasking, the deletion of a volume (of a hardware RAID too, with its pool) and the deletion of an
-- access group, whether they return or raise.
pub vol_masks-MasksRefer :
    (sim_vol_id sim_ag_id : ℤ) (db : Db)
    → MasksRefer db
    → MasksRefer (sim_vol_mask sim_vol_id sim_ag_id db).1
      × MasksRefer (sim_vol_unmask sim_vol_id sim_ag_id db).1
      × MasksRefer (sim_vol_delete sim_vol_id db).1
      × MasksRefer (sim_ag_delete sim_ag_id db).1
vol_masks-MasksRefer z a db refer = (
  Masked-MasksRefer z a db (sim_vol_mask z a db) (sim_vol_mask-Masked z a db) refer,
  elim (unmask-cases z a db) [
    | inl e ↦ rw e refer
    | inr e ↦ rw e (unmasked-MasksRefer z a db refer)
  ],
  deleted-MasksRefer z db (sim_vol_delete z db) (sim_vol_delete-Removal z db) refer,
  elim (ag_delete-cases a db) [
    | inl e ↦ rw e refer
    | inr e ↦ rw e (delete_ags-MasksRefer (λ g. is_id a g.id) db refer)
  ],
)
