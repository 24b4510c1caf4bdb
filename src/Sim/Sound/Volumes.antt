-- ===== src/Sim/Sound/Volumes.antt =====
-- The operations on volumes (plugin/sim_plugin/simarray.py) keep the invariant.
use libstoragemgmt.Base.{
  ℕ, ℤ, pos, ◌≤ℤ◌, String, ◌≡◌, ◌⊎◌, ◌==◌, if◌then◌else◌, refl, inl, inr, [], ◌∷◌, arith,
  Bool-cases,
}
use libstoragemgmt.Common.{ErrorNumber, Exception, Result, ok, err}
use libstoragemgmt.Sql.{is_id, update}
use libstoragemgmt.Sql.Rows.{All, All-map, All-append, All-update, All-delete, All-found}
use libstoragemgmt.Sim.Tables.{Volume, Db}
use libstoragemgmt.Sim.Exec.Keeps.{Keeps}
use libstoragemgmt.Sql.Sums.{sum_where-update_same}
use libstoragemgmt.Sim.Cascade.{delete_volumes, sim_data_of_id}
use libstoragemgmt.Sim.Cascade.Lookup.{lookup_cases}
use libstoragemgmt.Sim.Pools.{
  free_space_of, total_space_of, vol_consumed_size, fs_consumed_size, sub_pool_consumed_size,
}
use libstoragemgmt.Sim.Pools.Space.{IsSized, delete_volumes-IsSolvent}
use libstoragemgmt.Sim.Volumes.{
  new_volume, sim_vol_create, sim_vol_resize, sim_vol_delete, sim_vol_of_id, sim_vol_state_change,
  sim_vol_pdc_set, sim_vol_rcp_set, sim_vol_wcp_set,
}
use libstoragemgmt.Sim.Volumes.Create.{Creates, sim_vol_create-Creates}
use libstoragemgmt.Sim.Volumes.Solvent.{sim_vol_create-IsSolvent}
use libstoragemgmt.Sim.Volumes.Resize.{
  Resizes, sim_vol_resize-Resizes, sim_vol_resize-IsSolvent, with_size, volumes_of_id,
}
use libstoragemgmt.Sim.Volumes.Delete.{Removal, sim_vol_delete-Removal, plain-eq}
use libstoragemgmt.Sim.Sound.{IsSound}

abbrev IsPlain : Volume → Type 0
IsPlain v = v.is_hw_raid_vol ≡ 0

created-IsPlain :
    (vpd name : String) (size : ℤ) (sim_pool_id : ℤ) (db : Db) (o : Result ℕ × Db)
    → Creates vpd name size sim_pool_id 0 db o
    → All IsPlain db.volumes
    → All IsPlain (Db.volumes o.1)
unfolding new_volume
created-IsPlain vpd name size sim_pool_id db (ok id, db') (p, _, _, _, _, e) plain =
    rw e (All-append IsPlain db.volumes _ plain refl)
created-IsPlain vpd name size sim_pool_id db (err x, db') (e, _) plain = rw e plain

pub sim_vol_create-IsSound :
    (vpd name : String) (size : ℤ) (sim_pool_id : ℤ)
    → pos 0 ≤ℤ size
    → Keeps IsSound (sim_vol_create vpd name size sim_pool_id 0)
sim_vol_create-IsSound vpd name size sim_pool_id sign db sound = record {
  solvent = sim_vol_create-IsSolvent vpd name size sim_pool_id 0 db sign sound.solvent;
  plain =
      created-IsPlain vpd name size sim_pool_id db (sim_vol_create vpd name size sim_pool_id 0 db)
        (sim_vol_create-Creates vpd name size sim_pool_id 0 db) sound.plain;
}

resized-IsPlain :
    (z size : ℤ) (db : Db) (o : Result (Unit {0}) × Db)
    → Resizes z size db o
    → All IsPlain db.volumes
    → All IsPlain (Db.volumes o.1)
resized-IsPlain z size db (ok _, db') (v, p, _, _, _, e) plain =
    rw e (All-update IsPlain (λ w. is_id z w.id) (with_size z size db) db.volumes (λ w h. h) plain)
resized-IsPlain z size db (err x, db') (e, _) plain = rw e plain

pub sim_vol_resize-IsSound : (z size : ℤ) → pos 0 ≤ℤ size → Keeps IsSound (sim_vol_resize z size)
sim_vol_resize-IsSound z size sign db sound = record {
  solvent = sim_vol_resize-IsSolvent z size db sign sound.solvent;
  plain =
      resized-IsPlain z size db (sim_vol_resize z size db) (sim_vol_resize-Resizes z size db)
        sound.plain;
}

deleted-IsSound : (z : ℤ) (db : Db) → IsSound db → IsSound (delete_volumes (λ w. is_id z w.id) db)
unfolding delete_volumes
deleted-IsSound z db sound = record {
  solvent = delete_volumes-IsSolvent (λ w. is_id z w.id) db sound.solvent;
  plain = All-delete IsPlain (λ w. is_id z w.id) db.volumes sound.plain;
}

after-IsSound :
    (z : ℤ) (db : Db) (o : Result (Unit {0}) × Db) → Removal z db o → IsSound db → IsSound o.1
after-IsSound z db (ok _, db') (v, h, _, _, e) sound =
    let hw : v.is_hw_raid_vol ≡ 0 =
      All-found IsPlain (λ w. is_id z w.id) db.volumes v [] h sound.plain in
    rw (e, plain-eq z db v hw) (deleted-IsSound z db sound)
after-IsSound z db (err x, db') (e, _) sound = rw e sound

pub sim_vol_delete-IsSound : (z : ℤ) → Keeps IsSound (sim_vol_delete z)
sim_vol_delete-IsSound z db sound =
    after-IsSound z db (sim_vol_delete z db) (sim_vol_delete-Removal z db) sound

abbrev changed : ℤ → (Volume → Volume) → Db → Db
changed z g db = record db { volumes = update (λ v. is_id z v.id) g db.volumes }

-- the columns that the space of a pool is read from stay
abbrev KeepsSpace : (Volume → Volume) → Type 0
KeepsSpace g =
    (v : Volume)
    → (Volume.pool_id (g v) ≡ v.pool_id)
      × (Volume.consumed_size (g v) ≡ v.consumed_size)
      × (Volume.total_space (g v) ≡ v.total_space)
      × (Volume.is_hw_raid_vol (g v) ≡ v.is_hw_raid_vol)

changed-IsSound :
    (z : ℤ) (g : Volume → Volume) (db : Db) → KeepsSpace g → IsSound db → IsSound (changed z g db)
unfolding free_space_of total_space_of vol_consumed_size fs_consumed_size sub_pool_consumed_size
changed-IsSound z g db keeps sound = record {
  solvent = record {
    room =
        All-map (λ p. pos 0 ≤ℤ free_space_of db p) (λ p. pos 0 ≤ℤ free_space_of (changed z g db) p)
          db.pools
          (λ p h.
            rw
              (sum_where-update_same (λ v. Volume.pool_id v == p.id) (λ v. is_id z v.id)
                Volume.consumed_size g db.volumes (λ v. rw (keeps v).0 refl) (λ v. (keeps v).1))
              h)
          sound.solvent.room;
    volume_sizes =
        All-update IsSized (λ v. is_id z v.id) g db.volumes (λ v h. rw ((keeps v).1, (keeps v).2) h)
          sound.solvent.volume_sizes;
    fs_sizes = sound.solvent.fs_sizes;
  };
  plain = All-update IsPlain (λ v. is_id z v.id) g db.volumes (λ v h. rw (keeps v).3 h) sound.plain;
}

changed_or_same-IsSound :
    (z : ℤ) (g : Volume → Volume) (db db' : Db)
    → (db' ≡ db) ⊎ (db' ≡ changed z g db)
    → KeepsSpace g
    → IsSound db
    → IsSound db'
changed_or_same-IsSound z g db db' (inl e) keeps sound = rw e sound
changed_or_same-IsSound z g db db' (inr e) keeps sound = rw e (changed-IsSound z g db keeps sound)

abbrev with_state : ℕ → Volume → Volume
with_state st v = record v { admin_state = st }

state_change-eq :
    (z : ℤ) (st : ℕ) (db : Db) (v : Volume)
    → volumes_of_id z db ≡ v ∷ []
    → (sim_vol_state_change z st db).1
      ≡ (if v.admin_state == st then db else changed z (with_state st) db)
unfolding sim_vol_state_change sim_vol_of_id sim_data_of_id
state_change-eq z st db v h = ground arith

state_change_lost :
    (z : ℤ) (st : ℕ) (db : Db) (x : Exception)
    → sim_vol_of_id z db ≡ (err x, db)
    → (sim_vol_state_change z st db).1 ≡ db
unfolding sim_vol_state_change
state_change_lost z st db x h = ground arith

pub sim_vol_state_change-IsSound : (z : ℤ) (st : ℕ) → Keeps IsSound (sim_vol_state_change z st)
unfolding sim_vol_of_id
sim_vol_state_change-IsSound z st db sound =
    elim (lookup_cases Db.volumes Volume.id z ErrorNumber.not_found_volume db) [
      | inl (v, h, _) ↦ rw (state_change-eq z st db v h) (elim (Bool-cases (v.admin_state == st)) [
        | inl same ↦ rw same sound
        | inr differs ↦
            rw differs (changed-IsSound z (with_state st) db (λ v. (refl, refl, refl, refl)) sound)
      ])
      | inr (x, _, h) ↦ rw (state_change_lost z st db x h) sound
    ]

pdc_set-cases :
    (z : ℤ) (x : ℕ) (db : Db)
    → ((sim_vol_pdc_set z x db).1 ≡ db)
      ⊎ ((sim_vol_pdc_set z x db).1 ≡ changed z (λ v. record v { phy_disk_cache = x }) db)
unfolding sim_vol_pdc_set sim_vol_of_id sim_data_of_id
pdc_set-cases z x db = ground arith

pub sim_vol_pdc_set-IsSound : (z : ℤ) (x : ℕ) → Keeps IsSound (sim_vol_pdc_set z x)
sim_vol_pdc_set-IsSound z x db sound =
    changed_or_same-IsSound z (λ v. record v { phy_disk_cache = x }) db _ (pdc_set-cases z x db)
      (λ v. (refl, refl, refl, refl)) sound

rcp_set-cases :
    (z : ℤ) (x : ℕ) (db : Db)
    → ((sim_vol_rcp_set z x db).1 ≡ db)
      ⊎ ((sim_vol_rcp_set z x db).1 ≡ changed z (λ v. record v { read_cache_policy = x }) db)
unfolding sim_vol_rcp_set sim_vol_of_id sim_data_of_id
rcp_set-cases z x db = ground arith

pub sim_vol_rcp_set-IsSound : (z : ℤ) (x : ℕ) → Keeps IsSound (sim_vol_rcp_set z x)
sim_vol_rcp_set-IsSound z x db sound =
    changed_or_same-IsSound z (λ v. record v { read_cache_policy = x }) db _ (rcp_set-cases z x db)
      (λ v. (refl, refl, refl, refl)) sound

wcp_set-cases :
    (z : ℤ) (x : ℕ) (db : Db)
    → ((sim_vol_wcp_set z x db).1 ≡ db)
      ⊎ ((sim_vol_wcp_set z x db).1 ≡ changed z (λ v. record v { write_cache_policy = x }) db)
unfolding sim_vol_wcp_set sim_vol_of_id sim_data_of_id
wcp_set-cases z x db = ground arith

pub sim_vol_wcp_set-IsSound : (z : ℤ) (x : ℕ) → Keeps IsSound (sim_vol_wcp_set z x)
sim_vol_wcp_set-IsSound z x db sound =
    changed_or_same-IsSound z (λ v. record v { write_cache_policy = x }) db _ (wcp_set-cases z x db)
      (λ v. (refl, refl, refl, refl)) sound
