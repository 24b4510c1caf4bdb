-- ===== src/Sim/Pools/Space.antt =====
-- The free space of the pools under changes of the tables, and that no pool is overdrawn
-- (`pools_view` and `BackStore`'s methods in plugin/sim_plugin/simarray.py).
use libstoragemgmt.Base.{
  ℕ, ℤ, pos, ◌⊎◌, ◌+ℤ◌, ◌-ℤ◌, ◌≤ℤ◌, ◌≡◌, Bool, true, false, ◌&&◌, [], ◌∷◌, ◌++◌, ◌==◌,
  if◌then◌else◌, arith, int_laws,
}
use libstoragemgmt.Sql.{is_id, select, update, sum_where}
use libstoragemgmt.Sql.Rows.{select-passes, All, All-map, All-delete, All-of-select}
use libstoragemgmt.Sql.Sums.{sum_where-append, sum_where-delete, sum_where-update, sum_where_nonneg}
use libstoragemgmt.Sim.Tables.{Pool, Volume, Fs, Db}
use libstoragemgmt.Sim.Cascade.{delete_volumes, delete_fss, delete_exps}
use libstoragemgmt.Sim.Pools.{
  free_space_of, total_space_of, vol_consumed_size, fs_consumed_size, sub_pool_consumed_size,
}

-- A volume's size is not negative, and it takes from its pool what it shows.
abbrev pub IsSized : Volume → Type 0
IsSized v = (pos 0 ≤ℤ v.consumed_size) × (v.total_space ≡ v.consumed_size)

abbrev pub IsSizedFs : Fs → Type 0
IsSizedFs f = (pos 0 ≤ℤ f.consumed_size) × (f.total_space ≡ f.consumed_size)

-- No pool has given out more than it has, and the sizes of what is in it are sound.
pub record IsSolvent (db : Db) : Type 0 where
  pub room : All (λ p. pos 0 ≤ℤ free_space_of db p) db.pools
  pub volume_sizes : All IsSized db.volumes
  pub fs_sizes : All IsSizedFs db.fss

-- What a volume or a file system of the pool `k` takes from the pool `j`.
abbrev pub charge : ℕ → ℕ → ℤ → ℤ
charge k j size = if k == j then size else pos 0

module _ (db : Db) (p : Pool) where
  pub free_space-append_volume :
      (v : Volume)
      → free_space_of (record db { volumes = db.volumes ++ v ∷ [] }) p
        ≡ free_space_of db p -ℤ charge v.pool_id p.id v.consumed_size
  unfolding free_space_of total_space_of vol_consumed_size fs_consumed_size sub_pool_consumed_size
      sum_where
  free_space-append_volume v =
      grind (
        int_laws,
        sum_where-append (λ w. Volume.pool_id w == p.id) Volume.consumed_size db.volumes v,
      )

  pub free_space-append_fs :
      (f : Fs)
      → free_space_of (record db { fss = db.fss ++ f ∷ [] }) p
        ≡ free_space_of db p -ℤ charge f.pool_id p.id f.consumed_size
  unfolding free_space_of total_space_of vol_consumed_size fs_consumed_size sub_pool_consumed_size
      sum_where
  free_space-append_fs f =
      grind (int_laws, sum_where-append (λ w. Fs.pool_id w == p.id) Fs.consumed_size db.fss f)

  pub free_space-update_volume :
      (q : Volume → Bool) (g : Volume → Volume) (v : Volume)
      → ((w : Volume) → Volume.pool_id (g w) ≡ w.pool_id)
      → select q db.volumes ≡ v ∷ []
      → free_space_of (record db { volumes = update q g db.volumes }) p
        ≡ free_space_of db p
          -ℤ charge v.pool_id p.id (Volume.consumed_size (g v) -ℤ v.consumed_size)
  unfolding free_space_of total_space_of vol_consumed_size fs_consumed_size sub_pool_consumed_size
  free_space-update_volume q g v same h = grind (
    int_laws,
    sum_where-update (λ w. Volume.pool_id w == p.id) q Volume.consumed_size g db.volumes v
        (λ w. rw (same w)) h,
  )

  pub free_space-update_fs :
      (q : Fs → Bool) (g : Fs → Fs) (f : Fs)
      → ((w : Fs) → Fs.pool_id (g w) ≡ w.pool_id)
      → select q db.fss ≡ f ∷ []
      → free_space_of (record db { fss = update q g db.fss }) p
        ≡ free_space_of db p -ℤ charge f.pool_id p.id (Fs.consumed_size (g f) -ℤ f.consumed_size)
  unfolding free_space_of total_space_of vol_consumed_size fs_consumed_size sub_pool_consumed_size
  free_space-update_fs q g f same h = grind (
    int_laws,
    sum_where-update (λ w. Fs.pool_id w == p.id) q Fs.consumed_size g db.fss f (λ w. rw (same w)) h,
  )

  -- what the volumes that pass `q` take from the pool
  abbrev pub taken_by : (Volume → Bool) → ℤ
  taken_by q = sum_where (λ v. (Volume.pool_id v == p.id) && q v) Volume.consumed_size db.volumes

  pub free_space-delete_volumes :
      (q : Volume → Bool) → free_space_of (delete_volumes q db) p ≡ free_space_of db p +ℤ taken_by q
  unfolding free_space_of delete_volumes total_space_of vol_consumed_size fs_consumed_size
      sub_pool_consumed_size
  free_space-delete_volumes q =
      grind (
        int_laws,
        sum_where-delete (λ w. Volume.pool_id w == p.id) q Volume.consumed_size db.volumes,
      )

  -- what the file systems that pass `q` take from the pool
  abbrev pub taken_by_fs : (Fs → Bool) → ℤ
  taken_by_fs q = sum_where (λ f. (Fs.pool_id f == p.id) && q f) Fs.consumed_size db.fss

  pub free_space-delete_fss :
      (q : Fs → Bool) → free_space_of (delete_fss q db) p ≡ free_space_of db p +ℤ taken_by_fs q
  unfolding free_space_of delete_fss delete_exps total_space_of vol_consumed_size fs_consumed_size
      sub_pool_consumed_size
  free_space-delete_fss q =
      grind (int_laws, sum_where-delete (λ w. Fs.pool_id w == p.id) q Fs.consumed_size db.fss)

-- Deleting volumes gives space back and overdraws no pool.
pub delete_volumes-IsSolvent :
    (q : Volume → Bool) (db : Db) → IsSolvent db → IsSolvent (delete_volumes q db)
unfolding delete_volumes
delete_volumes-IsSolvent q db solvent = record {
  room =
      All-map (λ p. pos 0 ≤ℤ free_space_of db p)
        (λ p. pos 0 ≤ℤ free_space_of (delete_volumes q db) p) db.pools
        (λ p room.
          let back : pos 0 ≤ℤ taken_by db p q = sum_where_nonneg _ Volume.consumed_size db.volumes (
            All-map IsSized (λ v. pos 0 ≤ℤ Volume.consumed_size v) db.volumes (λ v h. h.0)
              solvent.volume_sizes) in
          rw (free_space-delete_volumes db p q) (omega int_laws))
        solvent.room;
  volume_sizes = All-delete IsSized q db.volumes solvent.volume_sizes;
  fs_sizes = solvent.fs_sizes;
}

-- Deleting file systems gives space back and overdraws no pool.
pub delete_fss-IsSolvent : (q : Fs → Bool) (db : Db) → IsSolvent db → IsSolvent (delete_fss q db)
unfolding delete_fss delete_exps
delete_fss-IsSolvent q db solvent = record {
  room =
      All-map (λ p. pos 0 ≤ℤ free_space_of db p) (λ p. pos 0 ≤ℤ free_space_of (delete_fss q db) p)
        db.pools
        (λ p room.
          let back : pos 0 ≤ℤ taken_by_fs db p q = sum_where_nonneg _ Fs.consumed_size db.fss (
            All-map IsSizedFs (λ f. pos 0 ≤ℤ Fs.consumed_size f) db.fss (λ f h. h.0)
              solvent.fs_sizes) in
          rw (free_space-delete_fss db p q) (omega int_laws))
        solvent.room;
  volume_sizes = solvent.volume_sizes;
  fs_sizes = All-delete IsSizedFs q db.fss solvent.fs_sizes;
}

-- A change of the tables by which one pool loses at most its free space, and no other pool any.
pub room-of-charge :
    (z : ℤ) (p : Pool) (size : ℤ) (db db' : Db)
    → select (λ r. is_id z (Pool.id r)) db.pools ≡ p ∷ []
    → (size ≤ℤ free_space_of db p) ⊎ (size ≤ℤ pos 0)
    → ((q : Pool) → free_space_of db' q ≡ free_space_of db q -ℤ charge p.id q.id size)
    → All (λ q. pos 0 ≤ℤ free_space_of db q) db.pools
    → All (λ q. pos 0 ≤ℤ free_space_of db' q) db.pools
room-of-charge z p size db db' h enough spent room =
    All-of-select (λ q. pos 0 ≤ℤ free_space_of db q) (λ q. pos 0 ≤ℤ free_space_of db' q)
      (λ q. is_id z q.id) db.pools p h
      (λ q other before.
        let here : is_id z p.id ≡ true = select-passes (λ r. is_id z (Pool.id r)) db.pools p [] h in
        let apart : (p.id == q.id) ≡ false = ground arith in rw (spent q, apart) (omega int_laws))
      (λ before.
        let same : (p.id == p.id) ≡ true = ground arith in rw (spent p, same) (omega int_laws))
      room
