-- ===== src/Sim/Filesystems.antt =====
-- File systems, their snapshots and clones: `BackStore`'s methods of plugin/sim_plugin/simarray.py.
-- `time.time()` is an argument, in whole seconds.
pub mod Create
pub mod Resize
pub mod Delete
use libstoragemgmt.Base.{
  ℕ, zero, ℤ, pos, ◌-ℤ◌, ltb_ℤ, eqb_ℤ, String, Bool, true, false, not, ◌&&◌, ◌||◌, none, some,
  Option, List, [], ◌∷◌, ◌++◌, map, ◌==◌, str_eq,
}
use libstoragemgmt.Common.{ErrorNumber}
use libstoragemgmt.Sql.{is_id, is_empty, select, delete, update, any, fresh}
use libstoragemgmt.Sim.Tables.{Fs, FsSnap, FsClone, Db}
use libstoragemgmt.Sim.Exec.{Exec, pure, gets, raise_if, modify, try_integrity, ◌>>=◌, ◌>>◌}
use libstoragemgmt.Sim.Cascade.{delete_fss, data_add, sim_data_of_id}
use libstoragemgmt.Sim.Pools.{sim_pool_of_id, check_pool_free_space, block_rounding, free_space_of}

-- `if sim_id:` holds for no None and no 0
abbrev pub truthy : Option ℤ → Bool
truthy none = false
truthy (some (pos zero)) = false
truthy (some z) = true

-- `sim_fs_of_id` with its default `raise_error=True`
unfoldable pub sim_fs_of_id : ℤ → Exec Fs
sim_fs_of_id sim_fs_id = sim_data_of_id Db.fss Fs.id sim_fs_id ErrorNumber.not_found_fs

-- INSERT INTO fss, with its UNIQUE name and its FOREIGN KEY(pool_id)
add_fs : Fs → Exec ℕ
unfolding data_add
add_fs f db =
    data_add (any (λ g. str_eq g.name f.name) db.fss || not (any (λ p. p.id == f.pool_id) db.pools))
      f.id (λ s. record s { fss = s.fss ++ f ∷ [] }) db

unfoldable pub sim_fs_create : String → ℤ → ℤ → Exec ℕ
unfolding add_fs
sim_fs_create name size_bytes sim_pool_id = do
  let size = block_rounding size_bytes
  sim_pool ← check_pool_free_space sim_pool_id size
  id ← gets (λ db. fresh Fs.id db.fss)
  try_integrity
      (add_fs (record {
        id = id;
        name = name;
        total_space = size;
        consumed_size = size;
        free_space = size;
        pool_id = sim_pool.id;
      }))
      ErrorNumber.name_conflict

unfoldable pub clone_dst_sim_fs_ids_of_src : ℤ → Exec (List ℕ)
clone_dst_sim_fs_ids_of_src src_sim_fs_id = do
  sim_fs_of_id src_sim_fs_id
  gets (λ db. map FsClone.dst_fs_id (select (λ c. is_id src_sim_fs_id c.src_fs_id) db.fs_clones))

unfoldable pub sim_fs_delete : ℤ → Exec (Unit {0})
sim_fs_delete sim_fs_id = do
  sim_fs_of_id sim_fs_id
  clones ← clone_dst_sim_fs_ids_of_src sim_fs_id
  raise_if (not (is_empty clones)) ErrorNumber.has_child_dependency
  modify (delete_fss (λ f. is_id sim_fs_id f.id))

unfoldable pub sim_fs_resize : ℤ → ℤ → Exec (Unit {0})
sim_fs_resize sim_fs_id size_bytes = do
  let new_size_bytes = block_rounding size_bytes
  sim_fs ← sim_fs_of_id sim_fs_id
  raise_if (eqb_ℤ sim_fs.total_space new_size_bytes) ErrorNumber.no_state_change
  sim_pool ← sim_pool_of_id (pos sim_fs.pool_id)
  free ← gets (λ db. free_space_of db sim_pool)
  raise_if
      (ltb_ℤ sim_fs.total_space new_size_bytes && ltb_ℤ free (new_size_bytes -ℤ sim_fs.total_space))
      ErrorNumber.not_enough_space
  modify (λ db. record db {
    fss =
        update (λ f. is_id sim_fs_id f.id)
          (λ f. record f {
            total_space = new_size_bytes;
            consumed_size = new_size_bytes;
            free_space = new_size_bytes;
          })
          db.fss;
  })

unfoldable pub sim_fs_snaps : ℤ → Exec (List FsSnap)
sim_fs_snaps sim_fs_id = do
  sim_fs_of_id sim_fs_id
  gets (λ db. select (λ s. is_id sim_fs_id s.fs_id) db.fs_snaps)

-- The file system is None where a caller asks for none.
unfoldable pub sim_fs_snap_of_id : ℤ → Option ℤ → Exec FsSnap
sim_fs_snap_of_id sim_fs_snap_id sim_fs_id = do
  snap ← sim_data_of_id Db.fs_snaps FsSnap.id sim_fs_snap_id ErrorNumber.not_found_fs_ss
  raise_if (truthy sim_fs_id && not (elim sim_fs_id [ none ↦ true | some z ↦ is_id z snap.fs_id ]))
      ErrorNumber.not_found_fs_ss
  pure snap

-- `if sim_fs_snap_id: self.sim_fs_snap_of_id(sim_fs_snap_id, sim_fs_id)`
unfoldable pub check_snap : Option ℤ → ℤ → Exec (Unit {0})
check_snap none sim_fs_id = pure tt
check_snap (some (pos zero)) sim_fs_id = pure tt
check_snap (some z) sim_fs_id = do sim_fs_snap_of_id z (some sim_fs_id); pure tt

-- INSERT INTO fs_snaps, with its UNIQUE name and its FOREIGN KEY(fs_id)
unfoldable pub sim_fs_snap_create : ℕ → ℤ → String → Exec ℕ
unfolding data_add
sim_fs_snap_create now sim_fs_id name = do
  fs ← sim_fs_of_id sim_fs_id
  id ← gets (λ db. fresh FsSnap.id db.fs_snaps)
  try_integrity
      (λ db.
        data_add
          (any (λ s. str_eq s.name name) db.fs_snaps || not (any (λ f. f.id == fs.id) db.fss)) id
          (λ s. record s {
            fs_snaps =
                s.fs_snaps ++ record { id = id; name = name; fs_id = fs.id; timestamp = now } ∷ [];
          })
          db)
      ErrorNumber.name_conflict

-- `sim_fs_snap_restore` and `sim_fs_file_clone` check what they are given and change nothing.
unfoldable pub sim_fs_snap_restore : ℤ → Option ℤ → Exec (Unit {0})
sim_fs_snap_restore sim_fs_id sim_fs_snap_id = do
  sim_fs_of_id sim_fs_id
  check_snap sim_fs_snap_id sim_fs_id

unfoldable pub sim_fs_file_clone : ℤ → Option ℤ → Exec (Unit {0})
sim_fs_file_clone sim_fs_id sim_fs_snap_id = do
  sim_fs_of_id sim_fs_id
  check_snap sim_fs_snap_id sim_fs_id

unfoldable pub sim_fs_snap_delete : ℤ → ℤ → Exec (Unit {0})
sim_fs_snap_delete sim_fs_snap_id sim_fs_id = do
  sim_fs_of_id sim_fs_id
  sim_fs_snap_of_id sim_fs_snap_id (some sim_fs_id)
  modify (λ db. record db { fs_snaps = delete (λ s. is_id sim_fs_snap_id s.id) db.fs_snaps })

unfoldable pub sim_fs_snap_del_by_fs : ℤ → Exec (Unit {0})
sim_fs_snap_del_by_fs sim_fs_id =
    modify (λ db. record db { fs_snaps = delete (λ s. is_id sim_fs_id s.fs_id) db.fs_snaps })

unfoldable pub sim_fs_clone : ℤ → ℤ → Option ℤ → Exec (Unit {0})
sim_fs_clone src_sim_fs_id dst_sim_fs_id sim_fs_snap_id = do
  src ← sim_fs_of_id src_sim_fs_id
  dst ← sim_fs_of_id dst_sim_fs_id
  check_snap sim_fs_snap_id src_sim_fs_id
  modify (λ db. record db {
    fs_clones = db.fs_clones ++ record { src_fs_id = src.id; dst_fs_id = dst.id } ∷ [];
  })

unfoldable pub sim_fs_src_clone_break : ℤ → Exec (Unit {0})
sim_fs_src_clone_break src_sim_fs_id =
    modify
      (λ db. record db { fs_clones = delete (λ c. is_id src_sim_fs_id c.src_fs_id) db.fs_clones })
