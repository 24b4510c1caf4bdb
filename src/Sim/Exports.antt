-- ===== src/Sim/Exports.antt =====
-- NFS exports: the view `exps_view` and `BackStore`'s methods on exports
-- (plugin/sim_plugin/simarray.py). What `exp_path=None` stands for, "/nfs_exp_" and eight random
-- digits, is an argument. `anon_uid`, `anon_gid`, `auth_type` and `options` are the texts that
-- `_data_add` writes, '' for None.
use libstoragemgmt.Base.{
  ℕ, ℤ, String, not, ◌||◌, Option, none, some, List, [], ◌∷◌, ◌++◌, map, ◌==◌, str_eq,
  if◌then◌else◌,
}
use libstoragemgmt.Common.{ErrorNumber}
use libstoragemgmt.Sql.{is_id, select, any, fresh}
use libstoragemgmt.Sim.Tables.{Exp, ExpHost, Db}
use libstoragemgmt.Sim.Exec.{Exec, pure, gets, modify, try_integrity, ◌>>=◌, ◌>>◌}
use libstoragemgmt.Sim.Cascade.{delete_exps, data_add, sim_data_of_id}
use libstoragemgmt.Sim.Groups.Split.{join_ids, split_ids}
use libstoragemgmt.Sim.Filesystems.{sim_fs_of_id}

pub record SimExp : Type 0 where
  pub exp : Exp
  pub root_hosts : List String
  pub rw_hosts : List String
  pub ro_hosts : List String

-- `_sim_exp_format` on one column: NULL and '' both give the empty list
unfoldable pub format_hosts : List String → List String
format_hosts [] = []
format_hosts (x ∷ hosts) = if str_eq (join_ids x hosts) "" then [] else split_ids (join_ids x hosts)

hosts_of : ℕ → List ExpHost → List String
hosts_of k t = format_hosts (map ExpHost.host (select (λ h. h.exp_id == k) t))

unfoldable pub sim_exp_format : Db → Exp → SimExp
unfolding hosts_of
sim_exp_format db e = record {
  exp = e;
  root_hosts = hosts_of e.id db.exp_root_hosts;
  rw_hosts = hosts_of e.id db.exp_rw_hosts;
  ro_hosts = hosts_of e.id db.exp_ro_hosts;
}

unfoldable pub sim_exp_of_id : ℤ → Exec SimExp
sim_exp_of_id sim_exp_id = do
  e ← sim_data_of_id Db.exps Exp.id sim_exp_id ErrorNumber.not_found_nfs_export
  gets (λ db. sim_exp_format db e)

unfoldable pub sim_exps : Db → List SimExp
sim_exps db = map (sim_exp_format db) db.exps

-- the rows that one of the loops over the hosts inserts
unfoldable pub host_rows : ℕ → List String → List ExpHost
host_rows k = map (λ h. record { host = h; exp_id = k })

abbrev pub path_or : Option String → String → String
path_or none random = random
path_or (some p) random = p

-- INSERT INTO exps, with its UNIQUE exp_path and its FOREIGN KEY(fs_id)
add_exp : Exp → Exec ℕ
unfolding data_add
add_exp e db =
    data_add
      (any (λ f. str_eq f.exp_path e.exp_path) db.exps || not (any (λ f. f.id == e.fs_id) db.fss))
      e.id (λ s. record s { exps = s.exps ++ e ∷ [] }) db

unfoldable pub sim_exp_create :
    String
    → ℤ
    → Option String
    → List String
    → List String
    → List String
    → String
    → String
    → String
    → String
    → Exec ℕ
unfolding add_exp
sim_exp_create random sim_fs_id exp_path root_hosts rw_hosts ro_hosts anon_uid anon_gid auth_type
      options =
    do
      fs ← sim_fs_of_id sim_fs_id
      id ← gets (λ db. fresh Exp.id db.exps)
      sim_exp_id ←
          try_integrity
            (add_exp (record {
              id = id;
              fs_id = fs.id;
              exp_path = path_or exp_path random;
              auth_type = auth_type;
              anon_uid = anon_uid;
              anon_gid = anon_gid;
              options = options;
            }))
            ErrorNumber.name_conflict
      modify (λ db. record db {
        exp_root_hosts = db.exp_root_hosts ++ host_rows sim_exp_id root_hosts;
        exp_rw_hosts = db.exp_rw_hosts ++ host_rows sim_exp_id rw_hosts;
        exp_ro_hosts = db.exp_ro_hosts ++ host_rows sim_exp_id ro_hosts;
      })
      pure sim_exp_id

unfoldable pub sim_exp_delete : ℤ → Exec (Unit {0})
sim_exp_delete sim_exp_id = do
  sim_exp_of_id sim_exp_id
  modify (delete_exps (λ e. is_id sim_exp_id e.id))
