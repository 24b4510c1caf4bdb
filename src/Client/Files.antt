-- ===== src/Client/Files.antt =====
-- The methods of `Client` (python_binding/lsm/_client.py) for file systems, snapshots and exports: the remote call
-- that each makes, or the exception of its checks.
use libstoragemgmt.Base.{ℕ, Option, List, [], ◌∷◌}
use libstoragemgmt.Data.Value.{Class, Value, end, field}
use libstoragemgmt.Ipc.Raised.{Outcome, ok}
use libstoragemgmt.Client.Expected.{one, seq, none_left, next, nothing, a_bool, a_text, instance_of}
use libstoragemgmt.Client.Guards.{Call, unless, check_search_key, key_value, text_list, share_host}

unfoldable pub fs : (search_key : Option (List ℕ)) (search_value flags : Value) → Outcome Call
fs search_key search_value flags =
    check_search_key search_key ("id" ∷ "system_id" ∷ "pool_id" ∷ []) (record {
      method = "fs";
      args =
          field "search_key" (key_value search_key)
            (field "search_value" search_value (field "flags" flags end));
      returns = next (seq (next (one (instance_of Class.file_system)) none_left)) none_left;
    })

unfoldable pub fs_delete : (fs flags : Value) → Outcome Call
fs_delete fs flags = ok (record {
  method = "fs_delete";
  args = field "fs" fs (field "flags" flags end);
  returns = next (one a_text) none_left;
})

unfoldable pub fs_resize : (fs new_size_bytes flags : Value) → Outcome Call
fs_resize fs new_size_bytes flags = ok (record {
  method = "fs_resize";
  args = field "fs" fs (field "new_size_bytes" new_size_bytes (field "flags" flags end));
  returns = next (one a_text) (next (one (instance_of Class.file_system)) none_left);
})

unfoldable pub fs_create : (pool name size_bytes flags : Value) → Outcome Call
fs_create pool name size_bytes flags = ok (record {
  method = "fs_create";
  args =
      field "pool" pool
        (field "name" name (field "size_bytes" size_bytes (field "flags" flags end)));
  returns = next (one a_text) (next (one (instance_of Class.file_system)) none_left);
})

unfoldable pub fs_clone : (src_fs dest_fs_name snapshot flags : Value) → Outcome Call
fs_clone src_fs dest_fs_name snapshot flags = ok (record {
  method = "fs_clone";
  args =
      field "src_fs" src_fs
        (field "dest_fs_name" dest_fs_name (field "snapshot" snapshot (field "flags" flags end)));
  returns = next (one a_text) (next (one (instance_of Class.file_system)) none_left);
})

unfoldable pub fs_file_clone :
    (fs src_file_name dest_file_name snapshot flags : Value) → Outcome Call
fs_file_clone fs src_file_name dest_file_name snapshot flags = ok (record {
  method = "fs_file_clone";
  args = field "fs" fs (
      field "src_file_name" src_file_name (
        field "dest_file_name" dest_file_name
          (field "snapshot" snapshot (field "flags" flags end))));
  returns = next (one a_text) none_left;
})

unfoldable pub fs_snapshots : (fs flags : Value) → Outcome Call
fs_snapshots fs flags = ok (record {
  method = "fs_snapshots";
  args = field "fs" fs (field "flags" flags end);
  returns = next (seq (next (one (instance_of Class.fs_snapshot)) none_left)) none_left;
})

unfoldable pub fs_snapshot_create : (fs snapshot_name flags : Value) → Outcome Call
fs_snapshot_create fs snapshot_name flags = ok (record {
  method = "fs_snapshot_create";
  args = field "fs" fs (field "snapshot_name" snapshot_name (field "flags" flags end));
  returns = next (one a_text) (next (one (instance_of Class.fs_snapshot)) none_left);
})

unfoldable pub fs_snapshot_delete : (fs snapshot flags : Value) → Outcome Call
fs_snapshot_delete fs snapshot flags = ok (record {
  method = "fs_snapshot_delete";
  args = field "fs" fs (field "snapshot" snapshot (field "flags" flags end));
  returns = next (one a_text) none_left;
})

unfoldable pub fs_snapshot_restore :
    (fs snapshot files restore_files all_files flags : Value) → Outcome Call
fs_snapshot_restore fs snapshot files restore_files all_files flags = ok (record {
  method = "fs_snapshot_restore";
  args = field "fs" fs (
      field "snapshot" snapshot (
        field "files" files (
          field "restore_files" restore_files
            (field "all_files" all_files (field "flags" flags end)))));
  returns = next (one a_text) none_left;
})

unfoldable pub fs_child_dependency : (fs files flags : Value) → Outcome Call
fs_child_dependency fs files flags = ok (record {
  method = "fs_child_dependency";
  args = field "fs" fs (field "files" files (field "flags" flags end));
  returns = next (one a_bool) none_left;
})

unfoldable pub fs_child_dependency_rm : (fs files flags : Value) → Outcome Call
fs_child_dependency_rm fs files flags = ok (record {
  method = "fs_child_dependency_rm";
  args = field "fs" fs (field "files" files (field "flags" flags end));
  returns = next (one a_text) none_left;
})

unfoldable pub export_auth : (flags : Value) → Outcome Call
export_auth flags = ok (record {
  method = "export_auth";
  args = field "flags" flags end;
  returns = next (seq (next (one a_text) none_left)) none_left;
})

unfoldable pub exports : (search_key : Option (List ℕ)) (search_value flags : Value) → Outcome Call
exports search_key search_value flags = check_search_key search_key ("id" ∷ "fs_id" ∷ []) (record {
  method = "exports";
  args =
      field "search_key" (key_value search_key)
        (field "search_value" search_value (field "flags" flags end));
  returns = next (seq (next (one (instance_of Class.nfs_export)) none_left)) none_left;
})

unfoldable pub export_fs :
    (fs_id export_path root_list : Value) (rw_list ro_list : List (List ℕ))
    (anon_uid anon_gid auth_type options flags : Value)
    → Outcome Call
export_fs fs_id export_path root_list rw_list ro_list anon_uid anon_gid auth_type options flags =
    unless (share_host rw_list ro_list) "Host cannot both in rw_list and ro_list." (record {
      method = "export_fs";
      args = field "fs_id" fs_id (
          field "export_path" export_path (
            field "root_list" root_list (
              field "rw_list" (text_list rw_list) (
                field "ro_list" (text_list ro_list) (
                  field "anon_uid" anon_uid (
                    field "anon_gid" anon_gid (
                      field "auth_type" auth_type
                        (field "options" options (field "flags" flags end)))))))));
      returns = next (one (instance_of Class.nfs_export)) none_left;
    })

unfoldable pub export_remove : (export flags : Value) → Outcome Call
export_remove export flags = ok (record {
  method = "export_remove";
  args = field "export" export (field "flags" flags end);
  returns = next (one nothing) none_left;
})
