-- ===== src/Client/Block.antt =====
-- The methods of `Client` (python_binding/lsm/_client.py) for volumes: the remote call
-- that each makes, or the exception of its checks.
use libstoragemgmt.Base.{ℕ, Option, List, [], ◌∷◌}
use libstoragemgmt.Data.Value.{Class, Value, end, field}
use libstoragemgmt.Ipc.Raised.{Outcome, ok}
use libstoragemgmt.Client.Expected.{
  one, seq, none_left, next, nothing, an_int, a_bool, a_text, instance_of,
}
use libstoragemgmt.Client.Guards.{Call, check_search_key, key_value}

unfoldable pub volumes : (search_key : Option (List ℕ)) (search_value flags : Value) → Outcome Call
volumes search_key search_value flags =
    check_search_key search_key ("id" ∷ "system_id" ∷ "pool_id" ∷ []) (record {
      method = "volumes";
      args =
          field "search_key" (key_value search_key)
            (field "search_value" search_value (field "flags" flags end));
      returns = next (seq (next (one (instance_of Class.volume)) none_left)) none_left;
    })

unfoldable pub volume_create :
    (pool volume_name size_bytes provisioning flags : Value) → Outcome Call
volume_create pool volume_name size_bytes provisioning flags = ok (record {
  method = "volume_create";
  args = field "pool" pool (
      field "volume_name" volume_name (
        field "size_bytes" size_bytes
          (field "provisioning" provisioning (field "flags" flags end))));
  returns = next (one a_text) (next (one (instance_of Class.volume)) none_left);
})

unfoldable pub volume_resize : (volume new_size_bytes flags : Value) → Outcome Call
volume_resize volume new_size_bytes flags = ok (record {
  method = "volume_resize";
  args = field "volume" volume (field "new_size_bytes" new_size_bytes (field "flags" flags end));
  returns = next (one a_text) (next (one (instance_of Class.volume)) none_left);
})

unfoldable pub volume_replicate : (pool rep_type volume_src name flags : Value) → Outcome Call
volume_replicate pool rep_type volume_src name flags = ok (record {
  method = "volume_replicate";
  args = field "pool" pool (
      field "rep_type" rep_type
        (field "volume_src" volume_src (field "name" name (field "flags" flags end))));
  returns = next (one a_text) (next (one (instance_of Class.volume)) none_left);
})

unfoldable pub volume_replicate_range_block_size : (system flags : Value) → Outcome Call
volume_replicate_range_block_size system flags = ok (record {
  method = "volume_replicate_range_block_size";
  args = field "system" system (field "flags" flags end);
  returns = next (one an_int) none_left;
})

unfoldable pub volume_replicate_range :
    (rep_type volume_src volume_dest ranges flags : Value) → Outcome Call
volume_replicate_range rep_type volume_src volume_dest ranges flags = ok (record {
  method = "volume_replicate_range";
  args = field "rep_type" rep_type (
      field "volume_src" volume_src
        (field "volume_dest" volume_dest (field "ranges" ranges (field "flags" flags end))));
  returns = next (one a_text) none_left;
})

unfoldable pub volume_delete : (volume flags : Value) → Outcome Call
volume_delete volume flags = ok (record {
  method = "volume_delete";
  args = field "volume" volume (field "flags" flags end);
  returns = next (one a_text) none_left;
})

unfoldable pub volume_enable : (volume flags : Value) → Outcome Call
volume_enable volume flags = ok (record {
  method = "volume_enable";
  args = field "volume" volume (field "flags" flags end);
  returns = next (one nothing) none_left;
})

unfoldable pub volume_disable : (volume flags : Value) → Outcome Call
volume_disable volume flags = ok (record {
  method = "volume_disable";
  args = field "volume" volume (field "flags" flags end);
  returns = next (one nothing) none_left;
})

unfoldable pub volume_child_dependency : (volume flags : Value) → Outcome Call
volume_child_dependency volume flags = ok (record {
  method = "volume_child_dependency";
  args = field "volume" volume (field "flags" flags end);
  returns = next (one a_bool) none_left;
})

unfoldable pub volume_child_dependency_rm : (volume flags : Value) → Outcome Call
volume_child_dependency_rm volume flags = ok (record {
  method = "volume_child_dependency_rm";
  args = field "volume" volume (field "flags" flags end);
  returns = next (one a_text) none_left;
})
