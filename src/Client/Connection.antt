-- ===== src/Client/Connection.antt =====
-- The methods of `Client` (python_binding/lsm/_client.py) for the connection, systems, pools, disks, ports and jobs: the remote call
-- that each makes, or the exception of its checks.
use libstoragemgmt.Base.{ℕ, Option, List, [], ◌∷◌}
use libstoragemgmt.Data.Value.{Class, Value, end, field}
use libstoragemgmt.Ipc.Raised.{Outcome, ok}
use libstoragemgmt.Client.Expected.{
  one, seq, none_left, next, nothing, an_int, a_text, any_data, caps_data, instance_of,
}
use libstoragemgmt.Client.Guards.{Call, check_search_key, key_value, check_read_pct}

unfoldable pub start : (uri password timeout flags : Value) → Outcome Call
start uri password timeout flags = ok (record {
  method = "plugin_register";
  args =
      field "uri" uri
        (field "password" password (field "timeout" timeout (field "flags" flags end)));
  returns = none_left;
})

unfoldable pub close : (flags : Value) → Outcome Call
close flags = ok (record {
  method = "plugin_unregister";
  args = field "flags" flags end;
  returns = next (one nothing) none_left;
})

unfoldable pub time_out_set : (ms flags : Value) → Outcome Call
time_out_set ms flags = ok (record {
  method = "time_out_set";
  args = field "ms" ms (field "flags" flags end);
  returns = next (one nothing) none_left;
})

unfoldable pub time_out_get : (flags : Value) → Outcome Call
time_out_get flags = ok (record {
  method = "time_out_get";
  args = field "flags" flags end;
  returns = next (one an_int) none_left;
})

unfoldable pub job_status : (job_id flags : Value) → Outcome Call
job_status job_id flags = ok (record {
  method = "job_status";
  args = field "job_id" job_id (field "flags" flags end);
  returns = next (one an_int) (next (one an_int) (next (one any_data) none_left));
})

unfoldable pub job_free : (job_id flags : Value) → Outcome Call
job_free job_id flags = ok (record {
  method = "job_free";
  args = field "job_id" job_id (field "flags" flags end);
  returns = next (one nothing) none_left;
})

unfoldable pub capabilities : (system flags : Value) → Outcome Call
capabilities system flags = ok (record {
  method = "capabilities";
  args = field "system" system (field "flags" flags end);
  returns = next (one caps_data) none_left;
})

unfoldable pub plugin_info : (flags : Value) → Outcome Call
plugin_info flags = ok (record {
  method = "plugin_info";
  args = field "flags" flags end;
  returns = next (one a_text) (next (one a_text) none_left);
})

unfoldable pub systems : (flags : Value) → Outcome Call
systems flags = ok (record {
  method = "systems";
  args = field "flags" flags end;
  returns = next (seq (next (one (instance_of Class.system)) none_left)) none_left;
})

unfoldable pub system_read_cache_pct_update : (system read_pct flags : Value) → Outcome Call
system_read_cache_pct_update system read_pct flags = check_read_pct read_pct (record {
  method = "system_read_cache_pct_update";
  args = field "system" system (field "read_pct" read_pct (field "flags" flags end));
  returns = next (one nothing) none_left;
})

unfoldable pub pools : (search_key : Option (List ℕ)) (search_value flags : Value) → Outcome Call
pools search_key search_value flags =
    check_search_key search_key ("id" ∷ "system_id" ∷ []) (record {
      method = "pools";
      args =
          field "search_key" (key_value search_key)
            (field "search_value" search_value (field "flags" flags end));
      returns = next (seq (next (one (instance_of Class.pool)) none_left)) none_left;
    })

unfoldable pub target_ports :
    (search_key : Option (List ℕ)) (search_value flags : Value) → Outcome Call
target_ports search_key search_value flags =
    check_search_key search_key ("id" ∷ "system_id" ∷ []) (record {
      method = "target_ports";
      args =
          field "search_key" (key_value search_key)
            (field "search_value" search_value (field "flags" flags end));
      returns = next (seq (next (one (instance_of Class.target_port)) none_left)) none_left;
    })

unfoldable pub batteries :
    (search_key : Option (List ℕ)) (search_value flags : Value) → Outcome Call
batteries search_key search_value flags =
    check_search_key search_key ("id" ∷ "system_id" ∷ []) (record {
      method = "batteries";
      args =
          field "search_key" (key_value search_key)
            (field "search_value" search_value (field "flags" flags end));
      returns = next (seq (next (one (instance_of Class.battery)) none_left)) none_left;
    })

unfoldable pub disks : (search_key : Option (List ℕ)) (search_value flags : Value) → Outcome Call
disks search_key search_value flags =
    check_search_key search_key ("id" ∷ "system_id" ∷ []) (record {
      method = "disks";
      args =
          field "search_key" (key_value search_key)
            (field "search_value" search_value (field "flags" flags end));
      returns = next (seq (next (one (instance_of Class.disk)) none_left)) none_left;
    })

unfoldable pub pool_member_info : (pool flags : Value) → Outcome Call
pool_member_info pool flags = ok (record {
  method = "pool_member_info";
  args = field "pool" pool (field "flags" flags end);
  returns =
      next
        (seq (
          next (one an_int)
            (next (one an_int) (next (seq (next (one a_text) none_left)) none_left))))
        none_left;
})
