-- ===== src/Client/Raid.antt =====
-- The methods of `Client` (python_binding/lsm/_client.py) for RAID, lights and caches of volumes: the remote call
-- that each makes, or the exception of its checks.
use libstoragemgmt.Base.{pos, not, ◌&&◌, List, length}
use libstoragemgmt.Data.Value.{Class, Value, end, field}
use libstoragemgmt.Ipc.Raised.{Outcome, ok}
use libstoragemgmt.Client.Expected.{one, seq, none_left, next, nothing, an_int, instance_of}
use libstoragemgmt.Client.Guards.{Call, unless, is_num, value_list, check_disks}

unfoldable pub volume_raid_info : (volume flags : Value) → Outcome Call
volume_raid_info volume flags = ok (record {
  method = "volume_raid_info";
  args = field "volume" volume (field "flags" flags end);
  returns =
      next
        (seq (
          next (one an_int) (
            next (one an_int)
              (next (one an_int) (next (one an_int) (next (one an_int) none_left))))))
        none_left;
})

unfoldable pub volume_raid_create_cap_get : (system flags : Value) → Outcome Call
volume_raid_create_cap_get system flags = ok (record {
  method = "volume_raid_create_cap_get";
  args = field "system" system (field "flags" flags end);
  returns =
      next
        (seq (
          next (seq (next (one an_int) none_left))
            (next (seq (next (one an_int) none_left)) none_left)))
        none_left;
})

unfoldable pub volume_raid_create :
    (name raid_type : Value) (disks : List Value) (strip_size flags : Value) → Outcome Call
volume_raid_create name raid_type disks strip_size flags =
    check_disks raid_type (length disks) (record {
      method = "volume_raid_create";
      args = field "name" name (
          field "raid_type" raid_type (
            field "disks" (value_list disks)
              (field "strip_size" strip_size (field "flags" flags end))));
      returns = next (one (instance_of Class.volume)) none_left;
    })

unfoldable pub volume_ident_led_on : (volume flags : Value) → Outcome Call
volume_ident_led_on volume flags = ok (record {
  method = "volume_ident_led_on";
  args = field "volume" volume (field "flags" flags end);
  returns = next (one nothing) none_left;
})

unfoldable pub volume_ident_led_off : (volume flags : Value) → Outcome Call
volume_ident_led_off volume flags = ok (record {
  method = "volume_ident_led_off";
  args = field "volume" volume (field "flags" flags end);
  returns = next (one nothing) none_left;
})

unfoldable pub volume_cache_info : (volume flags : Value) → Outcome Call
volume_cache_info volume flags = ok (record {
  method = "volume_cache_info";
  args = field "volume" volume (field "flags" flags end);
  returns =
      next
        (seq (
          next (one an_int) (
            next (one an_int)
              (next (one an_int) (next (one an_int) (next (one an_int) none_left))))))
        none_left;
})

unfoldable pub volume_physical_disk_cache_update : (volume pdc flags : Value) → Outcome Call
volume_physical_disk_cache_update volume pdc flags =
    unless (not (is_num pdc (pos 2)) && not (is_num pdc (pos 3)))
      "Argument pdc should be Volume.PHYSICAL_DISK_CACHE_ENABLED or Volume.PHYSICAL_DISK_CACHE_DISABLED"
      (record {
        method = "volume_physical_disk_cache_update";
        args = field "volume" volume (field "pdc" pdc (field "flags" flags end));
        returns = next (one nothing) none_left;
      })

unfoldable pub volume_write_cache_policy_update : (volume wcp flags : Value) → Outcome Call
volume_write_cache_policy_update volume wcp flags =
    unless (not (is_num wcp (pos 2)) && not (is_num wcp (pos 3)) && not (is_num wcp (pos 4)))
      "Argument wcp should be Volume.WRITE_CACHE_POLICY_WRITE_BACK or Volume.WRITE_CACHE_POLICY_AUTO or Volume.WRITE_CACHE_POLICY_WRITE_THROUGH"
      (record {
        method = "volume_write_cache_policy_update";
        args = field "volume" volume (field "wcp" wcp (field "flags" flags end));
        returns = next (one nothing) none_left;
      })

unfoldable pub volume_read_cache_policy_update : (volume rcp flags : Value) → Outcome Call
volume_read_cache_policy_update volume rcp flags =
    unless (not (is_num rcp (pos 2)) && not (is_num rcp (pos 3)))
      "Argument rcp should be Volume.READ_CACHE_POLICY_ENABLED or Volume.READ_CACHE_POLICY_DISABLED"
      (record {
        method = "volume_read_cache_policy_update";
        args = field "volume" volume (field "rcp" rcp (field "flags" flags end));
        returns = next (one nothing) none_left;
      })
