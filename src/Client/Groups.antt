-- ===== src/Client/Groups.antt =====
-- The methods of `Client` (python_binding/lsm/_client.py) for access groups and masking: the remote call
-- that each makes, or the exception of its checks.
use libstoragemgmt.Base.{ℕ, pos, Option, List, [], ◌∷◌}
use libstoragemgmt.Data.Value.{Class, Value, end, field}
use libstoragemgmt.Ipc.Raised.{Outcome, ok}
use libstoragemgmt.Client.Expected.{one, seq, none_left, next, nothing, instance_of}
use libstoragemgmt.Client.Guards.{Call, check_search_key, key_value, with_initiator}

unfoldable pub iscsi_chap_auth :
    (init_id : List ℕ) (in_user in_password out_user out_password flags : Value) → Outcome Call
iscsi_chap_auth init_id in_user in_password out_user out_password flags =
    with_initiator init_id (Value.num (pos 5)) (λ t i. record {
      method = "iscsi_chap_auth";
      args = field "init_id" (Value.str init_id) (
          field "in_user" in_user (
            field "in_password" in_password (
              field "out_user" out_user
                (field "out_password" out_password (field "flags" flags end)))));
      returns = next (one nothing) none_left;
    })

unfoldable pub volume_mask : (access_group volume flags : Value) → Outcome Call
volume_mask access_group volume flags = ok (record {
  method = "volume_mask";
  args = field "access_group" access_group (field "volume" volume (field "flags" flags end));
  returns = next (one nothing) none_left;
})

unfoldable pub volume_unmask : (access_group volume flags : Value) → Outcome Call
volume_unmask access_group volume flags = ok (record {
  method = "volume_unmask";
  args = field "access_group" access_group (field "volume" volume (field "flags" flags end));
  returns = next (one nothing) none_left;
})

unfoldable pub access_groups :
    (search_key : Option (List ℕ)) (search_value flags : Value) → Outcome Call
access_groups search_key search_value flags =
    check_search_key search_key ("id" ∷ "system_id" ∷ []) (record {
      method = "access_groups";
      args =
          field "search_key" (key_value search_key)
            (field "search_value" search_value (field "flags" flags end));
      returns = next (seq (next (one (instance_of Class.access_group)) none_left)) none_left;
    })

unfoldable pub access_group_create :
    (name : Value) (init_id : List ℕ) (init_type system flags : Value) → Outcome Call
access_group_create name init_id init_type system flags = with_initiator init_id init_type (λ t i.
    record {
      method = "access_group_create";
      args = field "name" name (
          field "init_id" (Value.str i)
            (field "init_type" t (field "system" system (field "flags" flags end))));
      returns = next (one (instance_of Class.access_group)) none_left;
    })

unfoldable pub access_group_delete : (access_group flags : Value) → Outcome Call
access_group_delete access_group flags = ok (record {
  method = "access_group_delete";
  args = field "access_group" access_group (field "flags" flags end);
  returns = next (one nothing) none_left;
})

unfoldable pub access_group_initiator_add :
    (access_group : Value) (init_id : List ℕ) (init_type flags : Value) → Outcome Call
access_group_initiator_add access_group init_id init_type flags =
    with_initiator init_id init_type (λ t i. record {
      method = "access_group_initiator_add";
      args =
          field "access_group" access_group
            (field "init_id" (Value.str i) (field "init_type" t (field "flags" flags end)));
      returns = next (one (instance_of Class.access_group)) none_left;
    })

unfoldable pub access_group_initiator_delete :
    (access_group : Value) (init_id : List ℕ) (init_type flags : Value) → Outcome Call
access_group_initiator_delete access_group init_id init_type flags =
    with_initiator init_id Value.null (λ t i. record {
      method = "access_group_initiator_delete";
      args =
          field "access_group" access_group
            (field "init_id" (Value.str i) (field "init_type" init_type (field "flags" flags end)));
      returns = next (one (instance_of Class.access_group)) none_left;
    })

unfoldable pub volumes_accessible_by_access_group : (access_group flags : Value) → Outcome Call
volumes_accessible_by_access_group access_group flags = ok (record {
  method = "volumes_accessible_by_access_group";
  args = field "access_group" access_group (field "flags" flags end);
  returns = next (seq (next (one (instance_of Class.volume)) none_left)) none_left;
})

unfoldable pub access_groups_granted_to_volume : (volume flags : Value) → Outcome Call
access_groups_granted_to_volume volume flags = ok (record {
  method = "access_groups_granted_to_volume";
  args = field "volume" volume (field "flags" flags end);
  returns = next (seq (next (one (instance_of Class.access_group)) none_left)) none_left;
})
