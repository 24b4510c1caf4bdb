-- ===== src/Client/Tests.antt =====
-- Calls on which the theorems of Client are applied.
use libstoragemgmt.Base.{pos, ◌≡◌, refl, ◌↔◌, true, some, List}
use libstoragemgmt.Text.{codes, equal}
use libstoragemgmt.Data.Value
use libstoragemgmt.Data.Value.{Value, Fields, field, end}
use libstoragemgmt.Data.Params.{Param, bind}
use libstoragemgmt.Ipc.Raised.{ok}
use libstoragemgmt.Sim.Constants.{RaidType}
use libstoragemgmt.Base.{[], ◌∷◌}
use libstoragemgmt.Data.Value.{Items, cons, nil}
use libstoragemgmt.Data.Classes.{construct, init}
use libstoragemgmt.Data.Params.{params}
use libstoragemgmt.Data.Value.{get}
use libstoragemgmt.Text.{last, str, zeros, decimal}
use libstoragemgmt.Sim.Ids.{lsm_id}
use libstoragemgmt.Sim.Tables.{Db}
use libstoragemgmt.Sim.Tests.{sample}
use libstoragemgmt.Sim.Array.Listings.{target_ports, sim_tgt_2_lsm, all_of}
use libstoragemgmt.Sim.Plugin.Search.{Listing, rows, answer}
use libstoragemgmt.Client.Expected.{return_requires}
use libstoragemgmt.Client.Connection
use libstoragemgmt.Client.Listings.{asked, answer-return_requires}
use libstoragemgmt.Sim.Raid.{raid_disk_chk}
use libstoragemgmt.Sim.Plugin.{signature}
use libstoragemgmt.Client.Expected.{one, seq, next, none_left, instance_of}
use libstoragemgmt.Client.Guards.{Call, check_disks, check_search_key, is_in}
use libstoragemgmt.Client.Block.{volumes}
use libstoragemgmt.Client.Requests.{ClientCall, request}
use libstoragemgmt.Client.Conforms.{request-signature}
use libstoragemgmt.Client.Disks.{raid_number, check_disks_iff}

abbrev volumes_of_pool : ClientCall
volumes_of_pool =
    ClientCall.volumes (some (codes "pool_id")) (Value.str (codes "POO1")) (Value.num (pos 0))

abbrev volumes_call : Call
volumes_call = record {
  method = "volumes";
  args =
      field "search_key" (Value.str (codes "pool_id"))
        (field "search_value" (Value.str (codes "POO1")) (field "flags" (Value.num (pos 0)) end));
  returns = next (seq (next (one (instance_of Value.volume)) none_left)) none_left;
}

volumes_request : request volumes_of_pool ≡ ok volumes_call
unfolding request volumes check_search_key is_in equal
volumes_request = refl

request-signature_example :
    (ps : List Param) × (signature "volumes" ≡ some ps)
    × (bind ps volumes_call.args ≡ ok volumes_call.args)
request-signature_example = request-signature volumes_of_pool volumes_call volumes_request

check_disks_iff_example :
    (check_disks (Value.num (pos 10)) 6 volumes_call ≡ ok volumes_call)
    ↔ (raid_disk_chk RaidType.raid10 6 ≡ some true)
unfolding raid_number
check_disks_iff_example = check_disks_iff RaidType.raid10 10 6 volumes_call refl

abbrev with_port : Db
with_port = record sample {
  tgts =
      record {
        id = 1;
        port_type = 2;
        service_address = "50:0a";
        network_address = "50:0b";
        physical_address = "50:0c";
        physical_name = "FC_a_0b";
      }
      ∷ [];
}

abbrev port_id : Value
port_id = Value.str (codes "TGT_PORT_ID_00001")

abbrev port_items : Items
port_items =
    cons
      (Value.obj Value.target_port (
        field "id" port_id (
          field "port_type" (Value.num (pos 2)) (
            field "service_address" (Value.str (codes "50:0a")) (
              field "network_address" (Value.str (codes "50:0b")) (
                field "physical_address" (Value.str (codes "50:0c")) (
                  field "physical_name" (Value.str (codes "FC_a_0b")) (
                    field "system_id" (Value.str (codes "sim-01"))
                      (field "plugin_data" Value.null end)))))))))
      nil

abbrev ports_call : Call
ports_call = record {
  method = "target_ports";
  args =
      field "search_key" (Value.str (codes "id"))
        (field "search_value" port_id (field "flags" (Value.num (pos 0)) end));
  returns = next (seq (next (one (instance_of Value.target_port)) none_left)) none_left;
}

answer-return_requires_example :
    (js : Items) × (answer Listing.target_port_list (some (codes "id")) port_id with_port ≡ ok js)
    × (return_requires ports_call.returns (Value.list js) ≡ ok (Value.list js))
unfolding asked Connection.target_ports check_search_key is_in equal rows target_ports all_of
    sim_tgt_2_lsm construct params bind init get lsm_id last str zeros decimal
answer-return_requires_example =
    answer-return_requires Listing.target_port_list (some (codes "id")) port_id (Value.num (pos 0))
      ports_call with_port port_items refl refl refl
