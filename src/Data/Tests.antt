-- ===== src/Data/Tests.antt =====
-- Values on which the theorems of Data are applied.
use libstoragemgmt.Base.{◌≡◌, refl, pos, String, true, some, arith, [], ◌∷◌}
use libstoragemgmt.Text.{codes}
use libstoragemgmt.Data.Value.{Value, nil, cons, Fields, end, field, volume, get, has}
use libstoragemgmt.Data.Initiators.{
  initiator_id_verify, wwpn_to_lsm_type, is_wwpn, pairs, by_pairs, hex_only, without_0x, lower,
}
use libstoragemgmt.Text.Hex.{is_hex, is_lower_hex}
use libstoragemgmt.Data.Classes.{construct, init, check_vpd83, vpd83_verify}
use libstoragemgmt.Data.Params.{bind, params}
use libstoragemgmt.Data.Codec.{plain, decode}
use libstoragemgmt.Data.Codec.RoundTrip.{Sends, Attributes, decode-plain}
use libstoragemgmt.Ipc.Raised.{ok}

abbrev text : String → Value
text s = Value.str (codes s)

abbrev a_volume : Fields
a_volume = field "id" (text "VOL_ID_00001") (
    field "name" (text "v") (
      field "vpd83" (text "600140524b3ae8a1c0d44d4e8fd0e9b1") (
        field "block_size" (Value.num (pos 512)) (
          field "num_of_blocks" (Value.num (pos 8)) (
            field "admin_state" (Value.num (pos 1)) (
              field "system_id" (text "sim-01")
                (field "pool_id" (text "POO1") (field "plugin_data" Value.null end))))))))

abbrev sent_value : Value
sent_value = Value.list (
    cons (Value.obj volume a_volume)
      (cons (Value.dict (field "cap" (Value.caps (1 ∷ 0 ∷ 255 ∷ [])) end)) nil))

a_volume-construct : construct volume a_volume ≡ ok (Value.obj volume a_volume)
unfolding construct bind params init check_vpd83 vpd83_verify get is_lower_hex
a_volume-construct = refl

sent_value-Sends : Sends sent_value
unfolding Sends Attributes has
sent_value-Sends = (
  (
    a_volume-construct,
    (
      refl,
      tt,
      (
        refl,
        tt,
        (refl, tt, (refl, tt, (refl, tt, (refl, tt, (refl, tt, (refl, tt, (refl, tt, tt))))))),
      ),
    ),
  ),
  ((refl, ((omega arith, (omega arith, (omega arith, tt))), tt)), tt),
)

decode-plain_example : (w : Value) × (plain sent_value ≡ ok w) × (decode w ≡ ok sent_value)
decode-plain_example = decode-plain sent_value sent_value-Sends

-- the normal form of a WWPN
wwpn_test :
    initiator_id_verify (codes "0x10000000C9952FDE") ≡ some (codes "10:00:00:00:c9:95:2f:de")
unfolding initiator_id_verify wwpn_to_lsm_type is_wwpn is_hex pairs by_pairs hex_only without_0x
    lower is_lower_hex
wwpn_test = refl

-- what follows the 32 digits of a number of the first kind is not looked at
vpd83_test : vpd83_verify (codes "600140524b3ae8a1c0d44d4e8fd0e9b1, and so on") ≡ true
unfolding vpd83_verify is_lower_hex
vpd83_test = refl
