-- ===== src/Ipc/Messages.antt =====
-- The requests, responses and errors of `TransPort` (python_binding/lsm/_transport.py).
pub mod Exchange
use libstoragemgmt.Base.{
  ℕ, ℤ, pos, negsuc, String, Bool, true, false, ◌&&◌, Option, none, some, List, [], ◌∷◌,
  if◌then◌else◌, eqb_ℤ,
}
use libstoragemgmt.Text.{codes}
use libstoragemgmt.Data.Value
use libstoragemgmt.Data.Value.{Value, Fields, end, field, get, has}
use libstoragemgmt.Data.Params.{required, optional, bind}
use libstoragemgmt.Data.Codec.{plain, decode}
use libstoragemgmt.Ipc.Raised.{Raised, socket_error, lsm_error, other_error, Outcome, ok, err}
use libstoragemgmt.Ipc.Transport.{Socket, broken, recv_msg, send_msg}

-- The json package: `dumps` of what DataEncoder has made of an object, and `loads`.
pub record Json : Type 0 where
  pub dumps : Value → Outcome (List ℕ)
  pub loads : List ℕ → Outcome Value

abbrev pub then_do : {A B : Type 0} → Outcome A → (A → Outcome B) → Outcome B
then_do (ok a) f = f a
then_do (err x) f = err x

-- `{'method': method, 'id': 100, 'params': args}`
unfoldable pub request : List ℕ → Value → Value
request method args =
    Value.dict (
      field "method" (Value.str method)
        (field "id" (Value.num (pos 100)) (field "params" args end)))

-- the message of `send_error`
unfoldable pub error_message : (msg_id code msg extra : Value) → Value
error_message msg_id code msg extra = Value.dict (
    field "id" msg_id (
      field "error" (Value.dict (field "code" code (field "message" msg (field "data" extra end))))
        end))

-- the message of `send_resp`
unfoldable pub response : (result msg_id : Value) → Value
response result msg_id = Value.dict (field "id" msg_id (field "result" result end))

-- `d[k]` where a key that is missing is a KeyError
abbrev pub at_key : Option Value → Outcome Value
at_key none = err other_error
at_key (some v) = ok v

abbrev pub item : String → Fields → Outcome Value
item k fs = at_key (get k fs)

-- `m[k]` of any value; what is no dict raises a TypeError for a text in the brackets
unfoldable pub subscript : String → Value → Outcome Value
subscript k (Value.dict fs) = item k fs
subscript k _ = err other_error

abbrev from_arguments : Outcome Fields → Raised
from_arguments (ok (field _ code (field _ message (field _ extra end)))) =
    lsm_error code message extra
from_arguments _ = other_error

-- `raise LsmError(**e)`, or the TypeError of that call
unfoldable pub lsm_error_of : Value → Raised
lsm_error_of (Value.dict fs) =
    from_arguments
      (bind (required "code" ∷ required "message" ∷ optional "data" Value.null ∷ []) fs)
lsm_error_of _ = other_error

abbrev raise_error : Outcome Value → Outcome (Value × Value)
raise_error (err x) = err x
raise_error (ok e) = err (lsm_error_of e)

-- `read_resp` of the message that came: the result and its id
unfoldable pub result_of : Value → Outcome (Value × Value)
result_of (Value.dict fs) =
    if has "result" fs
    then then_do (item "result" fs) (λ r. then_do (item "id" fs) (λ i. ok (r, i)))
    else raise_error (item "error" fs)
result_of _ = err other_error

-- `assert msg_id == 100`, then the result
unfoldable pub with_id_100 : Value × Value → Outcome Value
with_id_100 (reply, Value.num z) = if eqb_ℤ z (pos 100) then ok reply else err other_error
with_id_100 (reply, _) = err other_error

-- a socket.error while sending
unfoldable pub send_failure : {A : Type 0} → Outcome A → Outcome A
send_failure (err (socket_error e text)) =
    err (broken "Error while sending a message to the plug-in" (Value.str (codes text)))
send_failure o = o

module _ {S : Type 0} (json : Json) (sock : Socket S) where
  abbrev send_text : Outcome (List ℕ) → S → Outcome (Unit {0}) × S
  send_text (err x) s = (err x, s)
  send_text (ok text) s = send_msg sock text s

  -- `_send_msg(json.dumps(v, cls=_DataEncoder))`
  unfoldable pub send_value : Value → S → Outcome (Unit {0}) × S
  send_value v s = send_text (then_do (plain v) json.dumps) s

  -- `json.loads(data, cls=_DataDecoder)`
  unfoldable pub parsed : List ℕ → Outcome Value
  parsed text = then_do (json.loads text) decode

  abbrev parsed_first : Outcome (List ℕ) × S → Outcome Value × S
  parsed_first (o, s) = (then_do o parsed, s)

  unfoldable pub send_error : (msg_id code msg extra : Value) → S → Outcome (Unit {0}) × S
  send_error msg_id code msg extra s = send_value (error_message msg_id code msg extra) s

  unfoldable pub send_resp : (result msg_id : Value) → S → Outcome (Unit {0}) × S
  send_resp result msg_id s = send_value (response result msg_id) s

  abbrev with_failure : Outcome (Unit {0}) × S → Outcome (Unit {0}) × S
  with_failure (o, s) = (send_failure o, s)

  unfoldable pub send_req : List ℕ → Value → S → Outcome (Unit {0}) × S
  send_req method args s = with_failure (send_value (request method args) s)

  -- `read_req`; a text that was read is never empty, and that of an empty text would be None
  abbrev read_text : List ℕ → Outcome Value
  read_text [] = ok Value.null
  read_text (c ∷ text) = parsed (c ∷ text)

  abbrev read_first : Outcome (List ℕ) × S → Outcome Value × S
  read_first (o, s) = (then_do o read_text, s)

  unfoldable pub read_req : S → Outcome Value × S
  read_req s = read_first (recv_msg sock s)

  abbrev result_first : Outcome Value × S → Outcome (Value × Value) × S
  result_first (o, s) = (then_do o result_of, s)

  unfoldable pub read_resp : S → Outcome (Value × Value) × S
  read_resp s = result_first (parsed_first (recv_msg sock s))

  abbrev checked_first : Outcome (Value × Value) × S → Outcome Value × S
  checked_first (o, s) = (then_do o with_id_100, s)

  abbrev then_read : Outcome (Unit {0}) × S → Outcome Value × S
  then_read (err x, s) = (err x, s)
  then_read (ok u, s) = checked_first (read_resp s)

  unfoldable pub rpc : List ℕ → Value → S → Outcome Value × S
  rpc method args s = then_read (send_req method args s)
