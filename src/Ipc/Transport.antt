-- ===== src/Ipc/Transport.antt =====
-- `TransPort` of python_binding/lsm/_transport.py: messages on a stream socket, each behind a header of
-- ten digits with its length.
pub mod Reading
pub mod Framing
pub mod Termination
use libstoragemgmt.Base.{
  ℕ, zero, suc, ◌+◌, ◌-◌, ℤ, pos, negsuc, String, Bool, true, false, Option, none, some, List, [],
  ◌∷◌, ◌++◌, ltb, if◌then◌else◌, length,
}
use libstoragemgmt.Text.{str, zfill, int, codes}
use libstoragemgmt.Data.Value
use libstoragemgmt.Data.Value.{Value}
use libstoragemgmt.Ipc.Raised.{Raised, value_error, eof, socket_error, lsm_error, Outcome, ok, err}
use libstoragemgmt.Ipc.Utf8.{encode, decode}

-- What `recv` gives: bytes, none of them at the end of the stream, or a socket.error.
pub data Received : Type 0 where
  bytes : List ℕ → Received
  failed : Bool → String → Received

-- What `sendall` does: it sends everything, or raises a socket.error.
pub data Sent : Type 0 where
  sent : Sent
  unsent : Bool → String → Sent

-- A socket of the operating system: `recv` and `sendall` in its states.
pub record Socket (S : Type 0) : Type 0 where
  pub recv : ℕ → S → Received × S
  pub sendall : List ℕ → S → Sent × S

abbrev pub hdr_len : ℕ
hdr_len = 10

-- ErrorNumber.TRANSPORT_COMMUNICATION
abbrev pub transport_communication : Value
transport_communication = Value.num (pos 400)

abbrev pub broken : String → Value → Raised
broken message extra = lsm_error transport_communication (Value.str (codes message)) extra

-- `data.decode("utf-8")`
abbrev pub decoded : Option (List ℕ) → Outcome (List ℕ)
decoded none = err value_error
decoded (some text) = ok text

-- `_recv_msg` hides what it reads on: a socket.error and the end of the stream become an LsmError.
unfoldable pub as_lsm_error : {A : Type 0} → Outcome A → Outcome A
as_lsm_error (err (socket_error e text)) =
    err (broken "Error while reading a message from the plug-in" (Value.str (codes text)))
as_lsm_error (err eof) =
    err (broken "Error while reading a message from the plug-in, EOF" Value.null)
as_lsm_error o = o

-- the bytes of `_send_msg`, where the text has an encoding
unfoldable pub frame : List ℕ → Option (List ℕ)
frame msg = encode (zfill hdr_len (str (length msg)) ++ msg)

module _ {S : Type 0} (sock : Socket S) where
  -- The loop of `_read_all`, on fuel of the bytes that it still wants: a round that goes on adds one
  -- byte at least.
  unfoldable pub read_loop : ℕ → ℕ → List ℕ → S → Outcome (List ℕ) × S
  read_loop zero l data_ s = (ok data_, s)
  read_loop (suc f) l data_ s = elim (ltb (length data_) l) [
    | false ↦ (ok data_, s)
    | true ↦
        let (r, s') = sock.recv (l - length data_) s in
        elim r [
          | failed e text ↦ (err (socket_error e text), s')
          | bytes [] ↦ (err eof, s')
          | bytes (b ∷ bs) ↦ read_loop f l (data_ ++ b ∷ bs) s'
        ]
  ]

  abbrev pub then_decode : Outcome (List ℕ) × S → Outcome (List ℕ) × S
  then_decode (ok data_, s) = (decoded (decode data_), s)
  then_decode (err x, s) = (err x, s)

  -- `_read_all`
  unfoldable pub read_all : ℕ → S → Outcome (List ℕ) × S
  read_all l s = if ltb l 1 then (err value_error, s) else then_decode (read_loop l l [] s)

  -- `_read_all(int(num_bytes))`
  unfoldable pub read_body : Option ℤ → S → Outcome (List ℕ) × S
  read_body (some (pos n)) s = read_all n s
  read_body (some (negsuc n)) s = (err value_error, s)
  read_body none s = (err value_error, s)

  abbrev pub then_body : Outcome (List ℕ) × S → Outcome (List ℕ) × S
  then_body (ok num_bytes, s) = read_body (int num_bytes) s
  then_body (err x, s) = (err x, s)

  abbrev read_both : S → Outcome (List ℕ) × S
  read_both s = then_body (read_all hdr_len s)

  -- `_recv_msg`
  unfoldable pub recv_msg : S → Outcome (List ℕ) × S
  recv_msg s = let (o, s') = read_both s in (as_lsm_error o, s')

  abbrev all_sent : Sent × S → Outcome (Unit {0}) × S
  all_sent (sent, s) = (ok tt, s)
  all_sent (unsent e text, s) = (err (socket_error e text), s)

  abbrev pub send_bytes : Option (List ℕ) → S → Outcome (Unit {0}) × S
  send_bytes none s = (err value_error, s)
  send_bytes (some b) s = all_sent (sock.sendall b s)

  -- `_send_msg`; a text is never None
  unfoldable pub send_msg : List ℕ → S → Outcome (Unit {0}) × S
  send_msg [] s = (err value_error, s)
  send_msg (c ∷ msg) s = send_bytes (frame (c ∷ msg)) s
