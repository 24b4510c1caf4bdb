-- ===== src/Ipc/Tests.antt =====
-- A socket, a codec and a plugin on which the theorems of Ipc are applied.
use mathlib.Core.List.{append_assoc}
use libstoragemgmt.Base.{
  ℕ, suc, ◌≡◌, refl, ap, ◌≤◌, ◌<◌, pos, Bool, true, false, Option, some, List, [], ◌∷◌, ◌++◌, arith,
  if◌then◌else◌, length,
}
use libstoragemgmt.Text.{codes, equal, zfill, str, zeros, decimal}
use libstoragemgmt.Data.Value.{Value, get, has}
use libstoragemgmt.Data.Codec.{plain}
use libstoragemgmt.Data.Codec.RoundTrip.{Sends}
use libstoragemgmt.Ipc.Raised.{other_error, Outcome, ok, err}
use libstoragemgmt.Ipc.Transport.{
  Received, bytes, sent, unsent, Socket, read_loop, recv_msg, transport_communication,
}
use libstoragemgmt.Ipc.Transport.Reading.{IsStream}
use libstoragemgmt.Ipc.Transport.Framing.{
  IsMessage, frame-of_ascii, recv_msg-frame, recv_msg-truncated, eof_error,
}
use libstoragemgmt.Ipc.Transport.Termination.{Read, read_loop-Read}
use libstoragemgmt.Ipc.Messages.{
  Json, request, response, error_message, subscript, read_req, send_resp, rpc,
}
use libstoragemgmt.Ipc.Messages.Exchange.{
  IsConnected, Travels, framed, result, reply_message, reply_outcome, rpc-reply, read_req-framed,
  send_value-written,
}
use libstoragemgmt.Ipc.Runner.{
  Plugin, State, returned, exited, running, dispatch, call_with, run, initial,
}
use libstoragemgmt.Ipc.Runner.Steps.{reply_of, is_last}
use libstoragemgmt.Ipc.Runner.Session.{Call, requests, answers, Session, run-session}
use libstoragemgmt.Ipc.Runner.Shutdown.{Unregisters, run-registered}
use libstoragemgmt.Ipc.Runner.Ends.{run-hung_up, run-deaf}

-- a socket whose peer sends one byte at a time
record Wire : Type 0 where
  inbox : List ℕ
  outbox : List ℕ

wire_recv : ℕ → List ℕ → Wire → Received × Wire
wire_recv n [] w = (bytes [], w)
wire_recv n (b ∷ bs) w = (bytes (b ∷ []), record w { inbox = bs })

abbrev wire : Socket Wire
wire = record {
  recv = λ n w. wire_recv n w.inbox w;
  sendall = λ b w. (sent, record w { outbox = w.outbox ++ b });
}

wire_gives :
    (n : ℕ) (w : Wire) (t : List ℕ)
    → 0 < n
    → w.inbox ≡ t
    → 0 < length t
    → (b : ℕ) × (bs : List ℕ) × (w' : Wire) × (wire_recv n t w ≡ (bytes (b ∷ bs), w'))
      × (length (b ∷ bs) ≤ n)
      × (t ≡ (b ∷ bs) ++ w'.inbox)
unfolding wire_recv
wire_gives n w [] h e g = absurd (omega arith)
wire_gives n w (b ∷ t) h e g = (b, [], record w { inbox = t }, refl, omega arith, refl)

wire_ends : (n : ℕ) (w : Wire) → w.inbox ≡ [] → wire_recv n w.inbox w ≡ (bytes [], w)
unfolding wire_recv
wire_ends n w e = ap (λ t. wire_recv n t w) e

wire_stream : IsStream wire (λ w. w.inbox)
wire_stream = record { gives = λ n w h g. wire_gives n w w.inbox h refl g; ends = wire_ends }

wire_keeps : (n : ℕ) (w : Wire) (t : List ℕ) → (wire_recv n t w).1.outbox ≡ w.outbox
unfolding wire_recv
wire_keeps n w [] = refl
wire_keeps n w (b ∷ t) = refl

wire-IsConnected : IsConnected wire (λ w. w.inbox) (λ w. w.outbox)
wire-IsConnected = record {
  stream = wire_stream;
  keeps = λ n w. wire_keeps n w w.inbox;
  sends = λ b w. (record w { outbox = w.outbox ++ b }, refl, refl, refl);
}

-- A codec for requests without parameters, responses without a result and the report of an end: a request is
-- written as its method.
abbrev null_response : Value
null_response = response Value.null (Value.num (pos 100))

abbrev eof_report : Value
eof_report =
    error_message (Value.num (pos 100)) transport_communication
      (Value.str (codes "Error while reading a message from the plug-in, EOF")) Value.null

abbrev dumped_method : Option Value → Bool → List ℕ
dumped_method (some (Value.str m)) failed = m
dumped_method _ true = codes "E"
dumped_method _ false = codes "R"

dumps_short : Value → Outcome (List ℕ)
dumps_short (Value.dict fs) = ok (dumped_method (get "method" fs) (has "error" fs))
dumps_short _ = err other_error

loads_short : List ℕ → Outcome Value
loads_short t =
    if equal t (codes "R")
    then ok null_response
    else if equal t (codes "E")
    then ok eof_report
    else ok (request t Value.null)

abbrev short : Json
short = record { dumps = dumps_short; loads = loads_short }

abbrev register : List ℕ
register = codes "plugin_register"

abbrev unregister : List ℕ
unregister = codes "plugin_unregister"

register-IsMessage : IsMessage register
register-IsMessage = record { ascii = ground arith; some_text = omega arith; short = omega arith }

unregister-IsMessage : IsMessage unregister
unregister-IsMessage = record { ascii = ground arith; some_text = omega arith; short = omega arith }

r-IsMessage : IsMessage (codes "R")
r-IsMessage = record { ascii = ground arith; some_text = omega arith; short = omega arith }

e-IsMessage : IsMessage (codes "E")
e-IsMessage = record { ascii = ground arith; some_text = omega arith; short = omega arith }

register-Travels : Travels short (request register Value.null) register
unfolding dumps_short loads_short request plain get has Sends equal
register-Travels = record {
  wire = request register Value.null;
  survives = (refl, (tt, (tt, (tt, tt))));
  encoded = refl;
  dumped = refl;
  loaded = refl;
  fits = register-IsMessage;
}

unregister-Travels : Travels short (request unregister Value.null) unregister
unfolding dumps_short loads_short request plain get has Sends equal
unregister-Travels = record {
  wire = request unregister Value.null;
  survives = (refl, (tt, (tt, (tt, tt))));
  encoded = refl;
  dumped = refl;
  loaded = refl;
  fits = unregister-IsMessage;
}

r-Travels : Travels short (reply_message (result Value.null)) (codes "R")
unfolding dumps_short loads_short reply_message response plain get has Sends equal
r-Travels = record {
  wire = null_response;
  survives = (refl, (tt, (tt, tt)));
  encoded = refl;
  dumped = refl;
  loaded = refl;
  fits = r-IsMessage;
}

e-Travels : Travels short eof_report (codes "E")
unfolding dumps_short loads_short error_message plain get has Sends equal
e-Travels = record {
  wire = eof_report;
  survives = (refl, (tt, ((refl, (tt, (tt, (tt, tt)))), tt)));
  encoded = refl;
  dumped = refl;
  loaded = refl;
  fits = e-IsMessage;
}

-- a plugin that counts its calls
abbrev counter : Plugin ℕ
counter = record {
  hasattr = λ m n. true;
  call = λ m args n. (ok Value.null, suc n);
  text_of = λ x. [];
  traceback = λ x. [];
}

abbrev last_call : List Call
last_call =
    record { method = unregister; args = Value.null; asked = unregister; answer = codes "R" } ∷ []

abbrev calls : List Call
calls =
    record { method = register; args = Value.null; asked = register; answer = codes "R" }
    ∷ last_call

abbrev same_wire : Wire → Wire
same_wire w = w

counted : Session short wire same_wire counter 0 calls 2
unfolding Session dispatch call_with reply_of is_last equal
counted = (
  ok Value.null,
  1,
  result Value.null,
  refl,
  refl,
  register-Travels,
  r-Travels,
  (ok Value.null, 2, result Value.null, refl, refl, unregister-Travels, r-Travels, (tt, refl)),
)

abbrev busy : Wire
busy = record { inbox = requests calls ++ []; outbox = [] }

ran :
    (st : State Wire ℕ) × (run short wire same_wire counter 2
        (initial short wire same_wire counter busy 0)
      ≡ (returned, st))
ran =
    let (st, e, p, w) =
      run-session short wire same_wire counter (λ w. w.inbox) (λ w. w.outbox) wire-IsConnected
        (λ w. refl) calls 0 2 busy [] counted refl in
    (st, e)

run-session_example :
    (st : State Wire ℕ) × (run short wire same_wire counter 2
        (initial short wire same_wire counter busy 0)
      ≡ (returned, st))
    × (st.plugin ≡ 2)
    × (st.transport.outbox ≡ answers calls)
run-session_example =
    run-session short wire same_wire counter (λ w. w.inbox) (λ w. w.outbox) wire-IsConnected
      (λ w. refl) calls 0 2 busy [] counted refl

-- the registration is read, and answered
read_first :
    (w : Wire) × (read_req short wire busy ≡ (ok (request register Value.null), w))
    × (w.inbox ≡ requests last_call ++ [])
    × (w.outbox ≡ [])
read_first =
    read_req-framed wire (λ w. w.inbox) (λ w. w.outbox) wire-IsConnected short
      (request register Value.null) register busy (requests last_call ++ []) register-Travels
      (append_assoc (framed register) (requests last_call) [])

answered_first :
    (w : Wire) × (send_resp short wire Value.null (Value.num (pos 100)) read_first.0 ≡ (ok tt, w))
    × (w.outbox ≡ Wire.outbox read_first.0 ++ framed (codes "R"))
    × (w.inbox ≡ Wire.inbox read_first.0)
unfolding send_resp response reply_message
answered_first =
    send_value-written wire (λ w. w.inbox) (λ w. w.outbox) wire-IsConnected short null_response
      (codes "R") read_first.0 r-Travels

-- the run of the two calls returns, so its second round is that of `plugin_unregister`
run-registered_example : Unregisters short wire same_wire counter 1 (record {
  transport = answered_first.0;
  plugin = 1;
  need_shutdown = true;
  msg_id = Value.num (pos 100);
})
unfolding subscript request get equal dispatch call_with
run-registered_example =
    run-registered short wire same_wire counter (initial short wire same_wire counter busy 0) ran.0
      (request register Value.null) (Value.num (pos 100)) Value.null Value.null read_first.0
      answered_first.0 1 read_first.1 refl refl refl refl answered_first.1 1 ran.1

rpc-reply_example :
    (w : Wire) × (rpc short wire register Value.null
        (record { inbox = framed (codes "R") ++ []; outbox = [] })
      ≡ (reply_outcome (result Value.null), w))
    × (w.outbox ≡ framed register)
    × (w.inbox ≡ [])
rpc-reply_example =
    rpc-reply wire (λ w. w.inbox) (λ w. w.outbox) wire-IsConnected short register Value.null
      register (result Value.null) (codes "R")
      (record { inbox = framed (codes "R") ++ []; outbox = [] }) [] register-Travels r-Travels refl

recv_msg-frame_example :
    (w : Wire) × (recv_msg wire (record { inbox = framed register ++ codes "12"; outbox = [] })
      ≡ (ok register, w))
    × (w.inbox ≡ codes "12")
recv_msg-frame_example =
    recv_msg-frame wire (λ w. w.inbox) wire_stream register
      (record { inbox = framed register ++ codes "12"; outbox = [] }) (framed register) (codes "12")
      register-IsMessage (frame-of_ascii register register-IsMessage.ascii) refl

recv_msg-truncated_example :
    (w : Wire) × (recv_msg wire (record { inbox = codes "0000000015plug"; outbox = [] })
      ≡ (err (eof_error wire (λ w. w.inbox) wire_stream), w))
unfolding zfill str zeros decimal
recv_msg-truncated_example =
    recv_msg-truncated wire (λ w. w.inbox) wire_stream register
      (record { inbox = codes "0000000015plug"; outbox = [] }) (framed register)
      (codes "in_register") register-IsMessage (frame-of_ascii register register-IsMessage.ascii)
      refl (omega arith)

read_loop-Read_example :
    Read wire 3 (read_loop wire 3 3 [] (record { inbox = codes "1234"; outbox = [] }))
read_loop-Read_example =
    read_loop-Read wire 3 3 [] (record { inbox = codes "1234"; outbox = [] }) (omega arith)

abbrev idle : State Wire ℕ
idle = record {
  transport = record { inbox = []; outbox = [] };
  plugin = 5;
  need_shutdown = true;
  msg_id = Value.num (pos 100);
}

-- the same socket after its peer has closed it
abbrev gone : Socket Wire
gone = record { recv = λ n w. wire_recv n w.inbox w; sendall = λ b w. (unsent true "EPIPE", w) }

gone_stream : IsStream gone (λ w. w.inbox)
gone_stream = record { gives = λ n w h g. wire_gives n w w.inbox h refl g; ends = wire_ends }

run-hung_up_example : run short gone same_wire counter 4 idle ≡ (exited, record idle { plugin = 6 })
run-hung_up_example =
    run-hung_up short gone same_wire counter (λ w. w.inbox) gone_stream 3 idle (codes "E") "EPIPE"
      idle.transport Value.null 6 refl e-Travels refl refl refl

run-deaf_example : (st : State Wire ℕ) × (run short wire same_wire counter 9 idle ≡ (running, st))
run-deaf_example =
    run-deaf short wire same_wire counter (λ w. w.inbox) (λ w. w.outbox) wire-IsConnected 9 idle
      (codes "E") refl e-Travels
