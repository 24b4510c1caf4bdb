-- ===== src/Ipc/Messages/Exchange.antt =====
-- Messages between a client and a plugin over a socket that works both ways
-- (python_binding/lsm/_transport.py).
use libstoragemgmt.Base.{
  ℤ, negsuc, ℕ, zero, suc, ◌-◌, ◌<◌, ◌≡◌, refl, sym, ap, ◌∙◌, pos, Option, none, some, List, [],
  ◌∷◌, ◌++◌, ltb, Bool-cases, inl, inr, arith, length,
}
use libstoragemgmt.Text.{int}
use libstoragemgmt.Data.Value.{Value, get, has}
use libstoragemgmt.Data.Params.{bind}
use libstoragemgmt.Data.Codec.{plain, decode}
use libstoragemgmt.Data.Codec.RoundTrip.{Sends, decode-plain}
use libstoragemgmt.Ipc.Raised.{lsm_error, Outcome, ok, err}
use libstoragemgmt.Ipc.Transport.{
  Received, bytes, failed, sent, Socket, hdr_len, read_loop, read_all, then_decode, then_body,
  read_body, recv_msg, send_bytes, send_msg,
}
use libstoragemgmt.Ipc.Transport.Reading.{IsStream}
use libstoragemgmt.Ipc.Transport.Termination.{round, done, at_end, on_error}
use libstoragemgmt.Ipc.Transport.Framing.{IsMessage, header, frame-of_ascii, recv_msg-frame}
use libstoragemgmt.Ipc.Messages.{
  Json, then_do, request, error_message, response, result_of, send_failure, send_value, parsed,
  send_req, read_req, read_resp, rpc, response, with_id_100, lsm_error_of,
}

-- A connected socket: its peer sends `pending`, and `written` is all that was sent to the peer, which
-- takes everything.
pub record IsConnected {S : Type 0} (sock : Socket S) (pending written : S → List ℕ) : Type 0 where
  pub stream : IsStream sock pending
  pub keeps : (n : ℕ) (s : S) → written (sock.recv n s).1 ≡ written s
  pub sends :
      (b : List ℕ) (s : S)
      → (s' : S) × (sock.sendall b s ≡ (sent, s'))
        × (written s' ≡ written s ++ b)
        × (pending s' ≡ pending s)

-- What json does with the message `v`: its text, in ASCII as `dumps` writes it, is short enough for a
-- header, and `loads` reads it back.
pub record Travels (json : Json) (v : Value) (text : List ℕ) : Type 0 where
  pub wire : Value
  pub survives : Sends v
  pub encoded : plain v ≡ ok wire
  pub dumped : json.dumps wire ≡ ok text
  pub loaded : json.loads text ≡ ok wire
  pub fits : IsMessage text

-- the bytes of a message with its header
abbrev pub framed : List ℕ → List ℕ
framed text = header text ++ text

pub decoded-wire :
    (json : Json) (v : Value) (text : List ℕ) (t : Travels json v text) → decode t.wire ≡ ok v
decoded-wire json v text t =
    let (w, p, q) = decode-plain v t.survives in
    let same : w ≡ t.wire = cc (p, t.encoded) in ap decode (sym same) ∙ q

-- what a plugin answers to a request
pub data Reply : Type 0 where
  result : Value → Reply
  failure : (code msg extra : Value) → Reply

unfoldable pub reply_message : Reply → Value
reply_message (result v) = response v (Value.num (pos 100))
reply_message (failure code msg extra) = error_message (Value.num (pos 100)) code msg extra

unfoldable pub reply_outcome : Reply → Outcome Value
reply_outcome (result v) = ok v
reply_outcome (failure code msg extra) = err (lsm_error code msg extra)

reply-read : (r : Reply) → then_do (result_of (reply_message r)) with_id_100 ≡ reply_outcome r
unfolding reply_message reply_outcome response error_message result_of with_id_100 lsm_error_of bind
    get has
reply-read (result v) = refl
reply-read (failure code msg extra) = refl

parsed-text :
    {S : Type 0} (json : Json) (sock : Socket S) (v : Value) (text : List ℕ)
    → Travels json v text
    → parsed json sock text ≡ ok v
unfolding parsed
parsed-text json sock v text t = rw t.loaded (decoded-wire json v text t)

module _ {S : Type 0} (sock : Socket S) (pending written : S → List ℕ)
    (conn : IsConnected sock pending written) where
  loop_round :
      (f l : ℕ) (d : List ℕ) (s : S) (r : Received) (s' : S)
      → length d < l
      → sock.recv (l - length d) s ≡ (r, s')
      → ((b : ℕ) (bs : List ℕ) → written (read_loop sock f l (d ++ b ∷ bs) s').1 ≡ written s')
      → written (read_loop sock (suc f) l d s).1 ≡ written s'
  loop_round f l d s (failed e text) s' more k next =
      rw (on_error sock f l d s s' e text more k) refl
  loop_round f l d s (bytes []) s' more k next = rw (at_end sock f l d s s' more k) refl
  loop_round f l d s (bytes (b ∷ bs)) s' more k next =
      rw (round sock f l d s s' b bs more k) (next b bs)

  no_fuel : (l : ℕ) (d : List ℕ) (s : S) → read_loop sock zero l d s ≡ (ok d, s)
  unfolding read_loop
  no_fuel l d s = refl

  -- reading changes nothing of what was sent
  read_loop-written :
      (f l : ℕ) (d : List ℕ) (s : S) → written (read_loop sock f l d s).1 ≡ written s
  read_loop-written zero l d s = rw (no_fuel l d s) refl
  read_loop-written (suc f) l d s = elim (Bool-cases (ltb (length d) l)) [
    | inr enough ↦ rw (done sock (suc f) l d s (ground arith)) refl
    | inl more ↦
        loop_round f l d s (sock.recv (l - length d) s).0 (sock.recv (l - length d) s).1
          (ground arith) refl
          (λ b bs. read_loop-written f l (d ++ b ∷ bs) (sock.recv (l - length d) s).1)
        ∙ conn.keeps (l - length d) s
  ]

  decode_state : (x : Outcome (List ℕ) × S) → written (then_decode sock x).1 ≡ written x.1
  decode_state (ok d, s) = refl
  decode_state (err x, s) = refl

  read_all-written : (l : ℕ) (s : S) → written (read_all sock l s).1 ≡ written s
  unfolding read_all
  read_all-written l s = elim (Bool-cases (ltb l 1)) [
    | inl none_asked ↦ rw none_asked refl
    | inr some_asked ↦
        rw some_asked (decode_state (read_loop sock l l [] s) ∙ read_loop-written l l [] s)
  ]

  read_body-written : (n : Option ℤ) (s : S) → written (read_body sock n s).1 ≡ written s
  unfolding read_body
  read_body-written none s = refl
  read_body-written (some (pos n)) s = read_all-written n s
  read_body-written (some (negsuc n)) s = refl

  body_state : (x : Outcome (List ℕ) × S) → written (then_body sock x).1 ≡ written x.1
  body_state (ok num_bytes, s) = read_body-written (int num_bytes) s
  body_state (err x, s) = refl

  pub recv_msg-written : (s : S) → written (recv_msg sock s).1 ≡ written s
  unfolding recv_msg
  recv_msg-written s = body_state (read_all sock hdr_len s) ∙ read_all-written hdr_len s

  send_bytes-sent :
      (b : List ℕ) (s s' : S)
      → sock.sendall b s ≡ (sent, s')
      → send_bytes sock (some b) s ≡ (ok tt, s')
  send_bytes-sent b s s' took = rw took refl

  send_msg-framed :
      (text : List ℕ) (s s' : S)
      → IsMessage text
      → sock.sendall (framed text) s ≡ (sent, s')
      → send_msg sock text s ≡ (ok tt, s')
  unfolding send_msg
  send_msg-framed [] s s' m took = absurd (omega (arith, m.some_text))
  send_msg-framed (c ∷ text) s s' m took =
      ap (λ b. send_bytes sock b s) (frame-of_ascii (c ∷ text) m.ascii)
      ∙ send_bytes-sent (framed (c ∷ text)) s s' took

  module _ (json : Json) where
    pub send_value-written :
        (v : Value) (text : List ℕ) (s : S)
        → Travels json v text
        → (s' : S) × (send_value json sock v s ≡ (ok tt, s'))
          × (written s' ≡ written s ++ framed text)
          × (pending s' ≡ pending s)
    unfolding send_value
    send_value-written v text s t =
        let (s', took, w, p) = conn.sends (framed text) s in
        (s', rw (t.encoded, t.dumped) (send_msg-framed text s s' t.fits took), w, p)

    pub read_req-framed :
        (v : Value) (text : List ℕ) (s : S) (rest : List ℕ)
        → Travels json v text
        → pending s ≡ framed text ++ rest
        → (s' : S) × (read_req json sock s ≡ (ok v, s'))
          × (pending s' ≡ rest)
          × (written s' ≡ written s)
    unfolding read_req
    read_req-framed v [] s rest t e = absurd (omega (arith, t.fits.some_text))
    read_req-framed v (c ∷ text) s rest t e =
        let (s', got, left) =
          recv_msg-frame sock pending conn.stream (c ∷ text) s (framed (c ∷ text)) rest t.fits
            (frame-of_ascii (c ∷ text) t.fits.ascii) e in
        (
          s',
          rw (got, parsed-text json sock v (c ∷ text) t) refl,
          left,
          ap (λ x. written x.1) (sym got) ∙ recv_msg-written s,
        )

    read_resp-framed :
        (v : Value) (text : List ℕ) (s : S) (rest : List ℕ)
        → Travels json v text
        → pending s ≡ framed text ++ rest
        → (s' : S) × (read_resp json sock s ≡ (result_of v, s'))
          × (pending s' ≡ rest)
          × (written s' ≡ written s)
    unfolding read_resp
    read_resp-framed v text s rest t e =
        let (s', got, left) =
          recv_msg-frame sock pending conn.stream text s (framed text) rest t.fits
            (frame-of_ascii text t.fits.ascii) e in
        (
          s',
          rw (got, parsed-text json sock v text t) refl,
          left,
          ap (λ x. written x.1) (sym got) ∙ recv_msg-written s,
        )

    send_req-written :
        (method : List ℕ) (args : Value) (text : List ℕ) (s : S)
        → Travels json (request method args) text
        → (s' : S) × (send_req json sock method args s ≡ (ok tt, s'))
          × (written s' ≡ written s ++ framed text)
          × (pending s' ≡ pending s)
    unfolding send_req send_failure
    send_req-written method args text s t =
        let (s', e, w, p) = send_value-written (request method args) text s t in
        (s', rw e refl, w, p)

    -- Where json reads the request and the reply back and the reply comes, the caller of `rpc` has sent its
    -- request, and gets the result of a response, or the plugin's LsmError.
    pub rpc-reply :
        (method : List ℕ) (args : Value) (asked : List ℕ) (reply : Reply) (answer : List ℕ) (s : S)
        (rest : List ℕ)
        → Travels json (request method args) asked
        → Travels json (reply_message reply) answer
        → pending s ≡ framed answer ++ rest
        → (s' : S) × (rpc json sock method args s ≡ (reply_outcome reply, s'))
          × (written s' ≡ written s ++ framed asked)
          × (pending s' ≡ rest)
    unfolding rpc
    rpc-reply method args asked reply answer s rest t u e =
        let (s1, sent_it, w, p) = send_req-written method args asked s t in
        let (s2, got, left, same) =
          read_resp-framed (reply_message reply) answer s1 rest u (p ∙ e) in
        (s2, rw (sent_it, got, reply-read reply) refl, same ∙ w, left)
