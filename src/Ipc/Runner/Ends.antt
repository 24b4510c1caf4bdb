-- ===== src/Ipc/Runner/Ends.antt =====
-- How `PluginRunner.run` ends, or does not, where the client goes without `plugin_unregister`
-- (python_binding/lsm/_pluginrunner.py).
use libstoragemgmt.Base.{
  ℕ, zero, suc, ◌≡◌, refl, ap, ◌∙◌, String, true, none, some, List, [], ◌∷◌, arith,
}
use libstoragemgmt.Text.{codes}
use libstoragemgmt.Data.Value.{Value}
use libstoragemgmt.Ipc.Raised.{socket_error, ok, err}
use libstoragemgmt.Ipc.Transport.{
  as_lsm_error, read_all, Socket, unsent, transport_communication, recv_msg, send_msg, send_bytes,
}
use libstoragemgmt.Ipc.Transport.Termination.{at_end}
use libstoragemgmt.Ipc.Transport.Reading.{IsStream}
use libstoragemgmt.Ipc.Transport.Framing.{IsMessage, eof_error, frame-of_ascii}
use libstoragemgmt.Ipc.Messages.{Json, error_message, send_error, send_value, read_req}
use libstoragemgmt.Ipc.Messages.Exchange.{IsConnected, Travels, framed, send_value-written}
use libstoragemgmt.Ipc.Runner.{
  Plugin, State, escaped, exited, running, plugin_unregister, serve, handle, step, escape, clean_up,
  run, report,
}

module _ {S P : Type 0} (json : Json) (sock : Socket S) (close : S → S) (plugin : Plugin P) where
  -- what the runner sends where it reads the end of the stream
  abbrev pub eof_message : State S P → Value
  eof_message st =
      error_message st.msg_id transport_communication
        (Value.str (codes "Error while reading a message from the plug-in, EOF")) Value.null

  module _ (pending : S → List ℕ) (stream : IsStream sock pending) where
    recv_msg-ended :
        (s : S) → pending s ≡ [] → recv_msg sock s ≡ (err (eof_error sock pending stream), s)
    unfolding recv_msg read_all as_lsm_error
    recv_msg-ended s e = rw (at_end sock 9 10 [] s s (omega arith) (stream.ends 10 s e)) refl

    send_bytes-unsent :
        (b : List ℕ) (s s' : S) (reason : String)
        → sock.sendall b s ≡ (unsent true reason, s')
        → send_bytes sock (some b) s ≡ (err (socket_error true reason), s')
    send_bytes-unsent b s s' reason gone = rw gone refl

    send_msg-unsent :
        (text : List ℕ) (s s' : S) (reason : String)
        → IsMessage text
        → sock.sendall (framed text) s ≡ (unsent true reason, s')
        → send_msg sock text s ≡ (err (socket_error true reason), s')
    unfolding send_msg
    send_msg-unsent [] s s' reason m gone = absurd (omega (arith, m.some_text))
    send_msg-unsent (c ∷ text) s s' reason m gone =
        ap (λ b. send_bytes sock b s) (frame-of_ascii (c ∷ text) m.ascii)
        ∙ send_bytes-unsent (framed (c ∷ text)) s s' reason gone

    -- the end of the stream is reported like any LsmError
    step-ended :
        (st : State S P)
        → pending st.transport ≡ []
        → step json sock close plugin st
          ≡ report json sock close plugin transport_communication
              (Value.str (codes "Error while reading a message from the plug-in, EOF"))
              Value.null
              st
    unfolding step serve read_req handle
    step-ended st e = rw (recv_msg-ended st.transport e) refl

    report-unsent :
        (st : State S P) (text : List ℕ) (reason : String) (s' : S)
        → Travels json (eof_message st) text
        → sock.sendall (framed text) st.transport ≡ (unsent true reason, s')
        → report json sock close plugin transport_communication
            (Value.str (codes "Error while reading a message from the plug-in, EOF"))
            Value.null
            st
          ≡ (escaped (socket_error true reason), record st { transport = s' })
    unfolding send_error send_value
    report-unsent st text reason s' t gone =
        rw (t.encoded, t.dumped, send_msg-unsent text st.transport s' reason t.fits gone) refl

    -- Where the stream has ended, the report of that fails with EPIPE, and there is something to shut down,
    -- the round is the last one: the plugin gets `plugin_unregister`, and where that returns, `run` exits.
    pub run-hung_up :
        (f : ℕ) (st : State S P) (text : List ℕ) (reason : String) (s' : S) (v : Value) (q : P)
        → pending st.transport ≡ []
        → Travels json (eof_message st) text
        → sock.sendall (framed text) st.transport ≡ (unsent true reason, s')
        → st.need_shutdown ≡ true
        → plugin.call plugin_unregister none st.plugin ≡ (ok v, q)
        → run json sock close plugin (suc f) st ≡ (exited, record st { transport = s'; plugin = q })
    unfolding run clean_up escape
    run-hung_up f st text reason s' v q e t gone need called =
        rw (step-ended st e, report-unsent st text reason s' t gone, need, called) refl

  -- Where the stream has ended, what is sent still goes through, and json reads the report of the end
  -- back, `run` has not ended after any number of rounds.
  pub run-deaf :
      (pending written : S → List ℕ) (conn : IsConnected sock pending written) (f : ℕ)
      (st : State S P) (text : List ℕ)
      → pending st.transport ≡ []
      → Travels json (eof_message st) text
      → (st' : State S P) × (run json sock close plugin f st ≡ (running, st'))
  unfolding run send_error
  run-deaf pending written conn zero st text e t = (st, refl)
  run-deaf pending written conn (suc f) st text e t =
      let (s2, sent_it, w, p) =
        send_value-written sock pending written conn json (eof_message st) text st.transport t in
      let (st', r) =
        run-deaf pending written conn f (record st { transport = s2 }) text (p ∙ e) t in
      (st', rw (step-ended pending conn.stream st e, sent_it) r)
