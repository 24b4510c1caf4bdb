-- ===== src/Ipc/Runner/Steps.antt =====
-- The rounds of `PluginRunner.run` (python_binding/lsm/_pluginrunner.py) on requests that arrive whole.
use mathlib.Core.Path.{subst}
use libstoragemgmt.Base.{
  arith, Bool-cases, inl, inr, ℕ, ◌≡◌, refl, ap, ◌∙◌, pos, negsuc, Bool, true, false, Option, none,
  some, List, ◌++◌,
}
use libstoragemgmt.Text.{equal}
use libstoragemgmt.Data.Value.{Value, get}
use libstoragemgmt.Ipc.Raised.{
  value_error, attribute_error, eof, socket_error, lsm_error, other_error, Outcome, ok, err,
}
use libstoragemgmt.Ipc.Transport.{Socket}
use libstoragemgmt.Ipc.Messages.{
  Json, request, subscript, send_error, send_resp, error_message, response,
}
use libstoragemgmt.Ipc.Messages.Exchange.{
  IsConnected, Travels, framed, Reply, result, failure, reply_message, send_value-written,
  read_req-framed,
}
use libstoragemgmt.Ipc.Runner.{
  Plugin, State, Round, again, finished, plugin_register, plugin_unregister, respond, report,
  dispatch, after_resp, serve, handle, step,
}

-- What a plugin answers to a call, by the way that it ends; none for an exception that ends the runner.
unfoldable pub reply_of : {P : Type 0} → Plugin P → Outcome Value → Option Reply
reply_of plugin (ok v) = some (result v)
reply_of plugin (err value_error) =
    some (failure (Value.num (negsuc 32699)) (Value.str (plugin.text_of value_error)) Value.null)
reply_of plugin (err attribute_error) =
    some
      (failure (Value.num (negsuc 32600)) (Value.str (plugin.text_of attribute_error)) Value.null)
reply_of plugin (err (lsm_error code msg extra)) = some (failure code msg extra)
reply_of plugin (err x) = none

-- whether the answer ends the session
unfoldable pub is_last : List ℕ → Reply → Bool
is_last method (result v) = equal method plugin_unregister
is_last method (failure code msg extra) = false

module _ {S P : Type 0} (json : Json) (sock : Socket S) (close : S → S) (plugin : Plugin P)
    (pending written : S → List ℕ) (conn : IsConnected sock pending written) where
  called :
      (method : List ℕ) (args : Value) (asked : List ℕ) (st : State S P) (o : Outcome Value) (q : P)
      (rest : List ℕ)
      → Travels json (request method args) asked
      → dispatch json sock close plugin (Value.str method) args st.plugin ≡ (o, q)
      → pending st.transport ≡ framed asked ++ rest
      → (s1 : S) × (pending s1 ≡ rest)
        × (written s1 ≡ written st.transport)
        × (serve json sock close plugin st
            ≡ respond json sock close plugin
                (Value.str method)
                (o, q)
                (record st { transport = s1; msg_id = Value.num (pos 100) }))
  unfolding serve request subscript get
  called method args asked st o q rest t d e =
      let (s1, got, left, same) =
        read_req-framed sock pending written conn json (request method args) asked st.transport rest
          t e in
      (s1, left, same, rw (got, d) refl)

  -- a failure is reported with the request's id
  report-sent :
      (code msg extra : Value) (answer : List ℕ) (st : State S P)
      → Travels json (error_message (Value.num (pos 100)) code msg extra) answer
      → st.msg_id ≡ Value.num (pos 100)
      → (s2 : S) × (pending s2 ≡ pending st.transport)
        × (written s2 ≡ written st.transport ++ framed answer)
        × (report json sock close plugin code msg extra st ≡ (again, record st { transport = s2 }))
  unfolding send_error
  report-sent code msg extra answer st t i =
      let (s2, e, w, p) =
        send_value-written sock pending written conn json
          (error_message (Value.num (pos 100)) code msg extra) answer st.transport t in
      (s2, p, w, rw (i, e) refl)

  -- What one round leaves: the answer is sent, what comes next is still to be read, and nothing is to be
  -- shut down after the last one.
  pub record Answered (st st' : State S P) (q : P) (answer rest : List ℕ) (last : Bool)
      : Type 0 where
    pub left_plugin : st'.plugin ≡ q
    pub answered : written st'.transport ≡ written st.transport ++ framed answer
    pub unread : last ≡ false → pending st'.transport ≡ rest
    pub shut : last ≡ true → st'.need_shutdown ≡ false

  abbrev pub next_round : Bool → Round
  next_round true = finished
  next_round false = again

  module _ (closed : (s : S) → written (close s) ≡ written s) where
    sent_response :
        (method : List ℕ) (v : Value) (answer : List ℕ) (st st1 : State S P)
        → Travels json (response v (Value.num (pos 100))) answer
        → written st1.transport ≡ written st.transport
        → (st' : State S P) × (handle json sock close plugin
              (respond json sock close plugin (Value.str method) (ok v, st1.plugin) st1)
            ≡ (next_round (equal method plugin_unregister), st'))
          × Answered st st' st1.plugin answer
              (pending st1.transport)
              (equal method plugin_unregister)
    unfolding send_resp handle after_resp
    sent_response method v answer st st1 t same =
        let (s2, e, w, p) =
          send_value-written sock pending written conn json (response v (Value.num (pos 100)))
            answer st1.transport t in
        let all : written s2 ≡ written st.transport ++ framed answer =
          w ∙ ap (λ x. x ++ framed answer) same in
        elim (Bool-cases (equal method plugin_unregister)) [
          | inl leave ↦ (
            record st1 { need_shutdown = false; transport = close s2 },
            rw (e, leave) refl,
            rw leave (record {
              left_plugin = refl;
              answered = closed s2 ∙ all;
              unread = λ h. absurd (ground arith);
              shut = λ h. refl;
            }),
          )
          | inr stay ↦ elim (Bool-cases (equal method plugin_register)) [
            | inl registered ↦ (
              record st1 { need_shutdown = true; transport = s2 },
              rw (e, stay, registered) refl,
              rw stay (record {
                left_plugin = refl;
                answered = all;
                unread = λ h. p;
                shut = λ h. absurd (ground arith);
              }),
            )
            | inr other ↦ (
              record st1 { transport = s2 },
              rw (e, stay, other) refl,
              rw stay (record {
                left_plugin = refl;
                answered = all;
                unread = λ h. p;
                shut = λ h. absurd (ground arith);
              }),
            )
          ]
        ]

    sent_failure :
        (code msg extra : Value) (answer : List ℕ) (st st1 : State S P) (q : P)
        → Travels json (error_message (Value.num (pos 100)) code msg extra) answer
        → written st1.transport ≡ written st.transport
        → st1.msg_id ≡ Value.num (pos 100)
        → st1.plugin ≡ q
        → (st' : State S P) × (report json sock close plugin code msg extra st1 ≡ (again, st'))
          × Answered st st' q answer (pending st1.transport) false
    sent_failure code msg extra answer st st1 q t same i kept =
        let (s2, p, w, e) = report-sent code msg extra answer st1 t i in
        (
          record st1 { transport = s2 },
          e,
          record {
            left_plugin = kept;
            answered = w ∙ ap (λ x. x ++ framed answer) same;
            unread = λ h. p;
            shut = λ h. absurd (ground arith);
          },
        )

    abbrev Replies :
        List ℕ → Outcome Value → P → List ℕ → State S P → State S P → Option Reply → Type 0
    Replies method o q answer st st1 none = Unit
    Replies method o q answer st st1 (some reply) =
        Travels json (reply_message reply) answer
        → (st' : State S P) × (handle json sock close plugin
              (respond json sock close plugin (Value.str method) (o, q) st1)
            ≡ (next_round (is_last method reply), st'))
          × Answered st st' q answer (pending st1.transport) (is_last method reply)

    by_outcome :
        (method : List ℕ) (o : Outcome Value) (q : P) (answer : List ℕ) (st st1 : State S P)
        → written st1.transport ≡ written st.transport
        → st1.msg_id ≡ Value.num (pos 100)
        → Replies method o q answer st st1 (reply_of plugin o)
    unfolding reply_of is_last reply_message handle
    by_outcome method (ok v) q answer st st1 same i =
        λ t. sent_response method v answer st (record st1 { plugin = q }) t same
    by_outcome method (err value_error) q answer st st1 same i =
        λ t. sent_failure _ _ _ answer st (record st1 { plugin = q }) q t same i refl
    by_outcome method (err attribute_error) q answer st st1 same i =
        λ t. sent_failure _ _ _ answer st (record st1 { plugin = q }) q t same i refl
    by_outcome method (err (lsm_error code msg extra)) q answer st st1 same i =
        λ t. sent_failure code msg extra answer st (record st1 { plugin = q }) q t same i refl
    by_outcome method (err eof) q answer st st1 same i = tt
    by_outcome method (err (socket_error e text)) q answer st st1 same i = tt
    by_outcome method (err other_error) q answer st st1 same i = tt

    -- One round answers one request, however the plugin's method ends: the message of its answer is all
    -- that is sent, and the session goes on, or ends after the answer to `plugin_unregister`.
    pub step-reply :
        (method : List ℕ) (args : Value) (asked : List ℕ) (reply : Reply) (answer : List ℕ)
        (st : State S P) (o : Outcome Value) (q : P) (rest : List ℕ)
        → Travels json (request method args) asked
        → dispatch json sock close plugin (Value.str method) args st.plugin ≡ (o, q)
        → reply_of plugin o ≡ some reply
        → Travels json (reply_message reply) answer
        → pending st.transport ≡ framed asked ++ rest
        → (st' : State S P) × (step json sock close plugin st
            ≡ (next_round (is_last method reply), st'))
          × Answered st st' q answer rest (is_last method reply)
    unfolding step
    step-reply method args asked reply answer st o q rest t d r u e =
        let (s1, left, same, served) = called method args asked st o q rest t d e in
        let st1 = record st { transport = s1; msg_id = Value.num (pos 100) } in
        let (st', next, done) =
          subst (λ x. Replies method o q answer st st1 x) r
            (by_outcome method o q answer st st1 same refl) u in
        (
          st',
          ap (λ x. handle json sock close plugin x) served ∙ next,
          subst (λ x. Answered st st' q answer x (is_last method reply)) left done,
        )
