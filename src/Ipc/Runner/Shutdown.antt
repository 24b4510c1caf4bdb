-- ===== src/Ipc/Runner/Shutdown.antt =====
-- What `PluginRunner.run` (python_binding/lsm/_pluginrunner.py) owes to a plugin that is registered.
use libstoragemgmt.Base.{
  ℕ, zero, suc, pos, ◌≡◌, refl, ap, Bool, true, false, none, ◌⊎◌, inl, inr, arith,
}
use libstoragemgmt.Text.{equal}
use libstoragemgmt.Data.Value.{Value}
use libstoragemgmt.Ipc.Raised.{
  Raised, value_error, attribute_error, eof, socket_error, lsm_error, other_error, Outcome, ok, err,
}
use libstoragemgmt.Ipc.Transport.{Socket}
use libstoragemgmt.Ipc.Messages.{Json, subscript, send_resp, read_req}
use libstoragemgmt.Ipc.Runner.{
  Plugin, State, Round, again, finished, escaped, Exit, returned, exited, running, raised, noted,
  respond, with_params, with_id, with_method, with_message, reported, exit_after, continue,
  plugin_register, plugin_unregister, dispatch, after_resp, serve, handle, step, escape, clean_up,
  run,
}

module _ {S P : Type 0} (json : Json) (sock : Socket S) (close : S → S) (plugin : Plugin P) where
  -- the method that is asked for is `plugin_unregister`
  abbrev is_unregister : Value → Bool
  is_unregister (Value.str method) = equal method plugin_unregister
  is_unregister _ = false

  abbrev names_unregister : Outcome Value → Bool
  names_unregister (ok method) = is_unregister method
  names_unregister (err x) = false

  abbrev pub asks_unregister : Outcome Value × S → Bool
  asks_unregister (ok msg, s) = names_unregister (subscript "method" msg)
  asks_unregister (err x, s) = false

  -- A round leaves the loop by the `break` only if `asked`, and otherwise there is still something to shut
  -- down.
  abbrev Kept : Bool → Outcome Bool × State S P → Type 0
  Kept asked (ok true, st) = asked ≡ true
  Kept asked (ok false, st) = st.need_shutdown ≡ true
  Kept asked (err x, st) = st.need_shutdown ≡ true

  abbrev KeptAfter : Bool → Bool × State S P → Type 0
  KeptAfter asked (true, st) = asked ≡ true
  KeptAfter asked (false, st) = st.need_shutdown ≡ true

  after_resp-Kept :
      (method : Value) (st : State S P)
      → st.need_shutdown ≡ true
      → KeptAfter (is_unregister method) (after_resp json sock close plugin method st)
  unfolding after_resp
  after_resp-Kept (Value.str method) st h = ground (arith, h)
  after_resp-Kept Value.null st h = h
  after_resp-Kept (Value.bool b) st h = h
  after_resp-Kept (Value.num n) st h = h
  after_resp-Kept (Value.list vs) st h = h
  after_resp-Kept (Value.dict fs) st h = h
  after_resp-Kept (Value.obj c fs) st h = h
  after_resp-Kept (Value.caps c) st h = h
  after_resp-Kept Value.other st h = h

  left-Kept : (b : Bool) (x : Bool × State S P) → KeptAfter b x → Kept b (ok x.0, x.1)
  left-Kept b (true, st) h = h
  left-Kept b (false, st) h = h

  noted-Kept :
      (method : Value) (r : Outcome (Unit {0}) × S) (st : State S P)
      → st.need_shutdown ≡ true
      → Kept (is_unregister method) (noted json sock close plugin method r st)
  noted-Kept method (err x, s) st h = h
  noted-Kept method (ok u, s) st h =
      left-Kept (is_unregister method)
        (after_resp json sock close plugin method (record st { transport = s }))
        (after_resp-Kept method (record st { transport = s }) h)

  respond-Kept :
      (method : Value) (r : Outcome Value × P) (st : State S P)
      → st.need_shutdown ≡ true
      → Kept (is_unregister method) (respond json sock close plugin method r st)
  respond-Kept method (err x, p) st h = h
  respond-Kept method (ok result, p) st h =
      noted-Kept method (send_resp json sock result (Value.num (pos 100)) st.transport)
        (record st { plugin = p }) h

  with_params-Kept :
      (method : Value) (r : Outcome Value) (st : State S P)
      → st.need_shutdown ≡ true
      → Kept (is_unregister method) (with_params json sock close plugin method r st)
  with_params-Kept method (err x) st h = h
  with_params-Kept method (ok params) st h =
      respond-Kept method (dispatch json sock close plugin method params st.plugin) st h

  with_id-Kept :
      (msg method : Value) (r : Outcome Value) (st : State S P)
      → st.need_shutdown ≡ true
      → Kept (is_unregister method) (with_id json sock close plugin msg method r st)
  with_id-Kept msg method (err x) st h = h
  with_id-Kept msg method (ok i) st h =
      with_params-Kept method (subscript "params" msg) (record st { msg_id = i }) h

  with_method-Kept :
      (msg : Value) (r : Outcome Value) (st : State S P)
      → st.need_shutdown ≡ true
      → Kept (names_unregister r) (with_method json sock close plugin msg r st)
  with_method-Kept msg (err x) st h = h
  with_method-Kept msg (ok method) st h = with_id-Kept msg method (subscript "id" msg) st h

  with_message-Kept :
      (r : Outcome Value × S) (st : State S P)
      → st.need_shutdown ≡ true
      → Kept (asks_unregister r) (with_message json sock close plugin r st)
  with_message-Kept (err x, s) st h = h
  with_message-Kept (ok msg, s) st h =
      with_method-Kept msg (subscript "method" msg) (record st { transport = s }) h

  serve-Kept :
      (st : State S P)
      → st.need_shutdown ≡ true
      → Kept (asks_unregister (read_req json sock st.transport)) (serve json sock close plugin st)
  unfolding serve
  serve-Kept st h = with_message-Kept (read_req json sock st.transport) st h

  -- the same of a round with its handlers
  abbrev KeptRound : Bool → Round × State S P → Type 0
  KeptRound asked (again, st) = st.need_shutdown ≡ true
  KeptRound asked (finished, st) = asked ≡ true
  KeptRound asked (escaped x, st) = st.need_shutdown ≡ true

  report-Kept :
      (b : Bool) (r : Outcome (Unit {0}) × S) (st : State S P)
      → st.need_shutdown ≡ true
      → KeptRound b (reported json sock close plugin r st)
  report-Kept b (ok u, s) st h = h
  report-Kept b (err x, s) st h = h

  handle-Kept :
      (b : Bool) (x : Outcome Bool × State S P)
      → Kept b x
      → KeptRound b (handle json sock close plugin x)
  unfolding handle
  handle-Kept b (ok false, st) h = h
  handle-Kept b (ok true, st) h = h
  handle-Kept b (err value_error, st) h = report-Kept b _ st h
  handle-Kept b (err attribute_error, st) h = report-Kept b _ st h
  handle-Kept b (err (lsm_error code msg extra), st) h = report-Kept b _ st h
  handle-Kept b (err eof, st) h = h
  handle-Kept b (err (socket_error e text), st) h = h
  handle-Kept b (err other_error, st) h = h

  escape-Kept :
      (x : Raised) (st : State S P)
      → st.need_shutdown ≡ true
      → State.need_shutdown (escape json sock close plugin x st) ≡ true
  unfolding escape
  escape-Kept eof st h = h
  escape-Kept (socket_error e text) st h = h
  escape-Kept value_error st h = h
  escape-Kept attribute_error st h = h
  escape-Kept (lsm_error code msg extra) st h = h
  escape-Kept other_error st h = h

  -- One of the next f rounds leaves the loop by the `break`, all before it go on, and what it reads is a
  -- request for `plugin_unregister`.
  abbrev pub Unregisters : ℕ → State S P → Type 0
  Unregisters zero st = ⊥
  Unregisters (suc f) st =
      (((step json sock close plugin st).0 ≡ finished)
        × (asks_unregister (read_req json sock st.transport) ≡ true))
      ⊎ (((step json sock close plugin st).0 ≡ again)
          × Unregisters f (step json sock close plugin st).1)

  abbrev has_returned : Exit × State S P → Bool
  has_returned (returned, st) = true
  has_returned (exited, st) = false
  has_returned (running, st) = false
  has_returned (raised x, st) = false

  exit-not_returned :
      (x : Outcome Value × P) (st : State S P)
      → has_returned (exit_after json sock close plugin x st) ≡ false
  exit-not_returned (ok v, p) st = refl
  exit-not_returned (err x, p) st = refl

  clean_up-not_returned :
      (st : State S P)
      → st.need_shutdown ≡ true
      → has_returned (clean_up json sock close plugin st) ≡ false
  unfolding clean_up
  clean_up-not_returned st h = rw h (
      exit-not_returned (plugin.call plugin_unregister none st.plugin)
        (record st { need_shutdown = true }))

  continue-Unregisters :
      (f : ℕ) (b : Bool) (x : Round × State S P)
      → KeptRound b x
      → ((st : State S P)
          → st.need_shutdown ≡ true
          → has_returned (run json sock close plugin f st) ≡ true
          → Unregisters f st)
      → has_returned (continue json sock close plugin (run json sock close plugin f) x) ≡ true
      → ((x.0 ≡ finished) × (b ≡ true)) ⊎ ((x.0 ≡ again) × Unregisters f x.1)
  continue-Unregisters f b (again, st) h next r = inr (refl, next st h r)
  continue-Unregisters f b (finished, st) h next r = inl (refl, h)
  continue-Unregisters f b (escaped x, st) h next r = absurd (
      grind
        (arith, r, clean_up-not_returned (escape json sock close plugin x st) (escape-Kept x st h)))

  run-Unregisters :
      (f : ℕ) (st : State S P)
      → st.need_shutdown ≡ true
      → has_returned (run json sock close plugin f st) ≡ true
      → Unregisters f st
  unfolding run step
  run-Unregisters zero st h r = absurd (grind (arith, r))
  run-Unregisters (suc f) st h r =
      let b = asks_unregister (read_req json sock st.transport) in
      continue-Unregisters f b (step json sock close plugin st)
        (handle-Kept b (serve json sock close plugin st) (serve-Kept st h)) (run-Unregisters f) r

  module _ (st st' : State S P) (msg i params result : Value) (s s' : S) (p : P)
      (read : read_req json sock st.transport ≡ (ok msg, s))
      (method : subscript "method" msg ≡ ok (Value.str plugin_register))
      (id : subscript "id" msg ≡ ok i) (with_them : subscript "params" msg ≡ ok params)
      (called : dispatch json sock close plugin (Value.str plugin_register) params st.plugin
        ≡ (ok result, p))
      (sent : send_resp json sock result (Value.num (pos 100)) s ≡ (ok tt, s')) where
    -- what the registration leaves
    abbrev pub registered : State S P
    registered = record { transport = s'; plugin = p; need_shutdown = true; msg_id = i }

    step-registered : step json sock close plugin st ≡ (again, registered)
    unfolding step serve handle after_resp equal
    step-registered = rw (read, method, id, with_them, called, sent) refl

    run-suc :
        (f : ℕ) → run json sock close plugin (suc f) st ≡ run json sock close plugin f registered
    unfolding run
    run-suc f = rw step-registered refl

    -- Once a request for `plugin_register` is answered with what the plugin returns, `run` returns only by a
    -- later round that reads a request for `plugin_unregister` and leaves the loop, where every round between
    -- them goes on.
    pub run-registered :
        (f : ℕ) → run json sock close plugin (suc f) st ≡ (returned, st') → Unregisters f registered
    run-registered f r =
        let e : run json sock close plugin f registered ≡ (returned, st') = cc (run-suc f, r) in
        run-Unregisters f registered refl (ap has_returned e)
