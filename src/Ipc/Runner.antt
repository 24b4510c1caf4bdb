-- ===== src/Ipc/Runner.antt =====
-- `PluginRunner` of python_binding/lsm/_pluginrunner.py: the loop of a plugin that serves one client.
-- What it logs is left out, but for the texts that it also sends.
pub mod Steps
pub mod Session
pub mod Ends
pub mod Shutdown
use libstoragemgmt.Base.{
  ℕ, zero, suc, ℤ, pos, negsuc, Bool, true, false, Option, none, some, List, [], ◌∷◌, if◌then◌else◌,
}
use libstoragemgmt.Text.{codes, equal}
use libstoragemgmt.Data.Value
use libstoragemgmt.Data.Value.{Value, Fields}
use libstoragemgmt.Ipc.Raised.{
  Raised, value_error, attribute_error, eof, socket_error, lsm_error, other_error, Outcome, ok, err,
}
use libstoragemgmt.Ipc.Transport.{Socket}
use libstoragemgmt.Ipc.Messages.{Json, subscript, send_error, send_resp, read_req}

-- A plugin in its states P: the attributes that it has, its methods called without arguments or with
-- keyword arguments, and the texts of exceptions, `str(e)` and `traceback.format_exc()`. Exceptions of
-- one kind are told apart by neither.
pub record Plugin (P : Type 0) : Type 0 where
  pub hasattr : List ℕ → P → Bool
  pub call : List ℕ → Option Fields → P → Outcome Value × P
  pub text_of : Raised → List ℕ
  pub traceback : Raised → List ℕ

-- what `run` keeps: the transport, the plugin and its variables
pub record State (S P : Type 0) : Type 0 where
  pub transport : S
  pub plugin : P
  pub need_shutdown : Bool
  pub msg_id : Value

-- one round of the `while`: another one, the `break`, or an exception that no handler of the inner `try`
-- takes, or that a handler raises
pub data Round : Type 0 where
  again finished : Round
  escaped : Raised → Round

-- How `run` ends: it returns, it calls sys.exit(2), or it raises; `running` is the end of the fuel.
pub data Exit : Type 0 where
  returned exited running : Exit
  raised : Raised → Exit

abbrev pub no_support_error : Raised
no_support_error =
    lsm_error (Value.num (pos 153)) (Value.str (codes "Unsupported operation")) Value.null

abbrev pub plugin_register : List ℕ
plugin_register = codes "plugin_register"

abbrev pub plugin_unregister : List ℕ
plugin_unregister = codes "plugin_unregister"

module _ {S P : Type 0} (json : Json) (sock : Socket S) (close : S → S) (plugin : Plugin P) where
  -- `getattr(self.plugin, method)(…)`
  unfoldable pub call_with : List ℕ → Value → P → Outcome Value × P
  call_with method Value.null p = plugin.call method none p
  call_with method (Value.dict kwargs) p = plugin.call method (some kwargs) p
  call_with method _ p = (err other_error, p)

  -- the method's result, where the plugin has it; a name that is no text is a TypeError of hasattr
  unfoldable pub dispatch : Value → Value → P → Outcome Value × P
  dispatch (Value.str method) params p =
      if plugin.hasattr method p then call_with method params p else (err no_support_error, p)
  dispatch _ params p = (err other_error, p)

  -- what follows `send_resp`: true for the `break`
  unfoldable pub after_resp : Value → State S P → Bool × State S P
  after_resp (Value.str method) st =
      if equal method plugin_unregister
      then (true, record st { need_shutdown = false; transport = close st.transport })
      else if equal method plugin_register
      then (false, record st { need_shutdown = true })
      else (false, st)
  after_resp _ st = (false, st)

  abbrev noted : Value → Outcome (Unit {0}) × S → State S P → Outcome Bool × State S P
  noted method (err x, s) st = (err x, record st { transport = s })
  noted method (ok u, s) st =
      let (leave, st') = after_resp method (record st { transport = s }) in (ok leave, st')

  abbrev pub respond : Value → Outcome Value × P → State S P → Outcome Bool × State S P
  respond method (err x, p) st = (err x, record st { plugin = p })
  respond method (ok result, p) st =
      noted method (send_resp json sock result (Value.num (pos 100)) st.transport)
        (record st { plugin = p })

  abbrev with_params : Value → Outcome Value → State S P → Outcome Bool × State S P
  with_params method (err x) st = (err x, st)
  with_params method (ok params) st = respond method (dispatch method params st.plugin) st

  abbrev with_id : Value → Value → Outcome Value → State S P → Outcome Bool × State S P
  with_id msg method (err x) st = (err x, st)
  with_id msg method (ok i) st =
      with_params method (subscript "params" msg) (record st { msg_id = i })

  abbrev with_method : Value → Outcome Value → State S P → Outcome Bool × State S P
  with_method msg (err x) st = (err x, st)
  with_method msg (ok method) st = with_id msg method (subscript "id" msg) st

  abbrev with_message : Outcome Value × S → State S P → Outcome Bool × State S P
  with_message (err x, s) st = (err x, record st { transport = s })
  with_message (ok msg, s) st =
      with_method msg (subscript "method" msg) (record st { transport = s })

  -- the body of the inner `try`: true for the `break`
  unfoldable pub serve : State S P → Outcome Bool × State S P
  serve st = with_message (read_req json sock st.transport) st

  abbrev pub reported : Outcome (Unit {0}) × S → State S P → Round × State S P
  reported (ok u, s) st = (again, record st { transport = s })
  reported (err x, s) st = (escaped x, record st { transport = s })

  abbrev pub report : (code msg extra : Value) → State S P → Round × State S P
  report code msg extra st =
      reported (send_error json sock st.msg_id code msg extra st.transport) st

  -- the handlers of the inner `try`
  unfoldable pub handle : Outcome Bool × State S P → Round × State S P
  handle (ok false, st) = (again, st)
  handle (ok true, st) = (finished, st)
  handle (err value_error, st) =
      report (Value.num (negsuc 32699)) (Value.str (plugin.text_of value_error)) Value.null st
  handle (err attribute_error, st) =
      report (Value.num (negsuc 32600)) (Value.str (plugin.text_of attribute_error)) Value.null st
  handle (err (lsm_error code msg extra), st) = report code msg extra st
  handle (err x, st) = (escaped x, st)

  unfoldable pub step : State S P → Round × State S P
  step st = handle (serve st)

  abbrev sent_or_not : Outcome (Unit {0}) × S → State S P → State S P
  sent_or_not (o, s) st = record st { transport = s }

  -- the handlers of the outer `try`
  unfoldable pub escape : Raised → State S P → State S P
  escape eof st = st
  escape (socket_error e text) st = st
  escape x st =
      sent_or_not
        (send_error json sock st.msg_id (Value.num (pos 2))
          (Value.str (codes "Unhandled exception in plug-in")) (Value.str (plugin.traceback x))
          st.transport)
        st

  abbrev pub exit_after : Outcome Value × P → State S P → Exit × State S P
  exit_after (ok v, p) st = (exited, record st { plugin = p })
  exit_after (err x, p) st = (raised x, record st { plugin = p })

  -- the `finally`
  unfoldable pub clean_up : State S P → Exit × State S P
  clean_up st =
      if st.need_shutdown
      then exit_after (plugin.call plugin_unregister none st.plugin) st
      else (returned, st)

  abbrev pub continue : (State S P → Exit × State S P) → Round × State S P → Exit × State S P
  continue next (again, st) = next st
  continue next (finished, st) = clean_up st
  continue next (escaped x, st) = clean_up (escape x st)

  -- `run`, on fuel of the rounds of its loop
  unfoldable pub run : ℕ → State S P → Exit × State S P
  run zero st = (running, st)
  run (suc f) st = continue (run f) (step st)

  -- `run` as it is called: nothing to shut down yet, and the id 0
  abbrev pub initial : S → P → State S P
  initial s p = record {
    transport = s;
    plugin = p;
    need_shutdown = false;
    msg_id = Value.num (pos 0);
  }
