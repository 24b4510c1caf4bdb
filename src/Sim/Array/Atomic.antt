-- ===== src/Sim/Array/Atomic.antt =====
-- What `_handle_errors` and the transactions of plugin/sim_plugin/simarray.py give every method.
use libstoragemgmt.Base.{◌≡◌, refl, Bool, true, false, arith}
use libstoragemgmt.Common.{
  ErrorNumber, Exception, lsm_error, integrity_error, operational_error, other_exception, Result,
  ok, err,
}
use libstoragemgmt.Sim.Tables.{Db}
use libstoragemgmt.Sim.Exec.{Exec}
use libstoragemgmt.Sim.Array.Session.{
  Session, Action, handle_errors, transaction, handled, trans_rollback,
}

-- How a call that ran `body` from the state file of `s` has ended.
abbrev pub Ends : {A : Type 0} → Exec A → Session → Result A × Session → Type 0
Ends body s (ok a, s') =
    (body s.saved ≡ (ok a, s'.saved)) × (s'.current ≡ s'.saved) × (s'.in_transaction ≡ false)
Ends body s (err x, s') =
    (s'.saved ≡ s.saved) × (s'.current ≡ s.saved) × (s'.in_transaction ≡ false)

module _ {A : Type 0} (body : Exec A) (saved current : Db) (reading : Bool) where
  started : Bool → Session
  started t = record {
    saved = saved;
    current = current;
    in_transaction = t;
    locked = false;
    reading = reading;
  }

  refused-Ends :
      (t : Bool)
      → let s : Session = record {
        saved = saved;
        current = current;
        in_transaction = t;
        locked = true;
        reading = reading;
      } in
        Ends body s (handle_errors (transaction body) s)
  unfolding handle_errors transaction
  refused-Ends t = (refl, refl, refl)

  nested-Ends : Ends body (started true) (handle_errors (transaction body) (started true))
  unfolding handle_errors transaction started
  nested-Ends = (refl, refl, refl)

  began-Ends : Ends body (started false) (handle_errors (transaction body) (started false))
  unfolding handle_errors transaction started
  began-Ends = ground arith

  session-Ends :
      (t l : Bool)
      → let s : Session = record {
        saved = saved;
        current = current;
        in_transaction = t;
        locked = l;
        reading = reading;
      } in
        Ends body s (handle_errors (transaction body) s)
  unfolding started
  session-Ends t true = refused-Ends t
  session-Ends true false = nested-Ends
  session-Ends false false = began-Ends

-- A method that runs in a transaction is atomic, whatever its body does and wherever it raises: if it
-- returns, the state file holds what the body made of it, and if it raises, the file and what the
-- connection sees are as they were; either way no transaction is left open.
pub transaction-Ends :
    {A : Type 0} (body : Exec A) (s : Session) → Ends body s (handle_errors (transaction body) s)
transaction-Ends body s = session-Ends body s.saved s.current s.reading s.in_transaction s.locked

-- how a decorated method has ended that raised `x`
abbrev pub EndsRolledBack : Exception → Session → Type 0
EndsRolledBack x s =
    ((e : ErrorNumber) × (x ≡ lsm_error e)) × (s.current ≡ s.saved) × (s.in_transaction ≡ false)

handled_cases : (y : Exception) → (e : ErrorNumber) × (handled y ≡ lsm_error e)
unfolding handled
handled_cases (lsm_error e) = (e, refl)
handled_cases (operational_error true) = (ErrorNumber.timeout, refl)
handled_cases (operational_error false) = (ErrorNumber.plugin_bug, refl)
handled_cases integrity_error = (ErrorNumber.plugin_bug, refl)
handled_cases other_exception = (ErrorNumber.plugin_bug, refl)

given-EndsRolledBack :
    {A : Type 0} (r : Result A) (s' s : Session) (x : Exception)
    → (handle_errors (λ _. (r, s')) s).0 ≡ err x
    → EndsRolledBack x (handle_errors (λ _. (r, s')) s).1
unfolding handle_errors trans_rollback
given-EndsRolledBack (ok a) s' s x h = absurd (grind (arith, h))
given-EndsRolledBack (err y) s' s x h =
    let (e, k) = handled_cases y in ((e, grind (arith, h, k)), refl, refl)

-- Whatever a decorated method raises inside, what its caller sees raised is an `LsmError`, and no
-- transaction is left open: the connection sees what the state file holds.
pub handle_errors-IsLsmError :
    {A : Type 0} (m : Action A) (s : Session) (x : Exception)
    → (handle_errors m s).0 ≡ err x
    → EndsRolledBack x (handle_errors m s).1
unfolding handle_errors
handle_errors-IsLsmError m s x h = given-EndsRolledBack (m s).0 (m s).1 s x h
