-- ===== src/Sim/Sound/Transactions.antt =====
-- Transactions of `SimArray` (plugin/sim_plugin/simarray.py) keep the invariant of the state file.
use libstoragemgmt.Base.{inl, inr, Bool-cases}
use libstoragemgmt.Common.{Result-cases}
use libstoragemgmt.Sim.Exec.{Exec}
use libstoragemgmt.Sim.Exec.Keeps.{Keeps, Keeps-bind}
use libstoragemgmt.Sim.Sound.{IsSound}
use libstoragemgmt.Sim.Array.Session.{
  Session, Action, trans_begin, trans_commit, trans_rollback, on_db, handle_errors, transaction,
}

-- The state file is sound, and so is what the connection sees.
abbrev pub SessionIsSound : Session → Type 0
SessionIsSound s = IsSound s.saved × IsSound s.current

trans_begin-Keeps : Keeps SessionIsSound trans_begin
unfolding trans_begin
trans_begin-Keeps s sound = elim (Bool-cases s.locked) [
  | inl locked ↦ rw locked sound
  | inr free ↦ elim (Bool-cases s.in_transaction) [
    | inl begun ↦ rw (free, begun) sound
    | inr idle ↦ rw (free, idle) (sound.0, sound.0)
  ]
]

trans_commit-Keeps : Keeps SessionIsSound trans_commit
unfolding trans_commit
trans_commit-Keeps s sound = elim (Bool-cases s.reading) [
  | inl read ↦ rw read sound
  | inr free ↦ rw free (sound.1, sound.1)
]

pub handle_errors-Keeps :
    {A : Type 0} (m : Action A) → Keeps SessionIsSound m → Keeps SessionIsSound (handle_errors m)
unfolding handle_errors trans_rollback
handle_errors-Keeps m k s sound = elim (Result-cases (m s).0) [
  | inl (a, e) ↦ rw (handle_errors, e) (k s sound)
  | inr (x, e) ↦ rw (handle_errors, e) ((k s sound).0, (k s sound).0)
]

pub transaction-Keeps :
    {A : Type 0} (m : Exec A) → Keeps IsSound m → Keeps SessionIsSound (transaction m)
unfolding transaction on_db
transaction-Keeps m k = Keeps-bind SessionIsSound _ trans_begin trans_begin-Keeps (λ _.
    Keeps-bind SessionIsSound _ (on_db m) (λ s sound. (sound.0, k s.current sound.1))
      (λ a. Keeps-bind SessionIsSound _ trans_commit trans_commit-Keeps (λ _ s sound. sound)))
