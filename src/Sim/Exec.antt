-- ===== src/Sim/Exec.antt =====
-- A method: it reads and writes a state and returns or raises. What it wrote before a raise stays
-- until a caller rolls the transaction back. `Exec` is for the methods of `BackStore`, on the tables.
pub mod Keeps
use libstoragemgmt.Base.{Bool, if◌then◌else◌}
use libstoragemgmt.Common.{Exception, lsm_error, ErrorNumber, Result, ok, err}
use libstoragemgmt.Sim.Tables.{Db}

abbrev pub Method : Type 0 → Type 0 → Type 0
Method S A = S → Result A × S

abbrev pub Exec : Type 0 → Type 0
Exec A = Method Db A

-- what `except sqlite3.IntegrityError: raise LsmError(code)` makes of an outcome
abbrev pub on_integrity_error : {A : Type 0} → ErrorNumber → Result A → Result A
on_integrity_error code (err Exception.integrity_error) = err (lsm_error code)
on_integrity_error code r = r

module _ {S A : Type 0} where
  abbrev pub pure : A → Method S A
  pure a s = (ok a, s)

  abbrev pub raise : ErrorNumber → Method S A
  raise e s = (err (lsm_error e), s)

  abbrev pub gets : (S → A) → Method S A
  gets f s = (ok (f s), s)

  abbrev pub lift : Result A → Method S A
  lift r s = (r, s)

  -- `try: m; except sqlite3.IntegrityError: raise LsmError(code)`
  abbrev pub try_integrity : Method S A → ErrorNumber → Method S A
  try_integrity m code s = let (r, s') = m s in (on_integrity_error code r, s')

-- what follows a step with this outcome
abbrev pub bind : {S A B : Type 0} → Result A → S → (A → Method S B) → Result B × S
bind (ok a) s f = f a s
bind (err e) s f = (err e, s)

infixl 5 ◌>>=◌ ◌>>◌
abbrev pub ◌>>=◌ : {S A B : Type 0} → Method S A → (A → Method S B) → Method S B
◌>>=◌ m f s = bind (m s).0 (m s).1 f

abbrev pub ◌>>◌ : {S A B : Type 0} → Method S A → Method S B → Method S B
m >> k = m >>= λ _. k

module _ {S : Type 0} where
  abbrev pub raise_if : Bool → ErrorNumber → Method S (Unit {0})
  raise_if b e s = (if b then err (lsm_error e) else ok tt, s)

  abbrev pub modify : (S → S) → Method S (Unit {0})
  modify f s = (ok tt, f s)
