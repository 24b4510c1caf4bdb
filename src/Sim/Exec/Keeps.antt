-- ===== src/Sim/Exec/Keeps.antt =====
-- Invariants of methods (plugin/sim_plugin/simarray.py): what every step of a method keeps, the method
-- keeps, whether it returns or raises.
use libstoragemgmt.Common.{Result, ok, err}
use libstoragemgmt.Sim.Exec.{Method, bind, ◌>>=◌}

module _ {S : Type 0} (P : S → Type 0) where
  abbrev pub Keeps : {A : Type 0} → Method S A → Type 0
  Keeps m = (s : S) → P s → P (m s).1

  -- what holds of a value that is returned
  abbrev pub Returns : {A : Type 0} → (A → Type 0) → Result A → Type 0
  Returns Q (ok a) = Q a
  Returns Q (err x) = Unit

  module _ {A B : Type 0} (f : A → Method S B) where
    next :
        (Q : A → Type 0)
        → ((a : A) → Q a → Keeps (f a))
        → (o : Result A × S) → P o.1
        → Returns Q o.0
        → P (bind o.0 o.1 f).1
    next Q h (ok a, s) p q = h a q s p
    next Q h (err x, s) p q = p

    -- A step whose value the rest depends on.
    pub Keeps-bind_value :
        (m : Method S A) (Q : A → Type 0)
        → Keeps m
        → ((s : S) → P s → Returns Q (m s).0)
        → ((a : A) → Q a → Keeps (f a))
        → Keeps (m >>= f)
    Keeps-bind_value m Q k r h s p = next Q h (m s) (k s p) (r s p)

    any_value : (o : Result A) → Returns (λ _. Unit) o
    any_value (ok a) = tt
    any_value (err x) = tt

    pub Keeps-bind : (m : Method S A) → Keeps m → ((a : A) → Keeps (f a)) → Keeps (m >>= f)
    Keeps-bind m k h s p = next (λ _. Unit) (λ a _. h a) (m s) (k s p) (any_value (m s).0)
