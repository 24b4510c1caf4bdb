-- ===== src/Client/Expected.antt =====
-- `return_requires` and `type_compare` of python_binding/lsm/_common.py.
use libstoragemgmt.Base.{ℕ, suc, zero, List, [], ◌∷◌, Bool, true, false, ◌==◌, if◌then◌else◌}
use libstoragemgmt.Text.{equal}
use libstoragemgmt.Data.Value.{Class, Value, Items, nil, cons}
use libstoragemgmt.Data.Codec.{class_name}
use libstoragemgmt.Ipc.Raised.{Outcome, ok, err, other_error}

-- The types that the decorators name: None, int, bool, the text type, IData, one of its classes, and
-- Capabilities.
pub data Kind : Type 0 where
  nothing an_int a_bool a_text any_data caps_data : Kind
  instance_of : Class → Kind

-- a type, or a list of them
mutual
  pub data Expected : Type 0 where
    one : Kind → Expected
    seq : Expecteds → Expected

  pub data Expecteds : Type 0 where
    none_left : Expecteds
    next : Expected → Expecteds → Expecteds

-- `issubclass(type(v), k)`; None is of every kind.
unfoldable pub is_kind : Kind → Value → Bool
is_kind k Value.null = true
is_kind an_int (Value.num z) = true
is_kind an_int (Value.bool b) = true
is_kind a_bool (Value.bool b) = true
is_kind a_text (Value.str s) = true
is_kind any_data (Value.obj c fs) = true
is_kind any_data (Value.caps bs) = true
is_kind caps_data (Value.caps bs) = true
is_kind (instance_of c) (Value.obj d fs) = equal (class_name c) (class_name d)
is_kind k v = false

abbrev and_then : Outcome (Unit {0}) → Outcome (Unit {0}) → Outcome (Unit {0})
and_then (ok u) rest = rest
and_then (err x) rest = err x

-- a test of every element
unfoldable pub every : (Value → Outcome (Unit {0})) → Items → Outcome (Unit {0})
every f nil = ok tt
every f (cons v is) = and_then (f v) (every f is)

-- a text as the sequence of its characters
characters : List ℕ → Items
characters [] = nil
characters (c ∷ s) = cons (Value.str (c ∷ [])) (characters s)

-- a value that is no Sequence is a TypeError
abbrev on_items : (Items → Outcome (Unit {0})) → Value → Outcome (Unit {0})
on_items f (Value.list is) = f is
on_items f (Value.str s) = f (characters s)
on_items f v = err other_error

-- `type_compare`, and the `zip` of its types with the values
unfoldable mutual
  unfolding every characters

  pub type_compare : Expected → Value → Outcome (Unit {0})
  type_compare (one k) v = if is_kind k v then ok tt else err other_error
  type_compare (seq none_left) v = on_items (λ is. ok tt) v
  type_compare (seq (next e none_left)) v = on_items (every (type_compare e)) v
  type_compare (seq (next e (next e' es))) v = on_items (zip (next e (next e' es))) v

  pub zip : Expecteds → Items → Outcome (Unit {0})
  zip none_left is = ok tt
  zip (next e es) nil = ok tt
  zip (next e es) (cons v is) = and_then (type_compare e v) (zip es is)

unfoldable pub count : Expecteds → ℕ
count none_left = zero
count (next e es) = suc (count es)

count_items : Items → ℕ
count_items nil = zero
count_items (cons v is) = suc (count_items is)

abbrev if_passed : Value → Outcome (Unit {0}) → Outcome Value
if_passed v (ok u) = ok v
if_passed v (err x) = err x

-- what `len(r)` and `type_compare` make of several types
abbrev compared_all : Expecteds → Value → Outcome (Unit {0})
compared_all es v =
    on_items (λ is. if count_items is == count es then zip es is else err other_error) v

-- `return_requires(*types)` of a result
unfoldable pub return_requires : Expecteds → Value → Outcome Value
unfolding count_items characters
return_requires none_left v = ok v
return_requires (next e none_left) v = if_passed v (type_compare e v)
return_requires (next e (next e' es)) v = if_passed v (compared_all (next e (next e' es)) v)
