-- ===== src/Sql.antt =====
-- What plugin/sim_plugin/simarray.py uses of SQLite: `_data_find`, `_data_delete`, `_data_update`
-- and `_data_add` send SELECT, DELETE, UPDATE and INSERT statements. A table is the list of its
-- rows in the order of their row ids, and a WHERE clause is a test on a row.
pub mod Rows
pub mod Keys
pub mod References
pub mod Sums
use libstoragemgmt.Base.{
  ℕ, suc, ◌+◌, ℤ, pos, ◌+ℤ◌, Bool, true, false, ◌||◌, Option, none, some, List, [], ◌∷◌, leb, ◌==◌,
  if◌then◌else◌,
}

-- `id="%s"` against an INTEGER column: a negative number is the id of no row.
abbrev pub is_id : ℤ → ℕ → Bool
is_id (pos n) m = n == m
is_id _ m = false

module _ {ℓ} {A : Type ℓ} where
  -- `not rows`
  abbrev pub is_empty : List A → Bool
  is_empty [] = true
  is_empty (x ∷ t) = false

  -- SELECT * FROM t WHERE p
  unfoldable pub select : (A → Bool) → List A → List A
  select p [] = []
  select p (x ∷ t) = let rest = select p t in if p x then x ∷ rest else rest

  -- DELETE FROM t WHERE p
  unfoldable pub delete : (A → Bool) → List A → List A
  delete p [] = []
  delete p (x ∷ t) = let rest = delete p t in if p x then rest else x ∷ rest

  -- UPDATE t SET … WHERE p
  unfoldable pub update : (A → Bool) → (A → A) → List A → List A
  update p f [] = []
  update p f (x ∷ t) = (if p x then f x else x) ∷ update p f t

  -- a row of the table passes the test
  unfoldable pub any : (A → Bool) → List A → Bool
  any p [] = false
  any p (x ∷ t) = p x || any p t

  -- the first row that passes the test
  unfoldable pub find : (A → Bool) → List A → Option A
  find p [] = none
  find p (x ∷ t) = if p x then some x else find p t

  -- SELECT SUM(f) FROM t WHERE p, 0 where no row passes
  unfoldable pub sum_where : (A → Bool) → (A → ℤ) → List A → ℤ
  sum_where p f [] = pos 0
  sum_where p f (x ∷ t) = if p x then f x +ℤ sum_where p f t else sum_where p f t

  -- SELECT COUNT(id) FROM t WHERE p
  unfoldable pub count_where : (A → Bool) → List A → ℕ
  count_where p [] = 0
  count_where p (x ∷ t) = (if p x then 1 else 0) + count_where p t

  largest : (A → ℕ) → List A → ℕ
  largest key [] = 0
  largest key (x ∷ t) = let m = largest key t in if leb m (key x) then key x else m

  -- The row id of an INTEGER PRIMARY KEY that an INSERT leaves out: one more than the largest.
  unfoldable pub fresh : (A → ℕ) → List A → ℕ
  unfolding largest
  fresh key t = suc (largest key t)
