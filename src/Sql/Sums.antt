-- ===== src/Sql/Sums.antt =====
-- Sums over the rows that pass a test, under INSERT, DELETE and UPDATE.
use libstoragemgmt.Base.{
  ℤ, pos, ◌+ℤ◌, ◌-ℤ◌, ◌≤ℤ◌, ◌≡◌, refl, if◌then◌else◌, Bool, ◌&&◌, List, [], ◌∷◌, ◌++◌, arith,
  int_laws,
}
use libstoragemgmt.Sql.{select, delete, update, sum_where}
use libstoragemgmt.Sql.Rows.{All}

module _ {ℓ} {A : Type ℓ} where
  pub sum_where-append :
      (p : A → Bool) (f : A → ℤ) (t : List A) (r : A)
      → sum_where p f (t ++ r ∷ []) ≡ sum_where p f t +ℤ sum_where p f (r ∷ [])
  unfolding sum_where
  sum_where-append p f [] r = omega int_laws
  sum_where-append p f (x ∷ t) r = grind (int_laws, sum_where-append p f t r)

  -- Rows of no value add nothing to a DELETE's loss: the sum splits at the deleted rows.
  pub sum_where-delete :
      (p q : A → Bool) (f : A → ℤ) (t : List A)
      → sum_where p f (delete q t) +ℤ sum_where (λ x. p x && q x) f t ≡ sum_where p f t
  unfolding sum_where delete
  sum_where-delete p q f [] = omega int_laws
  sum_where-delete p q f (x ∷ t) = grind (int_laws, sum_where-delete p q f t)

  pub sum_where_nonneg :
      (p : A → Bool) (f : A → ℤ) (t : List A) → All (λ x. pos 0 ≤ℤ f x) t → pos 0 ≤ℤ sum_where p f t
  unfolding sum_where
  sum_where_nonneg p f [] h = omega arith
  sum_where_nonneg p f (x ∷ t) h = grind (int_laws, sum_where_nonneg p f t h.1)

  sum_where-update_none :
      (p q : A → Bool) (f : A → ℤ) (g : A → A) (t : List A)
      → select q t ≡ []
      → sum_where p f (update q g t) ≡ sum_where p f t
  unfolding sum_where select update
  sum_where-update_none p q f g [] h = refl
  sum_where-update_none p q f g (x ∷ t) h = ground (arith, sum_where-update_none p q f g t)

  -- An UPDATE of the one row that is found moves the sum by what it does to that row.
  pub sum_where-update :
      (p q : A → Bool) (f : A → ℤ) (g : A → A) (t : List A) (r : A)
      → ((x : A) → p (g x) ≡ p x)
      → select q t ≡ r ∷ []
      → sum_where p f (update q g t) ≡ sum_where p f t +ℤ (if p r then f (g r) -ℤ f r else pos 0)
  unfolding sum_where select update
  sum_where-update p q f g [] r same h = ground arith
  sum_where-update p q f g (x ∷ t) r same h =
      grind (int_laws, same x, sum_where-update p q f g t r same, sum_where-update_none p q f g t)

  sum_where-and_none :
      (p q : A → Bool) (f : A → ℤ) (t : List A)
      → select q t ≡ []
      → sum_where (λ x. p x && q x) f t ≡ pos 0
  unfolding sum_where select
  sum_where-and_none p q f [] h = refl
  sum_where-and_none p q f (x ∷ t) h = ground (arith, sum_where-and_none p q f t)

  -- A sum over the one row that is found.
  pub sum_where-and_found :
      (p q : A → Bool) (f : A → ℤ) (t : List A) (r : A)
      → select q t ≡ r ∷ []
      → sum_where (λ x. p x && q x) f t ≡ (if p r then f r else pos 0)
  unfolding sum_where select
  sum_where-and_found p q f [] r h = ground arith
  sum_where-and_found p q f (x ∷ t) r h =
      grind (int_laws, sum_where-and_found p q f t r, sum_where-and_none p q f t)

  -- An UPDATE that changes neither the test nor the value leaves the sum.
  pub sum_where-update_same :
      (p q : A → Bool) (f : A → ℤ) (g : A → A) (t : List A)
      → ((x : A) → p (g x) ≡ p x)
      → ((x : A) → f (g x) ≡ f x)
      → sum_where p f (update q g t) ≡ sum_where p f t
  unfolding sum_where update
  sum_where-update_same p q f g [] same value = refl
  sum_where-update_same p q f g (x ∷ t) same value =
      ground (arith, same x, value x, sum_where-update_same p q f g t same value)
