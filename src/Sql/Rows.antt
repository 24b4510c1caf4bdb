-- ===== src/Sql/Rows.antt =====
-- A SELECT that finds one row, and statements about every row of a table.
use libstoragemgmt.Base.{
  ℕ, ℤ, pos, ◌≡◌, refl, ◌⊎◌, Bool, true, false, List, [], ◌∷◌, ◌++◌, arith, Bool-cases, inl, inr,
}
use libstoragemgmt.Sql.{is_id, select, delete, update, any}

pub is_id-eq : (z : ℤ) (n : ℕ) → is_id z n ≡ true → z ≡ pos n
is_id-eq z n h = ground arith

module _ {ℓ} {A : Type ℓ} where
  pub List-cases : (t : List A) → (t ≡ []) ⊎ ((x : A) × (xs : List A) × (t ≡ x ∷ xs))
  List-cases [] = inl refl
  List-cases (x ∷ xs) = inr (x, xs, refl)

  -- every row
  abbrev pub All {κ} : (A → Type κ) → List A → Type κ
  All P [] = Unit
  All P (x ∷ t) = P x × All P t

  pub select-nil : (q : A → Bool) (t : List A) → any q t ≡ false → select q t ≡ []
  unfolding select any
  select-nil q [] h = refl
  select-nil q (x ∷ t) h = ground (arith, select-nil q t)

  -- What is deleted is not found again.
  pub select-delete : (q : A → Bool) (t : List A) → select q (delete q t) ≡ []
  unfolding select delete
  select-delete q [] = refl
  select-delete q (x ∷ t) = ground (arith, select-delete q t)

  pub any-eq_false : (q : A → Bool) (t : List A) → select q t ≡ [] → any q t ≡ false
  unfolding select any
  any-eq_false q [] h = refl
  any-eq_false q (x ∷ t) h = ground (arith, any-eq_false q t)

  pub select-passes :
      (q : A → Bool) (t : List A) (x : A) (xs : List A) → select q t ≡ x ∷ xs → q x ≡ true
  unfolding select
  select-passes q [] x xs h = ground arith
  select-passes q (y ∷ t) x xs h = ground (arith, select-passes q t x xs)

  -- What the found row passes, a row of the table passes.
  pub any-of-select :
      (p q : A → Bool) (t : List A) (x : A) (xs : List A)
      → select q t ≡ x ∷ xs
      → p x ≡ true
      → any p t ≡ true
  unfolding select any
  any-of-select p q [] x xs h e = ground arith
  any-of-select p q (y ∷ t) x xs h e = ground (arith, any-of-select p q t x xs)

module _ {ℓ} {A : Type ℓ} where
  -- An appended row is the one found, where there was none, and is what a DELETE takes away.
  pub select-append_found :
      (p : A → Bool) (t : List A) (x : A)
      → select p t ≡ []
      → p x ≡ true
      → select p (t ++ x ∷ []) ≡ x ∷ []
  unfolding select
  select-append_found p [] x h e = ground arith
  select-append_found p (y ∷ t) x h e = ground (arith, select-append_found p t x)

  pub delete-append_found :
      (p : A → Bool) (t : List A) (x : A)
      → select p t ≡ []
      → p x ≡ true
      → delete p (t ++ x ∷ []) ≡ t
  unfolding select delete
  delete-append_found p [] x h e = ground arith
  delete-append_found p (y ∷ t) x h e = ground (arith, delete-append_found p t x)

module _ {ℓ κ μ} {A : Type ℓ} (P : A → Type κ) (P' : A → Type μ) where
  pub All-map : (t : List A) → ((x : A) → P x → P' x) → All P t → All P' t
  All-map [] f a = tt
  All-map (x ∷ t) f a = (f x a.0, All-map t f a.1)

  pub All-of-none :
      (q : A → Bool) (t : List A)
      → select q t ≡ []
      → ((x : A) → q x ≡ false → P x → P' x)
      → All P t
      → All P' t
  unfolding select
  All-of-none q [] h keep a = tt
  All-of-none q (x ∷ t) h keep a =
      (keep x (ground arith) a.0, All-of-none q t (ground arith) keep a.1)

  -- A statement that changes at the one row found, and is kept at all others.
  pub All-of-select :
      (q : A → Bool) (t : List A) (r : A)
      → select q t ≡ r ∷ []
      → ((x : A) → q x ≡ false → P x → P' x)
      → (P r → P' r)
      → All P t
      → All P' t
  unfolding select
  All-of-select q [] r h keep here a = tt
  All-of-select q (x ∷ t) r h keep here a = elim (Bool-cases (q x)) [
    | inl e ↦
        let s : x ≡ r = ground arith in
        let n : select q t ≡ [] = ground arith in
        (rw s (here (rw s at a.0)), All-of-none q t n keep a.1)
    | inr e ↦ (keep x e a.0, All-of-select q t r (ground arith) keep here a.1)
  ]

module _ {ℓ κ} {A : Type ℓ} (P : A → Type κ) where
  pub All-delete : (q : A → Bool) (t : List A) → All P t → All P (delete q t)
  unfolding delete
  All-delete q [] a = tt
  All-delete q (x ∷ t) a = ground (arith, All-delete q t a.1)

  pub All-append : (t : List A) (r : A) → All P t → P r → All P (t ++ r ∷ [])
  All-append [] r a h = (h, tt)
  All-append (x ∷ t) r a h = (a.0, All-append t r a.1 h)

  pub All-update :
      (q : A → Bool) (g : A → A) (t : List A)
      → ((x : A) → P x → P (g x))
      → All P t
      → All P (update q g t)
  unfolding update
  All-update q g [] keep a = tt
  All-update q g (x ∷ t) keep a = elim (Bool-cases (q x)) [
    | inl e ↦ rw e (keep x a.0, All-update q g t keep a.1)
    | inr e ↦ rw e (a.0, All-update q g t keep a.1)
  ]

  -- What holds of every row holds of the first row found.
  pub All-found :
      (q : A → Bool) (t : List A) (r : A) (rs : List A) → select q t ≡ r ∷ rs → All P t → P r
  unfolding select
  All-found q [] r rs h a = absurd (cc)
  All-found q (x ∷ t) r rs h a = elim (Bool-cases (q x)) [
    | inl e ↦ let s : x ≡ r = ground arith in rw (← s) a.0
    | inr e ↦ All-found q t r rs (ground arith) a.1
  ]
