-- ===== src/Sql/Keys.antt =====
-- Unique columns: what INSERT, DELETE and UPDATE keep of them, and what a lookup by them finds.
use libstoragemgmt.Base.{
  ℕ, suc, ◌<◌, ◌≡◌, refl, Bool, true, false, ◌||◌, none, some, List, [], ◌∷◌, ◌++◌, arith, ◌==◌,
  if◌then◌else◌,
}
use libstoragemgmt.Sql.{delete, update, any, find, largest, fresh}

module _ {ℓ} {A : Type ℓ} where
  pub any-append : (p : A → Bool) (s t : List A) → any p (s ++ t) ≡ any p s || any p t
  unfolding any
  any-append p [] t = refl
  any-append p (x ∷ s) t = ground (arith, any-append p s t)

  -- Whatever a DELETE leaves, the table had.
  pub any-delete : (p q : A → Bool) (t : List A) → any p (delete q t) ≡ true → any p t ≡ true
  unfolding any delete
  any-delete p q [] h = h
  any-delete p q (x ∷ t) h = ground (arith, any-delete p q t)

  -- After a DELETE no row passes its test.
  pub any-delete_self : (p : A → Bool) (t : List A) → any p (delete p t) ≡ false
  unfolding any delete
  any-delete_self p [] = refl
  any-delete_self p (x ∷ t) = ground (arith, any-delete_self p t)

  -- A DELETE of rows that a test refuses does not change the lookup by that test.
  pub find-delete_ne :
      (p q : A → Bool) (t : List A)
      → ((x : A) → p x ≡ true → q x ≡ false)
      → find p (delete q t) ≡ find p t
  unfolding find delete
  find-delete_ne p q [] h = refl
  find-delete_ne p q (x ∷ t) h = ground (arith, h x, find-delete_ne p q t h)

  pub find-eq-none : (p : A → Bool) (t : List A) → any p t ≡ false → find p t ≡ none
  unfolding any find
  find-eq-none p [] h = refl
  find-eq-none p (x ∷ t) h = ground (arith, find-eq-none p t)

  pub any-of-find : (p : A → Bool) (t : List A) {r : A} → find p t ≡ some r → any p t ≡ true
  unfolding any find
  any-of-find p [] h = ground arith
  any-of-find p (x ∷ t) {r} h = ground (arith, any-of-find p t {r = r})

  pub find-passes : (p : A → Bool) (t : List A) {r : A} → find p t ≡ some r → p r ≡ true
  unfolding find
  find-passes p [] h = ground arith
  find-passes p (x ∷ t) {r} h = ground (arith, find-passes p t {r = r})

  -- A lookup passes over the rows before an appended one that its test refuses.
  pub find-append : (p : A → Bool) (s t : List A) → any p s ≡ false → find p (s ++ t) ≡ find p t
  unfolding any find
  find-append p [] t h = refl
  find-append p (x ∷ s) t h = ground (arith, find-append p s t)

  pub find-append_left :
      (p : A → Bool) (s t : List A) {r : A} → find p s ≡ some r → find p (s ++ t) ≡ some r
  unfolding find
  find-append_left p [] t h = ground arith
  find-append_left p (x ∷ s) t {r} h = ground (arith, find-append_left p s t {r = r})

  -- An UPDATE that leaves the column alone.
  pub any-update :
      (p q : A → Bool) (f : A → A) (t : List A)
      → ((x : A) → p (f x) ≡ p x)
      → any p (update q f t) ≡ any p t
  unfolding any update
  any-update p q f [] h = refl
  any-update p q f (x ∷ t) h = ground (arith, h x, any-update p q f t h)

module _ {ℓ} {A : Type ℓ} (key : A → ℕ) where
  -- No two rows have the same key.
  abbrev pub IsKeyed : List A → Type 0
  IsKeyed [] = Unit
  IsKeyed (x ∷ t) = (any (λ y. key y == key x) t ≡ false) × IsKeyed t

  key-lt-fresh : (t : List A) (n : ℕ) → largest key t < n → any (λ y. key y == n) t ≡ false
  unfolding any largest
  key-lt-fresh [] n h = refl
  key-lt-fresh (x ∷ t) n h = ground (arith, key-lt-fresh t n)

  -- No row has the row id that the next INSERT takes.
  pub any-fresh : (t : List A) → any (λ y. key y == fresh key t) t ≡ false
  unfolding fresh
  any-fresh t = key-lt-fresh t (suc (largest key t)) (ground arith)

  pub IsKeyed-append :
      (t : List A) (r : A) → IsKeyed t → any (λ y. key y == key r) t ≡ false → IsKeyed (t ++ r ∷ [])
  unfolding any
  IsKeyed-append [] r h f = (refl, tt)
  IsKeyed-append (x ∷ t) r h f =
      ground (arith, any-append (λ y. key y == key x) t (r ∷ []), IsKeyed-append t r h.1)

  pub IsKeyed-delete : (q : A → Bool) (t : List A) → IsKeyed t → IsKeyed (delete q t)
  unfolding delete
  IsKeyed-delete q [] h = tt
  IsKeyed-delete q (x ∷ t) h =
      ground (arith, any-delete (λ y. key y == key x) q t, IsKeyed-delete q t h.1)

  pub IsKeyed-update :
      (q : A → Bool) (f : A → A) (t : List A)
      → ((x : A) → key (f x) ≡ key x)
      → IsKeyed t
      → IsKeyed (update q f t)
  unfolding update
  IsKeyed-update q f [] same h = tt
  IsKeyed-update q f (x ∷ t) same h =
      let e : key (if q x then f x else x) ≡ key x = ground (arith, same x) in
      rw e (
        ground (
          arith,
          any-update (λ y. key y == key x) q f t (λ y. ground (arith, same y)),
          IsKeyed-update q f t same h.1,
        ))
