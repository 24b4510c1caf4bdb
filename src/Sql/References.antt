-- ===== src/Sql/References.antt =====
-- Foreign keys: every value of a column of one table is a key of another. What INSERT, UPDATE and
-- DELETE with ON DELETE CASCADE keep of it.
use libstoragemgmt.Base.{
  ℕ, ◌≡◌, Bool, true, false, ◌&&◌, List, [], ◌∷◌, ◌++◌, arith, ◌==◌, if◌then◌else◌,
}
use libstoragemgmt.Sql.{delete, update, any}
use libstoragemgmt.Sql.Keys.{any-append, any-update}

module _ {ℓ κ} {C : Type ℓ} {P : Type κ} (column : C → ℕ) (key : P → ℕ) where
  -- `FOREIGN KEY(column) REFERENCES parents(key)`
  abbrev pub RefersTo : List C → List P → Type 0
  RefersTo [] ps = Unit
  RefersTo (c ∷ cs) ps = (any (λ p. key p == column c) ps ≡ true) × RefersTo cs ps

  -- the rows that ON DELETE CASCADE deletes with the parents that pass `q`
  unfoldable pub loses_parent : (P → Bool) → List P → C → Bool
  loses_parent q ps c = any (λ p. q p && key p == column c) ps

  pub RefersTo-append_parent :
      (cs : List C) (ps : List P) (p : P) → RefersTo cs ps → RefersTo cs (ps ++ p ∷ [])
  RefersTo-append_parent [] ps p h = tt
  RefersTo-append_parent (c ∷ cs) ps p h = (
    ground (arith, any-append (λ p. key p == column c) ps (p ∷ []), h.0),
    RefersTo-append_parent cs ps p h.1,
  )

  pub RefersTo-append :
      (cs : List C) (ps : List P) (c : C)
      → RefersTo cs ps
      → any (λ p. key p == column c) ps ≡ true
      → RefersTo (cs ++ c ∷ []) ps
  RefersTo-append [] ps c h e = (e, tt)
  RefersTo-append (x ∷ cs) ps c h e = (h.0, RefersTo-append cs ps c h.1 e)

  pub RefersTo-delete :
      (q : C → Bool) (cs : List C) (ps : List P) → RefersTo cs ps → RefersTo (delete q cs) ps
  unfolding delete
  RefersTo-delete q [] ps h = tt
  RefersTo-delete q (c ∷ cs) ps h = ground (arith, RefersTo-delete q cs ps h.1)

  pub RefersTo-update :
      (q : C → Bool) (f : C → C) (cs : List C) (ps : List P)
      → ((c : C) → column (f c) ≡ column c)
      → RefersTo cs ps
      → RefersTo (update q f cs) ps
  unfolding update
  RefersTo-update q f [] ps same h = tt
  RefersTo-update q f (c ∷ cs) ps same h =
      let e : column (if q c then f c else c) ≡ column c = ground (arith, same c) in
      rw e (h.0, RefersTo-update q f cs ps same h.1)

  pub RefersTo-update_parent :
      (q : P → Bool) (f : P → P) (cs : List C) (ps : List P)
      → ((p : P) → key (f p) ≡ key p)
      → RefersTo cs ps
      → RefersTo cs (update q f ps)
  RefersTo-update_parent q f [] ps same h = tt
  RefersTo-update_parent q f (c ∷ cs) ps same h = (
    ground (arith, any-update (λ p. key p == column c) q f ps (λ p. rw (same p)), h.0),
    RefersTo-update_parent q f cs ps same h.1,
  )

  -- A parent that is not deleted stays, so a row that has one and is not cascaded keeps it.
  survives :
      (q : P → Bool) (ps : List P) (c : C)
      → any (λ p. key p == column c) ps ≡ true
      → loses_parent q ps c ≡ false
      → any (λ p. key p == column c) (delete q ps) ≡ true
  unfolding any delete loses_parent
  survives q [] c h k = h
  survives q (p ∷ ps) c h k = ground (arith, survives q ps c)

  kept :
      (q : P → Bool) (cs : List C) (ps ps' : List P)
      → ((c : C)
          → any (λ p. key p == column c) ps ≡ true
          → loses_parent q ps c ≡ false
          → any (λ p. key p == column c) ps' ≡ true)
      → RefersTo cs ps
      → RefersTo (delete (loses_parent q ps) cs) ps'
  unfolding delete
  kept q [] ps ps' keeps h = tt
  kept q (c ∷ cs) ps ps' keeps h = ground (arith, keeps c h.0, kept q cs ps ps' keeps h.1)

  -- DELETE on the parents with its cascade keeps the foreign key.
  pub RefersTo-cascade :
      (q : P → Bool) (cs : List C) (ps : List P)
      → RefersTo cs ps
      → RefersTo (delete (loses_parent q ps) cs) (delete q ps)
  RefersTo-cascade q cs ps h = kept q cs ps (delete q ps) (survives q ps) h
