-- ===== src/Ipc/Transport/Reading.antt =====
-- What `_read_all` of python_binding/lsm/_transport.py gives on a stream socket, however its bytes
-- arrive in pieces.
use mathlib.Core.List.{append_assoc, append-nil}
use libstoragemgmt.Base.{
  ℕ, zero, suc, ◌+◌, ◌-◌, ◌≤◌, ◌<◌, ◌≡◌, refl, sym, ap, ◌∙◌, inl, inr, List, [], ◌∷◌, ◌++◌, arith,
  length, length-append,
}
use libstoragemgmt.Sql.Rows.{List-cases}
use libstoragemgmt.Ipc.Raised.{eof, ok, err}
use libstoragemgmt.Ipc.Transport.{bytes, Socket, read_loop}
use libstoragemgmt.Ipc.Transport.Termination.{round, done, at_end}

-- A stream socket whose peer sends `pending` and then ends the stream, as recv(2) documents it: a read
-- of n bytes gives between 1 and n of the next bytes, and none only at the end.
pub record IsStream {S : Type 0} (sock : Socket S) (pending : S → List ℕ) : Type 0 where
  pub gives :
      (n : ℕ) (s : S)
      → 0 < n
      → 0 < length (pending s)
      → (b : ℕ) × (bs : List ℕ) × (s' : S) × (sock.recv n s ≡ (bytes (b ∷ bs), s'))
        × (length (b ∷ bs) ≤ n)
        × (pending s ≡ (b ∷ bs) ++ pending s')
  pub ends : (n : ℕ) (s : S) → pending s ≡ [] → sock.recv n s ≡ (bytes [], s)

-- Of two ways to cut one list, the shorter first part is a prefix of the longer.
pub prefix_split :
    (x p t rest : List ℕ)
    → x ++ p ≡ t ++ rest
    → length x ≤ length t
    → (u : List ℕ) × (t ≡ x ++ u) × (p ≡ u ++ rest)
prefix_split [] p t rest e h = (t, refl, e)
prefix_split (c ∷ x) p [] rest e h = elim h [ ]
prefix_split (c ∷ x) p (d ∷ t) rest e h =
    let (u, a, b) = prefix_split x p t rest (cc) (omega arith) in (u, cc, b)

module _ {S : Type 0} (sock : Socket S) (pending : S → List ℕ)
    (stream : IsStream sock pending) where
  joined :
      (f l : ℕ) (d : List ℕ) (s s' s'' : S) (b : ℕ) (bs u t : List ℕ)
      → length d < l
      → sock.recv (l - length d) s ≡ (bytes (b ∷ bs), s')
      → read_loop sock f l (d ++ b ∷ bs) s' ≡ (ok ((d ++ b ∷ bs) ++ u), s'')
      → t ≡ (b ∷ bs) ++ u
      → read_loop sock (suc f) l d s ≡ (ok (d ++ t), s'')
  joined f l d s s' s'' b bs u t h r all split =
      rw (round sock f l d s s' b bs h r, all, split, append_assoc d (b ∷ bs) u) refl

  -- The bytes that are wanted come, whole and no more.
  pub read_loop-all :
      (f l : ℕ) (d : List ℕ) (s : S) (t rest : List ℕ)
      → pending s ≡ t ++ rest
      → length d + length t ≡ l
      → length t ≤ f
      → (s' : S) × (read_loop sock f l d s ≡ (ok (d ++ t), s')) × (pending s' ≡ rest)
  read_loop-all f l d s [] rest e n h =
      (s, done sock f l d s (omega arith) ∙ ap (λ x. (ok x, s)) (sym (append-nil d)), e)
  read_loop-all zero l d s (c ∷ t) rest e n h = elim h [ ]
  read_loop-all (suc f) l d s (c ∷ t) rest e n h =
      let (b, bs, s', r, short, p) =
        stream.gives (l - length d) s (omega arith) (rw e (omega arith)) in
      let (u, split, tail) =
        prefix_split (b ∷ bs) (pending s') (c ∷ t) rest (sym p ∙ e) (omega arith) in
      let len : length (c ∷ t) ≡ length (b ∷ bs) + length u =
        ap length split ∙ length-append (b ∷ bs) u in
      let longer : length (d ++ b ∷ bs) ≡ length d + length (b ∷ bs) = length-append d (b ∷ bs) in
      let (s'', all, left) =
        read_loop-all f l (d ++ b ∷ bs) s' u rest tail (omega arith) (omega arith) in
      (s'', joined f l d s s' s'' b bs u (c ∷ t) (omega arith) r all split, left)

  -- Where the stream ends first, the end is what is raised.
  pub read_loop-eof :
      (f l : ℕ) (d : List ℕ) (s : S)
      → length d + length (pending s) < l
      → l ≤ f + length d
      → (s' : S) × (read_loop sock f l d s ≡ (err eof, s'))
  read_loop-eof zero l d s h g = absurd (omega arith)
  read_loop-eof (suc f) l d s h g = elim (List-cases (pending s)) [
    | inl none_left ↦
        (s, at_end sock f l d s s (omega arith) (stream.ends (l - length d) s none_left))
    | inr (c, p, some_left) ↦
        let (b, bs, s', r, short, e) =
          stream.gives (l - length d) s (omega arith) (rw some_left (omega arith)) in
        let len : length (pending s) ≡ length (b ∷ bs) + length (pending s') =
          ap length e ∙ length-append (b ∷ bs) (pending s') in
        let longer : length (d ++ b ∷ bs) ≡ length d + length (b ∷ bs) = length-append d (b ∷ bs) in
        let (s'', raised) = read_loop-eof f l (d ++ b ∷ bs) s' (omega arith) (omega arith) in
        (s'', round sock f l d s s' b bs (omega arith) r ∙ raised)
  ]
