-- ===== src/Ipc/Transport/Termination.antt =====
-- The rounds of the loop of `_read_all` (python_binding/lsm/_transport.py), and that it ends by its own
-- test.
use libstoragemgmt.Base.{
  ℕ, zero, suc, ◌+◌, ◌-◌, ◌≤◌, ◌<◌, ◌≡◌, refl, String, List, [], ◌∷◌, ◌++◌, arith, length,
  length-append, ltb, Bool-cases, Bool, inl, inr,
}
use libstoragemgmt.Ipc.Raised.{socket_error, eof, Outcome, ok, err}
use libstoragemgmt.Ipc.Transport.{Received, bytes, failed, Socket, read_loop}

module _ {S : Type 0} (sock : Socket S) where
  -- a round that goes on
  pub round :
      (f l : ℕ) (d : List ℕ) (s s' : S) (b : ℕ) (bs : List ℕ)
      → length d < l
      → sock.recv (l - length d) s ≡ (bytes (b ∷ bs), s')
      → read_loop sock (suc f) l d s ≡ read_loop sock f l (d ++ b ∷ bs) s'
  unfolding read_loop
  round f l d s s' b bs h e = ground arith

  pub done : (f l : ℕ) (d : List ℕ) (s : S) → l ≤ length d → read_loop sock f l d s ≡ (ok d, s)
  unfolding read_loop
  done zero l d s h = refl
  done (suc f) l d s h = ground arith

  pub at_end :
      (f l : ℕ) (d : List ℕ) (s s' : S)
      → length d < l
      → sock.recv (l - length d) s ≡ (bytes [], s')
      → read_loop sock (suc f) l d s ≡ (err eof, s')
  unfolding read_loop
  at_end f l d s s' h e = ground arith

  pub on_error :
      (f l : ℕ) (d : List ℕ) (s s' : S) (e : Bool) (text : String)
      → length d < l
      → sock.recv (l - length d) s ≡ (failed e text, s')
      → read_loop sock (suc f) l d s ≡ (err (socket_error e text), s')
  unfolding read_loop
  on_error f l d s s' e text h k = ground arith

  -- the loop has read as many bytes as it wanted, or has raised
  abbrev pub Read : ℕ → Outcome (List ℕ) × S → Type 0
  Read l (ok d, s) = l ≤ length d
  Read l (err x, s) = Unit

  received :
      (f l : ℕ) (d : List ℕ) (s : S) (r : Received) (s' : S)
      → length d < l
      → sock.recv (l - length d) s ≡ (r, s')
      → ((b : ℕ) (bs : List ℕ) → Read l (read_loop sock f l (d ++ b ∷ bs) s'))
      → Read l (read_loop sock (suc f) l d s)
  received f l d s (failed e text) s' more k next = rw (on_error f l d s s' e text more k) tt
  received f l d s (bytes []) s' more k next = rw (at_end f l d s s' more k) tt
  received f l d s (bytes (b ∷ bs)) s' more k next = rw (round f l d s s' b bs more k) (next b bs)

  -- On any socket, whatever it gives, the fuel of `l` rounds is never what ends the loop: what is
  -- returned has at least the `l` bytes that the test asks for.
  pub read_loop-Read :
      (f l : ℕ) (d : List ℕ) (s : S) → l ≤ f + length d → Read l (read_loop sock f l d s)
  read_loop-Read zero l d s h = rw (done zero l d s (omega arith)) (omega arith)
  read_loop-Read (suc f) l d s h = elim (Bool-cases (ltb (length d) l)) [
    | inr enough ↦ rw (done (suc f) l d s (ground arith)) (ground arith)
    | inl more ↦
        received f l d s (sock.recv (l - length d) s).0 (sock.recv (l - length d) s).1
          (ground arith) refl
          (λ b bs.
            let longer : length (d ++ b ∷ bs) ≡ length d + length (b ∷ bs) =
              length-append d (b ∷ bs) in
            read_loop-Read f l (d ++ b ∷ bs) (sock.recv (l - length d) s).1 (omega arith))
  ]
