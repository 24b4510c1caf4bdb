-- ===== src/Ipc/Runner/Session.antt =====
-- A whole session of `PluginRunner.run` (python_binding/lsm/_pluginrunner.py): what a plugin does with
-- calls, and the loop that does it over a socket.
use mathlib.Core.List.{append_assoc, append-nil}
use mathlib.Core.Path.{subst}
use libstoragemgmt.Base.{
  ℕ, suc, ◌≡◌, refl, sym, ap, ◌∙◌, Bool, true, false, some, List, [], ◌∷◌, ◌++◌, length,
}
use libstoragemgmt.Data.Value.{Value}
use libstoragemgmt.Ipc.Raised.{Outcome}
use libstoragemgmt.Ipc.Transport.{Socket}
use libstoragemgmt.Ipc.Messages.{Json, request}
use libstoragemgmt.Ipc.Messages.Exchange.{IsConnected, Travels, framed, Reply, reply_message}
use libstoragemgmt.Ipc.Runner.{
  Plugin, State, returned, again, finished, dispatch, clean_up, step, run, initial,
}
use libstoragemgmt.Ipc.Runner.Steps.{reply_of, is_last, step-reply, Answered, next_round}

-- a call with the text of its request and the text of the answer
pub record Call : Type 0 where
  pub method : List ℕ
  pub args : Value
  pub asked : List ℕ
  pub answer : List ℕ

-- the requests on the wire, and the answers
abbrev pub requests : List Call → List ℕ
requests [] = []
requests (c ∷ cs) = framed c.asked ++ requests cs

abbrev pub answers : List Call → List ℕ
answers [] = []
answers (c ∷ cs) = framed c.answer ++ answers cs

abbrev NoneLeft : List Call → Type 0
NoneLeft [] = Unit
NoneLeft (c ∷ cs) = ⊥

-- After an answer: the session has ended with it, or goes on.
abbrev GoesOn : {P : Type 0} → Bool → P → List Call → P → Type 0 → Type 0
GoesOn true p' cs q more = NoneLeft cs × (p' ≡ q)
GoesOn false p' cs q more = more

module _ {S P : Type 0} (json : Json) (sock : Socket S) (close : S → S) (plugin : Plugin P) where
  -- The specification, without sockets and loops: the plugin in the state p answers every call in turn
  -- and is left in the state q; the answer to the last call, and to no other, ends the session.
  unfoldable pub Session : P → List Call → P → Type 0
  Session p [] q = ⊥
  Session p (c ∷ cs) q =
      (o : Outcome Value) × (p' : P) × (reply : Reply) × (dispatch json sock close plugin
          (Value.str c.method) c.args p
        ≡ (o, p'))
      × (reply_of plugin o ≡ some reply)
      × Travels json (request c.method c.args) c.asked
      × Travels json (reply_message reply) c.answer
      × GoesOn (is_last c.method reply) p' cs q (Session p' cs q)

  module _ (pending written : S → List ℕ) (conn : IsConnected sock pending written)
      (closed : (s : S) → written (close s) ≡ written s) where
    -- The session as it has run from the state `st`: nothing is left to shut down.
    abbrev Completes : State S P → List Call → P → ℕ → Type 0
    Completes st cs q f =
        (st' : State S P) × (run json sock close plugin f st ≡ (returned, st'))
        × (st'.plugin ≡ q)
        × (written st'.transport ≡ written st.transport ++ answers cs)

    ran_last :
        (st st' : State S P) (c : Call) (cs : List Call) (q : P) (f : ℕ) (rest : List ℕ)
        → step json sock close plugin st ≡ (finished, st')
        → Answered json sock close plugin pending written conn st st' q c.answer rest true
        → NoneLeft cs
        → Completes st (c ∷ cs) q (suc f)
    unfolding run clean_up
    ran_last st st' c [] q f rest e a h = (
      st',
      rw (e, a.shut refl) refl,
      a.left_plugin,
      a.answered ∙ ap (λ x. written st.transport ++ x) (sym (append-nil (framed c.answer))),
    )
    ran_last st st' c (d ∷ cs) q f rest e a h = absurd h

    ran_more :
        (st st' : State S P) (c : Call) (cs : List Call) (p' q : P) (f : ℕ) (rest : List ℕ)
        → step json sock close plugin st ≡ (again, st')
        → Answered json sock close plugin pending written conn st st' p' c.answer rest false
        → Completes st' cs q f
        → Completes st (c ∷ cs) q (suc f)
    unfolding run
    ran_more st st' c cs p' q f rest e a (st'', r, left, w) = (
      st'',
      rw e r,
      left,
      w
          ∙ ap (λ x. x ++ answers cs) a.answered
          ∙ append_assoc (written st.transport) (framed c.answer) (answers cs),
    )

    by_end :
        (ends : Bool) (st st' : State S P) (c : Call) (cs : List Call) (p' q : P) (rest : List ℕ)
        → step json sock close plugin st
          ≡ (next_round json sock close plugin pending written conn ends, st')
        → Answered json sock close plugin pending written conn st st' p' c.answer rest ends
        → GoesOn ends p' cs q (Session p' cs q)
        → (Session p' cs q → pending st'.transport ≡ rest → Completes st' cs q (length cs))
        → Completes st (c ∷ cs) q (suc (length cs))
    by_end true st st' c cs p' q rest e a (h, same) next =
        ran_last st st' c cs q (length cs) rest e
          (subst
            (λ x. Answered json sock close plugin pending written conn st st' x c.answer rest true)
            same a)
          h
    by_end false st st' c cs p' q rest e a h next =
        ran_more st st' c cs p' q (length cs) rest e a (next h (a.unread refl))

    session_ran :
        (cs : List Call) (st : State S P) (p q : P) (rest : List ℕ)
        → st.plugin ≡ p
        → Session p cs q
        → pending st.transport ≡ requests cs ++ rest
        → Completes st cs q (length cs)
    unfolding Session
    session_ran [] st p q rest e h k = absurd h
    session_ran (c ∷ cs) st p q rest e (o, p', reply, d, r, t, u, next) k =
        let (st', stepped, a) =
          step-reply json sock close plugin pending written conn closed c.method c.args c.asked
            reply c.answer st o p' (requests cs ++ rest) t (rw e d) r u
            (k ∙ append_assoc (framed c.asked) (requests cs) rest) in
        by_end (is_last c.method reply) st st' c cs p' q (requests cs ++ rest) stepped a next
          (λ h left. session_ran cs st' p' q rest a.left_plugin h left)

    -- Where the requests of a session come one behind another, in any pieces, `run` sends the answers that
    -- the plugin gives, one behind another and nothing else, and returns by itself, after one round for
    -- a request, with the plugin in the session's last state.
    pub run-session :
        (cs : List Call) (p q : P) (s : S) (rest : List ℕ)
        → Session p cs q
        → pending s ≡ requests cs ++ rest
        → (st : State S P) × (run json sock close plugin
              (length cs)
              (initial json sock close plugin s p)
            ≡ (returned, st))
          × (st.plugin ≡ q)
          × (written st.transport ≡ written s ++ answers cs)
    run-session cs p q s rest h k =
        session_ran cs (initial json sock close plugin s p) p q rest refl h k
