-- ===== src/Hpsa/Lines.antt =====
-- What `_sanitize_output` of plugin/hpsa_plugin/hpsa.py leaves.
use libstoragemgmt.Base.{
  ℕ, zero, suc, ◌≤◌, ◌≡◌, Bool, false, Option, none, some, List, [], ◌∷◌, ◌++◌, length, arith, inl,
  inr, Bool-cases,
}
use libstoragemgmt.Text.{codes}
use libstoragemgmt.Data.Initiators.{starts_with}
use libstoragemgmt.Sql.Rows.{All, All-append}
use libstoragemgmt.Hpsa.{
  Line, warning_block, info_block, past_warning, past_info, Sanitized, out_of_rounds, index_error,
  sanitized, is_note, appended, go_on, round_on, sanitize, sanitize_output,
}

module _ (P : Line → Type 0) where
  -- the current line and those behind it, of which there are at most n
  abbrev IsLeft : ℕ → Line × List Line → Type 0
  IsLeft n (cur, rest) = P cur × All P rest × (length rest ≤ n)

  abbrev IsLeftOf : ℕ → Option (Line × List Line) → Type 0
  IsLeftOf n none = Unit
  IsLeftOf n (some x) = IsLeft n x

  abbrev Behind : ℕ → Option Line × Line × List Line → Type 0
  Behind n (w, cur, rest) = IsLeft n (cur, rest)

  warning_block-Left :
      (warning cur : Line) (rest : List Line)
      → P cur
      → All P rest
      → IsLeft
          (length rest)
          ((warning_block warning cur rest).1, (warning_block warning cur rest).2)
  unfolding warning_block
  warning_block-Left warning cur [] p a = (p, a, omega arith)
  warning_block-Left warning cur ([] ∷ rest) p (q, a) = (q, a, omega arith)
  warning_block-Left warning cur ((c ∷ l) ∷ rest) p (q, a) =
      let (p', a', n) = warning_block-Left (warning ++ (b' ' ∷ c ∷ l)) (c ∷ l) rest q a in
      (p', a', omega (arith, n))

  info_block-Left :
      (ls : List Line) → All P ls → (n : ℕ) → length ls ≤ suc n → IsLeftOf n (info_block ls)
  unfolding info_block
  info_block-Left [] a n h = tt
  info_block-Left ([] ∷ []) a n h = tt
  info_block-Left ([] ∷ l ∷ rest) (p, (q, a)) n h = (q, a, omega arith)
  info_block-Left ((c ∷ l) ∷ rest) (p, a) n h = info_block-Left rest a n (omega arith)

  past_info-Left :
      (cur : Line) (rest : List Line) (n : ℕ)
      → IsLeft n (cur, rest)
      → IsLeftOf n (past_info cur rest)
  unfolding past_info
  past_info-Left cur rest n (p, a, h) =
      elim (Bool-cases (starts_with cur (codes "Encryption is enabled"))) [
        | inl info ↦ rw info (info_block-Left (cur ∷ rest) (p, a) n (omega arith))
        | inr other ↦ rw other (p, a, h)
      ]

  past_warning-Behind :
      (w : Option Line) (cur : Line) (rest : List Line)
      → P cur
      → All P rest
      → Behind (length rest) (past_warning w cur rest)
  unfolding past_warning
  past_warning-Behind w cur rest p a = elim (Bool-cases (starts_with cur (codes "Warning:"))) [
    | inl warned ↦ rw warned (warning_block-Left cur cur rest p a)
    | inr other ↦ rw other (p, a, omega arith)
  ]

  fewer : (x : Option Line × Line × List Line) (k n : ℕ) → k ≤ n → Behind k x → Behind n x
  fewer (w, cur, rest) k n h (p, a, l) = (p, a, omega (arith, h, l))

  -- a line of the input that is no note
  abbrev pub IsKept : Line → Type 0
  IsKept l = P l × (is_note l ≡ false)

  -- every line that is left is one, and the rounds were enough
  abbrev pub IsClean : Sanitized → Type 0
  IsClean out_of_rounds = Bool.false ≡ Bool.true
  IsClean index_error = Unit
  IsClean (sanitized out w) = All IsKept out

  appended-Kept : (out : List Line) (l : Line) → All IsKept out → P l → All IsKept (appended out l)
  appended-Kept out l a p = elim (Bool-cases (is_note l)) [
    | inl note ↦ rw note a
    | inr other ↦ rw other (All-append IsKept out l a (p, other))
  ]

  go_on-Clean :
      (again : List Line → List Line → Sanitized) (out : List Line) (n : ℕ)
      → ((ls out' : List Line)
          → length ls ≤ n
          → All P ls
          → All IsKept out'
          → IsClean (again ls out'))
      → All IsKept out
      → (x : Option (Line × List Line)) → IsLeftOf n x
      → IsClean (go_on again out x)
  go_on-Clean again out n h a none i = tt
  go_on-Clean again out n h a (some (cur, rest)) (p, q, m) =
      h rest (appended out cur) m q (appended-Kept out cur a p)

  round_on-Clean :
      (again : Option Line → List Line → List Line → Sanitized) (out : List Line) (n : ℕ)
      → ((w : Option Line) (ls out' : List Line)
          → length ls ≤ n
          → All P ls
          → All IsKept out'
          → IsClean (again w ls out'))
      → All IsKept out
      → (x : Option Line × Line × List Line) → Behind n x
      → IsClean (round_on again out x)
  round_on-Clean again out n h a (w, cur, rest) b =
      go_on-Clean (again w) out n (h w) a (past_info cur rest) (past_info-Left cur rest n b)

  sanitize-Clean :
      (n : ℕ) (w : Option Line) (ls out : List Line)
      → length ls ≤ n
      → All P ls
      → All IsKept out
      → IsClean (sanitize n w ls out)
  unfolding sanitize
  sanitize-Clean n w [] out h p a = a
  sanitize-Clean zero w (cur ∷ rest) out h p a = absurd (omega arith)
  sanitize-Clean (suc n) w ([] ∷ rest) out h (q, p) a =
      sanitize-Clean n w rest out (omega arith) p a
  sanitize-Clean (suc n) w ((c ∷ l) ∷ rest) out h (q, p) a =
      round_on-Clean (sanitize n) out n (sanitize-Clean n) a (past_warning w (c ∷ l) rest) (
        fewer (past_warning w (c ∷ l) rest) (length rest) n (omega arith)
          (past_warning-Behind w (c ∷ l) rest q p))

  -- For any predicate on lines that holds of every line of the output of the tool, as being one of them does:
  -- `_sanitize_output` ends within a round for each line, and where it does not raise IndexError, every line that
  -- it leaves has the predicate, and none is a note.
  pub sanitize_output-IsClean :
      (output_lines : List Line) → All P output_lines → IsClean (sanitize_output output_lines)
  unfolding sanitize_output
  sanitize_output-IsClean output_lines a =
      sanitize-Clean (length output_lines) none output_lines [] (omega arith) a tt
