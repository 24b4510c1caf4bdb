-- ===== src/Hpsa/Plain.antt =====
-- What `_sanitize_output` of plugin/hpsa_plugin/hpsa.py makes of an output without a warning.
use mathlib.Core.List.{append_assoc, append-nil}
use libstoragemgmt.Base.{
  ℕ, zero, suc, ◌≤◌, ◌≡◌, ◌∙◌, ap, refl, sym, false, Option, none, List, [], ◌∷◌, ◌++◌, length,
  arith, inl, inr, Bool-cases, if◌then◌else◌,
}
use libstoragemgmt.Text.{codes}
use libstoragemgmt.Data.Initiators.{starts_with}
use libstoragemgmt.Sql.Rows.{All}
use libstoragemgmt.Hpsa.{
  Line, past_warning, past_info, Sanitized, sanitized, is_note, appended, round_on, sanitize,
  sanitize_output,
}

-- the line begins none of the blocks
abbrev pub IsPlain : Line → Type 0
IsPlain l =
    (starts_with l (codes "Warning:") ≡ false)
    × (starts_with l (codes "Encryption is enabled") ≡ false)

-- the line in front of others, unless it is a note
abbrev before : Line → List Line → List Line
before l ls = if is_note l then ls else l ∷ ls

-- the lines that are neither empty nor notes
unfoldable pub without_notes : List Line → List Line
without_notes [] = []
without_notes ([] ∷ ls) = without_notes ls
without_notes ((c ∷ l) ∷ ls) = before (c ∷ l) (without_notes ls)

appended-before :
    (out : List Line) (l : Line) (ls : List Line) → appended out l ++ ls ≡ out ++ before l ls
appended-before out l ls = elim (Bool-cases (is_note l)) [
  | inl note ↦ rw note refl
  | inr other ↦ rw other (append_assoc out (l ∷ []) ls)
]

-- a round on a plain line
round_plain :
    (again : Option Line → List Line → List Line → Sanitized) (out : List Line) (w : Option Line)
    (l : Line) (ls : List Line)
    → IsPlain l
    → round_on again out (past_warning w l ls) ≡ again w ls (appended out l)
unfolding past_warning past_info
round_plain again out w l ls (a, b) = rw (a, b) refl

sanitize-plain :
    (n : ℕ) (w : Option Line) (ls out : List Line)
    → length ls ≤ n
    → All IsPlain ls
    → sanitize n w ls out ≡ sanitized (out ++ without_notes ls) w
unfolding sanitize without_notes
sanitize-plain n w [] out h a = ap (λ x. sanitized x w) (sym (append-nil out))
sanitize-plain zero w (l ∷ ls) out h a = absurd (omega arith)
sanitize-plain (suc n) w ([] ∷ ls) out h (p, a) = sanitize-plain n w ls out (omega arith) a
sanitize-plain (suc n) w ((c ∷ l) ∷ ls) out h (p, a) =
    round_plain (sanitize n) out w (c ∷ l) ls p
    ∙ sanitize-plain n w ls (appended out (c ∷ l)) (omega arith) a
    ∙ ap (λ x. sanitized x w) (appended-before out (c ∷ l) (without_notes ls))

-- Of an output in which no line begins a warning or the block about encryption, `_sanitize_output` leaves the lines
-- that are neither empty nor notes, in their order, and no warning.
pub sanitize_output-without_notes :
    (output_lines : List Line)
    → All IsPlain output_lines
    → sanitize_output output_lines ≡ sanitized (without_notes output_lines) none
unfolding sanitize_output
sanitize_output-without_notes output_lines a =
    sanitize-plain (length output_lines) none output_lines [] (omega arith) a
