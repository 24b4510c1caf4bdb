-- ===== src/Hpsa.antt =====
-- The plugin for HP Smart Array, plugin/hpsa_plugin/hpsa.py: `_sanitize_output`, which drops warnings,
-- notes and empty lines from what the tool ssacli prints.
pub mod Lines
pub mod Plain
mod Tests
use libstoragemgmt.Base.{
  ℕ, zero, suc, Bool, true, false, Option, none, some, List, [], ◌∷◌, ◌++◌, if◌then◌else◌, length,
  drop,
}
use libstoragemgmt.Text.{codes}
use libstoragemgmt.Data.Initiators.{starts_with}

abbrev pub Line : Type 0
Line = List ℕ

abbrev pub is_blank_line : Line → Bool
is_blank_line [] = true
is_blank_line (c ∷ l) = false

-- The loop over the lines of a warning: the warning so far, the current line, and what is behind it.
unfoldable pub warning_block : Line → Line → List Line → Line × Line × List Line
warning_block warning cur [] = (warning, cur, [])
warning_block warning cur (l ∷ rest) =
    let more = warning_block (warning ++ (b' ' ∷ l)) l rest in
    if is_blank_line l then (warning, l, rest) else more

-- the first line of a list, and the others; none is the IndexError of `output_lines[i]`
abbrev pub first_line : List Line → Option (Line × List Line)
first_line [] = none
first_line (l ∷ rest) = some (l, rest)

-- The loop over the lines of a block that is discarded, the empty line behind it included.
unfoldable pub info_block : List Line → Option (Line × List Line)
info_block [] = none
info_block (l ∷ rest) =
    let more = info_block rest in if is_blank_line l then first_line rest else more

-- `warning_msg` where a warning has been read
abbrev pub noted_warning : Option Line → Line → Option Line
noted_warning none warning = some (drop 9 warning)
noted_warning (some w) warning = some w

abbrev noted_block : Option Line → Line × Line × List Line → Option Line × Line × List Line
noted_block w (warning, cur, rest) = (noted_warning w warning, cur, rest)

unfoldable pub past_warning : Option Line → Line → List Line → Option Line × Line × List Line
past_warning w cur rest =
    if starts_with cur (codes "Warning:")
    then noted_block w (warning_block cur cur rest)
    else (w, cur, rest)

unfoldable pub past_info : Line → List Line → Option (Line × List Line)
past_info cur rest =
    if starts_with cur (codes "Encryption is enabled")
    then info_block (cur ∷ rest)
    else some (cur, rest)

-- What the function gives: an IndexError, the lines with the message of the first warning, or, in a model that is
-- given too few rounds, nothing.
pub data Sanitized : Type 0 where
  out_of_rounds index_error : Sanitized
  sanitized : List Line → Option Line → Sanitized

abbrev pub is_note : Line → Bool
is_note l = starts_with l (codes "Note:")

abbrev pub appended : List Line → Line → List Line
appended out cur = if is_note cur then out else out ++ cur ∷ []

-- what a round does behind the blocks: `again` is the next round
abbrev pub go_on :
    (again : List Line → List Line → Sanitized) → List Line → Option (Line × List Line) → Sanitized
go_on again out none = index_error
go_on again out (some (cur, rest)) = again rest (appended out cur)

abbrev pub round_on :
    (again : Option Line → List Line → List Line → Sanitized)
    → List Line
    → Option Line × Line × List Line
    → Sanitized
round_on again out (w, cur, rest) = go_on (again w) out (past_info cur rest)

-- The loop, for a number of rounds, on the lines that are left.
unfoldable pub sanitize : ℕ → Option Line → List Line → List Line → Sanitized
sanitize n w [] out = sanitized out w
sanitize zero w (cur ∷ rest) out = out_of_rounds
sanitize (suc n) w (cur ∷ rest) out =
    let skipped = sanitize n w rest out in
    let read = round_on (sanitize n) out (past_warning w cur rest) in
    if is_blank_line cur then skipped else read

-- `_sanitize_output`: a round for each line is enough.
unfoldable pub sanitize_output : List Line → Sanitized
sanitize_output output_lines = sanitize (length output_lines) none output_lines []
