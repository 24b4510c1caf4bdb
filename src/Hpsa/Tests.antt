-- ===== src/Hpsa/Tests.antt =====
-- Outputs of ssacli on which the theorems of Hpsa are applied.
use libstoragemgmt.Base.{◌≡◌, refl, true, leb, none, some, List, [], ◌∷◌, length}
use libstoragemgmt.Text.{codes}
use libstoragemgmt.Data.Initiators.{starts_with}
use libstoragemgmt.Hpsa.{
  Line, index_error, sanitized, sanitize, sanitize_output, past_warning, warning_block, past_info,
  info_block,
}
use libstoragemgmt.Hpsa.Lines.{IsClean, sanitize_output-IsClean}
use libstoragemgmt.Hpsa.Plain.{without_notes, sanitize_output-without_notes}

abbrev plain_lines : List Line
plain_lines = codes "Smart Array" ∷ [] ∷ codes "Note: none" ∷ codes "   Slot: 1" ∷ []

sanitize_output-without_notes_example :
    sanitize_output plain_lines ≡ sanitized (without_notes plain_lines) none
unfolding starts_with
sanitize_output-without_notes_example =
    sanitize_output-without_notes plain_lines
      ((refl, refl), ((refl, refl), ((refl, refl), ((refl, refl), tt))))

-- the lines of an output with a warning
abbrev warned_lines : List Line
warned_lines = codes "Warning: media" ∷ codes "errors" ∷ [] ∷ codes "Smart Array" ∷ []

abbrev IsShort : Line → Type 0
IsShort l = leb (length l) 14 ≡ true

sanitize_output-IsClean_example : IsClean IsShort (sanitize_output warned_lines)
sanitize_output-IsClean_example =
    sanitize_output-IsClean IsShort warned_lines (refl, (refl, (refl, (refl, tt))))

-- the empty line behind a warning stays
warned :
    sanitize_output warned_lines
    ≡ sanitized ([] ∷ codes "Smart Array" ∷ []) (some (codes "media errors"))
unfolding sanitize_output sanitize past_warning warning_block past_info starts_with
warned = refl

-- a block about encryption at the end is an IndexError
encrypted :
    sanitize_output (codes "Smart Array" ∷ codes "Encryption is enabled" ∷ [] ∷ []) ≡ index_error
unfolding sanitize_output sanitize past_warning past_info info_block starts_with
encrypted = refl
