-- ===== src/Sim/Groups/Split.antt =====
-- `group_concat(init.id, '#')` of `ags_view` and `init_ids_str.split('#')` of `_sim_ag_format`
-- (plugin/sim_plugin/simarray.py).
use Prim.Native.Char.{Char, code}
use libstoragemgmt.Base.{
  String, Bool, false, ◌||◌, List, [], ◌∷◌, ◌==◌, if◌then◌else◌, ◌≡◌, refl, ap, ◌∙◌, arith,
}

abbrev pub splitter : Char
splitter = "#"

-- `s`, the splitter, and `t`
joined : String → String → String
joined String.[] t = String.◌∷◌ splitter t
joined (String.◌∷◌ c s) t = String.◌∷◌ c (joined s t)

-- the first id, and those after it
unfoldable pub join_ids : String → List String → String
unfolding joined
join_ids x [] = x
join_ids x (y ∷ ids) = joined x (join_ids y ids)

prepend : Char → List String → List String
prepend c [] = (String.◌∷◌ c String.[]) ∷ []
prepend c (x ∷ xs) = (String.◌∷◌ c x) ∷ xs

unfoldable pub split_ids : String → List String
unfolding prepend
split_ids String.[] = String.[] ∷ []
split_ids (String.◌∷◌ c s) =
    let rest = split_ids s in if code c == b'#' then String.[] ∷ rest else prepend c rest

-- the text holds the splitter
abbrev pub holds_splitter : String → Bool
holds_splitter String.[] = false
holds_splitter (String.◌∷◌ c s) = code c == b'#' || holds_splitter s

-- No text of the list holds the splitter.
abbrev pub NoSplitter : List String → Type 0
NoSplitter [] = Unit
NoSplitter (x ∷ xs) = (holds_splitter x ≡ false) × NoSplitter xs

split_ids-plain : (s : String) → holds_splitter s ≡ false → split_ids s ≡ s ∷ []
unfolding split_ids
split_ids-plain String.[] h = refl
split_ids-plain (String.◌∷◌ c s) h = ground (arith, split_ids-plain s)

split_ids-joined :
    (s t : String) → holds_splitter s ≡ false → split_ids (joined s t) ≡ s ∷ split_ids t
unfolding split_ids joined
split_ids-joined String.[] t h = refl
split_ids-joined (String.◌∷◌ c s) t h = ground (arith, split_ids-joined s t)

-- Ids that do not hold the splitter come back from the view.
pub split_ids-join_ids :
    (x : String) (ids : List String) → NoSplitter (x ∷ ids) → split_ids (join_ids x ids) ≡ x ∷ ids
unfolding join_ids
split_ids-join_ids x [] h = split_ids-plain x h.0
split_ids-join_ids x (y ∷ ids) h =
    split_ids-joined x (join_ids y ids) h.0 ∙ ap (λ t. x ∷ t) (split_ids-join_ids y ids h.1)
