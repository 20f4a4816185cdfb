-- ===== src/Admin/Names/Domains.antt =====
-- The domains that a site keeps of those that a caller gives.
use inline_chat.Prelude.{String, Bool, true, false, not, ◌&&◌, ◌≡◌, List, [], ◌∷◌, All, str_eq}
use inline_chat.Admin.Names.{is_among}
use inline_chat.Prelude.Text.{trim_space, to_lower}

abbrev pub distinct_texts : List String → Bool
distinct_texts [] = true
distinct_texts (t ∷ ts) = not (is_among t ts) && distinct_texts ts

abbrev pub no_texts : List String → Bool
no_texts [] = true
no_texts (t ∷ ts) = false

-- The item is not blank, and stands among the given ones in lower case and trimmed.
abbrev pub Covered : List String → String → Type 0
Covered ds item =
    (str_eq (trim_space (to_lower item)) "" ≡ false)
    × (is_among (trim_space (to_lower item)) ds ≡ true)

abbrev Collected : List String → List String → List String → Type 0
Collected items seen ds =
    (distinct_texts ds ≡ true)
    × ((d : String) → is_among d seen ≡ true → is_among d ds ≡ true)
    × All (Covered ds) items
