-- ===== src/Ai/Texts.antt =====
-- services/ai-service/internal/knowledgebase/document_loader.go and manager.go: the texts and keywords of
-- a document.
use Prim.Native.Nat.{ℕ, zero, suc}
use Prim.Native.Char.{code}
use Prim.Native.String.{◌++◌}
use inline_chat.Prelude.{String, ◌||◌, List, [], ◌∷◌, str_eq, ltb, leb, ◌==◌, ◌-◌, if◌then◌else◌}
use inline_chat.Prelude.{◌++◌ as append}
use inline_chat.Prelude.Text.{trim_space, rune_count}
use inline_chat.Realtime.Origins.{has_text}
use inline_chat.Ai.Query.{normalize_query}

-- strings.Split(text, "\n"), as the first line and the others.
unfoldable pub lines_of : String → String × List String
lines_of String.[] = ("", [])
lines_of (String.◌∷◌ c s) =
    let (line, lines) = lines_of s in
    if code c == 10 then ("", line ∷ lines) else (String.◌∷◌ c line, lines)

unfoldable pub clean_lines : List String → List String
unfolding normalize_query trim_space
clean_lines [] = []
clean_lines (line ∷ lines) =
    let rest = clean_lines lines in
    if str_eq (trim_space line) "" then rest else normalize_query line ∷ rest

-- strings.Join(lines, "\n")
unfoldable pub join_lines : List String → String
join_lines [] = ""
join_lines (line ∷ []) = line
join_lines (line ∷ next ∷ lines) = line ++ "\n" ++ join_lines (next ∷ lines)

unfoldable pub normalize_text : String → String
unfolding lines_of clean_lines join_lines trim_space
normalize_text text =
    let (line, lines) = lines_of text in trim_space (join_lines (clean_lines (line ∷ lines)))

abbrev pub take_runes : ℕ → String → String
take_runes zero s = String.[]
take_runes (suc n) String.[] = String.[]
take_runes (suc n) (String.◌∷◌ c s) = String.◌∷◌ c (take_runes n s)

abbrev pub drop_runes : ℕ → String → String
drop_runes zero s = s
drop_runes (suc n) String.[] = String.[]
drop_runes (suc n) (String.◌∷◌ c s) = drop_runes n s

unfoldable pub trim_to_last_runes : String → ℕ → String
unfolding trim_space
trim_to_last_runes text limit =
    if limit == 0 || str_eq text ""
    then ""
    else if leb (rune_count text) limit
    then text
    else trim_space (drop_runes (rune_count text - limit) text)

unfoldable pub trim_leading_runes : String → ℕ → String
unfolding trim_space
trim_leading_runes text limit =
    if limit == 0 || str_eq text ""
    then ""
    else if leb (rune_count text) limit
    then text
    else trim_space (take_runes limit text)

-- The loop over the keywords, with those seen before.
unfoldable pub collect_keywords : List String → List String → List String
unfolding normalize_query trim_leading_runes
collect_keywords seen [] = []
collect_keywords seen (item ∷ items) =
    let normalized = normalize_query item in
    let short =
      if ltb 36 (rune_count normalized) then trim_leading_runes normalized 36 else normalized in
    let skipped = collect_keywords seen items in
    let kept = short ∷ collect_keywords (short ∷ seen) items in
    if str_eq normalized "" || ltb (rune_count short) 2 || has_text short seen
    then skipped
    else kept

-- An empty list is nil.
abbrev pub normalize_keywords : List String → List String
normalize_keywords = collect_keywords []

abbrev pub merge_keywords : List String → List String → List String
merge_keywords left right = normalize_keywords (append left right)
