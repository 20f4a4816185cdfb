-- ===== src/Ai/Chunks/Coverage.antt =====
-- What the chunks of a document cover.
use inline_chat.Prelude.{String, true, str_eq, ◌≡◌, false, ◌⊎◌}
use inline_chat.Ai.Chunks.{Chunk, Document, new_chunk, Paragraph, is_structured}
use inline_chat.Prelude.Text.{trim_space}

module _ (d : Document) where
  -- A paragraph that is a fact or a question with its answer, and its chunk.
  abbrev pub IsHeld : (Chunk → Type 0) → Paragraph → Type 0
  IsHeld K p =
      (is_structured p ≡ false)
      ⊎ (str_eq (trim_space p.text) "" ≡ true)
      ⊎ ((section : String) × ((str_eq p.section "" ≡ true) ⊎ (section ≡ p.section))
          × K (new_chunk d section (trim_space p.text) p.kind p.keywords))
