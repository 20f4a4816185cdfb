-- ===== src/Ai/Chunks.antt =====
-- services/ai-service/internal/knowledgebase/document_loader.go: the paragraphs of a document as chunks.
pub mod Ids
pub mod Coverage
use Prim.Native.Nat.{ℕ}
use Prim.Native.String.{◌++◌}
use inline_chat.Prelude.{
  String, Bool, not, ◌||◌, ◌&&◌, List, [], ◌∷◌, str_eq, ltb, ◌==◌, if◌then◌else◌,
}
use inline_chat.Prelude.{◌++◌ as append}
use inline_chat.Prelude.Text.{trim_space, rune_count}
use inline_chat.Realtime.Origins.{has_text}
use inline_chat.Ai.Texts.{
  normalize_text, trim_to_last_runes, merge_keywords, collect_keywords, join_lines,
  normalize_keywords,
}

pub record Chunk : Type 0 where
  pub id : String
  pub section : String
  pub text : String
  pub source_path : String
  pub kind : String
  pub keywords : List String

pub record Paragraph : Type 0 where
  pub section : String
  pub text : String
  pub kind : String
  pub keywords : List String

-- Where the chunks of a document come from, and uuid.NewSHA1 in the name space of addresses.
pub record Document : Type 0 where
  pub site_id : String
  pub relative_path : String
  pub uuid : String → String

-- What the loop has so far: the chunks, and the text that is still in the builder.
pub record Chunking : Type 0 where
  pub chunks : List Chunk
  pub builder : String
  pub section : String
  pub keywords : List String

abbrev pub or_default : String → String → String
or_default d s = if str_eq s "" then d else s

unfoldable pub dedupe_chunks : List String → List Chunk → List Chunk
unfolding trim_space
dedupe_chunks seen [] = []
dedupe_chunks seen (item ∷ items) =
    let skipped = dedupe_chunks seen items in
    let kept = item ∷ dedupe_chunks (item.id ∷ seen) items in
    if str_eq (trim_space item.text) "" || has_text item.id seen then skipped else kept

abbrev pub is_structured : Paragraph → Bool
is_structured p = str_eq p.kind "fact" || str_eq p.kind "faq"

-- A part after what the builder holds.
abbrev pub with_part : String → String → String
with_part builder part = if str_eq builder "" then part else builder ++ "\n\n" ++ part

module _ (d : Document) where
  -- filepath.ToSlash changes nothing on Unix.
  unfoldable pub new_chunk : String → String → String → List String → Chunk
  unfolding normalize_text collect_keywords join_lines trim_space
  new_chunk section text kind keywords =
      let section' = or_default d.relative_path (trim_space section) in
      let kind' = or_default "narrative" (trim_space kind) in
      let keywords' = normalize_keywords keywords in
      record {
        id = d.uuid (
            d.site_id
            ++ "\n"
            ++ d.relative_path
            ++ "\n"
            ++ section'
            ++ "\n"
            ++ kind'
            ++ "\n"
            ++ join_lines keywords'
            ++ "\n"
            ++ normalize_text text);
        section = section';
        text = normalize_text text;
        source_path = d.relative_path;
        kind = kind';
        keywords = keywords';
      }

  unfoldable pub flush_builder : Chunking → Chunking
  unfolding new_chunk trim_space
  flush_builder c =
      let text = trim_space c.builder in
      let empty : Chunking = record c { builder = ""; keywords = [] } in
      if str_eq text "" then empty else record empty {
        chunks = append c.chunks (new_chunk c.section text "narrative" c.keywords ∷ []);
      }

  abbrev pub flush_if : Bool → Chunking → Chunking
  flush_if b c = if b then flush_builder c else c

  -- The branch of a fact or of a question with its answer: a chunk of its own.
  unfoldable pub add_structured : Paragraph → String → String → Chunking → Chunking
  unfolding flush_builder new_chunk
  add_structured p part section c =
      let c' = flush_if (not (str_eq c.builder "")) c in
      record c' {
        chunks = append c'.chunks (new_chunk section part p.kind p.keywords ∷ []);
        section = section;
      }

  -- A text that does not fit is flushed, and its end is said again.
  unfoldable pub make_room : ℕ → ℕ → String → Chunking → Chunking
  unfolding flush_builder trim_to_last_runes trim_space
  make_room size overlap part c =
      if ltb size (rune_count (with_part c.builder part)) && not (str_eq c.builder "")
      then record (flush_builder c) {
        builder = if overlap == 0 then "" else trim_to_last_runes (trim_space c.builder) overlap;
      }
      else c

  unfoldable pub add_narrative : ℕ → ℕ → Paragraph → String → String → Chunking → Chunking
  unfolding flush_builder make_room
  add_narrative size overlap p part section c =
      let c' = flush_if (not (str_eq c.builder "") && not (str_eq section c.section)) c in
      let c'' = make_room size overlap part (record c' { section = section }) in
      record c'' {
        builder = with_part c''.builder part;
        keywords = merge_keywords c''.keywords p.keywords;
      }

  -- The body of the loop.
  unfoldable pub add_paragraph : ℕ → ℕ → Paragraph → Chunking → Chunking
  unfolding add_structured add_narrative trim_space
  add_paragraph size overlap p c =
      let part = trim_space p.text in
      let section = or_default c.section p.section in
      if str_eq part ""
      then c
      else if is_structured p
      then add_structured p part section c
      else add_narrative size overlap p part section c

  unfoldable pub add_paragraphs : ℕ → ℕ → List Paragraph → Chunking → Chunking
  unfolding add_paragraph
  add_paragraphs size overlap [] c = c
  add_paragraphs size overlap (p ∷ ps) c =
      add_paragraphs size overlap ps (add_paragraph size overlap p c)

  -- chunkDocument, from the paragraphs on; the sizes are those of the configuration.
  unfoldable pub chunk_paragraphs : ℕ → ℕ → List Paragraph → List Chunk
  unfolding add_paragraphs flush_builder dedupe_chunks
  chunk_paragraphs chunk_size overlap ps =
      let size = if chunk_size == 0 then 900 else chunk_size in
      let start : Chunking = record {
        chunks = [];
        builder = "";
        section = d.relative_path;
        keywords = [];
      } in
      let c = add_paragraphs size overlap ps start in
      dedupe_chunks [] (flush_if (not (str_eq c.builder "")) c).chunks
