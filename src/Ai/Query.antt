-- ===== src/Ai/Query.antt =====
-- services/ai-service/internal/service/auto_reply_service.go: the visitor's question, and the replies to
-- small talk.
use Prim.Native.Char.{code}
use Prim.Native.String.{◌++◌}
use inline_chat.Prelude.{String, Option, none, some, List, [], ◌∷◌, str_eq, if◌then◌else◌, ◌||◌}
use inline_chat.Prelude.Text.{is_space, to_lower, trim_space}
use inline_chat.Realtime.Origins.{has_text}

-- A word before the words that follow it.
abbrev pub with_word : String → List String → List String
with_word word words = if str_eq word "" then words else word ∷ words

-- The first word, which may be empty, and the words after it.
unfoldable pub words_of : String → String × List String
unfolding is_space
words_of String.[] = ("", [])
words_of (String.◌∷◌ c s) =
    let (word, words) = words_of s in
    if is_space (code c) then ("", with_word word words) else (String.◌∷◌ c word, words)

-- strings.Fields
abbrev pub fields : String → List String
fields s = let (word, words) = words_of s in with_word word words

-- strings.Join(words, " ")
unfoldable pub join_words : List String → String
join_words [] = ""
join_words (word ∷ []) = word
join_words (word ∷ next ∷ words) = word ++ " " ++ join_words (next ∷ words)

unfoldable pub normalize_query : String → String
unfolding words_of join_words trim_space
normalize_query input = join_words (fields (trim_space input))

-- ReplaceAllString of a pattern by the empty text: one strips punctuation, symbols and separators.
abbrev pub Strip : Type 0
Strip = String → String

-- The empty text is none of these.
abbrev pub small_talk : String → Option String
small_talk s =
    if has_text s ("你好" ∷ "您好" ∷ "嗨" ∷ "哈喽" ∷ "hello" ∷ "hi" ∷ "在吗" ∷ "有人吗" ∷ [])
    then some "您好，我是 AI 客服，很高兴为您服务。您可以直接问我产品、价格、发货、售后等问题。"
    else if has_text s ("谢谢" ∷ "感谢" ∷ "多谢" ∷ "谢了" ∷ "thanks" ∷ "thankyou" ∷ [])
    then some "不客气，您有其他问题可以继续问我。"
    else if has_text s ("再见" ∷ "拜拜" ∷ "bye" ∷ "byebye" ∷ "回头聊" ∷ [])
    then some "好的，您有需要随时再来咨询。"
    else if has_text s ("你是谁" ∷ "你能做什么" ∷ "你可以做什么" ∷ "介绍下你自己" ∷ [])
    then some "我是网站 AI 客服，可以根据当前站点资料回答产品、价格、发货和售后相关问题。"
    else none

unfoldable pub match_small_talk_reply : Strip → String → Option String
unfolding normalize_query to_lower
match_small_talk_reply strip query = small_talk (to_lower (strip (normalize_query query)))

-- The pattern that strips what a model says between think tags.
unfoldable pub sanitize_model_reply : Strip → String → String → String
unfolding normalize_query trim_space
sanitize_model_reply strip_think reply fallback =
    let text = trim_space (strip_think reply) in
    if str_eq text "" || str_eq (normalize_query text) "" then fallback else normalize_query text
