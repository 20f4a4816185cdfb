-- ===== src/Chat/AutoClose/Paging.antt =====
-- Reading the open conversations page by page finds all of them.
use inline_chat.Prelude.{
  ℕ, zero, suc, ◌+◌, ◌*◌, ◌≤◌, ◌<◌, ◌≡◌, arith, Bool, List, [], ◌∷◌, ◌++◌, map, reverse, take, drop,
  filter, length, refl, sym, ap, ◌∙◌, str_eq, ltb, Bool-cases, inl, inr, true, false, ltb→lt,
}
use inline_chat.Errors.{Result-cases, ok, is_err}
use inline_chat.Chat.Model.{Conversation}
use inline_chat.Chat.World.{Service, World}
use inline_chat.Chat.Repository.Conversations
use inline_chat.Chat.Repository.Conversations.{listed}
use inline_chat.Chat.AutoClose.{open_page, batch_size, open_conversation_ids}
use inline_chat.Store.{Query}

le_of_ltb : (m n : ℕ) → ltb m n ≡ false → n ≤ m
le_of_ltb m n h = ground (arith, h)

module _ {A : Type 0} where
  take-short : (n : ℕ) (xs : List A) → length (take n xs) < n → take n xs ≡ xs
  take-short zero xs h = ground (arith, h)
  take-short (suc n) [] h = refl
  take-short (suc n) (x ∷ xs) h = ap (λ ys. x ∷ ys) (take-short n xs (omega arith))

  length-take-drop : (n : ℕ) (xs : List A) → length (take n xs) + length (drop n xs) ≡ length xs
  length-take-drop zero xs = omega arith
  length-take-drop (suc n) [] = omega arith
  length-take-drop (suc n) (x ∷ xs) = omega (arith, length-take-drop n xs)

  length-take : (n : ℕ) (xs : List A) → length (take n xs) ≤ n
  length-take zero xs = omega arith
  length-take (suc n) [] = omega arith
  length-take (suc n) (x ∷ xs) = omega (arith, length-take n xs)

  drop_nil : (n : ℕ) → drop {A = A} n [] ≡ []
  drop_nil zero = refl
  drop_nil (suc n) = refl

  drop-drop : (m n : ℕ) (xs : List A) → drop n (drop m xs) ≡ drop (m + n) xs
  drop-drop zero n xs = ap (λ k. drop k xs) (omega arith)
  drop-drop (suc m) n [] = drop_nil n ∙ sym (drop_nil (suc m + n))
  drop-drop (suc m) n (x ∷ xs) =
      let shift : suc (m + n) ≡ suc m + n = omega arith in
      drop-drop m n xs ∙ ap (λ k. drop k (x ∷ xs)) shift

  map-take-drop :
      {B : Type 0} (f : A → B) (n : ℕ) (xs : List A)
      → map f (take n xs) ++ map f (drop n xs) ≡ map f xs
  map-take-drop f zero xs = refl
  map-take-drop f (suc n) [] = refl
  map-take-drop f (suc n) (x ∷ xs) = ap (λ ys. f x ∷ ys) (map-take-drop f n xs)

  filter-cong : (p q : A → Bool) (xs : List A) → ((x : A) → p x ≡ q x) → filter p xs ≡ filter q xs
  filter-cong p q [] h = refl
  filter-cong p q (x ∷ xs) h = rw (h x) (rw (filter-cong p q xs h) refl)

is_short :
    {A : Type 0} (page here : List A)
    → page ≡ take batch_size here
    → ltb (length page) batch_size ≡ true
    → length (take batch_size here) < batch_size
is_short page here taken last = rw (sym taken) (ltb→lt _ _ last)

is_covered :
    {A : Type 0} (fuel offset : ℕ) (page rows : List A)
    → page ≡ take batch_size (drop offset rows)
    → ltb (length page) batch_size ≡ false
    → length (drop offset rows) < suc fuel * batch_size
    → length (drop (offset + batch_size) rows) < fuel * batch_size
is_covered fuel offset page rows taken full room =
    let whole = length-take-drop batch_size (drop offset rows) in
    let long : batch_size ≤ length (take batch_size (drop offset rows)) =
      rw (sym taken) (le_of_ltb _ _ full) in
    rw (sym (drop-drop offset batch_size rows)) (omega (arith, whole, long, room))

-- The open conversations, the newest first.
abbrev pub open_rows : List Conversation → List Conversation
open_rows cs = reverse (filter (λ c. str_eq c.status "open") cs)

listed-open_page :
    (offset : ℕ) (c : Conversation) → listed (open_page offset) c ≡ str_eq c.status "open"
listed-open_page offset c = ground arith

module _ {C M O : Type 0} (svc : Service C M O) where
  -- The rows of the conversations table.
  abbrev pub stored : World C M O → List Conversation
  stored w = svc.conversation_table.rows w.store.conversations

  list-page :
      (offset : ℕ) (w : World C M O) (page : List Conversation)
      → (Conversations.list svc (open_page offset) w).0 ≡ ok page
      → page ≡ take batch_size (drop offset (open_rows (stored w)))
  unfolding Conversations.list
  list-page offset w page h =
      svc.conversation_table.find_law _ _ page h
      ∙ ap (λ cs. take batch_size (drop offset (reverse cs)))
          (filter-cong (listed (open_page offset)) (λ c. str_eq c.status "open") (stored w)
            (listed-open_page offset))

  list-Reads : (offset : ℕ) (w : World C M O) → (Conversations.list svc (open_page offset) w).1 ≡ w
  unfolding Conversations.list
  list-Reads offset w = refl

  -- The rest of the rows from an offset on, where the fuel covers their pages.
  open_conversation_ids-drop :
      (fuel offset : ℕ) (w : World C M O) (ids : List ℕ)
      → (open_conversation_ids svc fuel offset w).0 ≡ ok ids
      → length (drop offset (open_rows (stored w))) < fuel * batch_size
      → ids ≡ map (λ c. c.id) (drop offset (open_rows (stored w)))
  unfolding open_conversation_ids
  open_conversation_ids-drop zero offset w ids h room = ground (arith, room)
  open_conversation_ids-drop (suc fuel) offset w ids h room =
      let here = drop offset (open_rows (stored w)) in
      let found = Conversations.list svc (open_page offset) w in
      elim (Result-cases found.0) [
        | inl (x, e) ↦ ground (arith, e)
        | inr (page, e) ↦ elim (Bool-cases (ltb (length page) batch_size)) [
          | inl last ↦
              let taken : page ≡ take batch_size here = list-page offset w page e in
              let short : take batch_size here ≡ here =
                take-short batch_size here (is_short page here taken last) in
              let ended : ids ≡ map (λ c. c.id) page =
                ground (arith, e, last, list-Reads offset w) in
              ended ∙ ap (map (λ c. c.id)) (taken ∙ short)
          | inr full ↦
              elim (Result-cases (open_conversation_ids svc fuel (offset + batch_size) w).0) [
                | inl (x, e') ↦ ground (arith, e, full, e', list-Reads offset w)
                | inr (rest, e') ↦
                    let taken : page ≡ take batch_size here = list-page offset w page e in
                    let joined : ids ≡ map (λ c. c.id) page ++ rest =
                      ground (arith, e, full, e', list-Reads offset w) in
                    let left =
                      open_conversation_ids-drop fuel (offset + batch_size) w rest e'
                        (is_covered fuel offset page (open_rows (stored w)) taken full room) in
                    joined
                    ∙ ap (λ cs. map (λ c. c.id) cs ++ rest) taken
                    ∙ ap (λ xs. map (λ c. c.id) (take batch_size here) ++ xs)
                        (left
                          ∙ ap (map (λ c. c.id))
                              (sym (drop-drop offset batch_size (open_rows (stored w)))))
                    ∙ map-take-drop (λ c. c.id) batch_size here
              ]
        ]
      ]

  list-works :
      (offset : ℕ) (w : World C M O)
      → ((q : Query Conversation)
          → is_err (svc.conversation_table.find q w.store.conversations) ≡ false)
      → is_err (Conversations.list svc (open_page offset) w).0 ≡ false
  unfolding Conversations.list
  list-works offset w works = works _

  open_conversation_ids-answers :
      (fuel offset : ℕ) (w : World C M O)
      → ((q : Query Conversation)
          → is_err (svc.conversation_table.find q w.store.conversations) ≡ false)
      → (ids : List ℕ) × ((open_conversation_ids svc fuel offset w).0 ≡ ok ids)
  unfolding open_conversation_ids
  open_conversation_ids-answers zero offset w works = ([], refl)
  open_conversation_ids-answers (suc fuel) offset w works =
      let (rest, answered) = open_conversation_ids-answers fuel (offset + batch_size) w works in
      elim (Result-cases (Conversations.list svc (open_page offset) w).0) [
        | inl (x, e) ↦ ([], ground (arith, e, list-works offset w works))
        | inr (page, e) ↦ elim (Bool-cases (ltb (length page) batch_size)) [
          | inl last ↦ (map (λ c. c.id) page, ground (arith, e, last, list-Reads offset w))
          | inr full ↦
              (map (λ c. c.id) page ++ rest, ground (arith, e, full, answered, list-Reads offset w))
        ]
      ]

  -- Where the queries on the conversations succeed and the fuel covers the pages, reading page by page
  -- gives the ids of all open conversations, the newest first.
  pub open_conversation_ids-open_rows :
      (fuel : ℕ) (w : World C M O)
      → ((q : Query Conversation)
          → is_err (svc.conversation_table.find q w.store.conversations) ≡ false)
      → length (open_rows (stored w)) < fuel * batch_size
      → (open_conversation_ids svc fuel 0 w).0 ≡ ok (map (λ c. c.id) (open_rows (stored w)))
  open_conversation_ids-open_rows fuel w works room =
      let (ids, answered) = open_conversation_ids-answers fuel 0 w works in
      answered ∙ ap ok (open_conversation_ids-drop fuel 0 w ids answered room)
