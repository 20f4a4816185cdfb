-- ===== src/Chat/Repository/Conversations/Validity.antt =====
-- The conversations table holds valid rows: what the repository's methods keep of that.
use inline_chat.Prelude.{
  ℕ, ◌≡◌, none, some, All, Option, ◌==◌, inl, inr, ◌⊎◌, subst, arith, sym, Bool-cases, All-append,
  ◌∷◌, [], refl, true,
}
use inline_chat.Chat.Repository.Conversations.{
  save_if_changed, get_by_id, mutate_in_db, mutate, create,
}
use inline_chat.Chat.World.{Service, Store, World, Action}
use inline_chat.Chat.Model.{Conversation}
use inline_chat.Chat.Lifecycle.{Mutated}
use inline_chat.Chat.Lifecycle.Invariant.{IsValid}
use inline_chat.Errors.{Result, ok, Result-cases, err}
use inline_chat.Chat.Repository.{first_where, or_not_found, with_transaction}
use inline_chat.Chat.World.Rules.{Keeps}
use inline_chat.Store.Rules.{All-head?, All-select, All-upsert}
use inline_chat.Chat.Events.Rules.{Keeps-transaction}

with_id-IsValid : (c : Conversation) (id : ℕ) → IsValid c → IsValid (record c { id = id })
with_id-IsValid c id v = record {
  status_known = v.status_known;
  closed_stamped = v.closed_stamped;
  open_unsigned = v.open_unsigned;
  transfer_whole = v.transfer_whole;
  transfer_timed = v.transfer_timed;
  transfer_owned = v.transfer_owned;
  transfer_away = v.transfer_away;
}

module _ {C M O : Type 0} (svc : Service C M O) where
  -- Every row of the table is valid.
  abbrev pub ValidRows : Store C M O → Type 0
  ValidRows s = All IsValid (svc.conversation_table.rows s.conversations)

  -- A closure that only reads, and whose row is valid when it is to be saved and the old one was.
  abbrev pub IsSound : {A : Type 0} → (Conversation → Action C M O (Mutated A)) → Type 0
  IsSound {A} f =
      (c : Conversation) (w : World C M O)
      → IsValid c
      → ((f c w).1 ≡ w) × ((m : Mutated A) → (f c w).0 ≡ ok m → m.changed ≡ true → IsValid m.row)

  found :
      {c : Conversation} (r : Result (Option Conversation))
      → or_not_found r ≡ ok c
      → r ≡ ok (some c)
  found (ok none) e = cc
  found (ok (some d)) e = cc
  found (err x) e = cc

  get_by_id-IsValid :
      (id : ℕ) (w : World C M O) (c : Conversation)
      → ValidRows w.store
      → (get_by_id svc id w).0 ≡ ok c
      → IsValid c
  unfolding get_by_id
  get_by_id-IsValid id w c h e =
      let q = first_where (λ d. d.id == id) in
      All-head? IsValid c _ (All-select IsValid q _ h)
        (svc.conversation_table.first_law q w.store.conversations (some c) (found _ e))

  save_cases :
      {A : Type 0} (m : Mutated A) (w : World C M O)
      → ((save_if_changed svc m w).1.store.conversations ≡ w.store.conversations)
        ⊎ ((s : C) × (m.changed ≡ true)
            × (svc.conversation_table.save m.row w.store.conversations ≡ ok s)
            × ((save_if_changed svc m w).1.store.conversations ≡ s))
  unfolding save_if_changed
  save_cases m w = elim (Result-cases (svc.conversation_table.save m.row w.store.conversations)) [
    | inl (x, e) ↦ inl (ground (arith, e))
    | inr (s, e) ↦ elim (Bool-cases m.changed) [
      | inl changed ↦ inr (s, changed, e, ground (arith, e, changed))
      | inr kept ↦ inl (ground (arith, kept))
    ]
  ]

  save_if_changed-ValidRows :
      {A : Type 0} (m : Mutated A)
      → (m.changed ≡ true → IsValid m.row)
      → Keeps ValidRows (save_if_changed svc m)
  save_if_changed-ValidRows m v w h = elim (save_cases m w) [
    | inl same ↦ subst (λ s. All IsValid (svc.conversation_table.rows s)) (sym same) h
    | inr (s, changed, e, now) ↦
        subst (λ s'. All IsValid (svc.conversation_table.rows s')) (sym now)
          (subst (All IsValid)
            (sym (svc.conversation_table.save_rows m.row w.store.conversations s e))
            (All-upsert IsValid (λ c. c.id) m.row _ (v changed) h))
  ]

  get_by_id-Reads : (id : ℕ) (w : World C M O) → (get_by_id svc id w).1 ≡ w
  unfolding get_by_id
  get_by_id-Reads id w = refl

  -- A mutation leaves the store as it was, or saves a valid row.
  mutate_cases :
      {A : Type 0} (id : ℕ) (f : Conversation → Action C M O (Mutated A))
      → IsSound f
      → (w : World C M O) → ValidRows w.store
      → ((mutate_in_db svc id f w).1.store ≡ w.store)
        ⊎ ((m : Mutated A) × (m.changed ≡ true → IsValid m.row)
            × ((mutate_in_db svc id f w).1.store ≡ (save_if_changed svc m w).1.store))
  unfolding mutate_in_db
  mutate_cases id f sound w h = elim (Result-cases (get_by_id svc id w).0) [
    | inl (x, e) ↦ inl (ground (arith, e, get_by_id-Reads id w))
    | inr (c, e) ↦
        let (same, valid) = sound c w (get_by_id-IsValid id w c h e) in
        elim (Result-cases (f c w).0) [
          | inl (x, e') ↦ inl (ground (arith, e, get_by_id-Reads id w, e', same))
          | inr (m, e') ↦ inr (m, valid m e', ground (arith, e, get_by_id-Reads id w, e', same))
        ]
  ]

  mutate_in_db-ValidRows :
      {A : Type 0} (id : ℕ) (f : Conversation → Action C M O (Mutated A))
      → IsSound f
      → Keeps ValidRows (mutate_in_db svc id f)
  mutate_in_db-ValidRows id f sound w h = elim (mutate_cases id f sound w h) [
    | inl same ↦ subst ValidRows (sym same) h
    | inr (m, v, now) ↦ subst ValidRows (sym now) (save_if_changed-ValidRows m v w h)
  ]

  mutate_store :
      {A : Type 0} (id : ℕ) (f : Conversation → Action C M O (Mutated A)) (w : World C M O)
      → ((mutate svc id f w).1.store ≡ (mutate_in_db svc id f w).1.store)
        ⊎ ((mutate svc id f w).1.store ≡ (with_transaction svc (mutate_in_db svc id f) w).1.store)
  unfolding mutate
  mutate_store id f w = ground arith

  -- A mutation with a sound closure keeps every row valid.
  pub mutate-ValidRows :
      {A : Type 0} (id : ℕ) (f : Conversation → Action C M O (Mutated A))
      → IsSound f
      → Keeps ValidRows (mutate svc id f)
  mutate-ValidRows id f sound w h =
      let inner = mutate_in_db-ValidRows id f sound in
      elim (mutate_store id f w) [
        | inl e ↦ subst ValidRows (sym e) (inner w h)
        | inr e ↦
            subst ValidRows (sym e)
              (Keeps-transaction svc ValidRows (mutate_in_db svc id f) inner w h)
      ]

  create_cases :
      (c : Conversation) (w : World C M O)
      → ((create svc c w).1.store ≡ w.store)
        ⊎ ((c' : Conversation) × (s : C) × (svc.conversation_table.insert c w.store.conversations
              ≡ ok (c', s))
            × ((create svc c w).1.store.conversations ≡ s))
  unfolding create
  create_cases c w = elim (Result-cases (svc.conversation_table.insert c w.store.conversations)) [
    | inl (x, e) ↦ inl (ground (arith, e))
    | inr ((c', s), e) ↦ inr (c', s, e, ground (arith, e))
  ]

  -- So does the creation of a valid row.
  pub create-ValidRows : (c : Conversation) → IsValid c → Keeps ValidRows (create svc c)
  create-ValidRows c v w h = elim (create_cases c w) [
    | inl same ↦ subst ValidRows (sym same) h
    | inr (c', s, e, now) ↦
        let table = svc.conversation_table in
        let v' : IsValid c' =
          subst IsValid (sym (table.insert_fills c w.store.conversations c' s e))
            (with_id-IsValid c c'.id v) in
        subst (λ s'. All IsValid (table.rows s')) (sym now)
          (subst (All IsValid) (sym (table.insert_rows c w.store.conversations c' s e))
            (All-append IsValid _ (c' ∷ []) h (v', tt)))
  ]
