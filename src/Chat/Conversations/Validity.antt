-- ===== src/Chat/Conversations/Validity.antt =====
-- The requests on conversations keep every row of the table valid.
use inline_chat.Prelude.{
  ℕ, String, ◌≡◌, refl, arith, subst, All, sym, ◌⊎◌, inl, inr, if◌then◌else◌, true,
}
use inline_chat.Chat.Model.{Conversation}
use inline_chat.Chat.World.{Service, Action, World, return, ◌>>=◌, Store}
use inline_chat.Errors.{Result, ok, Result-cases, err}
use inline_chat.Chat.Repository.Conversations.Validity.{
  IsSound, ValidRows, mutate-ValidRows, create-ValidRows,
}
use inline_chat.Chat.Repository.Conversations.{mutate}
use inline_chat.Chat.Lifecycle.{
  Mutated, claim_row, transfer_row, confirm_row, reject_row, close_row,
}
use inline_chat.Chat.World.Rules.{Keeps}
use inline_chat.Chat.Lifecycle.Invariant.{step-IsValid, IsValid}
use inline_chat.Chat.Lifecycle.Requests.{row_after}
use inline_chat.Chat.Conversations.{
  mutate_conversation, transfer_in_transaction, confirm_in_transaction, reject_in_transaction,
  close_in_transaction, transfer_conversation, if_changed, confirm_transfer_conversation,
  reject_transfer_conversation, cancel_timer, close_conversation, claim_conversation,
  new_conversation, create_conversation,
}
use inline_chat.Chat.Events.Conversations.{
  publish_transfer_system_message-conversations, publish_system_message-conversations,
  emit_conversation_closed-conversations,
}
use inline_chat.Chat.Events.{with_event_transaction}
use inline_chat.Chat.Events.Rules.{Keeps-event_transaction}
use inline_chat.Chat.Format.{normalize_actor_role}
use inline_chat.Prelude.Text.{trim_space}
use inline_chat.Chat.Lifecycle.Requests as Lifecycle
use inline_chat.Chat.Repository.Conversations as Rows

-- The row that a closure has saved is valid.
pub mutated-IsValid :
    {A : Type 0} (c : Conversation) (r : Result (Mutated A)) (m : Mutated A)
    → IsValid (row_after c r)
    → r ≡ ok m
    → m.changed ≡ true
    → IsValid m.row
mutated-IsValid c r m v e changed =
    subst (λ x. IsValid (if x then m.row else c)) changed (subst (λ x. IsValid (row_after c x)) e v)

module _ {C M O : Type 0} (svc : Service C M O) where
  -- The valid rows survive whatever leaves the conversations table as an action that keeps them does.
  same_rows :
      {A B : Type 0} (m : Action C M O A) (n : Action C M O B)
      → ((w : World C M O) → (m w).1.store.conversations ≡ (n w).1.store.conversations)
      → Keeps (ValidRows svc) n
      → Keeps (ValidRows svc) m
  same_rows m n e kn w h =
      subst (λ s. All IsValid (svc.conversation_table.rows s)) (sym (e w)) (kn w h)

  claim-IsSound : (agent : ℕ) → IsSound svc (λ c. return (claim_row agent c))
  unfolding Lifecycle.step
  claim-IsSound agent c w v =
      (refl, λ m e. mutated-IsValid c _ m (step-IsValid (Lifecycle.claim agent) c v) e)

  transfer-IsSound :
      (role : String) (actor to now : ℕ)
      → IsSound svc (λ c. return (transfer_row role actor to now c))
  unfolding Lifecycle.step
  transfer-IsSound role actor to now c w v = (
    refl,
    λ m e. mutated-IsValid c _ m (step-IsValid (Lifecycle.transfer role actor to now) c v) e,
  )

  confirm-IsSound :
      (role : String) (actor : ℕ) → IsSound svc (λ c. return (confirm_row role actor c))
  unfolding Lifecycle.step
  confirm-IsSound role actor c w v =
      (refl, λ m e. mutated-IsValid c _ m (step-IsValid (Lifecycle.confirm role actor) c v) e)

  reject-IsSound : (role : String) (actor : ℕ) → IsSound svc (λ c. return (reject_row role actor c))
  unfolding Lifecycle.step
  reject-IsSound role actor c w v =
      (refl, λ m e. mutated-IsValid c _ m (step-IsValid (Lifecycle.reject role actor) c v) e)

  close-IsSound :
      (role : String) (actor now : ℕ) → IsSound svc (λ c. return (close_row role actor now c))
  unfolding Lifecycle.step
  close-IsSound role actor now c w v =
      (refl, λ m e. mutated-IsValid c _ m (step-IsValid (Lifecycle.close role actor now) c v) e)

  -- What follows a mutation in its transaction leaves the rows.
  mutation_rows :
      {A : Type 0} (id : ℕ) (f : Conversation → Action C M O (Mutated A))
      (k : Mutated A → Action C M O (Unit {0}))
      → ((m : Mutated A) (w : World C M O) → (k m w).1.store.conversations ≡ w.store.conversations)
      → (w : World C M O)
      → ((mutate_conversation svc id f >>= λ m. if_changed svc m (k m)) w).1.store.conversations
        ≡ (Rows.mutate svc id f w).1.store.conversations
  unfolding mutate_conversation if_changed
  mutation_rows id f k same w = elim (Result-cases (Rows.mutate svc id f w).0) [
    | inl (x, e) ↦ ground (arith, e)
    | inr (m, e) ↦ ground (arith, e, same m (Rows.mutate svc id f w).1)
  ]

  transfer_in_transaction-ValidRows :
      (role : String) (id actor to now stamp : ℕ)
      → Keeps (ValidRows svc) (transfer_in_transaction svc role id actor to now stamp)
  unfolding transfer_in_transaction
  transfer_in_transaction-ValidRows role id actor to now stamp =
      same_rows (transfer_in_transaction svc role id actor to now stamp)
        (Rows.mutate svc id (λ c. return (transfer_row role actor to now c)))
        (mutation_rows id (λ c. return (transfer_row role actor to now c)) _
          (λ m. publish_transfer_system_message-conversations svc m.row.id _ m.captured stamp))
        (mutate-ValidRows svc id _ (transfer-IsSound role actor to now))

  confirm_in_transaction-ValidRows :
      (role : String) (id actor stamp : ℕ)
      → Keeps (ValidRows svc) (confirm_in_transaction svc role id actor stamp)
  unfolding confirm_in_transaction
  confirm_in_transaction-ValidRows role id actor stamp =
      same_rows (confirm_in_transaction svc role id actor stamp)
        (Rows.mutate svc id (λ c. return (confirm_row role actor c)))
        (mutation_rows id (λ c. return (confirm_row role actor c)) _
          (λ m. publish_transfer_system_message-conversations svc m.row.id _ m.captured stamp))
        (mutate-ValidRows svc id _ (confirm-IsSound role actor))

  reject_in_transaction-ValidRows :
      (role : String) (id actor stamp : ℕ)
      → Keeps (ValidRows svc) (reject_in_transaction svc role id actor stamp)
  unfolding reject_in_transaction
  reject_in_transaction-ValidRows role id actor stamp =
      same_rows (reject_in_transaction svc role id actor stamp)
        (Rows.mutate svc id (λ c. return (reject_row role actor c)))
        (mutation_rows id (λ c. return (reject_row role actor c)) _
          (λ m. publish_system_message-conversations svc m.row.id _ stamp))
        (mutate-ValidRows svc id _ (reject-IsSound role actor))

  close_in_transaction-ValidRows :
      (role : String) (id actor now : ℕ)
      → Keeps (ValidRows svc) (close_in_transaction svc role id actor now)
  unfolding close_in_transaction
  close_in_transaction-ValidRows role id actor now =
      same_rows (close_in_transaction svc role id actor now)
        (Rows.mutate svc id (λ c. return (close_row role actor now c)))
        (mutation_rows id (λ c. return (close_row role actor now c)) _
          (λ m. emit_conversation_closed-conversations svc m.row.id))
        (mutate-ValidRows svc id _ (close-IsSound role actor now))

  -- A request with a role that is refused or accepted: it leaves the rows, or has run a transaction.
  abbrev Ends :
      {A B : Type 0}
      → Action C M O A
      → (String → Action C M O B)
      → World C M O
      → Result String
      → Type 0
  Ends op inner w (err x) = (op w).1.store.conversations ≡ w.store.conversations
  Ends op inner w (ok role) =
      ((op w).1.store.conversations ≡ w.store.conversations)
      ⊎ ((op w).1.store.conversations
          ≡ (with_event_transaction svc (inner role) w).1.store.conversations)

  pub same_conversations :
      (s t : Store C M O) → s.conversations ≡ t.conversations → ValidRows svc t → ValidRows svc s
  same_conversations s t e h = subst (λ c. All IsValid (svc.conversation_table.rows c)) (sym e) h

  runs-ValidRows :
      {A B : Type 0} (raw : String) (op : Action C M O A) (inner : String → Action C M O B)
      → ((r : Result String) (w : World C M O) → normalize_actor_role raw ≡ r → Ends op inner w r)
      → ((role : String) → Keeps (ValidRows svc) (inner role))
      → Keeps (ValidRows svc) op
  runs-ValidRows raw op inner cases kept w h =
      go (normalize_actor_role raw) (cases (normalize_actor_role raw) w refl)
    where
      go : (r : Result String) → Ends op inner w r → ValidRows svc (op w).1.store
      go (err x) same = same_conversations (op w).1.store w.store same h
      go (ok role) (inl same) = same_conversations (op w).1.store w.store same h
      go (ok role) (inr ran) =
          same_conversations (op w).1.store (with_event_transaction svc (inner role) w).1.store ran
            (Keeps-event_transaction svc (ValidRows svc) (inner role) (kept role) w h)

  transfer-Ends :
      (id actor : ℕ) (raw : String) (to now stamp : ℕ) (r : Result String) (w : World C M O)
      → normalize_actor_role raw ≡ r
      → Ends
          (transfer_conversation svc id actor raw to now stamp)
          (λ role. transfer_in_transaction svc role id actor to now stamp)
          w
          r
  unfolding transfer_conversation
  transfer-Ends id actor raw to now stamp (err x) w e = ground (arith, e)
  transfer-Ends id actor raw to now stamp (ok role) w e = ground (arith, e)

  pub transfer_conversation-ValidRows :
      (id actor : ℕ) (raw : String) (to now stamp : ℕ)
      → Keeps (ValidRows svc) (transfer_conversation svc id actor raw to now stamp)
  transfer_conversation-ValidRows id actor raw to now stamp =
      runs-ValidRows raw (transfer_conversation svc id actor raw to now stamp)
        (λ role. transfer_in_transaction svc role id actor to now stamp)
        (transfer-Ends id actor raw to now stamp)
        (λ role. transfer_in_transaction-ValidRows role id actor to now stamp)

  confirm-Ends :
      (id actor : ℕ) (raw : String) (stamp : ℕ) (r : Result String) (w : World C M O)
      → normalize_actor_role raw ≡ r
      → Ends
          (confirm_transfer_conversation svc id actor raw stamp)
          (λ role. confirm_in_transaction svc role id actor stamp)
          w
          r
  unfolding confirm_transfer_conversation
  confirm-Ends id actor raw stamp (err x) w e = ground (arith, e)
  confirm-Ends id actor raw stamp (ok role) w e = ground (arith, e)

  pub confirm_transfer_conversation-ValidRows :
      (id actor : ℕ) (raw : String) (stamp : ℕ)
      → Keeps (ValidRows svc) (confirm_transfer_conversation svc id actor raw stamp)
  confirm_transfer_conversation-ValidRows id actor raw stamp =
      runs-ValidRows raw (confirm_transfer_conversation svc id actor raw stamp)
        (λ role. confirm_in_transaction svc role id actor stamp) (confirm-Ends id actor raw stamp)
        (λ role. confirm_in_transaction-ValidRows role id actor stamp)

  reject-Ends :
      (id actor : ℕ) (raw : String) (stamp : ℕ) (r : Result String) (w : World C M O)
      → normalize_actor_role raw ≡ r
      → Ends
          (reject_transfer_conversation svc id actor raw stamp)
          (λ role. reject_in_transaction svc role id actor stamp)
          w
          r
  unfolding reject_transfer_conversation
  reject-Ends id actor raw stamp (err x) w e = ground (arith, e)
  reject-Ends id actor raw stamp (ok role) w e = ground (arith, e)

  pub reject_transfer_conversation-ValidRows :
      (id actor : ℕ) (raw : String) (stamp : ℕ)
      → Keeps (ValidRows svc) (reject_transfer_conversation svc id actor raw stamp)
  reject_transfer_conversation-ValidRows id actor raw stamp =
      runs-ValidRows raw (reject_transfer_conversation svc id actor raw stamp)
        (λ role. reject_in_transaction svc role id actor stamp) (reject-Ends id actor raw stamp)
        (λ role. reject_in_transaction-ValidRows role id actor stamp)

  cancel_timer-Reads :
      (c : Conversation) (w : World C M O) → (cancel_timer svc c w).1.store ≡ w.store
  unfolding cancel_timer
  cancel_timer-Reads c w = ground arith

  close-Ends :
      (id actor : ℕ) (raw : String) (now : ℕ) (r : Result String) (w : World C M O)
      → normalize_actor_role raw ≡ r
      → Ends
          (close_conversation svc id actor raw now)
          (λ role. close_in_transaction svc role id actor now)
          w
          r
  unfolding close_conversation
  close-Ends id actor raw now (err x) w e = ground (arith, e)
  close-Ends id actor raw now (ok role) w e =
      let inside = with_event_transaction svc (close_in_transaction svc role id actor now) in
      elim (Result-cases (inside w).0) [
        | inl (x, failed) ↦ ground (arith, e, failed)
        | inr (c, done) ↦ ground (arith, e, done, cancel_timer-Reads c (inside w).1)
      ]

  pub close_conversation-ValidRows :
      (id actor : ℕ) (raw : String) (now : ℕ)
      → Keeps (ValidRows svc) (close_conversation svc id actor raw now)
  close_conversation-ValidRows id actor raw now =
      runs-ValidRows raw (close_conversation svc id actor raw now)
        (λ role. close_in_transaction svc role id actor now) (close-Ends id actor raw now)
        (λ role. close_in_transaction-ValidRows role id actor now)

  claim_cases :
      (id agent : ℕ) (w : World C M O)
      → ((claim_conversation svc id agent w).1.store.conversations ≡ w.store.conversations)
        ⊎ ((claim_conversation svc id agent w).1.store.conversations
            ≡ (Rows.mutate svc id (λ c. return (claim_row agent c)) w).1.store.conversations)
  unfolding claim_conversation
  claim_cases id agent w =
      elim (Result-cases (Rows.mutate svc id (λ c. return (claim_row agent c)) w).0) [
        | inl (x, e) ↦ ground (arith, e)
        | inr (m, e) ↦ ground (arith, e)
      ]

  pub claim_conversation-ValidRows :
      (id agent : ℕ) → Keeps (ValidRows svc) (claim_conversation svc id agent)
  claim_conversation-ValidRows id agent w h =
      let mutation = Rows.mutate svc id (λ c. return (claim_row agent c)) in
      elim (claim_cases id agent w) [
        | inl e ↦ same_conversations (claim_conversation svc id agent w).1.store w.store e h
        | inr e ↦
            same_conversations (claim_conversation svc id agent w).1.store (mutation w).1.store e
              (mutate-ValidRows svc id _ (claim-IsSound agent) w h)
      ]

  new_conversation-IsValid : (site token : String) → IsValid (new_conversation site token)
  new_conversation-IsValid site token = record {
    status_known = inl refl;
    closed_stamped = refl;
    open_unsigned = λ e. refl;
    transfer_whole = refl;
    transfer_timed = refl;
    transfer_owned = λ e. cc;
    transfer_away = λ e. cc;
  }

  create_cases :
      (raw_site raw_token : String) (w : World C M O)
      → ((create_conversation svc raw_site raw_token w).1.store.conversations
          ≡ w.store.conversations)
        ⊎ ((create_conversation svc raw_site raw_token w).1.store.conversations
            ≡ (Rows.create svc
                (new_conversation (trim_space raw_site) (trim_space raw_token))
                w).1.store.conversations)
  unfolding create_conversation
  create_cases raw_site raw_token w = ground arith

  pub create_conversation-ValidRows :
      (site token : String) → Keeps (ValidRows svc) (create_conversation svc site token)
  create_conversation-ValidRows site token w h =
      let c = new_conversation (trim_space site) (trim_space token) in
      elim (create_cases site token w) [
        | inl e ↦ same_conversations (create_conversation svc site token w).1.store w.store e h
        | inr e ↦
            same_conversations (create_conversation svc site token w).1.store
              (Rows.create svc c w).1.store e
              (create-ValidRows svc c
                (new_conversation-IsValid (trim_space site) (trim_space token)) w h)
      ]
