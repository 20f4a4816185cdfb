-- ===== src/Chat/AutoClose/Validity.antt =====
-- The automatic closers keep every row of the conversations table valid.
use inline_chat.Chat.Lifecycle.Requests as Lifecycle
use inline_chat.Chat.Repository.Conversations as Rows
use inline_chat.Chat.Repository.Messages
use inline_chat.Prelude.{
  ℕ, ◌≡◌, arith, [], ◌∷◌, refl, some, sym, zero, suc, inl, inr, ◌⊎◌, List, subst, Bool, ◌+◌, Option,
  if◌then◌else◌, Bool-cases,
}
use inline_chat.Chat.World.{Service, World}
use inline_chat.Chat.AutoClose.{
  time_out_mutation, inactive_mutation, announce_timeout, time_out_in_transaction, settle_timer,
  auto_close_conversation_by_timeout, fire_timer, announce_inactive, inactive_in_transaction,
  sweep_one, sweep_turn, sweep_each, open_conversation_ids, Timeout, batch_size, Sweep,
  auto_close_inactive_conversations, restore_one, restore_each, start_auto_close_scheduler,
}
use inline_chat.Chat.World.Rules.{Keeps}
use inline_chat.Chat.Repository.Conversations.Validity.{IsSound, ValidRows, mutate-ValidRows}
use inline_chat.Errors.{Result, Result-cases, err, ok}
use inline_chat.Chat.Conversations.Validity.{mutated-IsValid, same_conversations}
use inline_chat.Chat.Lifecycle.{Mutated}
use inline_chat.Chat.Events.{with_event_transaction}
use inline_chat.Chat.Scheduler.{fire}
use inline_chat.Chat.Model.{Message}
use inline_chat.Chat.Lifecycle.Invariant.{step-IsValid}
use inline_chat.Chat.Events.Rules.{Keeps-event_transaction}
use inline_chat.Chat.Events.Conversations.{emit_conversation_closed-conversations}
use inline_chat.Prelude.Int.{pos, negsuc, ℤ}

module _ {C M O : Type 0} (svc : Service C M O) where
  time_out-IsSound : (now : ℕ) → IsSound svc (time_out_mutation svc now)
  unfolding Lifecycle.step time_out_mutation
  time_out-IsSound now c w v = (
    refl,
    λ m e.
        mutated-IsValid c _ m
          (step-IsValid
            (Lifecycle.time_out svc.auto_close_after now
              (Messages.get_latest_excluding_system svc c.id w).0)
            c v)
          e,
  )

  inactive-IsSound :
      (started inactivity now : ℕ) → IsSound svc (inactive_mutation svc started inactivity now)
  unfolding Lifecycle.step inactive_mutation
  inactive-IsSound started inactivity now c w v = (
    refl,
    λ m e.
        mutated-IsValid c _ m
          (step-IsValid
            (Lifecycle.expire started inactivity now
              (Messages.get_latest_excluding_system svc c.id w).0)
            c v)
          e,
  )

  announce_timeout-conversations :
      (id : ℕ) (r : Result (Mutated (Option ℕ))) (w : World C M O)
      → (announce_timeout svc id r w).1.store.conversations ≡ w.store.conversations
  unfolding announce_timeout
  announce_timeout-conversations id (err x) w = ground arith
  announce_timeout-conversations id (ok m) w =
      ground (arith, emit_conversation_closed-conversations svc id w)

  time_out_in_transaction-ValidRows :
      (id now : ℕ) → Keeps (ValidRows svc) (time_out_in_transaction svc id now)
  unfolding time_out_in_transaction
  time_out_in_transaction-ValidRows id now w h =
      let mutated = Rows.mutate svc id (time_out_mutation svc now) w in
      same_conversations svc (time_out_in_transaction svc id now w).1.store mutated.1.store
        (announce_timeout-conversations id mutated.0 mutated.1)
        (mutate-ValidRows svc id _ (time_out-IsSound now) w h)

  settle_timer-store :
      (id now : ℕ) (t : Timeout) (w : World C M O) → (settle_timer svc id now t w).1.store ≡ w.store
  unfolding settle_timer
  settle_timer-store id now t w = ground arith

  timeout_cases :
      (id now : ℕ) (w : World C M O)
      → ((auto_close_conversation_by_timeout svc id now w).1.store ≡ w.store)
        ⊎ ((auto_close_conversation_by_timeout svc id now w).1.store
            ≡ (with_event_transaction svc (time_out_in_transaction svc id now) w).1.store)
  unfolding auto_close_conversation_by_timeout
  timeout_cases id now w =
      let inside = with_event_transaction svc (time_out_in_transaction svc id now) in
      elim (Result-cases (inside w).0) [
        | inl (x, e) ↦ ground (arith, e)
        | inr (t, e) ↦ ground (arith, e, settle_timer-store id now t (inside w).1)
      ]

  -- The close of one conversation by the clock.
  pub auto_close_by_timeout-ValidRows :
      (id now : ℕ) → Keeps (ValidRows svc) (auto_close_conversation_by_timeout svc id now)
  auto_close_by_timeout-ValidRows id now w h = elim (timeout_cases id now w) [
    | inl e ↦ subst (ValidRows svc) (sym e) h
    | inr e ↦ subst (ValidRows svc) (sym e) (
        Keeps-event_transaction svc (ValidRows svc) (time_out_in_transaction svc id now)
          (time_out_in_transaction-ValidRows id now) w h)
  ]

  fire_cases :
      (id due now : ℕ) (w : World C M O)
      → ((fire_timer svc id due now w).1.store ≡ w.store)
        ⊎ ((fire_timer svc id due now w).1.store
            ≡ (auto_close_conversation_by_timeout svc id now
                (record w { timers = (fire id due w.timers).0 })).1.store)
  unfolding fire_timer
  fire_cases id due now w = ground arith

  -- A timer that goes off.
  pub fire_timer-ValidRows : (id due now : ℕ) → Keeps (ValidRows svc) (fire_timer svc id due now)
  fire_timer-ValidRows id due now w h = elim (fire_cases id due now w) [
    | inl e ↦ subst (ValidRows svc) (sym e) h
    | inr e ↦ subst (ValidRows svc) (sym e) (auto_close_by_timeout-ValidRows id now _ h)
  ]

  announce_inactive-conversations :
      (id : ℕ) (r : Result (Mutated (Unit {0}))) (w : World C M O)
      → (announce_inactive svc id r w).1.store.conversations ≡ w.store.conversations
  unfolding announce_inactive
  announce_inactive-conversations id (err x) w = ground arith
  announce_inactive-conversations id (ok m) w =
      ground (arith, emit_conversation_closed-conversations svc id w)

  inactive_in_transaction-ValidRows :
      (started inactivity now id : ℕ)
      → Keeps (ValidRows svc) (inactive_in_transaction svc started inactivity now id)
  unfolding inactive_in_transaction
  inactive_in_transaction-ValidRows started inactivity now id w h =
      let mutated = Rows.mutate svc id (inactive_mutation svc started inactivity now) w in
      same_conversations svc (inactive_in_transaction svc started inactivity now id w).1.store
        mutated.1.store (announce_inactive-conversations id mutated.0 mutated.1)
        (mutate-ValidRows svc id _ (inactive-IsSound started inactivity now) w h)

  sweep_one_cases :
      (started inactivity now id : ℕ) (r : Result Message) (w : World C M O)
      → ((sweep_one svc started inactivity now id r w).1.store ≡ w.store)
        ⊎ ((sweep_one svc started inactivity now id r w).1.store
            ≡ (with_event_transaction svc
                (inactive_in_transaction svc started inactivity now id)
                w).1.store)
  unfolding sweep_one
  sweep_one_cases started inactivity now id (err x) w = ground arith
  sweep_one_cases started inactivity now id (ok m) w = ground arith

  sweep_turn-ValidRows :
      (started inactivity now id : ℕ)
      → Keeps (ValidRows svc) (sweep_turn svc started inactivity now id)
  unfolding sweep_turn
  sweep_turn-ValidRows started inactivity now id w h =
      elim (sweep_one_cases started inactivity now id
        (Messages.get_latest_excluding_system svc id w).0 w) [
          | inl e ↦ subst (ValidRows svc) (sym e) h
          | inr e ↦ subst (ValidRows svc) (sym e) (
              Keeps-event_transaction svc (ValidRows svc)
                (inactive_in_transaction svc started inactivity now id)
                (inactive_in_transaction-ValidRows started inactivity now id) w h)
        ]

  sweep_each-ValidRows :
      (started inactivity now : ℕ) (ids : List ℕ) (count : ℕ) (w : World C M O)
      → ValidRows svc w.store
      → ValidRows svc (sweep_each svc started inactivity now ids count w).1.store
  unfolding sweep_each
  sweep_each-ValidRows started inactivity now [] count w h = h
  sweep_each-ValidRows started inactivity now (id ∷ ids) count w h =
      go (sweep_turn svc started inactivity now id w)
        (sweep_turn-ValidRows started inactivity now id w h)
        (λ closed.
          sweep_each-ValidRows started inactivity now ids (if closed then suc count else count))
    where
      go :
          (p : Result Bool × World C M O)
          → ValidRows svc p.1.store
          → ((closed : Bool) (w' : World C M O)
              → ValidRows svc w'.store
              → ValidRows svc
                  (sweep_each svc started inactivity now ids
                    (if closed then suc count else count)
                    w').1.store)
          → ValidRows svc
              (let out : Sweep × World C M O = elim (p.0) [
                | err e ↦ (record { count = count; error = some e }, p.1)
                | ok closed ↦
                    sweep_each svc started inactivity now ids
                      (if closed then suc count else count)
                      p.1
              ] in
                out).1.store
      go (err x, w') k rest = k
      go (ok closed, w') k rest = rest closed w' k

  open_conversation_ids-Reads :
      (fuel offset : ℕ) (w : World C M O) → (open_conversation_ids svc fuel offset w).1 ≡ w
  unfolding open_conversation_ids
  open_conversation_ids-Reads zero offset w = refl
  open_conversation_ids-Reads (suc fuel) offset w =
      ground (arith, open_conversation_ids-Reads fuel (offset + batch_size) w)

  sweep_cases :
      (fuel : ℕ) (inactivity : ℤ) (started now : ℕ) (w : World C M O)
      → ((auto_close_inactive_conversations svc fuel inactivity started now w).1.store ≡ w.store)
        ⊎ ((ids : List ℕ) × (n : ℕ) × ((auto_close_inactive_conversations svc fuel inactivity
                started now w).1.store
              ≡ (sweep_each svc started (suc n) now ids 0 w).1.store))
  unfolding auto_close_inactive_conversations
  sweep_cases fuel (negsuc n) started now w = inl refl
  sweep_cases fuel (pos zero) started now w = inl refl
  sweep_cases fuel (pos (suc n)) started now w =
      elim (Result-cases (open_conversation_ids svc fuel 0 w).0) [
        | inl (x, e) ↦ inl (ground (arith, e, open_conversation_ids-Reads fuel 0 w))
        | inr (ids, e) ↦ inr (ids, n, ground (arith, e, open_conversation_ids-Reads fuel 0 w))
      ]

  -- The closing of all idle conversations.
  pub auto_close_inactive-ValidRows :
      (fuel : ℕ) (inactivity : ℤ) (started now : ℕ) (w : World C M O)
      → ValidRows svc w.store
      → ValidRows svc (auto_close_inactive_conversations svc fuel inactivity started now w).1.store
  auto_close_inactive-ValidRows fuel inactivity started now w h =
      elim (sweep_cases fuel inactivity started now w) [
        | inl e ↦ subst (ValidRows svc) (sym e) h
        | inr (ids, n, e) ↦
            subst (ValidRows svc) (sym e) (sweep_each-ValidRows started (suc n) now ids 0 w h)
      ]

  restore_one_cases :
      (now id : ℕ) (r : Result Message) (w : World C M O)
      → ((restore_one svc now id r w).1.store ≡ w.store)
        ⊎ ((restore_one svc now id r w).1.store
            ≡ (auto_close_conversation_by_timeout svc id now w).1.store)
  unfolding restore_one
  restore_one_cases now id (err x) w = ground arith
  restore_one_cases now id (ok m) w = ground arith

  restore_one-ValidRows :
      (now id : ℕ) (r : Result Message) → Keeps (ValidRows svc) (restore_one svc now id r)
  restore_one-ValidRows now id r w h = elim (restore_one_cases now id r w) [
    | inl e ↦ subst (ValidRows svc) (sym e) h
    | inr e ↦ subst (ValidRows svc) (sym e) (auto_close_by_timeout-ValidRows id now w h)
  ]

  restore_each_step :
      (now id : ℕ) (ids : List ℕ) (w : World C M O)
      → let one = restore_one svc now id (Messages.get_latest_excluding_system svc id w).0 w in
        ((restore_each svc now (id ∷ ids) w).1.store ≡ one.1.store)
        ⊎ ((restore_each svc now (id ∷ ids) w).1.store ≡ (restore_each svc now ids one.1).1.store)
  unfolding restore_each
  restore_each_step now id ids w =
      let one = restore_one svc now id (Messages.get_latest_excluding_system svc id w).0 w in
      elim (Result-cases one.0) [
        | inl (x, e) ↦ inl (ground (arith, e))
        | inr (a, e) ↦ inr (ground (arith, e))
      ]

  restore_each-ValidRows :
      (now : ℕ) (ids : List ℕ) → Keeps (ValidRows svc) (restore_each svc now ids)
  restore_each-ValidRows now [] w h = unfold restore_each in h
  restore_each-ValidRows now (id ∷ ids) w h =
      let latest = (Messages.get_latest_excluding_system svc id w).0 in
      let kept = restore_one-ValidRows now id latest w h in
      elim (restore_each_step now id ids w) [
        | inl e ↦ subst (ValidRows svc) (sym e) kept
        | inr e ↦
            subst (ValidRows svc) (sym e)
              (restore_each-ValidRows now ids (restore_one svc now id latest w).1 kept)
      ]

  start_cases :
      (fuel now : ℕ) (w : World C M O)
      → ((start_auto_close_scheduler svc fuel now w).1.store ≡ w.store)
        ⊎ ((ids : List ℕ) × ((start_auto_close_scheduler svc fuel now w).1.store
              ≡ (restore_each svc now ids w).1.store))
  unfolding start_auto_close_scheduler
  start_cases fuel now w = elim (Bool-cases svc.has_scheduler) [
    | inr off ↦ inl (ground (arith, off))
    | inl on ↦ elim (Result-cases (open_conversation_ids svc fuel 0 w).0) [
      | inl (x, e) ↦ inl (ground (arith, e, on, open_conversation_ids-Reads fuel 0 w))
      | inr (ids, e) ↦ inr (ids, ground (arith, e, on, open_conversation_ids-Reads fuel 0 w))
    ]
  ]

  -- The start of the scheduler.
  pub start_auto_close-ValidRows :
      (fuel now : ℕ) → Keeps (ValidRows svc) (start_auto_close_scheduler svc fuel now)
  start_auto_close-ValidRows fuel now w h = elim (start_cases fuel now w) [
    | inl e ↦ subst (ValidRows svc) (sym e) h
    | inr (ids, e) ↦ subst (ValidRows svc) (sym e) (restore_each-ValidRows now ids w h)
  ]
