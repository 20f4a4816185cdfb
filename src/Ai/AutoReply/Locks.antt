-- ===== src/Ai/AutoReply/Locks.antt =====
-- The lock of an event.
use inline_chat.Ai.AutoReply.{
  Services, Knowledge, Redis, MessageCreatedEvent, handle_parsed, build_reply_lock_key, AiState,
  release, handle_event, RawEvent, process_visitor_message, parse_message_created_event,
}
use inline_chat.Prelude.{
  String, List, str_eq, ◌≡◌, not, true, arith, some, refl, Bool-cases, ◌||◌, inl, inr, Option-cases,
  ◌⊎◌, ◌∙◌, false, sym, Option, ◌≢◌, none, subst, ap, eq_iff,
}
use inline_chat.Errors.{Result, ok, err, failed}
use inline_chat.Realtime.Origins.{has_text}
use inline_chat.Prelude.Text.{trim_space}
use inline_chat.Ai.AutoReply.Replies.{IsAnswer, process_visitor_message-IsAnswer}

-- A handled event has its lock, or its state is as it was.
release-held :
    {W F : Type 0} (s : Services W) (k : Knowledge W F) (unknown : String) (redis : Redis W)
    (key : String) (out : Result (Unit {0}) × W) (held : List String)
    → (release s k unknown redis key out held).0 ≡ ok tt
    → has_text key (release s k unknown redis key out held).1.locks ≡ true
release-held s k unknown redis key (ok x, w) held e = ground (arith, (eq_iff key key).1 refl)
release-held s k unknown redis key (err x, w) held e = absurd (ground (arith, e))

release-world :
    {W F : Type 0} (s : Services W) (k : Knowledge W F) (unknown : String) (redis : Redis W)
    (key : String) (out : Result (Unit {0}) × W) (held : List String)
    → (release s k unknown redis key out held).1.world ≡ out.1
release-world s k unknown redis key (ok x, w) held = refl
release-world s k unknown redis key (err x, w) held = refl

refused : {text : String} (r : Result (Unit {0})) → r ≡ err (failed text) → r ≢ ok tt
refused r e f = ground (arith, e, f)

module _ {W F : Type 0} (s : Services W) (k : Knowledge W F) (unknown : String)
    (redis : Redis W) where
  handle_parsed-other :
      (e : MessageCreatedEvent) (later : W → W) (st : AiState W)
      → (not (str_eq e.sender_type "visitor") || str_eq (trim_space e.content) "") ≡ true
      → (handle_parsed s k unknown redis (some e) later st).1 ≡ st
  unfolding handle_parsed
  handle_parsed-other e later st other = rw (other, handle_parsed) refl

  handle_parsed-held :
      (e : MessageCreatedEvent) (later : W → W) (st : AiState W)
      → has_text (build_reply_lock_key e.conversation_id e.message_id) st.locks ≡ true
      → (handle_parsed s k unknown redis (some e) later st).1 ≡ st
  unfolding handle_parsed
  handle_parsed-held e later st held =
      elim (Bool-cases (not (str_eq e.sender_type "visitor") || str_eq (trim_space e.content) "")) [
        | inl other ↦ handle_parsed-other e later st other
        | inr question ↦ elim (Option-cases (redis.set_nx_error st.world)) [
          | inl reached ↦ rw (question, handle_parsed) (rw reached (rw held refl))
          | inr (text, down) ↦ rw (question, handle_parsed) (rw down refl)
        ]
      ]

  -- What is left when an event is handled without an error: its lock, or it is no question.
  IsSettled : MessageCreatedEvent → List String → Type 0
  IsSettled e locks =
      ((not (str_eq e.sender_type "visitor") || str_eq (trim_space e.content) "") ≡ true)
      ⊎ (has_text (build_reply_lock_key e.conversation_id e.message_id) locks ≡ true)

  handle_parsed-locks :
      (e : MessageCreatedEvent) (later : W → W) (st : AiState W)
      → (not (str_eq e.sender_type "visitor") || str_eq (trim_space e.content) "") ≡ false
      → redis.set_nx_error st.world ≡ none
      → has_text (build_reply_lock_key e.conversation_id e.message_id) st.locks ≡ false
      → handle_parsed s k unknown redis (some e) later st
        ≡ release s k unknown redis
            (build_reply_lock_key e.conversation_id e.message_id)
            (process_visitor_message s k unknown e later st.world)
            st.locks
  unfolding handle_parsed
  handle_parsed-locks e later st question reached free =
      rw (question, handle_parsed) (rw reached (rw free refl))

  handle_parsed-IsSettled :
      (e : MessageCreatedEvent) (later : W → W) (st : AiState W)
      → (handle_parsed s k unknown redis (some e) later st).0 ≡ ok tt
      → IsSettled e (handle_parsed s k unknown redis (some e) later st).1.locks
  unfolding handle_parsed IsSettled
  handle_parsed-IsSettled e later st done =
      elim (Bool-cases (not (str_eq e.sender_type "visitor") || str_eq (trim_space e.content) "")) [
        | inl other ↦ inl other
        | inr question ↦ elim (Option-cases (redis.set_nx_error st.world)) [
          | inr (text, down) ↦ absurd (
              refused {text = text} (handle_parsed s k unknown redis (some e) later st).0
                (rw (question, handle_parsed) (rw down refl)) done)
          | inl reached ↦
              elim (Bool-cases
                (has_text (build_reply_lock_key e.conversation_id e.message_id) st.locks)) [
                  | inl held ↦ inr (
                      subst
                        (λ o.
                          has_text (build_reply_lock_key e.conversation_id e.message_id) o.locks
                          ≡ true)
                        (sym (handle_parsed-held e later st held)) held)
                  | inr free ↦
                      let key = build_reply_lock_key e.conversation_id e.message_id in
                      let out = process_visitor_message s k unknown e later st.world in
                      let step = handle_parsed-locks e later st question reached free in
                      inr (
                        subst (λ o. has_text key o.1.locks ≡ true) (sym step)
                          (release-held s k unknown redis key out st.locks
                            (ap (λ o. o.0) (sym step) ∙ done)))
                ]
        ]
      ]

  handle_parsed-once :
      (e : Option MessageCreatedEvent) (later later' : W → W) (st : AiState W) (w : W)
      → (handle_parsed s k unknown redis e later st).0 ≡ ok tt
      → (handle_parsed s k unknown redis e later'
          (record { locks = (handle_parsed s k unknown redis e later st).1.locks; world = w })).1
        ≡ record { locks = (handle_parsed s k unknown redis e later st).1.locks; world = w }
  unfolding handle_parsed IsSettled
  handle_parsed-once none later later' st w done = refl
  handle_parsed-once (some e) later later' st w done =
      let again : AiState W = record {
        locks = (handle_parsed s k unknown redis (some e) later st).1.locks;
        world = w;
      } in
      elim (handle_parsed-IsSettled e later st done) [
        | inl other ↦ handle_parsed-other e later' again other
        | inr held ↦ handle_parsed-held e later' again held
      ]

  -- An event that is handled without an error is not handled again while its lock lasts: when it comes
  -- once more, whatever has happened to the conversation in between, nothing is written and no lock is
  -- taken.
  pub handle_event-once :
      (raw : Option RawEvent) (later later' : W → W) (st : AiState W) (w : W)
      → (handle_event s k unknown redis raw later st).0 ≡ ok tt
      → (handle_event s k unknown redis raw later'
          (record { locks = (handle_event s k unknown redis raw later st).1.locks; world = w })).1
        ≡ record { locks = (handle_event s k unknown redis raw later st).1.locks; world = w }
  unfolding handle_event
  handle_event-once raw later later' st w done =
      handle_parsed-once (parse_message_created_event raw) later later' st w done

  handle_parsed-IsAnswer :
      (e : MessageCreatedEvent) (later : W → W) (st : AiState W)
      → ((handle_parsed s k unknown redis (some e) later st).1 ≡ st)
        ⊎ (((not (str_eq e.sender_type "visitor") || str_eq (trim_space e.content) "") ≡ false)
            × (has_text (build_reply_lock_key e.conversation_id e.message_id) st.locks ≡ false)
            × IsAnswer s k unknown e later st.world
                (handle_parsed s k unknown redis (some e) later st).1.world)
  unfolding handle_parsed
  handle_parsed-IsAnswer e later st =
      elim (Bool-cases (not (str_eq e.sender_type "visitor") || str_eq (trim_space e.content) "")) [
        | inl other ↦ inl (handle_parsed-other e later st other)
        | inr question ↦ elim (Option-cases (redis.set_nx_error st.world)) [
          | inr (text, down) ↦ inl (rw (question, handle_parsed) (rw down refl))
          | inl reached ↦
              elim (Bool-cases
                (has_text (build_reply_lock_key e.conversation_id e.message_id) st.locks)) [
                  | inl held ↦ inl (handle_parsed-held e later st held)
                  | inr free ↦
                      let out = process_visitor_message s k unknown e later st.world in
                      let key = build_reply_lock_key e.conversation_id e.message_id in
                      let world =
                        ap (λ o. o.1.world) (handle_parsed-locks e later st question reached free)
                        ∙ release-world s k unknown redis key out st.locks in
                      inr (
                        question,
                        free,
                        subst (IsAnswer s k unknown e later st.world) (sym world)
                            (process_visitor_message-IsAnswer s k unknown e later st.world),
                      )
                ]
        ]
      ]

  -- A reply is written only for an event that names a visitor's message and whose lock was free: it is one
  -- message, for a conversation that was open, without an agent and ended with that message, both when the
  -- event came and when the reply is written, and whose site has automatic replies enabled.
  pub handle_event-IsAnswer :
      (raw : Option RawEvent) (later : W → W) (st : AiState W)
      → ((handle_event s k unknown redis raw later st).1 ≡ st)
        ⊎ ((e : MessageCreatedEvent) × (parse_message_created_event raw ≡ some e)
            × ((not (str_eq e.sender_type "visitor") || str_eq (trim_space e.content) "") ≡ false)
            × (has_text (build_reply_lock_key e.conversation_id e.message_id) st.locks ≡ false)
            × IsAnswer s k unknown e later st.world
                (handle_event s k unknown redis raw later st).1.world)
  unfolding handle_event handle_parsed
  handle_event-IsAnswer raw later st = elim (Option-cases (parse_message_created_event raw)) [
    | inl a ↦ inl (rw (a, handle_event) refl)
    | inr (e, a) ↦ elim (handle_parsed-IsAnswer e later st) [
      | inl same ↦ inl (rw (a, handle_event) same)
      | inr (question, free, answer) ↦ inr (e, a, question, free, rw (a, handle_event) answer)
    ]
  ]
