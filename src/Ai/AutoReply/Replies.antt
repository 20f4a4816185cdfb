-- ===== src/Ai/AutoReply/Replies.antt =====
-- When ai-service writes, and how often.
use inline_chat.Ai.AutoReply.{
  Services, Knowledge, MessageCreatedEvent, create_reply, reply_request, is_unattended,
  is_latest_visitor_message, SiteAiConfig, process_visitor_message, reply_text,
}
use inline_chat.Prelude.{
  String, ◌≡◌, ◌⊎◌, true, inl, inr, Bool-cases, refl, str_eq, if◌then◌else◌, not, ap, subst, ◌||◌,
  ◌∙◌, sym,
}
use inline_chat.Realtime.Upstream.{ChatConversation}
use inline_chat.Grpc.{given, Answer-cases}
use inline_chat.Ai.Query.{normalize_query}
use inline_chat.Prelude.Text.{trim_space}
use inline_chat.Errors.{Result, ok}

module _ {W F : Type 0} (s : Services W) (k : Knowledge W F) (unknown : String) where
  -- The conversation is open and has no agent, and the message is its latest, from the visitor.
  abbrev pub IsWaiting : MessageCreatedEvent → W → ChatConversation → Type 0
  IsWaiting e w c =
      (s.get_conversation e.conversation_id w ≡ given c)
      × (is_unattended c ≡ true)
      × (is_latest_visitor_message s k unknown e.conversation_id e.message_id w ≡ true)

  -- The one call of CreateMessage, and what holds when it is made.
  abbrev pub IsReply : MessageCreatedEvent → W → W → Type 0
  IsReply e w w' =
      (reply : String) × (c : ChatConversation) × IsWaiting e w c
      × (w' ≡ (s.create_message e.conversation_id (reply_request s k unknown e reply) w).1)

  create_reply-IsReply :
      (e : MessageCreatedEvent) (reply : String) (w : W)
      → ((create_reply s k unknown e reply w).1 ≡ w)
        ⊎ IsReply e w (create_reply s k unknown e reply w).1
  unfolding create_reply
  create_reply-IsReply e reply w = elim (Answer-cases (s.get_conversation e.conversation_id w)) [
    | inl (x, a) ↦ inl (rw (a, create_reply) refl)
    | inr (c, a) ↦ elim (Bool-cases (is_unattended c)) [
      | inr taken ↦ inl (rw (a, create_reply) (rw taken refl))
      | inl free ↦
          elim (Bool-cases
            (is_latest_visitor_message s k unknown e.conversation_id e.message_id w)) [
              | inr late ↦ inl (rw (a, create_reply) (rw free (rw late refl)))
              | inl now ↦
                  inr (reply, c, (a, free, now), rw (a, create_reply) (rw free (rw now refl)))
            ]
    ]
  ]

  -- What may come of an event: nothing, what the others did meanwhile, or one reply in that state, for a
  -- conversation that was waiting at the beginning as well and whose site has replies enabled.
  abbrev pub IsAnswer : MessageCreatedEvent → (W → W) → W → W → Type 0
  IsAnswer e later w w' =
      (w' ≡ w)
      ⊎ (w' ≡ later w)
      ⊎ ((c : ChatConversation) × (config : SiteAiConfig) × IsWaiting e w c
          × (s.get_site_ai_config c.site_id w ≡ given config)
          × (config.enabled ≡ true)
          × (str_eq (trim_space config.reply_mode) "unassigned_auto_reply" ≡ true)
          × IsReply e (later w) w')

  -- The conversation waits: the settings of its site, and the question.
  attended :
      MessageCreatedEvent → (W → W) → W → ChatConversation → SiteAiConfig → Result (Unit {0}) × W
  attended e later w c config =
      if not config.enabled || not (str_eq (trim_space config.reply_mode) "unassigned_auto_reply")
      then (ok tt, w)
      else if not (is_latest_visitor_message s k unknown e.conversation_id e.message_id w)
      then (ok tt, w)
      else if str_eq (normalize_query e.content) ""
      then (ok tt, w)
      else create_reply s k unknown e (reply_text s k unknown c e (normalize_query e.content) w)
          (later w)

  attended-IsAnswer :
      (e : MessageCreatedEvent) (later : W → W) (w : W) (c : ChatConversation)
      (config : SiteAiConfig)
      → s.get_conversation e.conversation_id w ≡ given c
      → is_unattended c ≡ true
      → s.get_site_ai_config c.site_id w ≡ given config
      → IsAnswer e later w (attended e later w c config).1
  unfolding attended
  attended-IsAnswer e later w c config a free b =
      let reply =
        create_reply-IsReply e (reply_text s k unknown c e (normalize_query e.content) w)
          (later w) in
      elim (Bool-cases config.enabled) [
        | inr off ↦ inl (rw (off, attended) refl)
        | inl on ↦
            elim (Bool-cases (str_eq (trim_space config.reply_mode) "unassigned_auto_reply")) [
              | inr other ↦ inl (rw (on, attended) (rw other refl))
              | inl auto ↦
                  elim (Bool-cases
                    (is_latest_visitor_message s k unknown e.conversation_id e.message_id w)) [
                      | inr late ↦ inl (rw (on, attended) (rw auto (rw late refl)))
                      | inl now ↦ elim (Bool-cases (str_eq (normalize_query e.content) "")) [
                        | inl bare ↦ inl (rw (on, attended) (rw auto (rw now (rw bare refl))))
                        | inr asked ↦
                            let text = reply_text s k unknown c e (normalize_query e.content) w in
                            let step : attended e later w c config
                                ≡ create_reply s k unknown e text (later w) =
                              rw (on, attended) (rw auto (rw now (rw asked refl))) in
                            let world = ap (λ o. o.1) step in
                            elim reply [
                              | inl same ↦ inr (inl (world ∙ same))
                              | inr (said, d, waits, made) ↦ inr (
                                  inr (
                                    c,
                                    config,
                                    (a, free, now),
                                    b,
                                    on,
                                    auto,
                                    (said, d, waits, world ∙ made),
                                  ))
                            ]
                      ]
                    ]
            ]
      ]

  pub process_visitor_message-IsAnswer :
      (e : MessageCreatedEvent) (later : W → W) (w : W)
      → IsAnswer e later w (process_visitor_message s k unknown e later w).1
  unfolding process_visitor_message attended
  process_visitor_message-IsAnswer e later w =
      let query = normalize_query e.content in
      elim (Answer-cases (s.get_conversation e.conversation_id w)) [
        | inl (x, a) ↦ inl (rw (a, process_visitor_message) refl)
        | inr (c, a) ↦ elim (Bool-cases (is_unattended c)) [
          | inr taken ↦ inl (rw (a, process_visitor_message) (rw taken refl))
          | inl free ↦ elim (Answer-cases (s.get_site_ai_config c.site_id w)) [
            | inl (x, b) ↦ inl (rw (a, process_visitor_message) (rw free (rw b refl)))
            | inr (config, b) ↦
                let step : process_visitor_message s k unknown e later w
                    ≡ attended e later w c config =
                  rw (a, process_visitor_message) (rw free (rw b refl)) in
                subst (λ o. IsAnswer e later w o.1) (sym step)
                  (attended-IsAnswer e later w c config a free b)
          ]
        ]
      ]
