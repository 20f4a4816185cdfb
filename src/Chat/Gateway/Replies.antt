-- ===== src/Chat/Gateway/Replies.antt =====
-- What a caller of the gRPC servers can rely on: the status of an error, and what a refused call
-- leaves behind.
use inline_chat.Prelude.{
  ℕ, String, ◌≡◌, ◌≢◌, ◌⊎◌, arith, inl, inr, true, false, some, Option-cases, refl,
}
use inline_chat.Errors.{
  Error, Result, ok, err, Result-cases, is_err, error_text, conversation_not_found,
  conversation_already_claimed, conversation_unassigned, conversation_closed, transfer_pending,
  transfer_not_pending, message_not_found, forbidden, not_found, invalid, failed, wrapped,
  unauthorized, invalid_credentials, conflict, invalid_session, resource_not_found,
}
use inline_chat.Prelude.Int.{pos, positive_or}
use inline_chat.Chat.Service.{
  Request, serve, ignoring, creates, gets, lists, claims, transfers, confirms, rejects, closes,
  posts, reads, lists_messages,
}
use inline_chat.Chat.Service.Atomicity.{serve-atomic}
use inline_chat.Chat.Gateway.{
  internal, map_error, status_of_text, sentinel_code, is_refused, Call, handle, forward, forwarded,
  Body, to_reply, guards, first_fault, agent_filter, message_limit, create_conversation_call,
  get_conversation_call, list_conversations_call, create_message_call, list_messages_call,
  mark_messages_read_call, claim_call, transfer_call, confirm_call, reject_call, close_call,
  conversation_body, conversations_body, message_body, messages_body, updated_count,
}
use inline_chat.Chat.World.{Service, World, Action}
use inline_chat.Chat.Conversations.{
  create_conversation, get_conversation, list_conversations, claim_conversation,
  transfer_conversation, confirm_transfer_conversation, reject_transfer_conversation,
  close_conversation,
}
use inline_chat.Chat.Messages.{create_message, list_messages, mark_messages_read}

sentinel_not_internal : (e : Error) → sentinel_code e ≢ some internal
sentinel_not_internal conversation_not_found h = cc
sentinel_not_internal message_not_found h = cc
sentinel_not_internal forbidden h = cc
sentinel_not_internal conversation_already_claimed h = cc
sentinel_not_internal conversation_unassigned h = cc
sentinel_not_internal conversation_closed h = cc
sentinel_not_internal transfer_pending h = cc
sentinel_not_internal transfer_not_pending h = cc
sentinel_not_internal (wrapped s e) h = sentinel_not_internal e h
sentinel_not_internal unauthorized h = cc
sentinel_not_internal invalid_credentials h = cc
sentinel_not_internal conflict h = cc
sentinel_not_internal invalid_session h = cc
sentinel_not_internal resource_not_found h = cc
sentinel_not_internal not_found h = cc
sentinel_not_internal (invalid s) h = cc
sentinel_not_internal (failed s) h = cc

status_of_text-cases :
    (text : String)
    → (status_of_text text ≡ record { code = internal; text = "internal error" })
      ⊎ (((status_of_text text).text ≡ text) × ((status_of_text text).code ≢ internal))
unfolding status_of_text
status_of_text-cases text = ground arith

-- A status is either Internal, and then its text says nothing of the error, or it has another code
-- and the error's own text.
pub map_error-cases :
    (e : Error)
    → (map_error e ≡ record { code = internal; text = "internal error" })
      ⊎ (((map_error e).text ≡ error_text e) × ((map_error e).code ≢ internal))
unfolding map_error
map_error-cases e = ground (arith, sentinel_not_internal e, status_of_text-cases (error_text e))

refused-to_reply :
    {A : Type 0} (view : A → Body) (r : Result A) → is_refused (to_reply view r) ≡ is_err r
unfolding to_reply
refused-to_reply view (ok a) = refl
refused-to_reply view (err e) = refl

-- The request of the service that a call forwards.
abbrev pub request_of : Call → Request
request_of (create_conversation_call site token) = creates site token
request_of (get_conversation_call id) = gets id
request_of (list_conversations_call state site agent unassigned limit offset) =
    lists state site (agent_filter agent) unassigned (pos (positive_or 50 limit)) offset
request_of (create_message_call input now) = posts input now
request_of (list_messages_call id limit before) = lists_messages id (message_limit limit) before
request_of (mark_messages_read_call id last actor_type agent token) =
    reads id last actor_type agent token
request_of (claim_call id agent) = claims id agent
request_of (transfer_call id actor role to now stamp) = transfers id actor role to now stamp
request_of (confirm_call id actor role stamp) = confirms id actor role stamp
request_of (reject_call id actor role stamp) = rejects id actor role stamp
request_of (close_call id actor role now) = closes id actor role now

module _ {C M O : Type 0} (format_time : ℕ → String) (svc : Service C M O) where
  -- A reply and a result agree on success and on the database.
  abbrev pub Agrees : Call → World C M O → Type 0
  Agrees call w =
      (is_refused (forward format_time svc call w).0 ≡ is_err (serve svc (request_of call) w).0)
      × ((forward format_time svc call w).1.store ≡ (serve svc (request_of call) w).1.store)

  forwarded-ignoring :
      {A : Type 0} (view : A → Body) (m : Action C M O A) (w : World C M O)
      → (is_refused (forwarded format_time svc view m w).0 ≡ is_err (ignoring m w).0)
        × ((forwarded format_time svc view m w).1.store ≡ (ignoring m w).1.store)
  unfolding forwarded
  forwarded-ignoring view m w = elim (Result-cases (m w).0) [
    | inl (x, e) ↦ ground (arith, e, refused-to_reply view (m w).0)
    | inr (a, e) ↦ ground (arith, e, refused-to_reply view (m w).0)
  ]

  forward-serve : (call : Call) (w : World C M O) → Agrees call w
  unfolding forward serve
  forward-serve (create_conversation_call site token) w =
      forwarded-ignoring (conversation_body format_time) (create_conversation svc site token) w
  forward-serve (get_conversation_call id) w =
      forwarded-ignoring (conversation_body format_time) (get_conversation svc id) w
  forward-serve (list_conversations_call state site agent unassigned limit offset) w =
      forwarded-ignoring (conversations_body format_time)
        (list_conversations svc state site (agent_filter agent) unassigned
          (pos (positive_or 50 limit)) offset)
        w
  forward-serve (create_message_call input now) w =
      forwarded-ignoring (message_body format_time) (create_message svc input now) w
  forward-serve (list_messages_call id limit before) w =
      forwarded-ignoring (messages_body format_time)
        (list_messages svc id (message_limit limit) before) w
  forward-serve (mark_messages_read_call id last actor_type agent token) w =
      forwarded-ignoring updated_count (mark_messages_read svc id last actor_type agent token) w
  forward-serve (claim_call id agent) w =
      forwarded-ignoring (conversation_body format_time) (claim_conversation svc id agent) w
  forward-serve (transfer_call id actor role to now stamp) w =
      forwarded-ignoring (conversation_body format_time)
        (transfer_conversation svc id actor role to now stamp) w
  forward-serve (confirm_call id actor role stamp) w =
      forwarded-ignoring (conversation_body format_time)
        (confirm_transfer_conversation svc id actor role stamp) w
  forward-serve (reject_call id actor role stamp) w =
      forwarded-ignoring (conversation_body format_time)
        (reject_transfer_conversation svc id actor role stamp) w
  forward-serve (close_call id actor role now) w =
      forwarded-ignoring (conversation_body format_time) (close_conversation svc id actor role now)
        w

  -- Where events go through the outbox, a gRPC call that is answered with a status has left the
  -- database as it was.
  pub handle-atomic :
      (call : Call) (w : World C M O)
      → svc.outbox_enabled ≡ true
      → w.in_transaction ≡ false
      → is_refused (handle format_time svc call w).0 ≡ true
      → (handle format_time svc call w).1.store ≡ w.store
  unfolding handle
  handle-atomic call w on outside h = elim (Option-cases (first_fault (guards call))) [
    | inl e ↦
        let (same, store) = forward-serve call w in
        ground (arith, e, same, store, serve-atomic svc (request_of call) w on outside)
    | inr (text, e) ↦ ground (arith, e)
  ]
