-- ===== src/Chat/Tests/Calls.antt =====
-- The theorems on the gRPC servers at concrete inputs.
use inline_chat.Prelude.{◌≡◌, ◌≢◌, ◌⊎◌, refl, true, [], ◌∷◌, ℕ, String}
use inline_chat.Errors.{failed, wrapped, conversation_closed, error_text}
use inline_chat.Chat.Events.{with_event_transaction}
use inline_chat.Chat.Repository.{with_transaction}
use inline_chat.Chat.Conversations.{transfer_conversation}
use inline_chat.Chat.Lifecycle.{transfer_row}
use inline_chat.Store.Memory.{insert_row}
use inline_chat.Chat.Gateway.{
  handle, forward, forwarded, guards, map_error, is_refused, Call, transfer_call, internal,
  invalid_argument,
}
use inline_chat.Chat.Gateway.Replies.{map_error-cases, handle-atomic}
use inline_chat.Chat.Tests.{world_of, owned}
use inline_chat.Chat.Tests.Requests.{flaky}

abbrev no_time : ℕ → String
no_time t = "t"

abbrev offer_call : Call
offer_call = transfer_call 1 7 "agent" 9 50 51

offer_call_refused :
    is_refused (handle no_time flaky offer_call (world_of (owned ∷ []) [])).0 ≡ true
unfolding handle forward forwarded transfer_conversation with_event_transaction with_transaction
    transfer_row insert_row guards
offer_call_refused = refl

handle-atomic_example :
    (handle no_time flaky offer_call (world_of (owned ∷ []) [])).1.store
    ≡ (world_of (owned ∷ []) []).store
handle-atomic_example =
    handle-atomic no_time flaky offer_call (world_of (owned ∷ []) []) refl refl offer_call_refused

map_error-cases_example :
    (map_error (wrapped "mutate" conversation_closed)
      ≡ record { code = internal; text = "internal error" })
    ⊎ (((map_error (wrapped "mutate" conversation_closed)).text
          ≡ error_text (wrapped "mutate" conversation_closed))
        × ((map_error (wrapped "mutate" conversation_closed)).code ≢ internal))
map_error-cases_example = map_error-cases (wrapped "mutate" conversation_closed)

-- go-sql-driver's ErrInvalidConn reads as a fault of the caller.
lost_connection : (map_error (failed "invalid connection")).code ≡ invalid_argument
unfolding map_error
lost_connection = refl
