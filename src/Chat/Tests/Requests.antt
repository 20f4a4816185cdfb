-- ===== src/Chat/Tests/Requests.antt =====
-- The theorems on the service at concrete inputs.
use inline_chat.Prelude.{◌≡◌, refl, true, [], ◌∷◌, List, some, false, str_eq, ◌≤◌}
use inline_chat.Chat.Service.{serve, claims, Request, run, transfers, requests, step, closes}
use inline_chat.Chat.Conversations.{claim_conversation, transfer_conversation, close_conversation}
use inline_chat.Errors.{is_err, failed}
use inline_chat.Chat.Tests.{service, world_of, owned}
use inline_chat.Chat.Service.Atomicity.{serve-atomic}
use inline_chat.Chat.Repository.Conversations.Validity.{ValidRows}
use inline_chat.Chat.Events.{with_event_transaction}
use inline_chat.Chat.Repository.{with_transaction}
use inline_chat.Chat.Service.Validity.{run-ValidRows}
use inline_chat.Chat.Tests.Histories.{owned-IsValid}
use inline_chat.Chat.Lifecycle.{transfer_row, close_row}
use inline_chat.Store.Memory.{insert_row}
use inline_chat.Chat.World.{Service}
use inline_chat.Chat.Model.{Conversation, Message, EventOutbox}
use inline_chat.Prelude.Text.{trim_space, rune_count}
use inline_chat.Chat.Messages.{CreateMessageInput, create_message}
use inline_chat.Chat.Messages.Senders.{Accepted, create_message-Accepted}

claim_of_unknown_fails : is_err (serve service (claims 5 7) (world_of (owned ∷ []) [])).0 ≡ true
unfolding serve claim_conversation
claim_of_unknown_fails = refl

-- Every commit fails.
abbrev pub flaky : Service (List Conversation) (List Message) (List EventOutbox)
flaky = record service { commit_fault = λ s. some (failed "commit") }

abbrev offer : Request
offer = transfers 1 7 "agent" 9 50 51

offer_fails : is_err (serve flaky offer (world_of (owned ∷ []) [])).0 ≡ true
unfolding serve transfer_conversation with_event_transaction with_transaction transfer_row
    insert_row
offer_fails = refl

serve-atomic_example :
    (serve flaky offer (world_of (owned ∷ []) [])).1.store ≡ (world_of (owned ∷ []) []).store
serve-atomic_example = serve-atomic flaky offer (world_of (owned ∷ []) []) refl refl offer_fails

run-ValidRows_example :
    ValidRows service
      (run service
        (world_of (owned ∷ []) [])
        (requests (transfers 1 7 " Agent " 9 50 51) ∷ requests (closes 1 3 "admin" 60) ∷ [])).store
run-ValidRows_example =
    run-ValidRows service
      (requests (transfers 1 7 " Agent " 9 50 51) ∷ requests (closes 1 3 "admin" 60) ∷ [])
      (world_of (owned ∷ []) []) (owned-IsValid, tt)

-- The closed conversation, the system message and both events are there, and the dispatcher was told
-- twice.
closed_by_admin :
    (run service
      (world_of (owned ∷ []) [])
      (requests (transfers 1 7 " Agent " 9 50 51) ∷ requests (closes 1 3 "admin" 60) ∷ [])).wakeups
    ≡ 2
unfolding run step serve transfer_conversation close_conversation with_event_transaction
    with_transaction transfer_row close_row insert_row
closed_by_admin = refl

abbrev greeting : CreateMessageInput
greeting = record {
  conversation_id = 1;
  sender_type = "agent";
  sender_id = " 7 ";
  content = "hello";
  client_msg_id = "m1";
  visitor_token = "";
}

greeting_posted : is_err (create_message service greeting 50 (world_of (owned ∷ []) [])).0 ≡ false
unfolding create_message with_event_transaction with_transaction insert_row
greeting_posted = refl

create_message-Accepted_example :
    (str_eq (trim_space greeting.content) "" ≡ false)
    × (rune_count greeting.content ≤ 2000)
    × Accepted service greeting (world_of (owned ∷ []) [])
create_message-Accepted_example =
    create_message-Accepted service greeting 50 (world_of (owned ∷ []) []) greeting_posted
