-- ===== src/Chat/Tests/Histories.antt =====
-- The theorems on one conversation at concrete inputs.
use inline_chat.Prelude.{◌≡◌, refl, some, [], ◌∷◌, arith, inl, inr, ◌≢◌, none, List}
use inline_chat.Chat.Lifecycle.Requests.{
  step, run, claim, transfer, confirm, reject, close, time_out, Request,
}
use inline_chat.Chat.Lifecycle.Invariant.{IsValid}
use inline_chat.Chat.Tests.{owned, offered}
use inline_chat.Chat.Lifecycle.{close_row, claim_row, saved, unchanged, confirm_row, reject_row}
use inline_chat.Chat.Lifecycle.Ownership.{
  Authorized, KeepsOwner, step-closed, step-Authorized, step-KeepsOwner,
}
use inline_chat.Chat.Model.{Message, Conversation}
use inline_chat.Errors.{ok, err, conversation_already_claimed, conversation_closed}
use inline_chat.Chat.Lifecycle.Transfer.{
  transfer-reject, transfer-confirm, close_and_time_out_differ,
}
use inline_chat.Chat.Lifecycle.Claims.{claim_row-claim_row}

pub owned-IsValid : IsValid owned
owned-IsValid = record {
  status_known = inl refl;
  closed_stamped = refl;
  open_unsigned = λ e. refl;
  transfer_whole = refl;
  transfer_timed = refl;
  transfer_owned = λ e. cc;
  transfer_away = λ e. cc;
}

step-closed_example :
    step (claim 3) (record owned { status = "closed"; closed_at = some 4 })
    ≡ record owned { status = "closed"; closed_at = some 4 }
step-closed_example =
    step-closed (claim 3) (record owned { status = "closed"; closed_at = some 4 }) refl

closes_owned : step (close "agent" 7 8) owned ≢ owned
unfolding step close_row
closes_owned e = cc e

step-Authorized_example : Authorized (close "agent" 7 8) owned
step-Authorized_example = step-Authorized (close "agent" 7 8) owned closes_owned

step-KeepsOwner_example : KeepsOwner (confirm "agent" 9) offered
step-KeepsOwner_example = step-KeepsOwner (confirm "agent" 9) offered (λ e. cc)

transfer-reject_example :
    (step (transfer "agent" 7 9 5) owned ≡ record owned {
      pending_transfer_to_agent_id = some 9;
      pending_transfer_from_agent_id = some 7;
      pending_transfer_requested_at = some 5;
    })
    × (run owned (transfer "agent" 7 9 5 ∷ reject "agent" 9 ∷ []) ≡ owned)
transfer-reject_example =
    transfer-reject "agent" 7 7 9 5 owned owned-IsValid refl refl refl (omega arith) (inr refl)
      "agent"

transfer-confirm_example :
    run owned (transfer "agent" 7 9 5 ∷ confirm "agent" 9 ∷ [])
    ≡ record owned { assigned_agent_id = some 9 }
transfer-confirm_example =
    transfer-confirm "agent" 7 7 9 5 owned owned-IsValid refl refl refl (omega arith) (inr refl)
      "agent"

abbrev agent_message : Message
agent_message = record {
  id = 1;
  conversation_id = 1;
  sender_type = "agent";
  sender_id = "7";
  content = "hello";
  client_msg_id = "m1";
  status = "sent";
  created_at = 100;
}

-- Agent 9 tries to answer both, and agent 3 to claim them.
abbrev tries : List Request
tries = confirm "agent" 9 ∷ claim 3 ∷ reject "admin" 1 ∷ []

close_and_time_out_differ_example :
    ((run (step (close "agent" 7 2000) offered) tries).pending_transfer_to_agent_id ≡ none)
    × ((run
          (step (time_out 1000 2000 (ok agent_message)) offered)
          tries).pending_transfer_to_agent_id
        ≡ some 9)
    × (confirm_row "agent" 9 (run (step (time_out 1000 2000 (ok agent_message)) offered) tries)
        ≡ err conversation_closed)
    × (reject_row "agent" 9 (run (step (time_out 1000 2000 (ok agent_message)) offered) tries)
        ≡ err conversation_closed)
close_and_time_out_differ_example =
    close_and_time_out_differ "agent" "agent" 7 9 1000 2000 9 agent_message offered tries refl
      (inr refl) refl refl (omega arith)

-- Nobody owns it yet.
abbrev unowned : Conversation
unowned = record owned { assigned_agent_id = none }

claimed_by_7 : claim_row 7 unowned ≡ ok (saved owned tt)
unfolding claim_row
claimed_by_7 = refl

claim_row-claim_row_example :
    ((step (claim 7) unowned).assigned_agent_id ≡ some 7)
    × (claim_row 8 (step (claim 7) unowned) ≡ err conversation_already_claimed)
    × (step (claim 8) (step (claim 7) unowned) ≡ step (claim 7) unowned)
    × (claim_row 7 (step (claim 7) unowned) ≡ ok (unchanged (step (claim 7) unowned) tt))
claim_row-claim_row_example =
    claim_row-claim_row 7 8 unowned (saved owned tt) (omega arith) claimed_by_7
