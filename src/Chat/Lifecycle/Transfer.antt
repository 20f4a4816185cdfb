-- ===== src/Chat/Lifecycle/Transfer.antt =====
-- The protocol of a transfer: offered by the owner, then confirmed, rejected or cut off by a close.
use inline_chat.Prelude.{
  ℕ, String, ◌≡◌, ◌≢◌, ◌⊎◌, true, none, some, [], ◌∷◌, arith, str_eq, ap, ◌∙◌, refl, false, eq_iff,
  ◌+◌, ◌≤◌, List,
}
use inline_chat.Chat.Model.{Conversation, Message}
use inline_chat.Chat.Lifecycle.{
  transfer_row, confirm_row, reject_row, is_admin, clear_transfer, close_row, time_out_row, ok,
}
use inline_chat.Chat.Lifecycle.Invariant.{IsValid}
use inline_chat.Chat.Lifecycle.Requests.{
  transfer, confirm, reject, step, run, close, time_out, Request,
}
use inline_chat.Errors.{err, ok, conversation_closed}
use inline_chat.Chat.Lifecycle.Ownership.{step-closed}

open_not_closed :
    (c : Conversation) → str_eq c.status "open" ≡ true → str_eq c.status "closed" ≡ false
open_not_closed c h = rw ((eq_iff c.status "open").0 h)

answer_rejects :
    (role : String) (actor : ℕ) (d : Conversation)
    → str_eq d.status "open" ≡ true
    → d.pending_transfer_to_agent_id ≡ some actor
    → step (reject role actor) d ≡ clear_transfer d
unfolding step reject_row
answer_rejects role actor d is_open offer = ground arith

answer_confirms :
    (role : String) (actor : ℕ) (d : Conversation)
    → str_eq d.status "open" ≡ true
    → d.pending_transfer_to_agent_id ≡ some actor
    → step (confirm role actor) d ≡ clear_transfer (record d { assigned_agent_id = some actor })
unfolding step confirm_row
answer_confirms role actor d is_open offer = ground arith

module _ (role : String) (actor owner to now : ℕ) (c : Conversation) (v : IsValid c)
    (is_open : str_eq c.status "open" ≡ true) (owned : c.assigned_agent_id ≡ some owner)
    (free : c.pending_transfer_to_agent_id ≡ none) (away : owner ≢ to)
    (allowed : (is_admin role ≡ true) ⊎ (owner ≡ actor)) where
  offered : step (transfer role actor to now) c ≡ record c {
    pending_transfer_to_agent_id = some to;
    pending_transfer_from_agent_id = some owner;
    pending_transfer_requested_at = some now;
  }
  unfolding step transfer_row
  offered = ground arith

  -- A transfer out of a valid open conversation in which none waits, by its owner or an administrator
  -- and to another agent, stores the offer from its owner to that agent, the time, and nothing else; it
  -- leaves the conversation as it was when the offered agent rejects it.
  pub transfer-reject :
      (answer : String)
      → (step (transfer role actor to now) c ≡ record c {
        pending_transfer_to_agent_id = some to;
        pending_transfer_from_agent_id = some owner;
        pending_transfer_requested_at = some now;
      })
        × (run c (transfer role actor to now ∷ reject answer to ∷ []) ≡ c)
  unfolding run
  transfer-reject answer = (
    offered,
    ap (step (reject answer to)) offered ∙ answer_rejects answer to _ is_open refl ∙ (ground arith),
  )

  -- A transfer out of a valid open conversation in which none waits, by its owner or an administrator
  -- and to another agent, changes the owner to the offered agent and nothing else when that agent
  -- confirms it.
  pub transfer-confirm :
      (answer : String)
      → run c (transfer role actor to now ∷ confirm answer to ∷ [])
        ≡ record c { assigned_agent_id = some to }
  unfolding run
  transfer-confirm answer =
      ap (step (confirm answer to)) offered
      ∙ answer_confirms answer to _ is_open refl
      ∙ (ground arith)

closed_by_request :
    (role : String) (actor now : ℕ) (c : Conversation)
    → str_eq c.status "open" ≡ true
    → (is_admin role ≡ true) ⊎ (c.assigned_agent_id ≡ some actor)
    → ((step (close role actor now) c).status ≡ "closed")
      × ((step (close role actor now) c).pending_transfer_to_agent_id ≡ none)
unfolding step close_row
closed_by_request role actor now c is_open allowed =
    (ground (arith, open_not_closed c), ground (arith, open_not_closed c))

closed_by_clock :
    (after now target : ℕ) (m : Message) (c : Conversation)
    → str_eq c.status "open" ≡ true
    → c.pending_transfer_to_agent_id ≡ some target
    → str_eq m.sender_type "agent" ≡ true
    → m.created_at + after ≤ now
    → ((step (time_out after now (ok m)) c).status ≡ "closed")
      × ((step (time_out after now (ok m)) c).pending_transfer_to_agent_id ≡ some target)
unfolding step time_out_row
closed_by_clock after now target m c is_open offer sender old = (ground arith, ground arith)

-- No history changes a closed conversation.
run-closed : (rs : List Request) (c : Conversation) → c.status ≡ "closed" → run c rs ≡ c
unfolding run
run-closed [] c h = refl
run-closed (r ∷ rs) c h = ap (λ d. run d rs) (step-closed r c h) ∙ run-closed rs c h

answers_refused :
    (role : String) (actor : ℕ) (c : Conversation)
    → c.status ≡ "closed"
    → (confirm_row role actor c ≡ err conversation_closed)
      × (reject_row role actor c ≡ err conversation_closed)
unfolding confirm_row reject_row
answers_refused role actor c h =
    let shut : str_eq c.status "open" ≡ false = rw h refl in (rw shut refl, rw shut refl)

-- Of an open conversation with a transfer that waits: after a close by its owner or an administrator,
-- no transfer waits, whatever is asked later. After a close by the clock, behind an agent's message that
-- is at least `after` old, the stored row names the agent it was offered to for good, and nobody can
-- confirm or reject it.
pub close_and_time_out_differ :
    (role answer : String) (actor other after now target : ℕ) (m : Message) (c : Conversation)
    (rs : List Request)
    → str_eq c.status "open" ≡ true
    → (is_admin role ≡ true) ⊎ (c.assigned_agent_id ≡ some actor)
    → c.pending_transfer_to_agent_id ≡ some target
    → str_eq m.sender_type "agent" ≡ true
    → m.created_at + after ≤ now
    → ((run (step (close role actor now) c) rs).pending_transfer_to_agent_id ≡ none)
      × ((run (step (time_out after now (ok m)) c) rs).pending_transfer_to_agent_id ≡ some target)
      × (confirm_row answer other (run (step (time_out after now (ok m)) c) rs)
          ≡ err conversation_closed)
      × (reject_row answer other (run (step (time_out after now (ok m)) c) rs)
          ≡ err conversation_closed)
close_and_time_out_differ role answer actor other after now target m c rs is_open allowed offer
      sender old =
    let (shut, dropped) = closed_by_request role actor now c is_open allowed in
    let (late, waits) = closed_by_clock after now target m c is_open offer sender old in
    let stays = run-closed rs (step (time_out after now (ok m)) c) late in
    let refused =
      answers_refused answer other (run (step (time_out after now (ok m)) c) rs)
        (ap (λ d. d.status) stays ∙ late) in
    (
      ap (λ d. d.pending_transfer_to_agent_id) (run-closed rs (step (close role actor now) c) shut)
          ∙ dropped,
      ap (λ d. d.pending_transfer_to_agent_id) stays ∙ waits,
      refused.0,
      refused.1,
    )
