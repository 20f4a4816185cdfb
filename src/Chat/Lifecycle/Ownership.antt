-- ===== src/Chat/Lifecycle/Ownership.antt =====
-- Who may change what about a conversation.
use inline_chat.Prelude.{
  ◌≡◌, arith, refl, true, false, str_eq, ◌+◌, ◌≤◌, ◌≢◌, ◌⊎◌, is_some, none, some,
}
use inline_chat.Chat.Model.{Conversation, Message}
use inline_chat.Chat.Lifecycle.{
  claim_row, transfer_row, confirm_row, reject_row, close_row, time_out_row, inactive_row, is_admin,
}
use inline_chat.Chat.Lifecycle.Requests.{
  Request, claim, step, transfer, confirm, reject, close, time_out, expire,
}
use inline_chat.Errors.{ok, err}

closed_tests :
    (c : Conversation)
    → c.status ≡ "closed"
    → (str_eq c.status "open" ≡ false) × (str_eq c.status "closed" ≡ true)
closed_tests c h = rw h (refl, refl)

-- A closed conversation is left as it is by every request.
pub step-closed : (r : Request) (c : Conversation) → c.status ≡ "closed" → step r c ≡ c
unfolding step claim_row transfer_row confirm_row reject_row close_row time_out_row inactive_row
step-closed (claim agent) c h = ground (arith, closed_tests c h)
step-closed _ c h = ground (arith, closed_tests c h)

-- What a request must meet to change a conversation.
abbrev pub Authorized : Request → Conversation → Type 0
Authorized (claim agent) c = c.assigned_agent_id ≡ none
Authorized (transfer role actor to now) c =
    (is_admin role ≡ true) ⊎ (c.assigned_agent_id ≡ some actor)
Authorized (confirm role actor) c =
    (is_admin role ≡ true) ⊎ (c.pending_transfer_to_agent_id ≡ some actor)
Authorized (reject role actor) c =
    (is_admin role ≡ true) ⊎ (c.pending_transfer_to_agent_id ≡ some actor)
Authorized (close role actor now) c = (is_admin role ≡ true) ⊎ (c.assigned_agent_id ≡ some actor)
Authorized (time_out after now latest) c =
    (m : Message) × (latest ≡ ok m)
    × (str_eq m.sender_type "agent" ≡ true)
    × (m.created_at + after ≤ now)
Authorized (expire started inactivity now latest) c =
    (m : Message) × (latest ≡ ok m)
    × (str_eq m.sender_type "agent" ≡ true)
    × (m.created_at + inactivity ≤ started)

-- A request changes a conversation only if it is authorized: an agent claims what nobody owns, moves
-- and closes what is its own, answers what was offered to it, unless it acts as an administrator; and
-- the clock closes only behind an agent's message of the given age.
pub step-Authorized : (r : Request) (c : Conversation) → step r c ≢ c → Authorized r c
unfolding step claim_row transfer_row confirm_row reject_row close_row time_out_row inactive_row
step-Authorized (claim agent) c h = ground arith
step-Authorized (transfer role actor to now) c h = ground arith
step-Authorized (confirm role actor) c h = ground arith
step-Authorized (reject role actor) c h = ground arith
step-Authorized (close role actor now) c h = ground arith
step-Authorized (time_out after now (err e)) c h = ground arith
step-Authorized (time_out after now (ok m)) c h = (m, refl, ground arith, ground arith)
step-Authorized (expire started inactivity now (err e)) c h = ground arith
step-Authorized (expire started inactivity now (ok m)) c h = (m, refl, ground arith, ground arith)

-- The owner stays, or the request is a confirmation that hands over to the offered agent.
abbrev pub KeepsOwner : Request → Conversation → Type 0
KeepsOwner (confirm role actor) c =
    ((step (confirm role actor) c).assigned_agent_id ≡ c.assigned_agent_id)
    ⊎ ((is_some c.pending_transfer_to_agent_id ≡ true)
        × ((step (confirm role actor) c).assigned_agent_id ≡ c.pending_transfer_to_agent_id))
KeepsOwner r c = (step r c).assigned_agent_id ≡ c.assigned_agent_id

-- An owned conversation changes hands only by a confirmed transfer, and then to the agent it was
-- offered to.
pub step-KeepsOwner : (r : Request) (c : Conversation) → c.assigned_agent_id ≢ none → KeepsOwner r c
unfolding step claim_row transfer_row confirm_row reject_row close_row time_out_row inactive_row
step-KeepsOwner (claim agent) c h = ground arith
step-KeepsOwner (transfer role actor to now) c h = ground arith
step-KeepsOwner (confirm role actor) c h = ground arith
step-KeepsOwner (reject role actor) c h = ground arith
step-KeepsOwner (close role actor now) c h = ground arith
step-KeepsOwner (time_out after now (err e)) c h = ground arith
step-KeepsOwner (time_out after now (ok m)) c h = ground arith
step-KeepsOwner (expire started inactivity now (err e)) c h = ground arith
step-KeepsOwner (expire started inactivity now (ok m)) c h = ground arith
