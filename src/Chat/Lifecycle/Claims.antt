-- ===== src/Chat/Lifecycle/Claims.antt =====
-- Two agents that claim one conversation.
use inline_chat.Prelude.{ℕ, ◌≡◌, ◌≢◌, arith, some, str_eq, true}
use inline_chat.Errors.{ok, err, conversation_already_claimed}
use inline_chat.Chat.Model.{Conversation}
use inline_chat.Chat.Lifecycle.{Mutated, unchanged, claim_row}
use inline_chat.Chat.Lifecycle.Requests.{step, claim}

stored_claim :
    (agent : ℕ) (c : Conversation) (m : Mutated (Unit {0}))
    → claim_row agent c ≡ ok m
    → ((step (claim agent) c).assigned_agent_id ≡ some agent)
      × (str_eq (step (claim agent) c).status "open" ≡ true)
unfolding step claim_row
stored_claim agent c m h = (ground arith, ground arith)

second_claim :
    (agent other : ℕ) (d : Conversation)
    → agent ≢ other
    → d.assigned_agent_id ≡ some agent
    → str_eq d.status "open" ≡ true
    → (claim_row other d ≡ err conversation_already_claimed)
      × (step (claim other) d ≡ d)
      × (claim_row agent d ≡ ok (unchanged d tt))
unfolding step claim_row
second_claim agent other d ne owner is_open = (ground arith, ground arith, ground arith)

-- After a claim that succeeds, the stored conversation belongs to the agent, a claim by another agent
-- is refused as claimed already and leaves it, and one by the same agent succeeds and writes nothing.
pub claim_row-claim_row :
    (agent other : ℕ) (c : Conversation) (m : Mutated (Unit {0}))
    → agent ≢ other
    → claim_row agent c ≡ ok m
    → ((step (claim agent) c).assigned_agent_id ≡ some agent)
      × (claim_row other (step (claim agent) c) ≡ err conversation_already_claimed)
      × (step (claim other) (step (claim agent) c) ≡ step (claim agent) c)
      × (claim_row agent (step (claim agent) c) ≡ ok (unchanged (step (claim agent) c) tt))
claim_row-claim_row agent other c m ne h =
    let (owner, is_open) = stored_claim agent c m h in
    let (refused, kept, again) = second_claim agent other (step (claim agent) c) ne owner is_open in
    (owner, refused, kept, again)
