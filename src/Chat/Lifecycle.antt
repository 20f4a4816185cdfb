-- ===== src/Chat/Lifecycle.antt =====
-- The closures that chat_service.go and auto_close_scheduler.go hand to `Mutate`: what each request
-- does to the row of one conversation.
pub mod Requests
pub mod Invariant
pub mod Ownership
pub mod Transfer
pub mod Claims
use inline_chat.Prelude.{
  ℕ, ◌+◌, String, Bool, true, false, not, ◌&&◌, ◌||◌, Option, none, some, ◌==◌, ltb, str_eq,
  if◌then◌else◌,
}
use inline_chat.Errors.{
  Result, ok, err, conversation_closed, conversation_already_claimed, conversation_unassigned,
  transfer_pending, transfer_not_pending, forbidden, is_not_found,
}
use inline_chat.Chat.Model.{Conversation, Message}

-- What a closure returns beside an error: its flag, the row, and the variables that it captured.
pub record Mutated (A : Type 0) : Type 0 where
  pub changed : Bool
  pub row : Conversation
  pub captured : A

abbrev pub unchanged : {A : Type 0} → Conversation → A → Mutated A
unchanged c a = record { changed = false; row = c; captured = a }

abbrev pub saved : {A : Type 0} → Conversation → A → Mutated A
saved c a = record { changed = true; row = c; captured = a }

abbrev pub clear_transfer : Conversation → Conversation
clear_transfer c = record c {
  pending_transfer_to_agent_id = none;
  pending_transfer_from_agent_id = none;
  pending_transfer_requested_at = none;
}

abbrev pub is_admin : String → Bool
is_admin role = str_eq role "admin" || str_eq role "super_admin"

-- `*p == n`, false at nil.
abbrev pub points_to : Option ℕ → ℕ → Bool
points_to none n = false
points_to (some m) n = m == n

unfoldable pub claim_row : ℕ → Conversation → Result (Mutated (Unit {0}))
claim_row agent c =
    if not (str_eq c.status "open") then err conversation_closed else elim c.assigned_agent_id [
      | some owner ↦
          if owner == agent then ok (unchanged c tt) else err conversation_already_claimed
      | none ↦ ok (saved (clear_transfer (record c { assigned_agent_id = some agent })) tt)
    ]

request_transfer : ℕ → ℕ → ℕ → Conversation → Result (Mutated ℕ)
request_transfer owner to now c = elim c.pending_transfer_to_agent_id [
  | some target ↦ if target == to then ok (unchanged c 0) else err transfer_pending
  | none ↦ ok (
      saved
        (record c {
          pending_transfer_to_agent_id = some to;
          pending_transfer_from_agent_id = some owner;
          pending_transfer_requested_at = some now;
        })
        to)
]

-- The captured number is targetAgentID.
unfoldable pub transfer_row : String → ℕ → ℕ → ℕ → Conversation → Result (Mutated ℕ)
unfolding request_transfer
transfer_row role actor to now c =
    if not (str_eq c.status "open") then err conversation_closed else elim c.assigned_agent_id [
      | none ↦ err conversation_unassigned
      | some owner ↦
          if not (is_admin role) && not (owner == actor)
          then err forbidden
          else if owner == to
          then ok (unchanged c 0)
          else request_transfer owner to now c
    ]

-- The captured number is targetAgentID.
unfoldable pub confirm_row : String → ℕ → Conversation → Result (Mutated ℕ)
confirm_row role actor c =
    if not (str_eq c.status "open")
    then err conversation_closed
    else elim c.pending_transfer_to_agent_id [
      | none ↦ err transfer_not_pending
      | some target ↦
          if not (is_admin role) && not (target == actor)
          then err forbidden
          else ok (saved (clear_transfer (record c { assigned_agent_id = some target })) target)
    ]

-- `if from != nil { *from } else if assigned != nil { *assigned }`, over a variable that is 0.
abbrev pub transfer_owner : Option ℕ → Option ℕ → ℕ
transfer_owner (some from) assigned = from
transfer_owner none (some owner) = owner
transfer_owner none none = 0

-- The captured numbers are targetAgentID and ownerAgentID.
unfoldable pub reject_row : String → ℕ → Conversation → Result (Mutated (ℕ × ℕ))
reject_row role actor c =
    if not (str_eq c.status "open")
    then err conversation_closed
    else elim c.pending_transfer_to_agent_id [
      | none ↦ err transfer_not_pending
      | some target ↦
          if not (is_admin role) && not (target == actor)
          then err forbidden
          else ok (
              saved (clear_transfer c)
                (target, transfer_owner c.pending_transfer_from_agent_id c.assigned_agent_id))
    ]

unfoldable pub close_row : String → ℕ → ℕ → Conversation → Result (Mutated (Unit {0}))
close_row role actor now c =
    if str_eq c.status "closed"
    then ok (unchanged c tt)
    else if not (is_admin role) && not (points_to c.assigned_agent_id actor)
    then err forbidden
    else ok (
        saved
          (clear_transfer
            (record c { status = "closed"; closed_at = some now; closed_by_agent_id = some actor }))
          tt)

-- The rows that both automatic closers write.
abbrev pub closed_for_inactivity : ℕ → Conversation → Conversation
closed_for_inactivity now c = record c {
  status = "closed";
  closed_at = some now;
  closed_by_agent_id = c.assigned_agent_id;
}

-- `latest` is what GetLatestByConversationExcludingSystem returns. The captured time is rescheduleAt.
unfoldable pub time_out_row : ℕ → ℕ → Result Message → Conversation → Result (Mutated (Option ℕ))
time_out_row after now latest c =
    if not (str_eq c.status "open") then ok (unchanged c none) else elim latest [
      | err e ↦ if is_not_found e then ok (unchanged c none) else err e
      | ok m ↦
          if not (str_eq m.sender_type "agent")
          then ok (unchanged c none)
          else if ltb now (m.created_at + after)
          then ok (unchanged c (some (m.created_at + after)))
          else ok (saved (closed_for_inactivity now c) none)
    ]

-- `m.CreatedAt.After(cutoff)` for the cutoff `inactivity` before `started`.
abbrev pub is_recent : ℕ → ℕ → Message → Bool
is_recent started inactivity m = ltb started (m.created_at + inactivity)

unfoldable pub inactive_row :
    ℕ → ℕ → ℕ → Result Message → Conversation → Result (Mutated (Unit {0}))
inactive_row started inactivity now latest c =
    if not (str_eq c.status "open") then ok (unchanged c tt) else elim latest [
      | err e ↦ if is_not_found e then ok (unchanged c tt) else err e
      | ok m ↦
          if not (str_eq m.sender_type "agent") || is_recent started inactivity m
          then ok (unchanged c tt)
          else ok (saved (closed_for_inactivity now c) tt)
    ]
