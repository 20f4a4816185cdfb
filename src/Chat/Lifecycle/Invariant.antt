-- ===== src/Chat/Lifecycle/Invariant.antt =====
-- What holds of a stored conversation whatever requests have been made on it.
use inline_chat.Prelude.{
  ℕ, String, ◌≡◌, ◌≢◌, ◌⊎◌, true, none, arith, str_eq, is_some, inr, refl, subst, sym, inl, some,
}
use inline_chat.Errors.{Result, ok, err}
use inline_chat.Chat.Model.{Conversation, Message}
use inline_chat.Chat.Lifecycle.{
  claim_row, transfer_row, confirm_row, reject_row, close_row, time_out_row, inactive_row,
  clear_transfer, closed_for_inactivity,
}
use inline_chat.Chat.Lifecycle.Requests.{
  Request, claim, transfer, confirm, reject, close, time_out, expire, step,
}

-- The status is one of two; closing is stamped, and nothing else is; the three columns of a transfer
-- are set together, by the owner, and towards another agent.
pub record IsValid (c : Conversation) : Type 0 where
  pub status_known : (c.status ≡ "open") ⊎ (c.status ≡ "closed")
  pub closed_stamped : is_some c.closed_at ≡ str_eq c.status "closed"
  pub open_unsigned : str_eq c.status "open" ≡ true → c.closed_by_agent_id ≡ none
  pub transfer_whole :
      is_some c.pending_transfer_from_agent_id ≡ is_some c.pending_transfer_to_agent_id
  pub transfer_timed :
      is_some c.pending_transfer_requested_at ≡ is_some c.pending_transfer_to_agent_id
  pub transfer_owned :
      is_some c.pending_transfer_to_agent_id ≡ true
      → c.pending_transfer_from_agent_id ≡ c.assigned_agent_id
  pub transfer_away :
      is_some c.pending_transfer_to_agent_id ≡ true
      → c.pending_transfer_to_agent_id ≢ c.assigned_agent_id

claim-IsValid : (agent : ℕ) (c : Conversation) → IsValid c → IsValid (step (claim agent) c)
unfolding step claim_row
claim-IsValid agent c v = ground arith

transfer-IsValid :
    (role : String) (actor to now : ℕ) (c : Conversation)
    → IsValid c
    → IsValid (step (transfer role actor to now) c)
unfolding step transfer_row
transfer-IsValid role actor to now c v = ground arith

confirm-IsValid :
    (role : String) (actor : ℕ) (c : Conversation)
    → IsValid c
    → IsValid (step (confirm role actor) c)
unfolding step confirm_row
confirm-IsValid role actor c v = ground arith

reject-IsValid :
    (role : String) (actor : ℕ) (c : Conversation)
    → IsValid c
    → IsValid (step (reject role actor) c)
unfolding step reject_row
reject-IsValid role actor c v = ground arith

-- The row that an explicit close writes.
abbrev closed_by : ℕ → ℕ → Conversation → Conversation
closed_by actor now c =
    clear_transfer
      (record c { status = "closed"; closed_at = some now; closed_by_agent_id = some actor })

closed_by-IsValid : (actor now : ℕ) (c : Conversation) → IsValid c → IsValid (closed_by actor now c)
closed_by-IsValid actor now c v = record {
  status_known = inr refl;
  closed_stamped = refl;
  open_unsigned = λ e. cc;
  transfer_whole = refl;
  transfer_timed = refl;
  transfer_owned = λ e. cc;
  transfer_away = λ e. cc;
}

closed_for_inactivity-IsValid :
    (now : ℕ) (c : Conversation) → IsValid c → IsValid (closed_for_inactivity now c)
closed_for_inactivity-IsValid now c v = record {
  status_known = inr refl;
  closed_stamped = refl;
  open_unsigned = λ e. cc;
  transfer_whole = v.transfer_whole;
  transfer_timed = v.transfer_timed;
  transfer_owned = v.transfer_owned;
  transfer_away = v.transfer_away;
}

close_cases :
    (role : String) (actor now : ℕ) (c : Conversation)
    → (step (close role actor now) c ≡ c) ⊎ (step (close role actor now) c ≡ closed_by actor now c)
unfolding step close_row
close_cases role actor now c = ground arith

time_out_cases :
    (after now : ℕ) (latest : Result Message) (c : Conversation)
    → (step (time_out after now latest) c ≡ c)
      ⊎ (step (time_out after now latest) c ≡ closed_for_inactivity now c)
unfolding step time_out_row
time_out_cases after now (err e) c = ground arith
time_out_cases after now (ok m) c = ground arith

expire_cases :
    (started inactivity now : ℕ) (latest : Result Message) (c : Conversation)
    → (step (expire started inactivity now latest) c ≡ c)
      ⊎ (step (expire started inactivity now latest) c ≡ closed_for_inactivity now c)
unfolding step inactive_row
expire_cases started inactivity now (err e) c = ground arith
expire_cases started inactivity now (ok m) c = ground arith

-- A row that is the old one or a valid one is valid.
either-IsValid :
    {d : Conversation} (c e : Conversation) → (d ≡ c) ⊎ (d ≡ e) → IsValid c → IsValid e → IsValid d
either-IsValid c e (inl p) v w = subst IsValid (sym p) v
either-IsValid c e (inr p) v w = subst IsValid (sym p) w

-- Every request keeps a conversation valid.
pub step-IsValid : (r : Request) (c : Conversation) → IsValid c → IsValid (step r c)
step-IsValid (claim agent) c v = claim-IsValid agent c v
step-IsValid (transfer role actor to now) c v = transfer-IsValid role actor to now c v
step-IsValid (confirm role actor) c v = confirm-IsValid role actor c v
step-IsValid (reject role actor) c v = reject-IsValid role actor c v
step-IsValid (close role actor now) c v =
    either-IsValid c _ (close_cases role actor now c) v (closed_by-IsValid actor now c v)
step-IsValid (time_out after now latest) c v =
    either-IsValid c _ (time_out_cases after now latest c) v (closed_for_inactivity-IsValid now c v)
step-IsValid (expire started inactivity now latest) c v =
    either-IsValid c _ (expire_cases started inactivity now latest c) v
      (closed_for_inactivity-IsValid now c v)
