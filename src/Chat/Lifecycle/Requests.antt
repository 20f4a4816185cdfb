-- ===== src/Chat/Lifecycle/Requests.antt =====
-- The requests on one conversation as one step function, and histories of them.
use inline_chat.Prelude.{ℕ, String, List, [], ◌∷◌, if◌then◌else◌}
use inline_chat.Errors.{Result, ok, err}
use inline_chat.Chat.Model.{Conversation, Message}
use inline_chat.Chat.Lifecycle.{
  Mutated, claim_row, transfer_row, confirm_row, reject_row, close_row, time_out_row, inactive_row,
}

pub data Request : Type 0 where
  claim : ℕ → Request
  transfer : String → ℕ → ℕ → ℕ → Request
  confirm : String → ℕ → Request
  reject : String → ℕ → Request
  close : String → ℕ → ℕ → Request
  time_out : ℕ → ℕ → Result Message → Request
  expire : ℕ → ℕ → ℕ → Result Message → Request

-- The stored row after Mutate: it is saved only if the closure succeeds and returns true.
abbrev pub row_after : {A : Type 0} → Conversation → Result (Mutated A) → Conversation
row_after c (ok m) = if m.changed then m.row else c
row_after c (err e) = c

unfoldable pub step : Request → Conversation → Conversation
step (claim agent) c = row_after c (claim_row agent c)
step (transfer role actor to now) c = row_after c (transfer_row role actor to now c)
step (confirm role actor) c = row_after c (confirm_row role actor c)
step (reject role actor) c = row_after c (reject_row role actor c)
step (close role actor now) c = row_after c (close_row role actor now c)
step (time_out after now latest) c = row_after c (time_out_row after now latest c)
step (expire started inactivity now latest) c =
    row_after c (inactive_row started inactivity now latest c)

unfoldable pub run : Conversation → List Request → Conversation
run c [] = c
run c (r ∷ rs) = run (step r c) rs
