-- ===== src/Chat/Scheduler.antt =====
-- autoCloseScheduler of services/chat-service/internal/service/auto_close_scheduler.go. The map of
-- timers is an association list; the mutex makes each method one step. A timer of the Go runtime is
-- its delay; it may call `fire` at any time after it was armed, also when Stop came too late. Which
-- of them still run is not kept.
pub mod Timers
use inline_chat.Prelude.{
  ℕ, ◌-◌, Bool, true, false, Option, none, some, List, [], ◌∷◌, ◌==◌, if◌then◌else◌,
}

pub record Timer : Type 0 where
  pub conversation_id : ℕ
  pub due_at : ℕ
  pub delay : ℕ

unfoldable pub lookup : ℕ → List Timer → Option Timer
lookup id [] = none
lookup id (t ∷ ts) = let rest = lookup id ts in if t.conversation_id == id then some t else rest

unfoldable pub delete : ℕ → List Timer → List Timer
delete id [] = []
delete id (t ∷ ts) = let rest = delete id ts in if t.conversation_id == id then rest else t ∷ rest

-- `time.Until(due)`, and 0 where that is negative.
abbrev pub delay_until : ℕ → ℕ → ℕ
delay_until now due = due - now

arm : ℕ → ℕ → ℕ → List Timer → List Timer
arm id due now ts =
    record { conversation_id = id; due_at = due; delay = delay_until now due } ∷ delete id ts

unfoldable pub schedule : ℕ → ℕ → ℕ → List Timer → List Timer
unfolding arm
schedule id due now ts = if id == 0 then ts else elim (lookup id ts) [
  | some current ↦ if current.due_at == due then ts else arm id due now ts
  | none ↦ arm id due now ts
]

unfoldable pub cancel : ℕ → List Timer → List Timer
cancel id ts = if id == 0 then ts else delete id ts

unfoldable pub stop : List Timer → List Timer
stop ts = []

-- The timers after a timer has gone off, and whether onDue is called.
unfoldable pub fire : ℕ → ℕ → List Timer → List Timer × Bool
fire id due ts = elim (lookup id ts) [
  | none ↦ (ts, false)
  | some current ↦ if current.due_at == due then (delete id ts, true) else (ts, false)
]
