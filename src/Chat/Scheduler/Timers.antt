-- ===== src/Chat/Scheduler/Timers.antt =====
-- What the map of timers promises to the conversations.
use inline_chat.Prelude.{
  ℕ, ◌≡◌, ◌≢◌, true, false, none, List, [], ◌∷◌, ◌==◌, if◌then◌else◌, arith, Option-cases,
  Bool-cases, sym, ◌∙◌, ap, inl, inr, refl,
}
use inline_chat.Chat.Scheduler.{Timer, lookup, delete, schedule, cancel, fire, some, delay_until}

lookup-delete :
    (id j : ℕ) (ts : List Timer) → lookup j (delete id ts) ≡ (if id == j then none else lookup j ts)
unfolding lookup delete
lookup-delete id j [] = ground arith
lookup-delete id j (t ∷ ts) = ground (arith, lookup-delete id j ts)

lookup-schedule :
    (id due now : ℕ) (ts : List Timer)
    → id ≢ 0
    → (t : Timer) × (lookup id (schedule id due now ts) ≡ some t) × (t.due_at ≡ due)
unfolding schedule lookup
lookup-schedule id due now ts h = elim (Option-cases (lookup id ts)) [
  | inl e ↦ (armed, ground arith, refl)
  | inr (t, e) ↦ elim (Bool-cases (t.due_at == due)) [
    | inl same ↦ (t, ground arith, ground arith)
    | inr other ↦ (armed, ground arith, refl)
  ]
]
  where
    armed : Timer
    armed = record { conversation_id = id; due_at = due; delay = delay_until now due }

module _ (id due : ℕ) (ts : List Timer) where
  fire_due :
      (t : Timer) → lookup id ts ≡ some t → t.due_at ≡ due → fire id due ts ≡ (delete id ts, true)
  unfolding fire
  fire_due t e d = ground arith

  fire_stale : (t : Timer) → lookup id ts ≡ some t → t.due_at ≢ due → fire id due ts ≡ (ts, false)
  unfolding fire
  fire_stale t e d = ground arith

  fire_gone : lookup id ts ≡ none → fire id due ts ≡ (ts, false)
  unfolding fire
  fire_gone e = ground arith

lookup-delete_self : (id : ℕ) (ts : List Timer) → lookup id (delete id ts) ≡ none
lookup-delete_self id ts = ground (arith, lookup-delete id id ts)

lookup-cancel_self : (id : ℕ) (ts : List Timer) → id ≢ 0 → lookup id (cancel id ts) ≡ none
unfolding cancel
lookup-cancel_self id ts h = ground (arith, lookup-delete_self id ts)

-- A timer that was replaced by a later plan, or taken back, does nothing when it still goes off; the
-- timer of the plan calls onDue, and only once. The conversation has an id, and the plan is new.
pub fire-schedule :
    (id old due now : ℕ) (ts : List Timer)
    → id ≢ 0
    → old ≢ due
    → let planned = schedule id due now ts in
      (fire id old planned ≡ (planned, false))
      × ((fire id due planned).1 ≡ true)
      × ((fire id due (fire id due planned).0).1 ≡ false)
      × ((fire id due (cancel id planned)).1 ≡ false)
fire-schedule id old due now ts nonzero new =
    let planned = schedule id due now ts in
    let (t, found, at) = lookup-schedule id due now ts nonzero in
    let fired = fire_due id due planned t found at in
    (
      fire_stale id old planned t found (λ e. new (sym e ∙ at)),
      ap (λ r. r.1) fired,
      rw fired (ap (λ r. r.1) (fire_gone id due _ (lookup-delete_self id planned))),
      ap (λ r. r.1) (fire_gone id due _ (lookup-cancel_self id planned nonzero)),
    )

-- A call for one conversation leaves the timers of the others.
pub call-others :
    (id j due now : ℕ) (ts : List Timer)
    → id ≢ j
    → (lookup j (schedule id due now ts) ≡ lookup j ts)
      × (lookup j (cancel id ts) ≡ lookup j ts)
      × (lookup j (fire id due ts).0 ≡ lookup j ts)
unfolding schedule cancel fire lookup
call-others id j due now ts ne = (
  ground (arith, lookup-delete id j ts),
  ground (arith, lookup-delete id j ts),
  ground (arith, lookup-delete id j ts),
)
