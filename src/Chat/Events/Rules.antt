-- ===== src/Chat/Events/Rules.antt =====
-- Transactions, with and without events, under the rules for actions.
use inline_chat.Prelude.{
  ◌≡◌, refl, sym, ◌∙◌, ap, subst, Bool, true, false, Option, some, Bool-cases, inl, inr, arith, ◌⊎◌,
}
use inline_chat.Errors.{Result, ok, err, is_err, Result-cases}
use inline_chat.Chat.World.{Store, Service, World, Action}
use inline_chat.Chat.World.Rules.{Atomic, Keeps}
use inline_chat.Chat.Repository.{with_transaction}
use inline_chat.Chat.Events.{after_transaction, with_event_transaction}

module _ {C M O : Type 0} (svc : Service C M O) where
  pub with_transaction-Atomic : {A : Type 0} (m : Action C M O A) → Atomic (with_transaction svc m)
  unfolding with_transaction
  with_transaction-Atomic m w h = ground arith

  after_transaction-store :
      {A : Type 0} (flagged : Option Bool) (p : Result A × World C M O)
      → (after_transaction svc flagged p).1.store ≡ p.1.store
  unfolding after_transaction
  after_transaction-store flagged (ok a, w) = ground arith
  after_transaction-store flagged (err e, w) = refl

  after_transaction-is_err :
      {A : Type 0} (flagged : Option Bool) (p : Result A × World C M O)
      → is_err (after_transaction svc flagged p).0 ≡ is_err p.0
  unfolding after_transaction
  after_transaction-is_err flagged (ok a, w) = refl
  after_transaction-is_err flagged (err e, w) = refl

  with_event_transaction_on :
      {A : Type 0} (m : Action C M O A) (w : World C M O)
      → svc.outbox_enabled ≡ true
      → with_event_transaction svc m w
        ≡ after_transaction svc w.should_notify
            (with_transaction svc m (record w { should_notify = some false }))
  unfolding with_event_transaction
  with_event_transaction_on m w on = ground arith

  with_event_transaction_off :
      {A : Type 0} (m : Action C M O A) (w : World C M O)
      → svc.outbox_enabled ≡ false
      → with_event_transaction svc m w ≡ m w
  unfolding with_event_transaction
  with_event_transaction_off m w off = ground arith

  pub with_event_transaction-Atomic :
      {A : Type 0} (m : Action C M O A)
      → svc.outbox_enabled ≡ true
      → Atomic (with_event_transaction svc m)
  with_event_transaction-Atomic m on w h =
      let inside = record w { should_notify = some false } in
      let p = with_transaction svc m inside in
      let e = with_event_transaction_on m w on in
      ap (λ q. q.1.store) e
      ∙ after_transaction-store w.should_notify p
      ∙ with_transaction-Atomic m inside
          (sym (after_transaction-is_err w.should_notify p) ∙ ap (λ q. is_err q.0) (sym e) ∙ h)

  -- A transaction ends with the store that it began with, or with the one that its body left.
  with_transaction-store :
      {A : Type 0} (m : Action C M O A) (w : World C M O)
      → ((with_transaction svc m w).1.store ≡ w.store)
        ⊎ ((with_transaction svc m w).1.store ≡ (m (record w { in_transaction = true })).1.store)
  unfolding with_transaction
  with_transaction-store m w = ground arith

  module _ (I : Store C M O → Type 0) where
    pub Keeps-transaction :
        {A : Type 0} (m : Action C M O A) → Keeps I m → Keeps I (with_transaction svc m)
    Keeps-transaction m km w i = elim (with_transaction-store m w) [
      | inl e ↦ subst I (sym e) i
      | inr e ↦ subst I (sym e) (km (record w { in_transaction = true }) i)
    ]

    pub Keeps-event_transaction :
        {A : Type 0} (m : Action C M O A) → Keeps I m → Keeps I (with_event_transaction svc m)
    Keeps-event_transaction m km w i =
        let inside = record w { should_notify = some false } in
        elim (Bool-cases svc.outbox_enabled) [
          | inl on ↦
              subst I
                (sym (
                  ap (λ q. q.1.store) (with_event_transaction_on m w on)
                  ∙ after_transaction-store w.should_notify (with_transaction svc m inside)))
                (Keeps-transaction m km inside i)
          | inr off ↦
              subst I (sym (ap (λ q. q.1.store) (with_event_transaction_off m w off))) (km w i)
        ]

  with_transaction_ran :
      {A : Type 0} (m : Action C M O A) (w : World C M O)
      → is_err (with_transaction svc m w).0 ≡ false
      → is_err (m (record w { in_transaction = true })).0 ≡ false
  unfolding with_transaction
  with_transaction_ran m w h = elim (Result-cases (m (record w { in_transaction = true })).0) [
    | inl (x, e) ↦ ground (arith, e)
    | inr (a, e) ↦ rw e refl
  ]

  -- A transaction that succeeds has run its function, from the same database.
  pub with_event_transaction_ran :
      {A : Type 0} (m : Action C M O A) (w : World C M O)
      → is_err (with_event_transaction svc m w).0 ≡ false
      → (v : World C M O) × (v.store ≡ w.store) × (is_err (m v).0 ≡ false)
  with_event_transaction_ran m w h = elim (Bool-cases svc.outbox_enabled) [
    | inl on ↦
        let start = record w { should_notify = some false } in
        let same = ap (λ p. is_err p.0) (with_event_transaction_on m w on) in
        let kept = after_transaction-is_err w.should_notify (with_transaction svc m start) in
        (
          record start { in_transaction = true },
          refl,
          with_transaction_ran m start (sym kept ∙ (sym same ∙ h)),
        )
    | inr off ↦ (w, refl, ap (λ p. is_err p.0) (sym (with_event_transaction_off m w off)) ∙ h)
  ]
