-- ===== src/Chat/Repository/Outbox.antt =====
-- GormEventOutboxRepository of services/chat-service/internal/repository/repository.go.
use inline_chat.Prelude.{
  ℕ, ◌+◌, String, Bool, true, false, not, ◌&&◌, ◌||◌, Option, none, some, List, [], ◌∷◌, map, ◌==◌,
  leb, str_eq,
}
use inline_chat.Prelude.Int.{ℤ, positive_or}
use inline_chat.Chat.Model.{EventOutbox}
use inline_chat.Chat.OutboxStatus
use inline_chat.Store.{Query}
use inline_chat.Chat.World.{Service, Action, pure, ◌>>=◌, ◌>>◌}
use inline_chat.Chat.Repository.{on_outbox, with_transaction}

-- `t IS NOT NULL AND t <= bound`
abbrev pub at_most : Option ℕ → ℕ → Bool
at_most none bound = false
at_most (some t) bound = leb t bound

-- `t IS NULL OR t <= bound`
abbrev pub absent_or_at_most : Option ℕ → ℕ → Bool
absent_or_at_most none bound = true
absent_or_at_most (some t) bound = leb t bound

abbrev pub is_due : ℕ → EventOutbox → Bool
is_due retryable_before e =
    str_eq e.status OutboxStatus.pending && absent_or_at_most e.next_retry_at retryable_before

abbrev pub is_stale : ℕ → EventOutbox → Bool
is_stale stale_before e =
    str_eq e.status OutboxStatus.processing && at_most e.processing_at stale_before

abbrev pub is_dead : EventOutbox → Bool
is_dead e = str_eq e.status OutboxStatus.dead

abbrev pub has_id : ℕ → EventOutbox → Bool
has_id id e = e.id == id

-- `id IN ids`
abbrev pub has_id_in : List ℕ → EventOutbox → Bool
has_id_in [] e = false
has_id_in (id ∷ ids) e = e.id == id || has_id_in ids e

-- The column updates.
abbrev pub take_up : ℕ → EventOutbox → EventOutbox
take_up now e = record e {
  status = OutboxStatus.processing;
  attempts = e.attempts + 1;
  processing_at = some now;
}

abbrev pub publish_row : ℕ → EventOutbox → EventOutbox
publish_row at e = record e {
  status = OutboxStatus.published;
  published_at = some at;
  processing_at = none;
  next_retry_at = none;
  last_error = "";
}

abbrev pub retry_row : ℕ → String → EventOutbox → EventOutbox
retry_row at error e = record e {
  status = OutboxStatus.pending;
  processing_at = none;
  next_retry_at = some at;
  last_error = error;
}

abbrev pub bury_row : String → EventOutbox → EventOutbox
bury_row error e = record e {
  status = OutboxStatus.dead;
  processing_at = none;
  next_retry_at = none;
  last_error = error;
}

abbrev pub replay_row : ℕ → EventOutbox → EventOutbox
replay_row now e = record e {
  status = OutboxStatus.pending;
  processing_at = none;
  next_retry_at = some now;
  last_error = "";
}

abbrev pub requeue_row : ℕ → EventOutbox → EventOutbox
requeue_row now e = record e {
  status = OutboxStatus.pending;
  processing_at = none;
  next_retry_at = some now;
}

module _ {C M O : Type 0} (svc : Service C M O) where
  unfoldable pub create : EventOutbox → Action C M O EventOutbox
  unfolding on_outbox
  create e = on_outbox svc (λ s. svc.outbox_table.insert e s)

  unfoldable pub update_outbox :
      Option ℕ → (EventOutbox → Bool) → (EventOutbox → EventOutbox) → Action C M O ℕ
  unfolding on_outbox
  update_outbox bound p f = on_outbox svc (svc.outbox_table.update bound p f)

  unfoldable pub find_due : ℕ → ℕ → (ℕ → Bool) → Action C M O (List EventOutbox)
  find_due limit retryable_before locked w =
      let q : Query EventOutbox = record {
        matches = λ e. is_due retryable_before e && not (locked e.id);
        descending = false;
        limit = some limit;
        offset = 0;
      } in
      (svc.outbox_table.find q w.store.outbox, w)

  unfoldable pub take_up_all : ℕ → List EventOutbox → Action C M O (List EventOutbox)
  unfolding update_outbox
  take_up_all now [] = pure []
  take_up_all now (e ∷ es) = do
    update_outbox none (has_id_in (map (λ x. x.id) (e ∷ es))) (take_up now)
    pure (map (take_up now) (e ∷ es))

  -- `locked` tells the rows that other transactions hold, which SKIP LOCKED passes over.
  unfoldable pub fetch_in_transaction : ℤ → ℕ → ℕ → (ℕ → Bool) → Action C M O (List EventOutbox)
  unfolding find_due take_up_all
  fetch_in_transaction limit retryable_before now locked = do
    es ← find_due (positive_or 100 limit) retryable_before locked
    take_up_all now es

  unfoldable pub fetch_pending_for_update : ℤ → ℕ → ℕ → (ℕ → Bool) → Action C M O (List EventOutbox)
  unfolding with_transaction fetch_in_transaction
  fetch_pending_for_update limit retryable_before now locked =
      with_transaction svc (fetch_in_transaction limit retryable_before now locked)

  unfoldable pub mark_published : ℕ → ℕ → Action C M O ℕ
  unfolding update_outbox
  mark_published id at = update_outbox none (has_id id) (publish_row at)

  unfoldable pub mark_for_retry : ℕ → ℕ → String → Action C M O ℕ
  unfolding update_outbox
  mark_for_retry id at error = update_outbox none (has_id id) (retry_row at error)

  unfoldable pub mark_dead : ℕ → String → Action C M O ℕ
  unfolding update_outbox
  mark_dead id error = update_outbox none (has_id id) (bury_row error)

  unfoldable pub replay_dead : ℤ → ℕ → Action C M O ℕ
  unfolding update_outbox
  replay_dead limit now = update_outbox (some (positive_or 100 limit)) is_dead (replay_row now)

  unfoldable pub requeue_stale_processing : ℕ → ℕ → Action C M O ℕ
  unfolding update_outbox
  requeue_stale_processing stale_before now =
      update_outbox none (is_stale stale_before) (requeue_row now)
