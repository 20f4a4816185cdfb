-- ===== src/Chat/Repository/Conversations.antt =====
-- GormConversationRepository of services/chat-service/internal/repository/repository.go.
pub mod Validity
use inline_chat.Prelude.{
  ℕ, String, Bool, true, not, ◌&&◌, ◌||◌, Option, none, some, List, ◌==◌, str_eq, is_some,
  if◌then◌else◌,
}
use inline_chat.Errors.{ok, err}
use inline_chat.Chat.Model.{Conversation}
use inline_chat.Chat.Lifecycle.{Mutated, points_to}
use inline_chat.Store.{Query}
use inline_chat.Chat.World.{Service, Action, pure, ◌>>=◌, ◌>>◌}
use inline_chat.Chat.Repository.{
  or_not_found, first_where, latest_where, on_conversations, with_transaction,
}

pub record ListConversationsFilter : Type 0 where
  pub status : String
  pub site_id : String
  pub assigned_agent_id : Option ℕ
  pub unassigned_only : Bool
  pub limit : ℕ
  pub offset : ℕ

abbrev pub agent_matches : Option ℕ → Conversation → Bool
agent_matches none c = true
agent_matches (some agent) c = points_to c.assigned_agent_id agent

-- The WHERE clauses of List, each added under its test.
abbrev pub listed : ListConversationsFilter → Conversation → Bool
listed f c =
    (str_eq f.status "" || str_eq c.status f.status)
    && (str_eq f.site_id "" || str_eq c.site_id f.site_id)
    && agent_matches f.assigned_agent_id c
    && (not f.unassigned_only || not (is_some c.assigned_agent_id))

-- The open conversations of a visitor at a site.
abbrev pub open_for : String → String → Conversation → Bool
open_for site token c =
    str_eq c.site_id site && str_eq c.visitor_token token && str_eq c.status "open"

module _ {C M O : Type 0} (svc : Service C M O) where
  unfoldable pub create : Conversation → Action C M O Conversation
  unfolding on_conversations
  create c = on_conversations svc (λ s. svc.conversation_table.insert c s)

  unfoldable pub get_by_id : ℕ → Action C M O Conversation
  get_by_id id w = (
    or_not_found
        (svc.conversation_table.first (first_where (λ c. c.id == id)) w.store.conversations),
    w,
  )

  unfoldable pub get_latest_open_by_site_visitor : String → String → Action C M O Conversation
  get_latest_open_by_site_visitor site token w = (
    or_not_found
        (svc.conversation_table.first (latest_where (open_for site token)) w.store.conversations),
    w,
  )

  unfoldable pub list : ListConversationsFilter → Action C M O (List Conversation)
  list f w =
      let q : Query Conversation = record {
        matches = listed f;
        descending = true;
        limit = some f.limit;
        offset = f.offset;
      } in
      (svc.conversation_table.find q w.store.conversations, w)

  save : Conversation → Action C M O (Unit {0})
  unfolding on_conversations
  save c =
      on_conversations svc
        λ s. elim (svc.conversation_table.save c s) [ ok s' ↦ ok (tt, s') | err e ↦ err e ]

  save_if_changed : {A : Type 0} → Mutated A → Action C M O (Mutated A)
  unfolding save
  save_if_changed m = if m.changed then (do save m.row; pure m) else pure m

  -- `mutateInDB`. The row is locked between the SELECT and the end of the transaction.
  unfoldable pub mutate_in_db :
      {A : Type 0} → ℕ → (Conversation → Action C M O (Mutated A)) → Action C M O (Mutated A)
  unfolding get_by_id save_if_changed
  mutate_in_db id mutation = do c ← get_by_id id; m ← mutation c; save_if_changed m

  unfoldable pub mutate :
      {A : Type 0} → ℕ → (Conversation → Action C M O (Mutated A)) → Action C M O (Mutated A)
  unfolding mutate_in_db with_transaction
  mutate id mutation w =
      if w.in_transaction
      then mutate_in_db id mutation w
      else with_transaction svc (mutate_in_db id mutation) w
