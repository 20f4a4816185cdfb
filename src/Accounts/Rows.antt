-- ===== src/Accounts/Rows.antt =====
-- Rows of agents that are saved and read back.
use inline_chat.Prelude.{
  ℕ, ◌≡◌, Bool, true, false, ◌==◌, List, [], ◌∷◌, Option, none, some, arith, refl, sym, ap, ◌∙◌,
  inl, inr, Bool-cases, head?, filter, take, ltb, ==_iff,
}
use inline_chat.Errors.{Result-cases, ok, is_err}
use inline_chat.Store.{upsert, replace, insert_by, has_key, select, first_where, or_not_found}
use inline_chat.Accounts.{Accounts, AccountTables, agent_by_id, save_agent}
use inline_chat.Accounts.Model.{Agent}

-- The first row with a key, after a row with that key was saved.
head-replace :
    (a : Agent) (xs : List Agent)
    → has_key (λ x. x.id) a.id xs ≡ true
    → head? (filter (λ x. x.id == a.id) (replace (λ x. x.id) a xs)) ≡ some a
head-replace a [] h = cc
head-replace a (x ∷ xs) h = elim (Bool-cases (x.id == a.id)) [
  | inl e ↦ rw e (ground arith)
  | inr e ↦ rw e (rw e (head-replace a xs (ground arith)))
]

head-insert_by :
    (a : Agent) (xs : List Agent)
    → has_key (λ x. x.id) a.id xs ≡ false
    → head? (filter (λ x. x.id == a.id) (insert_by (λ x. x.id) a xs)) ≡ some a
head-insert_by a [] h = ground arith
head-insert_by a (x ∷ xs) h = elim (Bool-cases (ltb a.id x.id)) [
  | inl e ↦ rw e (ground arith)
  | inr e ↦ rw e (ground (arith, head-insert_by a xs))
]

head-upsert :
    (a : Agent) (xs : List Agent)
    → head? (filter (λ x. x.id == a.id) (upsert (λ x. x.id) a xs)) ≡ some a
head-upsert a xs = elim (Bool-cases (has_key (λ x. x.id) a.id xs)) [
  | inl e ↦ rw e (head-replace a xs e)
  | inr e ↦ rw e (head-insert_by a xs e)
]

head-take : (xs : List Agent) → head? (take 1 xs) ≡ head? xs
head-take [] = refl
head-take (x ∷ xs) = refl

head-select_first :
    (p : Agent → Bool) (xs : List Agent) → head? (select (first_where p) xs) ≡ head? (filter p xs)
head-select_first p xs = head-take (filter p xs)

some_of_found : (o : Option Agent) (a : Agent) → or_not_found (ok o) ≡ ok a → o ≡ some a
some_of_found none a h = cc
some_of_found (some b) a h = cc

module _ {A P : Type 0} (tables : AccountTables A P) where
  pub agent_by_id-row :
      (id : ℕ) (w : Accounts A P) (a : Agent)
      → (agent_by_id tables id w).0 ≡ ok a
      → head? (filter (λ x. x.id == id) (tables.agent_table.rows w.agents)) ≡ some a
  unfolding agent_by_id
  agent_by_id-row id w a h =
      elim (Result-cases (tables.agent_table.first (first_where (λ x. x.id == id)) w.agents)) [
        | inl (x, e) ↦ absurd (ground (arith, e))
        | inr (o, e) ↦
            let law = tables.agent_table.first_law (first_where (λ x. x.id == id)) w.agents o e in
            let found : o ≡ some a = some_of_found o a (ground (arith, e)) in
            sym (head-select_first (λ x. x.id == id) (tables.agent_table.rows w.agents))
            ∙ (sym law ∙ found)
      ]

  save_agent-rows :
      (a : Agent) (w : Accounts A P)
      → is_err (save_agent tables a w).0 ≡ false
      → tables.agent_table.rows (save_agent tables a w).1.agents
        ≡ upsert (λ x. x.id) a (tables.agent_table.rows w.agents)
  unfolding save_agent
  save_agent-rows a w h = elim (Result-cases (tables.agent_table.save a w.agents)) [
    | inl (x, e) ↦ absurd (ground (arith, e))
    | inr (s, e) ↦ rw (e, save_agent) (tables.agent_table.save_rows a w.agents s e)
  ]

  -- What is saved is what is found.
  pub save_agent-agent_by_id :
      (a b : Agent) (w w' : Accounts A P)
      → is_err (save_agent tables a w).0 ≡ false
      → w'.agents ≡ (save_agent tables a w).1.agents
      → (agent_by_id tables a.id w').0 ≡ ok b
      → b ≡ a
  save_agent-agent_by_id a b w w' saved same found =
      let rows = ap (λ s. tables.agent_table.rows s) same ∙ save_agent-rows a w saved in
      let first = sym (agent_by_id-row a.id w' b found) in
      let stored =
        first
        ∙ (ap (λ xs. head? (filter (λ x. x.id == a.id) xs)) rows
            ∙ head-upsert a (tables.agent_table.rows w.agents)) in
      cc stored

first_of :
    (p : Agent → Bool) (x : Agent) (xs : List Agent) (a : Agent)
    → p x ≡ true
    → head? (filter p (x ∷ xs)) ≡ some a
    → a ≡ x
first_of p x xs a e h = ground (arith, e)

head-filter :
    (p : Agent → Bool) (xs : List Agent) (a : Agent) → head? (filter p xs) ≡ some a → p a ≡ true
head-filter p [] a h = cc
head-filter p (x ∷ xs) a h = elim (Bool-cases (p x)) [
  | inl e ↦ ap p (first_of p x xs a e h) ∙ e
  | inr e ↦ head-filter p xs a (ground (arith, e))
]

pub agent_by_id-id :
    {A P : Type 0} (tables : AccountTables A P) (id : ℕ) (w : Accounts A P) (a : Agent)
    → (agent_by_id tables id w).0 ≡ ok a
    → a.id ≡ id
agent_by_id-id tables id w a h = (==_iff a.id id).0 (
    head-filter (λ x. x.id == id) (tables.agent_table.rows w.agents) a
      (agent_by_id-row tables id w a h))
