-- ===== src/Realtime/Connections/Access.antt =====
-- What stands behind a connection.
use inline_chat.Prelude.{
  refl, ap, [], ℕ, String, true, false, ◌==◌, ◌≡◌, str_eq, Option, inl, arith, ◌⊎◌, inr, Bool-cases,
  none, some,
}
use inline_chat.Prelude.Text.{trim_space, to_lower}
use inline_chat.Errors.{ok, Result-cases}
use inline_chat.Http.{passes, Checked-cases}
use inline_chat.Accounts.Tokens.{Claims, parse_token_any}
use inline_chat.Realtime.Upstream.{MeResult, SiteView, ChatConversation}
use inline_chat.Realtime.Connections.{
  Handler, ConnectionContext, call_me, agent_context, token_answer, visitor_context, caller_context,
  call_site, site_answer, validate_conversation_site, conversation_answer,
  resolve_connection_context,
}
use inline_chat.Grpc.{Answer, given, Answer-cases, failed_call}
use inline_chat.Realtime.Origins.{allowed_site_domains}

module _ {W : Type 0} (h : Handler W) where
  -- A token of an agent that verifies here, and of which auth-service says the same.
  abbrev pub IsAgentCaller : String → ℕ → W → ConnectionContext → Type 0
  IsAgentCaller token now w c =
      (claims : Claims) × (parse_token_any h.crypto h.jwt_secrets h.jwt_issuer now token
        ≡ ok claims)
      × (str_eq claims.role "agent" ≡ true)
      × (me : MeResult) × (call_me h h.upstream.me token w ≡ passes me)
      × (str_eq (trim_space me.role) "agent" ≡ true)
      × ((me.agent_id == claims.agent_id) ≡ true)
      × ((me.agent_id == 0) ≡ false)
      × (c ≡ record {
        role = "agent";
        agent_id = me.agent_id;
        site_id = trim_space me.site_id;
        site_domains = [];
        visitor_token = "";
      })

  agent_context-IsAgentCaller :
      (token : String) (now : ℕ) (w : W) (c : ConnectionContext)
      → agent_context h token now w ≡ passes c
      → IsAgentCaller token now w c
  unfolding agent_context token_answer
  agent_context-IsAgentCaller token now w c e =
      elim (Result-cases (parse_token_any h.crypto h.jwt_secrets h.jwt_issuer now token)) [
        | inl (x, a) ↦ absurd (ground (arith, a))
        | inr (claims, a) ↦ elim (Checked-cases (call_me h h.upstream.me token w)) [
          | inl (code, text, b) ↦ absurd (ground (arith, a, b))
          | inr (me, b) ↦ (
            claims,
            a,
            ground (arith, a, b),
            me,
            b,
            ground (arith, a, b),
            ground (arith, a, b),
            ground (arith, a, b),
            ground (arith, a, b),
          )
        ]
      ]

  -- The token of the conversation, as the visitor gives it.
  abbrev pub IsVisitorCaller : String → ConnectionContext → Type 0
  IsVisitorCaller token c =
      (str_eq token "" ≡ false)
      × (c ≡ record {
        role = "visitor";
        agent_id = 0;
        site_id = "";
        site_domains = [];
        visitor_token = token;
      })

  visitor_context-IsVisitorCaller :
      (token : String) (c : ConnectionContext)
      → visitor_context h token ≡ passes c
      → IsVisitorCaller token c
  unfolding visitor_context
  visitor_context-IsVisitorCaller token c e = (ground (arith, e), ground (arith, e))

  caller_context-cases :
      (access visitor : String) (now : ℕ) (w : W) (c : ConnectionContext)
      → caller_context h access visitor now w ≡ passes c
      → IsAgentCaller (trim_space access) now w c ⊎ IsVisitorCaller (trim_space visitor) c
  unfolding caller_context
  caller_context-cases access visitor now w c e =
      elim (Bool-cases (str_eq (trim_space access) "")) [
        | inl bare ↦
            inr (visitor_context-IsVisitorCaller (trim_space visitor) c (ground (arith, e, bare)))
        | inr typed ↦
            inl (agent_context-IsAgentCaller (trim_space access) now w c (ground (arith, e, typed)))
      ]

  -- The site is not looked up, or it is found and active.
  abbrev pub IsServed : String → W → Option SiteView → Type 0
  IsServed site_id w site =
      ((h.upstream.get_site ≡ none) × (site ≡ none))
      ⊎ ((get : String → W → Answer SiteView) × (found : SiteView) × (h.upstream.get_site
            ≡ some get)
          × (get (trim_space site_id) w ≡ given found)
          × (str_eq (trim_space (to_lower found.status)) "active" ≡ true)
          × (site ≡ some found))

  call_site-IsServed :
      (client : Option (String → W → Answer SiteView)) (site_id : String) (w : W)
      (site : Option SiteView)
      → h.upstream.get_site ≡ client
      → call_site h client site_id w ≡ passes site
      → IsServed site_id w site
  unfolding call_site site_answer
  call_site-IsServed none site_id w site e p = inl (e, ground (arith, p))
  call_site-IsServed (some get) site_id w site e p =
      elim (Answer-cases (get (trim_space site_id) w)) [
        | inl (x, a) ↦ absurd (ground (arith, a, p))
        | inr (found, a) ↦ inr (get, found, e, a, ground (arith, a, p), ground (arith, a, p))
      ]

  validate_conversation_site-IsServed :
      (site_id : String) (w : W) (site : Option SiteView)
      → validate_conversation_site h site_id w ≡ passes site
      → IsServed site_id w site
  unfolding validate_conversation_site
  validate_conversation_site-IsServed site_id w site =
      call_site-IsServed h.upstream.get_site site_id w site refl

  conversation_answer-given :
      (a : Answer ChatConversation) (c : ChatConversation)
      → conversation_answer a ≡ passes c
      → a ≡ given c
  unfolding conversation_answer
  conversation_answer-given (given d) c e = ground (arith, e)
  conversation_answer-given (failed_call x) c e = absurd (ground (arith, e))

  -- What stands behind a connection: a conversation with a site that is served, and either an agent of
  -- that site or the visitor who has the conversation's token.
  abbrev pub Granted : String → String → ℕ → ℕ → W → ConnectionContext → Type 0
  Granted access visitor conversation_id now w c =
      (conv : ChatConversation) × (caller : ConnectionContext) × (site : Option SiteView)
      × (h.upstream.get_conversation conversation_id w ≡ given conv)
      × (str_eq (trim_space conv.site_id) "" ≡ false)
      × IsServed (trim_space conv.site_id) w site
      × (c ≡ record caller {
        site_id = trim_space conv.site_id;
        site_domains = allowed_site_domains h.urls site;
      })
      × ((IsAgentCaller (trim_space access) now w caller
            × (str_eq caller.site_id (trim_space conv.site_id) ≡ true))
          ⊎ (IsVisitorCaller (trim_space visitor) caller
              × (str_eq conv.visitor_token caller.visitor_token ≡ true)
              × (str_eq (trim_space conv.visitor_token) "" ≡ false)))

  pub resolve_connection_context-Granted :
      (access visitor : String) (conversation_id now : ℕ) (w : W) (c : ConnectionContext)
      → resolve_connection_context h access visitor conversation_id now w ≡ passes c
      → Granted access visitor conversation_id now w c
  unfolding resolve_connection_context
  resolve_connection_context-Granted access visitor id now w c e =
      elim (Checked-cases (caller_context h access visitor now w)) [
        | inl (code, text, a) ↦ absurd (ground (arith, a))
        | inr (caller, a) ↦
            elim (Checked-cases (conversation_answer (h.upstream.get_conversation id w))) [
              | inl (code, text, b) ↦ absurd (ground (arith, a, b))
              | inr (conv, b) ↦
                  elim (Checked-cases (validate_conversation_site h (trim_space conv.site_id) w)) [
                    | inl (code, text, d) ↦ absurd (ground (arith, a, b, d))
                    | inr (site, d) ↦ (
                      conv,
                      caller,
                      site,
                      conversation_answer-given _ conv b,
                      ground (arith, a, b, d),
                      validate_conversation_site-IsServed (trim_space conv.site_id) w site d,
                      ground (arith, a, b, d),
                      (elim (caller_context-cases access visitor now w caller a) [
                        | inl mine ↦
                            let is_agent : str_eq caller.role "agent" ≡ true =
                              ap (λ x. str_eq x.role "agent") mine.8 in
                            inl (mine, ground (arith, a, b, d, is_agent))
                        | inr (filled, same) ↦
                            let is_visitor : str_eq caller.role "visitor" ≡ true =
                              ap (λ x. str_eq x.role "visitor") same in
                            inr (
                              (filled, same),
                              ground (arith, a, b, d, is_visitor),
                              ground (arith, a, b, d, is_visitor),
                            )
                      ]),
                    )
                  ]
            ]
      ]
