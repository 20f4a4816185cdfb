-- ===== src/Auth/Tests.antt =====
-- An auth-service in memory.
use inline_chat.Prelude.{◌≡◌, ◌⊎◌, refl, List, [], ◌∷◌, arith}
use inline_chat.Prelude.Text.{to_lower, trim_space, is_empty}
use inline_chat.Errors.{ok}
use inline_chat.Effects.{pure, ◌>>=◌}
use inline_chat.Accounts.{super_admin_by_email, agent_by_email}
use inline_chat.Accounts.Model.{Agent, SuperAdmin}
use inline_chat.Accounts.Tests.{tables, crypto, ascii, accounts, ann}
use inline_chat.Auth.{AuthService, AuthResult, as_agent, login, validate_token, check_session}
use inline_chat.Auth.Sessions.{login-Admitted, login-validate_token, Admitted, claims_of}

abbrev pub service : AuthService (List Agent) (List SuperAdmin)
service = record {
  tables = tables;
  crypto = crypto;
  letters = ascii;
  jwt_secret = "secret";
  jwt_verify_secrets = "secret" ∷ [];
  jwt_issuer = "inlinechat";
  jwt_expire = 3600;
  bcrypt_cost = 10;
  super_admin_email = "root@x.io";
  super_admin_password = "Battery-staple1";
  super_admin_display_name = "Root";
}

abbrev result : AuthResult
result = record { token = "token-7"; agent = ann }

logged_in : (login service " Ann@x.io" "Correct-horse1" 1000 accounts).0 ≡ ok result
unfolding login
logged_in = refl

login-Admitted_example :
    ((a : SuperAdmin) × ((super_admin_by_email tables
          (to_lower (trim_space " Ann@x.io"))
          accounts).0
        ≡ ok a)
      × (ann ≡ as_agent a)
      × Admitted service a.status a.password_hash "Correct-horse1")
    ⊎ ((a : Agent) × ((agent_by_email tables (to_lower (trim_space " Ann@x.io")) accounts).0 ≡ ok a)
        × (ann ≡ a)
        × Admitted service a.status a.password_hash "Correct-horse1")
login-Admitted_example =
    login-Admitted service " Ann@x.io" "Correct-horse1" 1000 accounts result logged_in

login-validate_token_example :
    validate_token service "token-7" 2000 accounts
    ≡ (check_session service (claims_of service ann 1000) >>= λ u.
          pure (claims_of service ann 1000))
        accounts
unfolding is_empty
login-validate_token_example =
    login-validate_token service [] " Ann@x.io" "Correct-horse1" 1000 2000 accounts accounts result
      (refl, refl) logged_in (omega arith) (omega arith)
