-- ===== src/Errors.antt =====
-- The errors of the services and of their repositories, which are of one type in Go.
use Prim.Native.String.{◌++◌}
use inline_chat.Prelude.{String, Bool, true, false, ◌||◌, ◌≡◌, refl, ◌⊎◌, inr, inl}
use inline_chat.Prelude.Text.{to_lower, contains}

-- The sentinels by name: those of chat-service, those of auth-service and admin-service, where
-- `resource_not_found` is the ErrNotFound of the admin service, and `not_found`, the ErrNotFound of the
-- repositories. `invalid` is an error made by
-- fmt.Errorf with its text, `wrapped` one made with the verb %w, `failed` one that the database, the
-- clock or the lock service reports, with its text.
pub data Error : Type 0 where
  conversation_not_found conversation_already_claimed conversation_unassigned : Error
  conversation_closed transfer_pending transfer_not_pending message_not_found forbidden : Error
  unauthorized invalid_credentials conflict invalid_session resource_not_found : Error
  not_found : Error
  invalid : String → Error
  failed : String → Error
  wrapped : String → Error → Error

pub data Result {ℓ} (A : Type ℓ) : Type ℓ where
  ok : A → Result A
  err : Error → Result A

abbrev pub is_err {ℓ} : {A : Type ℓ} → Result A → Bool
is_err (ok a) = false
is_err (err e) = true

-- errors.Is(err, repository.ErrNotFound)
abbrev pub is_not_found : Error → Bool
is_not_found not_found = true
is_not_found (wrapped s e) = is_not_found e
is_not_found _ = false

-- err.Error()
unfoldable pub error_text : Error → String
error_text conversation_not_found = "conversation not found"
error_text conversation_already_claimed = "conversation already claimed by another agent"
error_text conversation_unassigned = "conversation is unassigned"
error_text conversation_closed = "conversation is already closed"
error_text transfer_pending = "conversation transfer is pending confirmation"
error_text transfer_not_pending = "conversation transfer is not pending confirmation"
error_text message_not_found = "message not found"
error_text forbidden = "forbidden"
error_text unauthorized = "unauthorized"
error_text invalid_credentials = "invalid credentials"
error_text conflict = "conflict"
error_text invalid_session = "invalid session"
error_text resource_not_found = "not found"
error_text not_found = "not found"
error_text (invalid s) = s
error_text (failed s) = s
error_text (wrapped s e) = s ++ ": " ++ error_text e

unfoldable pub is_duplicate_message_err : Error → Bool
unfolding error_text to_lower contains
is_duplicate_message_err e =
    let msg = to_lower (error_text e) in
    contains msg "duplicate" || contains msg "unique" || contains msg "1062"

mysql_duplicate :
    is_duplicate_message_err (failed "Error 1062 (23000): Duplicate entry '1-x'") ≡ true
unfolding is_duplicate_message_err
mysql_duplicate = refl

other_failure : is_duplicate_message_err (failed "context deadline exceeded") ≡ false
unfolding is_duplicate_message_err
other_failure = refl

pub ok-injective {ℓ} : {A : Type ℓ} {a b : A} → ok a ≡ ok b → a ≡ b
ok-injective e = cc

pub Result-cases {ℓ} :
    {A : Type ℓ} (r : Result A) → ((e : Error) × (r ≡ err e)) ⊎ ((a : A) × (r ≡ ok a))
Result-cases (ok a) = inr (a, refl)
Result-cases (err e) = inl (e, refl)
