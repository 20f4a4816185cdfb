-- ===== src/Grpc.antt =====
-- The answers of the gRPC servers: google.golang.org/grpc/codes, and a value or a status.
use inline_chat.Prelude.{String, Bool, true, false, Option, ◌≡◌, ◌⊎◌, inl, inr, refl}

pub data Code : Type 0 where
  invalid_argument missing already_exists permission_denied failed_precondition internal : Code
  unauthenticated deadline_exceeded unavailable : Code

pub record Status : Type 0 where
  pub code : Code
  pub text : String

pub data Reply {ℓ} (A : Type ℓ) : Type ℓ where
  answered : A → Reply A
  refused : Status → Reply A

abbrev pub is_refused {ℓ} : {A : Type ℓ} → Reply A → Bool
is_refused (answered a) = false
is_refused (refused s) = true

-- status.Error
abbrev pub refuse {ℓ} : {A : Type ℓ} → Code → String → Reply A
refuse code text = refused (record { code = code; text = text })

-- The error of a call over a client: the code, if it is a status, and `err.Error()`.
pub record CallError : Type 0 where
  pub code : Option Code
  pub text : String

-- What a client gives back.
pub data Answer {ℓ} (A : Type ℓ) : Type ℓ where
  given : A → Answer A
  failed_call : CallError → Answer A

pub Answer-cases {ℓ} :
    {A : Type ℓ} (a : Answer A)
    → ((e : CallError) × (a ≡ failed_call e)) ⊎ ((x : A) × (a ≡ given x))
Answer-cases (given x) = inr (x, refl)
Answer-cases (failed_call e) = inl (e, refl)
