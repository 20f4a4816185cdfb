-- ===== src/Http.antt =====
-- The checks of an HTTP handler: a value, or the status code and the error that end the request. And
-- the parts of an address, which net/url reads.
use inline_chat.Prelude.{ℕ, String, Bool, Option, if◌then◌else◌, ◌≡◌, ◌⊎◌, inl, inr, refl}

pub data Checked {ℓ} (A : Type ℓ) : Type ℓ where
  passes : A → Checked A
  rejects : ℕ → String → Checked A

pub Checked-cases {ℓ} :
    {A : Type ℓ} (c : Checked A)
    → ((code : ℕ) × (text : String) × (c ≡ rejects code text)) ⊎ ((x : A) × (c ≡ passes x))
Checked-cases (passes x) = inr (x, refl)
Checked-cases (rejects code text) = inl (code, text, refl)

infixl 5 ◌>>=◌ ◌>>◌
abbrev pub ◌>>=◌ : {A B : Type 0} → Checked A → (A → Checked B) → Checked B
m >>= f = elim m [ passes a ↦ f a | rejects code text ↦ rejects code text ]

abbrev pub ◌>>◌ : {A B : Type 0} → Checked A → Checked B → Checked B
m >> k = m >>= λ _. k

abbrev pub reject_if : Bool → ℕ → String → Checked (Unit {0})
reject_if b code text = if b then rejects code text else passes tt

-- url.URL with Hostname() and Port().
pub record Url : Type 0 where
  pub scheme : String
  pub host : String
  pub hostname : String
  pub port : String

-- url.Parse, where `none` is its error.
abbrev pub UrlParser : Type 0
UrlParser = String → Option Url
