-- ===== src/Accounts/Tokens.antt =====
-- internal/security of auth-service: the tokens, over golang-jwt, and the passwords, over bcrypt, whose
-- operations are parameters.
use inline_chat.Prelude.{
  ℕ, ◌+◌, ◌≤◌, ◌<◌, ◌≡◌, String, Option, none, List, [], ◌∷◌, str_eq, if◌then◌else◌, not, ◌&&◌,
}
use inline_chat.Prelude.Text.{trim_space, format_uint, is_empty}
use inline_chat.Errors.{Error, Result, ok, err, invalid}
use Prim.Native.String.{◌++◌}

pub record Claims : Type 0 where
  pub agent_id : ℕ
  pub email : String
  pub role : String
  pub token_version : ℕ
  pub issuer : String
  pub subject : String
  pub issued_at : ℕ
  pub not_before : ℕ
  pub expires_at : ℕ

-- `sign` is SignedString with HS256; `parse` is ParseWithClaims with one secret, an issuer and the
-- clock; `hash` is GenerateFromPassword, and `compare` the error of CompareHashAndPassword. A token
-- parses with the secret that signed it, for its issuer, from not_before until before expires_at; a
-- password matches its hash.
pub record Crypto : Type 0 where
  pub sign : String → Claims → Result String
  pub parse : String → String → ℕ → String → Result Claims
  pub hash : String → ℕ → Result String
  pub compare_hash : String → String → Option Error
  pub parse_signed :
      (secret : String) (c : Claims) (token : String) (now : ℕ)
      → sign secret c ≡ ok token
      → c.not_before ≤ now
      → now < c.expires_at
      → parse secret c.issuer now token ≡ ok c
  pub compare_hashed :
      (raw : String) (cost : ℕ) (h : String) → hash raw cost ≡ ok h → compare_hash h raw ≡ none

-- The secrets are kept trimmed; a previous secret that is the same is dropped.
unfoldable pub build_jwt_verify_secrets : String → String → List String
unfolding trim_space
build_jwt_verify_secrets primary previous =
    let main = trim_space primary in
    let old = trim_space previous in
    let rest : List String =
      if not (str_eq old "") && not (str_eq old main) then old ∷ [] else [] in
    if not (str_eq main "") then main ∷ rest else rest

module _ (crypto : Crypto) where
  unfoldable pub issue_token : String → String → ℕ → ℕ → String → String → ℕ → ℕ → Result String
  unfolding format_uint
  issue_token secret issuer expire agent_id email role token_version now =
      crypto.sign secret (record {
        agent_id = agent_id;
        email = email;
        role = role;
        token_version = token_version;
        issuer = issuer;
        subject = "agent:" ++ format_uint agent_id;
        issued_at = now;
        not_before = now;
        expires_at = now + expire;
      })

  -- The last error, or that of an empty list.
  parse_each : List String → String → ℕ → String → Error → Result Claims
  unfolding is_empty
  parse_each [] issuer now token last = err last
  parse_each (secret ∷ secrets) issuer now token last =
      let skipped = parse_each secrets issuer now token last in
      let tried : Result Claims = elim (crypto.parse secret issuer now token) [
        | ok c ↦ ok c
        | err e ↦ parse_each secrets issuer now token e
      ] in
      if is_empty secret then skipped else tried

  unfoldable pub parse_token_any : List String → String → ℕ → String → Result Claims
  unfolding parse_each
  parse_token_any secrets issuer now token =
      parse_each secrets issuer now token (invalid "invalid token")
