-- ===== src/Auth.antt =====
-- app/auth/jwt_handler.py: minting and verifying tokens. The JWT library and the clock are
-- parameters.
pub mod Laws
use ai_k8s_gateway.Base.{
  ℕ, ◌+◌, ◌*◌, ◌<◌, ◌≤◌, ◌≡◌, ◌≢◌, String, Bool, ◌&&◌, ◌||◌, Option, none, some, List, [], ◌∷◌,
  if◌then◌else◌, ◌==◌, lookup,
}
use ai_k8s_gateway.Base.Int.{pos}
use ai_k8s_gateway.Config.{Settings}
use ai_k8s_gateway.Errors.{
  Exception, value_error, runtime_error, jwt_error, http_exception, Result, ok, raise, ◌>>=◌,
}
use ai_k8s_gateway.Value.{Value, null, int, str, Params, get_or, is_none}

-- The start-up check of the module.
unfoldable pub check_secret : Settings → Result (Unit {0})
check_secret settings =
    if settings.k8s_in_cluster && settings.jwt_secret == "dev-secret-change-in-production"
    then raise runtime_error
    else ok tt

pub record Identity : Type 0 where
  pub role : String
  pub sub : String

abbrev pub agent_identities : List (String × Identity)
agent_identities =
    ("agent-readonly", record { role = "readonly"; sub = "agent-readonly" })
    ∷ ("agent-deploy", record { role = "deployer"; sub = "agent-deploy" })
    ∷ []

-- The payload of a minted token; times in seconds.
pub record TokenClaims : Type 0 where
  pub sub : String
  pub role : String
  pub jti : String
  pub iat : ℕ
  pub exp : ℕ

-- The claims as the dict that decoding gives back.
abbrev pub claims_dict : TokenClaims → Params
claims_dict c =
    ("sub", str c.sub)
    ∷ ("role", str c.role)
    ∷ ("jti", str c.jti)
    ∷ ("iat", int (pos c.iat))
    ∷ ("exp", int (pos c.exp))
    ∷ []

-- `jose.jwt`: `encode claims secret algorithm`, and `decode now token secret algorithms`.
pub record Jwt : Type 0 where
  pub encode : TokenClaims → String → String → String
  pub decode : ℕ → String → String → List String → Result Params

-- What the library documents of a token with these claims: it decodes to them under its own secret
-- until it expires, and is a JWTError afterwards.
pub record IsLawful (jwt : Jwt) (c : TokenClaims) : Type 0 where
  pub fresh :
      (secret algorithm : String) (now : ℕ)
      → now ≤ c.exp
      → jwt.decode now (jwt.encode c secret algorithm) secret (algorithm ∷ []) ≡ ok (claims_dict c)
  pub expired :
      (secret algorithm : String) (now : ℕ)
      → c.exp < now
      → jwt.decode now (jwt.encode c secret algorithm) secret (algorithm ∷ []) ≡ raise jwt_error

abbrev pub auth_error : Exception
auth_error = http_exception 401 (str "Invalid or expired token. Include a valid Bearer JWT.")

-- The payload of a new token: `jti` is the fresh UUID.
abbrev pub new_claims : Settings → (now : ℕ) (jti : String) → Identity → TokenClaims
new_claims settings now jti identity = record {
  sub = identity.sub;
  role = identity.role;
  jti = jti;
  iat = now;
  exp = now + settings.jwt_ttl_minutes * 60;
}

module _ (jwt : Jwt) (settings : Settings) where
  pub mint : (now : ℕ) (jti : String) → Identity → String
  mint now jti identity =
      jwt.encode (new_claims settings now jti identity) settings.jwt_secret settings.jwt_algorithm

  unfoldable pub create_token : (now : ℕ) (jti agent_id : String) → Result String
  unfolding mint lookup
  create_token now jti agent_id = elim (lookup agent_id agent_identities) [
    | none ↦ raise value_error
    | some identity ↦ ok (mint now jti identity)
  ]

  -- The `except JWTError` handler.
  pub or_auth_error : Result Params → Result Params
  or_auth_error (raise jwt_error) = raise auth_error
  or_auth_error r = r

  -- The checks on the claims.
  pub require_claims : Params → Result Params
  unfolding get_or
  require_claims payload =
      if is_none (get_or null "sub" payload) || is_none (get_or null "role" payload)
      then raise auth_error
      else ok payload

  unfoldable pub verify_token : (now : ℕ) (token : String) → Result Params
  unfolding or_auth_error require_claims
  verify_token now token = do
    payload ← or_auth_error (jwt.decode now token settings.jwt_secret (settings.jwt_algorithm ∷ []))
    require_claims payload
