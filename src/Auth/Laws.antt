-- ===== src/Auth/Laws.antt =====
-- app/auth/jwt_handler.py: minting against verifying, and the claims of an accepted token.
use ai_k8s_gateway.Base.{
  ℕ, ◌+◌, ◌*◌, ◌<◌, ◌≤◌, ◌≡◌, refl, ◌≢◌, ◌⊎◌, String, false, some, [], ◌∷◌, arith, lookup, inl, inr,
  ap, Option-cases, Bool-cases, leb, subst,
}
use ai_k8s_gateway.Config.{Settings}
use ai_k8s_gateway.Errors.{Exception, ◌>>=◌, Result, ok, raise, bind-eq-ok}
use ai_k8s_gateway.Value.{Value, null, str, Params, get_or, get_or-some, get_or-none, is_none}
use ai_k8s_gateway.Auth.{
  Identity, agent_identities, claims_dict, Jwt, IsLawful, new_claims, auth_error, mint,
  create_token, or_auth_error, require_claims, verify_token,
}

-- A claim that is there and is not null.
abbrev pub HasClaim : String → Params → Type 0
HasClaim key payload = (v : Value) × (lookup key payload ≡ some v) × (v ≢ null)

claim_of : (key : String) (p : Params) → is_none (get_or null key p) ≡ false → HasClaim key p
claim_of key p h = elim (Option-cases (lookup key p)) [
  | inl absent ↦ let h' = rw (get_or-none null null key p absent) at h in cc
  | inr (v, found) ↦
      (v, found, λ e. let h' = rw (get_or-some null v key p found) at h in cc (ap is_none e))
]

-- `payload` names the subject and the role of `identity`.
abbrev pub Names : Identity → Params → Type 0
Names identity payload =
    (lookup "sub" payload ≡ some (str identity.sub))
    × (lookup "role" payload ≡ some (str identity.role))

module _ (jwt : Jwt) (settings : Settings) where
  -- What the gateway says at time `later` to a token of `identity` that expires at `exp`.
  abbrev pub IsAcceptedUntil : (exp later : ℕ) → Identity → (token : String) → Type 0
  IsAcceptedUntil exp later identity token =
      ((later ≤ exp)
        × (p : Params) × (verify_token jwt settings later token ≡ ok p)
        × Names identity p)
      ⊎ ((exp < later) × (verify_token jwt settings later token ≡ raise auth_error))

  mint-IsAcceptedUntil :
      (now later : ℕ) (jti : String) (identity : Identity)
      → IsLawful jwt (new_claims settings now jti identity)
      → IsAcceptedUntil
          (now + settings.jwt_ttl_minutes * 60)
          later
          identity
          (mint jwt settings now jti identity)
  unfolding verify_token mint lookup
  mint-IsAcceptedUntil now later jti identity lawful =
      let c = new_claims settings now jti identity in
      elim (Bool-cases (leb later c.exp)) [
        | inl early ↦
            let h : later ≤ c.exp = ground arith in
            inl (
              h,
              claims_dict c,
              rw (lawful.fresh settings.jwt_secret settings.jwt_algorithm later h),
              (refl, refl),
            )
        | inr late ↦
            let h : c.exp < later = ground arith in
            inr (h, rw (lawful.expired settings.jwt_secret settings.jwt_algorithm later h))
      ]

  -- For a known agent a token is minted. If the token library is lawful for the token's
  -- claims, then the gateway accepts the token, with the subject and the role of the agent's
  -- identity, up to the end of its lifetime, and answers it with the 401 error afterwards.
  pub verify-create_token :
      (now later : ℕ) (jti agent_id : String) (identity : Identity)
      → lookup agent_id agent_identities ≡ some identity
      → IsLawful jwt (new_claims settings now jti identity)
      → (token : String) × (create_token jwt settings now jti agent_id ≡ ok token)
        × IsAcceptedUntil (now + settings.jwt_ttl_minutes * 60) later identity token
  unfolding create_token mint
  verify-create_token now later jti agent_id identity known lawful = (
    mint jwt settings now jti identity,
    rw (known, create_token),
    mint-IsAcceptedUntil now later jti identity lawful,
  )

  require_claims-HasClaim :
      (payload p : Params)
      → require_claims jwt settings payload ≡ ok p
      → (payload ≡ p) × HasClaim "sub" p × HasClaim "role" p
  unfolding require_claims
  require_claims-HasClaim payload p e =
      let same : payload ≡ p = ground arith in
      let sub : is_none (get_or null "sub" payload) ≡ false = ground arith in
      let role : is_none (get_or null "role" payload) ≡ false = ground arith in
      (
        same,
        subst (HasClaim "sub") same (claim_of "sub" payload sub),
        subst (HasClaim "role") same (claim_of "role" payload role),
      )

  or_auth_error-eq-ok :
      (r : Result Params) (p : Params) → or_auth_error jwt settings r ≡ ok p → r ≡ ok p
  unfolding or_auth_error
  or_auth_error-eq-ok r p e = ground arith

  pub create_token-known :
      (now : ℕ) (jti agent_id : String) (identity : Identity)
      → lookup agent_id agent_identities ≡ some identity
      → (token : String) × (create_token jwt settings now jti agent_id ≡ ok token)
  unfolding create_token
  create_token-known now jti agent_id identity known =
      (mint jwt settings now jti identity, rw (known, create_token))

  checked-raises :
      (r : Result Params) (x : Exception)
      → or_auth_error jwt settings r >>= require_claims jwt settings ≡ raise x
      → (x ≡ auth_error) ⊎ (r ≡ raise x)
  unfolding or_auth_error require_claims
  checked-raises r x e = ground arith

  -- Verifying a token raises the 401 error or what the token library raised.
  pub verify_token-raises :
      (now : ℕ) (token : String) (x : Exception)
      → verify_token jwt settings now token ≡ raise x
      → (x ≡ auth_error)
        ⊎ (jwt.decode now token settings.jwt_secret (settings.jwt_algorithm ∷ []) ≡ raise x)
  unfolding verify_token
  verify_token-raises now token x e =
      checked-raises (jwt.decode now token settings.jwt_secret (settings.jwt_algorithm ∷ [])) x e

  -- A payload that verifying a token returns is what the token library decoded under the
  -- gateway's secret and algorithm, and it holds a subject and a role that are not null.
  pub verify_token-HasClaim :
      (now : ℕ) (token : String) (p : Params)
      → verify_token jwt settings now token ≡ ok p
      → (jwt.decode now token settings.jwt_secret (settings.jwt_algorithm ∷ []) ≡ ok p)
        × HasClaim "sub" p
        × HasClaim "role" p
  unfolding verify_token
  verify_token-HasClaim now token p e =
      let decoded = jwt.decode now token settings.jwt_secret (settings.jwt_algorithm ∷ []) in
      let (payload, read, checked) =
        bind-eq-ok (or_auth_error jwt settings decoded) (require_claims jwt settings) e in
      let (same, sub, role) = require_claims-HasClaim payload p checked in
      (or_auth_error-eq-ok decoded p (rw (← same) read), sub, role)
