-- ===== src/Mint/Laws.antt =====
-- app/auth/mint_tokens.py: what the command prints, and what the gateway makes of it.
use ai_k8s_gateway.Base.{
  ℕ, suc, ◌+◌, ◌*◌, String, ◌≡◌, ◌≢◌, refl, Bool, true, false, none, some, List, [], ◌∷◌, lookup,
  ap, ◌∙◌, if◌then◌else◌, eq_iff, arith,
}
use ai_k8s_gateway.Config.{Settings}
use ai_k8s_gateway.Errors.{ok, raise, value_error}
use ai_k8s_gateway.Auth.{Identity, agent_identities, Jwt, IsLawful, new_claims, create_token}
use ai_k8s_gateway.Auth.Laws.{IsAcceptedUntil, verify-create_token}
use ai_k8s_gateway.Mint.{
  bare_token, usage_example, agents_of, print_token, mint_all, main, prepend, exit_one,
}

module _ (jwt : Jwt) (settings : Settings) (now : ℕ → ℕ) (uuid : ℕ → String) where
  mint_all-ok :
      (bare : Bool) (i : ℕ) (agent : String) (agents : List String) (token : String)
      → create_token jwt settings (now i) (uuid i) agent ≡ ok token
      → mint_all jwt settings now uuid bare i (agent ∷ agents)
        ≡ prepend jwt settings now uuid
            (print_token jwt settings now uuid bare agent token)
            (mint_all jwt settings now uuid bare (suc i) agents)
  unfolding mint_all
  mint_all-ok bare i agent agents token e = rw (e, mint_all)

  mint_all-raise :
      (bare : Bool) (i : ℕ) (agent : String) (agents : List String)
      → create_token jwt settings (now i) (uuid i) agent ≡ raise value_error
      → mint_all jwt settings now uuid bare i (agent ∷ agents) ≡ exit_one jwt settings now uuid
  unfolding mint_all
  mint_all-raise bare i agent agents e = rw (e, mint_all)

  mint_all-nil :
      (bare : Bool) (i : ℕ)
      → mint_all jwt settings now uuid bare i []
        ≡ record { printed = if bare then [] else usage_example ∷ []; failed = false; status = 0 }
  unfolding mint_all
  mint_all-nil bare i = refl

  agents_of-one : (agent : String) → agent ≢ "" → agents_of (some agent) ≡ agent ∷ []
  unfolding agents_of
  agents_of-one agent h = ground (arith, eq_iff agent "")

  -- For a known agent with a name, and a token library that is lawful for the claims: the
  -- minting command with --agent and --bare prints one token and nothing else, with status 0,
  -- and the gateway accepts that token, with the agent's identity, as long as it has not
  -- expired.
  pub main-bare_token :
      (later : ℕ) (agent : String) (identity : Identity)
      → agent ≢ ""
      → lookup agent agent_identities ≡ some identity
      → IsLawful jwt (new_claims settings (now 0) (uuid 0) identity)
      → (token : String) × (main jwt settings now uuid (record { agent = some agent; bare = true })
          ≡ record { printed = bare_token token ∷ []; failed = false; status = 0 })
        × IsAcceptedUntil jwt settings (now 0 + settings.jwt_ttl_minutes * 60) later identity token
  unfolding main print_token
  main-bare_token later agent identity named known lawful =
      let (token, made, accepted) =
        verify-create_token jwt settings (now 0) later (uuid 0) agent identity known lawful in
      (
        token,
        ap (mint_all jwt settings now uuid true 0) (agents_of-one agent named)
            ∙ mint_all-ok true 0 agent [] token made
            ∙ ap (prepend jwt settings now uuid (bare_token token)) (mint_all-nil true 1),
        accepted,
      )

  -- An agent that is not known: nothing is printed, and the status is 1.
  pub main_unknown :
      (agent : String) (bare : Bool)
      → agent ≢ ""
      → lookup agent agent_identities ≡ none
      → main jwt settings now uuid (record { agent = some agent; bare = bare })
        ≡ exit_one jwt settings now uuid
  unfolding main create_token
  main_unknown agent bare named absent =
      ap (mint_all jwt settings now uuid bare 0) (agents_of-one agent named)
      ∙ mint_all-raise bare 0 agent [] (rw (absent, create_token))
