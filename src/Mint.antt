-- ===== src/Mint.antt =====
-- app/auth/mint_tokens.py: the command that prints tokens. The reading of the command line is argparse's;
-- what is printed is kept as data, one constructor for each block of text.
pub mod Laws
use ai_k8s_gateway.Base.{
  ℕ, suc, String, Bool, true, false, Option, none, some, List, [], ◌∷◌, ◌++◌, map, if◌then◌else◌,
  ◌==◌, lookup,
}
use ai_k8s_gateway.Config.{Settings}
use ai_k8s_gateway.Errors.{Exception, Result, ok, raise}
use ai_k8s_gateway.Auth.{Identity, agent_identities, Jwt, create_token}

-- The options `--agent` and `--bare`.
pub record Args : Type 0 where
  pub agent : Option String
  pub bare : Bool

pub data Printed : Type 0 where
  bare_token : (token : String) → Printed
  card : (agent role algorithm : String) (ttl_minutes : ℕ) (token : String) → Printed
  usage_example : Printed

-- What went to stdout, whether an error went to stderr, and the exit status.
pub record Output : Type 0 where
  pub printed : List Printed
  pub failed : Bool
  pub status : ℕ

-- `[args.agent] if args.agent else list(AGENT_IDENTITIES.keys())`
unfoldable pub agents_of : Option String → List String
agents_of none = map (λ entry. entry.0) agent_identities
agents_of (some agent) = if agent == "" then map (λ entry. entry.0) agent_identities else agent ∷ []

-- The role in AGENT_IDENTITIES, of an agent that is there.
unfoldable pub role_of : String → String
role_of agent = elim (lookup agent agent_identities) [ none ↦ "" | some identity ↦ identity.role ]

module _ (jwt : Jwt) (settings : Settings) (now : ℕ → ℕ) (uuid : ℕ → String) where
  unfoldable pub print_token : (bare : Bool) (agent token : String) → Printed
  print_token true agent token = bare_token token
  print_token false agent token =
      card agent (role_of agent) settings.jwt_algorithm settings.jwt_ttl_minutes token

  abbrev pub exit_one : Output
  exit_one = record { printed = []; failed = true; status = 1 }

  abbrev pub prepend : Printed → Output → Output
  prepend p out = record out { printed = p ∷ out.printed }

  -- The loop over the agents, and after it the example if it was not left. The i-th token reads the
  -- clock and draws its UUID at `i`.
  unfoldable pub mint_all : (bare : Bool) (i : ℕ) → List String → Output
  mint_all bare i [] = record {
    printed = if bare then [] else usage_example ∷ [];
    failed = false;
    status = 0;
  }
  mint_all bare i (agent ∷ agents) =
      let rest = mint_all bare (suc i) agents in
      elim (create_token jwt settings (now i) (uuid i) agent) [
        | raise e ↦ exit_one
        | ok token ↦ prepend (print_token bare agent token) rest
      ]

  unfoldable pub main : Args → Output
  main args = mint_all args.bare 0 (agents_of args.agent)
