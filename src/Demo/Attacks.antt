-- ===== src/Demo/Attacks.antt =====
-- The requests that demo/agent_client.py expects to be denied, at the gateway of app/main.py with the
-- shipped policy.
use ai_k8s_gateway.Base.{
  ℕ, suc, String, ◌≡◌, List, [], ◌∷◌, All, All-map_both, arith, lookup, contains,
}
use ai_k8s_gateway.Errors.{ok}
use ai_k8s_gateway.Value.{Params}
use ai_k8s_gateway.Text.{lower}
use ai_k8s_gateway.Auth.{verify_token}
use ai_k8s_gateway.Risk.{any_prefix}
use ai_k8s_gateway.Policy.{
  OpaInput, PolicyReason, allow, payload_violations, flag_violations, bad_image, bad_replicas,
  is_trusted_image, above_limit,
}
use ai_k8s_gateway.Opa.{policy_sidecar, opa_input}
use ai_k8s_gateway.Gateway.{Env, World, AgentActionRequest, agent_action}
use ai_k8s_gateway.Enforcement.Denials.{Barred, HasFiniteReplicas, IsDenied, Barred-IsDenied}
use ai_k8s_gateway.Policy.Laws.{nonempty-is_text}
use ai_k8s_gateway.Demo.Scenarios.{
  readonly_create, system_create, system_delete, privileged_create, miner_create, many_replicas,
}

-- The script's "expect 403".
abbrev pub expected_blocks : List AgentActionRequest
expected_blocks =
    readonly_create ∷ system_create ∷ system_delete ∷ privileged_create ∷ miner_create
    ∷ many_replicas ∷ []

module _ (env : Env) (p : Params) where
  blocks-Barred : All (Barred env p) expected_blocks
  unfolding allow opa_input lower contains payload_violations lookup flag_violations bad_image
      bad_replicas is_trusted_image any_prefix above_limit
  blocks-Barred = (
    λ rs. ground (arith, nonempty-is_text "malicious:latest" (λ e. cc)),
    (
      λ rs. ground arith,
      (
        λ rs. ground arith,
        (
          λ rs. ground arith,
          (
            λ rs. ground (arith, nonempty-is_text "cryptominer:latest" (λ e. cc)),
            (λ rs. ground arith, tt),
          ),
        ),
      ),
    ),
  )

blocks-HasFiniteReplicas : All HasFiniteReplicas expected_blocks
unfolding lookup
blocks-HasFiniteReplicas = (
  (λ h. cc (h.1)),
  ((λ h. cc (h.1)), ((λ h. cc (h.1)), ((λ h. cc (h.1)), ((λ h. cc (h.1)), ((λ h. cc (h.1)), tt))))),
)

module _ (env : Env) (render : PolicyReason → String) (token : String) (w : World) (p : Params)
    (authentic : verify_token env.jwt env.settings (env.seconds (suc w.tick)) token ≡ ok p)
    (more : Params)
    (shipped : (tick : ℕ) (url : String) (input : OpaInput)
      → env.opa tick url input ≡ policy_sidecar render more url input) where
  -- With a sidecar that runs the shipped policy, each of the six requests that the
  -- demonstration expects to be blocked (the readonly agent's creation, a creation and a
  -- deletion in kube-system, a privileged container, an untrusted image, and 50 replicas) is
  -- answered with status 403, one record "deny", and queue and cluster untouched, whatever
  -- verified token it comes with, whatever its role.
  pub agent_action-blocks :
      All
        (λ body. IsDenied env render token w p body (agent_action env token body w))
        expected_blocks
  agent_action-blocks =
      All-map_both (Barred env p) HasFiniteReplicas _ expected_blocks
        (Barred-IsDenied env render token w p authentic more shipped) (blocks-Barred env p)
        blocks-HasFiniteReplicas
