-- ===== src/Service/Creation.antt =====
-- `create_deployment` of ai_agent_client.py against the service with the shipped policy: what its docstring
-- says is blocked.
use ai_k8s_gateway.Base.{ℕ, String, ◌≡◌, ◌≢◌, true, false, List, arith, contains, lookup}
use ai_k8s_gateway.Base.Int.{ℤ, pos, ltb_ℤ}
use ai_k8s_gateway.Value.{str, Params}
use ai_k8s_gateway.Text.{lower}
use ai_k8s_gateway.Policy.{
  OpaInput, PolicyReason, allow, privileged_namespaces, max_replicas, payload_violations,
  flag_violations, bad_image, bad_replicas, is_trusted_image, above_limit,
}
use ai_k8s_gateway.Opa.{opa_input, policy_sidecar}
use ai_k8s_gateway.Gateway.{Env, World, AgentActionRequest}
use ai_k8s_gateway.Policy.Laws.{nonempty-is_text}
use ai_k8s_gateway.Enforcement.Denials.{Barred, HasFiniteReplicas}
use ai_k8s_gateway.Client.{Request, create_params, create_deployment, GatewayClient}
use ai_k8s_gateway.Service.{Framework, IsLawful, network}
use ai_k8s_gateway.Service.Blocks.{IsBlocked, IsReady, action-IsBlocked}

module _ (env : Env) (name image namespace : String) (replicas port : ℤ)
    (cpu_request cpu_limit memory_request memory_limit : String) where
  abbrev pub creation : AgentActionRequest
  creation = record {
    action = "create";
    resource = "deployments";
    namespace = namespace;
    params =
        create_params name image replicas port cpu_request cpu_limit memory_request memory_limit;
  }

  -- The three grounds of the docstring.
  pub data IsForbidden : Type 0 where
    untrusted : image ≢ "" → is_trusted_image (str image) ≡ false → IsForbidden
    privileged : contains privileged_namespaces (lower env.py namespace) ≡ true → IsForbidden
    too_many : ltb_ℤ (pos max_replicas) replicas ≡ true → IsForbidden

  pub creation-Barred : (p : Params) → IsForbidden → Barred env p creation
  unfolding allow opa_input lower contains payload_violations lookup flag_violations bad_image
      bad_replicas above_limit create_params
  creation-Barred p (untrusted h k) rs = ground (arith, nonempty-is_text image h)
  creation-Barred p (privileged h) rs = ground arith
  creation-Barred p (too_many h) rs = ground arith

  pub creation-HasFiniteReplicas : HasFiniteReplicas creation
  unfolding create_params lookup
  creation-HasFiniteReplicas h = cc (h.1)

  module _ (framework : Framework) (render : PolicyReason → String) (more : Params) (token : String)
      (client : GatewayClient) (start : World) (lawful : IsLawful framework)
      (connected : client.network ≡ network framework env token start)
      (shipped : (tick : ℕ) (url : String) (input : OpaInput)
        → env.opa tick url input ≡ policy_sidecar render more url input) where
    -- With a lawful framework, the modelled service as the client's network, a sidecar that
    -- runs the shipped policy, and a request that is routed, whose token verifies, and for
    -- which neither the token library nor the run raises an HTTPException: a call of the
    -- client's create_deployment with an untrusted image that is not empty, with a
    -- privileged namespace, or with more replicas than the policy's limit raises
    -- GatewayDeniedError with the policy's reason and the score -1, sends one request, and
    -- adds no call to the cluster's trace.
    pub create_deployment-IsBlocked :
        (sent : List Request) (p : Params)
        → IsReady framework env render token start p creation sent
        → IsForbidden
        → IsBlocked framework env render token start p creation sent (
            create_deployment client name image namespace replicas port cpu_request cpu_limit
              memory_request memory_limit sent)
    unfolding create_deployment
    create_deployment-IsBlocked sent p ready grounds =
        action-IsBlocked framework env render more token client start lawful connected shipped p
          creation sent (creation-Barred p grounds) creation-HasFiniteReplicas ready
