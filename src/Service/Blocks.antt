-- ===== src/Service/Blocks.antt =====
-- ai_agent_client.py against the service of app/main.py with the shipped policy: a request that the policy
-- bars.
use ai_k8s_gateway.Base.{ℕ, suc, String, ◌≡◌, some, List, [], ◌∷◌, ◌++◌, ap, ◌∙◌, subst}
use ai_k8s_gateway.Base.Int.{negsuc}
use ai_k8s_gateway.Errors.{ok}
use ai_k8s_gateway.Value.{Value, str, int, Params}
use ai_k8s_gateway.Auth.{verify_token}
use ai_k8s_gateway.Risk.{RiskScore, level_text}
use ai_k8s_gateway.Policy.{OpaInput, PolicyReason, reason}
use ai_k8s_gateway.Opa.{policy_sidecar}
use ai_k8s_gateway.Gateway.{Env, World, AgentActionRequest}
use ai_k8s_gateway.Enforcement.{denied, question}
use ai_k8s_gateway.Enforcement.Denials.{Barred, HasFiniteReplicas, verdict-denied, Barred-IsDenied}
use ai_k8s_gateway.Client.{Request, Outcome, raised, denied_error, GatewayClient, action}
use ai_k8s_gateway.Service.{Framework, IsLawful, acting, network, replay, request_of}
use ai_k8s_gateway.Service.Reports.{Reports, forbidden, IsPlain}
use ai_k8s_gateway.Service.Actions.{action-IsReported}

-- The error that tells of a denial.
abbrev pub denial_of : (reason : String) → RiskScore → Outcome Value
denial_of reason rs =
    raised (denied_error (str reason) (str (level_text rs.level)) (int (negsuc 0)))

reported-denial :
    (env : Env) (render : PolicyReason → String) (token : String) (body : AgentActionRequest)
    (w : World) (p : Params) (rs : RiskScore) {o : Outcome Value}
    → Reports env render token body w o (denied p rs)
    → o ≡ denial_of (render (reason (question env body p rs))) rs
reported-denial env render token body w p rs (forbidden q rs' same) = same

module _ (framework : Framework) (env : Env) (render : PolicyReason → String) (token : String)
    (start : World) (p : Params) where
  -- What a call of the client comes to for a barred request.
  pub record IsBlocked (body : AgentActionRequest) (sent : List Request)
      (o : Outcome Value × List Request) : Type 0 where
    pub risk : RiskScore
    pub denial : o.0 ≡ denial_of (render (reason (question env body p risk))) risk
    pub once : o.1 ≡ sent ++ request_of body ∷ []
    pub trace :
        (replay framework env token o.1 start).trace ≡ (replay framework env token sent start).trace

  -- What the world before such a call has.
  pub record IsReady (body : AgentActionRequest) (sent : List Request) : Type 0 where
    pub routed : framework.route (request_of body) ≡ some (acting body)
    pub plain : IsPlain env render token body (replay framework env token sent start)
    pub authentic :
        verify_token env.jwt env.settings
          (env.seconds (suc (replay framework env token sent start).tick))
          token
        ≡ ok p

module _ (framework : Framework) (env : Env) (render : PolicyReason → String) (more : Params)
    (token : String) (client : GatewayClient) (start : World) (lawful : IsLawful framework)
    (connected : client.network ≡ network framework env token start)
    (shipped : (tick : ℕ) (url : String) (input : OpaInput)
      → env.opa tick url input ≡ policy_sidecar render more url input)
    (p : Params) where
  pub action-IsBlocked :
      (body : AgentActionRequest) (sent : List Request)
      → Barred env p body
      → HasFiniteReplicas body
      → IsReady framework env render token start p body sent
      → IsBlocked framework env render token start p body sent
          (action client body.action body.resource body.namespace (some body.params) sent)
  action-IsBlocked body sent barred finite ready =
      let w = replay framework env token sent start in
      let (rs, at) = verdict-denied env render token w p ready.authentic body barred finite in
      let told =
        action-IsReported framework env render more token client start lawful connected shipped body
          sent ready.routed ready.plain in
      record {
        risk = rs;
        denial =
            reported-denial env render token body w p rs
              (subst (Reports env render token body w _) at told.report);
        once = told.once;
        trace =
            ap (λ (after : World). after.trace) told.state
            ∙ (Barred-IsDenied env render token w p ready.authentic more shipped body barred
                finite).trace;
      }
