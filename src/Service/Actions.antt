-- ===== src/Service/Actions.antt =====
-- ai_agent_client.py against the service of app/main.py with the shipped policy: a whole call.
use ai_k8s_gateway.Base.{ℕ, String, ◌≡◌, refl, some, List, [], ◌∷◌, ◌++◌, ap, ◌∙◌, sym, subst}
use ai_k8s_gateway.Value.{Value, Params}
use ai_k8s_gateway.Policy.{OpaInput, PolicyReason}
use ai_k8s_gateway.Opa.{policy_sidecar}
use ai_k8s_gateway.Gateway.{Env, World, AgentActionRequest, agent_action}
use ai_k8s_gateway.Enforcement.{verdict}
use ai_k8s_gateway.Enforcement.Laws.{agent_action-Enforces}
use ai_k8s_gateway.Client.{Request, Response, Outcome, GatewayClient, action}
use ai_k8s_gateway.Service.{Framework, IsLawful, acting, network, replay, request_of}
use ai_k8s_gateway.Service.Calls.{action-serve, serve-acting, replay-snoc}
use ai_k8s_gateway.Service.Reports.{Reports, IsPlain, IsTold, Enforces-IsTold}

module _ (framework : Framework) (env : Env) (render : PolicyReason → String) (token : String)
    (start : World) where
  -- The client is told the verdict, one request was sent, and the service did what the handler does.
  pub record IsReported (body : AgentActionRequest) (sent : List Request)
      (o : Outcome Value × List Request) : Type 0 where
    pub report :
        Reports env render token body
          (replay framework env token sent start)
          o.0
          (verdict env render token body (replay framework env token sent start))
    pub once : o.1 ≡ sent ++ request_of body ∷ []
    pub state :
        replay framework env token o.1 start
        ≡ (agent_action env token body (replay framework env token sent start)).1

module _ (framework : Framework) (env : Env) (render : PolicyReason → String) (more : Params)
    (token : String) (client : GatewayClient) (start : World) (lawful : IsLawful framework)
    (connected : client.network ≡ network framework env token start)
    (shipped : (tick : ℕ) (url : String) (input : OpaInput)
      → env.opa tick url input ≡ policy_sidecar render more url input) where
  -- If the framework is lawful, the client's network is the modelled service from some world
  -- on, the sidecar runs the shipped policy, the framework routes the request to /agent-action
  -- with its body, and neither the token library nor the run raises an HTTPException, then the
  -- client's action tells the verdict of the specification: the error of the status for a
  -- token or a request that is turned away, GatewayDeniedError with the policy's reason and
  -- the risk level for a denied one, and for a queued or an executed one the JSON body of the
  -- answer, with the run's result, or an error if the run came to an exception. The request is
  -- sent once, and the service is left as one call of the handler leaves it.
  pub action-IsReported :
      (body : AgentActionRequest) (sent : List Request)
      → framework.route (request_of body) ≡ some (acting body)
      → IsPlain env render token body (replay framework env token sent start)
      → IsReported framework env render token start body sent
          (action client body.action body.resource body.namespace (some body.params) sent)
  action-IsReported body sent routed plain =
      let w = replay framework env token sent start in
      let served = serve-acting framework env token (request_of body) body w routed in
      let heard =
        subst
          (λ (o : Response × World).
            IsTold env render token body w framework lawful o.0 (verdict env render token body w))
          (sym served)
          (Enforces-IsTold env render token body w framework lawful plain
            (verdict env render token body w) refl
            (agent_action-Enforces env render more token body w shipped)) in
      let called = action-serve framework env token client start connected body sent heard.final in
      record {
        report =
            subst
              (λ (o : Outcome Value × List Request).
                Reports env render token body w o.0 (verdict env render token body w))
              (sym called) heard.report;
        once = ap (λ (o : Outcome Value × List Request). o.1) called;
        state =
            ap (λ (o : Outcome Value × List Request). replay framework env token o.1 start) called
            ∙ replay-snoc framework env token sent (request_of body) start
            ∙ ap (λ (o : Response × World). o.1) served;
      }
