-- ===== src/Service/Script.antt =====
-- The script at the end of ai_agent_client.py against the service of app/main.py with the shipped policy:
-- its two attempts that "should be blocked".
use ai_k8s_gateway.Base.{
  ℕ, String, ◌≡◌, refl, true, List, [], ◌∷◌, ◌++◌, ap, ◌∙◌, sym, some, arith, contains, lookup,
}
use ai_k8s_gateway.Base.Int.{pos}
use ai_k8s_gateway.Value.{bool, str, Params, Value}
use ai_k8s_gateway.Text.{lower}
use ai_k8s_gateway.Risk.{RiskScore, any_prefix}
use ai_k8s_gateway.Policy.{
  OpaInput, PolicyReason, allow, reason, payload_violations, flag_violations, bad_image,
  bad_replicas, is_trusted_image, above_limit,
}
use ai_k8s_gateway.Opa.{opa_input, policy_sidecar}
use ai_k8s_gateway.Gateway.{Env, World, AgentActionRequest}
use ai_k8s_gateway.Cluster.{Trace}
use ai_k8s_gateway.Enforcement.{question}
use ai_k8s_gateway.Enforcement.Denials.{Barred, HasFiniteReplicas}
use ai_k8s_gateway.Client.{Request, Outcome, GatewayClient, action}
use ai_k8s_gateway.Client.Tools.{
  Run, blocked, finished, exited, Rest, report, end, attempt_privileged, attempt_untrusted,
}
use ai_k8s_gateway.Service.{Framework, IsLawful, network, replay, request_of}
use ai_k8s_gateway.Service.Blocks.{IsBlocked, IsReady, action-IsBlocked}
use ai_k8s_gateway.Service.Creation.{creation, untrusted, create_deployment-IsBlocked}

-- What the two attempts ask for.
abbrev pub untrusted_body : Env → AgentActionRequest
untrusted_body env =
    creation env "evil" "cryptominer:latest" "demo" (pos 1) (pos 80) "50m" "200m" "64Mi" "128Mi"

abbrev pub privileged_body : AgentActionRequest
privileged_body = record {
  action = "create";
  resource = "deployments";
  namespace = "demo";
  params =
      ("name", str "evil-priv") ∷ ("image", str "nginx:alpine") ∷ ("privileged", bool true) ∷ [];
}

privileged-Barred : (env : Env) (p : Params) → Barred env p privileged_body
unfolding allow opa_input lower contains payload_violations lookup flag_violations bad_image
    bad_replicas is_trusted_image any_prefix above_limit
privileged-Barred env p rs = ground arith

privileged-HasFiniteReplicas : HasFiniteReplicas privileged_body
unfolding lookup
privileged-HasFiniteReplicas h = cc (h.1)

-- The calls of the cluster that the requests lead to.
abbrev pub calls_after :
    (framework : Framework) (env : Env) (token : String) (start : World) → List Request → Trace
calls_after framework env token start sent = (replay framework env token sent start).trace

module _ (framework : Framework) (env : Env) (render : PolicyReason → String) (token : String)
    (start : World) (p : Params) where
  -- Both reasons are printed, two requests are sent, the script ends well, and no call reached the cluster.
  pub record IsFended (sent : List Request) (run : Run) : Type 0 where
    pub first_risk : RiskScore
    pub second_risk : RiskScore
    pub printed :
        run.printed
        ≡ blocked (str (render (reason (question env (untrusted_body env) p first_risk))))
          ∷ blocked (str (render (reason (question env privileged_body p second_risk))))
          ∷ finished
          ∷ []
    pub ended : run.ended ≡ exited 0
    pub requests :
        run.sent ≡ (sent ++ request_of (untrusted_body env) ∷ []) ++ request_of privileged_body ∷ []
    pub calls :
        calls_after framework env token start run.sent ≡ calls_after framework env token start sent

module _ (framework : Framework) (env : Env) (render : PolicyReason → String) (token : String)
    (start : World) (p : Params) where
  -- A denial is printed, and the script goes on.
  report-IsBlocked :
      (rest : Rest) (body : AgentActionRequest) (sent : List Request)
      (o : Outcome Value × List Request)
      (stopped : IsBlocked framework env render token start p body sent o)
      → report (λ v. []) (λ reason level score. blocked reason) rest o
        ≡ record (rest (sent ++ request_of body ∷ [])) {
          printed =
              blocked (str (render (reason (question env body p stopped.risk))))
              ∷ (rest (sent ++ request_of body ∷ [])).printed;
        }
  report-IsBlocked rest body sent o stopped =
      ap (λ x. report (λ v. []) (λ reason level score. blocked reason) rest (x, o.1)) stopped.denial
      ∙ ap
          (λ after. record (rest after) {
            printed =
                blocked (str (render (reason (question env body p stopped.risk))))
                ∷ (rest after).printed;
          })
          stopped.once

  -- The calls of the cluster are what they were.
  blocked_calls :
      (body : AgentActionRequest) (sent : List Request) (o : Outcome Value × List Request)
      → IsBlocked framework env render token start p body sent o
      → calls_after framework env token start (sent ++ request_of body ∷ [])
        ≡ calls_after framework env token start sent
  blocked_calls body sent o stopped =
      ap (calls_after framework env token start) (sym stopped.once) ∙ stopped.trace

module _ (framework : Framework) (env : Env) (render : PolicyReason → String) (more : Params)
    (token : String) (client : GatewayClient) (start : World) (lawful : IsLawful framework)
    (connected : client.network ≡ network framework env token start)
    (shipped : (tick : ℕ) (url : String) (input : OpaInput)
      → env.opa tick url input ≡ policy_sidecar render more url input)
    (p : Params) where
  attempt_privileged-IsBlocked :
      (sent : List Request)
      → IsReady framework env render token start p privileged_body sent
      → IsBlocked framework env render token start p privileged_body sent
          (action client "create" "deployments" "demo" (some privileged_body.params) sent)
  attempt_privileged-IsBlocked sent =
      action-IsBlocked framework env render more token client start lawful connected shipped p
        privileged_body sent (privileged-Barred env p) privileged-HasFiniteReplicas

  -- With a lawful framework, the modelled service as the client's network, a sidecar that runs
  -- the shipped policy, and two requests that are routed, with a token that verifies for both,
  -- and for which neither the token library nor the run raises an HTTPException: the last part
  -- of the client's script, from the attempt with the untrusted image on, prints the policy's
  -- two reasons and that it is done, sends the two requests, exits with status 0, and adds no
  -- call to the cluster's trace.
  pub attempt_untrusted-IsFended :
      (sent : List Request)
      → IsReady framework env render token start p (untrusted_body env) sent
      → IsReady framework env render token start p privileged_body
          (sent ++ request_of (untrusted_body env) ∷ [])
      → IsFended framework env render token start p sent (attempt_untrusted client sent)
  unfolding attempt_untrusted attempt_privileged is_trusted_image
  attempt_untrusted-IsFended sent ready ready' =
      let first =
        create_deployment-IsBlocked env "evil" "cryptominer:latest" "demo" (pos 1) (pos 80) "50m"
          "200m" "64Mi" "128Mi" framework render more token client start lawful connected shipped
          sent p ready (untrusted (λ e. cc) refl) in
      let sent' = sent ++ request_of (untrusted_body env) ∷ [] in
      let second = attempt_privileged-IsBlocked sent' ready' in
      let told =
        report-IsBlocked framework env render token start p (attempt_privileged client)
          (untrusted_body env) sent _ first
        ∙ ap
            (λ (run : Run). record run {
              printed =
                  blocked (str (render (reason (question env (untrusted_body env) p first.risk))))
                  ∷ run.printed;
            })
            (report-IsBlocked framework env render token start p end privileged_body sent' _
              second) in
      record {
        first_risk = first.risk;
        second_risk = second.risk;
        printed = ap (λ (run : Run). run.printed) told;
        ended = ap (λ (run : Run). run.ended) told;
        requests = ap (λ (run : Run). run.sent) told;
        calls =
            ap (λ (run : Run). calls_after framework env token start run.sent) told
            ∙ blocked_calls framework env render token start p privileged_body sent' _ second
            ∙ blocked_calls framework env render token start p (untrusted_body env) sent _ first;
      }
