-- ===== src/Gateway/Safety.antt =====
-- `agent_action` of app/main.py: when a request reaches the cluster.
use Prim.Native.String.{◌++◌ as ◌<>◌}
use ai_k8s_gateway.Base.{
  suc, String, ◌≡◌, ◌≢◌, true, ◌⊎◌, inl, inr, some, [], ◌∷◌, ◌++◌, ap, ◌∙◌, subst,
}
use ai_k8s_gateway.Errors.{Result, ok}
use ai_k8s_gateway.Value.{null, Params, get_or}
use ai_k8s_gateway.Text.{normal}
use ai_k8s_gateway.Risk.{RiskScore, high, score}
use ai_k8s_gateway.Opa.{Reply, opa_input, query_opa}
use ai_k8s_gateway.Opa.Laws.{Allows, read_reply-Allows}
use ai_k8s_gateway.Cluster.{ApiCall, Trace}
use ai_k8s_gateway.K8s.{clean_namespace}
use ai_k8s_gateway.K8s.Surface.{Routed, execute_action-Routed}
use ai_k8s_gateway.Gateway.Defs.{Env, World, AgentActionRequest, AgentActionResponse}
use ai_k8s_gateway.Gateway.Handlers.{Assessment, opa_decision, agent_action}
use ai_k8s_gateway.Gateway.Stages.{reached, verified, Staged, stopped, settled, agent_action-Staged}
use ai_k8s_gateway.Gateway.Settling.{
  IsAssessed, assess-IsAssessed, Executed, answered, failed, Settled, denying, queueing, executing,
  settle-Settled, executed,
}

module _ (env : Env) (token : String) (body : AgentActionRequest) (w : World) where
  -- The sidecar's reply to this request with this score.
  abbrev pub reply_to : Params → RiskScore → Reply
  reply_to p rs =
      env.opa (suc (suc w.tick)) (env.settings.opa_url <> "/" <> env.settings.opa_policy_path) (
        opa_input env.py (get_or null "sub" p) (get_or null "role" p) body.action body.resource
          body.namespace rs.level body.params)

  -- What lets a request reach the cluster: a verified token, a score that is not high, a sidecar that
  -- said yes; and the one call that the table gives for it.
  pub record IsJustified (before after : Trace) : Type 0 where
    pub payload : Params
    pub risk : RiskScore
    pub made : ApiCall
    pub authentic : verified env token body w ≡ ok payload
    pub scored :
        score env.py env.settings body.action body.resource body.namespace (some body.params)
        ≡ ok risk
    pub not_high : risk.level ≢ high
    pub permitted : Allows (reply_to payload risk)
    pub routed :
        Routed env.py body.params
          (normal env.py body.action)
          (normal env.py body.resource)
          (clean_namespace env.py env.cluster body.namespace)
          made
    pub once : after ≡ before ++ made ∷ []

  assessed-Allows :
      (p : Params) (a : Assessment)
      → IsAssessed env (suc (suc w.tick)) (env.uuid w.tick) p body a
      → a.allowed ≡ true
      → Allows (reply_to p a.risk)
  unfolding opa_decision query_opa
  assessed-Allows p a h granted =
      read_reply-Allows env.py (reply_to p a.risk) a.opa_reason
        (h.decided ∙ ap (λ b. ok (b, a.opa_reason)) granted)

  executed-IsJustified :
      (p : Params) (a : Assessment)
      → verified env token body w ≡ ok p
      → IsAssessed env (suc (suc w.tick)) (env.uuid w.tick) p body a
      → a.allowed ≡ true
      → a.risk.level ≢ high
      → ((executed env a (reached w)).1 ≡ w.trace)
        ⊎ IsJustified w.trace (executed env a (reached w)).1
  executed-IsJustified p a v h granted below =
      elim ((execute_action-Routed env.py env.cluster a.request.action a.request.resource
          a.request.namespace a.request.params).at
        w.trace) [
          | inl quiet ↦ inl quiet
          | inr (c, routed, once) ↦ inr (record {
            payload = p;
            risk = a.risk;
            made = c;
            authentic = v;
            scored = h.scored;
            not_high = below;
            permitted = assessed-Allows p a h granted;
            routed =
                subst
                  (λ (r : AgentActionRequest).
                    Routed env.py r.params (normal env.py r.action) (normal env.py r.resource)
                      (clean_namespace env.py env.cluster r.namespace) c)
                  h.of_request routed;
            once = once;
          })
        ]

  abbrev pub Reaches : Result AgentActionResponse × World → Type 0
  Reaches o = (o.1.trace ≡ w.trace) ⊎ IsJustified w.trace o.1.trace

  Settled-Reaches :
      (p : Params) (a : Assessment) {o : Result AgentActionResponse × World}
      → verified env token body w ≡ ok p
      → IsAssessed env (suc (suc w.tick)) (env.uuid w.tick) p body a
      → Settled env a (reached w) o
      → Reaches o
  Settled-Reaches p a v h (denying barred d) = inl d.trace
  Settled-Reaches p a v h (queueing granted is_high q) = inl q.trace
  Settled-Reaches p a v h (executing granted below x) = executed-Reaches x
    where
      executed-Reaches :
          {o : Result AgentActionResponse × World} → Executed env a (reached w) o → Reaches o
      executed-Reaches (answered response result done with_result same decided) =
          executed-IsJustified p a v h granted below
      executed-Reaches (failed e done) = executed-IsJustified p a v h granted below

  Staged-Reaches : {o : Result AgentActionResponse × World} → Staged env token body w o → Reaches o
  Staged-Reaches (stopped e w' why same) = inl same.trace
  Staged-Reaches (settled p a v e) =
      Settled-Reaches p a v (assess-IsAssessed env (suc (suc w.tick)) (env.uuid w.tick) p body a e)
        (settle-Settled env a (reached w))

  -- A call of /agent-action leaves the trace of cluster calls as it was, unless its token
  -- verifies, its request has a score that is not high, and the sidecar's reply to that
  -- request allows it: then the trace may instead grow by one call, and that call is the one
  -- that the dispatch table gives for the request's verb, resource, namespace and payload.
  pub agent_action-calls : Reaches (agent_action env token body w)
  agent_action-calls = Staged-Reaches (agent_action-Staged env token body w)
