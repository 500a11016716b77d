-- ===== src/Interleaving/Phases.antt =====
-- app/main.py: the two halves of `agent_action`, run one after the other, against the whole.
use ai_k8s_gateway.Base.{Bool, suc, String, ◌≡◌, refl, some}
use ai_k8s_gateway.Errors.{Result, ok, raise, ◌>>=◌ as ◌>>=ʳ◌}
use ai_k8s_gateway.Value.{Params}
use ai_k8s_gateway.Auth.{verify_token}
use ai_k8s_gateway.Risk.{RiskScore, score}
use ai_k8s_gateway.Gateway.{
  Env, World, continue, AgentActionRequest, authenticate, assess, opa_decision, settle,
  agent_action, ◌>>=◌, lift, sample,
}
use ai_k8s_gateway.Gateway.Stages.{SameState, reached}
use ai_k8s_gateway.Interleaving.{Flight, assessment_of, receive, resume}

-- The same result, and worlds that differ in the tick at most.
pub record IsSameOutcome {A : Type 0} (o o' : Result A × World) : Type 0 where
  pub result : o.0 ≡ o'.0
  pub world : SameState o.1 o'.1

IsSameOutcome-refl : {A : Type 0} (o : Result A × World) → IsSameOutcome o o
IsSameOutcome-refl o = record {
  result = refl;
  world = record { queue = refl; audit = refl; trace = refl };
}

module _ (env : Env) (body : AgentActionRequest) (w : World) where
  abbrev flight : Params → RiskScore → Flight
  flight p rs = record { request_id = env.uuid w.tick; payload = p; body = body; risk = rs }

  after_decision :
      (p : Params) (rs : RiskScore) (d : Result (Bool × String))
      → IsSameOutcome
          ((lift (d >>=ʳ λ d. ok (assessment_of (flight p rs) d)) >>= settle env) (reached w))
          ((lift d >>= λ d. settle env (assessment_of (flight p rs) d)) (reached w))
  unfolding ◌>>=◌ lift
  after_decision p rs (ok d) = IsSameOutcome-refl _
  after_decision p rs (raise e) = IsSameOutcome-refl _

  abbrev before_query : World
  before_query = record w { tick = suc (suc w.tick) }

  after_score :
      (p : Params) (s : Result RiskScore)
      → IsSameOutcome
          ((lift (
                s >>=ʳ λ rs. opa_decision env (suc (suc w.tick)) p body rs >>=ʳ λ d.
                ok (assessment_of (flight p rs) d))
              >>= settle env)
            (reached w))
          (((lift s >>= λ rs. lift (ok (flight p rs))) >>= resume env) before_query)
  unfolding ◌>>=◌ lift resume sample
  after_score p (ok rs) = after_decision p rs (opa_decision env (suc (suc w.tick)) p body rs)
  after_score p (raise e) = record {
    result = refl;
    world = record { queue = refl; audit = refl; trace = refl };
  }

  after_token :
      (v : Result Params)
      → IsSameOutcome
          (continue v
            (λ p. sample (λ tick. assess env tick (env.uuid w.tick) p body) >>= λ assessed.
              lift assessed >>= settle env)
            before_query)
          ((λ (o : Result Flight × World). continue o.0 (resume env) o.1)
            (continue v
              (λ p.
                lift (
                  score env.py env.settings body.action body.resource body.namespace
                    (some body.params))
                >>= λ rs. lift (ok (flight p rs)))
              before_query))
  unfolding ◌>>=◌ lift sample assess
  after_token (ok p) =
      after_score p
        (score env.py env.settings body.action body.resource body.namespace (some body.params))
  after_token (raise e) = IsSameOutcome-refl _

  -- A call of /agent-action as a whole has the result, the queue, the audit log and the trace
  -- of its two halves, up to the query to OPA and from it on, when they run one after the
  -- other.
  pub agent_action-receive-resume :
      (token : String)
      → IsSameOutcome (agent_action env token body w) ((receive env token body >>= resume env) w)
  unfolding agent_action receive authenticate ◌>>=◌ lift sample
  agent_action-receive-resume token =
      after_token (verify_token env.jwt env.settings (env.seconds (suc w.tick)) token)
