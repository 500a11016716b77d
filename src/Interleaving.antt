-- ===== src/Interleaving.antt =====
-- app/main.py as FastAPI runs it: every handler is a coroutine of one event loop, and the one await at
-- which it gives way is the query to OPA in `agent_action`. `receive` is `agent_action` up to that
-- await and `resume` is the rest; between the two, other requests may run.
pub mod Phases
pub mod Provenance
pub mod Receipts
pub mod Changes
pub mod Security
pub mod Ticks
pub mod Queueing
pub mod Freshness
use ai_k8s_gateway.Base.{ℕ, String, Bool, Option, some, List, [], ◌∷◌, ◌++◌, ◌≡◌}
use ai_k8s_gateway.Errors.{Result, ok, raise}
use ai_k8s_gateway.Value.{null, Params, get_or}
use ai_k8s_gateway.Risk.{RiskScore, score}
use ai_k8s_gateway.Approval
use ai_k8s_gateway.Gateway.{
  Env, World, Handler, AgentActionRequest, AgentActionResponse, Assessment, ApproveRequest,
  authenticate, opa_decision, settle, list_pending, approve_action,
}
use ai_k8s_gateway.Gateway.{◌>>=◌, lift, sample}

-- The local variables of a call of `agent_action` that waits for OPA.
pub record Flight : Type 0 where
  pub request_id : String
  pub payload : Params
  pub body : AgentActionRequest
  pub risk : RiskScore

-- The assessment that the reply completes.
abbrev pub assessment_of : Flight → Bool × String → Assessment
assessment_of f d = record {
  request_id = f.request_id;
  identity = get_or null "sub" f.payload;
  role = get_or null "role" f.payload;
  request = f.body;
  risk = f.risk;
  allowed = d.0;
  opa_reason = d.1;
}

module _ (env : Env) where
  -- Stages 1 and 2, up to the query.
  unfoldable pub receive : (token : String) → AgentActionRequest → Handler Flight
  receive token body = do
    request_id ← sample env.uuid
    payload ← authenticate env token
    risk ←
        lift (score env.py env.settings body.action body.resource body.namespace (some body.params))
    lift (ok (record { request_id = request_id; payload = payload; body = body; risk = risk }))

  -- From the reply on.
  unfoldable pub resume : Flight → Handler AgentActionResponse
  resume f = do
    decided ← sample (λ tick. opa_decision env tick f.payload f.body f.risk)
    d ← lift decided
    settle env (assessment_of f d)

-- The process: what the handlers share, and the calls that wait for OPA.
pub record System : Type 0 where
  pub world : World
  pub flights : List Flight

-- What joins the waiting calls.
abbrev pub joined : Result Flight → List Flight → List Flight
joined (ok f) flights = flights ++ f ∷ []
joined (raise e) flights = flights

module _ (env : Env) where
  -- The event loop runs one coroutine up to its next await, or to its end. The replies of OPA come in
  -- any order.
  pub data Step (s : System) : System → Type 0 where
    receives :
        (token : String) (body : AgentActionRequest)
        → Step s (record {
          world = (receive env token body s.world).1;
          flights = joined (receive env token body s.world).0 s.flights;
        })
    resumes :
        (before after : List Flight) (f : Flight)
        → s.flights ≡ before ++ f ∷ after
        → Step s (record { world = (resume env f s.world).1; flights = before ++ after })
    lists : (token : String) → Step s (record s { world = (list_pending env token s.world).1 })
    approves :
        (token id : String) (body : ApproveRequest)
        → Step s (record s { world = (approve_action env token id body s.world).1 })

  -- Reached from the start of the process: an empty queue, no call made, and nothing waiting.
  pub data IsReachable : System → Type 0 where
    starts :
        (s : System)
        → s.world.queue ≡ Approval.init
        → s.world.trace ≡ []
        → s.flights ≡ []
        → IsReachable s
    steps : {s s' : System} → IsReachable s → Step s s' → IsReachable s'
