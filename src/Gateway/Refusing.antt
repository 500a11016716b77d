-- ===== src/Gateway/Refusing.antt =====
-- app/main.py: the endpoints under a token that does not verify.
use ai_k8s_gateway.Base.{ℕ, suc, String, ◌≡◌, refl}
use ai_k8s_gateway.Errors.{Exception, Result, ok, raise}
use ai_k8s_gateway.Value.{Params}
use ai_k8s_gateway.Auth.{verify_token}
use ai_k8s_gateway.Gateway.Defs.{
  Env, World, Handler, continue, ◌>>=◌, lift, sample, AgentActionRequest,
}
use ai_k8s_gateway.Gateway.Handlers.{authenticate, agent_action, list_pending}
use ai_k8s_gateway.Gateway.HumanHandlers.{ApproveRequest, approve_action}
use ai_k8s_gateway.Gateway.Stages.{SameState}

-- The outcome is this exception, and no more than the tick has changed.
pub record IsRefused {A : Type 0} (e : Exception) (w : World) (o : Result A × World) : Type 0 where
  pub refused : o.0 ≡ raise e
  pub same : SameState w o.1

module _ (env : Env) (token : String) (e : Exception)
    (invalid : (now : ℕ) → verify_token env.jwt env.settings now token ≡ raise e) where
  continue-IsRefused :
      {A : Type 0} (f : Params → Handler A) (w w' : World) (r : Result Params)
      → r ≡ raise e
      → SameState w w'
      → IsRefused e w (continue r f w')
  continue-IsRefused f w w' (ok p) h same = cc
  continue-IsRefused f w w' (raise x) h same = record { refused = cc; same = same }

  authenticate-IsRefused :
      {A : Type 0} (f : Params → Handler A) (w : World)
      → IsRefused e w ((authenticate env token >>= f) w)
  unfolding authenticate ◌>>=◌ lift sample
  authenticate-IsRefused f w =
      continue-IsRefused f w (record w { tick = suc w.tick })
        (verify_token env.jwt env.settings (env.seconds w.tick) token)
        (invalid (env.seconds w.tick)) (record { queue = refl; audit = refl; trace = refl })

  ticked-IsRefused :
      {A : Type 0} (w : World) {o : Result A × World}
      → IsRefused e (record w { tick = suc w.tick }) o
      → IsRefused e w o
  ticked-IsRefused w h = record {
    refused = h.refused;
    same = record { queue = h.same.queue; audit = h.same.audit; trace = h.same.trace };
  }

  agent_action-IsRefused :
      (body : AgentActionRequest) (w : World) → IsRefused e w (agent_action env token body w)
  unfolding agent_action sample ◌>>=◌
  agent_action-IsRefused body w =
      ticked-IsRefused w (authenticate-IsRefused _ (record w { tick = suc w.tick }))

  -- If verifying a token raises one exception at every time, then calls of /agent-action,
  -- /pending and /approve/{id} with it all end in that exception, and leave the queue, the
  -- audit log and the trace of cluster calls as they were.
  pub endpoints-IsRefused :
      (w : World) (body : AgentActionRequest) (id : String) (verdict : ApproveRequest)
      → IsRefused e w (agent_action env token body w)
        × IsRefused e w (list_pending env token w)
        × IsRefused e w (approve_action env token id verdict w)
  unfolding list_pending approve_action
  endpoints-IsRefused w body id verdict =
      (agent_action-IsRefused body w, authenticate-IsRefused _ w, authenticate-IsRefused _ w)
