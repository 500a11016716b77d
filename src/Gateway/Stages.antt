-- ===== src/Gateway/Stages.antt =====
-- `agent_action` of app/main.py: what a call comes to, stage by stage.
use ai_k8s_gateway.Base.{suc, String, ◌≡◌, refl}
use ai_k8s_gateway.Errors.{Exception, Result, ok, raise}
use ai_k8s_gateway.Value.{Params}
use ai_k8s_gateway.Auth.{verify_token}
use ai_k8s_gateway.Gateway.Defs.{
  Env, World, continue, ◌>>=◌, lift, sample, AgentActionRequest, AgentActionResponse,
}
use ai_k8s_gateway.Gateway.Handlers.{Assessment, assess, authenticate, settle, agent_action}

-- Everything but the tick.
pub record SameState (w w' : World) : Type 0 where
  pub queue : w'.queue ≡ w.queue
  pub audit : w'.audit ≡ w.audit
  pub trace : w'.trace ≡ w.trace

-- The world in which stage 4 begins.
abbrev pub reached : World → World
reached w = record w { tick = suc (suc (suc w.tick)) }

module _ (env : Env) (token : String) (body : AgentActionRequest) (w : World) where
  -- The token is read at the second tick; the score and the decision are taken at the third.
  abbrev pub verified : Result Params
  verified = verify_token env.jwt env.settings (env.seconds (suc w.tick)) token

  abbrev pub assessed : Params → Result Assessment
  assessed p = assess env (suc (suc w.tick)) (env.uuid w.tick) p body

  -- An exception of the first three stages: the token was not verified, or the assessment failed.
  pub data StopsWith (e : Exception) : Type 0 where
    unverified : verified ≡ raise e → StopsWith e
    unassessed : (p : Params) → verified ≡ ok p → assessed p ≡ raise e → StopsWith e

  -- Either the request stops before stage 4 and changes nothing, or it is settled.
  pub data Staged : Result AgentActionResponse × World → Type 0 where
    stopped : (e : Exception) (w' : World) → StopsWith e → SameState w w' → Staged (raise e, w')
    settled :
        (p : Params) (a : Assessment)
        → verified ≡ ok p
        → assessed p ≡ ok a
        → Staged (settle env a (reached w))

  after_assess :
      (p : Params) (r : Result Assessment)
      → verified ≡ ok p
      → assessed p ≡ r
      → Staged ((lift r >>= settle env) (reached w))
  unfolding ◌>>=◌ lift
  after_assess p (ok a) v e = settled p a v e
  after_assess p (raise x) v e =
      stopped x (reached w) (unassessed p v e) (record { queue = refl; audit = refl; trace = refl })

  after_verify :
      (r : Result Params)
      → verified ≡ r
      → Staged (
          continue r
            (λ p. sample (λ tick. assess env tick (env.uuid w.tick) p body) >>= λ assessed.
              lift assessed >>= settle env)
            (record w { tick = suc (suc w.tick) }))
  unfolding ◌>>=◌ sample
  after_verify (ok p) v = after_assess p (assessed p) v refl
  after_verify (raise x) v =
      stopped x (record w { tick = suc (suc w.tick) }) (unverified v)
        (record { queue = refl; audit = refl; trace = refl })

  pub agent_action-Staged : Staged (agent_action env token body w)
  unfolding agent_action authenticate ◌>>=◌ lift sample
  agent_action-Staged = after_verify verified refl
