-- ===== src/Interleaving/Receipts.antt =====
-- app/main.py: the calls that touch nothing but the tick: `agent_action` up to its query, and
-- /pending.
use ai_k8s_gateway.Base.{ℕ, suc, ◌≤◌, arith, String, ◌≡◌, refl, some, List, length}
use ai_k8s_gateway.Errors.{Exception, Result, ok, raise}
use ai_k8s_gateway.Value.{Params}
use ai_k8s_gateway.Auth.{verify_token}
use ai_k8s_gateway.Risk.{RiskScore, score}
use ai_k8s_gateway.Approval
use ai_k8s_gateway.Gateway.{
  Env, World, continue, AgentActionRequest, authenticate, list_pending, ◌>>=◌, lift, sample,
}
use ai_k8s_gateway.Gateway.Stages.{SameState}
use ai_k8s_gateway.Interleaving.{Flight, receive}
use ai_k8s_gateway.Interleaving.Provenance.{IsReceived}

module _ (env : Env) (w : World) where
  -- A call is turned away, or waits for OPA with what was established about it.
  pub data Receipt : Result Flight × World → Type 0 where
    turned_away :
        (e : Exception) (w' : World) → SameState w w' → w.tick ≤ w'.tick → Receipt (raise e, w')
    waiting :
        (f : Flight) (w' : World)
        → IsReceived env f.body f.risk f.payload
        → SameState w w'
        → f.request_id ≡ env.uuid w.tick
        → suc w.tick ≤ w'.tick
        → Receipt (ok f, w')

  module _ (token : String) where
    after_score :
        (body : AgentActionRequest) (p : Params) (s : Result RiskScore)
        → verify_token env.jwt env.settings (env.seconds (suc w.tick)) token ≡ ok p
        → score env.py env.settings body.action body.resource body.namespace (some body.params) ≡ s
        → Receipt (
            (lift s >>= λ rs.
            lift
              (ok (record { request_id = env.uuid w.tick; payload = p; body = body; risk = rs })))
              (record w { tick = suc (suc w.tick) }))
    unfolding ◌>>=◌ lift
    after_score body p (ok rs) v e =
        waiting _ _
          (record { token = token; now = env.seconds (suc w.tick); authentic = v; scored = e })
          (record { queue = refl; audit = refl; trace = refl }) refl (omega arith)
    after_score body p (raise x) v e =
        turned_away x _ (record { queue = refl; audit = refl; trace = refl }) (omega arith)

    after_token :
        (body : AgentActionRequest) (v : Result Params)
        → verify_token env.jwt env.settings (env.seconds (suc w.tick)) token ≡ v
        → Receipt (
            continue v
              (λ p.
                lift (
                  score env.py env.settings body.action body.resource body.namespace
                    (some body.params))
                >>= λ rs. lift (
                    ok (record {
                      request_id = env.uuid w.tick;
                      payload = p;
                      body = body;
                      risk = rs;
                    })))
              (record w { tick = suc (suc w.tick) }))
    after_token body (ok p) e =
        after_score body p
          (score env.py env.settings body.action body.resource body.namespace (some body.params)) e
          refl
    after_token body (raise x) e =
        turned_away x _ (record { queue = refl; audit = refl; trace = refl }) (omega arith)

    pub receive-Receipt : (body : AgentActionRequest) → Receipt (receive env token body w)
    unfolding receive authenticate ◌>>=◌ lift sample
    receive-Receipt body =
        after_token body (verify_token env.jwt env.settings (env.seconds (suc w.tick)) token) refl

    after_listing :
        (v : Result Params)
        → SameState w
            (continue {B = ℕ × List Params} v
              (λ p w.
                let rows = Approval.list_pending env.py env.settings w.queue in
                (ok (length rows, rows), w))
              (record w { tick = suc w.tick })).1
    after_listing (ok p) = record { queue = refl; audit = refl; trace = refl }
    after_listing (raise e) = record { queue = refl; audit = refl; trace = refl }

    pub list_pending-SameState : SameState w (list_pending env token w).1
    unfolding list_pending authenticate ◌>>=◌ lift sample
    list_pending-SameState =
        after_listing (verify_token env.jwt env.settings (env.seconds w.tick) token)

    after_listing-tick :
        (v : Result Params)
        → w.tick
          ≤ (continue {B = ℕ × List Params} v
              (λ p w.
                let rows = Approval.list_pending env.py env.settings w.queue in
                (ok (length rows, rows), w))
              (record w { tick = suc w.tick })).1.tick
    after_listing-tick (ok p) = omega arith
    after_listing-tick (raise e) = omega arith

    pub list_pending-tick : w.tick ≤ (list_pending env token w).1.tick
    unfolding list_pending authenticate ◌>>=◌ lift sample
    list_pending-tick =
        after_listing-tick (verify_token env.jwt env.settings (env.seconds w.tick) token)
