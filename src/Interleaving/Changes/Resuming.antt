-- ===== src/Interleaving/Changes/Resuming.antt =====
-- app/main.py: what a call of `agent_action` changes once OPA has replied.
use ai_k8s_gateway.Base.{String, ◌≡◌, refl, ◌≢◌, Bool, true, ap, ◌∙◌}
use ai_k8s_gateway.Errors.{Result, ok, raise}
use ai_k8s_gateway.Risk.{high}
use ai_k8s_gateway.Opa.{query_opa}
use ai_k8s_gateway.Opa.Laws.{Allows, read_reply-Allows}
use ai_k8s_gateway.Cluster.{ApiCall}
use ai_k8s_gateway.Gateway.{
  Env, World, AgentActionResponse, audit_of, pending_of, opa_decision, settle, ◌>>=◌, lift, sample,
}
use ai_k8s_gateway.Gateway.Settling.{
  Executed, answered, failed, Settled, denying, queueing, executing, settle-Settled,
}
use ai_k8s_gateway.Gateway.Approving.{ticked}
use ai_k8s_gateway.Interleaving.{Flight, assessment_of, resume}
use ai_k8s_gateway.Interleaving.Provenance.{
  reply_to, IsReceived, IsCleared, RoutedFor, IsDirect, log-IsAnnounced,
}
use ai_k8s_gateway.Interleaving.Changes.{
  quiet, silent, logged, kept, queued, Change, Change-refl, ticked-Change, run-TraceChange,
}

module _ (env : Env) where
  module _ (f : Flight) (received : IsReceived env f.body f.risk f.payload) (asked : World) where
    -- The sidecar's reply, to the query that was asked in this world.
    abbrev Permitted : Type 0
    Permitted = Allows (reply_to env asked.tick f.payload f.body f.risk)

    decided-Permitted :
        (told : String)
        → opa_decision env asked.tick f.payload f.body f.risk ≡ ok (true, told)
        → Permitted
    unfolding opa_decision query_opa
    decided-Permitted told e =
        read_reply-Allows env.py (reply_to env asked.tick f.payload f.body f.risk) told e

    IsCleared-by : Permitted → IsCleared env f.body f.risk
    IsCleared-by permitted = record {
      payload = f.payload;
      received = received;
      tick = asked.tick;
      permitted = permitted;
    }

    IsDirect-by :
        Permitted
        → f.risk.level ≢ high
        → (c : ApiCall) → RoutedFor env f.body c
        → IsDirect env f asked c
    IsDirect-by permitted below c routed = record {
      received = received;
      permitted = permitted;
      below = below;
      routed = routed;
    }

    Executed-Change :
        (d : Bool × String) (w : World) {o : Result AgentActionResponse × World}
        → Permitted
        → f.risk.level ≢ high
        → Executed env (assessment_of f d) w o
        → Change env (IsDirect env f asked) w o.1
    unfolding audit_of
    Executed-Change d w permitted below (answered response result done with_result same decided) =
        record {
          trace = run-TraceChange env f.body w.trace (IsDirect-by permitted below);
          audit = logged _ _ (λ h. absurd h) refl;
          queue = kept refl;
        }
    Executed-Change d w permitted below (failed e done) = record {
      trace = run-TraceChange env f.body w.trace (IsDirect-by permitted below);
      audit = silent refl;
      queue = kept refl;
    }

    Settled-Change :
        (d : Bool × String) (w : World) {o : Result AgentActionResponse × World}
        → opa_decision env asked.tick f.payload f.body f.risk ≡ ok d
        → Settled env (assessment_of f d) w o
        → Change env (IsDirect env f asked) w o.1
    unfolding pending_of audit_of
    Settled-Change d w e (denying barred o) = record {
      trace = quiet o.trace;
      audit = logged _ _ (λ h. absurd h) o.audit;
      queue = kept o.queue;
    }
    Settled-Change d w e (queueing granted at_high o) = record {
      trace = quiet o.trace;
      audit = logged _ _ (λ h. absurd h) o.audit;
      queue =
          queued (pending_of env (assessment_of f d) (env.isoformat w.tick)) at_high
            (IsCleared-by (decided-Permitted d.1 (e ∙ ap (λ b. ok (b, d.1)) granted)))
            (rw o.audit (log-IsAnnounced _ _ w.audit refl)) o.queue;
    }
    Settled-Change d w e (executing granted below o) =
        Executed-Change d w (decided-Permitted d.1 (e ∙ ap (λ b. ok (b, d.1)) granted)) below o

    after_reply :
        (r : Result (Bool × String))
        → opa_decision env asked.tick f.payload f.body f.risk ≡ r
        → Change env
            (IsDirect env f asked)
            asked
            ((lift r >>= λ d. settle env (assessment_of f d)) (ticked asked)).1
    unfolding ◌>>=◌ lift
    after_reply (ok d) e =
        ticked-Change env asked (
          Settled-Change d (ticked asked) e (settle-Settled env (assessment_of f d) (ticked asked)))
    after_reply (raise x) e = ticked-Change env asked (Change-refl env (ticked asked))

  -- The second half of a call whose first half was passed.
  pub resume-Change :
      (f : Flight)
      → IsReceived env f.body f.risk f.payload
      → (w : World) → Change env (IsDirect env f w) w (resume env f w).1
  unfolding resume sample ◌>>=◌
  resume-Change f received w =
      after_reply f received w (opa_decision env w.tick f.payload f.body f.risk) refl
