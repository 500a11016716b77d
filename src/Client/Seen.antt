-- ===== src/Client/Seen.antt =====
-- ai_agent_client.py: the outcomes of the gateway's stages 4 and 5, as the client reports them.
use ai_k8s_gateway.Base.{
  ℕ, suc, some, refl, ◌≡◌, ◌≢◌, false, [], ◌∷◌, lookup, ap, ◌∙◌, if◌then◌else◌, subst, sym, arith,
}
use ai_k8s_gateway.Base.Int.{negsuc}
use ai_k8s_gateway.Errors.{http_exception, Result, ok, raise, ok-injective}
use ai_k8s_gateway.Value.{Value, str, int, dict, get_or}
use ai_k8s_gateway.Approval
use ai_k8s_gateway.Audit
use ai_k8s_gateway.Risk.{high, level_text}
use ai_k8s_gateway.Opa.{get_field}
use ai_k8s_gateway.Gateway.{
  Env, World, AgentActionResponse, Assessment, deny, settle, ◌>>=◌, lift, log, enqueue_high,
  execute_now, is_high, status_of, pending_of,
}
use ai_k8s_gateway.Gateway.Settling.{
  Settled, denying, queueing, executing, Executed, answered, failed, settle-Settled, audited,
  outcome_at, executed,
}
use ai_k8s_gateway.Client.{denied_error, returned, raised, denied_of, Response, handle_response}
use ai_k8s_gateway.Client.Laws.{handle_response-returned}

-- How the framework sends what a handler returns or raises: status 200 with the response's JSON, or
-- an HTTPException's status with its detail under "detail".
pub data Delivers (encode : AgentActionResponse → Value)
    : Result AgentActionResponse → Response → Type 0 where
  sent_body :
      (r : AgentActionResponse) (resp : Response)
      → resp.status_code ≡ 200
      → resp.json ≡ ok (encode r)
      → Delivers encode (ok r) resp
  sent_detail :
      (status : ℕ) (detail : Value) (resp : Response)
      → resp.status_code ≡ status
      → resp.json ≡ ok (dict (("detail", detail) ∷ []))
      → Delivers encode (raise (http_exception status detail)) resp

module _ (encode : AgentActionResponse → Value) (env : Env) (a : Assessment) (w : World)
    (resp : Response) where
  seen_denied :
      resp.status_code ≡ 403
      → resp.json
        ≡ ok (
            dict (
              (
                "detail",
                dict (
                    ("request_id", str a.request_id)
                    ∷ ("decision", str "deny")
                    ∷ ("reason", str a.opa_reason)
                    ∷ ("risk_level", str (level_text a.risk.level))
                    ∷ []),
              )
              ∷ []))
      → handle_response resp
        ≡ raised (denied_error (str a.opa_reason) (str (level_text a.risk.level)) (int (negsuc 0)))
  unfolding handle_response denied_of get_field get_or lookup
  seen_denied status json = rw (status, json)

  deny-Delivers :
      Delivers encode (deny env a w).0 resp
      → handle_response resp
        ≡ raised (denied_error (str a.opa_reason) (str (level_text a.risk.level)) (int (negsuc 0)))
  unfolding deny ◌>>=◌ lift log
  deny-Delivers (sent_detail _ _ _ status json) = seen_denied status json

  settle-deny : a.allowed ≡ false → settle env a w ≡ deny env a w
  unfolding settle
  settle-deny e =
      ap
        (λ b.
          (if b
              then (if is_high env a.risk.level then enqueue_high env a else execute_now env a)
              else deny env a)
            w)
        e

  -- If a request is not allowed and the framework delivers the outcome of stages 4 and 5, then
  -- the client raises GatewayDeniedError with the policy's reason, the risk level and the
  -- score -1.
  pub settle-denied_error :
      a.allowed ≡ false
      → Delivers encode (settle env a w).0 resp
      → handle_response resp
        ≡ raised (denied_error (str a.opa_reason) (str (level_text a.risk.level)) (int (negsuc 0)))
  settle-denied_error e sent =
      deny-Delivers (subst (λ o. Delivers encode o.0 resp) (settle-deny e) sent)

  delivered_body :
      (r : AgentActionResponse) {o : Result AgentActionResponse}
      → o ≡ ok r
      → Delivers encode o resp
      → handle_response resp ≡ returned (encode r)
  delivered_body r same (sent_body r' _ status json) =
      (handle_response-returned resp (encode r)).1
        (status, json ∙ ap (λ r. ok (encode r)) (ok-injective same))
  delivered_body r same (sent_detail _ _ _ status json) = cc

  -- What an answered request was: queued, with one record and no call of the cluster; or run, with the
  -- run's result, its trace and one record, and the queue as it was.
  pub data IsQueuedOrRun (r : AgentActionResponse) (w' : World) : Type 0 where
    was_queued :
        a.risk.level ≡ high
        → r.decision ≡ Audit.pending_approval
        → w'.queue ≡ (Approval.enqueue (pending_of env a (env.isoformat w.tick)) w.queue).1
        → w'.audit ≡ audited env a Audit.pending_approval (record w { tick = suc w.tick })
        → w'.trace ≡ w.trace
        → IsQueuedOrRun r w'
    was_run :
        (result : Value)
        → a.risk.level ≢ high
        → r.decision ≡ Audit.allow
        → outcome_at env a w ≡ ok result
        → r.result ≡ some result
        → w'.queue ≡ w.queue
        → w'.audit ≡ audited env a Audit.allow w
        → w'.trace ≡ (executed env a w).1
        → IsQueuedOrRun r w'

  run-IsQueuedOrRun :
      (r : AgentActionResponse) {o : Result AgentActionResponse × World}
      → a.risk.level ≢ high
      → Executed env a w o
      → o.0 ≡ ok r
      → IsQueuedOrRun r o.1
  run-IsQueuedOrRun r below (answered r' result ran with_result same decided) e =
      let own = sym (ok-injective e) in
      was_run result below (ap (λ r. r.decision) own ∙ decided) ran
        (ap (λ r. r.result) own ∙ with_result) refl refl refl
  run-IsQueuedOrRun r below (failed x ran) e = cc

  Settled-IsQueuedOrRun :
      (r : AgentActionResponse) {o : Result AgentActionResponse × World}
      → Settled env a w o
      → o.0 ≡ ok r
      → IsQueuedOrRun r o.1
  Settled-IsQueuedOrRun r (denying _ denied) e = absurd (refused_value denied.refused)
    where
      refused_value : status_of (deny env a w).0 ≢ 403
      refused_value h = let h' = rw e at h in ground arith
  Settled-IsQueuedOrRun r (queueing _ at_high queued) e =
      was_queued at_high
        (ap (λ r. r.decision) (ok-injective (sym e ∙ queued.answered)) ∙ queued.decided)
        queued.queue queued.audit queued.trace
  Settled-IsQueuedOrRun r (executing _ below run) e = run-IsQueuedOrRun r below run e

  -- If stages 4 and 5 return a response and the framework delivers it, then the client returns
  -- its JSON body. Either the request is of level high, the response says so, the request is
  -- added to the queue with one audit record, and no call of the cluster is added; or it is of
  -- another level, the response has the result of its run, the trace is that of the run, one
  -- audit record is added, and the queue is as it was.
  pub settle-returned :
      (r : AgentActionResponse)
      → (settle env a w).0 ≡ ok r
      → Delivers encode (settle env a w).0 resp
      → (handle_response resp ≡ returned (encode r)) × IsQueuedOrRun r (settle env a w).1
  settle-returned r e sent =
      (delivered_body r e sent, Settled-IsQueuedOrRun r (settle-Settled env a w) e)
