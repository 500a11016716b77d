-- ===== src/Service/Reports.antt =====
-- ai_agent_client.py against the service of app/main.py with the shipped policy: what the agent is told.
use ai_k8s_gateway.Base.{
  ℕ, suc, String, ◌≡◌, ◌≢◌, ◌⊎◌, inl, inr, some, [], ◌∷◌, ap, ◌∙◌, sym, subst, arith,
}
use ai_k8s_gateway.Base.Int.{negsuc}
use ai_k8s_gateway.Errors.{Result-cases, Exception, http_exception, Result, ok, raise}
use ai_k8s_gateway.Value.{Value, str, int, dict, Params}
use ai_k8s_gateway.Auth.{verify_token, auth_error as rejected}
use ai_k8s_gateway.Auth.Laws.{verify_token-raises}
use ai_k8s_gateway.Risk.{RiskScore, score, level_text}
use ai_k8s_gateway.Risk.Payload.{score-raises_iff}
use ai_k8s_gateway.Policy.{PolicyReason, reason}
use ai_k8s_gateway.Audit
use ai_k8s_gateway.Gateway.{Env, World, AgentActionRequest, AgentActionResponse, after_k8s}
use ai_k8s_gateway.Enforcement.{
  Verdict, refused, denied, queued, run, question, judge, judge_scored, verdict, outcome, run_of,
  Enforces, refusing, denying, queueing, running, failing,
}
use ai_k8s_gateway.Client.{
  Response, Outcome, returned, raised, gateway_error, denied_error, handle_response,
}
use ai_k8s_gateway.Client.Laws.{handle_response-returned}
use ai_k8s_gateway.Service.{Framework, IsLawful, code_of, response_json, as_json}
use ai_k8s_gateway.Service.Statuses.{
  told, IsFault, refused-injective, handle_response-fault, handle_response-denial,
}

module _ (env : Env) (render : PolicyReason → String) (token : String) (body : AgentActionRequest)
    (w : World) where
  -- What the client's call comes to for each verdict.
  pub data Reports (o : Outcome Value) : Verdict → Type 0 where
    turned_away : (e : Exception) → o ≡ raised (told (code_of e)) → Reports o (refused e)
    forbidden :
        (p : Params) (rs : RiskScore)
        → o
          ≡ raised (
              denied_error
                (str (render (reason (question env body p rs))))
                (str (level_text rs.level))
                (int (negsuc 0)))
        → Reports o (denied p rs)
    waiting :
        (p : Params) (rs : RiskScore) (response : AgentActionResponse)
        → o ≡ returned (response_json response)
        → response.decision ≡ Audit.pending_approval
        → Reports o (queued p rs)
    completed :
        (p : Params) (rs : RiskScore) (result : Value) (response : AgentActionResponse)
        → outcome env render token body w ≡ ok result
        → o ≡ returned (response_json response)
        → response.decision ≡ Audit.allow
        → response.result ≡ some result
        → Reports o (run p rs)
    broken :
        (p : Params) (rs : RiskScore) (e : Exception)
        → outcome env render token body w ≡ raise e
        → o ≡ raised gateway_error
        → Reports o (run p rs)

  -- Neither the token library nor the run raises an HTTPException.
  pub record IsPlain : Type 0 where
    pub decoded :
        (e : Exception)
        → env.jwt.decode
            (env.seconds (suc w.tick))
            token
            env.settings.jwt_secret
            (env.settings.jwt_algorithm ∷ [])
          ≡ raise e
        → code_of e ≡ 500
    pub ran : (e : Exception) → (run_of env render token body w).0 ≡ raise e → code_of e ≡ 500

  module _ (plain : IsPlain) where
    settled_not_refused :
        (p : Params) (rs : RiskScore) (e : Exception) → judge_scored env body p (ok rs) ≢ refused e
    unfolding judge_scored
    settled_not_refused p rs e h = ground arith

    IsFault-of :
        {x : Exception} (e : Exception)
        → code_of e ≡ code_of x
        → (x ≡ rejected)
          ⊎ (env.jwt.decode
                (env.seconds (suc w.tick))
                token
                env.settings.jwt_secret
                (env.settings.jwt_algorithm ∷ [])
              ≡ raise x)
        → IsFault (code_of e)
    IsFault-of e same (inl refused_token) = inl (same ∙ ap code_of refused_token)
    IsFault-of {x} e same (inr failed_decode) = inr (inl (same ∙ plain.decoded x failed_decode))

    scored-IsFault :
        (e : Exception) (p : Params) → judge env body (ok p) ≡ refused e → IsFault (code_of e)
    unfolding judge judge_scored
    scored-IsFault e p h =
        elim (Result-cases
          (score env.py env.settings body.action body.resource body.namespace (some body.params))) [
            | inl (rs, ok_score) ↦
                absurd
                  (settled_not_refused p rs e (ap (judge_scored env body p) (sym ok_score) ∙ h))
            | inr (x, bad) ↦
                let same : x ≡ e = refused-injective (ap (judge_scored env body p) (sym bad) ∙ h) in
                let overflow =
                  ((score-raises_iff env.py env.settings body.action body.resource body.namespace
                      body.params x).0
                    bad).0 in
                inr (inl (ap code_of (sym same ∙ overflow)))
          ]

    refused-IsFault :
        (e : Exception) → verdict env render token body w ≡ refused e → IsFault (code_of e)
    unfolding judge judge_scored
    refused-IsFault e h =
        elim (Result-cases (verify_token env.jwt env.settings (env.seconds (suc w.tick)) token)) [
          | inl (p, ok_token) ↦ scored-IsFault e p (ap (judge env body) (sym ok_token) ∙ h)
          | inr (x, bad) ↦
              IsFault-of e
                (ap code_of (sym (refused-injective (ap (judge env body) (sym bad) ∙ h))))
                (verify_token-raises env.jwt env.settings (env.seconds (suc w.tick)) token x bad)
        ]

    run-fault :
        (r : Result Value) (e : Exception)
        → ((x : Exception) → r ≡ raise x → code_of x ≡ 500)
        → after_k8s body.action body.resource body.namespace body.params r ≡ raise e
        → (code_of e ≡ 500) ⊎ (code_of e ≡ 502)
    unfolding after_k8s
    run-fault r e plain_run h = ground (arith, plain_run e)

    outcome-fault :
        (e : Exception)
        → outcome env render token body w ≡ raise e
        → (code_of e ≡ 500) ⊎ (code_of e ≡ 502)
    outcome-fault e h = run-fault (run_of env render token body w).0 e plain.ran h

  module _ (framework : Framework) (lawful : IsLawful framework) where
    abbrev sent_back : Result AgentActionResponse → Response
    sent_back r = framework.reply (as_json response_json r)

    -- A response of the handler, and what the client makes of it.
    pub record IsTold (resp : Response) (v : Verdict) : Type 0 where
      pub final : resp.status_code ≢ 503
      pub report : Reports (handle_response resp) v

    faulty :
        (e : Exception) (v : Verdict)
        → IsFault (code_of e)
        → (handle_response (sent_back (raise e)) ≡ raised (told (code_of e))
            → Reports (handle_response (sent_back (raise e))) v)
        → IsTold (sent_back (raise e)) v
    faulty e v h why =
        let status = lawful.raised_status e in
        record {
          final = λ k. not_final (code_of e) h (sym status ∙ k);
          report = why (
              handle_response-fault (sent_back (raise e)) (subst IsFault (sym status) h)
              ∙ ap (λ n. raised (told n)) status);
        }
      where
        not_final : (n : ℕ) → IsFault n → n ≢ 503
        not_final n h k = ground arith

    good :
        (r : AgentActionResponse) (v : Verdict)
        → (handle_response (sent_back (ok r)) ≡ returned (response_json r)
            → Reports (handle_response (sent_back (ok r))) v)
        → IsTold (sent_back (ok r)) v
    good r v why =
        let status = lawful.answered_status (response_json r) in
        let json = lawful.answered_json (response_json r) in
        record {
          final = λ k. let k' = sym status ∙ k in omega (arith, k');
          report =
              why
                ((handle_response-returned (sent_back (ok r)) (response_json r)).1 (status, json));
        }

    barred :
        (p : Params) (rs : RiskScore) (id : String)
        → IsTold
            (sent_back (
              raise (
                http_exception 403 (
                  dict (
                    ("request_id", str id)
                    ∷ ("decision", str "deny")
                    ∷ ("reason", str (render (reason (question env body p rs))))
                    ∷ ("risk_level", str (level_text rs.level))
                    ∷ [])))))
            (denied p rs)
    barred p rs id =
        let status = lawful.raised_status (http_exception 403 _) in
        record {
          final = λ k. let k' = sym status ∙ k in omega (arith, k');
          report = forbidden p rs (
              handle_response-denial _ id (str (render (reason (question env body p rs))))
                (str (level_text rs.level)) status (lawful.raised_json 403 _));
        }

    crashed :
        (p : Params) (rs : RiskScore) (e : Exception)
        → outcome env render token body w ≡ raise e
        → (code_of e ≡ 500) ⊎ (code_of e ≡ 502)
        → IsTold (sent_back (raise e)) (run p rs)
    crashed p rs e ran (inl code) =
        faulty e (run p rs) (inr (inl code))
          (λ same. broken p rs e ran (same ∙ ap (λ n. raised (told n)) code))
    crashed p rs e ran (inr code) =
        faulty e (run p rs) (inr (inr code))
          (λ same. broken p rs e ran (same ∙ ap (λ n. raised (told n)) code))

    module _ (plain : IsPlain) where
      pub Enforces-IsTold :
          {o : Result AgentActionResponse × World} (v : Verdict)
          → verdict env render token body w ≡ v
          → Enforces env render token body w o v
          → IsTold (sent_back o.0) v
      Enforces-IsTold v at (refusing e same kept) =
          subst (λ r. IsTold (sent_back r) v) (sym same)
            (faulty e v (refused-IsFault plain e at) (turned_away e))
      Enforces-IsTold v at (denying p rs same audit queue trace) =
          subst (λ r. IsTold (sent_back r) v) (sym same) (barred p rs (env.uuid w.tick))
      Enforces-IsTold v at (queueing p rs waits) =
          subst (λ r. IsTold (sent_back r) v) (sym waits.answered)
            (good waits.response v (λ e. waiting p rs waits.response e waits.decided))
      Enforces-IsTold v at
            (running p rs result response ran same decided with_result audit queue trace) =
          subst (λ r. IsTold (sent_back r) v) (sym same)
            (good response v (λ e. completed p rs result response ran e decided with_result))
      Enforces-IsTold v at (failing p rs e ran same audit queue trace) =
          subst (λ r. IsTold (sent_back r) v) (sym same)
            (crashed p rs e ran (outcome-fault plain e ran))
