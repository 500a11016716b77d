-- ===== src/Client/Laws.antt =====
-- ai_agent_client.py: what the client returns and sends.
use ai_k8s_gateway.Base.{
  String, ◌≡◌, ◌≢◌, refl, ◌↔◌, Bool, true, false, ◌&&◌, Option, none, some, List, [], ◌∷◌, ◌++◌,
  arith, eqb, if◌then◌else◌,
}
use ai_k8s_gateway.Base.Int.{negsuc}
use ai_k8s_gateway.Errors.{Result, ok, raise}
use ai_k8s_gateway.Value.{Value, str, int, Params, dict}
use ai_k8s_gateway.Opa.{get_field}
use ai_k8s_gateway.Client.{
  ClientError, gateway_error, auth_error, denied_error, pending_error, Outcome, returned, raised,
  uncaught, denied_of, Request, post, Response, resume, ◌>>=◌, finish, handle_response, answer_of,
  payload_of, GatewayClient, exchange, retried, action,
}

uncaught-returned :
    {A B : Type 0} (m : Result A) (f : A → Outcome B) (b : B)
    → ((a : A) → f a ≢ returned b)
    → uncaught m f ≢ returned b
uncaught-returned (ok a) f b h e = h a e
uncaught-returned (raise x) f b h e = cc

uncaught-returns : {A : Type 0} (m : Result A) (a : A) → uncaught m returned ≡ returned a → m ≡ ok a
uncaught-returns (ok x) a e = cc
uncaught-returns (raise x) a e = cc

raised-returned : {A : Type 0} (x : ClientError) (a : A) → raised x ≢ returned a
raised-returned x a e = cc

denied_of-raises : (body v : Value) → denied_of body ≢ returned v
unfolding denied_of
denied_of-raises body v = uncaught-returned (get_field (dict []) "detail" body) _ v λ detail.
    uncaught-returned (get_field (str "Policy denied the action.") "reason" detail) _ v λ reason.
      uncaught-returned (get_field (str "unknown") "risk_level" detail) _ v λ level.
        uncaught-returned (get_field (int (negsuc 0)) "risk_score" detail) _ v
          λ score. raised-returned (denied_error reason level score) v

pending_of-raises :
    (body v : Value)
    → uncaught (get_field (str "unknown") "request_id" body) (λ id. raised (pending_error id))
      ≢ returned v
pending_of-raises body v =
    uncaught-returned (get_field (str "unknown") "request_id" body) _ v
      λ id. raised-returned (pending_error id) v

returned-status :
    (resp : Response) (v : Value) (is_ok accepted refused denied : Bool)
    → (if is_ok
        then uncaught resp.json returned
        else if accepted
        then uncaught resp.json (λ body.
          uncaught (get_field (str "unknown") "request_id" body) λ id. raised (pending_error id))
        else if refused
        then raised auth_error
        else if denied
        then uncaught resp.json denied_of
        else raised gateway_error)
      ≡ returned v
    → (is_ok ≡ true) × (resp.json ≡ ok v)
returned-status resp v true _ _ _ e = (refl, uncaught-returns resp.json v e)
returned-status resp v false true _ _ e =
    absurd (uncaught-returned resp.json _ v (λ body. pending_of-raises body v) e)
returned-status resp v false false true _ e = cc
returned-status resp v false false false true e =
    absurd (uncaught-returned resp.json _ v (λ body. denied_of-raises body v) e)
returned-status resp v false false false false e = cc

-- The client returns a value for a response exactly if the status is 200 and the value is the
-- JSON body.
pub handle_response-returned :
    (resp : Response) (v : Value)
    → (handle_response resp ≡ returned v) ↔ ((resp.status_code ≡ 200) × (resp.json ≡ ok v))
unfolding handle_response
handle_response-returned resp v = (
  λ e.
      let (same, json) =
        returned-status resp v (eqb resp.status_code 200) (eqb resp.status_code 202)
          (eqb resp.status_code 401) (eqb resp.status_code 403) e in
      (ground arith, json),
  λ h. ground arith,
)

module _ (client : GatewayClient) (verb resource namespace : String) (params : Option Params)
    (sent : List Request) where
  abbrev pub request : Request
  request = post "/agent-action" (payload_of verb resource namespace params)

  -- The first answer asks for the retry.
  abbrev pub IsRetried : Type 0
  IsRetried =
      (resp : Response) × (client.network sent request ≡ some resp)
      × (resp.status_code ≡ 503)
      × (client.retry_on_503 ≡ true)

  -- What was sent: the request once, or twice.
  pub data Sent : List Request → Type 0 where
    once : Sent (sent ++ request ∷ [])
    twice : IsRetried → Sent ((sent ++ request ∷ []) ++ request ∷ [])

  after-Sent :
      (o : Option Response) (l : List Request)
      → Sent l
      → Sent (resume (answer_of o) (λ last. finish (handle_response last)) l).1
  unfolding finish
  after-Sent none l h = h
  after-Sent (some resp) l h = h

  retried_by :
      (b : Bool) (resp : Response)
      → client.network sent request ≡ some resp
      → (b ≡ true → (resp.status_code ≡ 503) × (client.retry_on_503 ≡ true))
      → Sent
          (((if b then exchange client request else finish (returned resp)) >>= λ last.
              finish (handle_response last))
            (sent ++ request ∷ [])).1
  unfolding exchange finish ◌>>=◌
  retried_by true resp e why =
      after-Sent (client.network (sent ++ request ∷ []) request) _
        (twice (resp, e, (why refl).0, (why refl).1))
  retried_by false resp e why = once

  retried-Sent :
      (o : Option Response)
      → client.network sent request ≡ o
      → Sent
          (resume
            (answer_of o)
            (λ resp. retried client request resp >>= λ last. finish (handle_response last))
            (sent ++ request ∷ [])).1
  unfolding retried exchange finish ◌>>=◌
  retried-Sent none e = once
  retried-Sent (some resp) e =
      retried_by (eqb resp.status_code 503 && client.retry_on_503) resp e
        (λ h. (ground arith, ground arith))

  -- A call of the client's action sends its request once, or twice; and twice only if the
  -- first response has status 503 and the client retries.
  pub action-Sent : Sent (action client verb resource namespace params sent).1
  unfolding action exchange ◌>>=◌
  action-Sent = retried-Sent (client.network sent request) refl
