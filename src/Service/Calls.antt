-- ===== src/Service/Calls.antt =====
-- ai_agent_client.py against the service of app/main.py: a call of the client is a call of the handler.
use ai_k8s_gateway.Base.{
  String, ◌≡◌, ◌≢◌, refl, false, ◌&&◌, some, List, [], ◌∷◌, ◌++◌, ap, ◌∙◌, eqb, if◌then◌else◌,
  arith,
}
use ai_k8s_gateway.Gateway.{
  Env, World, AgentActionRequest, agent_action, approve_action, ApproveRequest,
}
use ai_k8s_gateway.Client.{
  Request, Response, Call, resume, returned, handle_response, GatewayClient, ◌>>=◌, finish,
  exchange, retried, simple, action,
}
use ai_k8s_gateway.Service.{
  Route, acting, approving, Framework, response_json, approval_json, as_json, serve, handle, replay,
  network, request_of,
}

bind-returned :
    {A B : Type 0} (m : Call A) (f : A → Call B) (a : A) {sent sent' : List Request}
    → m sent ≡ (returned a, sent')
    → (m >>= f) sent ≡ f a sent'
unfolding ◌>>=◌
bind-returned m f a e = ap (λ o. resume o.0 f o.1) e

module _ (framework : Framework) (env : Env) (token : String) where
  -- The state after one more request.
  pub replay-snoc :
      (sent : List Request) (request : Request) (w : World)
      → replay framework env token (sent ++ request ∷ []) w
        ≡ (serve framework env token request (replay framework env token sent w)).1
  unfolding replay
  replay-snoc [] request w = refl
  replay-snoc (r ∷ rs) request w = replay-snoc rs request (serve framework env token r w).1

  pub serve-route :
      (request : Request) (route : Route) (w : World)
      → framework.route request ≡ some route
      → serve framework env token request w ≡ handle framework env token route w
  unfolding serve
  serve-route request route w e = rw (e, serve)

  pub serve-acting :
      (request : Request) (body : AgentActionRequest) (w : World)
      → framework.route request ≡ some (acting body)
      → serve framework env token request w ≡ (
        framework.reply (as_json response_json (agent_action env token body w).0),
        (agent_action env token body w).1,
      )
  unfolding handle
  serve-acting request body w e = serve-route request (acting body) w e

  pub serve-approving :
      (request : Request) (id : String) (body : ApproveRequest) (w : World)
      → framework.route request ≡ some (approving id body)
      → serve framework env token request w ≡ (
        framework.reply (as_json approval_json (approve_action env token id body w).0),
        (approve_action env token id body w).1,
      )
  unfolding handle
  serve-approving request id body w e = serve-route request (approving id body) w e

module _ (client : GatewayClient) where
  not_retried :
      (request : Request) (resp : Response) (sent : List Request)
      → resp.status_code ≢ 503
      → retried client request resp sent ≡ (returned resp, sent)
  unfolding retried finish
  not_retried request resp sent h =
      let other : (eqb resp.status_code 503) ≡ false = ground arith in
      ap
        (λ b.
          (if b && client.retry_on_503 then exchange client request else finish (returned resp))
            sent)
        other

module _ (framework : Framework) (env : Env) (token : String) (client : GatewayClient)
    (start : World) (connected : client.network ≡ network framework env token start) where
  exchange-serve :
      (request : Request) (sent : List Request)
      → exchange client request sent ≡ (
        returned (serve framework env token request (replay framework env token sent start)).0,
        sent ++ request ∷ [],
      )
  unfolding exchange
  exchange-serve request sent = rw connected

  -- A call of the client's action sends one request, and reads the service's response to it.
  pub action-serve :
      (body : AgentActionRequest) (sent : List Request)
      → (serve framework env token
          (request_of body)
          (replay framework env token sent start)).0.status_code
        ≢ 503
      → action client body.action body.resource body.namespace (some body.params) sent ≡ (
        handle_response
            (serve framework env token (request_of body) (replay framework env token sent start)).0,
        sent ++ request_of body ∷ [],
      )
  unfolding action finish
  action-serve body sent h =
      let request = request_of body in
      let resp = (serve framework env token request (replay framework env token sent start)).0 in
      bind-returned (exchange client request) _ resp (exchange-serve request sent)
      ∙ bind-returned (retried client request resp) (λ last. finish (handle_response last)) resp
          (not_retried client request resp (sent ++ request ∷ []) h)

  pub simple-serve :
      (request : Request) (sent : List Request)
      → simple client request sent ≡ (
        handle_response
            (serve framework env token request (replay framework env token sent start)).0,
        sent ++ request ∷ [],
      )
  unfolding simple finish
  simple-serve request sent =
      bind-returned (exchange client request) _ _ (exchange-serve request sent)
