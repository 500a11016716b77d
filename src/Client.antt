-- ===== src/Client.antt =====
-- ai_agent_client.py: the client through which an agent calls the gateway. `httpx` is a parameter; the
-- headers, the timeout and the pause before the retry are left out.
pub mod Laws
pub mod Seen
pub mod Payloads
pub mod Tools
use Prim.Native.String.{◌++◌ as ◌<>◌}
use ai_k8s_gateway.Base.{
  ℕ, String, Bool, true, false, ◌&&◌, Option, none, some, List, [], ◌∷◌, ◌++◌, eqb, if◌then◌else◌,
}
use ai_k8s_gateway.Base.Int.{ℤ, pos, negsuc}
use ai_k8s_gateway.Errors.{Exception, Result, ok, raise}
use ai_k8s_gateway.Value.{Value, bool, int, str, Params, dict}
use ai_k8s_gateway.Opa.{get_field}

-- The two exceptions with fields carry them; the texts of the others are left out.
pub data ClientError : Type 0 where
  gateway_error auth_error connection_error : ClientError
  denied_error : (reason risk_level risk_score : Value) → ClientError
  pending_error : (request_id : Value) → ClientError
  -- An exception of `resp.json()` or of `.get` on what is no dict.
  other_error : Exception → ClientError

pub data Outcome (A : Type 0) : Type 0 where
  returned : A → Outcome A
  raised : ClientError → Outcome A

pub data Request : Type 0 where
  get : (path : String) → Request
  post : (path : String) (json : Value) → Request

-- `json` is what `resp.json()` returns or raises.
pub record Response : Type 0 where
  pub status_code : ℕ
  pub json : Result Value

-- The network: after the requests sent so far, a request is answered, or raises a RequestError.
abbrev pub Network : Type 0
Network = List Request → Request → Option Response

-- A client's call: it extends the list of the requests that were sent.
abbrev pub Call : Type 0 → Type 0
Call A = List Request → Outcome A × List Request

abbrev pub resume : {A B : Type 0} → Outcome A → (A → Call B) → Call B
resume (returned a) f sent = f a sent
resume (raised e) f sent = (raised e, sent)

infixl 5 ◌>>=◌
unfoldable pub ◌>>=◌ : {A B : Type 0} → Call A → (A → Call B) → Call B
◌>>=◌ m f sent = let (o, sent') = m sent in resume o f sent'

unfoldable pub finish : {A : Type 0} → Outcome A → Call A
finish o sent = (o, sent)

-- A result as an outcome: no handler of the client catches these exceptions.
abbrev pub uncaught : {A B : Type 0} → Result A → (A → Outcome B) → Outcome B
uncaught (ok a) f = f a
uncaught (raise e) f = raised (other_error e)

unfoldable pub denied_of : Value → Outcome Value
denied_of body = uncaught (get_field (dict []) "detail" body) λ detail.
    uncaught (get_field (str "Policy denied the action.") "reason" detail) λ reason.
      uncaught (get_field (str "unknown") "risk_level" detail) λ level.
        uncaught (get_field (int (negsuc 0)) "risk_score" detail)
          λ score. raised (denied_error reason level score)

-- `_handle_response`
unfoldable pub handle_response : Response → Outcome Value
handle_response resp =
    if eqb resp.status_code 200
    then uncaught resp.json returned
    else if eqb resp.status_code 202
    then uncaught resp.json (λ body.
      uncaught (get_field (str "unknown") "request_id" body) λ id. raised (pending_error id))
    else if eqb resp.status_code 401
    then raised auth_error
    else if eqb resp.status_code 403
    then uncaught resp.json denied_of
    else raised gateway_error

-- The outcome of one exchange.
abbrev pub answer_of : Option Response → Outcome Response
answer_of none = raised connection_error
answer_of (some resp) = returned resp

-- `params or {}`
abbrev pub or_empty : Option Params → Params
or_empty none = []
or_empty (some params) = params

abbrev pub payload_of : (action resource namespace : String) → Option Params → Value
payload_of action resource namespace params = dict (
    ("action", str action)
    ∷ ("resource", str resource)
    ∷ ("namespace", str namespace)
    ∷ ("params", dict (or_empty params))
    ∷ [])

pub record GatewayClient : Type 0 where
  pub network : Network
  pub retry_on_503 : Bool

module _ (client : GatewayClient) where
  -- `self._client.get` and `self._client.post`, with the handler of RequestError.
  unfoldable pub exchange : Request → Call Response
  exchange request sent = (answer_of (client.network sent request), sent ++ request ∷ [])

  unfoldable pub retried : Request → Response → Call Response
  retried request resp =
      if eqb resp.status_code 503 && client.retry_on_503
      then exchange request
      else finish (returned resp)

  unfoldable pub action : (action resource namespace : String) → Option Params → Call Value
  action verb resource namespace params = do
    let request = post "/agent-action" (payload_of verb resource namespace params)
    resp ← exchange request
    last ← retried request resp
    finish (handle_response last)

  -- One exchange, its response handled.
  unfoldable pub simple : Request → Call Value
  simple request = do resp ← exchange request; finish (handle_response resp)

  unfoldable pub list_pods : (namespace : String) → Call Value
  list_pods namespace = action "list" "pods" namespace none

  unfoldable pub get_pod : (name namespace : String) → Call Value
  get_pod name namespace = action "get" "pods" namespace (some (("name", str name) ∷ []))

  unfoldable pub list_deployments : (namespace : String) → Call Value
  list_deployments namespace = action "list" "deployments" namespace none

  unfoldable pub get_deployment : (name namespace : String) → Call Value
  get_deployment name namespace =
      action "get" "deployments" namespace (some (("name", str name) ∷ []))

  unfoldable pub list_secrets : (namespace : String) → Call Value
  list_secrets namespace = action "list" "secrets" namespace none

  unfoldable pub list_namespaces : Call Value
  list_namespaces = action "list" "namespaces" "default" none

  unfoldable pub list_pending_approvals : Call Value
  list_pending_approvals = simple (get "/pending")

  abbrev pub verdict : Bool → (request_id reason : String) → Request
  verdict approved request_id reason =
      post ("/approve/" <> request_id)
        (dict (("approved", bool approved) ∷ ("reason", str reason) ∷ []))

  unfoldable pub approve : (request_id reason : String) → Call Value
  approve request_id reason = simple (verdict true request_id reason)

  unfoldable pub reject : (request_id reason : String) → Call Value
  reject request_id reason = simple (verdict false request_id reason)

-- The `params` of `create_deployment`.
unfoldable pub create_params :
    (name image : String) (replicas container_port : ℤ)
    (cpu_request cpu_limit memory_request memory_limit : String)
    → Params
create_params name image replicas port cpu_request cpu_limit memory_request memory_limit =
    ("name", str name)
    ∷ ("image", str image)
    ∷ ("replicas", int replicas)
    ∷ ("container_port", int port)
    ∷ ("cpu_request", str cpu_request)
    ∷ ("cpu_limit", str cpu_limit)
    ∷ ("memory_request", str memory_request)
    ∷ ("memory_limit", str memory_limit)
    ∷ []

-- `if x is not None: params[key] = x`
abbrev pub field_of : {A : Type 0} → String → (A → Value) → Option A → Params
field_of key f none = []
field_of key f (some a) = (key, f a) ∷ []

-- The `params` of `patch_deployment`.
unfoldable pub patch_params : (name : String) (image : Option String) (replicas : Option ℤ) → Params
patch_params name image replicas =
    ("name", str name) ∷ (field_of "image" str image ++ field_of "replicas" int replicas)

module _ (client : GatewayClient) where
  unfoldable pub create_deployment :
      (name image namespace : String) (replicas container_port : ℤ)
      (cpu_request cpu_limit memory_request memory_limit : String)
      → Call Value
  create_deployment name image namespace replicas port cpu_request cpu_limit memory_request
        memory_limit =
      action client "create" "deployments" namespace (
        some (
          create_params name image replicas port cpu_request cpu_limit memory_request memory_limit))

  unfoldable pub patch_deployment :
      (name namespace : String) (image : Option String) (replicas : Option ℤ) → Call Value
  patch_deployment name namespace image replicas =
      action client "patch" "deployments" namespace (some (patch_params name image replicas))
