-- ===== src/Opa.antt =====
-- `_query_opa` of app/main.py: the request to the OPA sidecar and the reading of its reply.
pub mod Laws
use Prim.Native.String.{◌++◌ as ◌<>◌}
use ai_k8s_gateway.Base.{ℕ, String, Bool, false, List, [], ◌∷◌}
use ai_k8s_gateway.Base.Int.{pos}
use ai_k8s_gateway.Config.{Settings}
use ai_k8s_gateway.Errors.{Exception, attribute_error, Result, ok, raise, ◌>>=◌}
use ai_k8s_gateway.Policy.{OpaInput, allow, PolicyReason, reason}
use ai_k8s_gateway.Risk.{RiskLevel}
use ai_k8s_gateway.Text.{Python, lower, str_of}
use ai_k8s_gateway.Value.{
  Value, null, bool, int, float, str, arr, obj, Params, fields, dict, get_or, truthy,
}

-- What `http.post`, `raise_for_status` and `json` come to: a RequestError, an HTTPStatusError, the
-- JSON body, or another exception.
pub data Reply : Type 0 where
  unreachable : Reply
  http_status : ℕ → Reply
  body : Value → Reply
  fault : Exception → Reply

-- The sidecar: from a URL and an input to a reply.
abbrev pub Sidecar : Type 0
Sidecar = String → OpaInput → Reply

-- `v.get(key, default)`, for a value that may be no dict.
unfoldable pub get_field : Value → String → Value → Result Value
get_field default key (obj fs) = ok (get_or default key (fields fs))
get_field default key _ = raise attribute_error

module _ (py : Python) where
  unfoldable pub opa_input :
      (identity role : Value) (action resource namespace : String) (risk_level : RiskLevel)
      (params : Params)
      → OpaInput
  opa_input identity role action resource namespace risk_level params = record {
    identity = identity;
    role = role;
    action = lower py action;
    resource = lower py resource;
    namespace = lower py namespace;
    risk_level = risk_level;
    params = params;
  }

  -- The two fields of `result`.
  read_decision : Value → Result (Bool × String)
  unfolding get_field get_or truthy
  read_decision result = do
    allowed ← get_field (bool false) "allow" result
    told ← get_field (str "OPA decision (no reason provided)") "reason" result
    ok (truthy allowed, str_of py told)

  unfoldable pub read_reply : Reply → Result (Bool × String)
  unfolding read_decision
  read_reply unreachable = ok (false, "OPA sidecar unreachable — failing closed for safety")
  read_reply (http_status code) =
      ok (false, "OPA returned HTTP " <> str_of py (int (pos code)) <> " — failing closed")
  read_reply (body v) = do result ← get_field (dict []) "result" v; read_decision result
  read_reply (fault e) = raise e

  module _ (settings : Settings) (opa : Sidecar) where
    unfoldable pub query_opa :
        (identity role : Value) (action resource namespace : String) (risk_level : RiskLevel)
        (params : Params)
        → Result (Bool × String)
    unfolding read_reply opa_input
    query_opa identity role action resource namespace risk_level params = read_reply (
        opa (settings.opa_url <> "/" <> settings.opa_policy_path)
          (opa_input identity role action resource namespace risk_level params))

-- A sidecar that runs the shipped policy. `render` is the text of the rule `reason`, and `more` the
-- other rules' values, which the reply carries too.
unfoldable pub policy_sidecar : (render : PolicyReason → String) (more : Params) → Sidecar
policy_sidecar render more url input = body (
    dict (
      (
        "result",
        dict (("allow", bool (allow input)) ∷ ("reason", str (render (reason input))) ∷ more),
      )
      ∷ []))
