-- ===== src/Examples/Services.antt =====
-- The client against the service, and an approved request, at concrete calls.
use ai_k8s_gateway.Base.{
  suc, String, ◌≡◌, refl, true, Option, none, some, [], ◌∷◌, if◌then◌else◌, ◌==◌, lookup, contains,
}
use ai_k8s_gateway.Errors.{Exception, http_exception, value_error, Result, ok, raise}
use ai_k8s_gateway.Value.{Value, null, bool, str, obj, dict, fields, Params, get_or}
use ai_k8s_gateway.Text.{lower, strip, int_of}
use ai_k8s_gateway.Auth.{verify_token, claims_dict}
use ai_k8s_gateway.Opa.{get_field, opa_input}
use ai_k8s_gateway.Cluster.{◌>>=◌ as ◌>>=ᵏ◌, lift, call}
use ai_k8s_gateway.K8s.{
  build_deployment, accepted, clean_namespace, execute_action, load_config, guarded, dispatch,
  dispatch_pods, dispatch_deployments, wrap_api,
}
use ai_k8s_gateway.Gateway.{Env, AgentActionRequest, approve_action}
use ai_k8s_gateway.Client.{Request, get, post, GatewayClient, action}
use ai_k8s_gateway.Service.{
  Route, acting, listing, probing, Framework, IsLawful, code_of, network, replay, request_of,
}
use ai_k8s_gateway.Risk.{RiskScore, high, score, action_weight, system_namespace, host_access}
use ai_k8s_gateway.Policy.{
  allow, is_text, payload_violations, flag_violations, bad_image, is_trusted_image, bad_replicas,
}
use ai_k8s_gateway.Gateway.{after_k8s}
use ai_k8s_gateway.Gateway.Approving.{approver_of}
use ai_k8s_gateway.Enforcement.Lifecycle.{submitted, agent_action-approve_action, IsApproved}
use ai_k8s_gateway.Enforcement.{judge, judge_scored, verdict, queued, outcome}
use ai_k8s_gateway.Service.Reports.{IsPlain}
use ai_k8s_gateway.Base.Int.{pos}
use ai_k8s_gateway.Risk.{any_prefix}
use ai_k8s_gateway.Client.{create_params, create_deployment}
use ai_k8s_gateway.Service.Creation.{creation, IsForbidden, untrusted, create_deployment-IsBlocked}
use ai_k8s_gateway.Service.Blocks.{IsBlocked, IsReady}
use ai_k8s_gateway.Service.Actions.{IsReported, action-IsReported}
use ai_k8s_gateway.Examples.Setting.{env, start, claims}
use ai_k8s_gateway.Examples.Processes.{list_body}
use ai_k8s_gateway.Examples.Requests.{yes_body}

abbrev pub text_of : Result Value → String
text_of (ok (str s)) = s
text_of _ = ""

abbrev params_of : Result Value → Params
params_of (ok (obj fs)) = fields fs
params_of _ = []

abbrev body_of : Value → AgentActionRequest
body_of json = record {
  action = text_of (get_field null "action" json);
  resource = text_of (get_field null "resource" json);
  namespace = text_of (get_field null "namespace" json);
  params = params_of (get_field null "params" json);
}

abbrev route_of : Request → Option Route
route_of (get path) =
    if path == "/pending" then some listing else if path == "/health" then some probing else none
route_of (post path json) = if path == "/agent-action" then some (acting (body_of json)) else none

abbrev json_of : Exception → Result Value
json_of (http_exception status detail) = ok (dict (("detail", detail) ∷ []))
json_of _ = raise value_error

abbrev pub framework : Framework
framework = record {
  route = route_of;
  rejection = λ r. record { status_code = 404; json = ok (dict []) };
  reply = λ r. elim r [
    | ok v ↦ record { status_code = 200; json = ok v }
    | raise e ↦ record { status_code = code_of e; json = json_of e }
  ];
}

pub framework-IsLawful : IsLawful framework
framework-IsLawful = record {
  answered_status = λ v. refl;
  answered_json = λ v. refl;
  raised_status = λ e. refl;
  raised_json = λ status detail. refl;
}

abbrev pub client : GatewayClient
client = record { network = network framework env "token" start; retry_on_503 = true }

routed : framework.route (request_of list_body) ≡ some (acting list_body)
unfolding get_field get_or lookup
routed = refl

list_body-IsPlain :
    IsPlain env (λ r. "reason") "token" list_body (replay framework env "token" [] start)
unfolding replay execute_action load_config guarded dispatch dispatch_pods lift call ◌>>=ᵏ◌ wrap_api
    contains lower strip clean_namespace
list_body-IsPlain = record { decoded = λ e h. cc; ran = λ e h. cc }

action-IsReported_example :
    IsReported framework env
      (λ r. "reason")
      "token"
      start
      list_body
      []
      (action client "list" "pods" "demo" (some []) [])
action-IsReported_example =
    action-IsReported framework env (λ r. "reason") [] "token" client start framework-IsLawful refl
      (λ tick url input. refl) list_body [] routed list_body-IsPlain

-- A creation with a host path and a padded namespace, which the policy allows and the scorer puts high.
abbrev hosted : AgentActionRequest
hosted = record {
  action = "create";
  resource = "deployments";
  namespace = " kube-system";
  params = ("name", str "web") ∷ ("image", str "gcr.io/web:1") ∷ ("hostPath", bool true) ∷ [];
}

abbrev hosted_risk : RiskScore
hosted_risk = record {
  level = high;
  score = 5;
  reasons =
      action_weight "create" 1 ∷ system_namespace "kube-system" ∷ host_access "hostPath" 2 ∷ [];
}

-- The clock stands still.
abbrev pub still_env : Env
still_env = record env { seconds = λ tick. 0 }

hosted-verdict :
    verdict still_env (λ r. "reason") "token" hosted start ≡ queued (claims_dict claims) hosted_risk
unfolding judge judge_scored verify_token score allow is_text opa_input payload_violations
    flag_violations bad_image is_trusted_image bad_replicas
hosted-verdict = refl

hosted_submitter :
    approver_of still_env "token" "id" yes_body
      (submitted still_env (λ r. "reason") "token" hosted start)
    ≡ ok (claims_dict claims)
unfolding verify_token
hosted_submitter = refl

abbrev hosted_result : Value
hosted_result = dict (
    ("status", str "success")
    ∷ ("data", dict (("name", str "web") ∷ ("namespace", str "demo") ∷ ("uid", str "u") ∷ []))
    ∷ [])

hosted_ran : outcome still_env (λ r. "reason") "token" hosted start ≡ ok hosted_result
unfolding after_k8s execute_action load_config guarded dispatch dispatch_deployments lift call
    ◌>>=ᵏ◌ wrap_api contains lower strip clean_namespace build_deployment int_of get_or accepted
hosted_ran = refl

agent_action-approve_action_example :
    IsApproved still_env
      (λ r. "reason")
      "token"
      hosted
      start
      (claims_dict claims)
      hosted_risk
      yes_body
      hosted_result
      (approve_action still_env "token" "id" yes_body
        (submitted still_env (λ r. "reason") "token" hosted start))
agent_action-approve_action_example =
    agent_action-approve_action still_env (λ r. "reason") "token" hosted start []
      (λ tick url input. refl) (claims_dict claims) (claims_dict claims) hosted_risk "token"
      yes_body hosted_result hosted-verdict hosted_submitter refl hosted_ran

abbrev miner : AgentActionRequest
miner =
    creation env "miner" "cryptominer:latest" "demo" (pos 1) (pos 80) "50m" "200m" "64Mi" "128Mi"

miner_routed : framework.route (request_of miner) ≡ some (acting miner)
unfolding get_field get_or lookup create_params
miner_routed = refl

miner-IsPlain : IsPlain env (λ r. "reason") "token" miner (replay framework env "token" [] start)
unfolding replay execute_action load_config guarded dispatch dispatch_deployments lift call ◌>>=ᵏ◌
    wrap_api contains lower strip clean_namespace build_deployment int_of get_or accepted
    create_params
miner-IsPlain = record { decoded = λ e h. cc; ran = λ e h. cc }

miner_authentic :
    verify_token env.jwt env.settings
      (env.seconds (suc (replay framework env "token" [] start).tick))
      "token"
    ≡ ok (claims_dict claims)
unfolding verify_token replay
miner_authentic = refl

miner-IsForbidden :
    IsForbidden env "miner" "cryptominer:latest" "demo" (pos 1) (pos 80) "50m" "200m" "64Mi" "128Mi"
unfolding is_trusted_image any_prefix
miner-IsForbidden = untrusted (λ e. cc) refl

miner-IsReady : IsReady framework env (λ r. "reason") "token" start (claims_dict claims) miner []
miner-IsReady = record { routed = miner_routed; plain = miner-IsPlain; authentic = miner_authentic }

create_deployment-IsBlocked_example :
    IsBlocked framework env
      (λ r. "reason")
      "token"
      start
      (claims_dict claims)
      miner
      []
      (create_deployment client "miner" "cryptominer:latest" "demo"
        (pos 1)
        (pos 80)
        "50m"
        "200m"
        "64Mi"
        "128Mi"
        [])
create_deployment-IsBlocked_example =
    create_deployment-IsBlocked env "miner" "cryptominer:latest" "demo" (pos 1) (pos 80) "50m"
      "200m" "64Mi" "128Mi" framework (λ r. "reason") [] "token" client start framework-IsLawful
      refl (λ tick url input. refl) [] (claims_dict claims) miner-IsReady miner-IsForbidden
