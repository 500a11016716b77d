-- ===== src/Demo/Scenarios.antt =====
-- demo/agent_client.py: the four scenarios.
use ai_k8s_gateway.Base.{String, true, [], ◌∷◌, eqb, if◌then◌else◌, ◌==◌}
use ai_k8s_gateway.Base.Int.{pos}
use ai_k8s_gateway.Errors.{attribute_error, Result, ok, raise}
use ai_k8s_gateway.Value.{Value, bool, int, str, dict}
use ai_k8s_gateway.Opa.{get_field}
use ai_k8s_gateway.Gateway.{AgentActionRequest}
use ai_k8s_gateway.Demo.{
  Colour, green, yellow, red, Printed, decision, blocked, unexpected, correctly_blocked,
  enforcement_suspect, Host, Demo, ◌>>=◌, ◌>>◌, lift, print, sliced, mint, post_action, get_pending,
  print_response, print_audit_tail,
}

-- The requests.
abbrev pub list_pods : AgentActionRequest
list_pods = record { action = "list"; resource = "pods"; namespace = "demo"; params = [] }

abbrev pub readonly_create : AgentActionRequest
readonly_create = record {
  action = "create";
  resource = "deployments";
  namespace = "demo";
  params = ("name", str "hacker-app") ∷ ("image", str "malicious:latest") ∷ [];
}

abbrev pub create_app : AgentActionRequest
create_app = record {
  action = "create";
  resource = "deployments";
  namespace = "demo";
  params =
      ("name", str "ai-managed-app")
      ∷ ("image", str "nginx:alpine")
      ∷ ("replicas", int (pos 2))
      ∷ ("container_port", int (pos 80))
      ∷ [];
}

abbrev pub system_create : AgentActionRequest
system_create = record {
  action = "create";
  resource = "deployments";
  namespace = "kube-system";
  params = ("name", str "evil-deploy") ∷ ("image", str "busybox") ∷ [];
}

abbrev pub system_delete : AgentActionRequest
system_delete = record {
  action = "delete";
  resource = "pods";
  namespace = "kube-system";
  params = ("name", str "kube-proxy-xyz") ∷ [];
}

abbrev pub privileged_create : AgentActionRequest
privileged_create = record {
  action = "create";
  resource = "deployments";
  namespace = "demo";
  params =
      ("name", str "evil-privileged")
      ∷ ("image", str "nginx:alpine")
      ∷ ("privileged", bool true)
      ∷ ("replicas", int (pos 1))
      ∷ [];
}

abbrev pub miner_create : AgentActionRequest
miner_create = record {
  action = "create";
  resource = "deployments";
  namespace = "demo";
  params =
      ("name", str "evil-miner")
      ∷ ("image", str "cryptominer:latest")
      ∷ ("replicas", int (pos 1))
      ∷ [];
}

abbrev pub many_replicas : AgentActionRequest
many_replicas = record {
  action = "create";
  resource = "deployments";
  namespace = "demo";
  params =
      ("name", str "evil-dos") ∷ ("image", str "nginx:alpine") ∷ ("replicas", int (pos 50)) ∷ [];
}

-- `decision.upper()` is asked of a text only.
unfoldable pub decision_line : Host → (otherwise : Colour) → Value → Result Printed
decision_line host otherwise (str s) =
    ok (decision (if s == "allow" then green else otherwise) (host.upper s))
decision_line host otherwise _ = raise attribute_error

module _ (host : Host) (gateway : String) where
  -- The decision that an answer's body carries, and the last record of the log.
  unfoldable pub show_decision : (otherwise : Colour) → Value → Demo Unit
  show_decision otherwise body = do
    told ← lift (get_field (str "?") "decision" body)
    line ← lift (decision_line host otherwise told)
    print host line
    print_audit_tail host "audit.log" 1

  unfoldable pub scenario_1_low_risk : Demo Unit
  scenario_1_low_risk = do
    token ← mint host "agent-readonly"
    resp ← post_action host gateway token list_pods
    body ← print_response host resp "List pods — demo namespace"
    show_decision red body
    bad_resp ← post_action host gateway token readonly_create
    print_response host bad_resp "Create deployment as readonly — expect 403"
    lift (ok tt)

  unfoldable pub scenario_2_medium_risk : Demo Unit
  scenario_2_medium_risk = do
    token ← mint host "agent-deploy"
    resp ← post_action host gateway token create_app
    body ← print_response host resp "Create deployment — demo namespace"
    show_decision yellow body
    bad_resp ← post_action host gateway token system_create
    print_response host bad_resp "Create in kube-system as deployer — expect 403"
    lift (ok tt)

  unfoldable pub scenario_3_high_risk : Demo Unit
  scenario_3_high_risk = do
    deploy_token ← mint host "agent-deploy"
    resp ← post_action host gateway deploy_token system_delete
    print_response host resp "Delete pod in kube-system — expect 403 deny"
    print host (if eqb resp.status_code 403 then correctly_blocked else enforcement_suspect)
    print_audit_tail host "audit.log" 1
    pending_resp ← get_pending host gateway deploy_token
    print_response host pending_resp "Pending queue"
    lift (ok tt)

  -- The reason that a denial gives, up to 120 characters.
  unfoldable pub show_block : Value → Demo Unit
  show_block body = do
    detail ← lift (get_field (dict []) "detail" body)
    reason ← lift (get_field (str "") "reason" detail)
    shown ← lift (sliced 120 reason)
    print host (blocked shown)

  unfoldable pub attack : (token : String) → AgentActionRequest → (label : String) → Demo Unit
  attack token request label = do
    resp ← post_action host gateway token request
    body ← print_response host resp label
    if eqb resp.status_code 403 then show_block body else print host (unexpected resp.status_code)

  unfoldable pub scenario_4_malicious_pod : Demo Unit
  scenario_4_malicious_pod = do
    deploy_token ← mint host "agent-deploy"
    attack deploy_token privileged_create "Create privileged container — expect 403"
    attack deploy_token miner_create "Create deployment with untrusted image — expect 403"
    attack deploy_token many_replicas "Create deployment with 50 replicas — expect 403"
    print_audit_tail host "audit.log" 3
