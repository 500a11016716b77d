-- ===== src/Examples/Requests.antt =====
-- The endpoints at concrete calls.
use ai_k8s_gateway.Base.{ℕ, contains, ◌≡◌, refl, true, none, some, [], ◌∷◌}
use ai_k8s_gateway.Errors.{jwt_error, connection_error, ok, raise}
use ai_k8s_gateway.Value.{str, get_or, truthy}
use ai_k8s_gateway.Text.{ascii, normal, lower, strip}
use ai_k8s_gateway.Auth.{verify_token, claims_dict, auth_error}
use ai_k8s_gateway.Approval
use ai_k8s_gateway.Approval.{PendingRequest}
use ai_k8s_gateway.Cluster.Calls.{AtMostOne}
use ai_k8s_gateway.Approval.Laws.{init-IsValid, enqueue-IsValid, peek-enqueue}
use ai_k8s_gateway.Cluster.{◌>>=◌, lift, call}
use ai_k8s_gateway.K8s.{
  clean_namespace, execute_action, load_config, guarded, dispatch, dispatch_deployments,
  require_param, wrap_api,
}
use ai_k8s_gateway.K8s.Surface.{Routed, execute_action-Routed}
use ai_k8s_gateway.Gateway.{
  Env, World, AgentActionRequest, ApproveRequest, agent_action, approve_action, list_pending,
  after_k8s,
}
use ai_k8s_gateway.Gateway.Safety.{Reaches, agent_action-calls}
use ai_k8s_gateway.Gateway.Auditing.{IsAudited, agent_action-IsAudited}
use ai_k8s_gateway.Gateway.Approving.{approver_of}
use ai_k8s_gateway.Gateway.Approvals.{RunsPending, approve_action-calls, approve_action_twice}
use ai_k8s_gateway.Gateway.Refusing.{IsRefused, endpoints-IsRefused}
use ai_k8s_gateway.Gateway.Lost.{approve_action_lost, outcome_of}
use ai_k8s_gateway.Examples.Setting.{env, start, claims, quiet_cluster}
use ai_k8s_gateway.Examples.Queues.{waiting, one_waiting, one_waiting-IsValid}

abbrev pub create_body : AgentActionRequest
create_body = record {
  action = "create";
  resource = "deployments";
  namespace = "demo";
  params = ("name", str "web") ∷ ("image", str "gcr.io/web:1") ∷ [];
}

abbrev waiting_world : World
waiting_world = record start { queue = one_waiting }

abbrev pub yes_body : ApproveRequest
yes_body = record { approved = true; reason = none }

agent_action-calls_example :
    Reaches env "token" create_body start (agent_action env "token" create_body start)
agent_action-calls_example = agent_action-calls env "token" create_body start

agent_action-IsAudited_example :
    IsAudited env "token" create_body start (agent_action env "token" create_body start)
agent_action-IsAudited_example = agent_action-IsAudited env "token" create_body start

execute_action-Routed_example :
    AtMostOne
      (Routed ascii create_body.params
        (normal ascii "create")
        (normal ascii "deployments")
        (clean_namespace ascii quiet_cluster "demo"))
      (execute_action ascii quiet_cluster "create" "deployments" "demo" create_body.params)
execute_action-Routed_example =
    execute_action-Routed ascii quiet_cluster "create" "deployments" "demo" create_body.params

approve_action-calls_example :
    RunsPending env "token" "a" yes_body waiting_world
      (approve_action env "token" "a" yes_body waiting_world).1.trace
approve_action-calls_example = approve_action-calls env "token" "a" yes_body waiting_world

accepted_now : approver_of env "token" "a" yes_body waiting_world ≡ ok (claims_dict claims)
unfolding verify_token
accepted_now = refl

approve_action_twice_example :
    let w = (approve_action env "token" "a" yes_body waiting_world).1 in
    (approve_action env "other" "a" yes_body w).1.trace ≡ w.trace
approve_action_twice_example =
    approve_action_twice env "token" "other" "a" yes_body yes_body waiting_world
      (claims_dict claims) one_waiting-IsValid accepted_now

-- A world in which a deletion waits; the API server cannot be reached.
abbrev pub deletion : PendingRequest
deletion = record (waiting "a") { action = "delete" }

abbrev pub deletion_world : World
deletion_world = record start { queue = (Approval.enqueue deletion Approval.init).1 }

pub deletion_waits : Approval.peek "a" deletion_world.queue ≡ some deletion
deletion_waits = peek-enqueue deletion "a" Approval.init

deletion_accepted : approver_of env "token" "a" yes_body deletion_world ≡ ok (claims_dict claims)
unfolding verify_token
deletion_accepted = refl

deletion_raises :
    after_k8s deletion.action deletion.resource deletion.namespace deletion.params
      (outcome_of env "a" yes_body deletion deletion_world).0
    ≡ raise connection_error
unfolding after_k8s execute_action load_config guarded dispatch dispatch_deployments require_param
    lift call ◌>>=◌ wrap_api contains lower strip clean_namespace get_or truthy
deletion_raises = refl

approve_action_lost_example :
    let o = approve_action env "token" "a" yes_body deletion_world in
    (o.0 ≡ raise connection_error)
    × (Approval.peek "a" o.1.queue ≡ none)
    × (o.1.audit ≡ deletion_world.audit)
    × (o.1.trace ≡ (outcome_of env "a" yes_body deletion deletion_world).1)
approve_action_lost_example =
    approve_action_lost env "token" "a" yes_body deletion_world (claims_dict claims) deletion
      connection_error (enqueue-IsValid deletion init-IsValid) deletion_accepted deletion_waits refl
      deletion_raises

-- A library that decodes no token.
abbrev locked_env : Env
locked_env = record env {
  jwt = record {
    encode = λ c secret algorithm. "token";
    decode = λ now token secret algorithms. raise jwt_error;
  };
}

locked : (now : ℕ) → verify_token locked_env.jwt locked_env.settings now "token" ≡ raise auth_error
unfolding verify_token
locked now = refl

endpoints-IsRefused_example :
    IsRefused auth_error waiting_world (agent_action locked_env "token" create_body waiting_world)
    × IsRefused auth_error waiting_world (list_pending locked_env "token" waiting_world)
    × IsRefused auth_error waiting_world
        (approve_action locked_env "token" "a" yes_body waiting_world)
endpoints-IsRefused_example =
    endpoints-IsRefused locked_env "token" auth_error locked waiting_world create_body "a" yes_body
