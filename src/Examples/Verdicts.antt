-- ===== src/Examples/Verdicts.antt =====
-- An operator's verdicts through the client, at a concrete gateway.
use ai_k8s_gateway.Base.{
  ◌≡◌, refl, Bool, true, false, some, [], if◌then◌else◌, ◌==◌, lookup, contains,
}
use ai_k8s_gateway.Errors.{Result, ok}
use ai_k8s_gateway.Value.{Value, null, bool, get_or, truthy}
use ai_k8s_gateway.Text.{lower, strip, str_of}
use ai_k8s_gateway.Auth.{verify_token, claims_dict}
use ai_k8s_gateway.Opa.{get_field}
use ai_k8s_gateway.Cluster.{◌>>=◌ as ◌>>=ᵏ◌, lift, call}
use ai_k8s_gateway.K8s.{
  clean_namespace, execute_action, load_config, guarded, dispatch, dispatch_deployments,
  require_param, wrap_api,
}
use ai_k8s_gateway.Gateway.{ApproveRequest, after_k8s}
use ai_k8s_gateway.Gateway.Approving.{approver_of, taken}
use ai_k8s_gateway.Gateway.Lost.{outcome_of}
use ai_k8s_gateway.Approval
use ai_k8s_gateway.Client.{get, post, GatewayClient, verdict, approve, reject}
use ai_k8s_gateway.Service.{approving, Framework, IsLawful, network, replay}
use ai_k8s_gateway.Service.Approvals.{
  verdict_body, IsGranted, IsDiscarded, approve-IsGranted, reject-IsDiscarded,
}
use ai_k8s_gateway.Examples.Setting.{claims}
use ai_k8s_gateway.Examples.Requests.{deletion, deletion_world, deletion_waits}
use ai_k8s_gateway.Examples.Processes.{obliging_env, deletion_result}
use ai_k8s_gateway.Examples.Services.{framework, text_of}

abbrev is_granted : Result Value → Bool
is_granted (ok (bool b)) = b
is_granted _ = false

abbrev verdict_of : Value → ApproveRequest
verdict_of json = record {
  approved = is_granted (get_field null "approved" json);
  reason = some (text_of (get_field null "reason" json));
}

-- One waiting id is known to its router.
abbrev desk : Framework
desk = record framework {
  route = λ r. elim r [
    | get path ↦ framework.route (get path)
    | post path json ↦
        if path == "/approve/a"
        then some (approving "a" (verdict_of json))
        else framework.route (post path json)
  ];
}

desk-IsLawful : IsLawful desk
desk-IsLawful = record {
  answered_status = λ v. refl;
  answered_json = λ v. refl;
  raised_status = λ e. refl;
  raised_json = λ status detail. refl;
}

abbrev operator : GatewayClient
operator = record {
  network = network desk obliging_env "token" deletion_world;
  retry_on_503 = true;
}

routed :
    (b : Bool)
    → desk.route (verdict operator b "a" "fine") ≡ some (approving "a" (verdict_body b "fine"))
unfolding get_field get_or lookup
routed b = refl

accepted_by :
    (b : Bool)
    → approver_of obliging_env "token" "a"
        (verdict_body b "fine")
        (replay desk obliging_env "token" [] deletion_world)
      ≡ ok (claims_dict claims)
unfolding verify_token replay
accepted_by b = refl

waits : Approval.peek "a" (replay desk obliging_env "token" [] deletion_world).queue ≡ some deletion
unfolding replay
waits = deletion_waits

runs :
    after_k8s deletion.action deletion.resource deletion.namespace deletion.params
      (outcome_of obliging_env "a"
        (verdict_body true "fine")
        deletion
        (taken "a" (replay desk obliging_env "token" [] deletion_world))).0
    ≡ ok deletion_result
unfolding after_k8s execute_action load_config guarded dispatch dispatch_deployments require_param
    lift call ◌>>=ᵏ◌ wrap_api contains lower strip clean_namespace get_or truthy replay str_of
runs = refl

approve-IsGranted_example :
    IsGranted desk obliging_env "token" deletion_world "a"
      (verdict_body true "fine")
      deletion
      deletion_result
      (verdict operator true "a" "fine")
      []
      (approve operator "a" "fine" [])
approve-IsGranted_example =
    approve-IsGranted desk obliging_env "token" operator deletion_world desk-IsLawful refl "a"
      "fine" [] (claims_dict claims) deletion deletion_result (routed true) (accepted_by true) waits
      runs

reject-IsDiscarded_example :
    IsDiscarded desk obliging_env "token" deletion_world "a"
      (verdict operator false "a" "fine")
      []
      (reject operator "a" "fine" [])
reject-IsDiscarded_example =
    reject-IsDiscarded desk obliging_env "token" operator deletion_world desk-IsLawful refl "a"
      "fine" [] (claims_dict claims) deletion (routed false) (accepted_by false) waits
