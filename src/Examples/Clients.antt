-- ===== src/Examples/Clients.antt =====
-- The client at concrete responses.
use ai_k8s_gateway.Base.{◌≡◌, refl, true, false, none, some, [], ◌∷◌, lookup}
use ai_k8s_gateway.Base.Int.{pos, negsuc}
use ai_k8s_gateway.Errors.{ok}
use ai_k8s_gateway.Value.{Value, null, str, int, Params, dict, get_or}
use ai_k8s_gateway.Text.{ascii, int_of}
use ai_k8s_gateway.Audit
use ai_k8s_gateway.Risk.{high, level_text}
use ai_k8s_gateway.Cluster.{DeploymentBody, ◌>>=◌, lift}
use ai_k8s_gateway.K8s.{build_deployment, deployment_of, accepted}
use ai_k8s_gateway.Gateway.{
  Assessment, AgentActionResponse, settle, response_of, deny, enqueue_high, sample, enqueue, log,
}
use ai_k8s_gateway.Gateway as Gateway
use ai_k8s_gateway.Client.{
  denied_error, returned, raised, Response, handle_response, GatewayClient, action, create_params,
  patch_params,
}
use ai_k8s_gateway.Client.Laws.{Sent, action-Sent}
use ai_k8s_gateway.Client.Seen.{
  Delivers, sent_body, sent_detail, settle-denied_error, settle-returned, IsQueuedOrRun,
}
use ai_k8s_gateway.Client.Payloads.{
  IsRequested, create_params-IsRequested, IsPatched, patch_params-IsPatched,
}
use ai_k8s_gateway.Examples.Setting.{env, start, quiet_cluster}
use ai_k8s_gateway.Examples.Requests.{create_body}

abbrev fine : Response
fine = record { status_code = 200; json = ok (str "fine") }

-- A gateway that is busy at first.
abbrev busy_client : GatewayClient
busy_client = record {
  retry_on_503 = true;
  network = λ sent request. elim sent [
    | [] ↦ some (record { status_code = 503; json = ok null })
    | _ ∷ _ ↦ some fine
  ];
}

action-Sent_example :
    Sent busy_client "list" "pods" "demo" none []
      (action busy_client "list" "pods" "demo" none []).1
action-Sent_example = action-Sent busy_client "list" "pods" "demo" none []

abbrev refused : Assessment
refused = record {
  request_id = "id";
  identity = str "agent-deploy";
  role = str "deployer";
  request = create_body;
  risk = record { level = high; score = 4; reasons = [] };
  allowed = false;
  opa_reason = "no";
}

abbrev encode : AgentActionResponse → Value
encode r = dict (("request_id", str r.request_id) ∷ ("risk_score", int (pos r.risk_score)) ∷ [])

abbrev refused_response : Response
refused_response = record {
  status_code = 403;
  json = ok (
      dict (
        (
          "detail",
          dict (
              ("request_id", str "id")
              ∷ ("decision", str "deny")
              ∷ ("reason", str "no")
              ∷ ("risk_level", str "high")
              ∷ []),
        )
        ∷ []));
}

refused_delivered : Delivers encode (settle env refused start).0 refused_response
unfolding settle deny Gateway.◌>>=◌ Gateway.lift log level_text
refused_delivered = sent_detail 403 _ refused_response refl refl

settle-denied_error_example :
    handle_response refused_response
    ≡ raised (denied_error (str "no") (str (level_text high)) (int (negsuc 0)))
settle-denied_error_example =
    settle-denied_error encode env refused start refused_response refl refused_delivered

abbrev risky : Assessment
risky = record refused { allowed = true }

abbrev risky_answer : AgentActionResponse
risky_answer =
    response_of env risky Audit.pending_approval
      "Action is high-risk and has been queued for human approval. Use GET /pending to view it and POST /approve/id to resolve."
      none

abbrev risky_response : Response
risky_response = record { status_code = 200; json = ok (encode risky_answer) }

risky_answered : (settle env risky start).0 ≡ ok risky_answer
unfolding settle enqueue_high enqueue sample Gateway.◌>>=◌ Gateway.lift log
risky_answered = refl

risky_delivered : Delivers encode (settle env risky start).0 risky_response
risky_delivered = rw risky_answered (sent_body risky_answer risky_response refl refl)

settle-returned_example :
    (handle_response risky_response ≡ returned (encode risky_answer))
    × IsQueuedOrRun encode env risky start risky_response risky_answer (settle env risky start).1
settle-returned_example =
    settle-returned encode env risky start risky_response risky_answer risky_answered
      risky_delivered

abbrev create_payload : Params
create_payload = create_params "web" "gcr.io/web:1" (pos 3) (pos 80) "50m" "200m" "64Mi" "128Mi"

abbrev create_manifest : DeploymentBody
create_manifest = deployment_of create_payload (pos 3) (pos 80)

created : (build_deployment ascii quiet_cluster create_payload []).0 ≡ ok create_manifest
unfolding build_deployment create_params accepted get_or int_of ◌>>=◌ lift lookup
created = refl

create_params-IsRequested_example :
    IsRequested "web" "gcr.io/web:1" (pos 3) (pos 80) "50m" "200m" "64Mi" "128Mi" create_manifest
create_params-IsRequested_example =
    create_params-IsRequested ascii quiet_cluster [] "web" "gcr.io/web:1" (pos 3) (pos 80) "50m"
      "200m" "64Mi" "128Mi" create_manifest created

abbrev scale_manifest : DeploymentBody
scale_manifest = deployment_of (patch_params "web" none (some (pos 5))) (pos 5) (pos 80)

scaled :
    (build_deployment ascii quiet_cluster (patch_params "web" none (some (pos 5))) []).0
    ≡ ok scale_manifest
unfolding build_deployment patch_params accepted get_or int_of ◌>>=◌ lift lookup
scaled = refl

patch_params-IsPatched_example : IsPatched "web" none (some (pos 5)) scale_manifest
patch_params-IsPatched_example =
    patch_params-IsPatched ascii quiet_cluster [] "web" none (some (pos 5)) scale_manifest scaled
