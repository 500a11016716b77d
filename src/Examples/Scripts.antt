-- ===== src/Examples/Scripts.antt =====
-- The script at the end of ai_agent_client.py against the service, at a concrete gateway.
use ai_k8s_gateway.Base.{◌≡◌, refl, true, false, some, none, [], ◌∷◌, length, lookup, contains}
use ai_k8s_gateway.Value.{get_or}
use ai_k8s_gateway.Text.{lower, strip, int_of}
use ai_k8s_gateway.Auth.{verify_token, claims_dict}
use ai_k8s_gateway.Opa.{get_field, opa_input, query_opa, policy_sidecar}
use ai_k8s_gateway.Cluster.{◌>>=◌ as ◌>>=ᵏ◌, lift, call}
use ai_k8s_gateway.K8s.{
  build_deployment, accepted, clean_namespace, execute_action, load_config, guarded, dispatch,
  dispatch_deployments, dispatch_pods, dispatch_names, wrap_api,
}
use ai_k8s_gateway.Risk.{score, any_prefix}
use ai_k8s_gateway.Policy.{
  allow, is_text, payload_violations, flag_violations, bad_image, is_trusted_image, above_limit,
  bad_replicas,
}
use ai_k8s_gateway.Gateway
use ai_k8s_gateway.Gateway.{
  agent_action, authenticate, assess, opa_decision, settle, execute_now, execute_k8s, after_k8s,
  deny,
}
use ai_k8s_gateway.Client.{
  create_params, GatewayClient, action, list_namespaces, list_pods, create_deployment, exchange,
  retried, ◌>>=◌ as ◌>>=ᶜ◌, finish, handle_response, denied_of,
}
use ai_k8s_gateway.Client.Tools.{
  attempt_untrusted, script, token_missing, exited, make_langchain_tools, list_first,
  create_trusted, attempt_privileged,
}
use ai_k8s_gateway.Service.{network, replay, request_of, serve, handle}
use ai_k8s_gateway.Service.Blocks.{IsReady}
use ai_k8s_gateway.Service.Script.{
  untrusted_body, privileged_body, IsFended, attempt_untrusted-IsFended,
}
use ai_k8s_gateway.Examples.Setting.{start, claims}
use ai_k8s_gateway.Examples.Services.{framework, framework-IsLawful, still_env}

abbrev client : GatewayClient
client = record { network = network framework still_env "token" start; retry_on_503 = true }

untrusted-IsReady :
    IsReady framework still_env
      (λ r. "reason")
      "token"
      start
      (claims_dict claims)
      (untrusted_body still_env)
      []
unfolding replay execute_action load_config guarded dispatch dispatch_deployments lift call ◌>>=ᵏ◌
    wrap_api contains lower strip clean_namespace build_deployment int_of get_or accepted
    create_params verify_token get_field lookup
untrusted-IsReady = record {
  routed = refl;
  plain = record { decoded = λ e h. cc; ran = λ e h. cc };
  authentic = refl;
}

privileged-IsReady :
    IsReady framework still_env
      (λ r. "reason")
      "token"
      start
      (claims_dict claims)
      privileged_body
      (request_of (untrusted_body still_env) ∷ [])
unfolding replay execute_action load_config guarded dispatch dispatch_deployments lift call ◌>>=ᵏ◌
    wrap_api contains lower strip clean_namespace build_deployment int_of get_or accepted
    create_params verify_token get_field lookup
privileged-IsReady = record {
  routed = refl;
  plain = record { decoded = λ e h. cc; ran = λ e h. cc };
  authentic = refl;
}

attempt_untrusted-IsFended_example :
    IsFended framework still_env
      (λ r. "reason")
      "token"
      start
      (claims_dict claims)
      []
      (attempt_untrusted client [])
attempt_untrusted-IsFended_example =
    attempt_untrusted-IsFended framework still_env (λ r. "reason") [] "token" client start
      framework-IsLawful refl (λ tick url input. refl) (claims_dict claims) [] untrusted-IsReady
      privileged-IsReady

script_without_token :
    script "http://localhost:8000" none (λ t. client)
    ≡ record { sent = []; printed = token_missing ∷ []; ended = exited 1 }
unfolding script
script_without_token = refl

-- The whole run at this gateway ends well, with two calls of the cluster for the listings and one for the
-- creation.
script-run :
    let run = script "http://localhost:8000" (some "token") (λ t. client) in
    (run.ended ≡ exited 0) × (length (replay framework still_env "token" run.sent start).trace ≡ 3)
unfolding script list_first create_trusted attempt_untrusted attempt_privileged action
    list_namespaces list_pods create_deployment exchange retried ◌>>=ᶜ◌ finish handle_response
    denied_of replay serve handle agent_action execute_action load_config guarded dispatch
    dispatch_pods dispatch_deployments dispatch_names lift call ◌>>=ᵏ◌ wrap_api contains lower strip
    clean_namespace build_deployment int_of get_or accepted create_params verify_token get_field
    lookup is_trusted_image any_prefix score allow is_text opa_input payload_violations
    flag_violations bad_image bad_replicas ai_k8s_gateway.Gateway.◌>>=◌
    ai_k8s_gateway.Gateway.sample authenticate ai_k8s_gateway.Gateway.lift assess opa_decision
    query_opa policy_sidecar settle execute_now execute_k8s after_k8s ai_k8s_gateway.Gateway.log
    above_limit deny
script-run = (refl, refl)

tools_missing : make_langchain_tools false ≡ none
unfolding make_langchain_tools
tools_missing = refl
