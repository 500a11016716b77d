-- ===== src/Examples/Decisions.antt =====
-- The policy and the sidecar at concrete requests.
use ai_k8s_gateway.Base.{
  String, ◌≡◌, refl, ◌≢◌, ◌↔◌, true, false, some, [], ◌∷◌, contains, inl, inr,
}
use ai_k8s_gateway.Base.Int.{pos}
use ai_k8s_gateway.Config.{defaults}
use ai_k8s_gateway.Errors.{ok}
use ai_k8s_gateway.Value.{Value, null, bool, str, int, Params, dict, get_or, is_true}
use ai_k8s_gateway.Text.{ascii, strip, lower, str_of}
use ai_k8s_gateway.Policy.{
  OpaInput, allow, deny_reasons, payload_violations, flag_violations, bad_image, is_trusted_image,
  bad_replicas, above_limit, is_text, write_actions, sensitive_resources, privileged_namespaces,
}
use ai_k8s_gateway.Policy.Laws.{allow-iff_no_reasons, IsKnownVerb}
use ai_k8s_gateway.Risk.{RiskScore, low, medium, high, action_weight, score}
use ai_k8s_gateway.Opa.{opa_input, body, read_reply}
use ai_k8s_gateway.Opa.Laws.{Allows, read_reply-Allows}
use ai_k8s_gateway.K8s.{clean_namespace}
use ai_k8s_gateway.Agreement.{allow-not_high, allow-padded, IsUnpadded, input_in}
use ai_k8s_gateway.Examples.Setting.{quiet_cluster}

abbrev create_params : Params
create_params = ("name", str "web") ∷ ("image", str "gcr.io/web:1") ∷ ("replicas", int (pos 3)) ∷ []

abbrev create_input : OpaInput
create_input = record {
  identity = str "agent-deploy";
  role = str "deployer";
  action = "create";
  resource = "deployments";
  namespace = "demo";
  risk_level = medium;
  params = create_params;
}

create_allowed : allow create_input ≡ true
unfolding allow contains is_text payload_violations flag_violations bad_image is_trusted_image
    bad_replicas above_limit
create_allowed = refl

create_known : IsKnownVerb "create"
unfolding contains
create_known = inr (inl refl)

allow-iff_no_reasons_example : (allow create_input ≡ true) ↔ (deny_reasons create_input ≡ [])
allow-iff_no_reasons_example = allow-iff_no_reasons create_input create_known

abbrev yes_reply : Value
yes_reply = dict (("result", dict (("allow", bool true) ∷ ("reason", str "fine") ∷ [])) ∷ [])

yes_read : read_reply ascii (body yes_reply) ≡ ok (true, "fine")
unfolding read_reply str_of
yes_read = refl

read_reply-Allows_example : Allows (body yes_reply)
read_reply-Allows_example = read_reply-Allows ascii (body yes_reply) "fine" yes_read

abbrev create_score : RiskScore
create_score = record { level = low; score = 1; reasons = action_weight "create" 1 ∷ [] }

upper_allowed :
    allow
      (opa_input ascii (str "a") (str "deployer") "Create" "deployments" "demo" low create_params)
    ≡ true
unfolding allow contains is_text payload_violations flag_violations bad_image is_trusted_image
    bad_replicas above_limit opa_input lower
upper_allowed = refl

demo_unpadded :
    IsUnpadded ascii defaults
      (str "a")
      (str "deployer")
      "Create"
      "deployments"
      "demo"
      low
      create_params
unfolding lower strip
demo_unpadded = (refl, refl)

no_host_path : is_true (get_or null "hostPath" create_params) ≡ false
unfolding get_or
no_host_path = refl

upper_scored :
    score ascii defaults "Create" "deployments" "demo" (some create_params) ≡ ok create_score
unfolding score
upper_scored = refl

allow-not_high_example : create_score.level ≢ high
allow-not_high_example =
    allow-not_high ascii defaults (str "a") (str "deployer") "Create" "deployments" "demo" low
      create_params create_score upper_allowed demo_unpadded no_host_path upper_scored

deployer_role : is_text "deployer" (str "deployer") ≡ true
unfolding is_text
deployer_role = refl

create_writes : contains write_actions (lower ascii "create") ≡ true
unfolding contains lower
create_writes = refl

deployments_harmless : contains sensitive_resources (lower ascii "deployments") ≡ false
unfolding contains lower
deployments_harmless = refl

system_clean :
    payload_violations (
      input_in ascii quiet_cluster
        (str "a")
        (str "deployer")
        "create"
        "deployments"
        low
        create_params
        "kube-system")
    ≡ []
unfolding opa_input lower contains payload_violations flag_violations bad_image is_trusted_image
    bad_replicas above_limit is_text
system_clean = refl

system_privileged : contains privileged_namespaces (lower ascii "kube-system") ≡ true
unfolding contains lower
system_privileged = refl

abbrev create_in : String → OpaInput
create_in n =
    input_in ascii quiet_cluster (str "a") (str "deployer") "create" "deployments" low create_params
      n

allow-padded_example :
    (allow (create_in "kube-system") ≡ false)
    × (allow (create_in " kube-system") ≡ true)
    × (clean_namespace ascii quiet_cluster " kube-system"
        ≡ clean_namespace ascii quiet_cluster "kube-system")
allow-padded_example =
    allow-padded ascii quiet_cluster (str "a") (str "deployer") "create" "deployments" low
      create_params "kube-system" deployer_role create_writes deployments_harmless system_clean
      system_privileged
