-- ===== src/Policy.antt =====
-- policies/agent_actions.rego: the shipped OPA policy, rule by rule. A rule whose body reads an
-- undefined path does not fire; sets are lists in the order of the rules.
pub mod Laws
use ai_k8s_gateway.Base.{
  ℕ, ◌*◌, ◌^◌, String, Bool, true, false, ◌&&◌, ◌||◌, not, Option, none, some, List, [], ◌∷◌, ◌++◌,
  ltb, if◌then◌else◌, ◌==◌, contains, lookup,
}
use ai_k8s_gateway.Base.Int.{ℤ, pos, ltb_ℤ}
use ai_k8s_gateway.Config.{defaults}
use ai_k8s_gateway.Risk.{RiskLevel, any_prefix}
use ai_k8s_gateway.Value.{
  Float, nan, infinite, finite, Value, null, bool, int, float, str, arr, obj, Params,
}

-- The document `input`.
pub record OpaInput : Type 0 where
  pub identity : Value
  pub role : Value
  pub action : String
  pub resource : String
  pub namespace : String
  pub risk_level : RiskLevel
  pub params : Params

abbrev pub read_only_actions : List String
read_only_actions = "get" ∷ "list" ∷ "watch" ∷ []

abbrev pub write_actions : List String
write_actions = "create" ∷ "update" ∷ "patch" ∷ "apply" ∷ []

abbrev pub delete_actions : List String
delete_actions = "delete" ∷ "replace" ∷ "exec" ∷ []

abbrev pub privileged_namespaces : List String
privileged_namespaces = "kube-system" ∷ "kube-public" ∷ "kube-node-lease" ∷ []

abbrev pub sensitive_resources : List String
sensitive_resources =
    "secret" ∷ "secrets" ∷ "role" ∷ "roles" ∷ "rolebinding" ∷ "rolebindings" ∷ "clusterrole"
    ∷ "clusterroles" ∷ "clusterrolebinding" ∷ "clusterrolebindings" ∷ "serviceaccount"
    ∷ "serviceaccounts" ∷ []

abbrev pub trusted_image_prefixes : List String
trusted_image_prefixes =
    "nginx:" ∷ "python:" ∷ "alpine:" ∷ "busybox:" ∷ "gcr.io/" ∷ "quay.io/" ∷ "registry.k8s.io/" ∷ []

abbrev pub max_replicas : ℕ
max_replicas = 10

pub data Violation : Type 0 where
  privileged host_network host_pid host_ipc : Violation
  untrusted_image replica_limit : Value → Violation

pub data DenyReason : Type 0 where
  delete_forbidden namespace_forbidden readonly_forbidden resource_forbidden : String → DenyReason
  unknown_role : Value → DenyReason
  payload : Violation → DenyReason

-- `v == "text"`
unfoldable pub is_text : String → Value → Bool
is_text t (str s) = s == t
is_text t _ = false

-- `input.params.key == true`
abbrev pub set_true : Option Value → Bool
set_true (some (bool b)) = b
set_true _ = false

-- `_is_trusted_image(image)`: `startswith` of anything but a text is undefined.
unfoldable pub is_trusted_image : Value → Bool
unfolding any_prefix
is_trusted_image (str s) = any_prefix trusted_image_prefixes s
is_trusted_image _ = false

-- The fifth rule of `payload_violations`.
unfoldable pub bad_image : Option Value → List Violation
bad_image none = []
bad_image (some null) = []
bad_image (some v) = if is_text "" v || is_trusted_image v then [] else untrusted_image v ∷ []

-- `v > max_replicas`. Rego orders null and booleans below the numbers, and all else above them.
unfoldable pub above_limit : Value → Bool
above_limit null = false
above_limit (bool _) = false
above_limit (int n) = ltb_ℤ (pos max_replicas) n
above_limit (float nan) = false
above_limit (float (infinite negative)) = not negative
above_limit (float (finite negative n k)) = not negative && ltb (max_replicas * 2 ^ k) n
above_limit (str _) = true
above_limit (arr _) = true
above_limit (obj _) = true

unfoldable pub bad_replicas : Option Value → List Violation
bad_replicas none = []
bad_replicas (some v) = if above_limit v then replica_limit v ∷ [] else []

abbrev pub when : {A : Type 0} → Bool → A → List A
when true a = a ∷ []
when false a = []

unfoldable pub flag_violations : Params → List Violation
unfolding lookup
flag_violations params =
    when (set_true (lookup "privileged" params)) privileged
    ++ (when (set_true (lookup "hostNetwork" params)) host_network
        ++ (when (set_true (lookup "hostPID" params)) host_pid
            ++ when (set_true (lookup "hostIPC" params)) host_ipc))

unfoldable pub payload_violations : OpaInput → List Violation
payload_violations input =
    if contains write_actions input.action
    then flag_violations input.params
      ++ (bad_image (lookup "image" input.params) ++ bad_replicas (lookup "replicas" input.params))
    else []

abbrev pub is_empty {ℓ} : {A : Type ℓ} → List A → Bool
is_empty [] = true
is_empty (_ ∷ _) = false

-- Rules A, B and C.
unfoldable pub allow : OpaInput → Bool
allow input =
    (is_text "readonly" input.role && contains read_only_actions input.action)
    || (is_text "deployer" input.role && contains read_only_actions input.action)
    || (is_text "deployer" input.role
        && contains write_actions input.action
        && not (contains privileged_namespaces input.namespace)
        && not (contains sensitive_resources input.resource)
        && is_empty (payload_violations input))

abbrev pub as_reasons : List Violation → List DenyReason
as_reasons [] = []
as_reasons (v ∷ vs) = payload v ∷ as_reasons vs

unfoldable pub deny_reasons : OpaInput → List DenyReason
deny_reasons input =
    when (contains delete_actions input.action) (delete_forbidden input.action)
    ++ (when (contains privileged_namespaces input.namespace && contains write_actions input.action)
          (namespace_forbidden input.namespace)
        ++ (when (is_text "readonly" input.role && not (contains read_only_actions input.action))
              (readonly_forbidden input.action)
            ++ (when
                  (is_text "deployer" input.role
                    && contains write_actions input.action
                    && contains sensitive_resources input.resource)
                  (resource_forbidden input.resource)
                ++ (when (not (is_text "readonly" input.role || is_text "deployer" input.role))
                      (unknown_role input.role)
                    ++ as_reasons (payload_violations input)))))

-- `reason`: the sentence for an allowed request, the denials, or the default.
pub data PolicyReason : Type 0 where
  allowed default_deny : PolicyReason
  denied : List DenyReason → PolicyReason

unfoldable pub reason : OpaInput → PolicyReason
reason input =
    if allow input
    then allowed
    else if is_empty (deny_reasons input)
    then default_deny
    else denied (deny_reasons input)
