-- ===== src/Risk.antt =====
-- app/risk/scorer.py: the rule-based risk score of an action.
pub mod Balance
pub mod Bands
pub mod Payload
pub mod Clean
use Prim.Native.String.{◌++◌ as ◌<>◌}
use ai_k8s_gateway.Base.{
  map, ℕ, ◌+◌, String, Bool, true, false, ◌&&◌, ◌||◌, not, Option, none, some, List, [], ◌∷◌, ◌++◌,
  leb, if◌then◌else◌, ◌==◌, starts_with, contains, lookup,
}
use ai_k8s_gateway.Base.Int.{ℤ, pos, ltb_ℤ}
use ai_k8s_gateway.Config.{Settings}
use ai_k8s_gateway.Errors.{Exception, value_error, type_error, Result, ok, raise, ◌>>=◌}
use ai_k8s_gateway.Value.{Value, null, int, str, arr, items, Params, get_or, is_true}
use ai_k8s_gateway.Text.{Python, strip, lower, normal, str_of, int_of}

abbrev pub action_weights : List (String × ℕ)
action_weights =
    ("get", 0)
    ∷ ("list", 0)
    ∷ ("watch", 0)
    ∷ ("create", 1)
    ∷ ("update", 1)
    ∷ ("patch", 1)
    ∷ ("apply", 1)
    ∷ ("delete", 2)
    ∷ ("replace", 2)
    ∷ ("exec", 2)
    ∷ []

abbrev pub high_risk_namespaces : List String
high_risk_namespaces = "kube-system" ∷ "kube-public" ∷ "kube-node-lease" ∷ []

abbrev pub sensitive_resources : List String
sensitive_resources =
    "secret" ∷ "secrets" ∷ "role" ∷ "roles" ∷ "rolebinding" ∷ "rolebindings" ∷ "clusterrole"
    ∷ "clusterroles" ∷ "clusterrolebinding" ∷ "clusterrolebindings" ∷ "serviceaccount"
    ∷ "serviceaccounts" ∷ []

abbrev pub privileged_fields : List (String × ℕ)
privileged_fields =
    ("privileged", 3) ∷ ("hostNetwork", 2) ∷ ("hostPID", 2) ∷ ("hostIPC", 2) ∷ ("hostPath", 2) ∷ []

abbrev pub write_verbs : List String
write_verbs = "create" ∷ "update" ∷ "patch" ∷ "apply" ∷ "replace" ∷ []

-- The texts "low", "medium" and "high".
pub data RiskLevel : Type 0 where
  low medium high : RiskLevel

-- An entry of `reasons`: one constructor for each f-string, with the values that it shows.
pub data Reason : Type 0 where
  action_weight : (action : String) (points : ℕ) → Reason
  system_namespace : (namespace : String) → Reason
  sensitive_resource : (resource : String) → Reason
  host_access : (name : String) (points : ℕ) → Reason
  untrusted_image : (image : String) → Reason
  replica_excess : (replicas threshold : ℤ) → Reason

unfoldable pub level_text : RiskLevel → String
level_text low = "low"
level_text medium = "medium"
level_text high = "high"

pub record RiskScore : Type 0 where
  pub level : RiskLevel
  pub score : ℕ
  pub reasons : List Reason

-- The `reasons` list and the bucket that `_score_params` mutates.
pub record Tally : Type 0 where
  pub value : ℕ
  pub reasons : List Reason

-- `if test:` with the two statements under it, which add the points and append the reason.
pub charge_if : Bool → ℕ → Reason → Tally → Tally
charge_if true points reason t = record {
  value = t.value + points;
  reasons = t.reasons ++ reason ∷ [];
}
charge_if false points reason t = t

-- `ACTION_WEIGHTS.get(action, 1)`
unfoldable pub action_points : String → ℕ
unfolding lookup
action_points action = elim (lookup action action_weights) [ none ↦ 1 | some points ↦ points ]

unfoldable pub level_of : ℕ → RiskLevel
level_of total = if leb total 1 then low else if leb total 3 then medium else high

unfoldable pub any_prefix : List String → String → Bool
any_prefix [] image = false
any_prefix (prefix ∷ prefixes) image = starts_with image prefix || any_prefix prefixes image

-- `Classify`, and the value returned: the target's points and the bucket's, with all reasons.
pub classify : Tally → Tally → RiskScore
unfolding level_of
classify target payload =
    let total = target.value + payload.value in
    record { level = level_of total; score = total; reasons = payload.reasons }

-- The handler of `int(params.get("replicas", 1))`.
pub replicas_or_one : Result ℤ → Result ℤ
replicas_or_one (raise value_error) = ok (pos 1)
replicas_or_one (raise type_error) = ok (pos 1)
replicas_or_one r = r

module _ (py : Python) (settings : Settings) where
  unfoldable pub is_trusted_image : String → Bool
  unfolding any_prefix
  is_trusted_image image = any_prefix settings.trusted_image_prefixes image

  -- The loop over PRIVILEGED_FIELDS.
  pub score_fields : Params → List (String × ℕ) → Tally → Tally
  score_fields params [] t = t
  score_fields params ((name, points) ∷ rest) t =
      score_fields params rest
        (charge_if (is_true (get_or null name params)) points (host_access name points) t)

  pub score_image : Params → Tally → Tally
  unfolding is_trusted_image strip str_of
  score_image params t =
      let image = strip (str_of py (get_or (str "") "image" params)) in
      charge_if (not (image == "") && not (is_trusted_image image)) 1 (untrusted_image image) t

  pub replica_count : Params → Result ℤ
  unfolding replicas_or_one int_of
  replica_count params = replicas_or_one (int_of py (get_or (int (pos 1)) "replicas" params))

  pub charge_replicas : Tally → ℤ → Tally
  charge_replicas t replicas =
      let threshold = settings.max_replicas_threshold in
      charge_if (ltb_ℤ threshold replicas) 1 (replica_excess replicas threshold) t

  pub score_replicas : Params → Tally → Result Tally
  unfolding replica_count charge_replicas
  score_replicas params t = do replicas ← replica_count params; ok (charge_replicas t replicas)

  unfoldable pub score_params : Params → Tally → Result Tally
  unfolding score_fields score_image score_replicas charge_if get_or
  score_params params t =
      score_replicas params (score_image params (score_fields params privileged_fields t))

  -- `if params and action_lower in WRITE_VERBS`
  pub score_payload : String → Option Params → List Reason → Result Tally
  unfolding score_params contains
  score_payload action (some (p ∷ ps)) reasons =
      if contains write_verbs action
      then score_params (p ∷ ps) (record { value = 0; reasons = reasons })
      else ok (record { value = 0; reasons = reasons })
  score_payload action _ reasons = ok (record { value = 0; reasons = reasons })

  -- The first three dimensions: verb, namespace and resource.
  pub score_target : (action resource namespace : String) → Tally
  unfolding action_points contains
  score_target action resource namespace =
      let points = action_points action in
      let t : Tally = record { value = points; reasons = action_weight action points ∷ [] } in
      let t' : Tally =
        charge_if (contains high_risk_namespaces namespace) 2 (system_namespace namespace) t in
      charge_if (contains sensitive_resources resource) 1 (sensitive_resource resource) t'

  unfoldable pub score : (action resource namespace : String) → Option Params → Result RiskScore
  unfolding score_target score_payload classify charge_if lower
  score action resource namespace params =
      let target = score_target (normal py action) (normal py resource) (normal py namespace) in
      do
        payload ← score_payload (normal py action) params target.reasons
        ok (classify target payload)

module _ (py : Python) (settings : Settings) where
  abbrev show_ℤ : ℤ → String
  show_ℤ n = str_of py (int n)

  -- The f-strings.
  unfoldable pub reason_text : Reason → String
  reason_text (action_weight action points) =
      "action '" <> action <> "' -> +" <> show_ℤ (pos points)
  reason_text (system_namespace namespace) =
      "namespace '" <> namespace <> "' is a privileged system namespace -> +2"
  reason_text (sensitive_resource resource) =
      "resource '" <> resource <> "' stores credentials or RBAC grants -> +1"
  reason_text (host_access name points) =
      "params." <> name <> "=true grants host-level access -> +" <> show_ℤ (pos points)
  reason_text (untrusted_image image) =
      "image '"
      <> image
      <> "' is not from a trusted registry (trusted prefixes: "
      <> py.show (arr (items (map str settings.trusted_image_prefixes)))
      <> ") -> +1"
  reason_text (replica_excess replicas threshold) =
      "replicas="
      <> show_ℤ replicas
      <> " exceeds gateway threshold of "
      <> show_ℤ threshold
      <> " -> +1"
