-- ===== src/Agreement.antt =====
-- Where the shipped policy (policies/agent_actions.rego), fed by `_query_opa` of app/main.py, the
-- scorer (app/risk/scorer.py) and the Kubernetes client (app/k8s/client.py) read the same request.
use Prim.Native.Char.{char}
use text.Mathlib.TextLemmas.{cons-append, nil-append}
use ai_k8s_gateway.Base.{
  ◌≤◌, String, ◌≡◌, refl, ◌≢◌, inl, inr, true, false, some, [], arith, Option-cases, ap, ◌∙◌,
  contains, contains-All, lookup, ◌==◌, if◌then◌else◌,
}
use ai_k8s_gateway.Config.{Settings}
use ai_k8s_gateway.Errors.{ok}
use ai_k8s_gateway.Value.{Value, null, bool, Params, get_or, get_or-some, get_or-none, is_true}
use ai_k8s_gateway.Text.{Python, strip, lower, normal}
use ai_k8s_gateway.Policy.{OpaInput, set_true, is_text, flag_violations, payload_violations, allow}
use ai_k8s_gateway.Policy
use ai_k8s_gateway.Policy.Laws.{
  IsPermitted, reads, writes, allow-IsPermitted, IsPermitted-allow, write_actions-disjoint,
}
use ai_k8s_gateway.Risk.{RiskLevel, high, RiskScore, action_points, write_verbs, score}
use ai_k8s_gateway.Risk.Bands.{score-IsBanded}
use ai_k8s_gateway.Risk.Clean.{IsHostFree, score-clean, score-read}
use ai_k8s_gateway.Opa.{opa_input}
use ai_k8s_gateway.Cluster.{Cluster}
use ai_k8s_gateway.K8s.{clean_namespace}

-- The two tests of a flag read it alike.
flag_read :
    (key : String) (params : Params)
    → is_true (get_or null key params) ≡ set_true (lookup key params)
flag_read key params = elim (Option-cases (lookup key params)) [
  | inl absent ↦ rw (absent, get_or-none null null key params absent) refl
  | inr (bool b, found) ↦ rw (found, get_or-some null (bool b) key params found) refl
  | inr (v, found) ↦ rw (found, get_or-some null v key params found) refl
]

-- What the policy allows of the verb: a read, or a write without a violation.
read_weightless :
    (a : String)
    → contains Policy.read_only_actions a ≡ true
    → (action_points a ≡ 0) × (contains write_verbs a ≡ false) × (strip a ≡ a)
unfolding action_points contains strip
read_weightless a h =
    contains-All (λ a. (action_points a ≡ 0) × (contains write_verbs a ≡ false) × (strip a ≡ a))
      Policy.read_only_actions a
      ((refl, refl, refl), ((refl, refl, refl), ((refl, refl, refl), tt))) h

write_weight :
    (a : String) → contains Policy.write_actions a ≡ true → (action_points a ≡ 1) × (strip a ≡ a)
unfolding action_points contains strip
write_weight a h =
    contains-All (λ a. (action_points a ≡ 1) × (strip a ≡ a)) Policy.write_actions a
      ((refl, refl), ((refl, refl), ((refl, refl), ((refl, refl), tt)))) h

clean_flags :
    (params : Params)
    → flag_violations params ≡ []
    → is_true (get_or null "hostPath" params) ≡ false
    → IsHostFree params
unfolding flag_violations
clean_flags params clean path = record {
  privileged = rw (flag_read "privileged" params) (ground arith);
  host_network = rw (flag_read "hostNetwork" params) (ground arith);
  host_pid = rw (flag_read "hostPID" params) (ground arith);
  host_ipc = rw (flag_read "hostIPC" params) (ground arith);
  host_path = path;
}

clean_payload :
    (i : OpaInput)
    → contains Policy.write_actions i.action ≡ true
    → payload_violations i ≡ []
    → flag_violations i.params ≡ []
unfolding payload_violations
clean_payload i verb clean = ground arith

module _ (py : Python) (settings : Settings) (identity role : Value)
    (action resource namespace : String) (level : RiskLevel) (params : Params) where
  abbrev input : OpaInput
  input = opa_input py identity role action resource namespace level params

  -- The policy's reading of the resource and of the namespace, which only lowers the case, is the
  -- scorer's, which strips them too.
  abbrev pub IsUnpadded : Type 0
  IsUnpadded = (normal py resource ≡ lower py resource) × (normal py namespace ≡ lower py namespace)

  read_score :
      (rs : RiskScore)
      → contains Policy.read_only_actions (lower py action) ≡ true
      → score py settings action resource namespace (some params) ≡ ok rs
      → rs.score ≤ 3
  read_score rs verb e =
      let (weight, no_write, same) = read_weightless (lower py action) verb in
      omega (
        arith,
        score-read py settings action resource namespace params rs (rw same no_write) e,
        ap action_points same ∙ weight,
      )

  write_score :
      (rs : RiskScore)
      → IsPermitted input
      → IsUnpadded
      → is_true (get_or null "hostPath" params) ≡ false
      → score py settings action resource namespace (some params) ≡ ok rs
      → rs.score ≤ 3
  unfolding opa_input
  write_score rs (reads _ verb) plain path e = read_score rs verb e
  write_score rs (writes role verb free harmless clean) (same_resource, same_namespace) path e =
      let (weight, same) = write_weight (lower py action) verb in
      let host_free = clean_flags params (clean_payload input verb clean) path in
      omega (
        arith,
        score-clean py settings action resource namespace params rs (rw same_namespace free)
            (rw same_resource harmless) host_free e,
        ap action_points same ∙ weight,
      )

  -- If the shipped policy allows what the gateway asks it about a request, the request's
  -- resource and namespace have no surrounding white space, its payload does not set hostPath
  -- to true, and a score is returned for it, then its level is not high.
  pub allow-not_high :
      (rs : RiskScore)
      → allow input ≡ true
      → IsUnpadded
      → is_true (get_or null "hostPath" params) ≡ false
      → score py settings action resource namespace (some params) ≡ ok rs
      → rs.level ≢ high
  allow-not_high rs permitted plain path e at_high =
      let (_, banded) = score-IsBanded py settings action resource namespace (some params) rs e in
      let low_enough = write_score rs (allow-IsPermitted input permitted) plain path e in
      omega (arith, banded.at_high.0 at_high)

-- A space and the text.
abbrev pub padded : String → String
padded n = String.◌∷◌ (char 32 tt) n

privileged_padded :
    (n : String)
    → contains Policy.privileged_namespaces n ≡ true
    → contains Policy.privileged_namespaces (padded n) ≡ false
unfolding contains
privileged_padded n h =
    contains-All (λ n. contains Policy.privileged_namespaces (padded n) ≡ false)
      Policy.privileged_namespaces n (refl, (refl, (refl, tt))) h

strip-padded : (n : String) → strip (padded n) ≡ strip n
unfolding strip
strip-padded n = refl

lower-padded : (py : Python) (n : String) → lower py (padded n) ≡ padded (lower py n)
unfolding lower
lower-padded py n =
    cons-append (char 32 tt) "" (lower py n)
    ∙ ap (λ t. String.◌∷◌ (char 32 tt) t) (nil-append (lower py n))

module _ (py : Python) (cluster : Cluster) (identity role : Value) (action resource : String)
    (level : RiskLevel) (params : Params) where
  abbrev pub input_in : (namespace : String) → OpaInput
  input_in namespace = opa_input py identity role action resource namespace level params

  -- For a deployer's write on a resource that is not sensitive, with a payload without
  -- violations and a namespace that is privileged when lower-cased: the policy denies the
  -- request, but allows the same request with a space in front of the namespace, and the
  -- Kubernetes client uses the same namespace for both.
  pub allow-padded :
      (namespace : String)
      → is_text "deployer" role ≡ true
      → contains Policy.write_actions (lower py action) ≡ true
      → contains Policy.sensitive_resources (lower py resource) ≡ false
      → payload_violations (input_in namespace) ≡ []
      → contains Policy.privileged_namespaces (lower py namespace) ≡ true
      → (allow (input_in namespace) ≡ false)
        × (allow (input_in (padded namespace)) ≡ true)
        × (clean_namespace py cluster (padded namespace) ≡ clean_namespace py cluster namespace)
  unfolding allow opa_input clean_namespace payload_violations
  allow-padded namespace is_deployer verb harmless clean secret =
      let hidden = privileged_padded (lower py namespace) secret in
      (
        ground (arith, write_actions-disjoint (lower py action) verb),
        IsPermitted-allow (input_in (padded namespace))
            (writes is_deployer verb (rw (lower-padded py namespace) hidden) harmless clean),
        ap (λ s. if s == "" then "default" else s) (strip-padded namespace),
      )
