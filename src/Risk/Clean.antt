-- ===== src/Risk/Clean.antt =====
-- app/risk/scorer.py: payloads that ask for no access to the host, and read-only verbs.
use ai_k8s_gateway.Base.{
  ◌+◌, ◌≤◌, String, ◌≡◌, inl, inr, false, some, List, [], ◌∷◌, arith, Bool-cases, contains,
}
use ai_k8s_gateway.Config.{Settings}
use ai_k8s_gateway.Errors.{ok}
use ai_k8s_gateway.Value.{null, Params, get_or, is_true}
use ai_k8s_gateway.Text.{Python, normal}
use ai_k8s_gateway.Risk.{
  Reason, RiskScore, Tally, charge_if, high_risk_namespaces, sensitive_resources, privileged_fields,
  write_verbs, action_points, score_fields, score_image, score_params, score_payload, score_target,
  classify, score,
}
use ai_k8s_gateway.Risk.Bands.{
  score_parts, score_target-bounds, score_image-Grows, score_replicas-Grows,
}

-- None of the five fields is set.
pub record IsHostFree (params : Params) : Type 0 where
  pub privileged : is_true (get_or null "privileged" params) ≡ false
  pub host_network : is_true (get_or null "hostNetwork" params) ≡ false
  pub host_pid : is_true (get_or null "hostPID" params) ≡ false
  pub host_ipc : is_true (get_or null "hostIPC" params) ≡ false
  pub host_path : is_true (get_or null "hostPath" params) ≡ false

module _ (py : Python) (settings : Settings) where
  score_fields-clean :
      (params : Params) (t : Tally)
      → IsHostFree params
      → score_fields py settings params privileged_fields t ≡ t
  unfolding score_fields charge_if
  score_fields-clean params t h =
      rw (h.privileged, h.host_network, h.host_pid, h.host_ipc, h.host_path)

  score_params-clean :
      (params : Params) (t t' : Tally)
      → IsHostFree params
      → score_params py settings params t ≡ ok t'
      → t'.value ≤ t.value + 2
  unfolding score_params
  score_params-clean params t t' h e =
      let e' = rw (score_fields-clean params t h) at e in
      omega (
        arith,
        score_image-Grows py settings params t,
        score_replicas-Grows py settings params (score_image py settings params t) t' e',
      )

  score_payload-clean :
      (action : String) (params : Params) (reasons : List Reason) (t : Tally)
      → IsHostFree params
      → score_payload py settings action (some params) reasons ≡ ok t
      → t.value ≤ 2
  unfolding score_payload
  score_payload-clean action [] reasons t h e = ground arith
  score_payload-clean action (p ∷ ps) reasons t h e =
      elim (Bool-cases (contains write_verbs action)) [
        | inl writes ↦
            let start : Tally = record { value = 0; reasons = reasons } in
            (omega (arith, score_params-clean (p ∷ ps) start t h (rw writes at e)))
        | inr reads ↦ let e' = rw reads at e in ground arith
      ]

  score_target-plain :
      (action resource namespace : String)
      → contains high_risk_namespaces namespace ≡ false
      → contains sensitive_resources resource ≡ false
      → (score_target py settings action resource namespace).value ≡ action_points action
  unfolding score_target charge_if
  score_target-plain action resource namespace plain harmless = rw (plain, harmless)

  -- Outside the system namespaces and the sensitive resources, a payload without a host field adds at
  -- most two points to the verb's.
  pub score-clean :
      (action resource namespace : String) (params : Params) (rs : RiskScore)
      → contains high_risk_namespaces (normal py namespace) ≡ false
      → contains sensitive_resources (normal py resource) ≡ false
      → IsHostFree params
      → score py settings action resource namespace (some params) ≡ ok rs
      → rs.score ≤ action_points (normal py action) + 2
  unfolding classify
  score-clean action resource namespace params rs plain harmless h e =
      let (t, paid, same) = score_parts py settings action resource namespace (some params) rs e in
      let target =
        score_target-plain (normal py action) (normal py resource) (normal py namespace) plain
          harmless in
      let most = score_payload-clean (normal py action) params _ t h paid in
      rw (← same) (omega arith)

  score_payload-read :
      (action : String) (params : Params) (reasons : List Reason) (t : Tally)
      → contains write_verbs action ≡ false
      → score_payload py settings action (some params) reasons ≡ ok t
      → t.value ≡ 0
  unfolding score_payload
  score_payload-read action [] reasons t h e = ground arith
  score_payload-read action (p ∷ ps) reasons t h e = let e' = rw h at e in ground arith

  -- For a verb that is no write, the namespace and the resource add at most three points.
  pub score-read :
      (action resource namespace : String) (params : Params) (rs : RiskScore)
      → contains write_verbs (normal py action) ≡ false
      → score py settings action resource namespace (some params) ≡ ok rs
      → rs.score ≤ action_points (normal py action) + 3
  unfolding classify
  score-read action resource namespace params rs verb e =
      let (t, paid, same) = score_parts py settings action resource namespace (some params) rs e in
      let bounds =
        score_target-bounds py settings (normal py action) (normal py resource)
          (normal py namespace) in
      let nothing = score_payload-read (normal py action) params _ t verb paid in
      rw (← same) (omega arith)
