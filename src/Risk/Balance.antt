-- ===== src/Risk/Balance.antt =====
-- app/risk/scorer.py: the score against the points in its reasons.
use ai_k8s_gateway.Base.{
  ℕ, ◌+◌, String, ◌≡◌, subst, contains, Bool, true, false, Option, none, some, List, [], ◌∷◌, ◌++◌,
  arith, Bool-cases, inl, inr,
}
use ai_k8s_gateway.Base.Int.{ℤ}
use ai_k8s_gateway.Config.{Settings}
use ai_k8s_gateway.Errors.{ok, bind-eq-ok, ok-injective}
use ai_k8s_gateway.Value.{Params}
use ai_k8s_gateway.Text.{Python, normal}
use ai_k8s_gateway.Risk.{
  Reason, action_weight, system_namespace, sensitive_resource, host_access, untrusted_image,
  replica_excess, RiskScore, Tally, charge_if, write_verbs, privileged_fields, score_fields,
  score_image, score_replicas, score_params, score_payload, score_target, score, classify,
  charge_replicas, replica_count, action_points,
}

-- The "+n" that a reason shows.
abbrev pub points_of : Reason → ℕ
points_of (action_weight _ points) = points
points_of (system_namespace _) = 2
points_of (sensitive_resource _) = 1
points_of (host_access _ points) = points
points_of (untrusted_image _) = 1
points_of (replica_excess _ _) = 1

abbrev pub sum_points : List Reason → ℕ
sum_points [] = 0
sum_points (r ∷ rs) = points_of r + sum_points rs

sum_points-append : (rs qs : List Reason) → sum_points (rs ++ qs) ≡ sum_points rs + sum_points qs
sum_points-append [] qs = omega arith
sum_points-append (r ∷ rs) qs = omega (arith, sum_points-append rs qs)

-- `base` points were shown before the bucket was opened.
abbrev IsBalanced : ℕ → Tally → Type 0
IsBalanced base t = base + t.value ≡ sum_points t.reasons

charge_if-IsBalanced :
    (base : ℕ) (test : Bool) (reason : Reason) (t : Tally)
    → IsBalanced base t
    → IsBalanced base (charge_if test (points_of reason) reason t)
unfolding charge_if
charge_if-IsBalanced base true reason t h = omega (arith, sum_points-append t.reasons (reason ∷ []))
charge_if-IsBalanced base false reason t h = h

module _ (py : Python) (settings : Settings) (params : Params) (base : ℕ) where
  score_fields-IsBalanced :
      (table : List (String × ℕ)) (t : Tally)
      → IsBalanced base t
      → IsBalanced base (score_fields py settings params table t)
  unfolding score_fields
  score_fields-IsBalanced [] t h = h
  score_fields-IsBalanced ((name, points) ∷ rest) t h =
      score_fields-IsBalanced rest _ (charge_if-IsBalanced base _ (host_access name points) t h)

  score_image-IsBalanced :
      (t : Tally) → IsBalanced base t → IsBalanced base (score_image py settings params t)
  unfolding score_image
  score_image-IsBalanced t h = charge_if-IsBalanced base _ (untrusted_image _) t h

  charge_replicas-IsBalanced :
      (n : ℤ) (t : Tally) → IsBalanced base t → IsBalanced base (charge_replicas py settings t n)
  unfolding charge_replicas
  charge_replicas-IsBalanced n t h = charge_if-IsBalanced base _ (replica_excess n _) t h

  score_replicas-IsBalanced :
      (t t' : Tally)
      → IsBalanced base t
      → score_replicas py settings params t ≡ ok t'
      → IsBalanced base t'
  unfolding score_replicas
  score_replicas-IsBalanced t t' h e =
      let (n, _, same) =
        bind-eq-ok (replica_count py settings params) (λ n. ok (charge_replicas py settings t n))
          e in
      subst (IsBalanced base) (ok-injective same) (charge_replicas-IsBalanced n t h)

  score_params-IsBalanced :
      (t t' : Tally)
      → IsBalanced base t
      → score_params py settings params t ≡ ok t'
      → IsBalanced base t'
  unfolding score_params
  score_params-IsBalanced t t' h =
      score_replicas-IsBalanced _ t'
        (score_image-IsBalanced _ (score_fields-IsBalanced privileged_fields t h))

module _ (py : Python) (settings : Settings) where
  score_payload-IsBalanced :
      (action : String) (params : Option Params) (reasons : List Reason) (t : Tally)
      → score_payload py settings action params reasons ≡ ok t
      → IsBalanced (sum_points reasons) t
  unfolding score_payload
  score_payload-IsBalanced action none reasons t e = ground arith
  score_payload-IsBalanced action (some []) reasons t e = ground arith
  score_payload-IsBalanced action (some (p ∷ ps)) reasons t e =
      elim (Bool-cases (contains write_verbs action)) [
        | inl writes ↦
            score_params-IsBalanced py settings (p ∷ ps) (sum_points reasons) _ t (omega arith)
              (rw (writes) at e)
        | inr reads ↦ let e' = rw reads at e in ground arith
      ]

  score_target-IsBalanced :
      (action resource namespace : String)
      → IsBalanced 0 (score_target py settings action resource namespace)
  unfolding score_target
  score_target-IsBalanced action resource namespace =
      let points = action_points action in
      let t : Tally = record { value = points; reasons = action_weight action points ∷ [] } in
      let start : IsBalanced 0 t = omega arith in
      charge_if-IsBalanced 0 _ (sensitive_resource resource) _
        (charge_if-IsBalanced 0 _ (system_namespace namespace) t start)

-- The points that the reasons of a returned score show add up to the score.
pub score-sum_points :
    (py : Python) (settings : Settings) (action resource namespace : String)
    (params : Option Params) (rs : RiskScore)
    → score py settings action resource namespace params ≡ ok rs
    → rs.score ≡ sum_points rs.reasons
unfolding score
score-sum_points py settings action resource namespace params rs e =
    let a = normal py action in
    let target = score_target py settings a (normal py resource) (normal py namespace) in
    let (t, paid, same) =
      bind-eq-ok (score_payload py settings a params target.reasons) (λ t. ok (classify target t))
        e in
    let balanced = score_payload-IsBalanced py settings a params target.reasons t paid in
    let start = score_target-IsBalanced py settings a (normal py resource) (normal py namespace) in
    rw (← ok-injective same) (unfold classify in omega arith)
