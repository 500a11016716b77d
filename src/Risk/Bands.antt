-- ===== src/Risk/Bands.antt =====
-- app/risk/scorer.py: the bands and the bounds of the score.
use ai_k8s_gateway.Base.{
  ℕ, ◌+◌, ◌≤◌, String, ◌≡◌, ◌↔◌, Bool, true, false, Option, none, some, List, [], ◌∷◌, arith,
  Bool-cases, inl, inr, contains, contains-All,
}
use ai_k8s_gateway.Config.{Settings}
use ai_k8s_gateway.Errors.{ok, bind-eq-ok, ok-injective}
use ai_k8s_gateway.Value.{Params}
use ai_k8s_gateway.Text.{Python, normal}
use ai_k8s_gateway.Risk.{
  Reason, low, medium, high, RiskScore, Tally, charge_if, write_verbs, privileged_fields,
  action_points, level_of, score_fields, score_image, replica_count, charge_replicas,
  score_replicas, score_params, score_payload, score_target, classify, score,
}

-- Between `t` and `t'` the bucket grew by at most `most`.
abbrev pub Grows : Tally → ℕ → Tally → Type 0
Grows t most t' = (t.value ≤ t'.value) × (t'.value ≤ t.value + most)

pub charge_if-Grows :
    (test : Bool) (points : ℕ) (reason : Reason) (t : Tally)
    → Grows t points (charge_if test points reason t)
unfolding charge_if
charge_if-Grows true points reason t = omega arith
charge_if-Grows false points reason t = omega arith

pub charge_if-value_true :
    (test : Bool) (points : ℕ) (reason : Reason) (t : Tally)
    → test ≡ true
    → (charge_if test points reason t).value ≡ t.value + points
unfolding charge_if
charge_if-value_true test points reason t h = ground arith

abbrev sum_table : List (String × ℕ) → ℕ
sum_table [] = 0
sum_table ((_, points) ∷ rest) = points + sum_table rest

pub action_points-le : (action : String) → action_points action ≤ 2
unfolding action_points
action_points-le action = ground arith

-- A write verb weighs at least one point.
pub action_points-write :
    (action : String) → contains write_verbs action ≡ true → 1 ≤ action_points action
unfolding action_points
action_points-write action h =
    contains-All (λ a. 1 ≤ action_points a) write_verbs action (omega arith) h

module _ (py : Python) (settings : Settings) (params : Params) where
  pub score_fields-Grows :
      (table : List (String × ℕ)) (t : Tally)
      → Grows t (sum_table table) (score_fields py settings params table t)
  unfolding score_fields
  score_fields-Grows [] t = omega arith
  score_fields-Grows ((name, points) ∷ rest) t =
      omega (arith, charge_if-Grows, score_fields-Grows rest)

  pub score_image-Grows : (t : Tally) → Grows t 1 (score_image py settings params t)
  unfolding score_image
  score_image-Grows t = charge_if-Grows _ 1 _ t

  pub score_replicas-Grows :
      (t t' : Tally) → score_replicas py settings params t ≡ ok t' → Grows t 1 t'
  unfolding score_replicas charge_replicas
  score_replicas-Grows t t' e =
      let (n, _, same) =
        bind-eq-ok (replica_count py settings params) (λ n. ok (charge_replicas py settings t n))
          e in
      rw (← ok-injective same) (charge_if-Grows _ 1 _ t)

  pub score_params-Grows :
      (t t' : Tally) → score_params py settings params t ≡ ok t' → Grows t 13 t'
  unfolding score_params
  score_params-Grows t t' e =
      let fields = score_fields py settings params privileged_fields t in
      omega (
        arith,
        score_fields-Grows privileged_fields t,
        score_image-Grows fields,
        score_replicas-Grows (score_image py settings params fields) t' e,
      )

module _ (py : Python) (settings : Settings) where
  pub score_payload-le :
      (action : String) (params : Option Params) (reasons : List Reason) (t : Tally)
      → score_payload py settings action params reasons ≡ ok t
      → t.value ≤ 13
  unfolding score_payload
  score_payload-le action none reasons t e = ground arith
  score_payload-le action (some []) reasons t e = ground arith
  score_payload-le action (some (p ∷ ps)) reasons t e =
      elim (Bool-cases (contains write_verbs action)) [
        | inl writes ↦
            let start : Tally = record { value = 0; reasons = reasons } in
            (omega (arith, score_params-Grows py settings (p ∷ ps) start t (rw writes at e)))
        | inr reads ↦ let e' = rw reads at e in ground arith
      ]

  pub score_target-bounds :
      (action resource namespace : String)
      → let t = score_target py settings action resource namespace in
        (action_points action ≤ t.value) × (t.value ≤ action_points action + 3)
  unfolding score_target
  score_target-bounds action resource namespace = omega (arith, charge_if-Grows)

-- The two parts of a score that was returned.
pub score_parts :
    (py : Python) (settings : Settings) (action resource namespace : String)
    (params : Option Params) (rs : RiskScore)
    → score py settings action resource namespace params ≡ ok rs
    → let a = normal py action in
      let target = score_target py settings a (normal py resource) (normal py namespace) in
      (t : Tally) × (score_payload py settings a params target.reasons ≡ ok t)
      × (classify target t ≡ rs)
unfolding score
score_parts py settings action resource namespace params rs e =
    let a = normal py action in
    let target = score_target py settings a (normal py resource) (normal py namespace) in
    let (t, paid, same) =
      bind-eq-ok (score_payload py settings a params target.reasons) (λ t. ok (classify target t))
        e in
    (t, paid, ok-injective same)

-- What the three bands mean for a score.
pub record IsBanded (rs : RiskScore) : Type 0 where
  pub at_low : (rs.level ≡ low) ↔ (rs.score ≤ 1)
  pub at_medium : (rs.level ≡ medium) ↔ ((2 ≤ rs.score) × (rs.score ≤ 3))
  pub at_high : (rs.level ≡ high) ↔ (4 ≤ rs.score)

-- A score that is returned is at most 18, and its level is low exactly for 0 and 1, medium
-- exactly for 2 and 3, and high exactly from 4 on.
pub score-IsBanded :
    (py : Python) (settings : Settings) (action resource namespace : String)
    (params : Option Params) (rs : RiskScore)
    → score py settings action resource namespace params ≡ ok rs
    → (rs.score ≤ 18) × IsBanded rs
unfolding classify level_of
score-IsBanded py settings action resource namespace params rs e =
    let (t, paid, same) = score_parts py settings action resource namespace params rs e in
    let a = normal py action in
    let r = normal py resource in
    let n = normal py namespace in
    let most = score_payload-le py settings a params _ t paid in
    let bounds = score_target-bounds py settings a r n in
    let weight = action_points-le a in
    rw (← same) (
      omega arith,
      record { at_low = ground arith; at_medium = ground arith; at_high = ground arith },
    )
