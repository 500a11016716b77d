-- ===== src/Risk/Payload.antt =====
-- app/risk/scorer.py: the part that the payload plays, and the exceptions that it may cause.
use ai_k8s_gateway.Base.{
  ◌+◌, ◌≤◌, String, ◌≡◌, refl, ◌↔◌, Bool, true, false, none, some, List, [], ◌∷◌, arith, contains,
  lookup, ap, Option-cases, Bool-cases, ◌≢◌, ◌∙◌, inl, inr,
}
use ai_k8s_gateway.Base.Int.{ℤ, pos}
use ai_k8s_gateway.Config.{Settings}
use ai_k8s_gateway.Errors.{Exception, overflow_error, value_error, type_error, Result, ok, raise}
use ai_k8s_gateway.Value.{
  Value, bool, float, infinite, Params, get_or, get_or-some, get_or-none, null, int, is_true,
}
use ai_k8s_gateway.Text.{Python, normal, int_of}
use ai_k8s_gateway.Text.Convert.{int_of-overflow, int_of-raises}
use ai_k8s_gateway.Risk.{
  Reason, host_access, high, RiskScore, Tally, write_verbs, privileged_fields, score_fields,
  score_image, replica_count, replicas_or_one, score_replicas, score_params, score_payload,
  score_target, classify, level_of, score,
}
use ai_k8s_gateway.Risk.Bands.{
  charge_if-Grows, charge_if-value_true, score_fields-Grows, score_image-Grows,
  score_replicas-Grows, score_target-bounds, action_points-write, score_parts,
}

-- For a verb that is no write when normalised, the score with a payload is the score without
-- one.
pub score_read_only :
    (py : Python) (settings : Settings) (action resource namespace : String) (params : Params)
    → contains write_verbs (normal py action) ≡ false
    → score py settings action resource namespace (some params)
      ≡ score py settings action resource namespace none
unfolding score
score_read_only py settings action resource namespace [] h = refl
score_read_only py settings action resource namespace (p ∷ ps) h = rw h

module _ (py : Python) (settings : Settings) (params : Params)
    (set : lookup "privileged" params ≡ some (bool true)) where
  score_fields-privileged :
      (t : Tally) → t.value + 3 ≤ (score_fields py settings params privileged_fields t).value
  unfolding score_fields
  score_fields-privileged t =
      let on = ap is_true (get_or-some null (bool true) "privileged" params set) in
      omega (
        arith,
        charge_if-value_true (is_true (get_or null "privileged" params)) 3
            (host_access "privileged" 3) t on,
        charge_if-Grows,
        score_fields-Grows py settings params,
      )

  score_params-privileged :
      (t t' : Tally) → score_params py settings params t ≡ ok t' → t.value + 3 ≤ t'.value
  unfolding score_params
  score_params-privileged t t' e =
      let fields = score_fields py settings params privileged_fields t in
      omega (
        arith,
        score_fields-privileged t,
        score_image-Grows py settings params fields,
        score_replicas-Grows py settings params (score_image py settings params fields) t' e,
      )

score_payload-privileged :
    (py : Python) (settings : Settings) (params : Params) (action : String) (reasons : List Reason)
    (t : Tally)
    → lookup "privileged" params ≡ some (bool true)
    → contains write_verbs action ≡ true
    → score_payload py settings action (some params) reasons ≡ ok t
    → 3 ≤ t.value
unfolding score_payload lookup
score_payload-privileged py settings [] action reasons t set writes e = cc
score_payload-privileged py settings (p ∷ ps) action reasons t set writes e =
    let start : Tally = record { value = 0; reasons = reasons } in
    omega (arith, score_params-privileged py settings (p ∷ ps) set start t (rw writes at e))

-- If the normalised verb is a write, the payload sets privileged to true and a score is
-- returned, then its level is high.
pub score-privileged :
    (py : Python) (settings : Settings) (action resource namespace : String) (params : Params)
    (rs : RiskScore)
    → contains write_verbs (normal py action) ≡ true
    → lookup "privileged" params ≡ some (bool true)
    → score py settings action resource namespace (some params) ≡ ok rs
    → rs.level ≡ high
unfolding classify level_of
score-privileged py settings action resource namespace params rs writes set e =
    let (t, paid, same) = score_parts py settings action resource namespace (some params) rs e in
    let a = normal py action in
    let r = normal py resource in
    let n = normal py namespace in
    let more = score_payload-privileged py settings params a _ t set writes paid in
    let bounds = score_target-bounds py settings a r n in
    let weight = action_points-write a writes in rw (← same) (ground arith)

-- The payload's replica count is an infinite double.
abbrev pub HasInfiniteReplicas : Params → Type 0
HasInfiniteReplicas params =
    (negative : Bool) × (lookup "replicas" params ≡ some (float (infinite negative)))

replicas_or_one-raises :
    (r : Result ℤ) (x : Exception)
    → replicas_or_one r ≡ raise x
    → (r ≡ raise x) × (x ≢ value_error) × (x ≢ type_error)
unfolding replicas_or_one
replicas_or_one-raises r x e = ground arith

unparsed_replicas :
    (py : Python) (v : Value) (x : Exception)
    → replicas_or_one (int_of py v) ≡ raise x
    → (x ≡ overflow_error) × (negative : Bool) × (v ≡ float (infinite negative))
unparsed_replicas py v x e =
    let (raised, not_value, not_type) = replicas_or_one-raises (int_of py v) x e in
    elim (int_of-raises py v x raised) [
      | inl same ↦ absurd (not_value same)
      | inr (inl same) ↦ absurd (not_type same)
      | inr (inr same) ↦
          let (negative, shape) = int_of-overflow py v (raised ∙ ap raise same) in
          (same, negative, shape)
    ]

replica_count-raises :
    (py : Python) (settings : Settings) (params : Params) (x : Exception)
    → replica_count py settings params ≡ raise x
    → (x ≡ overflow_error) × HasInfiniteReplicas params
unfolding replica_count int_of replicas_or_one
replica_count-raises py settings params x e = elim (Option-cases (lookup "replicas" params)) [
  | inl absent ↦
      let e' : replicas_or_one (int_of py (int (pos 1))) ≡ raise x =
        rw (get_or-none (int (pos 1)) null "replicas" params absent) at e in
      cc
  | inr (v, found) ↦
      let (same, negative, shape) =
        unparsed_replicas py v x (rw (get_or-some (int (pos 1)) v "replicas" params found) at e) in
      (same, (negative, rw found (ap some shape)))
]

module _ (py : Python) (settings : Settings) where
  score_replicas-raises :
      (params : Params) (t : Tally) (x : Exception)
      → (score_replicas py settings params t ≡ raise x)
        ↔ (replica_count py settings params ≡ raise x)
  unfolding score_replicas
  score_replicas-raises params t x = (λ e. ground arith, λ e. ground arith)

  infinite_replica_count :
      (params : Params)
      → HasInfiniteReplicas params
      → replica_count py settings params ≡ raise overflow_error
  unfolding replica_count int_of replicas_or_one
  infinite_replica_count params (negative, found) =
      rw (get_or-some (int (pos 1)) (float (infinite negative)) "replicas" params found)

  -- The payload part raises just when the verb writes and the count cannot be read.
  score_payload-raises :
      (action : String) (params : Params) (reasons : List Reason) (x : Exception)
      → (score_payload py settings action (some params) reasons ≡ raise x)
        ↔ ((x ≡ overflow_error) × (contains write_verbs action ≡ true) × HasInfiniteReplicas params)
  unfolding score_payload score_params lookup
  score_payload-raises action [] reasons x = (λ e. cc, λ h. let found = h.2.1 in cc)
  score_payload-raises action (p ∷ ps) reasons x = (
    λ e. elim (Bool-cases (contains write_verbs action)) [
      | inl writes ↦
          let e' = (score_replicas-raises (p ∷ ps) _ x).0 (rw writes at e) in
          let (same, found) = replica_count-raises py settings (p ∷ ps) x e' in
          (same, writes, found)
      | inr reads ↦ let e' = rw reads at e in cc
    ],
    λ (same, writes, found). rw writes (
        rw same (
          (score_replicas-raises (p ∷ ps) _ overflow_error).1
            (infinite_replica_count (p ∷ ps) found))),
  )

-- The scorer raises an exception for a request with a payload exactly if the exception is an
-- OverflowError, the normalised verb is a write and the payload's replica count is an infinite
-- double.
pub score-raises_iff :
    (py : Python) (settings : Settings) (action resource namespace : String) (params : Params)
    (x : Exception)
    → (score py settings action resource namespace (some params) ≡ raise x) ↔ (
        (x ≡ overflow_error)
        × (contains write_verbs (normal py action) ≡ true)
        × HasInfiniteReplicas params)
unfolding score
score-raises_iff py settings action resource namespace params x =
    let a = normal py action in
    let target = score_target py settings a (normal py resource) (normal py namespace) in
    let (to, from) = score_payload-raises py settings a params target.reasons x in
    (λ e. to (ground arith), λ h. rw (from h))
