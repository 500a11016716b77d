-- ===== src/Opa/Laws.antt =====
-- `_query_opa` of app/main.py: which replies count as allowing, and the shipped policy behind the
-- sidecar.
use ai_k8s_gateway.Base.{
  String, ◌≡◌, refl, Bool, true, false, Option, some, none, arith, lookup, inl, inr, Option-cases,
  ◌≢◌, ap, [], ◌∙◌,
}
use ai_k8s_gateway.Errors.{Result, ok, ◌>>=◌, bind-eq-ok, ok-injective}
use ai_k8s_gateway.Policy.{OpaInput, allow, PolicyReason, reason}
use ai_k8s_gateway.Text.{Python, str_of}
use ai_k8s_gateway.Value.{
  Value, bool, str, obj, Fields, Params, fields, dict, get_or, get_or-some, get_or-none, truthy,
}
use ai_k8s_gateway.Opa.{Reply, body, get_field, read_decision, read_reply, policy_sidecar}

-- The reply is a JSON object whose `result` is an object with a true `allow`.
pub record Allows (r : Reply) : Type 0 where
  pub outer : Fields
  pub inner : Fields
  pub decision : Value
  pub is_body : r ≡ body (obj outer)
  pub has_result : lookup "result" (fields outer) ≡ some (obj inner)
  pub has_allow : lookup "allow" (fields inner) ≡ some decision
  pub holds : truthy decision ≡ true

get_field-eq-ok :
    (default v x : Value) (key : String)
    → get_field default key v ≡ ok x
    → (fs : Fields) × (v ≡ obj fs) × (get_or default key (fields fs) ≡ x)
unfolding get_field
get_field-eq-ok default (obj fs) x key e = (fs, refl, ok-injective e)
get_field-eq-ok default v x key e = cc

-- What is found is not the default.
found_of :
    (default v : Value) (key : String) (ps : Params)
    → get_or default key ps ≡ v
    → default ≢ v
    → lookup key ps ≡ some v
found_of default v key ps e ne = elim (Option-cases (lookup key ps)) [
  | inl absent ↦ absurd (ne (rw (get_or-none default default key ps absent) at e))
  | inr (u, found) ↦ rw found (ap some (rw (get_or-some default u key ps found) at e))
]

not_truthy : (v : Value) → truthy v ≡ true → bool false ≢ v
unfolding truthy
not_truthy v h e = let h' = rw (← e) at h in cc

abbrev allow_of : Value → Option Value
allow_of (obj fs) = lookup "allow" (fields fs)
allow_of _ = none

module _ (py : Python) where
  abbrev default_reason : String
  default_reason = "OPA decision (no reason provided)"

  abbrev finish : Value → Value → Result (Bool × String)
  finish result allowed =
      get_field (str default_reason) "reason" result >>= λ told. ok (truthy allowed, str_of py told)

  read_decision-Allows :
      (result : Value) (told : String)
      → read_decision py result ≡ ok (true, told)
      → (inner : Fields) × (decision : Value) × (result ≡ obj inner)
        × (lookup "allow" (fields inner) ≡ some decision)
        × (truthy decision ≡ true)
  unfolding read_decision
  read_decision-Allows result told e =
      let (allowed, read, rest) =
        bind-eq-ok (get_field (bool false) "allow" result) (finish result) e in
      let (reason, _, pair) =
        bind-eq-ok (get_field (str default_reason) "reason" result)
          (λ r. ok (truthy allowed, str_of py r)) rest in
      let (inner, is_inner, at_allow) = get_field-eq-ok (bool false) result allowed "allow" read in
      let holds : truthy allowed ≡ true = ap (λ (d : Bool × String). d.0) (ok-injective pair) in
      let found =
        found_of (bool false) allowed "allow" (fields inner) at_allow
          (λ h. not_truthy allowed holds h) in
      (inner, allowed, is_inner, found, holds)

  -- The gateway reads a reply of the sidecar as "allowed" only if it is a JSON object whose
  -- field result is an object with a field allow that counts as true.
  pub read_reply-Allows : (r : Reply) (told : String) → read_reply py r ≡ ok (true, told) → Allows r
  unfolding read_reply
  read_reply-Allows (body v) told e =
      let (result, read, rest) = bind-eq-ok (get_field (dict []) "result" v) (read_decision py) e in
      let (outer, is_obj, at_result) = get_field-eq-ok (dict []) v result "result" read in
      let (inner, decision, is_inner, at_allow, holds) = read_decision-Allows result told rest in
      let nonempty : dict [] ≢ obj inner =
        λ h. let none_there = ap allow_of h in unfold lookup in cc (none_there, at_allow) in
      record {
        outer = outer;
        inner = inner;
        decision = decision;
        is_body = ap body is_obj;
        has_result =
            found_of (dict []) (obj inner) "result" (fields outer) (at_result ∙ is_inner) nonempty;
        has_allow = at_allow;
        holds = holds;
      }
  read_reply-Allows r told e = ground arith

  -- With a sidecar that runs the shipped policy, the decision and the reason that the gateway
  -- reads are the policy's.
  pub read_reply-policy :
      (render : PolicyReason → String) (more : Params) (url : String) (input : OpaInput)
      → read_reply py (policy_sidecar render more url input)
        ≡ ok (allow input, render (reason input))
  unfolding read_reply policy_sidecar lookup str_of
  read_reply-policy render more url input = refl
