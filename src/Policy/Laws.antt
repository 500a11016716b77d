-- ===== src/Policy/Laws.antt =====
-- policies/agent_actions.rego: `allow` against `deny_reasons`.
use ai_k8s_gateway.Base.{
  ◌≢◌, eq_iff, String, ◌≡◌, refl, ◌↔◌, ◌⊎◌, inl, inr, true, false, List, [], ◌∷◌, contains,
  contains-All, arith, Bool-cases, eq_iff,
}
use ai_k8s_gateway.Value.{Value, str}
use ai_k8s_gateway.Policy.{
  OpaInput, read_only_actions, write_actions, delete_actions, privileged_namespaces,
  sensitive_resources, is_text, payload_violations, is_empty, allow, deny_reasons,
}

-- The three sets of verbs are disjoint.
pub read_only_actions-disjoint :
    (a : String)
    → contains read_only_actions a ≡ true
    → (contains write_actions a ≡ false) × (contains delete_actions a ≡ false)
unfolding contains
read_only_actions-disjoint a h =
    contains-All (λ b. (contains write_actions b ≡ false) × (contains delete_actions b ≡ false))
      read_only_actions a ((refl, refl), ((refl, refl), ((refl, refl), tt))) h

pub write_actions-disjoint :
    (a : String)
    → contains write_actions a ≡ true
    → (contains read_only_actions a ≡ false) × (contains delete_actions a ≡ false)
unfolding contains
write_actions-disjoint a h =
    contains-All (λ b. (contains read_only_actions b ≡ false) × (contains delete_actions b ≡ false))
      write_actions a ((refl, refl), ((refl, refl), ((refl, refl), ((refl, refl), tt)))) h

roles-disjoint : (v : Value) → is_text "readonly" v ≡ true → is_text "deployer" v ≡ false
unfolding is_text
roles-disjoint (str s) h = rw ((eq_iff s "readonly").0 h)
roles-disjoint v h = cc

-- What each rule of `allow` asks.
pub data IsPermitted (i : OpaInput) : Type 0 where
  reads :
      (is_text "readonly" i.role ≡ true) ⊎ (is_text "deployer" i.role ≡ true)
      → contains read_only_actions i.action ≡ true
      → IsPermitted i
  writes :
      is_text "deployer" i.role ≡ true
      → contains write_actions i.action ≡ true
      → contains privileged_namespaces i.namespace ≡ false
      → contains sensitive_resources i.resource ≡ false
      → payload_violations i ≡ []
      → IsPermitted i

is_empty-nil : {A : Type 0} (l : List A) → is_empty l ≡ true → l ≡ []
is_empty-nil [] h = refl
is_empty-nil (x ∷ l) h = cc

pub allow-IsPermitted : (i : OpaInput) → allow i ≡ true → IsPermitted i
unfolding allow
allow-IsPermitted i h = elim (Bool-cases (contains read_only_actions i.action)) [
  | inl read ↦ reads (ground arith) read
  | inr other ↦
      writes (ground arith) (ground arith) (ground arith) (ground arith)
        (is_empty-nil (payload_violations i) (ground arith))
]

-- Every rule that is met permits.
pub IsPermitted-allow : (i : OpaInput) → IsPermitted i → allow i ≡ true
unfolding allow
IsPermitted-allow i (reads role verb) = ground arith
IsPermitted-allow i (writes role verb namespace resource clean) = ground arith

no_reasons-reads :
    (i : OpaInput)
    → (is_text "readonly" i.role ≡ true) ⊎ (is_text "deployer" i.role ≡ true)
    → contains read_only_actions i.action ≡ true
    → deny_reasons i ≡ []
unfolding deny_reasons payload_violations
no_reasons-reads i role verb =
    ground (arith, read_only_actions-disjoint i.action verb, roles-disjoint i.role)

no_reasons-writes :
    (i : OpaInput)
    → is_text "deployer" i.role ≡ true
    → contains write_actions i.action ≡ true
    → contains privileged_namespaces i.namespace ≡ false
    → contains sensitive_resources i.resource ≡ false
    → payload_violations i ≡ []
    → deny_reasons i ≡ []
unfolding deny_reasons
no_reasons-writes i role verb namespace resource clean =
    ground (arith, write_actions-disjoint i.action verb, roles-disjoint i.role)

-- A request that the policy allows, whatever its verb, has no deny reason.
pub allow-no_reasons : (i : OpaInput) → allow i ≡ true → deny_reasons i ≡ []
allow-no_reasons i h = elim (allow-IsPermitted i h) [
  | reads role verb ↦ no_reasons-reads i role verb
  | writes role verb namespace resource clean ↦
      no_reasons-writes i role verb namespace resource clean
]

-- The verb is one that the policy names.
abbrev pub IsKnownVerb : String → Type 0
IsKnownVerb a =
    (contains read_only_actions a ≡ true)
    ⊎ (contains write_actions a ≡ true)
    ⊎ (contains delete_actions a ≡ true)

-- For a verb that one of the policy's three sets names, a request is allowed exactly when the
-- policy has no deny reason for it.
pub allow-iff_no_reasons :
    (i : OpaInput) → IsKnownVerb i.action → (allow i ≡ true) ↔ (deny_reasons i ≡ [])
unfolding deny_reasons allow
allow-iff_no_reasons i known = (allow-no_reasons i, λ h. ground (arith, roles-disjoint i.role))

pub nonempty-is_text : (image : String) → image ≢ "" → is_text "" (str image) ≡ false
unfolding is_text
nonempty-is_text image h = ground (arith, eq_iff image "")
