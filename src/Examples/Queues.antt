-- ===== src/Examples/Queues.antt =====
-- The approval queue and the tokens at concrete calls.
use ai_k8s_gateway.Base.{◌+◌, ◌≤◌, String, ◌≡◌, refl, some, List, [], ◌∷◌, lookup}
use ai_k8s_gateway.Config.{defaults}
use ai_k8s_gateway.Errors.{ok}
use ai_k8s_gateway.Value.{str}
use ai_k8s_gateway.Risk.{high, host_access}
use ai_k8s_gateway.Approval.{PendingRequest, ApprovalQueue, init, enqueue, peek}
use ai_k8s_gateway.Approval.Laws.{
  IsValid, Op, init-IsValid, enqueue-IsValid, enqueuing, resolving, run, pending_after, run_refines,
  handed_out, times_enqueued, handed_out-le, peek-enqueue, count_of,
}
use ai_k8s_gateway.Auth.{agent_identities, create_token, verify_token, claims_dict}
use ai_k8s_gateway.Auth.Laws.{verify-create_token, verify_token-HasClaim, HasClaim, IsAcceptedUntil}
use ai_k8s_gateway.Examples.Setting.{deployer, claims, one_token, one_token-IsLawful}

-- A request under the id.
abbrev pub waiting : String → PendingRequest
waiting id = record {
  request_id = id;
  identity = str "agent-deploy";
  role = str "deployer";
  action = "create";
  resource = "deployments";
  namespace = "demo";
  params = ("name", str "web") ∷ [];
  risk_level = high;
  risk_score = 4;
  risk_reasons = host_access "privileged" 3 ∷ [];
  queued_at = "now";
}

abbrev pub one_waiting : ApprovalQueue
one_waiting = (enqueue (waiting "a") init).1

pub one_waiting-IsValid : IsValid one_waiting
one_waiting-IsValid = enqueue-IsValid (waiting "a") init-IsValid

pub waits : peek "a" one_waiting ≡ some (waiting "a")
waits = peek-enqueue (waiting "a") "a" init

run_refines_example :
    IsValid (run (enqueuing (waiting "b") ∷ resolving "a" ∷ []) one_waiting)
    × ((id : String)
        → peek id (run (enqueuing (waiting "b") ∷ resolving "a" ∷ []) one_waiting)
          ≡ pending_after id (peek id one_waiting) (enqueuing (waiting "b") ∷ resolving "a" ∷ []))
run_refines_example =
    run_refines (enqueuing (waiting "b") ∷ resolving "a" ∷ []) one_waiting one_waiting-IsValid

abbrev two_resolves : List Op
two_resolves = resolving "a" ∷ resolving "a" ∷ []

handed_out-le_example :
    handed_out "a" one_waiting two_resolves + count_of (peek "a" (run two_resolves one_waiting))
    ≤ times_enqueued "a" two_resolves + count_of (peek "a" one_waiting)
handed_out-le_example = handed_out-le "a" two_resolves one_waiting one_waiting-IsValid

pub deployer_known : lookup "agent-deploy" agent_identities ≡ some deployer
unfolding lookup
deployer_known = refl

verify-create_token_example :
    (token : String) × (create_token one_token defaults 0 "j" "agent-deploy" ≡ ok token)
    × IsAcceptedUntil one_token defaults 900 60 deployer token
verify-create_token_example =
    verify-create_token one_token defaults 0 60 "j" "agent-deploy" deployer deployer_known
      one_token-IsLawful

pub accepted : verify_token one_token defaults 60 "token" ≡ ok (claims_dict claims)
unfolding verify_token
accepted = refl

verify_token-HasClaim_example :
    (one_token.decode 60 "token" "dev-secret-change-in-production" ("HS256" ∷ [])
      ≡ ok (claims_dict claims))
    × HasClaim "sub" (claims_dict claims)
    × HasClaim "role" (claims_dict claims)
verify_token-HasClaim_example =
    verify_token-HasClaim one_token defaults 60 "token" (claims_dict claims) accepted
