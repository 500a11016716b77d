-- ===== src/Examples/Processes.antt =====
-- The event loop, the verdict, an approval that completes and the printed token at concrete calls.
use Prim.Native.String as Native
use ai_k8s_gateway.Base.{
  ℕ, zero, suc, String, ◌≡◌, refl, sym, ◌∙◌, ap, true, false, some, [], ◌∷◌, ◌++◌,
}
use ai_k8s_gateway.Config.{defaults}
use ai_k8s_gateway.Errors.{ok}
use ai_k8s_gateway.Value.{Value, dict, str}
use ai_k8s_gateway.Auth.{verify_token, claims_dict}
use ai_k8s_gateway.Auth.Laws.{IsAcceptedUntil}
use ai_k8s_gateway.Risk.{low, action_weight, score}
use ai_k8s_gateway.Gateway.{
  Env, AgentActionRequest, authenticate, sample, agent_action, approve_action, list_pending, ◌>>=◌,
  after_k8s,
}
use ai_k8s_gateway.Enforcement.{Enforces, verdict}
use ai_k8s_gateway.Enforcement.Laws.{agent_action-Enforces}
use ai_k8s_gateway.Interleaving.{
  Flight, System, Step, receive, resume, joined, IsReachable, starts, steps, receives, resumes,
}
use ai_k8s_gateway.Interleaving.Provenance.{Calls}
use ai_k8s_gateway.Interleaving.Security.{IsGuarded, IsReachable-IsGuarded, IsReachable-Change}
use ai_k8s_gateway.Interleaving.Changes.{Change}
use ai_k8s_gateway.Interleaving.Freshness.{IsFresh, IsReachable-IsFresh}
use ai_k8s_gateway.Mint.{bare_token, main}
use ai_k8s_gateway.Mint.Laws.{main-bare_token}
use ai_k8s_gateway.Examples.Setting.{
  env, quiet_cluster, start, claims, one_token, one_token-IsLawful, deployer,
}
use ai_k8s_gateway.Examples.Queues.{deployer_known}
use ai_k8s_gateway.Examples.Requests.{create_body}

abbrev pub list_body : AgentActionRequest
list_body = record { action = "list"; resource = "pods"; namespace = "demo"; params = [] }

agent_action-Enforces_example :
    Enforces env
      (λ r. "reason")
      "token"
      create_body
      start
      (agent_action env "token" create_body start)
      (verdict env (λ r. "reason") "token" create_body start)
agent_action-Enforces_example =
    agent_action-Enforces env (λ r. "reason") [] "token" create_body start (λ tick url input. refl)

-- An API server that deletes what it is asked to, and the approval of a deletion.
abbrev pub obliging_env : Env
obliging_env = record env {
  cluster = record quiet_cluster { delete_namespaced_deployment = λ t d n. ok tt };
}

abbrev pub deletion_result : Value
deletion_result = dict (
    ("status", str "success")
    ∷ ("data", dict (("deleted", str "web") ∷ ("namespace", str "demo") ∷ []))
    ∷ [])

-- UUIDs that do not repeat: as many strokes as ticks.
abbrev strokes : ℕ → String
strokes zero = ""
strokes (suc n) = Native.◌∷◌ "i" (strokes n)

abbrev count : String → ℕ
count Native.[] = 0
count (Native.◌∷◌ c s) = suc (count s)

count-strokes : (n : ℕ) → count (strokes n) ≡ n
count-strokes zero = refl
count-strokes (suc n) = ap suc (count-strokes n)

abbrev unrepeated_env : Env
unrepeated_env = record env { uuid = strokes }

unrepeated : (i j : ℕ) → strokes i ≡ strokes j → i ≡ j
unrepeated i j e = sym (count-strokes i) ∙ ap count e ∙ count-strokes j

-- A process that receives a request twice, and goes on with the second call first.
abbrev idle : System
idle = record { world = start; flights = [] }

abbrev after_receipt : System → System
after_receipt s = record {
  world = (receive unrepeated_env "token" list_body s.world).1;
  flights = joined (receive unrepeated_env "token" list_body s.world).0 s.flights;
}

abbrev flight_of : String → Flight
flight_of id = record {
  request_id = id;
  payload = claims_dict claims;
  body = list_body;
  risk = record { level = low; score = 0; reasons = action_weight "list" 0 ∷ [] };
}

both_wait :
    (after_receipt (after_receipt idle)).flights ≡ (flight_of "" ∷ []) ++ flight_of "ii" ∷ []
unfolding receive authenticate verify_token sample score ◌>>=◌ ai_k8s_gateway.Gateway.lift
both_wait = refl

abbrev resumed : System
resumed = record {
  world = (resume unrepeated_env (flight_of "ii") (after_receipt (after_receipt idle)).world).1;
  flights = flight_of "" ∷ [];
}

both-IsReachable : IsReachable unrepeated_env (after_receipt (after_receipt idle))
both-IsReachable =
    steps (steps (starts idle refl refl refl) (receives "token" list_body))
      (receives "token" list_body)

abbrev resuming : Step unrepeated_env (after_receipt (after_receipt idle)) resumed
resuming = resumes (flight_of "" ∷ []) [] (flight_of "ii") both_wait

resumed-IsReachable : IsReachable unrepeated_env resumed
resumed-IsReachable = steps both-IsReachable resuming

IsReachable-IsGuarded_example : IsGuarded unrepeated_env resumed-IsReachable
IsReachable-IsGuarded_example = IsReachable-IsGuarded unrepeated_env resumed-IsReachable

IsReachable-IsFresh_example : IsFresh unrepeated_env resumed
IsReachable-IsFresh_example = IsReachable-IsFresh unrepeated_env unrepeated resumed-IsReachable

IsReachable-Change_example :
    Change unrepeated_env
      (Calls unrepeated_env resuming)
      (after_receipt (after_receipt idle)).world
      resumed.world
IsReachable-Change_example = IsReachable-Change unrepeated_env both-IsReachable resuming

main-bare_token_example :
    (token : String) × (main one_token defaults
        (λ i. i)
        (λ i. "j")
        (record { agent = some "agent-deploy"; bare = true })
      ≡ record { printed = bare_token token ∷ []; failed = false; status = 0 })
    × IsAcceptedUntil one_token defaults 900 60 deployer token
main-bare_token_example =
    main-bare_token one_token defaults (λ i. i) (λ i. "j") 60 "agent-deploy" deployer (λ e. cc)
      deployer_known one_token-IsLawful
