-- ===== src/Demo/Modesty.antt =====
-- demo/agent_client.py: what the demonstration asks of the gateway.
use Prim.Native.String.{◌++◌ as ◌<>◌}
use ai_k8s_gateway.Base.{
  ℕ, String, Bool, true, false, Option, none, some, List, [], ◌∷◌, All, All-snoc, if◌then◌else◌,
}
use ai_k8s_gateway.Errors.{Exception, Result}
use ai_k8s_gateway.Value.{Value}
use ai_k8s_gateway.Gateway.{AgentActionRequest}
use ai_k8s_gateway.Client.{Response, payload_of}
use ai_k8s_gateway.Demo.{
  Request, get, post, Colour, Printed, Host, Session, Outcome, returned, network_error, raised,
  Demo, resume, ◌>>=◌, lift, printed_unless, print, send, mint, post_action, get_pending,
  print_response, print_entries, print_audit_tail, check_gateway, print_tail, last_lines,
}
use ai_k8s_gateway.Demo.Scenarios.{
  list_pods, readonly_create, create_app, system_create, system_delete, privileged_create,
  miner_create, many_replicas, show_decision, scenario_1_low_risk, scenario_2_medium_risk,
  scenario_3_high_risk, show_block, attack, scenario_4_malicious_pod,
}
use ai_k8s_gateway.Demo.Main.{
  Args, print_audit_summary, attempt, run_all, scenarios, demonstrate, caught, summarise,
  rstrip_slash, main,
}

-- The eight requests of the scenarios.
pub data IsDemonstrated : AgentActionRequest → Type 0 where
  listing : IsDemonstrated list_pods
  readonly : IsDemonstrated readonly_create
  creating : IsDemonstrated create_app
  system_creating : IsDemonstrated system_create
  system_deleting : IsDemonstrated system_delete
  privileged : IsDemonstrated privileged_create
  miner : IsDemonstrated miner_create
  replicas : IsDemonstrated many_replicas

module _ (gateway : String) where
  -- A request that is no decision of an approver.
  pub data IsModestRequest : Request → Type 0 where
    probing : IsModestRequest (get (gateway <> "/health") none)
    pending : (token : String) → IsModestRequest (get (gateway <> "/pending") (some token))
    acting :
        (token : String) (body : AgentActionRequest)
        → IsDemonstrated body
        → IsModestRequest (
            post
              (gateway <> "/agent-action")
              token
              (payload_of body.action body.resource body.namespace (some body.params)))

  -- Every request that the step sends is of that kind.
  pub record IsModest {A : Type 0} (m : Demo A) : Type 0 where
    pub at : (s : Session) → All IsModestRequest s.sent → All IsModestRequest (m s).1.sent

  module _ {A : Type 0} where
    IsModest-lift : (r : Result A) → IsModest (lift r)
    unfolding lift
    IsModest-lift r = record { at = λ s h. h }

    IsModest-if :
        (b : Bool) (m n : Demo A) → IsModest m → IsModest n → IsModest (if b then m else n)
    IsModest-if true m n h k = h
    IsModest-if false m n h k = k

  module _ {A B : Type 0} where
    resume-modest :
        (o : Outcome A) (f : A → Demo B) (s : Session)
        → ((a : A) → IsModest (f a))
        → All IsModestRequest s.sent
        → All IsModestRequest (resume o f s).1.sent
    resume-modest (returned a) f s k h = (k a).at s h
    resume-modest network_error f s k h = h
    resume-modest (raised e) f s k h = h

    IsModest->>= :
        (m : Demo A) (f : A → Demo B) → IsModest m → ((a : A) → IsModest (f a)) → IsModest (m >>= f)
    unfolding ◌>>=◌
    IsModest->>= m f h k = record { at = λ s all. resume-modest (m s).0 f (m s).1 k (h.at s all) }

  module _ (host : Host) where
    unless-modest :
        (o : Option Exception) (p : Printed) (s : Session)
        → All IsModestRequest s.sent
        → All IsModestRequest (printed_unless o p s).1.sent
    unless-modest none p s h = h
    unless-modest (some e) p s h = h

    IsModest-print : (p : Printed) → IsModest (print host p)
    unfolding print
    IsModest-print p = record { at = λ s h. unless-modest (host.rich p) p s h }

    IsModest-mint : (agent_id : String) → IsModest (mint host agent_id)
    unfolding mint
    IsModest-mint agent_id = record { at = λ s h. h }

    IsModest-send : (r : Request) → IsModestRequest r → IsModest (send host r)
    unfolding send
    IsModest-send r k = record { at = λ s h. All-snoc IsModestRequest s.sent r h k }

    IsModest-post_action :
        (token : String) (body : AgentActionRequest)
        → IsDemonstrated body
        → IsModest (post_action host gateway token body)
    unfolding post_action
    IsModest-post_action token body k = IsModest-send _ (acting token body k)

    IsModest-get_pending : (token : String) → IsModest (get_pending host gateway token)
    unfolding get_pending
    IsModest-get_pending token = IsModest-send _ (pending token)

    ruleset modest_rules = (
      IsModest-lift, IsModest-if, IsModest->>=, IsModest-print, IsModest-mint, IsModest-post_action,
      IsModest-get_pending, listing, readonly, creating, system_creating, system_deleting,
      privileged, miner, replicas,
    )

    IsModest-print_response :
        (resp : Response) (label : String) → IsModest (print_response host resp label)
    unfolding print_response
    IsModest-print_response resp label = search modest_rules depth 12

    IsModest-print_entries : (lines : List String) → IsModest (print_entries host lines)
    unfolding print_entries
    IsModest-print_entries [] = search modest_rules
    IsModest-print_entries (line ∷ lines) =
        IsModest->>= _ _ (IsModest-print _) (λ v. IsModest-print_entries lines)

    tail-IsModest :
        (audit_path : String) (n : ℕ) (file : Option (List String))
        → IsModest (print_tail host audit_path n file)
    unfolding print_tail
    tail-IsModest audit_path n none = search modest_rules
    tail-IsModest audit_path n (some lines) = IsModest-print_entries (last_lines n lines)

    IsModest-print_audit_tail :
        (audit_path : String) (n : ℕ) → IsModest (print_audit_tail host audit_path n)
    unfolding print_audit_tail
    IsModest-print_audit_tail audit_path n = record {
      at = λ s h. (tail-IsModest audit_path n (host.audit_file s.tick audit_path)).at _ h;
    }

    ruleset step_rules = (modest_rules, IsModest-print_response, IsModest-print_audit_tail)

    IsModest-show_decision :
        (otherwise : Colour) (body : Value) → IsModest (show_decision host gateway otherwise body)
    unfolding show_decision
    IsModest-show_decision otherwise body = search step_rules depth 12

    IsModest-scenario_1_low_risk : IsModest (scenario_1_low_risk host gateway)
    unfolding scenario_1_low_risk
    IsModest-scenario_1_low_risk = search (step_rules, IsModest-show_decision) depth 20

    IsModest-scenario_2_medium_risk : IsModest (scenario_2_medium_risk host gateway)
    unfolding scenario_2_medium_risk
    IsModest-scenario_2_medium_risk = search (step_rules, IsModest-show_decision) depth 20

    IsModest-scenario_3_high_risk : IsModest (scenario_3_high_risk host gateway)
    unfolding scenario_3_high_risk
    IsModest-scenario_3_high_risk = search step_rules depth 20

    IsModest-attack :
        (token : String) (body : AgentActionRequest) (label : String)
        → IsDemonstrated body
        → IsModest (attack host gateway token body label)
    unfolding attack show_block
    IsModest-attack token body label k = search (step_rules, k) depth 20

    IsModest-scenario_4_malicious_pod : IsModest (scenario_4_malicious_pod host gateway)
    unfolding scenario_4_malicious_pod
    IsModest-scenario_4_malicious_pod = search (step_rules, IsModest-attack) depth 20

    caught_modest :
        (name : String) (o : Outcome Unit) (s : Session)
        → All IsModestRequest s.sent
        → All IsModestRequest (caught host name o s).1.sent
    caught_modest name (returned v) s h = h
    caught_modest name network_error s h = (IsModest-print _).at s h
    caught_modest name (raised e) s h = h

    IsModest-attempt : (name : String) (m : Demo Unit) → IsModest m → IsModest (attempt host name m)
    unfolding attempt
    IsModest-attempt name m h = record {
      at = λ s all. caught_modest name (m s).0 (m s).1 (h.at s all);
    }

    IsModest-run_all :
        (ms : List (String × Demo Unit)) → All (λ m. IsModest m.1) ms → IsModest (run_all host ms)
    unfolding run_all
    IsModest-run_all [] h = search modest_rules
    IsModest-run_all ((name, m) ∷ ms) (h, hs) =
        search (modest_rules, IsModest-attempt name m h, IsModest-run_all ms hs) depth 12

    summary-IsModest :
        (audit_path : String) (file : Option (List String))
        → IsModest (summarise host audit_path file)
    unfolding summarise
    summary-IsModest audit_path none = search modest_rules
    summary-IsModest audit_path (some lines) = search modest_rules depth 12

    IsModest-print_audit_summary :
        (audit_path : String) → IsModest (print_audit_summary host audit_path)
    unfolding print_audit_summary
    IsModest-print_audit_summary audit_path = record {
      at = λ s h. (summary-IsModest audit_path (host.audit_file s.tick audit_path)).at _ h;
    }

    IsModest-check_gateway : IsModest (check_gateway host gateway)
    unfolding check_gateway
    IsModest-check_gateway = record {
      at = λ s h. (IsModest-send (get (gateway <> "/health") none) probing).at s h;
    }

    IsModest-scenarios : IsModest (run_all host (scenarios host gateway))
    IsModest-scenarios = IsModest-run_all (scenarios host gateway) (
      IsModest-scenario_1_low_risk,
      (
        IsModest-scenario_2_medium_risk,
        (IsModest-scenario_3_high_risk, (IsModest-scenario_4_malicious_pod, tt)),
      ),
    )

    IsModest-demonstrate : (audit : String) → IsModest (demonstrate host gateway audit)
    unfolding demonstrate
    IsModest-demonstrate audit =
        search
          (modest_rules, IsModest-check_gateway, IsModest-scenarios, IsModest-print_audit_summary)
          depth 20

module _ (host : Host) where
  -- Whatever the network answers, the demonstration sends nothing but GET /health, GET
  -- /pending and POST /agent-action with one of its eight requests: it never sends a decision
  -- on a waiting request.
  pub main-IsModest : (args : Args) → IsModest (rstrip_slash args.gateway) (main host args)
  unfolding main
  main-IsModest args = IsModest-demonstrate (rstrip_slash args.gateway) host args.audit
