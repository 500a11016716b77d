-- ===== src/Demo/Progress/Scenes.antt =====
-- demo/agent_client.py: the four scenarios, as steps that end in no exception but a RequestError.
use ai_k8s_gateway.Base.{
  String, none, [], ◌≡◌, refl, if◌then◌else◌, eqb, inl, inr, Bool-cases, arith, lookup,
}
use ai_k8s_gateway.Errors.{ok}
use ai_k8s_gateway.Value.{Value, str, dict}
use ai_k8s_gateway.Opa.{get_field}
use ai_k8s_gateway.Gateway.{AgentActionRequest}
use ai_k8s_gateway.Client.{Response}
use ai_k8s_gateway.Demo.{unexpected, Host, print, sliced, blocked}
use ai_k8s_gateway.Demo.Scenarios.{
  scenario_1_low_risk, scenario_2_medium_risk, scenario_3_high_risk, show_block, attack,
  scenario_4_malicious_pod, list_pods, readonly_create, create_app, system_create, system_delete,
  privileged_create, miner_create, many_replicas,
}
use ai_k8s_gateway.Demo.Progress.{Ensures, Any, Ensures-lift, Ensures->>=, IsReadable, IsPolite}
use ai_k8s_gateway.Demo.Progress.Helpers.{
  Ensures-get_pending, Ensures-mint, Ensures-own, Ensures-print, Ensures-print_audit_tail,
  Ensures-print_response, Ensures-show_decision, Ensures-shown, ended, verdict-IsOwn,
}

module _ (host : Host) (polite : IsPolite host) (gateway : String) where
  pub Ensures-scenario_1 : Ensures Any (scenario_1_low_risk host gateway)
  unfolding scenario_1_low_risk lookup
  Ensures-scenario_1 =
      Ensures->>= Any Any _ _ (Ensures-mint host polite "agent-readonly" _ refl) (λ token u.
        Ensures-shown host polite gateway token list_pods _ _ (λ resp h.
          Ensures->>= Any Any _ _ (Ensures-show_decision host polite gateway _ resp h) (λ v u.
            Ensures-shown host polite gateway token readonly_create _ _
              (λ resp h. ended host polite))))

  pub Ensures-scenario_2 : Ensures Any (scenario_2_medium_risk host gateway)
  unfolding scenario_2_medium_risk lookup
  Ensures-scenario_2 =
      Ensures->>= Any Any _ _ (Ensures-mint host polite "agent-deploy" _ refl) (λ token u.
        Ensures-shown host polite gateway token create_app _ _ (λ resp h.
          Ensures->>= Any Any _ _ (Ensures-show_decision host polite gateway _ resp h) (λ v u.
            Ensures-shown host polite gateway token system_create _ _
              (λ resp h. ended host polite))))

  pub Ensures-scenario_3 : Ensures Any (scenario_3_high_risk host gateway)
  unfolding scenario_3_high_risk lookup
  Ensures-scenario_3 =
      Ensures->>= Any Any _ _ (Ensures-mint host polite "agent-deploy" _ refl) (λ token u.
        Ensures-shown host polite gateway token system_delete _ _ (λ resp h.
          Ensures->>= Any Any _ _ (Ensures-own host polite _ (verdict-IsOwn host polite _)) (λ v u.
            Ensures->>= Any Any _ _ (Ensures-print_audit_tail host polite "audit.log" 1) (λ v u.
              Ensures->>= (IsReadable host) Any _ _ (Ensures-get_pending host polite gateway token)
                (λ resp h.
                  Ensures->>= _ Any _ _ (Ensures-print_response host polite resp _ h)
                    (λ body u. ended host polite))))))

  Ensures-show_block :
      (body detail why shown : Value)
      → get_field (dict []) "detail" body ≡ ok detail
      → get_field (str "") "reason" detail ≡ ok why
      → sliced 120 why ≡ ok shown
      → host.rich (blocked shown) ≡ none
      → Ensures Any (show_block host gateway body)
  unfolding show_block
  Ensures-show_block body detail why shown detailed reasoned cut printable =
      Ensures->>= (λ d. d ≡ detail) Any _ _ (Ensures-lift _ _ _ detailed refl)
        (λ d same. rw same (
          Ensures->>= (λ r. r ≡ why) Any _ _ (Ensures-lift _ _ _ reasoned refl)
            (λ r same. rw same (
              Ensures->>= (λ v. v ≡ shown) Any _ _ (Ensures-lift _ _ _ cut refl)
                (λ v same. rw same (Ensures-print host polite _ printable))))))

  Ensures-verdict :
      (resp : Response) (h : IsReadable host resp)
      → Ensures Any (
          if eqb resp.status_code 403
          then show_block host gateway h.body
          else print host (unexpected resp.status_code))
  Ensures-verdict resp h = elim (Bool-cases (eqb resp.status_code 403)) [
    | inl denied ↦
        let (detail, why, shown, detailed, reasoned, cut, printable) = h.reasoned (ground arith) in
        rw denied (Ensures-show_block h.body detail why shown detailed reasoned cut printable)
    | inr other ↦ rw other (Ensures-own host polite _ tt)
  ]

  Ensures-attack :
      (token label : String) (body : AgentActionRequest)
      → Ensures Any (attack host gateway token body label)
  unfolding attack
  Ensures-attack token label body =
      Ensures-shown host polite gateway token body label _ Ensures-verdict

  pub Ensures-scenario_4 : Ensures Any (scenario_4_malicious_pod host gateway)
  unfolding scenario_4_malicious_pod lookup
  Ensures-scenario_4 =
      Ensures->>= Any Any _ _ (Ensures-mint host polite "agent-deploy" _ refl) (λ token u.
        Ensures->>= Any Any _ _ (Ensures-attack token _ privileged_create) (λ v u.
          Ensures->>= Any Any _ _ (Ensures-attack token _ miner_create) (λ v u.
            Ensures->>= Any Any _ _ (Ensures-attack token _ many_replicas)
              (λ v u. Ensures-print_audit_tail host polite "audit.log" 3))))
