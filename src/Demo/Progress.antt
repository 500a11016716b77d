-- ===== src/Demo/Progress.antt =====
-- demo/agent_client.py: steps that end in no exception but a RequestError, and what that asks of the answers,
-- of the audit file and of rich.
pub mod Helpers
pub mod Scenes
use ai_k8s_gateway.Base.{
  ℕ, String, Option, none, some, List, [], ◌∷◌, ◌≡◌, refl, if◌then◌else◌, eqb, ◌⊎◌, inl, inr, Bool,
  true, false, length, Bool-cases, arith, lookup,
}
use ai_k8s_gateway.Errors.{Exception, Result, ok}
use ai_k8s_gateway.Value.{Value, str, dict}
use ai_k8s_gateway.Opa.{get_field}
use ai_k8s_gateway.Auth.{agent_identities, Identity}
use ai_k8s_gateway.Auth.Laws.{create_token-known}
use ai_k8s_gateway.Gateway.{AgentActionRequest}
use ai_k8s_gateway.Client.{Response}
use ai_k8s_gateway.Demo.{
  Request, unexpected, Colour, Printed, Host, Session, Outcome, returned, network_error, raised,
  Demo, resume, ◌>>=◌, lift, print, send, mint, post_action, get_pending, print_response,
  print_entries, print_audit_tail, print_tail, last_lines, answer_of, sliced, Row,
  decision as decision_block, blocked, summary, printed_unless, entry_of, correctly_blocked,
  enforcement_suspect,
}
use ai_k8s_gateway.Demo.Scenarios.{
  decision_line, show_decision, scenario_1_low_risk, scenario_2_medium_risk, scenario_3_high_risk,
  show_block, attack, scenario_4_malicious_pod, list_pods, readonly_create, create_app,
  system_create, system_delete, privileged_create, miner_create, many_replicas,
}
use ai_k8s_gateway.Demo.Main.{skipped, read, row_of, rows_of}

-- A value with that property, or a RequestError.
pub data Ends {A : Type 0} (P : A → Type 0) : Outcome A → Type 0 where
  ends : (a : A) → P a → Ends P (returned a)
  cut_off : Ends P network_error

pub record Ensures {A : Type 0} (P : A → Type 0) (m : Demo A) : Type 0 where
  pub at : (s : Session) → Ends P (m s).0

abbrev pub Any : {A : Type 0} → A → Type 0
Any a = Unit

module _ {A : Type 0} (P : A → Type 0) where
  pub Ensures-lift : (r : Result A) (a : A) → r ≡ ok a → P a → Ensures P (lift r)
  unfolding lift
  Ensures-lift r a e h = record { at = λ s. rw e (ends a h) }

  pub resumed :
      {B : Type 0} (Q : B → Type 0) (o : Outcome A) (f : A → Demo B) (s : Session)
      → Ends P o
      → ((a : A) → P a → Ensures Q (f a))
      → Ends Q (resume o f s).0
  resumed Q (returned a) f s (ends _ h) k = (k a h).at s
  resumed Q network_error f s cut_off k = cut_off
  resumed Q (raised _) f s h k = elim h [ ]

  pub Ensures->>= :
      {B : Type 0} (Q : B → Type 0) (m : Demo A) (f : A → Demo B)
      → Ensures P m
      → ((a : A) → P a → Ensures Q (f a))
      → Ensures Q (m >>= f)
  unfolding ◌>>=◌
  Ensures->>= Q m f h k = record { at = λ s. resumed Q (m s).0 f (m s).1 (h.at s) k }

-- A JSON object whose fields the scenarios can show, as texts that rich can print.
pub record IsReadable (host : Host) (resp : Response) : Type 0 where
  pub body : Value
  pub json : resp.json ≡ ok body
  pub told : String
  pub decision : get_field (str "?") "decision" body ≡ ok (str told)
  pub decision_shown : (c : Colour) → host.rich (decision_block c (host.upper told)) ≡ none
  pub reasoned :
      resp.status_code ≡ 403
      → (detail : Value) × (why : Value) × (shown : Value) × (get_field (dict []) "detail" body
          ≡ ok detail)
        × (get_field (str "") "reason" detail ≡ ok why)
        × (sliced 120 why ≡ ok shown)
        × (host.rich (blocked shown) ≡ none)

-- The blocks that show neither a decision nor a reason nor the rows of the audit file.
abbrev pub IsOwn : Printed → Type 0
IsOwn (decision_block colour text) = ⊥
IsOwn (blocked reason) = ⊥
IsOwn (summary total rows) = ⊥
IsOwn _ = Unit

-- Whatever is answered is readable; whatever line of the audit file is JSON makes a row, or lacks some
-- column; and rich prints the table and the script's other blocks.
pub record IsPolite (host : Host) : Type 0 where
  pub answers :
      (sent : List Request) (r : Request) (resp : Response)
      → host.network sent r ≡ some resp
      → IsReadable host resp
  pub tabular :
      (line : String) (v : Value)
      → host.loads line ≡ some v
      → (row_of host v ≡ skipped) ⊎ ((row : Row) × (row_of host v ≡ read row))
  pub tables :
      (lines : List String) (rows : List Row)
      → rows_of host lines ≡ ok rows
      → host.rich (summary (length lines) rows) ≡ none
  pub prints : (p : Printed) → IsOwn p → host.rich p ≡ none
