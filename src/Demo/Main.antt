-- ===== src/Demo/Main.antt =====
-- demo/agent_client.py: the summary of the audit log, and `main`.
use Prim.Native.String as Native
use Prim.Native.String.{◌++◌ as ◌<>◌}
use ai_k8s_gateway.Base.{
  ℕ, suc, String, ◌&&◌, Option, none, some, List, [], ◌∷◌, length, if◌then◌else◌, ◌==◌, lookup,
}
use ai_k8s_gateway.Errors.{Exception, type_error, Result, ok, raise}
use ai_k8s_gateway.Value.{Value, str, obj, arr, fields}
use ai_k8s_gateway.Text.{str_of}
use ai_k8s_gateway.Demo.{
  Colour, green, yellow, red, white, Row, audit_missing, summary, checking, gateway_up,
  gateway_unreachable, network_failed, complete, Host, Outcome, network_error, Demo, ◌>>=◌, ◌>>◌,
  lift, print, sliced, check_gateway,
}
use ai_k8s_gateway.Demo.Scenarios.{
  scenario_1_low_risk, scenario_2_medium_risk, scenario_3_high_risk, scenario_4_malicious_pod,
}

-- The two options.
pub record Args : Type 0 where
  pub gateway : String
  pub audit : String

-- A row is built, or skipped on a KeyError or a JSONDecodeError, or another exception is raised.
pub data Reading (A : Type 0) : Type 0 where
  read : A → Reading A
  skipped : Reading A
  failed : Exception → Reading A

infixl 5 ◌>>=ʳ◌
abbrev ◌>>=ʳ◌ : {A B : Type 0} → Reading A → (A → Reading B) → Reading B
read a >>=ʳ f = f a
skipped >>=ʳ f = skipped
failed e >>=ʳ f = failed e

abbrev of_option : {A : Type 0} → Option A → Reading A
of_option none = skipped
of_option (some a) = read a

abbrev of_result : {A : Type 0} → Result A → Reading A
of_result (ok a) = read a
of_result (raise e) = failed e

-- `r[key]`
abbrev item : String → Value → Reading Value
item key (obj fs) = of_option (lookup key (fields fs))
item key _ = failed type_error

-- The colour of a decision: a list and a dict are no keys of a dict.
unfoldable pub decision_colour : Value → Reading Colour
decision_colour (str s) = read (
    if s == "allow"
    then green
    else if s == "deny"
    then red
    else if s == "pending-approval"
    then yellow
    else if s == "human-allow"
    then green
    else if s == "human-deny"
    then red
    else white)
decision_colour (obj _) = failed type_error
decision_colour (arr _) = failed type_error
decision_colour _ = read white

-- `text.rstrip("/")`
abbrev pub rstrip_slash : String → String
rstrip_slash Native.[] = Native.[]
rstrip_slash (Native.◌∷◌ c s) =
    let rest = rstrip_slash s in
    if rest == "" && Native.◌∷◌ c "" == "/" then "" else Native.◌∷◌ c rest

module _ (host : Host) where
  abbrev cell_unless : Option Exception → Reading Unit
  cell_unless none = read tt
  cell_unless (some e) = failed e

  -- `table.add_row` reads its cells in order; the last two are texts of the script's own.
  unfoldable pub added : List Value → Reading Unit
  added [] = read tt
  added (v ∷ vs) = let rest = added vs in cell_unless (host.cell v) >>=ʳ λ _. rest

  unfoldable pub row_of : Value → Reading Row
  row_of r = item "decision" r >>=ʳ λ decision. decision_colour decision >>=ʳ λ colour.
      item "timestamp" r >>=ʳ λ timestamp. of_result (sliced 19 timestamp) >>=ʳ λ time.
      item "identity" r >>=ʳ λ identity. item "action" r >>=ʳ λ action.
      item "resource" r >>=ʳ λ resource. item "namespace" r >>=ʳ λ namespace.
      item "risk_level" r >>=ʳ λ risk_level. item "risk_score" r >>=ʳ λ risk_score.
      added (time ∷ identity ∷ action ∷ resource ∷ namespace ∷ risk_level ∷ []) >>=ʳ λ _.
      read (record {
        timestamp = time;
        cells = identity ∷ action ∷ resource ∷ namespace ∷ risk_level ∷ [];
        risk_score = str_of host.py risk_score;
        colour = colour;
        decision = decision;
      })

  abbrev add_row : Reading Row → Result (List Row) → Result (List Row)
  add_row (read row) (ok rows) = ok (row ∷ rows)
  add_row (read row) (raise e) = raise e
  add_row skipped rows = rows
  add_row (failed e) rows = raise e

  unfoldable pub rows_of : List String → Result (List Row)
  rows_of [] = ok []
  rows_of (line ∷ lines) = add_row (of_option (host.loads line) >>=ʳ row_of) (rows_of lines)

  unfoldable pub summarise : (audit_path : String) → Option (List String) → Demo Unit
  summarise audit_path none = print host (audit_missing audit_path)
  summarise audit_path (some lines) = do
    rows ← lift (rows_of lines)
    print host (summary (length lines) rows)

  unfoldable pub print_audit_summary : (audit_path : String) → Demo Unit
  unfolding summarise
  print_audit_summary audit_path s =
      summarise audit_path (host.audit_file s.tick audit_path) (record s { tick = suc s.tick })

  -- The handler of RequestError around a scenario.
  abbrev pub caught : (name : String) → Outcome Unit → Demo Unit
  caught name network_error s = print host (network_failed name) s
  caught name o s = (o, s)

  unfoldable pub attempt : (name : String) → Demo Unit → Demo Unit
  attempt name scenario s = let (o, s') = scenario s in caught name o s'

  unfoldable pub run_all : List (String × Demo Unit) → Demo Unit
  run_all [] = lift (ok tt)
  run_all ((name, scenario) ∷ rest) = attempt name scenario >> run_all rest

  abbrev pub scenarios : (gateway : String) → List (String × Demo Unit)
  scenarios gateway =
      ("Low-risk scenario", scenario_1_low_risk host gateway)
      ∷ ("Medium-risk scenario", scenario_2_medium_risk host gateway)
      ∷ ("High-risk + approval scenario", scenario_3_high_risk host gateway)
      ∷ ("Malicious pod attack scenario (v2)", scenario_4_malicious_pod host gateway)
      ∷ []

  -- From the preflight on; the value is the exit status.
  unfoldable pub demonstrate : (gateway audit : String) → Demo ℕ
  demonstrate gateway audit = do
    print host (checking gateway)
    up ← check_gateway host gateway
    if up
        then (do
          print host (gateway_up gateway)
          run_all (scenarios gateway)
          print_audit_summary audit
          print host complete
          lift (ok 0))
        else (do print host (gateway_unreachable gateway); lift (ok 1))

  unfoldable pub main : Args → Demo ℕ
  main args = demonstrate (rstrip_slash args.gateway) args.audit
