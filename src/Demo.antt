-- ===== src/Demo.antt =====
-- demo/agent_client.py: the helpers of the demonstration; its scenarios are in Demo/Scenarios, and
-- `main` in Demo/Main. `httpx`, the audit file, the clock and json.loads are parameters. A printed block is kept
-- with what it shows of the answers; fixed texts, pauses and timeouts are left out.
pub mod Scenarios
pub mod Main
pub mod Modesty
pub mod Attacks
pub mod Progress
pub mod Completion
use Prim.Native.String as Native
use Prim.Native.String.{◌++◌ as ◌<>◌}
use ai_k8s_gateway.Base.{
  ℕ, zero, suc, ◌-◌, String, Bool, true, false, Option, none, some, List, [], ◌∷◌, ◌++◌, eqb, ltb,
  length, if◌then◌else◌, ◌==◌,
}
use ai_k8s_gateway.Config.{Settings}
use ai_k8s_gateway.Errors.{Exception, attribute_error, type_error, Result, ok, raise}
use ai_k8s_gateway.Value.{Value, null, bool, str, arr, Items, nil, cons, Params, dict}
use ai_k8s_gateway.Text.{Python}
use ai_k8s_gateway.Auth.{Jwt, create_token}
use ai_k8s_gateway.Gateway.{AgentActionRequest}
use ai_k8s_gateway.Client.{Response, payload_of}

pub data Request : Type 0 where
  get : (url : String) (token : Option String) → Request
  post : (url token : String) (json : Value) → Request

pub data Colour : Type 0 where
  green yellow red white : Colour

-- A row of the summary; the cells are what rich is given.
pub record Row : Type 0 where
  pub timestamp : Value
  pub cells : List Value
  pub risk_score : String
  pub colour : Colour
  pub decision : Value

pub data Printed : Type 0 where
  response : Colour → (code : ℕ) (label : String) (body : Value) → Printed
  decision : Colour → (text : String) → Printed
  blocked : (reason : Value) → Printed
  unexpected : (code : ℕ) → Printed
  correctly_blocked enforcement_suspect : Printed
  audit_entry : (record_ : Value) → Printed
  malformed_entry : (line : String) → Printed
  audit_missing : (path : String) → Printed
  summary : (total : ℕ) → List Row → Printed
  checking gateway_up gateway_unreachable : (gateway : String) → Printed
  network_failed : (scenario : String) → Printed
  complete : Printed

-- What the script uses of its surroundings. `audit_file` is none where the path does not exist, and the
-- lines at that time otherwise; `loads` is none where json.loads raises a JSONDecodeError. `rich` and
-- `cell` are what printing a block and adding a cell to a table raise, and none where they do not: a text is
-- read as markup, which may be malformed, and a cell must be one that rich can render.
pub record Host : Type 0 where
  pub py : Python
  pub upper : String → String
  pub jwt : Jwt
  pub settings : Settings
  pub seconds : ℕ → ℕ
  pub uuid : ℕ → String
  pub network : List Request → Request → Option Response
  pub audit_file : ℕ → String → Option (List String)
  pub loads : String → Option Value
  pub rich : Printed → Option Exception
  pub cell : Value → Option Exception

pub record Session : Type 0 where
  pub tick : ℕ
  pub sent : List Request
  pub printed : List Printed

-- A RequestError is told from the other exceptions, since `main` catches it.
pub data Outcome (A : Type 0) : Type 0 where
  returned : A → Outcome A
  network_error : Outcome A
  raised : Exception → Outcome A

abbrev pub Demo : Type 0 → Type 0
Demo A = Session → Outcome A × Session

abbrev pub resume : {A B : Type 0} → Outcome A → (A → Demo B) → Demo B
resume (returned a) f s = f a s
resume network_error f s = (network_error, s)
resume (raised e) f s = (raised e, s)

infixl 5 ◌>>=◌ ◌>>◌
unfoldable pub ◌>>=◌ : {A B : Type 0} → Demo A → (A → Demo B) → Demo B
◌>>=◌ m f s = let (o, s') = m s in resume o f s'

abbrev pub ◌>>◌ : {A B : Type 0} → Demo A → Demo B → Demo B
m >> n = m >>= λ _. n

abbrev of_result : {A : Type 0} → Result A → Outcome A
of_result (ok a) = returned a
of_result (raise e) = raised e

unfoldable pub lift : {A : Type 0} → Result A → Demo A
lift r s = (of_result r, s)

-- The first `n` characters of a text.
abbrev take_text : ℕ → String → String
take_text zero s = ""
take_text (suc n) Native.[] = ""
take_text (suc n) (Native.◌∷◌ c s) = Native.◌∷◌ c (take_text n s)

abbrev take_items : ℕ → Items → Items
take_items zero vs = nil
take_items (suc n) nil = nil
take_items (suc n) (cons v vs) = cons v (take_items n vs)

-- `v[:n]`
unfoldable pub sliced : ℕ → Value → Result Value
sliced n (str s) = ok (str (take_text n s))
sliced n (arr vs) = ok (arr (take_items n vs))
sliced n _ = raise type_error

-- `lines[-n:]`, for an n from 1 on.
abbrev drop : {A : Type 0} → ℕ → List A → List A
drop zero xs = xs
drop (suc n) [] = []
drop (suc n) (x ∷ xs) = drop n xs

abbrev pub last_lines : ℕ → List String → List String
last_lines n lines = drop (length lines - n) lines

abbrev pub answer_of : Option Response → Outcome Response
answer_of none = network_error
answer_of (some resp) = returned resp

unfoldable pub colour_of : (code : ℕ) → Colour
colour_of code = if ltb code 300 then green else if ltb code 500 then yellow else red

-- A block is printed, or rich raises.
abbrev pub printed_unless : Option Exception → Printed → Demo Unit
printed_unless none p s = (returned tt, record s { printed = s.printed ++ p ∷ [] })
printed_unless (some e) p s = (raised e, s)

module _ (host : Host) where
  unfoldable pub print : Printed → Demo Unit
  print p = printed_unless (host.rich p) p

  unfoldable pub send : Request → Demo Response
  send r s = (answer_of (host.network s.sent r), record s { sent = s.sent ++ r ∷ [] })

  unfoldable pub mint : (agent_id : String) → Demo String
  mint agent_id s = (
    of_result
        (create_token host.jwt host.settings (host.seconds s.tick) (host.uuid s.tick) agent_id),
    record s { tick = suc s.tick },
  )

  -- The arguments after the token are a request's fields.
  unfoldable pub post_action : (gateway token : String) → AgentActionRequest → Demo Response
  post_action gateway token body = send (
      post (gateway <> "/agent-action") token
        (payload_of body.action body.resource body.namespace (some body.params)))

  unfoldable pub get_pending : (gateway token : String) → Demo Response
  get_pending gateway token = send (get (gateway <> "/pending") (some token))

  unfoldable pub approve : (gateway token request_id : String) (approved : Bool) → Demo Response
  approve gateway token request_id approved = send (
      post (gateway <> "/approve/" <> request_id) token (
        dict (
          ("approved", bool approved)
          ∷ ("reason", str "Demo: operator approved high-risk action.")
          ∷ [])))

  unfoldable pub print_response : Response → (label : String) → Demo Value
  print_response resp label = do
    body ← lift resp.json
    print (response (colour_of resp.status_code) resp.status_code label body)
    lift (ok body)

  abbrev pub entry_of : String → Option Value → Printed
  entry_of line none = malformed_entry line
  entry_of line (some v) = audit_entry v

  unfoldable pub print_entries : List String → Demo Unit
  print_entries [] = lift (ok tt)
  print_entries (line ∷ lines) = print (entry_of line (host.loads line)) >> print_entries lines

  unfoldable pub print_tail : (audit_path : String) (n : ℕ) → Option (List String) → Demo Unit
  print_tail audit_path n none = print (audit_missing audit_path)
  print_tail audit_path n (some lines) = print_entries (last_lines n lines)

  unfoldable pub print_audit_tail : (audit_path : String) (n : ℕ) → Demo Unit
  unfolding print_tail
  print_audit_tail audit_path n s =
      print_tail audit_path n (host.audit_file s.tick audit_path) (record s { tick = suc s.tick })

  abbrev pub reached : Outcome Response → Bool
  reached (returned resp) = eqb resp.status_code 200
  reached _ = false

  unfoldable pub check_gateway : (gateway : String) → Demo Bool
  check_gateway gateway s =
      let (o, s') = send (get (gateway <> "/health") none) s in (returned (reached o), s')
