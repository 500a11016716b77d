-- ===== src/Examples/Demos.antt =====
-- The demonstration at a concrete host, and its attacks at a concrete gateway.
use ai_k8s_gateway.Base.{suc, ◌≡◌, refl, none, some, Option, if◌then◌else◌, ◌==◌, [], All}
use ai_k8s_gateway.Config.{defaults}
use ai_k8s_gateway.Errors.{Exception, type_error, value_error, ok}
use ai_k8s_gateway.Value.{Value, null, str, dict}
use ai_k8s_gateway.Text.{ascii}
use ai_k8s_gateway.Auth.{verify_token, claims_dict}
use ai_k8s_gateway.Gateway.{agent_action}
use ai_k8s_gateway.Demo.{Host, Printed, decision}
use ai_k8s_gateway.Demo.Main.{main, rstrip_slash}
use ai_k8s_gateway.Demo.Modesty.{IsModest, main-IsModest}
use ai_k8s_gateway.Demo.Attacks.{expected_blocks, agent_action-blocks}
use ai_k8s_gateway.Enforcement.Denials.{IsDenied}
use ai_k8s_gateway.Examples.Setting.{env, start, claims, one_token}

start_accepted :
    verify_token env.jwt env.settings (env.seconds (suc start.tick)) "token"
    ≡ ok (claims_dict claims)
unfolding verify_token
start_accepted = refl

agent_action-blocks_example :
    All
      (λ body.
        IsDenied env
          (λ r. "reason")
          "token"
          start
          (claims_dict claims)
          body
          (agent_action env "token" body start))
      expected_blocks
agent_action-blocks_example =
    agent_action-blocks env (λ r. "reason") "token" start (claims_dict claims) start_accepted []
      (λ tick url input. refl)

-- A rich that stumbles over one closing tag, and renders texts and None in cells.
abbrev markup_error : Printed → Option Exception
markup_error (decision colour text) = if text == "[/X]" then some value_error else none
markup_error _ = none

abbrev cell_error : Value → Option Exception
cell_error (str s) = none
cell_error null = none
cell_error _ = some type_error

-- Every request is answered with status 200 and an empty object.
abbrev demo_host : Host
demo_host = record {
  py = ascii;
  upper = λ s. s;
  jwt = one_token;
  settings = defaults;
  seconds = λ tick. tick;
  uuid = λ tick. "id";
  network = λ sent r. some (record { status_code = 200; json = ok (dict []) });
  audit_file = λ tick path. none;
  loads = λ line. none;
  rich = markup_error;
  cell = cell_error;
}

main-IsModest_example :
    IsModest
      (rstrip_slash "http://localhost:8000/")
      (main demo_host (record { gateway = "http://localhost:8000/"; audit = "audit.log" }))
main-IsModest_example =
    main-IsModest demo_host (record { gateway = "http://localhost:8000/"; audit = "audit.log" })
