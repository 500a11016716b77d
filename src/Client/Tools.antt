-- ===== src/Client/Tools.antt =====
-- ai_agent_client.py: `make_langchain_tools`, and the script at the end of the file. LangChain's
-- `StructuredTool` keeps what it is given; a printed block is kept as data.
use ai_k8s_gateway.Base.{
  ℕ, String, Bool, true, false, Option, none, some, List, [], ◌∷◌, ◌++◌, if◌then◌else◌, ◌==◌,
}
use ai_k8s_gateway.Base.Int.{pos}
use ai_k8s_gateway.Value.{Value, bool, str}
use ai_k8s_gateway.Client.{
  ClientError, denied_error, Outcome, returned, raised, Request, GatewayClient, list_pods,
  list_namespaces, create_deployment, action,
}

-- The client's bound methods.
pub data Method : Type 0 where
  bound_list_pods bound_list_deployments bound_create_deployment : Method
  bound_patch_deployment bound_list_namespaces : Method

pub record StructuredTool : Type 0 where
  pub func : Method
  pub name : String
  pub description : String

-- none for the ImportError where langchain is not installed.
unfoldable pub make_langchain_tools : (installed : Bool) → Option (List StructuredTool)
make_langchain_tools false = none
make_langchain_tools true = some (
    record {
      func = bound_list_pods;
      name = "list_k8s_pods";
      description =
          "List all pods in a Kubernetes namespace. Args: namespace (str, default='default'). Returns a list of pod info dicts.";
    }
    ∷ record {
      func = bound_list_deployments;
      name = "list_k8s_deployments";
      description =
          "List all deployments in a Kubernetes namespace. Args: namespace (str). Returns a list of deployment dicts.";
    }
    ∷ record {
      func = bound_create_deployment;
      name = "create_k8s_deployment";
      description =
          "Deploy a containerised application to Kubernetes. Args: name (str), image (str — must be from trusted registry), namespace (str), replicas (int, max 10), cpu_limit (str), memory_limit (str). Raises GatewayDeniedError if the image is untrusted, namespace is kube-system, or replicas > 10.";
    }
    ∷ record {
      func = bound_patch_deployment;
      name = "patch_k8s_deployment";
      description =
          "Update an existing deployment's image or replica count. Args: name (str), namespace (str), image (str | None), replicas (int | None).";
    }
    ∷ record {
      func = bound_list_namespaces;
      name = "list_k8s_namespaces";
      description = "List all Kubernetes namespaces. No args required.";
    }
    ∷ [])

pub data Printed : Type 0 where
  token_missing : Printed
  connecting : (gateway : String) → Printed
  listed : (heading : String) (value : Value) → Printed
  created : Value → Printed
  denied : (risk_level risk_score reason : Value) → Printed
  blocked : (reason : Value) → Printed
  finished : Printed

-- How the process ends: with a status, or with an exception that the script does not catch.
pub data Ended : Type 0 where
  exited : (status : ℕ) → Ended
  crashed : ClientError → Ended

pub record Run : Type 0 where
  pub sent : List Request
  pub printed : List Printed
  pub ended : Ended

abbrev say : Printed → Run → Run
say p run = record run { printed = p ∷ run.printed }

abbrev crash : ClientError → List Request → Run
crash e sent = record { sent = sent; printed = []; ended = crashed e }

abbrev pub Rest : Type 0
Rest = List Request → Run

abbrev pub end : Rest
end sent = record { sent = sent; printed = finished ∷ []; ended = exited 0 }

-- What is printed of a value, and of a denial; any other exception ends the script.
abbrev pub report :
    (on_value : Value → List Printed) (on_denial : (reason level score : Value) → Printed)
    → Rest
    → Outcome Value × List Request
    → Run
report on_value on_denial rest (returned v, sent) =
    let run = rest sent in record run { printed = on_value v ++ run.printed }
report on_value on_denial rest (raised (denied_error reason level score), sent) =
    say (on_denial reason level score) (rest sent)
report on_value on_denial rest (raised e, sent) = crash e sent

-- A listing, with no handler around it.
abbrev show_listing : (heading : String) → Rest → Outcome Value × List Request → Run
show_listing heading rest (returned v, sent) = say (listed heading v) (rest sent)
show_listing heading rest (raised e, sent) = crash e sent

module _ (client : GatewayClient) where
  -- The raw action with the privileged container.
  unfoldable pub attempt_privileged : Rest
  attempt_privileged sent =
      report (λ v. []) (λ reason level score. blocked reason) end
        (action client "create" "deployments" "demo"
          (some (
            ("name", str "evil-priv")
            ∷ ("image", str "nginx:alpine")
            ∷ ("privileged", bool true)
            ∷ []))
          sent)

  unfoldable pub attempt_untrusted : Rest
  attempt_untrusted sent =
      report (λ v. []) (λ reason level score. blocked reason) attempt_privileged
        (create_deployment client "evil" "cryptominer:latest" "demo" (pos 1) (pos 80) "50m" "200m"
          "64Mi" "128Mi" sent)

  unfoldable pub create_trusted : Rest
  create_trusted sent =
      report (λ v. created v ∷ []) (λ reason level score. denied level score reason)
        attempt_untrusted
        (create_deployment client "demo-app" "nginx:alpine" "demo" (pos 2) (pos 80) "50m" "200m"
          "64Mi" "128Mi" sent)

  unfoldable pub list_first : Rest
  list_first sent =
      show_listing "=== Listing namespaces ==="
        (λ sent.
          show_listing "=== Listing pods in demo namespace ===" create_trusted
            (list_pods client "demo" sent))
        (list_namespaces client sent)

-- `AGENT_JWT` of the environment: none, or the empty text, for no token. `connect` builds the client.
unfoldable pub script :
    (gateway : String) (token : Option String) (connect : String → GatewayClient) → Run
script gateway none connect = record { sent = []; printed = token_missing ∷ []; ended = exited 1 }
script gateway (some token) connect =
    if token == ""
    then record { sent = []; printed = token_missing ∷ []; ended = exited 1 }
    else say (connecting gateway) (list_first (connect token) [])
