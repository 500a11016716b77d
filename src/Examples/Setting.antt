-- ===== src/Examples/Setting.antt =====
-- An environment with ASCII tables, the default settings, one token, a cluster that answers with empty
-- lists, and a sidecar that runs the shipped policy.
use ai_k8s_gateway.Base.{true, none, [], if◌then◌else◌, leb, arith}
use ai_k8s_gateway.Base.Int.{pos}
use ai_k8s_gateway.Config.{defaults}
use ai_k8s_gateway.Errors.{jwt_error, connection_error, ok, raise}
use ai_k8s_gateway.Value.{null, str, int}
use ai_k8s_gateway.Text.{ascii}
use ai_k8s_gateway.Auth.{Identity, Jwt, IsLawful, TokenClaims, claims_dict, new_claims}
use ai_k8s_gateway.Opa.{policy_sidecar}
use ai_k8s_gateway.Approval
use ai_k8s_gateway.Approval.{PendingRequest}
use ai_k8s_gateway.Cluster.{Cluster, loaded, no_config, Deployment}
use ai_k8s_gateway.Gateway.{Env, World}

abbrev pub deployer : Identity
deployer = record { role = "deployer"; sub = "agent-deploy" }

-- The claims of a token of the deployer, minted at time 0.
abbrev pub claims : TokenClaims
claims = new_claims defaults 0 "j" deployer

-- Every token stands for those claims, for its 900 seconds.
abbrev pub one_token : Jwt
one_token = record {
  encode = λ c secret algorithm. "token";
  decode = λ now token secret algorithms.
      if leb now 900 then ok (claims_dict claims) else raise jwt_error;
}

pub one_token-IsLawful : IsLawful one_token claims
one_token-IsLawful = record {
  fresh = λ secret algorithm now h. ground arith;
  expired = λ secret algorithm now h. ground arith;
}

abbrev pub web : Deployment
web = record {
  name = str "web";
  namespace = str "demo";
  uid = str "u";
  replicas = int (pos 1);
  ready_replicas = null;
  images = [];
}

-- A cluster whose listings are empty; a deployment with no containers is created and patched, and
-- deletions fail to connect.
abbrev pub quiet_cluster : Cluster
quiet_cluster = record {
  incluster = no_config;
  kubeconfig = loaded;
  rejects = λ body. none;
  list_namespaced_pod = λ t n. ok [];
  read_namespaced_pod = λ t p n. raise connection_error;
  delete_namespaced_pod = λ t p n. raise connection_error;
  list_namespaced_deployment = λ t n. ok [];
  read_namespaced_deployment = λ t d n. ok web;
  create_namespaced_deployment = λ t n b. ok web;
  patch_namespaced_deployment = λ t d n b. ok web;
  delete_namespaced_deployment = λ t d n. raise connection_error;
  list_namespaced_secret = λ t n. ok [];
  list_namespace = λ t. ok [];
  list_namespaced_config_map = λ t n. ok [];
}

abbrev pub env : Env
env = record {
  py = ascii;
  settings = defaults;
  jwt = one_token;
  cluster = quiet_cluster;
  opa = λ tick. policy_sidecar (λ r. "reason") [];
  seconds = λ tick. tick;
  isoformat = λ tick. "now";
  uuid = λ tick. "id";
  writable = λ tick. true;
}

abbrev pub start : World
start = record {
  tick = 0;
  queue = Approval.init;
  audit = record { lines = []; warnings = [] };
  trace = [];
}
