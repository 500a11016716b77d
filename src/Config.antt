-- ===== src/Config.antt =====
-- app/config.py: the settings. `defaults` is what the class declares; the environment may override
-- each of them. A negative token lifetime is left out.
use ai_k8s_gateway.Base.{ℕ, String, Bool, false, List, [], ◌∷◌}
use ai_k8s_gateway.Base.Int.{ℤ, pos}

pub record Settings : Type 0 where
  pub jwt_secret : String
  pub jwt_algorithm : String
  pub jwt_ttl_minutes : ℕ
  pub opa_url : String
  pub opa_policy_path : String
  pub audit_log_path : String
  pub k8s_in_cluster : Bool
  pub trusted_image_prefixes : List String
  pub max_replicas_threshold : ℤ

abbrev pub defaults : Settings
defaults = record {
  jwt_secret = "dev-secret-change-in-production";
  jwt_algorithm = "HS256";
  jwt_ttl_minutes = 15;
  opa_url = "http://localhost:8181";
  opa_policy_path = "v1/data/agent/authz";
  audit_log_path = "audit.log";
  k8s_in_cluster = false;
  trusted_image_prefixes =
      "nginx:" ∷ "python:" ∷ "alpine:" ∷ "busybox:" ∷ "gcr.io/" ∷ "quay.io/" ∷ "registry.k8s.io/"
      ∷ [];
  max_replicas_threshold = pos 10;
}
