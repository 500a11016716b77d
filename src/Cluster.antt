-- ===== src/Cluster.antt =====
-- The Kubernetes SDK as app/k8s/client.py uses it: the objects that it sends and receives, the calls,
-- and programs that make calls. The API server is a parameter: what a call returns may depend on all
-- calls before it.
pub mod Calls
use ai_k8s_gateway.Base.{ℕ, String, Bool, Option, List, [], ◌∷◌, ◌++◌}
use ai_k8s_gateway.Base.Int.{ℤ}
use ai_k8s_gateway.Errors.{Exception, Result, ok, raise}
use ai_k8s_gateway.Value.{Value}

-- The fields of V1Pod and V1Deployment that are read.
pub record Pod : Type 0 where
  pub name : Value
  pub namespace : Value
  pub phase : Value
  pub node_name : Value

pub record Deployment : Type 0 where
  pub name : Value
  pub namespace : Value
  pub uid : Value
  pub replicas : Value
  pub ready_replicas : Value
  pub images : List Value

-- V1ResourceRequirements, V1Container, and the V1Deployment that is sent.
pub record Resources : Type 0 where
  pub requests : List (String × Value)
  pub limits : List (String × Value)

pub record Container : Type 0 where
  pub name : Value
  pub image : Value
  pub container_port : ℤ
  pub resources : Resources
  pub privileged : Bool
  pub allow_privilege_escalation : Bool

pub record DeploymentBody : Type 0 where
  pub api_version : String
  pub kind : String
  pub name : Value
  pub labels : List (String × Value)
  pub replicas : ℤ
  pub selector : List (String × Value)
  pub template_labels : List (String × Value)
  pub run_as_non_root : Bool
  pub run_as_user : ℕ
  pub containers : List Container

pub data ApiCall : Type 0 where
  list_pods : (namespace : String) → ApiCall
  read_pod delete_pod : (name namespace : String) → ApiCall
  list_deployments : (namespace : String) → ApiCall
  read_deployment delete_deployment : (name namespace : String) → ApiCall
  create_deployment : (namespace : String) → DeploymentBody → ApiCall
  patch_deployment : (name namespace : String) → DeploymentBody → ApiCall
  list_secrets : (namespace : String) → ApiCall
  list_namespaces : ApiCall
  list_config_maps : (namespace : String) → ApiCall

abbrev pub Trace : Type 0
Trace = List ApiCall

-- What a configuration loader does: it loads, raises ConfigException, or raises another exception.
pub data Loading : Type 0 where
  loaded no_config : Loading
  failing : Exception → Loading

-- `incluster` and `kubeconfig`: what the loaders of the two configuration sources do. `rejects`: the exception that
-- the constructors of the SDK's classes raise on a body. The other fields are the server's replies.
-- A listing of secrets returns their names (`metadata.name`) beside what else they hold.
pub record Cluster : Type 0 where
  pub incluster : Loading
  pub kubeconfig : Loading
  pub rejects : DeploymentBody → Option Exception
  pub list_namespaced_pod : Trace → String → Result (List Pod)
  pub read_namespaced_pod : Trace → String → String → Result Pod
  pub delete_namespaced_pod : Trace → String → String → Result (Unit {0})
  pub list_namespaced_deployment : Trace → String → Result (List Deployment)
  pub read_namespaced_deployment : Trace → String → String → Result Deployment
  pub create_namespaced_deployment : Trace → String → DeploymentBody → Result Deployment
  pub patch_namespaced_deployment : Trace → String → String → DeploymentBody → Result Deployment
  pub delete_namespaced_deployment : Trace → String → String → Result (Unit {0})
  pub list_namespaced_secret : Trace → String → Result (List (Value × Value))
  pub list_namespace : Trace → Result (List Value)
  pub list_namespaced_config_map : Trace → String → Result (List Value)

-- A program that may make calls and may raise; the calls made stay made.
abbrev pub K8s : Type 0 → Type 0
K8s A = Trace → Result A × Trace

abbrev pub continue : {A B : Type 0} → Result A → (A → K8s B) → K8s B
continue (ok a) f t = f a t
continue (raise e) f t = (raise e, t)

infixl 5 ◌>>=◌ ◌>>◌
unfoldable pub ◌>>=◌ : {A B : Type 0} → K8s A → (A → K8s B) → K8s B
◌>>=◌ m f t = let (r, t') = m t in continue r f t'

abbrev pub ◌>>◌ : {A B : Type 0} → K8s A → K8s B → K8s B
m >> n = m >>= λ _. n

unfoldable pub lift : {A : Type 0} → Result A → K8s A
lift r t = (r, t)

-- One call of the server.
unfoldable pub call : {A : Type 0} → ApiCall → (Trace → Result A) → K8s A
call c reply t = (reply t, t ++ c ∷ [])
