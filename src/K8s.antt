-- ===== src/K8s.antt =====
-- app/k8s/client.py: the dispatch table from an action and a resource to one SDK call.
pub mod Surface
use ai_k8s_gateway.Base.{
  ℕ, String, Bool, true, false, not, ◌||◌, Option, none, some, List, [], ◌∷◌, map, if◌then◌else◌,
  ◌==◌, contains,
}
use ai_k8s_gateway.Base.Int.{ℤ, pos}
use ai_k8s_gateway.Errors.{
  Exception, value_error, index_error, unavailable, api_exception, action_error, Result, ok, raise,
}
use ai_k8s_gateway.Value.{Value, bool, int, str, arr, items, dict, Params, get_or, truthy}
use ai_k8s_gateway.Text.{Python, strip, normal, str_of, int_of}
use ai_k8s_gateway.Cluster.{
  Pod, Deployment, Resources, Container, DeploymentBody, list_pods, read_pod, delete_pod,
  list_deployments, read_deployment, delete_deployment, create_deployment, patch_deployment,
  list_secrets, list_namespaces, list_config_maps, Loading, loaded, no_config, failing, Cluster,
  K8s, ◌>>=◌, ◌>>◌, lift, call,
}

-- `x or 0`
abbrev or_zero : Value → Value
or_zero v = if truthy v then v else int (pos 0)

abbrev pod_row : Pod → Value
pod_row p = dict (("name", p.name) ∷ ("phase", p.phase) ∷ [])

abbrev deployment_row : Deployment → Value
deployment_row d =
    dict (("name", d.name) ∷ ("replicas", d.replicas) ∷ ("ready", or_zero d.ready_replicas) ∷ [])

abbrev deleted : String → String → Value
deleted name namespace = dict (("deleted", str name) ∷ ("namespace", str namespace) ∷ [])

-- `containers[0].image`
unfoldable pub first_image : List Value → Result Value
first_image [] = raise index_error
first_image (image ∷ _) = ok image

-- `_build_deployment` once the two numbers are read.
unfoldable pub deployment_of : Params → (replicas port : ℤ) → DeploymentBody
deployment_of params replicas port =
    let name = get_or (str "gateway-managed-app") "name" params in
    record {
      api_version = "apps/v1";
      kind = "Deployment";
      name = name;
      labels = ("managed-by", str "ai-k8s-gateway") ∷ [];
      replicas = replicas;
      selector = ("app", name) ∷ [];
      template_labels = ("app", name) ∷ ("managed-by", str "ai-k8s-gateway") ∷ [];
      run_as_non_root = true;
      run_as_user = 65534;
      containers =
          record {
            name = name;
            image = get_or (str "nginx:alpine") "image" params;
            container_port = port;
            resources = record {
              requests =
                  ("cpu", get_or (str "50m") "cpu_request" params)
                  ∷ ("memory", get_or (str "64Mi") "memory_request" params)
                  ∷ [];
              limits =
                  ("cpu", get_or (str "200m") "cpu_limit" params)
                  ∷ ("memory", get_or (str "128Mi") "memory_limit" params)
                  ∷ [];
            };
            privileged = false;
            allow_privilege_escalation = false;
          }
          ∷ [];
    }

unfoldable pub accepted : Option Exception → DeploymentBody → Result DeploymentBody
accepted none body = ok body
accepted (some e) body = raise e

-- `except ApiException`
unfoldable pub wrap_api : Result Value → Result Value
wrap_api (raise (api_exception status reason)) = raise (action_error status reason)
wrap_api r = r

unfoldable pub require_param : Python → Params → String → Result String
require_param py params key =
    let value = get_or (str "") key params in
    if truthy value then ok (str_of py value) else raise value_error

module _ (py : Python) (cluster : Cluster) where
  abbrev load_kubeconfig : Loading → Result (Unit {0})
  load_kubeconfig loaded = ok tt
  load_kubeconfig no_config = raise unavailable
  load_kubeconfig (failing e) = raise e

  abbrev load_from : (incluster kubeconfig : Loading) → Result (Unit {0})
  load_from loaded kubeconfig = ok tt
  load_from no_config kubeconfig = load_kubeconfig kubeconfig
  load_from (failing e) kubeconfig = raise e

  unfoldable pub load_config : Result (Unit {0})
  load_config = load_from cluster.incluster cluster.kubeconfig

  unfoldable pub build_deployment : Params → K8s DeploymentBody
  build_deployment params = do
    replicas ← lift (int_of py (get_or (int (pos 1)) "replicas" params))
    port ← lift (int_of py (get_or (int (pos 80)) "container_port" params))
    lift (
        accepted (cluster.rejects (deployment_of params replicas port))
          (deployment_of params replicas port))

  abbrev pub unsupported : K8s Value
  unsupported = lift (raise value_error)

  unfoldable pub dispatch_pods : (action namespace : String) → Params → K8s Value
  dispatch_pods action namespace params =
      if action == "list"
      then (do
        pods ← call (list_pods namespace) (λ t. cluster.list_namespaced_pod t namespace)
        lift (ok (arr (items (map pod_row pods)))))
      else if action == "get"
      then (do
        name ← lift (require_param py params "name")
        p ← call (read_pod name namespace) (λ t. cluster.read_namespaced_pod t name namespace)
        lift (
            ok (
              dict (
                ("name", p.name)
                ∷ ("namespace", p.namespace)
                ∷ ("phase", p.phase)
                ∷ ("node", p.node_name)
                ∷ []))))
      else if action == "delete"
      then (do
        name ← lift (require_param py params "name")
        call (delete_pod name namespace) (λ t. cluster.delete_namespaced_pod t name namespace)
        lift (ok (deleted name namespace)))
      else unsupported

  unfoldable pub dispatch_deployments : (action namespace : String) → Params → K8s Value
  dispatch_deployments action namespace params =
      if action == "list"
      then (do
        ds ← call (list_deployments namespace) (λ t. cluster.list_namespaced_deployment t namespace)
        lift (ok (arr (items (map deployment_row ds)))))
      else if action == "get"
      then (do
        name ← lift (require_param py params "name")
        d ←
            call (read_deployment name namespace)
              (λ t. cluster.read_namespaced_deployment t name namespace)
        image ← lift (first_image d.images)
        lift (
            ok (
              dict (
                ("name", d.name)
                ∷ ("replicas", d.replicas)
                ∷ ("ready", or_zero d.ready_replicas)
                ∷ ("image", image)
                ∷ []))))
      else if action == "create"
      then (do
        body ← build_deployment params
        d ←
            call (create_deployment namespace body)
              (λ t. cluster.create_namespaced_deployment t namespace body)
        lift (ok (dict (("name", d.name) ∷ ("namespace", d.namespace) ∷ ("uid", d.uid) ∷ []))))
      else if contains ("update" ∷ "patch" ∷ []) action
      then (do
        name ← lift (require_param py params "name")
        body ← build_deployment params
        d ←
            call (patch_deployment name namespace body)
              (λ t. cluster.patch_namespaced_deployment t name namespace body)
        lift (ok (dict (("name", d.name) ∷ ("patched", bool true) ∷ []))))
      else if action == "delete"
      then (do
        name ← lift (require_param py params "name")
        call (delete_deployment name namespace)
            (λ t. cluster.delete_namespaced_deployment t name namespace)
        lift (ok (deleted name namespace)))
      else unsupported

  -- The three resources that can only be listed.
  unfoldable pub dispatch_names : (action : String) → K8s (List Value) → K8s Value
  dispatch_names action listing =
      if action == "list" then (do names ← listing; lift (ok (arr (items names)))) else unsupported

  unfoldable pub dispatch : (action resource namespace : String) → Params → K8s Value
  dispatch action resource namespace params =
      if contains ("pods" ∷ "pod" ∷ []) resource
      then dispatch_pods action namespace params
      else if contains ("deployments" ∷ "deployment" ∷ []) resource
      then dispatch_deployments action namespace params
      else if contains ("secrets" ∷ "secret" ∷ []) resource
      then dispatch_names action (do
        secrets ← call (list_secrets namespace) (λ t. cluster.list_namespaced_secret t namespace)
        lift (ok (map (λ s. s.0) secrets)))
      else if contains ("namespaces" ∷ "namespace" ∷ []) resource
      then dispatch_names action (call list_namespaces cluster.list_namespace)
      else if contains ("configmaps" ∷ "configmap" ∷ []) resource
      then dispatch_names action
          (call (list_config_maps namespace) (λ t. cluster.list_namespaced_config_map t namespace))
      else unsupported

  -- `namespace.strip() or "default"`
  unfoldable pub clean_namespace : String → String
  clean_namespace namespace =
      let stripped = strip namespace in if stripped == "" then "default" else stripped

  unfoldable pub guarded : K8s Value → K8s Value
  guarded m t = let (r, t') = m t in (wrap_api r, t')

  unfoldable pub execute_action : (action resource namespace : String) → Params → K8s Value
  execute_action action resource namespace params = do
    lift load_config
    result ←
        guarded
          (dispatch (normal py action) (normal py resource) (clean_namespace namespace) params)
    lift (ok (dict (("status", str "success") ∷ ("data", result) ∷ [])))
