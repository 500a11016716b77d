-- ===== src/K8s/Surface.antt =====
-- app/k8s/client.py: the calls of the API server that an action makes, against the dispatch table.
use ai_k8s_gateway.Base.{
  String, ◌≡◌, refl, true, false, Option, none, some, List, [], ◌∷◌, All, ◌==◌, contains, subst,
}
use ai_k8s_gateway.Base.Int.{ℤ, pos}
use ai_k8s_gateway.Errors.{Exception, ok, ok-injective}
use ai_k8s_gateway.Value.{Value, Params, int, get_or}
use ai_k8s_gateway.Text.{Python, normal, int_of}
use ai_k8s_gateway.Cluster.{
  Container, DeploymentBody, ApiCall, list_pods, read_pod, delete_pod, list_deployments,
  read_deployment, delete_deployment, create_deployment, patch_deployment, list_secrets,
  list_namespaces, list_config_maps, Cluster, K8s, ◌>>=◌,
}
use ai_k8s_gateway.Cluster.Calls.{
  AtMostOne, Yields, lift-Yields, Yields-lifted, AtMostOne-yielded, lift-IsQuiet,
  AtMostOne-of_quiet, AtMostOne-if, AtMostOne-call, bind-IsQuiet, AtMostOne-lifted, AtMostOne-first,
}
use ai_k8s_gateway.K8s.{
  accepted, deployment_of, build_deployment, dispatch_pods, dispatch_deployments, dispatch_names,
  dispatch, clean_namespace, guarded, execute_action, require_param,
}

-- No privileges and no escalation.
abbrev IsConfined : Container → Type 0
IsConfined c = (c.privileged ≡ false) × (c.allow_privilege_escalation ≡ false)

pub record IsHardened (body : DeploymentBody) : Type 0 where
  pub non_root : body.run_as_non_root ≡ true
  pub confined : All IsConfined body.containers

-- The manifest of the payload, with the numbers that it is read to hold, and hardened.
pub record IsManifest (py : Python) (params : Params) (body : DeploymentBody) : Type 0 where
  pub replicas : ℤ
  pub port : ℤ
  pub counted : int_of py (get_or (int (pos 1)) "replicas" params) ≡ ok replicas
  pub exposed : int_of py (get_or (int (pos 80)) "container_port" params) ≡ ok port
  pub built : body ≡ deployment_of params replicas port
  pub hardened : IsHardened body

-- The payload names the object.
abbrev Names : Python → Params → String → Type 0
Names py params name = require_param py params "name" ≡ ok name

-- The table: the verb and the resource for which a call is made, its namespace, the object that the
-- payload names, and the manifest that is made of the payload.
pub data Routed (py : Python) (params : Params) (action resource namespace : String)
    : ApiCall → Type 0 where
  listing_pods :
      (action == "list") ≡ true
      → contains ("pods" ∷ "pod" ∷ []) resource ≡ true
      → Routed py params action resource namespace (list_pods namespace)
  reading_pod :
      {name : String}
      → (action == "get") ≡ true
      → contains ("pods" ∷ "pod" ∷ []) resource ≡ true
      → Names py params name
      → Routed py params action resource namespace (read_pod name namespace)
  deleting_pod :
      {name : String}
      → (action == "delete") ≡ true
      → contains ("pods" ∷ "pod" ∷ []) resource ≡ true
      → Names py params name
      → Routed py params action resource namespace (delete_pod name namespace)
  listing_deployments :
      (action == "list") ≡ true
      → contains ("deployments" ∷ "deployment" ∷ []) resource ≡ true
      → Routed py params action resource namespace (list_deployments namespace)
  reading_deployment :
      {name : String}
      → (action == "get") ≡ true
      → contains ("deployments" ∷ "deployment" ∷ []) resource ≡ true
      → Names py params name
      → Routed py params action resource namespace (read_deployment name namespace)
  creating_deployment :
      {body : DeploymentBody}
      → (action == "create") ≡ true
      → contains ("deployments" ∷ "deployment" ∷ []) resource ≡ true
      → IsManifest py params body
      → Routed py params action resource namespace (create_deployment namespace body)
  patching_deployment :
      {name : String} {body : DeploymentBody}
      → contains ("update" ∷ "patch" ∷ []) action ≡ true
      → contains ("deployments" ∷ "deployment" ∷ []) resource ≡ true
      → IsManifest py params body
      → Names py params name
      → Routed py params action resource namespace (patch_deployment name namespace body)
  deleting_deployment :
      {name : String}
      → (action == "delete") ≡ true
      → contains ("deployments" ∷ "deployment" ∷ []) resource ≡ true
      → Names py params name
      → Routed py params action resource namespace (delete_deployment name namespace)
  listing_secrets :
      (action == "list") ≡ true
      → contains ("secrets" ∷ "secret" ∷ []) resource ≡ true
      → Routed py params action resource namespace (list_secrets namespace)
  listing_namespaces :
      (action == "list") ≡ true
      → contains ("namespaces" ∷ "namespace" ∷ []) resource ≡ true
      → Routed py params action resource namespace list_namespaces
  listing_config_maps :
      (action == "list") ≡ true
      → contains ("configmaps" ∷ "configmap" ∷ []) resource ≡ true
      → Routed py params action resource namespace (list_config_maps namespace)

ruleset route_rules = (
  lift-IsQuiet, bind-IsQuiet, AtMostOne-of_quiet, AtMostOne-if, AtMostOne-call, AtMostOne-lifted,
  AtMostOne-first, listing_pods, reading_pod, deleting_pod, listing_deployments, reading_deployment,
  creating_deployment, patching_deployment, deleting_deployment, listing_secrets,
  listing_namespaces, listing_config_maps,
)

pub deployment_of-IsHardened :
    (params : Params) (replicas port : ℤ) → IsHardened (deployment_of params replicas port)
unfolding deployment_of
deployment_of-IsHardened params replicas port = record {
  non_root = refl;
  confined = ((refl, refl), tt);
}

deployment_of-IsManifest :
    (py : Python) (params : Params) (replicas port : ℤ)
    → int_of py (get_or (int (pos 1)) "replicas" params) ≡ ok replicas
    → int_of py (get_or (int (pos 80)) "container_port" params) ≡ ok port
    → IsManifest py params (deployment_of params replicas port)
deployment_of-IsManifest py params replicas port counted exposed = record {
  replicas = replicas;
  port = port;
  counted = counted;
  exposed = exposed;
  built = refl;
  hardened = deployment_of-IsHardened params replicas port;
}

module _ (py : Python) (params : Params) where
  accepted-IsManifest :
      (o : Option Exception) (body b : DeploymentBody)
      → IsManifest py params body
      → accepted o body ≡ ok b
      → IsManifest py params b
  unfolding accepted
  accepted-IsManifest none body b h e = subst (IsManifest py params) (ok-injective e) h
  accepted-IsManifest (some x) body b h e = cc

module _ (py : Python) (cluster : Cluster) where
  build_deployment-Yields :
      (params : Params) → Yields (IsManifest py params) (build_deployment py cluster params)
  unfolding build_deployment
  build_deployment-Yields params = Yields-lifted _ _ λ replicas counted.
      Yields-lifted _ _ λ port exposed. lift-Yields _ λ b e.
        accepted-IsManifest py params _ _ b
          (deployment_of-IsManifest py params replicas port counted exposed) e

  AtMostOne-build :
      {P : ApiCall → Type 0} (params : Params) (f : DeploymentBody → K8s Value)
      → ((body : DeploymentBody) → IsManifest py params body → AtMostOne P (f body))
      → AtMostOne P (build_deployment py cluster params >>= f)
  AtMostOne-build params f k = AtMostOne-yielded _ f (build_deployment-Yields params) k

  dispatch_pods-Routed :
      (a r n : String) (params : Params)
      → contains ("pods" ∷ "pod" ∷ []) r ≡ true
      → AtMostOne (Routed py params a r n) (dispatch_pods py cluster a n params)
  unfolding dispatch_pods
  dispatch_pods-Routed a r n params is_pods = search route_rules depth 9

  dispatch_deployments-Routed :
      (a r n : String) (params : Params)
      → contains ("deployments" ∷ "deployment" ∷ []) r ≡ true
      → AtMostOne (Routed py params a r n) (dispatch_deployments py cluster a n params)
  unfolding dispatch_deployments
  dispatch_deployments-Routed a r n params is_deployments =
      search (AtMostOne-build, route_rules) depth 12

  dispatch_names-Routed :
      {P : ApiCall → Type 0} (a : String) (listing : K8s (List Value))
      → ((a == "list") ≡ true → AtMostOne P listing)
      → AtMostOne P (dispatch_names py cluster a listing)
  unfolding dispatch_names
  dispatch_names-Routed a listing h = search route_rules depth 7

  -- Dispatching an action makes at most one call, which the table gives for its verb, its resource, its
  -- namespace and its payload; the deployments that are sent are hardened.
  pub dispatch-Routed :
      (a r n : String) (params : Params)
      → AtMostOne (Routed py params a r n) (dispatch py cluster a r n params)
  unfolding dispatch
  dispatch-Routed a r n params =
      search (dispatch_pods-Routed, dispatch_deployments-Routed, dispatch_names-Routed, route_rules)
        depth 12

  guarded-Routed :
      {P : ApiCall → Type 0} (m : K8s Value) → AtMostOne P m → AtMostOne P (guarded py cluster m)
  unfolding guarded
  guarded-Routed m h = record { at = h.at }

  -- Executing an action makes at most one call of the API server. That call is the one that
  -- the dispatch table gives for the stripped, lower-case verb and resource and for the
  -- stripped namespace; an object that it reads, patches or deletes is the one that the
  -- payload names; and a deployment that it sends is the manifest of the payload, with the
  -- replica count and the port that the payload is read to hold, runs as non-root, and has
  -- containers that are not privileged and cannot escalate.
  pub execute_action-Routed :
      (action resource namespace : String) (params : Params)
      → AtMostOne
          (Routed py params
            (normal py action)
            (normal py resource)
            (clean_namespace py cluster namespace))
          (execute_action py cluster action resource namespace params)
  unfolding execute_action
  execute_action-Routed action resource namespace params =
      search (guarded-Routed, dispatch-Routed, route_rules) depth 8
