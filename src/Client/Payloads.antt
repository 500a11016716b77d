-- ===== src/Client/Payloads.antt =====
-- ai_agent_client.py and app/k8s/client.py: the manifests built from the typed methods' payloads.
use ai_k8s_gateway.Base.{String, ◌≡◌, refl, Option, none, some, [], ◌∷◌, map, lookup}
use ai_k8s_gateway.Base.Int.{ℤ, pos}
use ai_k8s_gateway.Errors.{Exception, ok, ok-injective}
use ai_k8s_gateway.Value.{str, get_or}
use ai_k8s_gateway.Text.{Python, int_of}
use ai_k8s_gateway.Cluster.{DeploymentBody, Trace, Cluster, ◌>>=◌, lift}
use ai_k8s_gateway.K8s.{accepted, deployment_of, build_deployment}
use ai_k8s_gateway.Client.{create_params, patch_params}

accepted-eq-ok : (o : Option Exception) {b b' : DeploymentBody} → accepted o b ≡ ok b' → b ≡ b'
unfolding accepted
accepted-eq-ok none e = ok-injective e
accepted-eq-ok (some x) e = cc

-- What the manifest asks for.
pub record IsRequested (name image : String) (replicas port : ℤ)
    (cpu_request cpu_limit memory_request memory_limit : String) (body : DeploymentBody)
    : Type 0 where
  pub named : body.name ≡ str name
  pub counted : body.replicas ≡ replicas
  pub image_is : map (λ c. c.image) body.containers ≡ str image ∷ []
  pub port_is : map (λ c. c.container_port) body.containers ≡ port ∷ []
  pub requests :
      map (λ c. c.resources.requests) body.containers
      ≡ (("cpu", str cpu_request) ∷ ("memory", str memory_request) ∷ []) ∷ []
  pub limits :
      map (λ c. c.resources.limits) body.containers
      ≡ (("cpu", str cpu_limit) ∷ ("memory", str memory_limit) ∷ []) ∷ []

abbrev or_default : {A : Type 0} → A → Option A → A
or_default a none = a
or_default a (some b) = b

-- What the manifest of a patch asks for, with its defaults for what is left out.
pub record IsPatched (name : String) (image : Option String) (replicas : Option ℤ)
    (body : DeploymentBody) : Type 0 where
  pub named : body.name ≡ str name
  pub image_is : map (λ c. c.image) body.containers ≡ str (or_default "nginx:alpine" image) ∷ []
  pub counted : body.replicas ≡ or_default (pos 1) replicas

module _ (py : Python) (cluster : Cluster) (trace : Trace) where
  -- If the gateway builds a manifest from the payload of the client's create_deployment, then
  -- its name, replica count, image, port, requests and limits are the arguments of that call.
  pub create_params-IsRequested :
      (name image : String) (replicas port : ℤ)
      (cpu_request cpu_limit memory_request memory_limit : String) (body : DeploymentBody)
      → (build_deployment py cluster
          (create_params name image replicas port cpu_request cpu_limit memory_request memory_limit)
          trace).0
        ≡ ok body
      → IsRequested name image replicas port cpu_request cpu_limit memory_request memory_limit body
  unfolding build_deployment deployment_of create_params get_or lookup int_of ◌>>=◌ lift
  create_params-IsRequested name image replicas port cpu_request cpu_limit memory_request
        memory_limit body e =
      rw (← accepted-eq-ok _ e) (record {
        named = refl;
        counted = refl;
        image_is = refl;
        port_is = refl;
        requests = refl;
        limits = refl;
      })

  -- If the gateway builds a manifest from the payload of the client's patch_deployment without
  -- an image, then its one container has the image nginx:alpine.
  patch_params-default_image :
      (name : String) (replicas : Option ℤ) (body : DeploymentBody)
      → (build_deployment py cluster (patch_params name none replicas) trace).0 ≡ ok body
      → map (λ c. c.image) body.containers ≡ str "nginx:alpine" ∷ []
  unfolding build_deployment deployment_of patch_params get_or lookup int_of ◌>>=◌ lift
  patch_params-default_image name none body e = rw (← accepted-eq-ok _ e)
  patch_params-default_image name (some n) body e = rw (← accepted-eq-ok _ e)

  -- If the gateway builds a manifest from the payload of the client's patch_deployment without
  -- a replica count, then its replica count is 1.
  patch_params-one_replica :
      (name : String) (image : Option String) (body : DeploymentBody)
      → (build_deployment py cluster (patch_params name image none) trace).0 ≡ ok body
      → body.replicas ≡ pos 1
  unfolding build_deployment deployment_of patch_params get_or lookup int_of ◌>>=◌ lift
  patch_params-one_replica name none body e = rw (← accepted-eq-ok _ e)
  patch_params-one_replica name (some i) body e = rw (← accepted-eq-ok _ e)

  -- If the gateway builds a manifest from the payload of the client's patch_deployment, then
  -- it has the name of that call, its image, or nginx:alpine where the call gives none, and
  -- its replica count, or 1 where the call gives none.
  pub patch_params-IsPatched :
      (name : String) (image : Option String) (replicas : Option ℤ) (body : DeploymentBody)
      → (build_deployment py cluster (patch_params name image replicas) trace).0 ≡ ok body
      → IsPatched name image replicas body
  unfolding build_deployment deployment_of patch_params get_or lookup int_of ◌>>=◌ lift
  patch_params-IsPatched name none none body e = record {
    named = rw (← accepted-eq-ok _ e);
    image_is = patch_params-default_image name none body e;
    counted = patch_params-one_replica name none body e;
  }
  patch_params-IsPatched name none (some n) body e = record {
    named = rw (← accepted-eq-ok _ e);
    image_is = patch_params-default_image name (some n) body e;
    counted = rw (← accepted-eq-ok _ e);
  }
  patch_params-IsPatched name (some i) none body e = record {
    named = rw (← accepted-eq-ok _ e);
    image_is = rw (← accepted-eq-ok _ e);
    counted = patch_params-one_replica name (some i) body e;
  }
  patch_params-IsPatched name (some i) (some n) body e = record {
    named = rw (← accepted-eq-ok _ e);
    image_is = rw (← accepted-eq-ok _ e);
    counted = rw (← accepted-eq-ok _ e);
  }
