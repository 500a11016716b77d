-- ===== src/Demo/Completion.antt =====
-- demo/agent_client.py: that the demonstration comes to its end, whatever requests fail on the network.
use Prim.Native.String.{◌++◌ as ◌<>◌}
use ai_k8s_gateway.Base.{String, ◌++◌, ◌≡◌}
use ai_k8s_gateway.Demo.{Session, returned, Demo}

-- The step returns.
record Returns {A : Type 0} (P : A → Type 0) (m : Demo A) : Type 0 where
  at : (s : Session) → (a : A) × ((m s).0 ≡ returned a) × P a
