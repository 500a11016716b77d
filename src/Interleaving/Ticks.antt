-- ===== src/Interleaving/Ticks.antt =====
-- app/main.py: no handler turns the tick back.
use ai_k8s_gateway.Base.{
  ℕ, ◌≤◌, String, Bool, true, false, Option, none, some, arith, if◌then◌else◌,
}
use ai_k8s_gateway.Errors.{Result, ok, raise}
use ai_k8s_gateway.Value.{Value, Params}
use ai_k8s_gateway.Approval.{PendingRequest}
use ai_k8s_gateway.Audit.{AuditRecord}
use ai_k8s_gateway.Gateway.{
  Env, World, Handler, continue, Assessment, ApproveRequest, ◌>>=◌, lift, sample, log, execute_k8s,
  authenticate, enqueue, resolve, deny, enqueue_high, execute_now, settle, decide, approve_pending,
  reject_pending, found_or_404, approve_action,
}
use ai_k8s_gateway.Interleaving.{Flight, resume}

-- The handler leaves the tick or advances it.
pub record IsForward {A : Type 0} (m : Handler A) : Type 0 where
  pub at : (w : World) → w.tick ≤ (m w).1.tick

module _ {A : Type 0} where
  IsForward-lift : (r : Result A) → IsForward (lift r)
  unfolding lift
  IsForward-lift r = record { at = λ w. omega arith }

  IsForward-sample : (f : ℕ → A) → IsForward (sample f)
  unfolding sample
  IsForward-sample f = record { at = λ w. omega arith }

  IsForward-if :
      (b : Bool) (m n : Handler A) → IsForward m → IsForward n → IsForward (if b then m else n)
  IsForward-if true m n h k = h
  IsForward-if false m n h k = k

module _ {A B : Type 0} where
  continue-tick :
      (r : Result A) (f : A → Handler B) (w : World)
      → ((a : A) → IsForward (f a))
      → w.tick ≤ (continue r f w).1.tick
  continue-tick (ok a) f w h = (h a).at w
  continue-tick (raise e) f w h = omega arith

  IsForward->>= :
      (m : Handler A) (f : A → Handler B)
      → IsForward m
      → ((a : A) → IsForward (f a))
      → IsForward (m >>= f)
  unfolding ◌>>=◌
  IsForward->>= m f h k = record {
    at = λ w. omega (arith, h.at w, continue-tick (m w).0 f (m w).1 k);
  }

module _ (env : Env) where
  IsForward-log : (entry : String → AuditRecord) → IsForward (log env entry)
  unfolding log
  IsForward-log entry = record { at = λ w. omega arith }

  IsForward-execute_k8s :
      (action resource namespace : String) (params : Params)
      → IsForward (execute_k8s env action resource namespace params)
  unfolding execute_k8s
  IsForward-execute_k8s action resource namespace params = record { at = λ w. omega arith }

  IsForward-enqueue : (r : PendingRequest) → IsForward (enqueue env r)
  unfolding enqueue
  IsForward-enqueue r = record { at = λ w. omega arith }

  IsForward-resolve : (id : String) → IsForward (resolve env id)
  unfolding resolve
  IsForward-resolve id = record { at = λ w. omega arith }

  ruleset tick_rules = (
    IsForward-lift, IsForward-sample, IsForward-if, IsForward->>=, IsForward-log,
    IsForward-execute_k8s, IsForward-enqueue, IsForward-resolve,
  )

  IsForward-settle : (a : Assessment) → IsForward (settle env a)
  unfolding settle deny enqueue_high execute_now
  IsForward-settle a = search tick_rules depth 12

  pub IsForward-resume : (f : Flight) → IsForward (resume env f)
  unfolding resume
  IsForward-resume f = search (tick_rules, IsForward-settle) depth 12

  IsForward-authenticate : (token : String) → IsForward (authenticate env token)
  unfolding authenticate
  IsForward-authenticate token = search tick_rules depth 12

  IsForward-decide :
      (id : String) (body : ApproveRequest) (approver : Value) (r : PendingRequest)
      → IsForward (decide env id body approver r)
  unfolding decide approve_pending reject_pending
  IsForward-decide id body approver r = search tick_rules depth 12

  IsForward-found_or_404 :
      (id : String) (body : ApproveRequest) (approver : Value) (o : Option PendingRequest)
      → IsForward (found_or_404 env id body approver o)
  unfolding found_or_404
  IsForward-found_or_404 id body approver none = search tick_rules
  IsForward-found_or_404 id body approver (some r) = IsForward-decide id body approver r

  pub IsForward-approve_action :
      (token id : String) (body : ApproveRequest) → IsForward (approve_action env token id body)
  unfolding approve_action
  IsForward-approve_action token id body =
      search (tick_rules, IsForward-authenticate, IsForward-found_or_404) depth 12
