-- ===== src/Approval/Laws.antt =====
-- app/approval/queue.py: the queue against a finite map from ids to requests, over any interleaving
-- of its methods.
use ai_k8s_gateway.Base.{
  ℕ, ◌+◌, ◌≤◌, String, ◌≡◌, refl, Option, none, some, List, [], ◌∷◌, ◌++◌, map, arith,
  if◌then◌else◌, ◌==◌, eq_iff, ap, ◌∙◌, map-append,
}
use ai_k8s_gateway.Config.{Settings}
use ai_k8s_gateway.Dict.Laws.{
  empty-IsValid, put-IsValid, pop-IsValid, get-empty, get-put, get-pop, pop-get, values-put_fresh,
  values-pop,
}
use ai_k8s_gateway.Dict.Laws as DictLaws
use ai_k8s_gateway.Text.{Python}
use ai_k8s_gateway.Value.{Params}
use ai_k8s_gateway.Approval.{
  PendingRequest, ApprovalQueue, to_dict, init, enqueue, list_pending, resolve, peek,
}

-- Ids are distinct, and each request is stored under its own.
pub record IsValid (q : ApprovalQueue) : Type 0 where
  pub keys : DictLaws.IsValid q.queue
  pub own : (id : String) (r : PendingRequest) → peek id q ≡ some r → r.request_id ≡ id

pub peek-init : (id : String) → peek id init ≡ none
unfolding peek init
peek-init id = get-empty id

pub peek-enqueue :
    (r : PendingRequest) (id : String) (q : ApprovalQueue)
    → peek id (enqueue r q).1 ≡ (if r.request_id == id then some r else peek id q)
unfolding peek enqueue
peek-enqueue r id q = get-put r.request_id id r q.queue

pub resolve-peek : (id : String) (q : ApprovalQueue) → (resolve id q).0 ≡ peek id q
unfolding peek resolve
resolve-peek id q = pop-get id q.queue

pub peek-resolve :
    (k id : String) {q : ApprovalQueue}
    → IsValid q
    → peek id (resolve k q).1 ≡ (if k == id then none else peek id q)
unfolding peek resolve
peek-resolve k id {q} h = get-pop k id h.keys

pub init-IsValid : IsValid init
init-IsValid = record { keys = unfold init in empty-IsValid; own = λ id r e. cc (peek-init id) }

pub enqueue-IsValid : (r : PendingRequest) {q : ApprovalQueue} → IsValid q → IsValid (enqueue r q).1
enqueue-IsValid r {q} h = record {
  keys = unfold enqueue in put-IsValid r.request_id r h.keys;
  own = λ id s e. ground (arith, peek-enqueue r id q, h.own id s, eq_iff r.request_id id);
}

pub resolve-IsValid : (k : String) {q : ApprovalQueue} → IsValid q → IsValid (resolve k q).1
resolve-IsValid k {q} h = record {
  keys = unfold resolve in pop-IsValid k h.keys;
  own = λ id s e. ground (arith, peek-resolve k id h, h.own id s, eq_iff k id);
}

-- A method that changes the queue; the others read it.
pub data Op : Type 0 where
  enqueuing : PendingRequest → Op
  resolving : String → Op

pub step : Op → ApprovalQueue → ApprovalQueue
step (enqueuing r) q = (enqueue r q).1
step (resolving id) q = (resolve id q).1

pub run : List Op → ApprovalQueue → ApprovalQueue
run [] q = q
run (op ∷ ops) q = run ops (step op q)

pub step-IsValid : (op : Op) {q : ApprovalQueue} → IsValid q → IsValid (step op q)
unfolding step
step-IsValid (enqueuing r) h = enqueue-IsValid r h
step-IsValid (resolving id) h = resolve-IsValid id h

peek-step_enqueuing :
    (r : PendingRequest) (id : String) (q : ApprovalQueue)
    → peek id (step (enqueuing r) q) ≡ (if r.request_id == id then some r else peek id q)
unfolding step
peek-step_enqueuing r id q = peek-enqueue r id q

peek-step_resolving :
    (k id : String) {q : ApprovalQueue}
    → IsValid q
    → peek id (step (resolving k) q) ≡ (if k == id then none else peek id q)
unfolding step
peek-step_resolving k id h = peek-resolve k id h

-- The specification: what waits under `id` after these calls, if `before` waited first.
abbrev pub pending_after : (id : String) → Option PendingRequest → List Op → Option PendingRequest
pending_after id before [] = before
pending_after id before (enqueuing r ∷ ops) =
    pending_after id (if r.request_id == id then some r else before) ops
pending_after id before (resolving k ∷ ops) =
    pending_after id (if k == id then none else before) ops

-- From a valid queue any sequence of enqueue and resolve calls leaves a valid queue, which holds
-- under each id what the specification as a finite map says.
pub run_refines :
    (ops : List Op) (q : ApprovalQueue)
    → IsValid q
    → IsValid (run ops q) × ((id : String) → peek id (run ops q) ≡ pending_after id (peek id q) ops)
unfolding run
run_refines [] q h = (h, λ id. refl)
run_refines (enqueuing r ∷ ops) q h =
    let (valid, same) = run_refines ops (step (enqueuing r) q) (step-IsValid (enqueuing r) h) in
    (valid, λ id. same id ∙ ap (λ b. pending_after id b ops) (peek-step_enqueuing r id q))
run_refines (resolving k ∷ ops) q h =
    let (valid, same) = run_refines ops (step (resolving k) q) (step-IsValid (resolving k) h) in
    (valid, λ id. same id ∙ ap (λ b. pending_after id b ops) (peek-step_resolving k id h))

-- If nothing waits under a request's id, then enqueuing the request puts its entry at the end of
-- the listing and keeps the others.
pub list_pending-enqueue :
    (py : Python) (settings : Settings) (r : PendingRequest) (q : ApprovalQueue)
    → peek r.request_id q ≡ none
    → list_pending py settings (enqueue r q).1
      ≡ list_pending py settings q ++ to_dict py settings r ∷ []
unfolding list_pending enqueue peek
list_pending-enqueue py settings r q fresh =
    rw (values-put_fresh r.request_id r q.queue fresh) (simp map-append)

-- If a request waits under an id, then resolving the id takes that one entry out of the listing
-- and keeps the order of the others.
pub list_pending-resolve :
    (py : Python) (settings : Settings) (id : String) (r : PendingRequest) (q : ApprovalQueue)
    → peek id q ≡ some r
    → (before : List Params) × (after : List Params) × (list_pending py settings q
        ≡ before ++ to_dict py settings r ∷ after)
      × (list_pending py settings (resolve id q).1 ≡ before ++ after)
unfolding list_pending resolve peek
list_pending-resolve py settings id r q found =
    let (before, after, whole, rest) = values-pop id r q.queue found in
    let dump = to_dict py settings in
    (map dump before, map dump after, rw whole (simp map-append), rw rest (simp map-append))

-- Whether one is there, as a number.
abbrev pub count_of : {A : Type 0} → Option A → ℕ
count_of none = 0
count_of (some _) = 1

-- How often `id` was handed to an approver in a run from `q`, and how often it was enqueued.
abbrev pub handed_out : String → ApprovalQueue → List Op → ℕ
handed_out id q [] = 0
handed_out id q (enqueuing r ∷ ops) = handed_out id (step (enqueuing r) q) ops
handed_out id q (resolving k ∷ ops) =
    (if k == id then count_of (resolve k q).0 else 0) + handed_out id (step (resolving k) q) ops

abbrev pub times_enqueued : String → List Op → ℕ
times_enqueued id [] = 0
times_enqueued id (enqueuing r ∷ ops) =
    (if r.request_id == id then 1 else 0) + times_enqueued id ops
times_enqueued id (resolving k ∷ ops) = times_enqueued id ops

-- In any sequence of enqueue and resolve calls from a valid queue, an id is handed to a
-- resolver, counting one if it still waits at the end, at most as often as it was enqueued,
-- counting one if it waited at the start.
pub handed_out-le :
    (id : String) (ops : List Op) (q : ApprovalQueue)
    → IsValid q
    → handed_out id q ops + count_of (peek id (run ops q))
      ≤ times_enqueued id ops + count_of (peek id q)
unfolding run
handed_out-le id [] q h = omega arith
handed_out-le id (enqueuing r ∷ ops) q h = ground (
  arith,
  handed_out-le id ops (step (enqueuing r) q) (step-IsValid (enqueuing r) h),
  peek-step_enqueuing r id q,
)
handed_out-le id (resolving k ∷ ops) q h = ground (
  arith,
  handed_out-le id ops (step (resolving k) q) (step-IsValid (resolving k) h),
  peek-step_resolving k id h,
  resolve-peek k q,
  eq_iff k id,
)
