-- ===== src/Interleaving/Freshness.antt =====
-- app/main.py: with UUIDs that do not repeat, no request overwrites another in the queue, however the
-- calls interleave.
use ai_k8s_gateway.Base.{
  ℕ, suc, ◌≤◌, ◌<◌, String, ◌≡◌, ◌≢◌, refl, inl, inr, Bool, true, false, some, none, some-ne-none,
  List, [], ◌∷◌, ◌++◌, All, All-snoc, All-middle, All-map, AllPairs, AllPairs-snoc, AllPairs-middle,
  Option-cases, ap, subst, sym, ◌∙◌, arith, if◌then◌else◌, ◌==◌, eq_iff,
}
use ai_k8s_gateway.Errors.{Result}
use ai_k8s_gateway.Approval
use ai_k8s_gateway.Approval.{PendingRequest, ApprovalQueue}
use ai_k8s_gateway.Approval.Laws.{IsValid, peek-init, peek-enqueue}
use ai_k8s_gateway.Gateway.{Env, World, approve_action, list_pending}
use ai_k8s_gateway.Gateway.Stages.{SameState}
use ai_k8s_gateway.Interleaving.{
  Flight, resume, System, Step, receives, resumes, lists, approves, joined, IsReachable, starts,
  steps,
}
use ai_k8s_gateway.Interleaving.Receipts.{
  Receipt, turned_away, waiting, receive-Receipt, list_pending-SameState, list_pending-tick,
}
use ai_k8s_gateway.Interleaving.Security.{IsReachable-IsSafe}
use ai_k8s_gateway.Interleaving.Ticks.{IsForward-resume, IsForward-approve_action}
use ai_k8s_gateway.Interleaving.Queueing.{
  OwnQueueing, untouched, added, resume-OwnQueueing, Shrinks, Shrinks-same, approve_action-Shrinks,
}

module _ (env : Env) where
  -- The id was drawn before the tick.
  pub record IsDrawn (tick : ℕ) (id : String) : Type 0 where
    pub at : ℕ
    pub before : at < tick
    pub drawn : id ≡ env.uuid at

  IsDrawn-later : {n m : ℕ} (id : String) → n ≤ m → IsDrawn n id → IsDrawn m id
  IsDrawn-later id h d =
      let early = d.before in record { at = d.at; before = omega arith; drawn = d.drawn }

  abbrev pub IsUnused : ApprovalQueue → Flight → Type 0
  IsUnused q f = Approval.peek f.request_id q ≡ none

  abbrev pub Differ : Flight → Flight → Type 0
  Differ f g = f.request_id ≢ g.request_id

  Differ-turn : (f g : Flight) → Differ f g → Differ g f
  Differ-turn f g h e = h (sym e)

  pub record IsFresh (s : System) : Type 0 where
    pub drawn : All (λ f. IsDrawn s.world.tick f.request_id) s.flights
    pub distinct : AllPairs Differ s.flights
    pub unused : All (IsUnused s.world.queue) s.flights
    pub queued :
        (id : String) (r : PendingRequest)
        → Approval.peek id s.world.queue ≡ some r
        → IsDrawn s.world.tick id

  Shrinks-IsFresh :
      (w w' : World) (flights : List Flight)
      → w.tick ≤ w'.tick
      → Shrinks w.queue w'.queue
      → IsFresh (record { world = w; flights = flights })
      → IsFresh (record { world = w'; flights = flights })
  Shrinks-IsFresh w w' flights later less h = record {
    drawn = All-map _ _ flights (λ f d. IsDrawn-later f.request_id later d) h.drawn;
    distinct = h.distinct;
    unused =
        All-map (IsUnused w.queue) (IsUnused w'.queue) flights
          (λ f u. elim (less f.request_id) [ inl gone ↦ gone | inr same ↦ same ∙ u ]) h.unused;
    queued = λ id r e. elim (less id) [
      | inl gone ↦ absurd (some-ne-none r (sym e ∙ gone))
      | inr same ↦ IsDrawn-later id later (h.queued id r (sym same ∙ e))
    ];
  }

  module _ (injective : (i j : ℕ) → env.uuid i ≡ env.uuid j → i ≡ j) where
    not_drawn : (tick : ℕ) (id : String) → IsDrawn tick id → id ≢ env.uuid tick
    not_drawn tick id d e =
        let same = injective d.at tick (sym d.drawn ∙ e) in let early = d.before in omega arith

    drawn-Differ :
        (tick : ℕ) (f g : Flight)
        → f.request_id ≡ env.uuid tick
        → IsDrawn tick g.request_id
        → Differ g f
    drawn-Differ tick f g own d e = not_drawn tick g.request_id d (e ∙ own)

    own-IsUnused :
        (w : World) (flights : List Flight) (f : Flight)
        → f.request_id ≡ env.uuid w.tick
        → IsFresh (record { world = w; flights = flights })
        → IsUnused w.queue f
    own-IsUnused w flights f own h = elim (Option-cases (Approval.peek f.request_id w.queue)) [
      | inl e ↦ e
      | inr (r, e) ↦ absurd (not_drawn w.tick f.request_id (h.queued f.request_id r e) own)
    ]

    -- A call that comes to wait for OPA has an id of its own.
    waiting-IsFresh :
        (w w' : World) (flights : List Flight) (f : Flight)
        → SameState w w'
        → f.request_id ≡ env.uuid w.tick
        → suc w.tick ≤ w'.tick
        → IsFresh (record { world = w; flights = flights })
        → IsFresh (record { world = w'; flights = flights ++ f ∷ [] })
    waiting-IsFresh w w' flights f same own later h =
        let base =
          Shrinks-IsFresh w w' flights (omega (arith, later)) (Shrinks-same same.queue) h in
        record {
          drawn =
              All-snoc (λ g. IsDrawn w'.tick g.request_id) flights f base.drawn
                (record { at = w.tick; before = omega (arith, later); drawn = own });
          distinct = AllPairs-snoc Differ flights f h.distinct (
              All-map (λ g. IsDrawn w.tick g.request_id) (λ g. Differ g f) flights
                (λ g d. drawn-Differ w.tick f g own d) h.drawn);
          unused =
              All-snoc (IsUnused w'.queue) flights f base.unused
                (ap (Approval.peek f.request_id) same.queue ∙ own-IsUnused w flights f own h);
          queued = base.queued;
        }

  -- Without the call that OPA replied to.
  fewer-IsFresh :
      (w : World) (before after : List Flight) (f : Flight)
      → IsFresh (record { world = w; flights = before ++ f ∷ after })
      → IsFresh (record { world = w; flights = before ++ after })
  fewer-IsFresh w before after f h = record {
    drawn = (All-middle (λ g. IsDrawn w.tick g.request_id) before f after h.drawn).1;
    distinct = (AllPairs-middle Differ Differ-turn before f after h.distinct).1;
    unused = (All-middle (IsUnused w.queue) before f after h.unused).1;
    queued = h.queued;
  }

  enqueued-IsUnused :
      (r : PendingRequest) (q : ApprovalQueue) (flights : List Flight)
      → All (λ g. r.request_id ≢ g.request_id) flights
      → All (IsUnused q) flights
      → All (IsUnused (Approval.enqueue r q).1) flights
  enqueued-IsUnused r q [] others h = tt
  enqueued-IsUnused r q (g ∷ gs) others h = (
    ground (arith, peek-enqueue r g.request_id q, eq_iff r.request_id g.request_id, others.0, h.0),
    enqueued-IsUnused r q gs others.1 h.1,
  )

  enqueued-IsDrawn :
      (tick : ℕ) (r : PendingRequest) (q : ApprovalQueue)
      → IsDrawn tick r.request_id
      → ((id : String) (s : PendingRequest) → Approval.peek id q ≡ some s → IsDrawn tick id)
      → (id : String) (s : PendingRequest) → Approval.peek id (Approval.enqueue r q).1 ≡ some s
      → IsDrawn tick id
  enqueued-IsDrawn tick r q own h id s e =
      by_test (r.request_id == id) refl (sym (peek-enqueue r id q) ∙ e)
    where
      by_test :
          (b : Bool)
          → (r.request_id == id) ≡ b
          → (if b then some r else Approval.peek id q) ≡ some s
          → IsDrawn tick id
      by_test true same known = subst (IsDrawn tick) ((eq_iff r.request_id id).0 same) own
      by_test false other known = h id s known

  -- A request that is queued under an id that no waiting call has.
  added-IsFresh :
      (w w' : World) (r : PendingRequest) (flights : List Flight)
      → w'.queue ≡ (Approval.enqueue r w.queue).1
      → IsDrawn w'.tick r.request_id
      → All (λ g. r.request_id ≢ g.request_id) flights
      → w.tick ≤ w'.tick
      → IsFresh (record { world = w; flights = flights })
      → IsFresh (record { world = w'; flights = flights })
  added-IsFresh w w' r flights same own others later h =
      let base =
        Shrinks-IsFresh w (record w' { queue = w.queue }) flights later (Shrinks-same refl) h in
      record {
        drawn = base.drawn;
        distinct = h.distinct;
        unused =
            subst (λ q. All (IsUnused q) flights) (sym same)
              (enqueued-IsUnused r w.queue flights others h.unused);
        queued = λ id s e.
            enqueued-IsDrawn w'.tick r w.queue own base.queued id s
              (ap (Approval.peek id) (sym same) ∙ e);
      }

  resumed-IsFresh :
      (w w' : World) (before after : List Flight) (f : Flight)
      → w.tick ≤ w'.tick
      → OwnQueueing f.request_id w.queue w'.queue
      → IsFresh (record { world = w; flights = before ++ f ∷ after })
      → IsFresh (record { world = w'; flights = before ++ after })
  resumed-IsFresh w w' before after f later (untouched same) h =
      Shrinks-IsFresh w w' (before ++ after) later (Shrinks-same same)
        (fewer-IsFresh w before after f h)
  resumed-IsFresh w w' before after f later (added r own same) h =
      added-IsFresh w w' r (before ++ after) same
        (IsDrawn-later r.request_id later (
          subst (IsDrawn w.tick) (sym own)
            (All-middle (λ g. IsDrawn w.tick g.request_id) before f after h.drawn).0))
        (All-map (Differ f) (λ g. r.request_id ≢ g.request_id) (before ++ after)
          (λ g d e. d (sym own ∙ e))
          (AllPairs-middle Differ Differ-turn before f after h.distinct).0)
        later (fewer-IsFresh w before after f h)

  start-IsFresh : (s : System) → s.world.queue ≡ Approval.init → s.flights ≡ [] → IsFresh s
  start-IsFresh s empty none_waiting = record {
    drawn = rw none_waiting tt;
    distinct = rw none_waiting tt;
    unused = rw none_waiting tt;
    queued = λ id r e. absurd (some-ne-none r (sym e ∙ ap (Approval.peek id) empty ∙ peek-init id));
  }

  module _ (injective : (i j : ℕ) → env.uuid i ≡ env.uuid j → i ≡ j) where
    Receipt-IsFresh :
        (w : World) (flights : List Flight) {o : Result Flight × World}
        → IsFresh (record { world = w; flights = flights })
        → Receipt env w o
        → IsFresh (record { world = o.1; flights = joined o.0 flights })
    Receipt-IsFresh w flights h (turned_away e w' same later) =
        Shrinks-IsFresh w w' flights later (Shrinks-same same.queue) h
    Receipt-IsFresh w flights h (waiting f w' received same own later) =
        waiting-IsFresh injective w w' flights f same own later h

    Step-IsFresh : {s s' : System} → IsValid s.world.queue → IsFresh s → Step env s s' → IsFresh s'
    Step-IsFresh {s} v h (receives token body) =
        Receipt-IsFresh s.world s.flights h (receive-Receipt env s.world token body)
    Step-IsFresh {s} v h (resumes before after f split) =
        resumed-IsFresh s.world (resume env f s.world).1 before after f
          ((IsForward-resume env f).at s.world) (resume-OwnQueueing env f s.world)
          (subst (λ flights. IsFresh (record { world = s.world; flights = flights })) split h)
    Step-IsFresh {s} v h (lists token) =
        Shrinks-IsFresh s.world (list_pending env token s.world).1 s.flights
          (list_pending-tick env s.world token)
          (Shrinks-same (list_pending-SameState env s.world token).queue) h
    Step-IsFresh {s} v h (approves token id body) =
        Shrinks-IsFresh s.world (approve_action env token id body s.world).1 s.flights
          ((IsForward-approve_action env token id body).at s.world)
          (approve_action-Shrinks env token id body s.world v) h

    -- If UUIDs do not repeat, then however the calls of the endpoints interleave at the
    -- query to OPA, from a process with an empty queue, an empty trace and no call in
    -- flight, the ids of the calls in flight are drawn and pairwise distinct, nothing waits
    -- under any of them, and every id that waits was drawn: no request takes the place of
    -- another in the queue.
    pub IsReachable-IsFresh : {s : System} → IsReachable env s → IsFresh s
    IsReachable-IsFresh (starts s empty unused none_waiting) = start-IsFresh s empty none_waiting
    IsReachable-IsFresh (steps h step) =
        Step-IsFresh (IsReachable-IsSafe env h).world.valid (IsReachable-IsFresh h) step
