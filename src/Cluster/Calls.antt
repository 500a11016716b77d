-- ===== src/Cluster/Calls.antt =====
-- How many calls a program makes, one rule for each way to build a program.
use ai_k8s_gateway.Base.{
  ◌≡◌, refl, ◌∙◌, ◌⊎◌, inl, inr, Bool, true, false, [], ◌∷◌, ◌++◌, if◌then◌else◌,
}
use ai_k8s_gateway.Errors.{Result, ok, raise}
use ai_k8s_gateway.Cluster.{ApiCall, Trace, K8s, continue, ◌>>=◌, lift, call}

-- The program makes no call.
pub record IsQuiet {A : Type 0} (m : K8s A) : Type 0 where
  pub at : (t : Trace) → (m t).1 ≡ t

-- The program makes no call, or one call that satisfies `P`.
pub record AtMostOne {A : Type 0} (P : ApiCall → Type 0) (m : K8s A) : Type 0 where
  pub at : (t : Trace) → ((m t).1 ≡ t) ⊎ ((c : ApiCall) × P c × ((m t).1 ≡ t ++ c ∷ []))

-- The program makes no call, and `Q` holds of a value that it returns.
pub record Yields {A : Type 0} (Q : A → Type 0) (m : K8s A) : Type 0 where
  pub quiet : (t : Trace) → (m t).1 ≡ t
  pub holds : (t : Trace) (a : A) → (m t).0 ≡ ok a → Q a

module _ {A : Type 0} where
  pub lift-IsQuiet : (r : Result A) → IsQuiet (lift r)
  unfolding lift
  lift-IsQuiet r = record { at = λ t. refl }

  pub AtMostOne-of_quiet : {P : ApiCall → Type 0} {m : K8s A} → IsQuiet m → AtMostOne P m
  AtMostOne-of_quiet q = record { at = λ t. inl (q.at t) }

  pub AtMostOne-if :
      {P : ApiCall → Type 0} (b : Bool) (m n : K8s A)
      → (b ≡ true → AtMostOne P m)
      → (b ≡ false → AtMostOne P n)
      → AtMostOne P (if b then m else n)
  AtMostOne-if true m n h k = h refl
  AtMostOne-if false m n h k = k refl

  pub AtMostOne-call :
      {P : ApiCall → Type 0} (c : ApiCall) (reply : Trace → Result A)
      → P c
      → AtMostOne P (call c reply)
  unfolding call
  AtMostOne-call c reply p = record { at = λ t. inr (c, p, refl) }

  pub lift-Yields : {Q : A → Type 0} (r : Result A) → ((a : A) → r ≡ ok a → Q a) → Yields Q (lift r)
  unfolding lift
  lift-Yields r h = record { quiet = λ t. refl; holds = λ t a e. h a e }

module _ {A B : Type 0} where
  pub Yields-lifted :
      {Q : B → Type 0} (r : Result A) (f : A → K8s B)
      → ((a : A) → r ≡ ok a → Yields Q (f a))
      → Yields Q (lift r >>= f)
  unfolding ◌>>=◌ lift
  Yields-lifted (ok a) f yf = yf a refl
  Yields-lifted (raise x) f yf = record { quiet = λ t. refl; holds = λ t b e. cc }

  continue-quiet :
      (r : Result A) (f : A → K8s B) (t : Trace)
      → ((a : A) → IsQuiet (f a))
      → (continue r f t).1 ≡ t
  continue-quiet (ok a) f t q = (q a).at t
  continue-quiet (raise e) f t q = refl

  pub bind-IsQuiet :
      (m : K8s A) (f : A → K8s B) → IsQuiet m → ((a : A) → IsQuiet (f a)) → IsQuiet (m >>= f)
  unfolding ◌>>=◌
  bind-IsQuiet m f qm qf = record { at = λ t. continue-quiet (m t).0 f (m t).1 qf ∙ qm.at t }

  -- The call stands in the rest, which may use the value that was lifted.
  pub AtMostOne-lifted :
      {P : ApiCall → Type 0} (r : Result A) (f : A → K8s B)
      → ((a : A) → r ≡ ok a → AtMostOne P (f a))
      → AtMostOne P (lift r >>= f)
  unfolding ◌>>=◌ lift
  AtMostOne-lifted (ok a) f kf = kf a refl
  AtMostOne-lifted (raise x) f kf = record { at = λ t. inl refl }

  -- The call stands in the rest, which may use what holds of every value that `m` yields.
  pub AtMostOne-yielded :
      {P : ApiCall → Type 0} {Q : A → Type 0} (m : K8s A) (f : A → K8s B)
      → Yields Q m
      → ((a : A) → Q a → AtMostOne P (f a))
      → AtMostOne P (m >>= f)
  unfolding ◌>>=◌
  AtMostOne-yielded {P} m f ym kf = record {
    at = λ t. go t (m t).0 (m t).1 (ym.quiet t) (λ a e. kf a (ym.holds t a e));
  }
    where
      go :
          (t : Trace) (r : Result A) (t' : Trace)
          → t' ≡ t
          → ((a : A) → r ≡ ok a → AtMostOne P (f a))
          → ((continue r f t').1 ≡ t) ⊎ ((c : ApiCall) × P c × ((continue r f t').1 ≡ t ++ c ∷ []))
      go t (ok a) t' e k = rw e ((k a refl).at t)
      go t (raise x) t' e k = inl e

  -- The call stands in front.
  pub AtMostOne-first :
      {P : ApiCall → Type 0} (m : K8s A) (f : A → K8s B)
      → AtMostOne P m
      → ((a : A) → IsQuiet (f a))
      → AtMostOne P (m >>= f)
  unfolding ◌>>=◌
  AtMostOne-first m f km qf = record {
    at = λ t. elim (km.at t) [
      | inl quiet ↦ inl (continue-quiet (m t).0 f (m t).1 qf ∙ quiet)
      | inr (c, p, once) ↦ inr (c, p, continue-quiet (m t).0 f (m t).1 qf ∙ once)
    ];
  }
