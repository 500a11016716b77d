-- ===== src/Errors.antt =====
-- The exceptions that the program raises and catches, and a call that may raise one.
use ai_k8s_gateway.Base.{ℕ, String, ◌≡◌, refl, ap, ◌⊎◌, inl, inr}
use ai_k8s_gateway.Value.{Value}

-- `api_exception` and `connection_error` are raised by the Kubernetes SDK; `unavailable` and
-- `action_error` are K8sUnavailableError and K8sActionError of app/k8s/client.py;
-- `http_exception` is FastAPI's, with its status code and detail.
pub data Exception : Type 0 where
  value_error type_error overflow_error attribute_error index_error : Exception
  jwt_error connection_error unavailable runtime_error : Exception
  api_exception action_error : (status : ℕ) (reason : String) → Exception
  http_exception : (status : ℕ) (detail : Value) → Exception

pub data Result {ℓ} (A : Type ℓ) : Type ℓ where
  ok : A → Result A
  raise : Exception → Result A

infixl 5 ◌>>=◌
abbrev pub ◌>>=◌ {ℓ κ} : {A : Type ℓ} {B : Type κ} → Result A → (A → Result B) → Result B
ok a >>= f = f a
raise e >>= f = raise e

module _ {ℓ} {A : Type ℓ} where
  abbrev ok_or : A → Result A → A
  ok_or default (ok a) = a
  ok_or default (raise _) = default

  pub Result-cases : (r : Result A) → ((a : A) × (r ≡ ok a)) ⊎ ((e : Exception) × (r ≡ raise e))
  Result-cases (ok a) = inl (a, refl)
  Result-cases (raise e) = inr (e, refl)

  abbrev exception_or : Exception → Result A → Exception
  exception_or default (ok _) = default
  exception_or default (raise e) = e

  pub ok-injective : {a b : A} → ok a ≡ ok b → a ≡ b
  ok-injective {a} e = ap (ok_or a) e

-- What a sequence that returned has done on its way.
module _ {ℓ κ} {A : Type ℓ} {B : Type κ} where
  pub bind-eq-ok :
      (first : Result A) (next : A → Result B) {out : B}
      → first >>= next ≡ ok out
      → (mid : A) × (first ≡ ok mid) × (next mid ≡ ok out)
  bind-eq-ok (raise x) next e = cc
  bind-eq-ok (ok mid) next e = (mid, refl, e)
