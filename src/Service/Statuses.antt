-- ===== src/Service/Statuses.antt =====
-- ai_agent_client.py: what the client makes of the statuses that the service of app/main.py sends.
use ai_k8s_gateway.Base.{ℕ, String, ◌≡◌, ◌⊎◌, inl, inr, [], ◌∷◌, ap, eqb, if◌then◌else◌, lookup}
use ai_k8s_gateway.Base.Int.{negsuc}
use ai_k8s_gateway.Errors.{Exception, ok}
use ai_k8s_gateway.Value.{get_or, Value, str, int, dict}
use ai_k8s_gateway.Policy.{reason}
use ai_k8s_gateway.Opa.{get_field}
use ai_k8s_gateway.Enforcement.{Verdict, refused}
use ai_k8s_gateway.Client.{
  Response, raised, ClientError, gateway_error, auth_error, denied_error, handle_response,
  denied_of,
}

-- The client's exception for a status that is no answer and no denial.
abbrev pub told : ℕ → ClientError
told status = if eqb status 401 then auth_error else gateway_error

-- The statuses of the exceptions that are no denial.
abbrev pub IsFault : ℕ → Type 0
IsFault status = (status ≡ 401) ⊎ ((status ≡ 500) ⊎ (status ≡ 502))

abbrev refusal_or : Exception → Verdict → Exception
refusal_or default (refused e) = e
refusal_or default _ = default

pub refused-injective : {x y : Exception} → refused x ≡ refused y → x ≡ y
refused-injective {x} e = ap (refusal_or x) e

module _ (resp : Response) where
  pub handle_response-fault :
      IsFault resp.status_code → handle_response resp ≡ raised (told resp.status_code)
  unfolding handle_response
  handle_response-fault h = elim h [ inl e ↦ rw e | inr (inl e) ↦ rw e | inr (inr e) ↦ rw e ]

  pub handle_response-denial :
      (id : String) (reason level : Value)
      → resp.status_code ≡ 403
      → resp.json
        ≡ ok (
            dict (
              (
                "detail",
                dict (
                    ("request_id", str id)
                    ∷ ("decision", str "deny")
                    ∷ ("reason", reason)
                    ∷ ("risk_level", level)
                    ∷ []),
              )
              ∷ []))
      → handle_response resp ≡ raised (denied_error reason level (int (negsuc 0)))
  unfolding handle_response denied_of get_field get_or lookup
  handle_response-denial id reason level status json = rw (status, json)
