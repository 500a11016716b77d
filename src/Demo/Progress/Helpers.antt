-- ===== src/Demo/Progress/Helpers.antt =====
-- demo/agent_client.py: the helpers, as steps that end in no exception but a RequestError.
use ai_k8s_gateway.Base.{
  ℕ, String, Option, none, some, List, [], ◌∷◌, ◌≡◌, refl, if◌then◌else◌, Bool, true, false, lookup,
}
use ai_k8s_gateway.Errors.{Exception, ok}
use ai_k8s_gateway.Value.{Value, str}
use ai_k8s_gateway.Auth.{agent_identities, Identity}
use ai_k8s_gateway.Auth.Laws.{create_token-known}
use ai_k8s_gateway.Gateway.{AgentActionRequest}
use ai_k8s_gateway.Client.{Response}
use ai_k8s_gateway.Demo.{
  Request, Colour, Printed, Host, Session, Demo, ◌>>=◌, lift, print, send, mint, post_action,
  get_pending, print_response, print_entries, print_audit_tail, print_tail, last_lines, answer_of,
  printed_unless, entry_of, correctly_blocked, enforcement_suspect,
}
use ai_k8s_gateway.Demo.Scenarios.{decision_line, show_decision}
use ai_k8s_gateway.Demo.Progress.{
  Ends, ends, cut_off, Ensures, Any, Ensures-lift, Ensures->>=, IsReadable, IsOwn, IsPolite,
}

module _ (host : Host) (polite : IsPolite host) where
  printed_ends :
      (o : Option Exception) (p : Printed) (s : Session)
      → o ≡ none
      → Ends Any (printed_unless o p s).0
  printed_ends none p s e = ends tt tt
  printed_ends (some x) p s e = cc

  pub Ensures-print : (p : Printed) → host.rich p ≡ none → Ensures Any (print host p)
  unfolding print
  Ensures-print p e = record { at = λ s. printed_ends (host.rich p) p s e }

  pub Ensures-own : (p : Printed) → IsOwn p → Ensures Any (print host p)
  Ensures-own p own = Ensures-print p (polite.prints p own)

  answered :
      (sent : List Request) (r : Request) (o : Option Response)
      → host.network sent r ≡ o
      → Ends (IsReadable host) (answer_of o)
  answered sent r none e = cut_off
  answered sent r (some resp) e = ends resp (polite.answers sent r resp e)

  pub Ensures-send : (r : Request) → Ensures (IsReadable host) (send host r)
  unfolding send
  Ensures-send r = record { at = λ s. answered s.sent r (host.network s.sent r) refl }

  pub Ensures-post_action :
      (gateway token : String) (body : AgentActionRequest)
      → Ensures (IsReadable host) (post_action host gateway token body)
  unfolding post_action
  Ensures-post_action gateway token body = Ensures-send _

  pub Ensures-get_pending :
      (gateway token : String) → Ensures (IsReadable host) (get_pending host gateway token)
  unfolding get_pending
  Ensures-get_pending gateway token = Ensures-send _

  pub Ensures-mint :
      (agent_id : String) (identity : Identity)
      → lookup agent_id agent_identities ≡ some identity
      → Ensures Any (mint host agent_id)
  unfolding mint
  Ensures-mint agent_id identity known = record {
    at = λ s.
        let (token, made) =
          create_token-known host.jwt host.settings (host.seconds s.tick) (host.uuid s.tick)
            agent_id identity known in
        rw made (ends token tt);
  }

  -- The body that is returned is the one that the response carries.
  pub Ensures-print_response :
      (resp : Response) (label : String) (h : IsReadable host resp)
      → Ensures (λ body. body ≡ h.body) (print_response host resp label)
  unfolding print_response
  Ensures-print_response resp label h =
      Ensures->>= (λ body. body ≡ h.body) _ _ _ (Ensures-lift _ resp.json h.body h.json refl)
        (λ body same.
          Ensures->>= Any _ _ _ (Ensures-own _ tt) (λ v u. Ensures-lift _ (ok body) body refl same))

  entry-IsOwn : (line : String) (o : Option Value) → IsOwn (entry_of host line o)
  entry-IsOwn line none = tt
  entry-IsOwn line (some v) = tt

  pub verdict-IsOwn : (b : Bool) → IsOwn (if b then correctly_blocked else enforcement_suspect)
  verdict-IsOwn true = tt
  verdict-IsOwn false = tt

  pub Ensures-print_entries : (lines : List String) → Ensures Any (print_entries host lines)
  unfolding print_entries
  Ensures-print_entries [] = Ensures-lift Any (ok tt) tt refl tt
  Ensures-print_entries (line ∷ lines) =
      Ensures->>= Any _ _ _ (Ensures-own _ (entry-IsOwn line (host.loads line)))
        (λ v u. Ensures-print_entries lines)

  pub Ensures-print_tail :
      (path : String) (n : ℕ) (file : Option (List String))
      → Ensures Any (print_tail host path n file)
  unfolding print_tail
  Ensures-print_tail path n none = Ensures-own _ tt
  Ensures-print_tail path n (some lines) = Ensures-print_entries (last_lines n lines)

  pub Ensures-print_audit_tail :
      (path : String) (n : ℕ) → Ensures Any (print_audit_tail host path n)
  unfolding print_audit_tail
  Ensures-print_audit_tail path n = record {
    at = λ s. (Ensures-print_tail path n (host.audit_file s.tick path)).at _;
  }

  -- What the scenarios read off an answer that came.
  pub Ensures-show_decision :
      (gateway : String) (otherwise : Colour) (resp : Response) (h : IsReadable host resp)
      → Ensures Any (show_decision host gateway otherwise h.body)
  unfolding show_decision decision_line
  Ensures-show_decision gateway otherwise resp h =
      Ensures->>= (λ told. told ≡ str h.told) Any _ _ (Ensures-lift _ _ _ h.decision refl)
        (λ told same. rw same (
          Ensures->>= (λ line. host.rich line ≡ none) Any _ _
            (Ensures-lift (λ line. host.rich line ≡ none) _ _ refl (h.decision_shown _))
            (λ line shown.
              Ensures->>= Any Any _ _ (Ensures-print line shown)
                (λ v u. Ensures-print_audit_tail "audit.log" 1))))

  -- One exchange: a request, its response printed, and the rest with the body.
  pub Ensures-shown :
      (gateway token : String) (body : AgentActionRequest) (label : String)
      (f : Response → Value → Demo Unit)
      → ((resp : Response) (h : IsReadable host resp) → Ensures Any (f resp h.body))
      → Ensures Any (
          post_action host gateway token body >>= λ resp.
          print_response host resp label >>= λ body. f resp body)
  Ensures-shown gateway token body label f k =
      Ensures->>= (IsReadable host) Any _ _ (Ensures-post_action gateway token body) (λ resp h.
        Ensures->>= (λ b. b ≡ h.body) Any _ _ (Ensures-print_response resp label h)
          (λ b same. rw same (k resp h)))

  pub ended : Ensures Any (lift (ok tt))
  ended = Ensures-lift Any (ok tt) tt refl tt
