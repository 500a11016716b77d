-- ===== src/Examples/Scores.antt =====
-- The scorer at concrete requests.
use ai_k8s_gateway.Base.{◌≤◌, ◌≡◌, refl, ◌↔◌, true, some, [], ◌∷◌, contains, lookup}
use ai_k8s_gateway.Base.Int.{pos}
use ai_k8s_gateway.Config.{defaults}
use ai_k8s_gateway.Errors.{overflow_error, ok, raise}
use ai_k8s_gateway.Value.{bool, str, float, infinite, Params}
use ai_k8s_gateway.Text.{ascii, normal, strip, lower}
use ai_k8s_gateway.Risk.{
  RiskScore, high, write_verbs, action_weight, host_access, untrusted_image, replica_excess, score,
}
use ai_k8s_gateway.Risk.Balance.{sum_points, score-sum_points}
use ai_k8s_gateway.Risk.Bands.{IsBanded, score-IsBanded}
use ai_k8s_gateway.Risk.Payload.{HasInfiniteReplicas, score-privileged, score-raises_iff}

abbrev risky_params : Params
risky_params =
    ("privileged", bool true) ∷ ("image", str "cryptominer:latest") ∷ ("replicas", str "100") ∷ []

abbrev risky_score : RiskScore
risky_score = record {
  level = high;
  score = 6;
  reasons =
      action_weight "create" 1
      ∷ host_access "privileged" 3
      ∷ untrusted_image "cryptominer:latest"
      ∷ replica_excess (pos 100) (pos 10)
      ∷ [];
}

scored_risky :
    score ascii defaults " CREATE" "deployments" "demo" (some risky_params) ≡ ok risky_score
unfolding score
scored_risky = refl

scored_infinite :
    score ascii defaults "create" "pods" "demo" (some (("replicas", float (infinite true)) ∷ []))
    ≡ raise overflow_error
unfolding score
scored_infinite = refl

score-IsBanded_example : (6 ≤ 18) × IsBanded risky_score
score-IsBanded_example =
    score-IsBanded ascii defaults " CREATE" "deployments" "demo" (some risky_params) risky_score
      scored_risky

score-sum_points_example : 6 ≡ sum_points risky_score.reasons
score-sum_points_example =
    score-sum_points ascii defaults " CREATE" "deployments" "demo" (some risky_params) risky_score
      scored_risky

create_writes : contains write_verbs (normal ascii " CREATE") ≡ true
unfolding contains lower strip
create_writes = refl

is_privileged : lookup "privileged" risky_params ≡ some (bool true)
unfolding lookup
is_privileged = refl

score-privileged_example : risky_score.level ≡ high
score-privileged_example =
    score-privileged ascii defaults " CREATE" "deployments" "demo" risky_params risky_score
      create_writes is_privileged scored_risky

score-raises_iff_example :
    (score ascii defaults "create" "pods" "demo" (some (("replicas", float (infinite true)) ∷ []))
      ≡ raise overflow_error)
    ↔ ((overflow_error ≡ overflow_error)
        × (contains write_verbs (normal ascii "create") ≡ true)
        × HasInfiniteReplicas (("replicas", float (infinite true)) ∷ []))
score-raises_iff_example =
    score-raises_iff ascii defaults "create" "pods" "demo"
      (("replicas", float (infinite true)) ∷ []) overflow_error
