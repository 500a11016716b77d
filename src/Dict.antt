-- ===== src/Dict.antt =====
-- Python's `dict` with text keys, in insertion order: `d[k] = v` on a key that is there keeps its
-- place.
pub mod Laws
use ai_k8s_gateway.Base.{
  ℕ, String, Option, none, some, List, [], ◌∷◌, length, if◌then◌else◌, ◌==◌, lookup,
}

pub record Dict {ℓ} (V : Type ℓ) : Type ℓ where
  pub entries : List (String × V)

module _ {ℓ} {V : Type ℓ} where
  put_entry : String → V → List (String × V) → List (String × V)
  put_entry k v [] = (k, v) ∷ []
  put_entry k v ((j, w) ∷ l) = if j == k then (k, v) ∷ l else (j, w) ∷ put_entry k v l

  without : String → List (String × V) → List (String × V)
  without k [] = []
  without k ((j, w) ∷ l) = if j == k then l else (j, w) ∷ without k l

  values_of : List (String × V) → List V
  values_of [] = []
  values_of ((_, v) ∷ l) = v ∷ values_of l

  unfoldable pub empty : Dict V
  empty = record { entries = [] }

  -- `d.get(k)`
  unfoldable pub get : String → Dict V → Option V
  unfolding lookup
  get k d = lookup k d.entries

  -- `d[k] = v`
  unfoldable pub put : String → V → Dict V → Dict V
  unfolding put_entry
  put k v d = record { entries = put_entry k v d.entries }

  -- `d.pop(k, None)`
  unfoldable pub pop : String → Dict V → Option V × Dict V
  unfolding lookup without
  pop k d = (lookup k d.entries, record { entries = without k d.entries })

  -- `d.values()`
  unfoldable pub values : Dict V → List V
  unfolding values_of
  values d = values_of d.entries

  -- `len(d)`
  unfoldable pub size : Dict V → ℕ
  size d = length d.entries
