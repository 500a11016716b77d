-- ===== src/Value.antt =====
-- The values that JSON bodies carry (`dict[str, Any]` in app/main.py), as Python's json module
-- builds them.
use ai_k8s_gateway.Base.{
  ℕ, String, Bool, true, false, none, some, List, [], ◌∷◌, lookup, eqb, not, ◌≡◌, arith,
}
use ai_k8s_gateway.Base.Int.{ℤ, pos, negsuc}

-- A double. `finite negative n k` is n / 2^k with that sign.
pub data Float : Type 0 where
  nan : Float
  infinite : Bool → Float
  finite : Bool → ℕ → ℕ → Float

-- `Items` and `Fields` are lists of values and of keyed values.
mutual
  pub data Value : Type 0 where
    null : Value
    bool : Bool → Value
    int : ℤ → Value
    float : Float → Value
    str : String → Value
    obj : Fields → Value
    arr : Items → Value

  pub data Fields : Type 0 where
    end : Fields
    field : (key : String) (value : Value) (rest : Fields) → Fields

  pub data Items : Type 0 where
    cons : (item : Value) (rest : Items) → Items
    nil : Items

-- A dict. Its keys are distinct, so the first binding of a key is the only one.
abbrev pub Params : Type 0
Params = List (String × Value)

abbrev pub fields : Fields → Params
fields end = []
fields (field k v fs) = (k, v) ∷ fields fs

abbrev pub items : List Value → Items
items [] = nil
items (v ∷ vs) = cons v (items vs)

abbrev pub to_fields : Params → Fields
to_fields [] = end
to_fields ((k, v) ∷ rest) = field k v (to_fields rest)

abbrev pub dict : Params → Value
dict ps = obj (to_fields ps)

-- `d.get(key, default)`
unfoldable pub get_or : Value → String → Params → Value
unfolding lookup
get_or default key ps = elim (lookup key ps) [ none ↦ default | some v ↦ v ]

-- `v is True`
abbrev pub is_true : Value → Bool
is_true (bool b) = b
is_true _ = false

-- `v is None`
abbrev pub is_none : Value → Bool
is_none null = true
is_none _ = false

-- `bool(v)`
unfoldable pub truthy : Value → Bool
truthy null = false
truthy (bool b) = b
truthy (int (pos n)) = not (eqb n 0)
truthy (int (negsuc n)) = true
truthy (float nan) = true
truthy (float (infinite _)) = true
truthy (float (finite _ n _)) = not (eqb n 0)
truthy (str String.[]) = false
truthy (str (String.◌∷◌ _ _)) = true
truthy (arr nil) = false
truthy (arr (cons _ _)) = true
truthy (obj end) = false
truthy (obj (field _ _ _)) = true

module _ (default v : Value) (key : String) (ps : Params) where
  pub get_or-some : lookup key ps ≡ some v → get_or default key ps ≡ v
  unfolding get_or
  get_or-some h = ground arith

  pub get_or-none : lookup key ps ≡ none → get_or default key ps ≡ default
  unfolding get_or
  get_or-none h = ground arith
