-- ===== src/Base/Lists.antt =====
-- Lists measured by native numbers, membership tests on texts, and association lists.
use Prim.Native.Nat.{ℕ, suc, ◌+◌}
use Prim.Native.String.{String}
use mathlib.Core.Path.{◌≡◌, sym, subst}
use mathlib.Core.Logic.{inl, inr}
use mathlib.Core.Bool.{Bool, true, false, ◌||◌}
use mathlib.Core.Option.{Option, none, some}
use mathlib.Core.List.{List, [], ◌∷◌, ◌++◌}
use native.Mathlib.Omega.{arith}
use text.Mathlib.Text.{◌==◌}
use text.Mathlib.TextEquality.{eq_iff}
use ai_k8s_gateway.Base.Tests.{if◌then◌else◌, Bool-cases}

module _ {ℓ} {A : Type ℓ} where
  abbrev pub length : List A → ℕ
  length [] = 0
  length (x ∷ xs) = suc (length xs)

  pub length-append : (xs ys : List A) → length (xs ++ ys) ≡ length xs + length ys
  length-append [] ys = omega arith
  length-append (x ∷ xs) ys = omega (arith, length-append xs ys)

  -- Holds of every element.
  abbrev pub All {κ} : (A → Type κ) → List A → Type κ
  All P [] = Unit
  All P (x ∷ xs) = P x × All P xs

-- `s in names`, for a set or tuple of texts.
unfoldable pub contains : List String → String → Bool
contains [] s = false
contains (t ∷ ts) s = s == t || contains ts s

-- `d.get(key)` on an association list.
unfoldable pub lookup {ℓ} : {V : Type ℓ} → String → List (String × V) → Option V
lookup key [] = none
lookup key ((k, v) ∷ pairs) = if k == key then some v else lookup key pairs

-- What holds of every listed text holds of a text that the test finds.
pub contains-All {κ} :
    (P : String → Type κ) (ts : List String) (s : String) → All P ts → contains ts s ≡ true → P s
unfolding contains
contains-All P [] s h e = cc
contains-All P (t ∷ ts) s (p, ps) e = elim (Bool-cases (s == t)) [
  | inl same ↦ subst P (sym ((eq_iff s t).0 same)) p
  | inr other ↦ contains-All P ts s ps (ground arith)
]

module _ {ℓ κ} {A : Type ℓ} (P : A → Type κ) where
  pub All-snoc : (xs : List A) (y : A) → All P xs → P y → All P (xs ++ y ∷ [])
  All-snoc [] y h p = (p, tt)
  All-snoc (x ∷ xs) y h p = (h.0, All-snoc xs y h.1 p)

  -- Taking one element out of the middle.
  pub All-middle :
      (xs : List A) (y : A) (ys : List A) → All P (xs ++ y ∷ ys) → P y × All P (xs ++ ys)
  All-middle [] y ys h = h
  All-middle (x ∷ xs) y ys h = let (p, rest) = All-middle xs y ys h.1 in (p, (h.0, rest))

module _ {ℓ κ μ} {A : Type ℓ} (P : A → Type κ) (Q : A → Type μ) where
  pub All-map : (xs : List A) → ((x : A) → P x → Q x) → All P xs → All Q xs
  All-map [] f h = tt
  All-map (x ∷ xs) f h = (f x h.0, All-map xs f h.1)

-- Two facts about every element.
module _ {ℓ κ μ ν} {A : Type ℓ} (P : A → Type κ) (Q : A → Type μ) (R : A → Type ν) where
  pub All-map_both : (xs : List A) → ((x : A) → P x → Q x → R x) → All P xs → All Q xs → All R xs
  All-map_both [] f h k = tt
  All-map_both (x ∷ xs) f h k = (f x h.0 k.0, All-map_both xs f h.1 k.1)

-- Every two elements at different places are related.
abbrev pub AllPairs {ℓ κ} : {A : Type ℓ} → (A → A → Type κ) → List A → Type κ
AllPairs R [] = Unit
AllPairs R (x ∷ xs) = All (R x) xs × AllPairs R xs

module _ {ℓ κ} {A : Type ℓ} (R : A → A → Type κ) where
  pub AllPairs-snoc :
      (xs : List A) (y : A) → AllPairs R xs → All (λ x. R x y) xs → AllPairs R (xs ++ y ∷ [])
  AllPairs-snoc [] y h k = (tt, tt)
  AllPairs-snoc (x ∷ xs) y h k = (All-snoc (R x) xs y h.0 k.0, AllPairs-snoc xs y h.1 k.1)

  -- What is taken out of the middle was related to all the others.
  pub AllPairs-middle :
      ((x y : A) → R x y → R y x)
      → (xs : List A) (y : A) (ys : List A) → AllPairs R (xs ++ y ∷ ys)
      → All (R y) (xs ++ ys) × AllPairs R (xs ++ ys)
  AllPairs-middle turn [] y ys h = h
  AllPairs-middle turn (x ∷ xs) y ys h =
      let (related, all) = All-middle (R x) xs y ys h.0 in
      let (rest, pairs) = AllPairs-middle turn xs y ys h.1 in
      ((turn x y related, rest), (all, pairs))
