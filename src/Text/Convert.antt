-- ===== src/Text/Convert.antt =====
-- Which exception `int(v)` raises.
use ai_k8s_gateway.Base.{
  String, ◌≡◌, refl, ◌⊎◌, inl, inr, Bool, true, false, Option, none, some, arith, ℕ, if◌then◌else◌,
  eqb, code,
}
use ai_k8s_gateway.Base.Int.{ℤ}
use ai_k8s_gateway.Errors.{Exception, Result, ok, raise, value_error, type_error, overflow_error}
use ai_k8s_gateway.Value.{Value, float, str, infinite}
use ai_k8s_gateway.Text.{Python, sign_of, digits, int_of_stripped, int_of, strip_int}

-- An integer, or the ValueError of a text that is none.
abbrev Parses : Result ℤ → Type 0
Parses r = (r ≡ raise value_error) ⊎ ((n : ℤ) × (r ≡ ok n))

module _ (py : Python) where
  sign_of-Parses : (negative : Bool) (o : Option ℕ) → Parses (sign_of py negative o)
  unfolding sign_of
  sign_of-Parses negative (some n) = inr (_, refl)
  sign_of-Parses negative none = inl refl

  if-Parses : (b : Bool) (r q : Result ℤ) → Parses r → Parses q → Parses (if b then r else q)
  if-Parses true r q h k = h
  if-Parses false r q h k = k

  int_of_stripped-Parses : (s : String) → Parses (int_of_stripped py s)
  unfolding int_of_stripped
  int_of_stripped-Parses String.[] = inl refl
  int_of_stripped-Parses (String.◌∷◌ c s) =
      let minus = sign_of py true (digits py 0 0 false s) in
      let plus = sign_of py false (digits py 0 0 false s) in
      let plain = sign_of py false (digits py 0 0 false (String.◌∷◌ c s)) in
      if-Parses (eqb (code c) 45) minus (if eqb (code c) 43 then plus else plain)
        (sign_of-Parses true (digits py 0 0 false s))
        (if-Parses (eqb (code c) 43) plus plain (sign_of-Parses false (digits py 0 0 false s))
          (sign_of-Parses false (digits py 0 0 false (String.◌∷◌ c s))))

  pub int_of-str : (s : String) → Parses (int_of py (str s))
  unfolding int_of
  int_of-str s = int_of_stripped-Parses (strip_int s)

  -- An OverflowError comes from an infinite double only.
  pub int_of-overflow :
      (v : Value)
      → int_of py v ≡ raise overflow_error
      → (negative : Bool) × (v ≡ float (infinite negative))
  int_of-overflow (str s) e = elim (int_of-str s) [ inl bad ↦ cc | inr (n, good) ↦ cc ]
  int_of-overflow (float (infinite negative)) e = (negative, refl)
  int_of-overflow v e = unfold int_of in ground arith

  -- Every other exception of `int(v)` is a ValueError or a TypeError.
  pub int_of-raises :
      (v : Value) (x : Exception)
      → int_of py v ≡ raise x
      → (x ≡ value_error) ⊎ (x ≡ type_error) ⊎ (x ≡ overflow_error)
  int_of-raises (str s) x e = elim (int_of-str s) [ inl bad ↦ inl (cc) | inr (n, good) ↦ cc ]
  int_of-raises v x e = unfold int_of in ground arith
