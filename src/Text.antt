-- ===== src/Text.antt =====
-- Python's `str` methods and conversions, as far as app/ uses them: `lower`, `strip`, `str(v)`,
-- `int(v)`. ASCII is written out; what the Unicode tables and `repr` say is a parameter.
pub mod Convert
use Prim.Native.String.{◌++◌ as ◌<>◌, slice}
use ai_k8s_gateway.Base.{
  ℕ, ◌+◌, ◌-◌, ◌*◌, ◌/◌, ◌^◌, Char, code, String, Bool, true, false, ◌&&◌, ◌||◌, not, Option, none,
  some, ltb, leb, eqb, if◌then◌else◌, ◌==◌, ◌≡◌, refl,
}
use ai_k8s_gateway.Base.Int.{ℤ, pos, negsuc, signed}
use ai_k8s_gateway.Errors.{Result, ok, raise, value_error, type_error, overflow_error, ◌>>=◌}
use ai_k8s_gateway.Value.{
  Float, nan, infinite, finite, Value, null, bool, int, float, str, arr, obj, Params, get_or,
}

-- What the interpreter's tables give: the lower case of a character past ASCII, between what stands
-- before it since the last space and what stands after it (a final sigma has a form of its own); the
-- decimal value of a character past ASCII; the text of a value that is neither None, a bool nor a text;
-- and `repr`.
pub record Python : Type 0 where
  pub lower_wide : (before : String) → Char → (after : String) → String
  pub digit_wide : Char → Option ℕ
  pub show : Value → String
  pub repr : Value → String

-- `c.isspace()`, by the code points that Python lists.
abbrev is_space_code : ℕ → Bool
is_space_code n =
    (leb 9 n && leb n 13)
    || (leb 28 n && leb n 32)
    || eqb n 0x85
    || eqb n 0xa0
    || eqb n 0x1680
    || (leb 0x2000 n && leb n 0x200a)
    || eqb n 0x2028
    || eqb n 0x2029
    || eqb n 0x202f
    || eqb n 0x205f
    || eqb n 0x3000

unfoldable pub is_space : Char → Bool
is_space c = is_space_code (code c)

lstrip : (Char → Bool) → String → String
lstrip blank String.[] = String.[]
lstrip blank (String.◌∷◌ c s) =
    let rest = lstrip blank s in if blank c then rest else String.◌∷◌ c s

rstrip : (Char → Bool) → String → String
rstrip blank String.[] = String.[]
rstrip blank (String.◌∷◌ c s) =
    let rest = rstrip blank s in if blank c && rest == "" then String.[] else String.◌∷◌ c rest

-- `s.strip()`
unfoldable pub strip : String → String
unfolding lstrip rstrip is_space
strip s = rstrip is_space (lstrip is_space s)

-- What `int(text)` strips: it leaves the four separators U+001C to U+001F.
abbrev is_int_space : Char → Bool
is_int_space c = let n = code c in is_space_code n && not (leb 28 n && leb n 31)

strip_int : String → String
unfolding lstrip rstrip
strip_int s = rstrip is_int_space (lstrip is_int_space s)

abbrev alphabet : String
alphabet = "abcdefghijklmnopqrstuvwxyz"

abbrev max_str_digits : ℕ
max_str_digits = 4300

module _ (py : Python) where
  abbrev lower_char : (before : String) → Char → (after : String) → String
  lower_char before c after =
      let n = code c in
      if leb 65 n && leb n 90
      then slice alphabet (n - 65) (n - 64)
      else if ltb n 128
      then String.◌∷◌ c String.[]
      else py.lower_wide before c after

  -- `before` is what stands before since the last space.
  lower_from : (before : String) → String → String
  lower_from before String.[] = String.[]
  lower_from before (String.◌∷◌ c s) =
      lower_char before c s
      <> lower_from (if eqb (code c) 32 then "" else before <> String.◌∷◌ c "") s

  -- `s.lower()`
  unfoldable pub lower : String → String
  unfolding lower_from
  lower s = lower_from "" s

  -- `s.lower().strip()`
  abbrev pub normal : String → String
  normal s = strip (lower s)

  digit : Char → Option ℕ
  digit c =
      let n = code c in
      if leb 48 n && leb n 57 then some (n - 48) else if ltb n 128 then none else py.digit_wide c

  -- The digits of `int(text)`: single underscores may stand between two of them. `after` says
  -- that a digit stands just before.
  digits : (count acc : ℕ) → (after : Bool) → String → Option ℕ
  digits count acc after String.[] = if after && leb count max_str_digits then some acc else none
  digits count acc after (String.◌∷◌ c s) = elim (eqb (code c) 95) [
    | true ↦ elim after [ true ↦ digits count acc false s | false ↦ none ]
    | false ↦ elim (digit c) [ some d ↦ digits (count + 1) (acc * 10 + d) true s | none ↦ none ]
  ]

  sign_of : Bool → Option ℕ → Result ℤ
  sign_of negative (some n) = ok (signed negative n)
  sign_of negative none = raise value_error

  -- `int(text)`, the text stripped.
  int_of_stripped : String → Result ℤ
  unfolding digits digit sign_of
  int_of_stripped String.[] = raise value_error
  int_of_stripped (String.◌∷◌ c s) =
      if eqb (code c) 45
      then sign_of true (digits 0 0 false s)
      else if eqb (code c) 43
      then sign_of false (digits 0 0 false s)
      else sign_of false (digits 0 0 false (String.◌∷◌ c s))

  -- `int(v)`
  unfoldable pub int_of : Value → Result ℤ
  unfolding int_of_stripped strip_int
  int_of (int n) = ok n
  int_of (bool true) = ok (pos 1)
  int_of (bool false) = ok (pos 0)
  int_of (float nan) = raise value_error
  int_of (float (infinite _)) = raise overflow_error
  int_of (float (finite negative n k)) = ok (signed negative (n / 2 ^ k))
  int_of (str s) = int_of_stripped (strip_int s)
  int_of null = raise type_error
  int_of (arr _) = raise type_error
  int_of (obj _) = raise type_error

  -- `str(v)`
  unfoldable pub str_of : Value → String
  str_of (str s) = s
  str_of null = "None"
  str_of (bool true) = "True"
  str_of (bool false) = "False"
  str_of v = py.show v

-- The tables that know nothing past ASCII, for tests.
abbrev pub ascii : Python
ascii = record {
  lower_wide = λ before c after. String.◌∷◌ c String.[];
  digit_wide = λ _. none;
  show = λ _. "";
  repr = λ _. "";
}

normal_tests : (normal ascii " Kube-SYSTEM\n" ≡ "kube-system") × (strip "" ≡ "")
unfolding strip lower
normal_tests = (refl, refl)

int_of_tests :
    (int_of ascii (str " +1_000 ") ≡ ok (pos 1000))
    × (int_of ascii (str "1__0") ≡ raise value_error)
    × (int_of ascii (str "-7") ≡ ok (negsuc 6))
    × (int_of ascii (str "x") ≡ raise value_error)
    × (int_of ascii (str "\u{1c}5") ≡ raise value_error)
    × (int_of ascii (float (finite true 7 1)) ≡ ok (negsuc 2))
unfolding int_of
int_of_tests = (refl, refl, refl, refl, refl, refl)
