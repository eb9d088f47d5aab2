-- ===== src/Common/Text.antt =====
-- C strings as lists of bytes without their terminator, and what the program uses of string.h,
-- ctype.h and printf (in the "C" locale).
use Prim.Native.Nat.{ℕ, zero, suc, ◌+◌, ◌-◌, ◌/◌, ◌%◌}
use Prim.Native.Char.{code}
use Prim.Native.String.{String}
use mathlib.Core.Path.{◌≡◌, refl}
use mathlib.Core.Logic.{◌↔◌, ◌≢◌}
use mathlib.Core.Bool.{Bool, true, false, ◌&&◌, ◌||◌}
use mathlib.Core.List.{List, [], ◌∷◌, ◌++◌, map}
use native.Mathlib.Omega.{arith}
use khttp.Common.Tests.{ltb, leb, ◌==◌, if◌then◌else◌}

abbrev pub Bytes : Type 0
Bytes = List ℕ

-- The bytes of an ASCII literal.
abbrev pub codes : String → Bytes
codes String.[] = []
codes (String.◌∷◌ c s) = code c ∷ codes s

-- strcmp(a, b) == 0
abbrev pub str_eq : Bytes → Bytes → Bool
str_eq [] [] = true
str_eq [] (d ∷ t) = false
str_eq (c ∷ s) [] = false
str_eq (c ∷ s) (d ∷ t) = (c == d) && str_eq s t

pub str_eq_iff : (a b : Bytes) → (str_eq a b ≡ true) ↔ (a ≡ b)
str_eq_iff [] [] = (λ _. refl, λ _. refl)
str_eq_iff [] (d ∷ t) = (λ h. cc, λ h. cc)
str_eq_iff (c ∷ s) [] = (λ h. cc, λ h. cc)
str_eq_iff (c ∷ s) (d ∷ t) = ground (arith, str_eq_iff s t)

pub str_eq_self : (a : Bytes) → str_eq a a ≡ true
str_eq_self a = (str_eq_iff a a).1 refl

-- Two texts that the comparison tells apart are different.
pub ne_of_str_eq : (a b : Bytes) → str_eq a b ≡ false → a ≢ b
ne_of_str_eq a b h e = cc ((str_eq_iff a b).1 e)

unfoldable pub to_lower : ℕ → ℕ
to_lower c = if leb b'A' c && leb c b'Z' then c + 32 else c

-- strcasecmp(a, b) == 0
unfoldable pub str_case_eq : Bytes → Bytes → Bool
unfolding to_lower
str_case_eq a b = str_eq (map to_lower a) (map to_lower b)

-- strncmp(a, b, strlen(a)) == 0
abbrev pub str_prefix : Bytes → Bytes → Bool
str_prefix [] b = true
str_prefix (c ∷ s) [] = false
str_prefix (c ∷ s) (d ∷ t) = (c == d) && str_prefix s t

pub str_prefix-append : (a b : Bytes) → str_prefix a (a ++ b) ≡ true
str_prefix-append [] b = refl
str_prefix-append (c ∷ s) b = ground (arith, str_prefix-append s b)

-- isspace
abbrev pub is_space : ℕ → Bool
is_space c = (c == 32) || (leb 9 c && leb c 13)

-- A digit as printf writes it, bases up to sixteen.
abbrev pub digit : ℕ → ℕ
digit d = if ltb d 10 then b'0' + d else b'a' + d - 10

-- The digits of a number in front of a text; the fuel bounds the number of digits.
unfoldable pub digits : ℕ → ℕ → ℕ → Bytes → Bytes
digits zero base n out = out
digits (suc f) base n out = elim (n == 0) [
  | true ↦ out
  | false ↦ digits f base (n / base) (digit (n % base) ∷ out)
]

-- printf's %u (base 10) and %zx (base 16): a number below 2 ^ 64 has at most 64 digits.
unfoldable pub print_base : ℕ → ℕ → Bytes
unfolding digits
print_base base n = if n == 0 then b'0' ∷ [] else digits 64 base n []

-- The stretch so far, if there is one, in front of the later tokens.
unfoldable pub put_token : Bytes → List Bytes → List Bytes
put_token [] later = later
put_token (c ∷ token) later = (c ∷ token) ∷ later

-- `strtok_r`: the stretches between separators, the empty ones left out. The last argument is the
-- stretch so far.
unfoldable pub tokens : (ℕ → Bool) → Bytes → Bytes → List Bytes
unfolding put_token
tokens sep [] token = put_token token []
tokens sep (c ∷ s) token =
    let here = tokens sep s [] in
    let on = tokens sep s (token ++ c ∷ []) in if sep c then put_token token here else on
