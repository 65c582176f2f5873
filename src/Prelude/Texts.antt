-- ===== src/Prelude/Texts.antt =====
-- Tests of Go strings for equality.
use Prim.Native.Nat.{ℕ}
use Prim.Native.Char.{code}
use mathlib.Core.List.{List, [], ◌∷◌}
use Prim.Native.String.{String, ◌++◌}
use mathlib.Core.Path.{◌≡◌, refl}
use mathlib.Core.Logic.{◌⊎◌}
use mathlib.Core.Bool.{Bool, true, false}
use text.Mathlib.Text.{◌==◌}
use text.Mathlib.TextEquality.{eq_iff}
use native.Mathlib.Omega.{arith}

abbrev pub str_eq : String → String → Bool
str_eq a b = a == b

pub str_eq_refl : (a : String) → str_eq a a ≡ true
str_eq_refl a = (eq_iff a a).1 refl

pub str_eq→eq : (a b : String) → str_eq a b ≡ true → a ≡ b
str_eq→eq a b = (eq_iff a b).0

pub str_eq-sym : (a b : String) → str_eq a b ≡ str_eq b a
str_eq-sym a b = ground (arith, eq_iff a b, eq_iff b a)

pub str_eq-cases : (a b : String) → (a ≡ b) ⊎ (str_eq a b ≡ false)
str_eq-cases a b = ground (arith, eq_iff a b)

-- The bytes of a text that is ASCII.
abbrev pub codes : String → List ℕ
codes String.[] = []
codes (String.◌∷◌ c s) = code c ∷ codes s

abbrev pub append_text : String → String → String
append_text a b = a ++ b
