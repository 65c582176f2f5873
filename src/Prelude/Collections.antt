-- ===== src/Prelude/Collections.antt =====
-- Go's maps keyed by strings as association lists, its sets as lists, and its sorts.
use Prim.Native.String.{String}
use mathlib.Core.Path.{◌≡◌}
use mathlib.Core.Logic.{◌⊎◌}
use mathlib.Core.Bool.{Bool, false, ◌||◌}
use mathlib.Core.List.{List, [], ◌∷◌}
use mathlib.Core.Option.{Option, none, some}
use gmux.Prelude.Tests.{if◌then◌else◌}
use gmux.Prelude.Texts.{str_eq}

-- `m[id]` for a `map[string]bool`.
unfoldable pub contains : String → List String → Bool
contains id [] = false
contains id (x ∷ xs) = str_eq x id || contains id xs

-- `delete(m, id)` on such a set.
unfoldable pub discard : String → List String → List String
discard id [] = []
discard id (x ∷ xs) = if str_eq x id then discard id xs else x ∷ discard id xs

module _ {ℓ} {V : Type ℓ} where
  unfoldable pub lookup : String → List (String × V) → Option V
  lookup id [] = none
  lookup id ((k, v) ∷ m) = if str_eq k id then some v else lookup id m

  unfoldable pub delete : String → List (String × V) → List (String × V)
  delete id [] = []
  delete id ((k, v) ∷ m) = if str_eq k id then delete id m else (k, v) ∷ delete id m

  -- The order of a map's entries is not specified; a new one comes first.
  unfoldable pub insert : String → V → List (String × V) → List (String × V)
  insert id v m = (id, v) ∷ delete id m

-- Every element; some element.
abbrev pub All {ℓ κ} : {A : Type ℓ} → (A → Type κ) → List A → Type κ
All P [] = Unit
All P (x ∷ xs) = P x × All P xs

abbrev pub In : {A : Type 0} → A → List A → Type 0
In x [] = ⊥
In x (y ∷ ys) = (x ≡ y) ⊎ In x ys

-- A stable sort: an element goes behind the ones that do not come after it.
module _ {ℓ} {A : Type ℓ} (less : A → A → Bool) where
  unfoldable pub insert_sorted : A → List A → List A
  insert_sorted x [] = x ∷ []
  insert_sorted x (y ∷ ys) = if less y x then y ∷ insert_sorted x ys else x ∷ y ∷ ys

  unfoldable pub sort_stable : List A → List A
  unfolding insert_sorted
  sort_stable [] = []
  sort_stable (x ∷ xs) = insert_sorted x (sort_stable xs)
