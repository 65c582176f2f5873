-- ===== src/Prelude/Sorting.antt =====
-- What a stable sort and a cut of its result give.
use Prim.Native.Nat.{ℕ, zero, suc}
use mathlib.Core.Path.{◌≡◌}
use mathlib.Core.Logic.{◌⊎◌, inl, inr}
use mathlib.Core.Bool.{Bool, true, false}
use mathlib.Core.List.{List, [], ◌∷◌}
use gmux.Prelude.Tests.{Bool-cases}
use gmux.Prelude.Lists.{take}
use gmux.Prelude.Collections.{All, In, insert_sorted, sort_stable}
use gmux.Prelude.Laws.{All-imp, All-In, All-insert_sorted}

module _ {A : Type 0} (less : A → A → Bool) where
  pub In-insert_sorted :
      {y : A} (x : A) (xs : List A) → (y ≡ x) ⊎ In y xs → In y (insert_sorted less x xs)
  unfolding insert_sorted
  In-insert_sorted x [] h = h
  In-insert_sorted x (z ∷ zs) (inl e) = elim (Bool-cases (less z x)) [
    | inl b ↦ rw b (inr (In-insert_sorted x zs (inl e)))
    | inr b ↦ rw b (inl e)
  ]
  In-insert_sorted x (z ∷ zs) (inr (inl e)) = elim (Bool-cases (less z x)) [
    | inl b ↦ rw b (inl e)
    | inr b ↦ rw b (inr (inl e))
  ]
  In-insert_sorted x (z ∷ zs) (inr (inr i)) = elim (Bool-cases (less z x)) [
    | inl b ↦ rw b (inr (In-insert_sorted x zs (inr i)))
    | inr b ↦ rw b (inr (inr i))
  ]

  pub In-sort_stable : (y : A) (xs : List A) → In y xs → In y (sort_stable less xs)
  unfolding sort_stable
  In-sort_stable y [] i = i
  In-sort_stable y (x ∷ xs) (inl e) = In-insert_sorted x _ (inl e)
  In-sort_stable y (x ∷ xs) (inr i) = In-insert_sorted x _ (inr (In-sort_stable y xs i))

  -- No element stands behind one that it comes before.
  abbrev pub IsOrdered : List A → Type 0
  IsOrdered [] = Unit
  IsOrdered (x ∷ xs) = All (λ y. less y x ≡ false) xs × IsOrdered xs

  -- A strict weak order.
  pub record IsOrder : Type 0 where
    pub asym : (x y : A) → less x y ≡ true → less y x ≡ false
    pub trans : (x y z : A) → less y x ≡ false → less z y ≡ false → less z x ≡ false

  IsOrdered-insert_sorted :
      IsOrder → (x : A) (xs : List A) → IsOrdered xs → IsOrdered (insert_sorted less x xs)
  unfolding insert_sorted
  IsOrdered-insert_sorted o x [] h = (tt, tt)
  IsOrdered-insert_sorted o x (y ∷ ys) h = elim (Bool-cases (less y x)) [
    | inl b ↦ rw b (
      All-insert_sorted less (λ z. less z y ≡ false) x ys (o.asym y x b) h.0,
      IsOrdered-insert_sorted o x ys h.1,
    )
    | inr b ↦ rw b ((b, All-imp ys (λ z c. o.trans x y z b c) h.0), (h.0, h.1))
  ]

  pub IsOrdered-sort_stable : IsOrder → (xs : List A) → IsOrdered (sort_stable less xs)
  unfolding sort_stable
  IsOrdered-sort_stable o [] = tt
  IsOrdered-sort_stable o (x ∷ xs) = IsOrdered-insert_sorted o x _ (IsOrdered-sort_stable o xs)

  -- What is cut off does not come before what is kept.
  pub take_first :
      (y : A) (n : ℕ) (xs : List A)
      → IsOrdered xs
      → In y xs
      → In y (take n xs) ⊎ All (λ x. less y x ≡ false) (take n xs)
  take_first y zero xs o i = inr tt
  take_first y (suc n) [] o i = inr tt
  take_first y (suc n) (x ∷ xs) o (inl e) = inl (inl e)
  take_first y (suc n) (x ∷ xs) o (inr i) = elim (take_first y n xs o.1 i) [
    | inl j ↦ inl (inr j)
    | inr a ↦ inr (All-In (λ z. less z x ≡ false) xs o.0 i, a)
  ]
