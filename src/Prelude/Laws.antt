-- ===== src/Prelude/Laws.antt =====
-- Laws of the lists, maps and sorts that the components share.
use Prim.Native.Nat.{ℕ, zero, suc}
use Prim.Native.String.{String}
use mathlib.Core.Path.{◌≡◌, refl, sym, ap, subst}
use mathlib.Core.Logic.{◌≢◌, ◌⊎◌, inl, inr}
use mathlib.Core.Bool.{Bool, true, false}
use mathlib.Core.Option.{none, some}
use mathlib.Core.List.{List, [], ◌∷◌, ◌++◌, map}
use native.Mathlib.Omega.{arith}
use gmux.Prelude.Tests.{Bool-cases, if◌then◌else◌}
use gmux.Prelude.Texts.{str_eq, str_eq_refl, str_eq-cases}
use gmux.Prelude.Lists.{take, length}
use gmux.Prelude.Collections.{All, In, insert_sorted, sort_stable, lookup, delete, insert}

pub All-In : {A : Type 0} (P : A → Type 0) {x : A} (xs : List A) → All P xs → In x xs → P x
All-In P [] h i = absurd i
All-In P (y ∷ ys) h (inl e) = subst P (sym e) h.0
All-In P (y ∷ ys) h (inr i) = All-In P ys h.1 i

pub In-All : {A : Type 0} {P : A → Type 0} (xs : List A) → ((x : A) → In x xs → P x) → All P xs
In-All [] h = tt
In-All (x ∷ xs) h = (h x (inl refl), In-All xs (λ y i. h y (inr i)))

pub All-imp :
    {A : Type 0} {P Q : A → Type 0} (xs : List A) → ((x : A) → P x → Q x) → All P xs → All Q xs
All-imp [] f h = tt
All-imp (x ∷ xs) f h = (f x h.0, All-imp xs f h.1)

pub In-append : {A : Type 0} (x : A) (xs ys : List A) → In x (xs ++ ys) → In x xs ⊎ In x ys
In-append x [] ys i = inr i
In-append x (y ∷ xs) ys (inl e) = inl (inl e)
In-append x (y ∷ xs) ys (inr i) = elim (In-append x xs ys i) [ inl j ↦ inl (inr j) | inr j ↦ inr j ]

pub In-map :
    {A B : Type 0} (f : A → B) (y : B) (xs : List A)
    → In y (map f xs)
    → (x : A) × In x xs × (y ≡ f x)
In-map f y [] i = absurd i
In-map f y (x ∷ xs) (inl e) = (x, inl refl, e)
In-map f y (x ∷ xs) (inr i) = let (z, j, e) = In-map f y xs i in (z, inr j, e)

pub All-append :
    {A : Type 0} (P : A → Type 0) (xs ys : List A) → All P xs → All P ys → All P (xs ++ ys)
All-append P [] ys h k = k
All-append P (x ∷ xs) ys h k = (h.0, All-append P xs ys h.1 k)

pub All-take : {A : Type 0} (P : A → Type 0) (n : ℕ) (xs : List A) → All P xs → All P (take n xs)
All-take P zero xs h = tt
All-take P (suc n) [] h = tt
All-take P (suc n) (x ∷ xs) h = (h.0, All-take P n xs h.1)

-- No two elements have the same key.
abbrev pub Distinct : {A K : Type 0} → (A → K) → List A → Type 0
Distinct key [] = Unit
Distinct key (x ∷ xs) = All (λ y. key x ≢ key y) xs × Distinct key xs

pub Distinct-take :
    {A K : Type 0} (key : A → K) (n : ℕ) (xs : List A) → Distinct key xs → Distinct key (take n xs)
Distinct-take key zero xs h = tt
Distinct-take key (suc n) [] h = tt
Distinct-take key (suc n) (x ∷ xs) h = (All-take _ n xs h.0, Distinct-take key n xs h.1)

-- Two members with the same key are one.
pub Distinct-In :
    {A K : Type 0} (key : A → K) {x y : A} (xs : List A)
    → Distinct key xs
    → In x xs
    → In y xs
    → key x ≡ key y
    → x ≡ y
Distinct-In key [] d i j e = absurd i
Distinct-In key (z ∷ zs) d (inl p) (inl q) e = cc
Distinct-In key {x = x} {y = y} (z ∷ zs) d (inl p) (inr j) e =
    absurd (All-In _ zs d.0 j (subst (λ w. key w ≡ key y) p e))
Distinct-In key {x = x} {y = y} (z ∷ zs) d (inr i) (inl q) e =
    absurd (All-In _ zs d.0 i (subst (λ w. key w ≡ key x) q (sym e)))
Distinct-In key (z ∷ zs) d (inr i) (inr j) e = Distinct-In key zs d.1 i j e

module _ {A : Type 0} (less : A → A → Bool) where
  pub All-insert_sorted :
      (P : A → Type 0) (x : A) (xs : List A) → P x → All P xs → All P (insert_sorted less x xs)
  unfolding insert_sorted
  All-insert_sorted P x [] p h = (p, tt)
  All-insert_sorted P x (y ∷ ys) p h = elim (Bool-cases (less y x)) [
    | inl e ↦ rw e (h.0, All-insert_sorted P x ys p h.1)
    | inr e ↦ rw e (p, (h.0, h.1))
  ]

  pub All-sort_stable : (P : A → Type 0) (xs : List A) → All P xs → All P (sort_stable less xs)
  unfolding sort_stable
  All-sort_stable P [] h = tt
  All-sort_stable P (x ∷ xs) h = All-insert_sorted P x _ h.0 (All-sort_stable P xs h.1)

  length-insert_sorted : (x : A) (xs : List A) → length (insert_sorted less x xs) ≡ suc (length xs)
  unfolding insert_sorted
  length-insert_sorted x [] = refl
  length-insert_sorted x (y ∷ ys) = elim (Bool-cases (less y x)) [
    | inl e ↦ rw e (ap suc (length-insert_sorted x ys))
    | inr e ↦ rw e
  ]

  pub length-sort_stable : (xs : List A) → length (sort_stable less xs) ≡ length xs
  unfolding sort_stable
  length-sort_stable [] = refl
  length-sort_stable (x ∷ xs) =
      omega (arith, length-insert_sorted x (sort_stable less xs), length-sort_stable xs)

  Distinct-insert_sorted :
      {K : Type 0} (key : A → K) (x : A) (xs : List A)
      → All (λ y. key x ≢ key y) xs
      → Distinct key xs
      → Distinct key (insert_sorted less x xs)
  unfolding insert_sorted
  Distinct-insert_sorted key x [] p h = (tt, tt)
  Distinct-insert_sorted key x (y ∷ ys) p h = elim (Bool-cases (less y x)) [
    | inl e ↦
        rw e
          (All-insert_sorted _ x ys (λ q. p.0 (sym q)) h.0, Distinct-insert_sorted key x ys p.1 h.1)
    | inr e ↦ rw e (p, h)
  ]

  pub Distinct-sort_stable :
      {K : Type 0} (key : A → K) (xs : List A)
      → Distinct key xs
      → Distinct key (sort_stable less xs)
  unfolding sort_stable
  Distinct-sort_stable key [] h = tt
  Distinct-sort_stable key (x ∷ xs) h =
      Distinct-insert_sorted key x _ (All-sort_stable _ xs h.0) (Distinct-sort_stable key xs h.1)

module _ {V : Type 0} where
  pub lookup-delete :
      (i k : String) (m : List (String × V))
      → lookup i (delete k m) ≡ (if str_eq k i then none else lookup i m)
  unfolding lookup delete
  lookup-delete i k [] = ground (arith)
  lookup-delete i k ((j, v) ∷ m) =
      let rest = lookup-delete i k m in
      elim (str_eq-cases j k) [
        | inl same ↦ rw (same, str_eq_refl k, delete) (ground (arith, rest))
        | inr apart ↦
            rw (apart, delete)
              (elim (str_eq-cases k i) [
                | inl here ↦
                    let far : str_eq j i ≡ false = rw here at apart in
                    let gone : str_eq k i ≡ true = rw here (str_eq_refl i) in
                    ground (arith, rest, far, gone)
                | inr there ↦ ground (arith, rest, there)
              ])
      ]

  pub lookup-insert :
      (i k : String) (v : V) (m : List (String × V))
      → lookup i (insert k v m) ≡ (if str_eq k i then some v else lookup i m)
  unfolding lookup insert
  lookup-insert i k v m = ground (arith, lookup-delete i k m)
