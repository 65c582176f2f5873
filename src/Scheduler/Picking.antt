-- ===== src/Scheduler/Picking.antt =====
-- scheduler.go: `pickSeats` gives as many seats as it is asked for, free ones, none twice.
use native.Mathlib.Decide.{ℕ_discrete}
use gmux.Prelude.{
  ℕ, zero, suc, ◌+◌, ◌-◌, ◌≤◌, ◌<◌, ◌≡◌, refl, ap, ◌∙◌, inl, inr, Bool, true, false, List, [], ◌∷◌,
  ◌++◌, some, if◌then◌else◌, ◌==◌, ltb, arith, set, length, length-append, Bool-cases, Option-cases,
  insert_sorted, sort_stable, length-sort_stable,
}
use gmux.Scheduler.Seating.{
  is_free, take_kept, run_free, first_run, range, lowest_free, sorted_ints, pick_fresh, pick_rest,
  pick_from,
}
use gmux.Scheduler.Marks.{count, frees}

-- 1 for a free seat, 0 for another.
abbrev pub vacancy : List Bool → ℕ → ℕ
vacancy used i = if is_free used i then 1 else 0

-- n free seats, none twice.
pub record IsPick (used : List Bool) (n : ℕ) (out : List ℕ) : Type 0 where
  pub many : length out ≡ n
  pub free : (i : ℕ) → count i out ≤ vacancy used i

count-insert_sorted : (i x : ℕ) (xs : List ℕ) → count i (insert_sorted ltb x xs) ≡ count i (x ∷ xs)
unfolding insert_sorted count
count-insert_sorted i x [] = refl
count-insert_sorted i x (y ∷ ys) = ground (arith, count-insert_sorted i x ys)

count-sort : (i : ℕ) (xs : List ℕ) → count i (sort_stable ltb xs) ≡ count i xs
unfolding sort_stable count
count-sort i [] = refl
count-sort i (x ∷ xs) = omega (arith, count-insert_sorted i x (sort_stable ltb xs), count-sort i xs)

IsPick-sorted :
    (used : List Bool) (n : ℕ) (out : List ℕ) → IsPick used n out → IsPick used n (sorted_ints out)
unfolding sorted_ints
IsPick-sorted used n out p = record {
  many = length-sort_stable ltb out ∙ p.many;
  free = λ i. omega (arith, count-sort i out, p.free i);
}

count-append : (i : ℕ) (xs ys : List ℕ) → count i (xs ++ ys) ≡ count i xs + count i ys
unfolding count
count-append i [] ys = omega arith
count-append i (x ∷ xs) ys = omega (arith, count-append i xs ys)

vacancy-set :
    (used : List Bool) (j i : ℕ)
    → is_free used j ≡ true
    → vacancy used i ≡ (if i == j then 1 else 0) + vacancy (set used j true) i
vacancy-set [] j i h = absurd (cc)
vacancy-set (b ∷ bs) zero zero h = ground arith
vacancy-set (b ∷ bs) zero (suc i) h = ground arith
vacancy-set (b ∷ bs) (suc j) zero h = ground arith
vacancy-set (b ∷ bs) (suc j) (suc i) h = ground (arith, vacancy-set bs j i h)

frees-set_free :
    (used : List Bool) (j : ℕ) → is_free used j ≡ true → frees used ≡ suc (frees (set used j true))
unfolding frees
frees-set_free [] j h = absurd (cc)
frees-set_free (b ∷ bs) zero h = ground arith
frees-set_free (b ∷ bs) (suc j) h = ground (arith, frees-set_free bs j h)

-- What the loop over `keep` keeps, and what it leaves free.
record IsKept (n : ℕ) (used : List Bool) (out : List ℕ) (after : List Bool) : Type 0 where
  few : length out ≤ n
  split : (i : ℕ) → vacancy used i ≡ count i out + vacancy after i
  left : frees used ≡ length out + frees after

take_kept-IsKept :
    (n : ℕ) (keep : List ℕ) (used : List Bool)
    → IsKept n used (take_kept n keep used).0 (take_kept n keep used).1
unfolding take_kept count
take_kept-IsKept zero [] used = record {
  few = omega arith;
  split = λ i. omega arith;
  left = omega arith;
}
take_kept-IsKept (suc n) [] used = record {
  few = omega arith;
  split = λ i. omega arith;
  left = omega arith;
}
take_kept-IsKept zero (j ∷ keep) used = record {
  few = omega arith;
  split = λ i. omega arith;
  left = omega arith;
}
take_kept-IsKept (suc n) (j ∷ keep) used = elim (Bool-cases (is_free used j)) [
  | inl e ↦
      let ih = take_kept-IsKept n keep (set used j true) in
      rw (e, take_kept)
        (record {
          few = omega (arith, ih.few);
          split = λ i. omega (arith, ih.split i, vacancy-set used j i e);
          left = omega (arith, ih.left, frees-set_free used j e);
        })
  | inr e ↦ rw (e, take_kept) (take_kept-IsKept (suc n) keep used)
]

length-range : (start n : ℕ) → length (range start n) ≡ n
unfolding range
length-range start zero = refl
length-range start (suc n) = ap suc (length-range (suc start) n)

count-range_below : (i start n : ℕ) → i < start → count i (range start n) ≡ 0
unfolding range count
count-range_below i start zero h = refl
count-range_below i start (suc n) h =
    ground (arith, count-range_below i (suc start) n (omega arith))

run_free-vacancy :
    (used : List Bool) (start n i : ℕ)
    → run_free used start n ≡ true
    → count i (range start n) ≤ vacancy used i
unfolding run_free range count
run_free-vacancy used start zero i h = omega arith
run_free-vacancy used start (suc n) i h = elim (ℕ_discrete i start) [
  | yes e ↦ ground (arith, e, h, count-range_below i (suc start) n (omega arith))
  | no ne ↦ ground (arith, ne, h, run_free-vacancy used (suc start) n i)
]

first_run-free :
    (used : List Bool) (n start count' : ℕ) {found : ℕ}
    → first_run used n start count' ≡ some found
    → run_free used found n ≡ true
unfolding first_run
first_run-free used n start zero h = absurd (cc)
first_run-free used n start (suc c) {found} h = elim (Bool-cases (run_free used start n)) [
  | inl e ↦ let same : start ≡ found = ground (arith, h, e) in rw (← same) e
  | inr e ↦ first_run-free used n (suc start) c (ground (arith, h, e))
]

length-lowest_free :
    (n i : ℕ) (used : List Bool) → n ≤ frees used → length (lowest_free n i used) ≡ n
unfolding lowest_free frees
length-lowest_free zero i used h = refl
length-lowest_free (suc n) i [] h = absurd (omega arith)
length-lowest_free (suc n) i (true ∷ used) h = length-lowest_free (suc n) (suc i) used (omega arith)
length-lowest_free (suc n) i (false ∷ used) h =
    ap suc (length-lowest_free n (suc i) used (omega arith))

-- The list whose first seat is i.
abbrev vacancy_from : ℕ → List Bool → ℕ → ℕ
vacancy_from i used j = if ltb j i then 0 else vacancy used (j - i)

vacancy_from-cons :
    (i j : ℕ) (b : Bool) (used : List Bool)
    → vacancy_from i (b ∷ used) j
      ≡ (if i == j then (if b then 0 else 1) else 0) + vacancy_from (suc i) used j
vacancy_from-cons i j b used = elim (ℕ_discrete j i) [
  | yes e ↦ rw e (let z : i - i ≡ 0 = omega arith in rw z (ground arith))
  | no ne ↦ elim (Bool-cases (ltb j i)) [
    | inl lt ↦ ground (arith, lt)
    | inr ge ↦
        let z : j - i ≡ suc (j - suc i) = ground (arith, ge, ne) in rw z (ground (arith, ge, ne))
  ]
]

lowest_free-vacancy :
    (n i : ℕ) (used : List Bool) (j : ℕ) → count j (lowest_free n i used) ≤ vacancy_from i used j
unfolding lowest_free count
lowest_free-vacancy zero i used j = omega arith
lowest_free-vacancy (suc n) i [] j = omega arith
lowest_free-vacancy (suc n) i (true ∷ used) j =
    ground (arith, vacancy_from-cons i j true used, lowest_free-vacancy (suc n) (suc i) used j)
lowest_free-vacancy (suc n) i (false ∷ used) j =
    ground (arith, vacancy_from-cons i j false used, lowest_free-vacancy n (suc i) used j)

lowest_free-IsPick :
    (n : ℕ) (used : List Bool) → n ≤ frees used → IsPick used n (lowest_free n 0 used)
lowest_free-IsPick n used h = record {
  many = length-lowest_free n 0 used h;
  free = λ i.
      let z : i - 0 ≡ i = omega arith in
      let low : ltb i 0 ≡ false = ground arith in rw (low, z) at (lowest_free-vacancy n 0 used i);
}

pick_fresh-IsPick : (n : ℕ) (used : List Bool) → n ≤ frees used → IsPick used n (pick_fresh n used)
unfolding pick_fresh
pick_fresh-IsPick n used h = elim (Option-cases (first_run used n 0 (suc (length used) - n))) [
  | inl e ↦ rw (e, pick_fresh) (IsPick-sorted used n _ (lowest_free-IsPick n used h))
  | inr (start, e) ↦
      rw (e, pick_fresh)
        (record {
          many = length-range start n;
          free = λ i. run_free-vacancy used start n i (first_run-free used n 0 _ e);
        })
]

-- The seats that were kept and those that are found besides.
pick_rest-IsPick :
    (used after : List Bool) (n need : ℕ) (out : List ℕ)
    → IsKept n used out after
    → need ≡ n - length out
    → n ≤ frees used
    → IsPick used n (pick_rest need out after)
unfolding pick_rest
pick_rest-IsPick used after n zero out k e h =
    IsPick-sorted used n out
      (record { many = omega (arith, k.few); free = λ i. omega (arith, k.split i) })
pick_rest-IsPick used after n (suc need) [] k e h =
    let p = pick_fresh-IsPick (suc need) after (omega (arith, k.left)) in
    record {
      many = omega (arith, p.many);
      free = λ i. unfold count in omega (arith, p.free i, k.split i);
    }
pick_rest-IsPick used after n (suc need) (o ∷ out) k e h =
    let p = lowest_free-IsPick (suc need) after (omega (arith, k.left)) in
    IsPick-sorted used n ((o ∷ out) ++ lowest_free (suc need) 0 after) (record {
      many = omega (arith, length-append (o ∷ out) (lowest_free (suc need) 0 after), p.many);
      free = λ i.
          omega
            (arith, count-append i (o ∷ out) (lowest_free (suc need) 0 after), p.free i, k.split i);
    })

-- Whatever seats it prefers to keep, `pickSeats` gives exactly as many seats as it is asked for,
-- all of them free and none twice, if there are that many free seats.
pub pick_from-IsPick :
    (used : List Bool) (n : ℕ) (keep : List ℕ)
    → n ≤ frees used
    → IsPick used n (pick_from used n keep)
unfolding pick_from
pick_from-IsPick used n keep h =
    pick_rest-IsPick used (take_kept n keep used).1 n _ (take_kept n keep used).0
      (take_kept-IsKept n keep used) refl h
