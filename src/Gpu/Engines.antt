-- ===== src/Gpu/Engines.antt =====
-- internal/gpu/amd.go: the rounds of an engine go to the seats that hold them.
use gmux.Prelude.{
  sym, ◌∙◌, lt→ltb, ℕ, zero, suc, ◌+◌, ◌-◌, ◌*◌, ◌/◌, ◌%◌, ◌==◌, ◌≤◌, ◌<◌, ◌≡◌, refl, ap, inl, inr,
  List, [], ◌∷◌, arith, length, In, All, In-append, if◌then◌else◌, Bool-cases, ltb, ==_iff,
}
use gmux.Gpu.Masks.{
  range_from, between, strided, strides, offsets, used_rounds, held_engines, is_key,
}
use gmux.Scheduler.Marks.{count}
use native.Mathlib.Nat.{
  lt_of_mul-lt-mul_left, mul-le-mul_left, mod-lt, mod-eq_of_lt, div-add-mod, add-mod_right,
  div-mul-le_self, div-eq_of_lt-le, div-lt_iff_lt-mul,
}

In-range_from : (u i n : ℕ) → In u (range_from i n) → (i ≤ u) × (u < i + n)
unfolding range_from
In-range_from u i zero m = absurd m
In-range_from u i (suc n) (inl e) = omega arith
In-range_from u i (suc n) (inr m) = omega (arith, In-range_from u (suc i) n m)

pub In-between : (u lo hi : ℕ) → In u (between lo hi) → (lo ≤ u) × (u < hi)
unfolding between
In-between u lo hi m = omega (arith, In-range_from u lo (hi - lo) m)

In-strided : (u fuel r limit g : ℕ) → In u (strided fuel r limit g) → (u < limit) × (u % g ≡ r % g)
unfolding strided
In-strided u zero r limit g m = absurd m
In-strided u (suc fuel) r limit g m = elim (Bool-cases (ltb r limit)) [
  | inl more ↦ elim (let at : In u (r ∷ strided fuel (r + g) limit g) = rw more at m in at) [
    | inl e ↦ rw e (ground arith, refl)
    | inr i ↦
        let (below, same) = In-strided u fuel (r + g) limit g i in
        (below, rw (same) (add-mod_right r g))
  ]
  | inr done ↦ absurd (let gone : In {A = ℕ} u [] = rw done at m in gone)
]

pub In-count : (u : ℕ) (us : List ℕ) → In u us → 1 ≤ count u us
unfolding count
In-count u [] m = absurd m
In-count u (v ∷ us) (inl e) = ground arith
In-count u (v ∷ us) (inr m) = ground (arith, In-count u us m)

In-strides :
    (u limit g : ℕ) (offs : List ℕ)
    → 0 < g
    → All (λ o. o < g) offs
    → In u (strides limit g offs)
    → (u < limit) × (1 ≤ count (u % g) offs)
unfolding strides count
In-strides u limit g [] h below m = absurd m
In-strides u limit g (o ∷ offs) h below m = elim (In-append u (strided limit o limit g) _ m) [
  | inl i ↦
      let (short, same) = In-strided u limit o limit g i in
      (short, rw (same, mod-eq_of_lt below.0) (ground arith))
  | inr i ↦ ground (arith, In-strides u limit g offs h below.1 i)
]

-- The sum of f below n.
total : ℕ → (ℕ → ℕ) → ℕ
total zero f = 0
total (suc n) f = f n + total n f

total-le : (n : ℕ) (f : ℕ → ℕ) → ((j : ℕ) → j < n → f j ≤ 1) → total n f ≤ n
unfolding total
total-le zero f h = omega arith
total-le (suc n) f h = omega (arith, h n (omega arith), total-le n f (λ j below. h j (omega arith)))

total_full :
    (n : ℕ) (f : ℕ → ℕ) (i : ℕ) → ((j : ℕ) → j < n → f j ≤ 1) → total n f ≡ n → i < n → 1 ≤ f i
unfolding total
total_full zero f i h e below = elim below [ ]
total_full (suc n) f i h e below =
    let fewer : (j : ℕ) → j < n → f j ≤ 1 = λ j under. h j (omega arith) in
    elim (Bool-cases (n == i)) [
      | inl same ↦
          let at : n ≡ i = (==_iff n i).0 same in
          rw (← at) (omega (arith, h n (omega arith), total-le n f fewer))
      | inr other ↦
          total_full n f i fewer (omega (arith, h n (omega arith), total-le n f fewer, e))
            (ground arith)
    ]

total-nil : (n : ℕ) → total n (λ i. count i []) ≡ 0
unfolding total count
total-nil zero = refl
total-nil (suc n) = omega (arith, total-nil n)

total-cons :
    (n j : ℕ) (js : List ℕ)
    → total n (λ i. count i (j ∷ js)) ≡ (if ltb j n then 1 else 0) + total n (λ i. count i js)
unfolding total count
total-cons zero j js = ground arith
total-cons (suc n) j js = ground (arith, total-cons n j js)

total-count : (n : ℕ) (js : List ℕ) → All (λ j. j < n) js → total n (λ i. count i js) ≡ length js
total-count n [] h = total-nil n
total-count n (j ∷ js) h = ground (arith, total-cons n j js, total-count n js h.1)

-- A round of an engine goes to a job only if the job holds the seat of the engine that the round
-- falls to; where the job has all the seats of the engine, each round falls to one of them.
pub In-used_rounds :
    (u rounds g : ℕ) (offs : List ℕ)
    → 0 < g
    → All (λ o. o < g) offs
    → ((o : ℕ) → o < g → count o offs ≤ 1)
    → In u (used_rounds rounds g offs)
    → (u < rounds) × (1 ≤ count (u % g) offs)
unfolding used_rounds
In-used_rounds u rounds g offs h below once m = elim (Bool-cases (length offs == g)) [
  | inl full ↦
      let i : In u (between 0 rounds) = rw full at m in
      let e : length offs ≡ g = (==_iff _ g).0 full in
      (
        (In-between u 0 rounds i).1,
        total_full g (λ o. count o offs) (u % g) once (rw (total-count g offs below) e)
            (mod-lt u h),
      )
  | inr part ↦
      let i : In u (strides (rounds / g * g) g offs) = rw part at m in
      let (short, one) = In-strides u (rounds / g * g) g offs h below i in
      (omega (arith, short, div-mul-le_self rounds g), one)
]

pub offsets-below : (g e : ℕ) (ids : List ℕ) → 0 < g → All (λ o. o < g) (offsets g e ids)
unfolding offsets
offsets-below g e [] h = tt
offsets-below g e (s ∷ ss) h = ground (arith, offsets-below g e ss h, mod-lt s h)

-- The offsets within an engine are the seats on it.
pub count-offsets :
    (g e o : ℕ) (ids : List ℕ) → o < g → count o (offsets g e ids) ≡ count (e * g + o) ids
unfolding offsets count
count-offsets g e o [] h = refl
count-offsets g e o (s ∷ ss) h = elim (Bool-cases (s / g == e)) [
  | inl on ↦ rw on (
      ground (
        arith,
        count-offsets g e o ss h,
        div-add-mod s g,
        ap (λ (t : ℕ). g * t) ((==_iff _ e).0 on),
      ))
  | inr off ↦ rw off (ground (arith, count-offsets g e o ss h, div-eq_of_lt-le {k = e} g {m = s}))
]

pub held_engines-below :
    (g engines : ℕ) (ids : List ℕ)
    → 0 < g
    → All (λ s. s < engines * g) ids
    → All (λ e. e < engines) (held_engines g ids)
unfolding held_engines
held_engines-below g engines [] h below = tt
held_engines-below g engines (s ∷ ss) h below =
    let rest = held_engines-below g engines ss h below.1 in
    elim (Bool-cases (is_key (s / g) (held_engines g ss))) [
      | inl old ↦ rw old rest
      | inr new ↦ rw new ((div-lt_iff_lt-mul h).1 below.0, rest)
    ]

-- The fuel that strides gives a loop is enough: no round is left out.
strided_all :
    (u fuel r limit g : ℕ)
    → 0 < g
    → limit ≤ r + fuel
    → r ≤ u
    → u < limit
    → u % g ≡ r % g
    → In u (strided fuel r limit g)
unfolding strided
strided_all u zero r limit g h enough low high same = absurd (omega arith)
strided_all u (suc fuel) r limit g h enough low high same = elim (Bool-cases (u == r)) [
  | inl here ↦ rw (lt→ltb r limit (omega arith)) (inl ((==_iff u r).0 here))
  | inr later ↦
      let above : r < u = ground arith in
      let rounds : suc (r / g) ≤ u / g =
        lt_of_mul-lt-mul_left g (omega (arith, div-add-mod u g, div-add-mod r g, same)) in
      let step : r + g ≤ u =
        omega (arith, div-add-mod u g, div-add-mod r g, same, mul-le-mul_left g rounds) in
      rw (lt→ltb r limit (omega arith)) (
        inr (
          strided_all u fuel (r + g) limit g h (omega arith) step high
            (same ∙ sym (add-mod_right r g))))
]
