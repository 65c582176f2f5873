-- ===== src/Share/Seats.antt =====
-- share.go: `seats` rounds a share up to the least number of whole seats that covers it.
use native.Mathlib.Nat.{div-add-mod, mod-lt, lt_of_mul-lt-mul_left}
use gmux.Prelude.{ℕ, suc, ◌+◌, ◌-◌, ◌*◌, ◌≤◌, ◌<◌, ◌≡◌, ◌↔◌, ◌⊎◌, arith, ok, inl, inr}
use gmux.Share.{Ratio, is_share, tolerance, ceil_div, seats_raw, clamp_seats, seats}

ceil_div-bounds : (a b : ℕ) → 0 < b → (a ≤ b * ceil_div a b) × (b * ceil_div a b < a + b)
unfolding ceil_div
ceil_div-bounds a b h = (
  omega (arith, div-add-mod (a + (b - 1)) b, mod-lt (a + (b - 1)) {m = b} h),
  omega (arith, div-add-mod (a + (b - 1)) b, mod-lt (a + (b - 1)) {m = b} h),
)

-- Rounding up is the lower adjoint of multiplication.
ceil_div-le : (a b t : ℕ) → 0 < b → (ceil_div a b ≤ t) ↔ (a ≤ b * t)
ceil_div-le a b t h = (
  λ le. grind (arith, ceil_div-bounds a b h),
  λ le.
      let below : ceil_div a b < suc t =
        lt_of_mul-lt-mul_left b (omega (arith, ceil_div-bounds a b h)) in
      omega arith,
)

seats_inv :
    (f : Ratio) (n s : ℕ)
    → seats f n ≡ ok s
    → (1 ≤ n) × (0 < f.den) × (f.num ≤ f.den) × (s ≡ clamp_seats (seats_raw f n) n)
unfolding seats is_share
seats_inv f n s h = ground arith

clamp_seats-le : (c n t : ℕ) → 1 ≤ t → t ≤ n → (clamp_seats c n ≤ t) ↔ ((c ≤ t) ⊎ (t ≡ n))
unfolding clamp_seats
clamp_seats-le c n t p q = (λ h. grind arith, λ h. grind arith)

clamp_seats_bounds : (c n : ℕ) → 1 ≤ n → (1 ≤ clamp_seats c n) × (clamp_seats c n ≤ n)
unfolding clamp_seats
clamp_seats_bounds c n h = ground arith

whole_card : (f : Ratio) (n k : ℕ) → f.num ≤ f.den → f.num * n * k ≤ f.den * k * n
whole_card f n k h = grind arith

pub seats_raw-le :
    (f : Ratio) (n t : ℕ)
    → 0 < f.den
    → (seats_raw f n ≤ t) ↔ (f.num * n * tolerance ≤ f.den * tolerance * t + f.den)
unfolding seats_raw
seats_raw-le f n t h =
    let e = ceil_div-le (f.num * n * tolerance - f.den) (f.den * tolerance) t (omega arith) in
    (λ le. omega (arith, e.0 le), λ le. e.1 (omega arith))

pub seats_bounds : (f : Ratio) (n s : ℕ) → seats f n ≡ ok s → (1 ≤ s) × (s ≤ n)
seats_bounds f n s h =
    let (some_seat, pos, below, e) = seats_inv f n s h in
    rw e (clamp_seats_bounds (seats_raw f n) n some_seat)

-- If a share is granted as seats, there are between 1 and n of them, and they are the fewest that
-- reach the share, give or take a billionth of a seat: t seats from 1 to n reach it exactly if the
-- grant is at most t.
pub seats_lem :
    (f : Ratio) (n s : ℕ)
    → seats f n ≡ ok s
    → (1 ≤ s)
      × (s ≤ n)
      × ((t : ℕ)
          → 1 ≤ t
          → t ≤ n
          → (s ≤ t) ↔ (f.num * n * tolerance ≤ f.den * tolerance * t + f.den))
seats_lem f n s h =
    let (some_seat, pos, below, e) = seats_inv f n s h in
    let (low, high) = seats_bounds f n s h in
    (
      low,
      high,
      λ t p q.
          let reach = seats_raw-le f n t pos in
          let clamped = clamp_seats-le (seats_raw f n) n t p q in
          (
            λ le. elim (clamped.0 (omega arith)) [
              | inl raw ↦ reach.0 raw
              | inr whole ↦ rw whole (omega (arith, whole_card f n tolerance below))
            ],
            λ le. rw e (clamped.1 (inl (reach.1 le))),
          ),
    )

-- A share above 0 and at most 1 of a card with a seat is always granted; any other is refused.
pub seats_total :
    (f : Ratio) (n : ℕ) → ((1 ≤ n) × (0 < f.num) × (f.num ≤ f.den)) ↔ ((s : ℕ) × (seats f n ≡ ok s))
unfolding seats is_share
seats_total f n = (λ h. (clamp_seats (seats_raw f n) n, ground arith), λ h. ground arith)
