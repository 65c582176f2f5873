-- ===== src/Gpu/Owners.antt =====
-- internal/gpu/amd.go: the seat that a unit of a mask belongs to.
use native.Mathlib.Nat.{
  div-eq_of_lt-le, mod-lt, div-add-mod, le-div_iff_mul-le, div-mul-le_self, mul-le-mul_right,
  mul-div_right,
}
use native.Mathlib.Decide.{dec_lt}
use gmux.Prelude.{
  ap, map, ℕ, ◌+◌, ◌*◌, ◌/◌, ◌%◌, ◌≤◌, ◌<◌, ◌≡◌, refl, inl, inr, List, [], ◌∷◌, arith, In, All,
  In-append, In-map,
}
use gmux.Gpu.Masks.{bit_of, between, offsets, used_rounds, round_bits, engine_bits, block_bits}
use gmux.Gpu.Engines.{In-between, In-used_rounds, offsets-below, count-offsets}
use gmux.Scheduler.Marks.{count}

In-round_bits :
    (u chiplets engines e : ℕ) (rs : List ℕ)
    → In u (round_bits chiplets engines e rs)
    → (r : ℕ) × (x : ℕ) × In r rs × (x < chiplets) × (u ≡ bit_of chiplets engines e r x)
unfolding round_bits
In-round_bits u chiplets engines e [] m = absurd m
In-round_bits u chiplets engines e (r ∷ rs) m =
    elim (In-append u (map (bit_of chiplets engines e r) (between 0 chiplets)) _ m) [
      | inl i ↦
          let (x, j, same) = In-map (bit_of chiplets engines e r) u (between 0 chiplets) i in
          (r, x, inl refl, (In-between x 0 chiplets j).1, same)
      | inr i ↦
          let (r', x, j, below, same) = In-round_bits u chiplets engines e rs i in
          (r', x, inr j, below, same)
    ]

-- The seat that unit u belongs to.
pub seat_of : ℕ → ℕ → ℕ → ℕ → ℕ
seat_of chiplets engines g u = u / chiplets % engines * g + u / chiplets / engines % g

bit_of-seat :
    (chiplets engines g e r x : ℕ)
    → x < chiplets
    → e < engines
    → seat_of chiplets engines g (bit_of chiplets engines e r x) ≡ e * g + r % g
unfolding seat_of
bit_of-seat chiplets engines g e r x h k =
    let on : bit_of chiplets engines e r x / chiplets ≡ r * engines + e =
      div-eq_of_lt-le chiplets (omega arith) (grind arith) in
    let round : (r * engines + e) / engines ≡ r =
      div-eq_of_lt-le engines (omega arith) (grind arith) in
    let engine : (r * engines + e) % engines ≡ e =
      omega (arith, div-add-mod (r * engines + e) engines, ap (λ (t : ℕ). engines * t) round) in
    rw (on, round, engine)

bit_of-below :
    (chiplets engines rounds e r x : ℕ)
    → x < chiplets
    → e < engines
    → r < rounds
    → bit_of chiplets engines e r x < rounds * engines * chiplets
bit_of-below chiplets engines rounds e r x h k l =
    let local : r * engines + e < rounds * engines = grind arith in grind arith

module _ (chiplets engines rounds g : ℕ) (ids : List ℕ) (room : 0 < g)
    (once : (i : ℕ) → count i ids ≤ 1) where
  pub In-engine_bits :
      (u : ℕ) (es : List ℕ)
      → All (λ e. e < engines) es
      → In u (engine_bits chiplets engines rounds g ids es)
      → (u < rounds * engines * chiplets) × (1 ≤ count (seat_of chiplets engines g u) ids)
  unfolding engine_bits
  In-engine_bits u [] h m = absurd m
  In-engine_bits u (e ∷ es) h m =
      let rs = used_rounds rounds g (offsets g e ids) in
      elim (In-append u (round_bits chiplets engines e rs) _ m) [
        | inl i ↦
            let (r, x, j, below, same) = In-round_bits u chiplets engines e rs i in
            let (early, one) =
              In-used_rounds r rounds g (offsets g e ids) room (offsets-below g e ids room)
                (λ o below'. omega (arith, count-offsets g e o ids below', once (e * g + o))) j in
            rw (same, bit_of-seat chiplets engines g e r x below h.0)
              (
                bit_of-below chiplets engines rounds e r x below h.0 early,
                omega (arith, one, count-offsets g e (r % g) ids (mod-lt r room)),
              )
        | inr i ↦ In-engine_bits u es h.1 i
      ]

-- Seat i's block of units.
abbrev pub Block : ℕ → ℕ → ℕ → ℕ → Type 0
Block total seats i u = (i * total / seats ≤ u) × (u < (i + 1) * total / seats)

pub In-block_bits :
    (u total seats : ℕ) (is : List ℕ)
    → In u (block_bits total seats is)
    → (i : ℕ) × (1 ≤ count i is) × Block total seats i u
unfolding block_bits count
In-block_bits u total seats [] m = absurd m
In-block_bits u total seats (i ∷ is) m =
    let lo = i * total / seats in
    let hi = (i + 1) * total / seats in
    elim (In-append u (between lo hi) (block_bits total seats is) m) [
      | inl j ↦ (i, ground arith, In-between u lo hi j)
      | inr j ↦ let (k, one, at) = In-block_bits u total seats is j in (k, ground (arith, one), at)
    ]

div_mono : (a b k : ℕ) → 0 < k → a ≤ b → a / k ≤ b / k
div_mono a b k h le = (le-div_iff_mul-le h).1 (omega (arith, div-mul-le_self a k))

pub Block-unique :
    (total seats i j u : ℕ) → 0 < seats → Block total seats i u → Block total seats j u → j ≤ i
Block-unique total seats i j u h at other = elim (dec_lt i j) [
  | no le ↦ omega arith
  | yes lt ↦ absurd (
      omega (
        arith,
        div_mono ((i + 1) * total) (j * total) seats h (mul-le-mul_right total (omega arith)),
      ))
]

pub Block-below : (total seats i u : ℕ) → 0 < seats → i < seats → Block total seats i u → u < total
Block-below total seats i u h below at = omega (
  arith,
  div_mono ((i + 1) * total) (seats * total) seats h (mul-le-mul_right total (omega arith)),
  mul-div_right total h,
)
