-- ===== src/Gpu/Apart.antt =====
-- internal/gpu/amd.go: jobs on different seats of a card have no compute unit in common, and no mask
-- names a unit that the card does not have.
use native.Mathlib.Nat.{le-div_iff_mul-le, div-add-mod, mul-le-mul_right, div-mul-le_self}
use gmux.Prelude.{
  ℕ, ◌+◌, ◌*◌, ◌/◌, ◌%◌, ◌==◌, ◌≤◌, ◌<◌, ◌≡◌, inl, inr, List, [], ◌∷◌, arith, length, In, All,
  In-All, if◌then◌else◌, Bool-cases, ltb, leb, lt→ltb, sym, ◌∙◌, true, ◌&&◌, ◌||◌, some, none,
}
use gmux.Scheduler.Marks.{count}
use gmux.Gpu.Masks.{
  Device, engine_bits, held_engines, by_engines, mask_bits, seat_cu_mask, non_empty,
}
use gmux.Gpu.Engines.{In-between, In-count, held_engines-below}
use gmux.Gpu.Owners.{seat_of, In-engine_bits, In-block_bits, Block-unique, Block-below}

-- Between the two lists each number below n stands at most once, and no other number.
abbrev pub Apart : ℕ → List ℕ → List ℕ → Type 0
Apart n a b = (i : ℕ) → count i a + count i b ≤ (if ltb i n then 1 else 0)

seats_below : (n : ℕ) (a b : List ℕ) → Apart n a b → All (λ i. i < n) a
seats_below n a b h = In-All a (λ i m. ground (arith, h i, In-count i a m))

some_seat : (n : ℕ) (a b : List ℕ) → Apart n a b → 0 < length a → 0 < n
some_seat n [] b h k = absurd (omega arith)
some_seat n (i ∷ a) b h k = omega (arith, (seats_below n (i ∷ a) b h).0)

non_empty-some : (us m : List ℕ) → non_empty us ≡ some m → us ≡ m
non_empty-some [] m e = cc (e)
non_empty-some (u ∷ us) m e = cc (e)

-- What a mask that is not empty is made of.
mask_bits-of :
    (dev : Device) (seats n : ℕ) (ids m : List ℕ)
    → seat_cu_mask ids seats dev n ≡ some m
    → (0 < dev.units) × (n < dev.units) × (mask_bits ids seats dev n ≡ m)
unfolding seat_cu_mask
mask_bits-of dev seats n ids m e = elim (Bool-cases (dev.units == 0 || leb dev.units n)) [
  | inl none' ↦ absurd (let gone : none ≡ some m = rw none' at e in cc)
  | inr masked ↦ elim (Bool-cases (leb seats (length ids) && ltb 0 seats)) [
    | inl whole ↦ absurd (let gone : none ≡ some m = rw (masked, whole) at e in cc)
    | inr part ↦
        let bits : non_empty (mask_bits ids seats dev n) ≡ some m = rw (masked, part) at e in
        (ground arith, ground arith, non_empty-some _ m bits)
  ]
]

module _ (dev : Device) (seats : ℕ) where
  abbrev g : ℕ
  g = seats / dev.engines

  abbrev rounds : ℕ
  rounds = dev.units / dev.chiplets / dev.engines

  by_engines-of :
      (ids : List ℕ)
      → by_engines ids seats dev ≡ true
      → (0 < dev.chiplets) × (0 < dev.engines) × (dev.engines ≤ seats) × (seats % dev.engines ≡ 0)
  unfolding by_engines
  by_engines-of ids e = (ground arith, ground arith, ground arith, ground arith)

  by_engines-same :
      (a b : List ℕ) → 0 < length a → 0 < length b → by_engines a seats dev ≡ by_engines b seats dev
  unfolding by_engines
  by_engines-same a b h k = rw (lt→ltb 0 (length a) h, lt→ltb 0 (length b) k)

  In-engines :
      (u : ℕ) (a b : List ℕ)
      → Apart seats a b
      → by_engines a seats dev ≡ true
      → In u (engine_bits dev.chiplets dev.engines rounds g a (held_engines g a))
      → (u < dev.units) × (1 ≤ count (seat_of dev.chiplets dev.engines g u) a)
  In-engines u a b h e m =
      let (chips, engines, enough, even) = by_engines-of a e in
      let room : 0 < g = (le-div_iff_mul-le engines).1 (omega arith) in
      let all : dev.engines * g ≡ seats = omega (arith, div-add-mod seats dev.engines) in
      let (short, one) =
        In-engine_bits dev.chiplets dev.engines rounds g a room (λ i. ground (arith, h i)) u
          (held_engines g a)
          (held_engines-below g dev.engines a room (rw all (seats_below seats a b h))) m in
      (
        omega (
          arith,
          short,
          mul-le-mul_right dev.chiplets (div-mul-le_self (dev.units / dev.chiplets) dev.engines),
          div-mul-le_self dev.units dev.chiplets,
        ),
        one,
      )

  -- A mask for seats of the card, each held once, names only compute units that the card has.
  pub seat_cu_mask_bounds :
      (n u : ℕ) (a m : List ℕ)
      → Apart seats a []
      → seat_cu_mask a seats dev n ≡ some m
      → In u m
      → u < dev.units
  unfolding mask_bits
  seat_cu_mask_bounds n u a m h e i =
      let (some_units, few, bits) = mask_bits-of dev seats n a m e in
      let j : In u (mask_bits a seats dev n) = rw bits i in
      elim (Bool-cases (by_engines a seats dev)) [
        | inl yes' ↦ (In-engines u a [] h yes' (rw yes' at j)).0
        | inr no' ↦ elim (Bool-cases (ltb 0 (length a) && ltb 0 seats)) [
          | inl blocks ↦
              let (k, one, at) = In-block_bits u dev.units seats a (rw (no', blocks) at j) in
              Block-below dev.units seats k u (ground arith) (ground (arith, h k)) at
          | inr plain ↦
              let (low, high) = In-between u 0 (if ltb n 1 then 1 else n) (rw (no', plain) at j) in
              ground arith
        ]
      ]

  -- Jobs that hold different seats of a card have no compute unit in common.
  pub seat_cu_mask-Apart :
      (n n' u : ℕ) (a b m k : List ℕ)
      → Apart seats a b
      → 0 < length a
      → 0 < length b
      → seat_cu_mask a seats dev n ≡ some m
      → seat_cu_mask b seats dev n' ≡ some k
      → In u m
      → ¬ (In u k)
  unfolding mask_bits
  seat_cu_mask-Apart n n' u a b m k h p q e f i j =
      let swapped : Apart seats b a = λ i. omega (arith, h i) in
      let i' : In u (mask_bits a seats dev n) = rw (mask_bits-of dev seats n a m e).2 i in
      let j' : In u (mask_bits b seats dev n') = rw (mask_bits-of dev seats n' b k f).2 j in
      let same = by_engines-same a b p q in
      elim (Bool-cases (by_engines a seats dev)) [
        | inl yes' ↦
            let (low, one) = In-engines u a b h yes' (rw yes' at i') in
            let (low', two) =
              In-engines u b a swapped (sym same ∙ yes') (rw (sym same ∙ yes') at j') in
            ground (arith, h (seat_of dev.chiplets dev.engines g u), one, two)
        | inr no' ↦
            let room = some_seat seats a b h p in
            let full : (c : List ℕ) → 0 < length c → (ltb 0 (length c) && ltb 0 seats) ≡ true =
              λ c l. ground arith in
            let (v, one, at) = In-block_bits u dev.units seats a (rw (no', full a p) at i') in
            let (w, two, at') =
              In-block_bits u dev.units seats b (rw (sym same ∙ no', full b q) at j') in
            let here : v ≡ w = omega (
              arith,
              Block-unique dev.units seats v w u room at at',
              Block-unique dev.units seats w v u room at' at,
            ) in
            let two' : 1 ≤ count v b = rw here two in ground (arith, h v, one, two')
      ]
