-- ===== src/Gpu/Masks.antt =====
-- internal/gpu/amd.go: the mask of compute units of a job on an AMD card. The big.Int is the list of
-- the bits that are set; numbers of units, chiplets, engines and seats below 0 are as 0.
use gmux.Prelude.{
  ◌-◌, false, ℕ, zero, suc, ◌+◌, ◌*◌, ◌/◌, ◌%◌, ◌==◌, Bool, ◌&&◌, ◌||◌, String, List, [], ◌∷◌, ◌++◌,
  map, Option, none, some, if◌then◌else◌, ltb, leb, length,
}

pub record Device : Type 0 where
  pub index : ℕ
  pub uuid : String
  pub name : String
  pub vendor : String
  pub mem_mib : ℕ
  pub units : ℕ
  pub chiplets : ℕ
  pub engines : ℕ

-- The numbers from i on, n of them.
unfoldable pub range_from : ℕ → ℕ → List ℕ
range_from i zero = []
range_from i (suc n) = i ∷ range_from (suc i) n

-- `for u := lo; u < hi; u++`.
unfoldable pub between : ℕ → ℕ → List ℕ
unfolding range_from
between lo hi = range_from lo (hi - lo)

-- `for r := o; r < limit; r += g`, in at most as many rounds as there is fuel.
unfoldable pub strided : ℕ → ℕ → ℕ → ℕ → List ℕ
strided zero r limit g = []
strided (suc fuel) r limit g =
    let rest = strided fuel (r + g) limit g in if ltb r limit then r ∷ rest else []

-- `held[e]`: the offsets within engine e of the seats held on it, with g seats to an engine.
unfoldable pub offsets : ℕ → ℕ → List ℕ → List ℕ
offsets g e [] = []
offsets g e (s ∷ ss) = if s / g == e then s % g ∷ offsets g e ss else offsets g e ss

unfoldable pub strides : ℕ → ℕ → List ℕ → List ℕ
unfolding strided
strides limit g [] = []
strides limit g (o ∷ offs) = strided limit o limit g ++ strides limit g offs

-- The rounds of an engine that its offsets give.
unfoldable pub used_rounds : ℕ → ℕ → List ℕ → List ℕ
unfolding between strides
used_rounds rounds g offs =
    if length offs == g then between 0 rounds else strides (rounds / g * g) g offs

-- `local*X+x`: the bit of round r on engine e of chiplet x.
abbrev pub bit_of : ℕ → ℕ → ℕ → ℕ → ℕ → ℕ
bit_of chiplets engines e r x = (r * engines + e) * chiplets + x

-- The bits of the rounds of engine e, on every chiplet.
unfoldable pub round_bits : ℕ → ℕ → ℕ → List ℕ → List ℕ
unfolding between
round_bits chiplets engines e [] = []
round_bits chiplets engines e (r ∷ rs) =
    map (bit_of chiplets engines e r) (between 0 chiplets) ++ round_bits chiplets engines e rs

unfoldable pub is_key : ℕ → List ℕ → Bool
is_key e [] = false
is_key e (k ∷ ks) = k == e || is_key e ks

-- The keys of `held`: the engines that the seats are on, each once.
unfoldable pub held_engines : ℕ → List ℕ → List ℕ
unfolding is_key
held_engines g [] = []
held_engines g (s ∷ ss) =
    let keys = held_engines g ss in if is_key (s / g) keys then keys else (s / g) ∷ keys

-- `for e, offs := range held`, for the engines of a list.
unfoldable pub engine_bits : ℕ → ℕ → ℕ → ℕ → List ℕ → List ℕ → List ℕ
unfolding used_rounds round_bits offsets
engine_bits chiplets engines rounds g ids [] = []
engine_bits chiplets engines rounds g ids (e ∷ es) =
    round_bits chiplets engines e (used_rounds rounds g (offsets g e ids))
    ++ engine_bits chiplets engines rounds g ids es

-- A contiguous block for each seat.
unfoldable pub block_bits : ℕ → ℕ → List ℕ → List ℕ
unfolding between
block_bits total seats [] = []
block_bits total seats (i ∷ is) =
    between (i * total / seats) ((i + 1) * total / seats) ++ block_bits total seats is

-- The first case of the switch: the seats divide evenly into engines.
unfoldable pub by_engines : List ℕ → ℕ → Device → Bool
by_engines ids seats dev =
    (ltb 0 dev.chiplets && ltb 0 dev.engines)
    && ((dev.units % dev.chiplets == 0 && ltb 0 (length ids))
        && (leb dev.engines seats && seats % dev.engines == 0))

unfoldable pub mask_bits : List ℕ → ℕ → Device → ℕ → List ℕ
unfolding by_engines held_engines engine_bits block_bits between
mask_bits ids seats dev n =
    if by_engines ids seats dev
    then engine_bits dev.chiplets dev.engines (dev.units / dev.chiplets / dev.engines)
        (seats / dev.engines) ids (held_engines (seats / dev.engines) ids)
    else if ltb 0 (length ids) && ltb 0 seats
    then block_bits dev.units seats ids
    else between 0 (if ltb n 1 then 1 else n)

abbrev pub non_empty : List ℕ → Option (List ℕ)
non_empty [] = none
non_empty (u ∷ us) = some (u ∷ us)

-- `seatCUMask`, where `none` is the empty string: no mask.
unfoldable pub seat_cu_mask : List ℕ → ℕ → Device → ℕ → Option (List ℕ)
unfolding mask_bits
seat_cu_mask ids seats dev n =
    if dev.units == 0 || leb dev.units n
    then none
    else if leb seats (length ids) && ltb 0 seats
    then none
    else non_empty (mask_bits ids seats dev n)
