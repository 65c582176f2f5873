-- ===== src/Scheduler/Marks.antt =====
-- scheduler.go: `occupied` marks the seats that running jobs hold, and leaves enough free.
use gmux.Prelude.{
  ℕ, zero, suc, ◌+◌, ◌≤◌, ◌≡◌, refl, Bool, true, false, not, ◌&&◌, String, List, [], ◌∷◌,
  if◌then◌else◌, ◌==◌, ltb, arith, contains, delete, str_eq-sym, set, replicate, length, All,
}
use gmux.Scheduler.State.{Card, Slot, Running, seats_on, seats_used}
use gmux.Scheduler.Seating.{mark, mark_slots, mark_running, occupied, is_free}

-- How often a seat stands in a list.
unfoldable pub count : ℕ → List ℕ → ℕ
count i [] = 0
count i (j ∷ js) = (if i == j then 1 else 0) + count i js

-- How often jobs hold seat i of card k.
unfoldable pub held_on : ℕ → ℕ → List Slot → ℕ
held_on k i [] = 0
held_on k i (sl ∷ sls) = (if sl.card == k then count i sl.seat_ids else 0) + held_on k i sls

unfoldable pub held : ℕ → ℕ → List String → Running → ℕ
held k i ignore [] = 0
held k i ignore ((id, p) ∷ m) =
    (if contains id ignore then 0 else held_on k i p.slots) + held k i ignore m

is_free-set :
    (used : List Bool) (j i : ℕ) → is_free (set used j true) i ≡ (is_free used i && not (i == j))
is_free-set [] j i = refl
is_free-set (b ∷ bs) zero zero = ground arith
is_free-set (b ∷ bs) zero (suc i) = ground arith
is_free-set (b ∷ bs) (suc j) zero = ground arith
is_free-set (b ∷ bs) (suc j) (suc i) = ground (arith, is_free-set bs j i)

is_free-mark :
    (is : List ℕ) (used : List Bool) (i : ℕ)
    → is_free (mark is used) i ≡ (is_free used i && (count i is == 0))
unfolding mark count
is_free-mark [] used i = ground arith
is_free-mark (j ∷ js) used i =
    ground (arith, is_free-mark js (set used j true) i, is_free-set used j i)

is_free-mark_slots :
    (k : ℕ) (sls : List Slot) (used : List Bool) (i : ℕ)
    → is_free (mark_slots k sls used) i ≡ (is_free used i && (held_on k i sls == 0))
unfolding mark_slots held_on
is_free-mark_slots k [] used i = ground arith
is_free-mark_slots k (sl ∷ sls) used i = ground (
  arith,
  is_free-mark_slots k sls (if sl.card == k then mark sl.seat_ids used else used) i,
  is_free-mark sl.seat_ids used i,
)

is_free-mark_running :
    (k : ℕ) (ignore : List String) (m : Running) (used : List Bool) (i : ℕ)
    → is_free (mark_running k ignore m used) i ≡ (is_free used i && (held k i ignore m == 0))
unfolding mark_running held
is_free-mark_running k ignore [] used i = ground arith
is_free-mark_running k ignore ((id, p) ∷ m) used i = ground (
  arith,
  is_free-mark_running k ignore m (if contains id ignore then used else mark_slots k p.slots used)
      i,
  is_free-mark_slots k p.slots used i,
)

is_free-replicate : (n i : ℕ) → is_free (replicate n false) i ≡ ltb i n
is_free-replicate zero i = ground arith
is_free-replicate (suc n) zero = ground arith
is_free-replicate (suc n) (suc i) = ground (arith, is_free-replicate n i)

-- A seat of a card counts as free exactly if it is one of the card's and no job that is not
-- ignored holds it.
pub is_free-occupied :
    (c : Card) (ignore : List String) (m : Running) (i : ℕ)
    → is_free (occupied c ignore m) i ≡ (ltb i c.seats && (held c.index i ignore m == 0))
unfolding occupied
is_free-occupied c ignore m i = ground (
  arith,
  is_free-mark_running c.index ignore m (replicate c.seats false) i,
  is_free-replicate c.seats i,
)

-- The number of free seats.
unfoldable pub frees : List Bool → ℕ
frees [] = 0
frees (b ∷ bs) = (if b then 0 else 1) + frees bs

frees-set : (used : List Bool) (j : ℕ) → frees used ≤ frees (set used j true) + 1
unfolding frees
frees-set [] j = omega arith
frees-set (b ∷ bs) zero = ground arith
frees-set (b ∷ bs) (suc j) = ground (arith, frees-set bs j)

frees-mark : (is : List ℕ) (used : List Bool) → frees used ≤ frees (mark is used) + length is
unfolding mark
frees-mark [] used = omega arith
frees-mark (j ∷ js) used = omega (arith, frees-mark js (set used j true), frees-set used j)

-- A slot holds as many seats as it says.
abbrev pub AreFull : List Slot → Type 0
AreFull = All (λ sl. length sl.seat_ids ≡ sl.seats)

frees-mark_slots :
    (k : ℕ) (sls : List Slot) (used : List Bool)
    → AreFull sls
    → frees used ≤ frees (mark_slots k sls used) + seats_on k sls
unfolding mark_slots seats_on
frees-mark_slots k [] used f = omega arith
frees-mark_slots k (sl ∷ sls) used f = ground (
  arith,
  f.0,
  frees-mark_slots k sls (if sl.card == k then mark sl.seat_ids used else used) f.1,
  frees-mark sl.seat_ids used,
)

frees-mark_running :
    (k : ℕ) (ignore : List String) (m : Running) (used : List Bool)
    → All (λ (id, p). AreFull p.slots) m
    → frees used ≤ frees (mark_running k ignore m used) + seats_used k ignore m
unfolding mark_running seats_used
frees-mark_running k ignore [] used f = omega arith
frees-mark_running k ignore ((id, p) ∷ m) used f = ground (
  arith,
  frees-mark_running k ignore m (if contains id ignore then used else mark_slots k p.slots used)
      f.1,
  frees-mark_slots k p.slots used f.0,
)

frees-replicate : (n : ℕ) → frees (replicate n false) ≡ n
unfolding frees
frees-replicate zero = refl
frees-replicate (suc n) = omega (arith, frees-replicate n)

-- What is not in use on a card is free.
pub frees-occupied :
    (c : Card) (ignore : List String) (m : Running)
    → All (λ (id, p). AreFull p.slots) m
    → c.seats ≤ frees (occupied c ignore m) + seats_used c.index ignore m
unfolding occupied
frees-occupied c ignore m f = omega (
  arith,
  frees-mark_running c.index ignore m (replicate c.seats false) f,
  frees-replicate c.seats,
)

pub held-delete :
    (k i : ℕ) (ig : List String) (id : String) (m : Running)
    → held k i ig (delete id m) ≡ held k i (id ∷ ig) m
unfolding held delete contains
held-delete k i ig id [] = refl
held-delete k i ig id ((j, p) ∷ m) = ground (arith, str_eq-sym id j, held-delete k i ig id m)

pub held_mono :
    (k i : ℕ) (ig more : List String) (m : Running)
    → ((x : String) → contains x ig ≡ true → contains x more ≡ true)
    → held k i more m ≤ held k i ig m
unfolding held
held_mono k i ig more [] h = omega arith
held_mono k i ig more ((j, p) ∷ m) h = ground (arith, h j, held_mono k i ig more m h)
