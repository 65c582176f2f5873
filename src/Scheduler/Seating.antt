-- ===== src/Scheduler/Seating.antt =====
-- scheduler.go: `occupied` and `pickSeats`, the choice of the seats that a slot holds.
use gmux.Prelude.{
  ℕ, zero, suc, ◌-◌, ◌==◌, Bool, true, false, not, ◌&&◌, String, List, [], ◌∷◌, ◌++◌, Option, none,
  some, if◌then◌else◌, ltb, contains, length, get_or, set, replicate, sort_stable,
}
use gmux.Scheduler.State.{Card, Slot, Running}

-- A number outside the card marks nothing.
unfoldable pub mark : List ℕ → List Bool → List Bool
mark [] used = used
mark (i ∷ is) used = mark is (set used i true)

unfoldable pub mark_slots : ℕ → List Slot → List Bool → List Bool
mark_slots k [] used = used
mark_slots k (sl ∷ sls) used =
    mark_slots k sls (if sl.card == k then mark sl.seat_ids used else used)

unfoldable pub mark_running : ℕ → List String → Running → List Bool → List Bool
mark_running k ignore [] used = used
mark_running k ignore ((id, p) ∷ m) used =
    mark_running k ignore m (if contains id ignore then used else mark_slots k p.slots used)

-- `occupied`: the seats in use on a card, without the jobs in `ignore`.
unfoldable pub occupied : Card → List String → Running → List Bool
occupied c ignore running = mark_running c.index ignore running (replicate c.seats false)

-- `i >= 0 && i < len(used) && !used[i]`.
abbrev pub is_free : List Bool → ℕ → Bool
is_free used i = not (get_or used i true)

-- The loop over `keep`, with n seats still to find: what it keeps, and the marks after it.
unfoldable pub take_kept : ℕ → List ℕ → List Bool → List ℕ × List Bool
take_kept n [] used = ([], used)
take_kept zero (i ∷ keep) used = ([], used)
take_kept (suc n) (i ∷ keep) used = elim (is_free used i) [
  | true ↦ let (out, after) = take_kept n keep (set used i true) in (i ∷ out, after)
  | false ↦ take_kept (suc n) keep used
]

unfoldable pub run_free : List Bool → ℕ → ℕ → Bool
run_free used start zero = true
run_free used start (suc need) = is_free used start && run_free used (suc start) need

-- The search for a free run, over `count` starts from `start` on.
unfoldable pub first_run : List Bool → ℕ → ℕ → ℕ → Option ℕ
first_run used need start zero = none
first_run used need start (suc count) = elim (run_free used start need) [
  | true ↦ some start
  | false ↦ first_run used need (suc start) count
]

unfoldable pub range : ℕ → ℕ → List ℕ
range start zero = []
range start (suc n) = start ∷ range (suc start) n

-- The last loop, over the seats from i on.
unfoldable pub lowest_free : ℕ → ℕ → List Bool → List ℕ
lowest_free zero i used = []
lowest_free (suc n) i [] = []
lowest_free (suc n) i (true ∷ used) = lowest_free (suc n) (suc i) used
lowest_free (suc n) i (false ∷ used) = i ∷ lowest_free n (suc i) used

unfoldable pub sorted_ints : List ℕ → List ℕ
sorted_ints = sort_stable ltb

-- What `pickSeats` does when it has kept no seat: a run, or else the lowest free seats.
unfoldable pub pick_fresh : ℕ → List Bool → List ℕ
pick_fresh n used = elim (first_run used n 0 (suc (length used) - n)) [
  | some start ↦ range start n
  | none ↦ sorted_ints (lowest_free n 0 used)
]

-- The rest of `pickSeats` behind the loop over `keep`.
unfoldable pub pick_rest : ℕ → List ℕ → List Bool → List ℕ
pick_rest zero out used = sorted_ints out
pick_rest (suc need) [] used = pick_fresh (suc need) used
pick_rest (suc need) (o ∷ out) used = sorted_ints ((o ∷ out) ++ lowest_free (suc need) 0 used)

unfoldable pub pick_from : List Bool → ℕ → List ℕ → List ℕ
pick_from used n keep =
    let (out, after) = take_kept n keep used in pick_rest (n - length out) out after

-- `pickSeats`.
unfoldable pub pick_seats : Card → ℕ → List String → List ℕ → Running → List ℕ
pick_seats c n ignore keep running = pick_from (occupied c ignore running) n keep
