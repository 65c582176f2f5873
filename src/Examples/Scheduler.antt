-- ===== src/Examples/Scheduler.antt =====
-- internal/scheduler/scheduler.go on small inputs.
use gmux.Scheduler.Invariant.{IsSound}
use gmux.Prelude.{
  ◌*◌, ℕ, ◌-◌, ◌≤◌, ◌≡◌, refl, ◌⊎◌, inl, inr, Bool, true, false, String, List, [], ◌∷◌, arith, All,
  In, Distinct, contains, discard, lookup, delete, insert, insert_sorted, sort_stable, eq_iff,
  is_ok, map, length, take, none, some, Option,
}
use gmux.Prelude.Int.{pos, ◌+ℤ◌, ◌-ℤ◌}
use gmux.Share.{
  ratio, is_share, ceil_div, seats_raw, clamp_seats, seats, compute_percent, default_mem_mib,
  granted,
}
use gmux.Scheduler.State.{
  Card, Request, Slot, Placed, Running, Scheduler, with_seats, cards_with_seats, new, find_card,
  seats_on, mem_on, seats_used, mem_used, need_mem, need,
}
use gmux.Scheduler.Seating.{
  mark, mark_slots, mark_running, occupied, take_kept, run_free, first_run, range, lowest_free,
  sorted_ints, pick_fresh, pick_rest, pick_from, pick_seats,
}
use gmux.Scheduler.Fit.{
  slot, over, consider, candidates, last_error, fits_before, wanted, chosen, fit_error, slots_of,
  fit, gives_way_before, may_push_off, victim_pool, drop_unneeded, settle, push_off, victims,
}
use gmux.Scheduler.Operations.{
  validate, set_down_card, set_down, delete_each, place, start, turn_away, try_victims, decide,
  admit, evict, drain_loop, waits_before, drain, release, requeue, cancel_in, cancel, resize_slot,
  resize_slots, resized_request, resize_placed, resize,
}
use gmux.Scheduler.Steps.{Call, admits, releases, resizes, step, run}
use gmux.Scheduler.Tenancy.{run-new-IsExclusive}
use gmux.Scheduler.Exclusive.{IsExclusive}
use gmux.Scheduler.Pool.{IsVictim}
use gmux.Scheduler.Pushing.{IsPushOff, victims_lem, victims-none}
use gmux.Scheduler.Waiting.{release_complete, IsFresh, fits_now}
use gmux.Scheduler.Placing.{fit_lem, fit_best, IsSlotOn, LeavesAtMost}
use gmux.Scheduler.Usage.{AreFair}

program : Unit {0}
unfolding granted is_share ceil_div seats_raw clamp_seats seats compute_percent default_mem_mib
    with_seats cards_with_seats new find_card seats_on mem_on seats_used mem_used need_mem need mark
    mark_slots mark_running occupied take_kept run_free first_run range lowest_free sorted_ints
    pick_fresh pick_rest pick_from pick_seats slot over consider candidates last_error fits_before
    wanted chosen fit_error slots_of fit gives_way_before may_push_off victim_pool drop_unneeded
    settle push_off victims validate set_down_card set_down delete_each place start turn_away
    try_victims decide admit evict drain_loop waits_before drain release requeue cancel_in cancel
    resize_slot resize_slots resized_request resize_placed resize step run contains discard lookup
    delete insert insert_sorted sort_stable ◌+ℤ◌ ◌-ℤ◌
program = tt

abbrev card : ℕ → Card
card k = record { index = k; name = "H100"; mem_mib = 8000; seats = 8; down = false }

abbrev two_cards : List Card
two_cards = card 0 ∷ card 1 ∷ []

-- A request for eighths of a card.
abbrev asks : String → ℕ → ℕ → Bool → Request
asks id eighths priority preemptible = record {
  id = id;
  share = ratio eighths 8;
  mem_mib = pos 0;
  gpus = pos 1;
  priority = pos priority;
  preemptible = preemptible;
  burst = false;
  wait = true;
}

abbrev calls : List Call
calls =
    admits (asks "a" 4 0 true)
    ∷ admits (asks "b" 8 0 true)
    ∷ admits (asks "c" 3 0 true)
    ∷ admits (asks "d" 8 5 false)
    ∷ resizes "c" (ratio 1 8) (pos 0)
    ∷ releases "d"
    ∷ []

run-new-IsExclusive_example : IsExclusive (run (new two_cards) calls)
run-new-IsExclusive_example = run-new-IsExclusive two_cards calls (omega arith) (omega arith)

-- The job "d" pushes off "b", which is needed, and spares the newer "c", which is not.
preempted :
    map {B = String × ℕ × ℕ}
      (λ (x : String × Placed). (x.0, seats_used 0 [] (x ∷ []), seats_used 1 [] (x ∷ [])))
      (run (new two_cards) (take 5 calls)).running
    ≡ ("c", 1, 0) ∷ ("d", 0, 8) ∷ ("a", 4, 0) ∷ []
unfolding program
preempted = refl

abbrev slot_on : ℕ → ℕ → List ℕ → Slot
slot_on k seats ids = record {
  card = k;
  seats = seats;
  granted_share = ratio seats 8;
  mem_mib = pos (seats * 1000);
  compute_percent = compute_percent seats 8;
  seat_ids = ids;
}

abbrev job : String → ℕ → ℕ → ℕ → List ℕ → String × Placed
job id order k seats ids =
    (id, record { req = asks id seats 0 true; slots = slot_on k seats ids ∷ []; order = order })

abbrev busy : Running
busy =
    job "c" 3 0 3 (4 ∷ 5 ∷ 6 ∷ [])
    ∷ job "b" 2 1 8 (0 ∷ 1 ∷ 2 ∷ 3 ∷ 4 ∷ 5 ∷ 6 ∷ 7 ∷ [])
    ∷ job "a" 1 0 4 (0 ∷ 1 ∷ 2 ∷ 3 ∷ [])
    ∷ []

busy-AreFair : AreFair busy
busy-AreFair = (
  record { asked = omega arith; taken = omega arith; apart = (tt, tt) },
  (
    record { asked = omega arith; taken = omega arith; apart = (tt, tt) },
    (record { asked = omega arith; taken = omega arith; apart = (tt, tt) }, tt),
  ),
)

busy-apart : Distinct (λ (x : String × Placed). x.1.req.id) busy
busy-apart = (
  ((λ e. ground (arith, e, eq_iff "c" "b")), ((λ e. ground (arith, e, eq_iff "c" "a")), tt)),
  (((λ e. ground (arith, e, eq_iff "b" "a")), tt), (tt, tt)),
)

victims_lem_example : IsPushOff (asks "d" 8 5 false) two_cards busy ("b" ∷ [])
unfolding program
victims_lem_example =
    victims_lem (asks "d" 8 5 false) two_cards busy ("b" ∷ [])
      (slot_on 1 8 (0 ∷ 1 ∷ 2 ∷ 3 ∷ 4 ∷ 5 ∷ 6 ∷ 7 ∷ []) ∷ []) busy-AreFair busy-apart refl refl

-- Two small jobs of the lowest priority are pushed off, although one larger job would be enough.
abbrev ranked : String → ℕ → ℕ → ℕ → List ℕ → String × Placed
ranked id order seats priority ids = (
  id,
  record { req = asks id seats priority true; slots = slot_on 0 seats ids ∷ []; order = order },
)

abbrev crowd : Running
crowd =
    ranked "p" 1 2 0 (0 ∷ 1 ∷ [])
    ∷ ranked "q" 2 2 0 (2 ∷ 3 ∷ [])
    ∷ ranked "r" 3 4 1 (4 ∷ 5 ∷ 6 ∷ 7 ∷ [])
    ∷ []

abbrev needed_by : Option (List String × List Slot) → List (List String)
needed_by none = []
needed_by (some (needed, slots)) = needed ∷ []

two_pushed_off : map length (needed_by (victims (asks "d" 4 2 false) (card 0 ∷ []) crowd)) ≡ 2 ∷ []
unfolding program
two_pushed_off = refl

one_enough : is_ok (fit (asks "d" 4 2 false) ("r" ∷ []) (card 0 ∷ []) crowd) ≡ true
unfolding program
one_enough = refl

-- No two cards make three, whomever the job pushes off.
abbrev asks_three : Request
asks_three = record (asks "d" 8 5 false) { gpus = pos 3 }

b-IsVictim : IsVictim asks_three busy "b"
b-IsVictim = record {
  job = (job "b" 2 1 8 (0 ∷ 1 ∷ 2 ∷ 3 ∷ 4 ∷ 5 ∷ 6 ∷ 7 ∷ [])).1;
  key = "b";
  running = inr (inl refl);
  same = refl;
  preemptible = refl;
  lower = refl;
}

victims-none_example : is_ok (fit asks_three ("b" ∷ []) two_cards busy) ≡ false
unfolding program
victims-none_example =
    victims-none asks_three two_cards busy ("b" ∷ []) busy-AreFair busy-apart refl refl
      (b-IsVictim, tt)

abbrev TwoApart : List Card → Type 0
TwoApart = Distinct (λ c. c.index)

-- The pinned hole of the first card stays, and the whole second card is taken.
fit_lem_example :
    (length (slot_on 0 1 (7 ∷ []) ∷ []) ≡ wanted (asks "d" 1 5 false))
    × (1 ≤ wanted (asks "d" 1 5 false))
    × All (IsSlotOn (asks "d" 1 5 false) [] busy two_cards) (slot_on 0 1 (7 ∷ []) ∷ [])
    × Distinct (λ sl. sl.card) (slot_on 0 1 (7 ∷ []) ∷ [])
unfolding program
fit_lem_example = fit_lem (asks "d" 1 5 false) [] two_cards busy (omega arith) refl

-- Of the cards that "a" leaves, the first would have fewer free seats left.
abbrev only_a : Running
only_a = job "a" 1 0 4 (0 ∷ 1 ∷ 2 ∷ 3 ∷ []) ∷ []

fit_best_example :
    In 1 (map (λ (sl : Slot). sl.card) (slot_on 0 2 (4 ∷ 5 ∷ []) ∷ []))
    ⊎ All
        (LeavesAtMost [] only_a two_cards (8 - seats_used 1 [] only_a - 2))
        (slot_on 0 2 (4 ∷ 5 ∷ []) ∷ [])
unfolding program
fit_best_example =
    fit_best (asks "d" 2 5 false) [] two_cards only_a (slot_on 0 2 (4 ∷ 5 ∷ []) ∷ []) (card 1) 2
      (pos 2000) refl (inr (inl refl)) refl refl refl

-- "d" waits for a whole card while "a" and "b" run.
abbrev waiting : Scheduler
waiting = record {
  cards = two_cards;
  running = busy;
  queue = asks "d" 8 0 false ∷ asks "e" 8 0 false ∷ [];
  next = 3;
}

waiting-IsSound : IsSound waiting
unfolding program
waiting-IsSound = record {
  apart = omega arith;
  within = (
    record { seats = omega arith; mem = omega arith },
    (record { seats = omega arith; mem = omega arith }, tt),
  );
  fair = busy-AreFair;
  waiting = omega arith;
}

waiting-IsFresh : IsFresh waiting.queue (evict "b" waiting).running
unfolding program
waiting-IsFresh = record {
  apart = (((λ e. ground (arith, e, eq_iff "d" "e")), tt), (tt, tt));
  absent = (refl, (refl, tt));
}

release_complete_example :
    All (λ r. fits_now (release "b" waiting).1 r ≡ false) (asks "e" 8 0 false ∷ [])
unfolding program
release_complete_example = release_complete "b" waiting waiting-IsSound waiting-IsFresh
