-- ===== src/Examples/Daemon.antt =====
-- internal/daemon/daemon.go on small inputs.
use gmux.Prelude.{
  err, ◌≢◌, ℕ, ◌≡◌, refl, Bool, true, false, String, List, [], ◌∷◌, map, some, contains, discard,
  lookup, delete, insert, insert_sorted, sort_stable,
}
use gmux.Prelude.Int.{pos, ◌+ℤ◌, ◌-ℤ◌}
use gmux.Share.{
  ratio, is_share, ceil_div, seats_raw, clamp_seats, seats, compute_percent, default_mem_mib,
  granted,
}
use gmux.Scheduler.State.{
  bad_share, with_seats, cards_with_seats, new, find_card, seats_on, mem_on, seats_used, mem_used,
  need_mem, need,
}
use gmux.Scheduler.Seating.{
  mark, mark_slots, mark_running, occupied, take_kept, run_free, first_run, range, lowest_free,
  sorted_ints, pick_fresh, pick_rest, pick_from, pick_seats,
}
use gmux.Scheduler.Fit.{
  slot, over, consider, candidates, last_error, fits_before, wanted, chosen, fit_error, slots_of,
  fit, gives_way_before, may_push_off, victim_pool, drop_unneeded, settle, push_off, victims,
}
use gmux.Scheduler.Operations.{
  validate, delete_each, place, start, turn_away, try_victims, decide, admit, evict, drain_loop,
  waits_before, drain, release, requeue, cancel_in, cancel,
}
use gmux.Accounting.{begin, closed, end_job}
use gmux.Daemon.Jobs.{
  Job, exited, paused, running, Daemon, System, intervals, start_locked, pause_locked,
}
use gmux.Daemon.Calls.{
  not_admitted, nil_placement, resize_job, job_not_running, SubmitRequest, submit, submit_admitted,
  settle_job, push_out, push_out_all, reap, reap_job, start_all,
}
use gmux.Daemon.Changes.{IsFair}
use gmux.Daemon.Errors.{submit_error, resize_job_error}
use gmux.Daemon.Ledgers.{IsBilled, IsBill}
use gmux.Daemon.Billing.{Reach, begins, submits, Reach-IsFair}

program : Unit {0}
unfolding granted is_share ceil_div seats_raw clamp_seats seats compute_percent default_mem_mib
    with_seats cards_with_seats new find_card seats_on mem_on seats_used mem_used need_mem need mark
    mark_slots mark_running occupied take_kept run_free first_run range lowest_free sorted_ints
    pick_fresh pick_rest pick_from pick_seats slot over consider candidates last_error fits_before
    wanted chosen fit_error slots_of fit gives_way_before may_push_off victim_pool drop_unneeded
    settle push_off victims validate delete_each place start turn_away try_victims decide admit
    evict drain_loop waits_before drain release requeue cancel_in cancel contains discard lookup
    delete insert insert_sorted sort_stable ◌+ℤ◌ ◌-ℤ◌ begin closed end_job intervals start_locked
    pause_locked submit submit_admitted settle_job push_out push_out_all reap reap_job start_all
program = tt

-- A machine that starts every job's process as number 1 or 2.
abbrev system : ℕ → System
system now = record {
  vendor = λ c. "nvidia";
  card_name = λ c. "H100";
  launch = λ id. some now;
  now = now;
  writable = true;
}

abbrev asks : ℕ → ℕ → Bool → SubmitRequest
asks eighths priority preemptible = record {
  command = "train" ∷ [];
  name = "";
  owner = "";
  share = ratio eighths 8;
  mem_mib = pos 0;
  gpus = pos 1;
  priority = pos priority;
  preemptible = preemptible;
  burst = false;
  wait = true;
}

abbrev idle : Daemon
idle = record {
  sched = new (record { index = 0; name = "H100"; mem_mib = 8000; seats = 8; down = false } ∷ []);
  ledger = record { file = []; open_intervals = [] };
  jobs = [];
}

abbrev with_b : Daemon
with_b = (submit (system 1) "b" (asks 8 0 true) idle).1

abbrev with_d : Daemon
with_d = (submit (system 2) "d" (asks 4 5 false) with_b).1

idle-IsFair : IsFair idle
unfolding IsBilled IsBill lookup
idle-IsFair id = refl

path : Reach idle with_d
unfolding program
path =
    submits (system 2) "d" (asks 4 5 false) (submits (system 1) "b" (asks 8 0 true) begins refl)
      refl

Reach-IsFair_example : IsFair with_d
Reach-IsFair_example = Reach-IsFair idle with_d path idle-IsFair

abbrev states : Daemon → List (String × ℕ)
states d =
    map
      (λ (x : String × Job).
        (x.0, elim x.1.state [ running ↦ 1 | paused ↦ 2 | exited ↦ 3 | _ ↦ 0 ]))
      d.jobs

-- "d" has pushed off "b", which is paused.
pushed_off : states with_d ≡ ("d", 1) ∷ ("b", 2) ∷ []
unfolding program
pushed_off = refl

-- The process of the paused "b" ends, and then that of "d": the scheduler gives "b" the card
-- again, and nobody ever gives it back.
abbrev all_ended : Daemon
all_ended = reap (system 4) "d" 2 (pos 0) (reap (system 3) "b" 1 (pos 137) with_d)

all_exited : states all_ended ≡ ("d", 3) ∷ ("b", 3) ∷ []
unfolding program
all_exited = refl

card_lost : seats_used 0 [] all_ended.sched.running ≡ 8
unfolding program
card_lost = refl

-- A job asks for more than a whole card, and a job that has been pushed off is to be resized.
abbrev too_much : SubmitRequest
too_much = asks 9 0 false

too_much_refused :
    (submit (system 3) "e" too_much with_d).0 ≡ err (not_admitted (bad_share (ratio 9 8)))
unfolding program
too_much_refused = refl

submit_error_example :
    (not_admitted (bad_share (ratio 9 8)) ≢ nil_placement)
    × ((submit (system 3) "e" too_much with_d).1 ≡ with_d)
submit_error_example =
    submit_error (system 3) "e" too_much with_d (not_admitted (bad_share (ratio 9 8)))
      too_much_refused (λ same. cc (same))

not_now : (resize_job (system 3) "b" (ratio 1 8) (pos 0) with_d).0 ≡ err job_not_running
unfolding program resize_job
not_now = refl

resize_job_error_example : (resize_job (system 3) "b" (ratio 1 8) (pos 0) with_d).1 ≡ with_d
resize_job_error_example =
    resize_job_error (system 3) "b" (ratio 1 8) (pos 0) with_d job_not_running not_now
