-- ===== src/Examples/Gpu.antt =====
-- internal/gpu on small inputs, with jobs that the scheduler has placed.
use gmux.Gpu.Bound.{slots_env-getenv}
use gmux.Gpu.Apart.{seat_cu_mask_bounds, Apart}
use gmux.Scheduler.Marks.{count}
use gmux.Runtime.Environment.{last_of, getenv}
use gmux.Session.{bytes_before}
use gmux.Runtime.Launch.{env, inherit_all, inherit, cut, set_all}
use gmux.Maps.{store}
use gmux.Gpu.Envs.{
  amd, slots_env, job_env, fake_env, intel_env, mps_dir, nvidia_env, amd_env, amd_card, share_text,
  mask_text, highest, hex_digits, nibble, has_bit, itoa_ℤ,
}
use gmux.Decimals.{digits_from, itoa}
use gmux.Gpu.Tenants.{Tenant, cu_mask-Apart, cu_mask}
use gmux.Gpu.Masks.{
  seat_cu_mask, mask_bits, by_engines, block_bits, engine_bits, held_engines, is_key, round_bits,
  used_rounds, strides, offsets, strided, between, range_from, Device,
}
use gmux.Fence.Bytes.{to_lower, trim_prefix, has_prefix, eq_bytes}
use gmux.Prelude.{
  some, ◌<◌, codes, ◌*◌, ℕ, ◌≡◌, refl, inl, inr, true, false, String, List, [], ◌∷◌, arith, In,
  contains, discard, lookup, delete, insert, insert_sorted, sort_stable, eq_iff,
}
use gmux.Prelude.Int.{pos, ◌+ℤ◌, ◌-ℤ◌}
use gmux.Share.{
  ratio, is_share, ceil_div, seats_raw, clamp_seats, seats, compute_percent, default_mem_mib,
  granted,
}
use gmux.Scheduler.State.{
  Card, Request, Slot, Scheduler, with_seats, cards_with_seats, new, find_card, seats_on, mem_on,
  seats_used, mem_used, need_mem, need,
}
use gmux.Scheduler.Seating.{
  mark, mark_slots, mark_running, occupied, take_kept, run_free, first_run, range, lowest_free,
  sorted_ints, pick_fresh, pick_rest, pick_from, pick_seats,
}
use gmux.Scheduler.Fit.{
  slot, over, consider, candidates, last_error, fits_before, wanted, chosen, fit_error, slots_of,
  fit, gives_way_before, may_push_off, victim_pool, drop_unneeded, settle, push_off, victims,
}
use gmux.Scheduler.Operations.{
  validate, set_down_card, set_down, delete_each, place, start, turn_away, try_victims, decide,
  admit, evict, drain_loop, waits_before, drain, release, requeue, cancel_in, cancel, resize_slot,
  resize_slots, resized_request, resize_placed, resize,
}
use gmux.Scheduler.Steps.{Call, admits, step, run}
use gmux.Scheduler.Tenancy.{run-new-IsExclusive}

program : Unit {0}
unfolding granted is_share ceil_div seats_raw clamp_seats seats compute_percent default_mem_mib
    with_seats cards_with_seats new find_card seats_on mem_on seats_used mem_used need_mem need mark
    mark_slots mark_running occupied take_kept run_free first_run range lowest_free sorted_ints
    pick_fresh pick_rest pick_from pick_seats slot over consider candidates last_error fits_before
    wanted chosen fit_error slots_of fit gives_way_before may_push_off victim_pool drop_unneeded
    settle push_off victims validate set_down_card set_down delete_each place start turn_away
    try_victims decide admit evict drain_loop waits_before drain release requeue cancel_in cancel
    resize_slot resize_slots resized_request resize_placed resize step run contains discard lookup
    delete insert insert_sorted sort_stable ◌+ℤ◌ ◌-ℤ◌ range_from between strided offsets strides
    used_rounds round_bits is_key held_engines engine_bits block_bits by_engines mask_bits
    seat_cu_mask cu_mask itoa digits_from itoa_ℤ has_bit nibble hex_digits highest mask_text
    share_text amd_card to_lower trim_prefix has_prefix amd_env nvidia_env mps_dir intel_env
    fake_env job_env slots_env store set_all eq_bytes cut inherit inherit_all env bytes_before
    getenv last_of count
program = tt

abbrev card : ℕ → Card
card k = record { index = k; name = "MI300"; mem_mib = 8000; seats = 8; down = false }

-- A request for eighths of a card.
abbrev asks : String → ℕ → Request
asks id eighths = record {
  id = id;
  share = ratio eighths 8;
  mem_mib = pos 0;
  gpus = pos 1;
  priority = pos 0;
  preemptible = true;
  burst = false;
  wait = true;
}

abbrev calls : List Call
calls = admits (asks "a" 4) ∷ admits (asks "c" 3) ∷ []

abbrev shared : Scheduler
shared = run (new (card 0 ∷ [])) calls

-- Two chiplets with four engines of four units.
abbrev device : ℕ → Device
device k = record {
  index = k;
  uuid = "0xAB";
  name = "MI300";
  vendor = "amd";
  mem_mib = 8000;
  units = 32;
  chiplets = 2;
  engines = 4;
}

abbrev slot_on : ℕ → ℕ → List ℕ → Slot
slot_on k seats ids = record {
  card = k;
  seats = seats;
  granted_share = ratio seats 8;
  mem_mib = pos (seats * 1000);
  compute_percent = compute_percent seats 8;
  seat_ids = ids;
}

abbrev slot_a : Slot
slot_a = slot_on 0 4 (0 ∷ 1 ∷ 2 ∷ 3 ∷ [])

abbrev slot_c : Slot
slot_c = slot_on 0 3 (4 ∷ 5 ∷ 6 ∷ [])

-- The bits of the engines 0 and 1, and of engine 2 and every other round of engine 3.
abbrev mask_a : List ℕ
mask_a = 0 ∷ 1 ∷ 8 ∷ 9 ∷ 16 ∷ 17 ∷ 24 ∷ 25 ∷ 2 ∷ 3 ∷ 10 ∷ 11 ∷ 18 ∷ 19 ∷ 26 ∷ 27 ∷ []

abbrev mask_c : List ℕ
mask_c = 4 ∷ 5 ∷ 12 ∷ 13 ∷ 20 ∷ 21 ∷ 28 ∷ 29 ∷ 6 ∷ 7 ∷ 22 ∷ 23 ∷ []

abbrev runs_a : Tenant shared (card 0) "a" slot_a
unfolding program
runs_a = record {
  placed = record { req = asks "a" 4; slots = slot_a ∷ []; order = 1 };
  running = inr (inl refl);
  slot_of = inl refl;
  on = refl;
  some_seat = omega arith;
}

abbrev runs_c : Tenant shared (card 0) "c" slot_c
unfolding program
runs_c = record {
  placed = record { req = asks "c" 3; slots = slot_c ∷ []; order = 2 };
  running = inl refl;
  slot_of = inl refl;
  on = refl;
  some_seat = omega arith;
}

cu_mask-Apart_example : ¬ (In 8 mask_c)
unfolding program
cu_mask-Apart_example =
    cu_mask-Apart shared (card 0) (device 0) "a" "c" slot_a slot_c 8 mask_a mask_c
      (run-new-IsExclusive (card 0 ∷ []) calls (omega arith) (omega arith)) (inl refl) runs_a runs_c
      (λ e. ground (arith, e, eq_iff "a" "c")) refl refl (inr (inr (inl refl)))

c-Apart : Apart 8 (4 ∷ 5 ∷ 6 ∷ []) []
unfolding program
c-Apart i = ground arith

seat_cu_mask_bounds_example : 29 < 32
unfolding program
seat_cu_mask_bounds_example =
    seat_cu_mask_bounds (device 0) 8 13 29 (4 ∷ 5 ∷ 6 ∷ []) mask_c c-Apart refl
      (inr (inr (inr (inr (inr (inr (inr (inl refl))))))))

-- A job on two cards reads only the second one's index.
slots_env-getenv_example :
    getenv (codes "ROCR_VISIBLE_DEVICES") (
      env (codes "ROCR_VISIBLE_DEVICES=7" ∷ []) (
        slots_env 8
          ((amd [], device 0, slot_a) ∷ (amd [], record (device 1) { uuid = "" }, slot_c) ∷ [])
          []))
    ≡ some (codes "1")
unfolding program
slots_env-getenv_example =
    slots_env-getenv (codes "ROCR_VISIBLE_DEVICES=7" ∷ []) 8 ((amd [], device 0, slot_a) ∷ [])
      (amd []) (record (device 1) { uuid = "" }) slot_c (codes "ROCR_VISIBLE_DEVICES") (codes "1")
      refl

masked : mask_text mask_a ≡ codes "0xf0f0f0f"
unfolding program
masked = refl
