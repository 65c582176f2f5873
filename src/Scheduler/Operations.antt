-- ===== src/Scheduler/Operations.antt =====
-- scheduler.go: the methods that change the scheduler. Each returns its result and the scheduler
-- after it.
use gmux.Prelude.{
  ℕ, suc, ◌==◌, Bool, true, false, not, ◌&&◌, String, List, [], ◌∷◌, ◌++◌, Option, none, some,
  if◌then◌else◌, ltb, length, Result, ok, err, lookup, delete, insert, sort_stable, str_eq,
}
use gmux.Prelude.Int.{ℤ, pos, ltb_ℤ, ◌-ℤ◌}
use gmux.Share.{Ratio, is_share}
use gmux.Scheduler.State.{
  Card, Request, Slot, Placement, Placed, Decision, Running, Scheduler, Error, no_id, negative_gpus,
  nil_card, bad_share, already_running, not_running, too_few_cards, no_card, no_room, is_no_fit,
  find_card, seats_used, mem_used, need,
}
use gmux.Scheduler.Fit.{fit, victims, over, slot, wanted}

-- `validate`, with `none` for nil.
unfoldable pub validate : Request → Option Error
validate r =
    if str_eq r.id ""
    then some no_id
    else if not (is_share r.share)
    then some (bad_share r.share)
    else if ltb_ℤ r.gpus (pos 0)
    then some negative_gpus
    else none

-- `SetDown`.
unfoldable pub set_down_card : ℕ → Bool → List Card → Option (List Card)
set_down_card k down [] = none
set_down_card k down (c ∷ cs) =
    if c.index == k
    then some (record c { down = down } ∷ cs)
    else elim (set_down_card k down cs) [ none ↦ none | some rest ↦ some (c ∷ rest) ]

unfoldable pub set_down : ℕ → Bool → Scheduler → Result Error (Unit {0}) × Scheduler
set_down k down s = elim (set_down_card k down s.cards) [
  | none ↦ (err (no_card k), s)
  | some cards ↦ (ok tt, record s { cards = cards })
]

abbrev pub placement : String → List Slot → Placement
placement id slots = record { job_id = id; slots = slots }

unfoldable pub delete_each : List String → Running → Running
delete_each [] m = m
delete_each (id ∷ ids) m = delete_each ids (delete id m)

-- `s.next++` and the entry for the new job.
unfoldable pub place : Request → List Slot → Scheduler → Scheduler
place r slots s = record s {
  running = insert r.id (record { req = r; slots = slots; order = suc s.next }) s.running;
  next = suc s.next;
}

unfoldable pub start :
    Request → List Slot → List String → Scheduler → Result Error Decision × Scheduler
start r slots preempt s = (
  ok (record { placement = some (placement r.id slots); preempt = preempt; queued = false }),
  place r slots (record s { running = delete_each preempt s.running }),
)

-- The job cannot run now: it waits or is refused.
unfoldable pub turn_away : Request → Error → Scheduler → Result Error Decision × Scheduler
turn_away r e s =
    if is_no_fit e && r.wait
    then (
      ok (record { placement = none; preempt = []; queued = true }),
      record s { queue = s.queue ++ r ∷ [] },
    )
    else (err e, s)

unfoldable pub try_victims : Request → Error → Scheduler → Result Error Decision × Scheduler
try_victims r e s =
    if is_no_fit e
    then elim (victims r s.cards s.running) [
      | some (preempt, slots) ↦ start r slots preempt s
      | none ↦ turn_away r e s
    ]
    else turn_away r e s

-- `Admit` behind its checks.
unfoldable pub decide : Request → Scheduler → Result Error Decision × Scheduler
decide r s = elim (fit r [] s.cards s.running) [
  | ok slots ↦ start r slots [] s
  | err e ↦ try_victims r e s
]

-- `Admit`.
unfoldable pub admit : Request → Scheduler → Result Error Decision × Scheduler
admit r s = elim (validate r) [
  | some e ↦ (err e, s)
  | none ↦ elim (lookup r.id s.running) [
    | some p ↦ (err (already_running r.id), s)
    | none ↦
        if ltb (length s.cards) (wanted r)
        then (err (too_few_cards (wanted r) (length s.cards)), s)
        else decide r s
  ]
]

-- `Evict`.
unfoldable pub evict : String → Scheduler → Scheduler
evict id s = record s { running = delete id s.running }

-- The loop of `drain` over the sorted queue: the placements, and the scheduler with the rest.
unfoldable pub drain_loop : List Request → Scheduler → List Decision × Scheduler
drain_loop [] s = ([], record s { queue = [] })
drain_loop (r ∷ rs) s = elim (fit r [] s.cards s.running) [
  | ok slots ↦
      let (started, after) = drain_loop rs (place r slots s) in
      (
        record { placement = some (placement r.id slots); preempt = []; queued = false } ∷ started,
        after,
      )
  | err e ↦
      let (started, after) = drain_loop rs s in (started, record after { queue = r ∷ after.queue })
]

-- Higher priority first; the sort is stable.
unfoldable pub waits_before : Request → Request → Bool
waits_before a b = ltb_ℤ b.priority a.priority

unfoldable pub drain : Scheduler → List Decision × Scheduler
drain s = drain_loop (sort_stable waits_before s.queue) s

-- `Release`.
unfoldable pub release : String → Scheduler → List Decision × Scheduler
release id s = drain (evict id s)

-- `Requeue`: in front, so that it comes first in its priority band.
unfoldable pub requeue : Request → Scheduler → Scheduler
requeue r s = record s { queue = record r { wait = true } ∷ s.queue }

-- `Cancel`: removes the first queued job of that id.
unfoldable pub cancel_in : String → List Request → Option (List Request)
cancel_in id [] = none
cancel_in id (r ∷ rs) =
    if str_eq r.id id
    then some rs
    else elim (cancel_in id rs) [ none ↦ none | some rest ↦ some (r ∷ rest) ]

unfoldable pub cancel : String → Scheduler → Bool × Scheduler
cancel id s = elim (cancel_in id s.queue) [
  | none ↦ (false, s)
  | some queue ↦ (true, record s { queue = queue })
]

-- `Placement`.
unfoldable pub placement_of : String → Scheduler → Option Placement
placement_of id s = elim (lookup id s.running) [
  | none ↦ none
  | some p ↦ some (placement id p.slots)
]

-- The body of the loop of `Resize`, on one of the cards that the job holds.
unfoldable pub resize_slot : String → Request → Scheduler → Slot → Result Error Slot
resize_slot id r s old = elim (find_card old.card s.cards) [
  | none ↦ err nil_card
  | some c ↦ elim (need r c) [
    | err e ↦ err e
    | ok (seats, mem) ↦
        if over c seats mem (id ∷ []) s.running
        then err (
            no_room c.index (pos c.seats -ℤ pos (seats_used c.index (id ∷ []) s.running))
              (pos c.mem_mib -ℤ mem_used c.index (id ∷ []) s.running))
        else ok (slot r c seats mem (id ∷ []) old.seat_ids s.running)
  ]
]

unfoldable pub resize_slots : String → Request → Scheduler → List Slot → Result Error (List Slot)
resize_slots id r s [] = ok []
resize_slots id r s (old ∷ olds) = elim (resize_slot id r s old) [
  | err e ↦ err e
  | ok sl ↦ elim (resize_slots id r s olds) [ err e ↦ err e | ok sls ↦ ok (sl ∷ sls) ]
]

unfoldable pub resized_request : Request → Ratio → ℤ → Request
resized_request r fraction mem = record r {
  share = fraction;
  mem_mib = if ltb_ℤ (pos 0) mem then mem else r.mem_mib;
}

unfoldable pub resize_placed :
    String → Placed → Request → Scheduler → Result Error Placement × Scheduler
resize_placed id p r s = elim (resize_slots id r s p.slots) [
  | err e ↦ (err e, s)
  | ok slots ↦ (
    ok (placement id slots),
    record s { running = insert id (record p { req = r; slots = slots }) s.running },
  )
]

-- `Resize`.
unfoldable pub resize : String → Ratio → ℤ → Scheduler → Result Error Placement × Scheduler
resize id fraction mem s = elim (lookup id s.running) [
  | none ↦ (err (not_running id), s)
  | some p ↦ elim (validate (resized_request p.req fraction mem)) [
    | some e ↦ (err e, s)
    | none ↦ resize_placed id p (resized_request p.req fraction mem) s
  ]
]

-- What is left on a card.
pub record Free : Type 0 where
  pub card : ℕ
  pub seats : ℤ
  pub mem_mib : ℤ

-- `Available`.
unfoldable pub available_on : Running → List Card → List Free
available_on m [] = []
available_on m (c ∷ cs) =
    record {
      card = c.index;
      seats = pos c.seats -ℤ pos (seats_used c.index [] m);
      mem_mib = pos c.mem_mib -ℤ mem_used c.index [] m;
    }
    ∷ available_on m cs

unfoldable pub available : Scheduler → List Free
available s = available_on s.running s.cards
