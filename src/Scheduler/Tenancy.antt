-- ===== src/Scheduler/Tenancy.antt =====
-- scheduler.go: every operation keeps the seats of the jobs apart.
use gmux.Scheduler.Preemption.{victims-some}
use gmux.Scheduler.Candidates.{over-false}
use gmux.Scheduler.Resizing.{
  find_card-some, resize_slots-AreResized, resize_slot-ok, resize_slots-ok,
}
use gmux.Scheduler.Marks.{held}
use gmux.Scheduler.Usage.{IsFair}
use gmux.Scheduler.Fit.{victims, fit}
use gmux.Scheduler.Ownership.{
  slot-IsSeated, insert-IsSingle, AreFull-of, IsSeated, IsSingle, AllFull,
}
use gmux.Scheduler.Invariant.{
  turn_away-IsSound, requeue-IsSound, IsSound, admit_cases, drain_loop-IsSound,
}
use gmux.Scheduler.Safety.{
  resize_placed-IsSound, resized_request_nonneg, lookup-IsFair, cancel-IsSound, set_down_card-cons,
  new-IsSound, AsksNonneg, set_down-IsSound,
}
use gmux.Scheduler.Steps.{
  sets_down, resizes, cancels, releases, evicts, requeues, admits, step, Call, run,
}
use gmux.Scheduler.Operations.{
  resized_request, validate, resize, waits_before, turn_away, place, evict, drain, start, requeue,
  resize_slots, release, cancel, decide, resize_placed, drain_loop, try_victims, set_down_card,
  set_down,
}
use gmux.Prelude.{
  All-sort_stable, ℕ, ◌≡◌, refl, sym, subst, inl, inr, Bool, String, List, [], ◌∷◌, some, ok, arith,
  All, All-In, In-All, Distinct, Result-cases, Bool-cases, Option-cases, lookup, insert,
}
use gmux.Prelude.Int.{ℤ, pos, ◌≤ℤ◌}
use gmux.Share.{Ratio}
use gmux.Scheduler.State.{is_no_fit, Error, Placed, Running, new, Card, Request, Scheduler, Slot}
use gmux.Scheduler.Exclusive.{
  AllFull-delete, IsExclusive-same, place_now-IsExclusive, place-IsExclusive, turn_away-same,
  evict-IsExclusive, IsExclusive,
}

try_victims-IsExclusive :
    (r : Request) (e : Error) (s : Scheduler)
    → IsExclusive s
    → pos 0 ≤ℤ r.mem_mib
    → IsExclusive (try_victims r e s).1
unfolding try_victims start
try_victims-IsExclusive r e s h p =
    let (same, cards) = turn_away-same r e s in
    let away =
      IsExclusive-same s (turn_away r e s).1 h (turn_away-IsSound r e s h.sound p) same cards in
    elim (Bool-cases (is_no_fit e)) [
      | inr other ↦ rw (other, try_victims) away
      | inl full ↦ elim (Option-cases (victims r s.cards s.running)) [
        | inl nobody ↦ rw (full, nobody, try_victims) away
        | inr ((needed, slots), found) ↦
            let (after, fits, named) = victims-some r s.cards s.running needed found in
            rw (full, found, try_victims, start) (place-IsExclusive r s after needed h p fits named)
      ]
    ]

decide-IsExclusive :
    (r : Request) (s : Scheduler) → IsExclusive s → pos 0 ≤ℤ r.mem_mib → IsExclusive (decide r s).1
unfolding decide start
decide-IsExclusive r s h p = elim (Result-cases (fit r [] s.cards s.running)) [
  | inl (slots, e) ↦ rw (e, decide) (place-IsExclusive r s [] [] h p e (λ x i. i))
  | inr (x, e) ↦ rw (e, decide) (try_victims-IsExclusive r x s h p)
]

drain_loop-IsExclusive :
    (rs : List Request) (s : Scheduler)
    → IsExclusive s
    → All (λ r. pos 0 ≤ℤ r.mem_mib) rs
    → IsExclusive (drain_loop rs s).1
unfolding drain_loop
drain_loop-IsExclusive [] s h p = record {
  sound = drain_loop-IsSound [] s h.sound p;
  full = h.full;
  single = h.single;
}
drain_loop-IsExclusive (r ∷ rs) s h p = elim (Result-cases (fit r [] s.cards s.running)) [
  | inl (slots, e) ↦
      rw (e, drain_loop)
        (drain_loop-IsExclusive rs (place r slots s) (place_now-IsExclusive r s h p.0 e) p.1)
  | inr (x, e) ↦
      let rest = drain_loop-IsExclusive rs s h p.1 in
      rw (e, drain_loop)
        (IsExclusive-same (drain_loop rs s).1 _ rest
          (record {
            apart = rest.sound.apart;
            within = rest.sound.within;
            fair = rest.sound.fair;
            waiting = (p.0, rest.sound.waiting);
          })
          refl refl)
]

release-IsExclusive : (id : String) (s : Scheduler) → IsExclusive s → IsExclusive (release id s).1
unfolding release drain
release-IsExclusive id s h =
    let gone = evict-IsExclusive id s h in
    drain_loop-IsExclusive _ (evict id s) gone (All-sort_stable waits_before _ _ gone.sound.waiting)

resize_slots-IsSeated :
    (id : String) (r : Request) (s : Scheduler) (olds : List Slot) {news : List Slot}
    → AllFull s.running
    → resize_slots id r s olds ≡ ok news
    → All (IsSeated (id ∷ []) s.running s.cards) news
unfolding resize_slots
resize_slots-IsSeated id r s [] {news} full h = let empty : news ≡ [] = cc in rw empty tt
resize_slots-IsSeated id r s (old ∷ olds) full h =
    let (new', rest, e, e', split) = resize_slots-ok id r s old olds h in
    let (c, found, needed, room, same, whole) = resize_slot-ok id r s old new' e in
    let (listed, _) = find_card-some old.card s.cards found in
    let (seats_room, _) = over-false c new'.seats new'.mem_mib (id ∷ []) s.running room in
    let seated =
      slot-IsSeated r c new'.seats new'.mem_mib (id ∷ []) old.seat_ids s.running s.cards full listed
        seats_room in
    rw split (
      subst (IsSeated (id ∷ []) s.running s.cards) (sym whole) seated,
      resize_slots-IsSeated id r s olds full e',
    )

resize_placed-IsExclusive :
    (id : String) (p : Placed) (r : Request) (s : Scheduler)
    → IsExclusive s
    → IsFair p
    → pos 0 ≤ℤ r.mem_mib
    → IsSound (resize_placed id p r s).1
    → IsExclusive (resize_placed id p r s).1
unfolding resize_placed insert
resize_placed-IsExclusive id p r s h fair nonneg sound =
    elim (Result-cases (resize_slots id r s p.slots)) [
      | inr (x, e) ↦ rw (e, resize_placed) h
      | inl (slots, e) ↦
          let seated = resize_slots-IsSeated id r s p.slots h.full e in
          let re = resize_slots-AreResized id r s p.slots nonneg e in
          rw (e, resize_placed)
            (record {
              sound = rw (e, resize_placed) at sound;
              full = (
                AreFull-of (id ∷ []) s.running s.cards slots seated,
                AllFull-delete id s.running h.full,
              );
              single = In-All s.cards λ c i.
                  insert-IsSingle id _ (id ∷ []) s.running s.running s.cards c h.sound.apart i
                    seated (re.apart fair.apart) (All-In _ s.cards h.single i) (λ j. omega arith);
            })
    ]

resize-IsExclusive :
    (id : String) (fraction : Ratio) (mem : ℤ) (s : Scheduler)
    → IsExclusive s
    → IsExclusive (resize id fraction mem s).1
unfolding resize
resize-IsExclusive id fraction mem s h = elim (Option-cases (lookup id s.running)) [
  | inl e ↦ rw (e, resize) h
  | inr (p, e) ↦
      let fair = lookup-IsFair id s.running e h.sound.fair in
      let nonneg = resized_request_nonneg p.req fraction mem fair.asked in
      elim (Option-cases (validate (resized_request p.req fraction mem))) [
        | inr (x, e') ↦ rw (e, e', resize) h
        | inl e' ↦
            rw (e, e', resize)
              (resize_placed-IsExclusive id p _ s h fair nonneg
                (resize_placed-IsSound id p _ s h.sound fair nonneg))
      ]
]

set_down_card-IsSingle :
    (k : ℕ) (down : Bool) (m : Running) (cards : List Card) {after : List Card}
    → set_down_card k down cards ≡ some after
    → All (IsSingle m) cards
    → All (IsSingle m) after
unfolding set_down_card
set_down_card-IsSingle k down m [] e h = absurd (cc)
set_down_card-IsSingle k down m (c ∷ cs) e h = elim (set_down_card-cons k down c cs e) [
  | inl same ↦ rw same (h.0, h.1)
  | inr (rest, e', same) ↦ rw same (h.0, set_down_card-IsSingle k down m cs e' h.1)
]

set_down-IsExclusive :
    (k : ℕ) (down : Bool) (s : Scheduler) → IsExclusive s → IsExclusive (set_down k down s).1
unfolding set_down
set_down-IsExclusive k down s h = elim (Option-cases (set_down_card k down s.cards)) [
  | inl e ↦ rw (e, set_down) h
  | inr (after, e) ↦
      let sound = set_down-IsSound k down s h.sound in
      rw (e, set_down)
        (record {
          sound = rw (e, set_down) at sound;
          full = h.full;
          single = set_down_card-IsSingle k down s.running s.cards e h.single;
        })
]

cancel-same :
    (id : String) (s : Scheduler)
    → ((cancel id s).1.running ≡ s.running) × ((cancel id s).1.cards ≡ s.cards)
unfolding cancel
cancel-same id s = ground arith

step-IsExclusive :
    (s : Scheduler) (c : Call) → AsksNonneg c → IsExclusive s → IsExclusive (step s c)
unfolding step requeue
step-IsExclusive s (admits r) p h = admit_cases IsExclusive r s h (decide-IsExclusive r s h p)
step-IsExclusive s (requeues r) p h =
    IsExclusive-same s _ h (unfold requeue in requeue-IsSound r s h.sound p) refl refl
step-IsExclusive s (evicts id) p h = evict-IsExclusive id s h
step-IsExclusive s (releases id) p h = release-IsExclusive id s h
step-IsExclusive s (cancels id) p h =
    let (same, cards) = cancel-same id s in
    IsExclusive-same s (cancel id s).1 h (cancel-IsSound id s h.sound) same cards
step-IsExclusive s (resizes id fraction mem) p h = resize-IsExclusive id fraction mem s h
step-IsExclusive s (sets_down k down) p h = set_down-IsExclusive k down s h

run-IsExclusive :
    (s : Scheduler) (cs : List Call) → All AsksNonneg cs → IsExclusive s → IsExclusive (run s cs)
unfolding run
run-IsExclusive s [] p h = h
run-IsExclusive s (c ∷ cs) p h = run-IsExclusive (step s c) cs p.1 (step-IsExclusive s c p.0 h)

new-IsExclusive : (cards : List Card) → Distinct (λ c. c.index) cards → IsExclusive (new cards)
unfolding new
new-IsExclusive cards h = record {
  sound = unfold new in new-IsSound cards h;
  full = tt;
  single = In-All _ (λ c i j. unfold held in omega arith);
}

-- Take any calls, in any order and with any outcome, on a fresh scheduler over cards of different
-- indices, where no request that is admitted or requeued asks for a negative amount of memory.
-- After them every slot of a running job holds as many seats as it says, no seat of a card is
-- held twice, by two jobs or by one, and no number that is not a seat of the card is held at all;
-- and on no card do the jobs exceed the seats or the memory.
pub run-new-IsExclusive :
    (cards : List Card) (cs : List Call)
    → Distinct (λ c. c.index) cards
    → All AsksNonneg cs
    → IsExclusive (run (new cards) cs)
run-new-IsExclusive cards cs d p = run-IsExclusive (new cards) cs p (new-IsExclusive cards d)
