-- ===== src/Scheduler/Invariant.antt =====
-- scheduler.go: the invariant of the scheduler, and that every operation keeps it.
use gmux.Prelude.{
  ◌&&◌, length, ltb, ◌≡◌, inl, inr, true, String, List, [], ◌∷◌, ok, All, In-All, All-imp,
  All-append, Distinct, contains, insert, Result-cases, Bool-cases, Option-cases, lookup,
  All-sort_stable,
}
use gmux.Prelude.Int.{pos, ◌≤ℤ◌}
use gmux.Scheduler.State.{is_no_fit, Request, Slot, Scheduler, Error}
use gmux.Scheduler.Fit.{wanted, fit, victims}
use gmux.Scheduler.Operations.{
  start, place, turn_away, try_victims, decide, admit, evict, drain_loop, drain, release, requeue,
  delete_each, validate, waits_before,
}
use gmux.Scheduler.Usage.{
  AreFair, Within, Within-delete, AreFair-delete, AreFair-delete_each, seats_used-delete_each,
  mem_used-delete_each, seats_used_mono, mem_used_mono,
}
use gmux.Scheduler.Capacity.{HasRoom-Leaves, fit-HasRoom, fit-Distinct, fit-taken, insert-Within}
use gmux.Scheduler.Preemption.{victims-some}

-- Cards have different indices, no card is used beyond its seats and its memory, and no job holds
-- two slots on a card; no amount of memory is negative.
pub record IsSound (s : Scheduler) : Type 0 where
  pub apart : Distinct (λ c. c.index) s.cards
  pub within : All (Within s.running) s.cards
  pub fair : AreFair s.running
  pub waiting : All (λ r. pos 0 ≤ℤ r.mem_mib) s.queue

pub evict-IsSound : (id : String) (s : Scheduler) → IsSound s → IsSound (evict id s)
unfolding evict
evict-IsSound id s h = record {
  apart = h.apart;
  within = All-imp s.cards (λ c w. Within-delete id h.fair w) h.within;
  fair = AreFair-delete id s.running h.fair;
  waiting = h.waiting;
}

-- A job that is placed by a fit without some jobs, all of which are deleted.
pub place-IsSound :
    (r : Request) (s : Scheduler) (after ids : List String) {slots : List Slot}
    → IsSound s
    → pos 0 ≤ℤ r.mem_mib
    → fit r after s.cards s.running ≡ ok slots
    → ((x : String) → contains x after ≡ true → contains x ids ≡ true)
    → IsSound (place r slots (record s { running = delete_each ids s.running }))
unfolding place insert
place-IsSound r s after ids {slots} h p e sub = record {
  apart = h.apart;
  within = In-All s.cards λ c i.
      insert-Within r.id _ after s.running (delete_each ids s.running) c rest
        (HasRoom-Leaves after s.cards s.running slots h.apart h.fair h.within
          (fit-HasRoom r after s.cards s.running e)
          (fit-Distinct r after s.cards s.running h.apart e) c i)
        (rw (seats_used-delete_each c.index ids s.running)
          (seats_used_mono c.index after ids s.running sub))
        (rw (mem_used-delete_each c.index ids s.running)
          (mem_used_mono c.index after ids s.running h.fair sub));
  fair = (
    record {
      asked = p;
      taken = fit-taken r after s.cards s.running p e;
      apart = fit-Distinct r after s.cards s.running h.apart e;
    },
    AreFair-delete r.id _ rest,
  );
  waiting = h.waiting;
}
  where
    rest : AreFair (delete_each ids s.running)
    rest = AreFair-delete_each ids s.running h.fair

pub place_now-IsSound :
    (r : Request) (s : Scheduler) {slots : List Slot}
    → IsSound s
    → pos 0 ≤ℤ r.mem_mib
    → fit r [] s.cards s.running ≡ ok slots
    → IsSound (place r slots s)
unfolding place delete_each
place_now-IsSound r s h p e = place-IsSound r s [] [] h p e (λ x i. i)

pub turn_away-IsSound :
    (r : Request) (e : Error) (s : Scheduler)
    → IsSound s
    → pos 0 ≤ℤ r.mem_mib
    → IsSound (turn_away r e s).1
unfolding turn_away
turn_away-IsSound r e s h p = elim (Bool-cases (is_no_fit e && r.wait)) [
  | inl waits ↦
      rw (waits, turn_away)
        (record {
          apart = h.apart;
          within = h.within;
          fair = h.fair;
          waiting = All-append _ s.queue (r ∷ []) h.waiting (p, tt);
        })
  | inr refused ↦ rw (refused, turn_away) h
]

pub try_victims-IsSound :
    (r : Request) (e : Error) (s : Scheduler)
    → IsSound s
    → pos 0 ≤ℤ r.mem_mib
    → IsSound (try_victims r e s).1
unfolding try_victims start
try_victims-IsSound r e s h p = elim (Bool-cases (is_no_fit e)) [
  | inl full ↦ elim (Option-cases (victims r s.cards s.running)) [
    | inl nobody ↦ rw (full, nobody, try_victims) (turn_away-IsSound r e s h p)
    | inr ((needed, slots), found) ↦
        let (after, fits, named) = victims-some r s.cards s.running needed found in
        rw (full, found, try_victims, start) (place-IsSound r s after needed h p fits named)
  ]
  | inr other ↦ rw (other, try_victims) (turn_away-IsSound r e s h p)
]

pub decide-IsSound :
    (r : Request) (s : Scheduler) → IsSound s → pos 0 ≤ℤ r.mem_mib → IsSound (decide r s).1
unfolding decide start
decide-IsSound r s h p = elim (Result-cases (fit r [] s.cards s.running)) [
  | inl (slots, e) ↦ rw (e, decide) (place-IsSound r s [] [] h p e (λ x i. i))
  | inr (x, e) ↦ rw (e, decide) (try_victims-IsSound r x s h p)
]

-- `Admit` leaves the scheduler alone if a check fails.
pub admit_cases {ℓ} :
    (P : Scheduler → Type ℓ) (r : Request) (s : Scheduler)
    → P s
    → P (decide r s).1
    → P (admit r s).1
unfolding admit
admit_cases P r s same decided = elim (Option-cases (validate r)) [
  | inr (x, e) ↦ rw (e, admit) same
  | inl e ↦ elim (Option-cases (lookup r.id s.running)) [
    | inr (x, e') ↦ rw (e, e', admit) same
    | inl e' ↦ elim (Bool-cases (ltb (length s.cards) (wanted r))) [
      | inl few ↦ rw (e, e', few, admit) same
      | inr enough ↦ rw (e, e', enough, admit) decided
    ]
  ]
]

pub admit-IsSound :
    (r : Request) (s : Scheduler) → IsSound s → pos 0 ≤ℤ r.mem_mib → IsSound (admit r s).1
admit-IsSound r s h p = admit_cases IsSound r s h (decide-IsSound r s h p)

pub drain_loop-IsSound :
    (rs : List Request) (s : Scheduler)
    → IsSound s
    → All (λ r. pos 0 ≤ℤ r.mem_mib) rs
    → IsSound (drain_loop rs s).1
unfolding drain_loop
drain_loop-IsSound [] s h p = record {
  apart = h.apart;
  within = h.within;
  fair = h.fair;
  waiting = tt;
}
drain_loop-IsSound (r ∷ rs) s h p = elim (Result-cases (fit r [] s.cards s.running)) [
  | inl (slots, e) ↦
      rw (e, drain_loop)
        (drain_loop-IsSound rs (place r slots s) (place_now-IsSound r s h p.0 e) p.1)
  | inr (x, e) ↦
      let rest = drain_loop-IsSound rs s h p.1 in
      rw (e, drain_loop)
        (record {
          apart = rest.apart;
          within = rest.within;
          fair = rest.fair;
          waiting = (p.0, rest.waiting);
        })
]

pub release-IsSound : (id : String) (s : Scheduler) → IsSound s → IsSound (release id s).1
unfolding release drain
release-IsSound id s h =
    let gone = evict-IsSound id s h in
    drain_loop-IsSound _ (evict id s) gone (All-sort_stable waits_before _ _ gone.waiting)

pub requeue-IsSound :
    (r : Request) (s : Scheduler) → IsSound s → pos 0 ≤ℤ r.mem_mib → IsSound (requeue r s)
unfolding requeue
requeue-IsSound r s h p = record {
  apart = h.apart;
  within = h.within;
  fair = h.fair;
  waiting = (p, h.waiting);
}
