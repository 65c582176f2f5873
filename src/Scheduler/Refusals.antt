-- ===== src/Scheduler/Refusals.antt =====
-- scheduler.go: a call that is refused changes nothing.
use gmux.Prelude.{
  ◌≡◌, ◌⊎◌, refl, true, false, ◌&&◌, String, List, [], some, Result, ok, err, ltb, length, lookup,
  Bool-cases, Option-cases, Result-cases, inl, inr,
}
use gmux.Prelude.Int.{ℤ}
use gmux.Share.{Ratio}
use gmux.Scheduler.State.{Request, Slot, Placement, Decision, Placed, Scheduler, Error, is_no_fit}
use gmux.Scheduler.Fit.{fit, victims, wanted}
use gmux.Scheduler.Operations.{
  validate, start, turn_away, try_victims, decide, admit, resize, resize_placed, resize_slots,
  resized_request,
}

-- An error leaves the scheduler as it was; a job that is admitted waits or has its placement.
abbrev pub Decided : Scheduler → Result Error Decision × Scheduler → Type 0
Decided s (err e, after) = after ≡ s
Decided s (ok dec, after) =
    (dec.queued ≡ true) ⊎ ((dec.queued ≡ false) × (pl : Placement) × (dec.placement ≡ some pl))

turn_away-Decided : (r : Request) (e : Error) (s : Scheduler) → Decided s (turn_away r e s)
unfolding turn_away
turn_away-Decided r e s = elim (Bool-cases (is_no_fit e && r.wait)) [
  | inl waits ↦ rw waits (inl refl)
  | inr leaves ↦ rw leaves refl
]

start-Decided :
    (r : Request) (slots : List Slot) (preempt : List String) (s : Scheduler)
    → Decided s (start r slots preempt s)
unfolding start
start-Decided r slots preempt s = inr (refl, _, refl)

try_victims-Decided : (r : Request) (e : Error) (s : Scheduler) → Decided s (try_victims r e s)
unfolding try_victims
try_victims-Decided r e s = elim (Bool-cases (is_no_fit e)) [
  | inr other ↦ rw (other, try_victims) (turn_away-Decided r e s)
  | inl no_fit ↦ elim (Option-cases (victims r s.cards s.running)) [
    | inl nobody ↦ rw (no_fit, nobody, try_victims) (turn_away-Decided r e s)
    | inr (found, at) ↦ rw (no_fit, at, try_victims) (start-Decided r found.1 found.0 s)
  ]
]

decide-Decided : (r : Request) (s : Scheduler) → Decided s (decide r s)
unfolding decide
decide-Decided r s = elim (Result-cases (fit r [] s.cards s.running)) [
  | inl (slots, at) ↦ rw (at, decide) (start-Decided r slots [] s)
  | inr (e, at) ↦ rw (at, decide) (try_victims-Decided r e s)
]

pub admit-Decided : (r : Request) (s : Scheduler) → Decided s (admit r s)
unfolding admit
admit-Decided r s = elim (Option-cases (validate r)) [
  | inr (e, at) ↦ rw (at, admit) refl
  | inl valid ↦ elim (Option-cases (lookup r.id s.running)) [
    | inr (p, at) ↦ rw (valid, at, admit) refl
    | inl new ↦ elim (Bool-cases (ltb (length s.cards) (wanted r))) [
      | inl many ↦ rw (valid, new, many, admit) refl
      | inr enough ↦ rw (valid, new, enough, admit) (decide-Decided r s)
    ]
  ]
]

-- An error leaves the scheduler as it was.
abbrev pub Refused : {A : Type 0} → Scheduler → Result Error A × Scheduler → Type 0
Refused s (err e, after) = after ≡ s
Refused s (ok a, after) = Unit {0}

resize_placed-Refused :
    (id : String) (p : Placed) (r : Request) (s : Scheduler) → Refused s (resize_placed id p r s)
unfolding resize_placed
resize_placed-Refused id p r s = elim (Result-cases (resize_slots id r s p.slots)) [
  | inl (slots, at) ↦ rw (at, resize_placed) tt
  | inr (e, at) ↦ rw (at, resize_placed) refl
]

pub resize-Refused :
    (id : String) (fraction : Ratio) (mem : ℤ) (s : Scheduler)
    → Refused s (resize id fraction mem s)
unfolding resize
resize-Refused id fraction mem s = elim (Option-cases (lookup id s.running)) [
  | inl gone ↦ rw (gone, resize) refl
  | inr (p, at) ↦ elim (Option-cases (validate (resized_request p.req fraction mem))) [
    | inr (e, bad) ↦ rw (at, bad, resize) refl
    | inl valid ↦
        rw (at, valid, resize) (resize_placed-Refused id p (resized_request p.req fraction mem) s)
  ]
]
