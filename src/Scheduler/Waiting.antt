-- ===== src/Scheduler/Waiting.antt =====
-- scheduler.go: `drain` and `Release` leave nobody waiting who could run.
use gmux.Scheduler.Capacity.{fit-taken}
use gmux.Prelude.{
  eq_iff, Distinct-sort_stable, ap, All-sort_stable, subst, In-All, lookup, ◌≡◌, refl, ◌≢◌, inl,
  inr, Bool, false, String, List, [], ◌∷◌, none, ok, err, arith, All, All-In, Distinct, contains,
  insert, delete, Result-cases, is_ok,
}
use gmux.Prelude.Int.{pos, ◌≤ℤ◌, +ℤ_parts}
use gmux.Scheduler.State.{
  Request, Slot, Placed, Running, Scheduler, Error, seats_used, mem_used, mem_on,
}
use gmux.Scheduler.Fit.{fit}
use gmux.Scheduler.Operations.{place, drain_loop, drain, release, evict, waits_before}
use gmux.Scheduler.Usage.{mem_on_nonneg}
use gmux.Scheduler.Candidates.{LessUsed, fit_mono}
use gmux.Scheduler.Invariant.{place_now-IsSound, IsSound, evict-IsSound}

-- No two of the requests have one id, and none has the id of a running job.
pub record IsFresh (rs : List Request) (m : Running) : Type 0 where
  pub apart : Distinct (λ r. r.id) rs
  pub absent : All (λ r. lookup r.id m ≡ none) rs

delete_absent : (id : String) (m : Running) → lookup id m ≡ none → delete id m ≡ m
unfolding lookup delete
delete_absent id [] h = refl
delete_absent id ((j, p) ∷ m) h = ground (arith, delete_absent id m)

insert_absent :
    (id : String) (p : Placed) (m : Running) → lookup id m ≡ none → insert id p m ≡ (id, p) ∷ m
unfolding insert
insert_absent id p m h = ap (λ rest. (id, p) ∷ rest) (delete_absent id m h)

lookup-insert_other :
    (id j : String) (p : Placed) (m : Running)
    → id ≢ j
    → lookup j m ≡ none
    → lookup id m ≡ none
    → lookup j (insert id p m) ≡ none
lookup-insert_other id j p m ne h h' =
    rw (insert_absent id p m h') (unfold lookup in ground (arith, eq_iff id j, ne, h))

IsFresh-place :
    (r : Request) (rs : List Request) (slots : List Slot) (s : Scheduler)
    → IsFresh (r ∷ rs) s.running
    → IsFresh rs (place r slots s).running
unfolding place
IsFresh-place r rs slots s f = record {
  apart = f.apart.1;
  absent = In-All rs λ q i.
      lookup-insert_other r.id q.id _ s.running (All-In _ rs f.apart.0 i) (All-In _ rs f.absent.1 i)
        f.absent.0;
}

-- Placing a new job takes nothing from the others.
place-LessUsed :
    (r : Request) (slots : List Slot) (s : Scheduler)
    → lookup r.id s.running ≡ none
    → All (λ sl. pos 0 ≤ℤ sl.mem_mib) slots
    → LessUsed [] (place r slots s).running [] s.running
unfolding place
place-LessUsed r slots s h taken = rw (insert_absent r.id _ s.running h) (record {
  seats = λ k. unfold seats_used contains in omega arith;
  mem = λ k.
      unfold mem_used contains in
      omega
        (arith, mem_on_nonneg k slots taken, +ℤ_parts (mem_on k slots) (mem_used k [] s.running));
})

LessUsed-trans : {a b c : Running} → LessUsed [] b [] a → LessUsed [] c [] b → LessUsed [] c [] a
LessUsed-trans h k = record {
  seats = λ i. omega (arith, h.seats i, k.seats i);
  mem = λ i. omega (arith, h.mem i, k.mem i);
}

-- Draining changes no card and takes nothing from a running job.
drain_loop_grows :
    (rs : List Request) (s : Scheduler)
    → IsSound s
    → All (λ r. pos 0 ≤ℤ r.mem_mib) rs
    → IsFresh rs s.running
    → ((drain_loop rs s).1.cards ≡ s.cards) × LessUsed [] (drain_loop rs s).1.running [] s.running
unfolding drain_loop place
drain_loop_grows [] s h p f = (refl, record { seats = λ k. omega arith; mem = λ k. omega arith })
drain_loop_grows (r ∷ rs) s h p f = elim (Result-cases (fit r [] s.cards s.running)) [
  | inl (slots, e) ↦
      let (same, less) =
        drain_loop_grows rs (place r slots s) (place_now-IsSound r s h p.0 e) p.1
          (IsFresh-place r rs slots s f) in
      rw (e, drain_loop)
        (
          same,
          LessUsed-trans
              (place-LessUsed r slots s f.absent.0 (fit-taken r [] s.cards s.running p.0 e)) less,
        )
  | inr (x, e) ↦
      rw (e, drain_loop)
        (drain_loop_grows rs s h p.1 (record { apart = f.apart.1; absent = f.absent.1 }))
]

-- The request fits now.
abbrev pub fits_now : Scheduler → Request → Bool
fits_now s r = is_ok (fit r [] s.cards s.running)

-- What did not fit before does not fit with more in use.
still :
    (r : Request) (s after : Scheduler) {x : Error}
    → after.cards ≡ s.cards
    → LessUsed [] after.running [] s.running
    → fit r [] s.cards s.running ≡ err x
    → fits_now after r ≡ false
still r s after same less e = elim (Result-cases (fit r [] after.cards after.running)) [
  | inr (y, e') ↦ rw e'
  | inl (slots, e') ↦
      let (slots', again) =
        fit_mono r [] [] s.cards after.running s.running less
          (subst (λ c. fit r [] c after.running ≡ ok slots) same e') in
      absurd (cc)
]

drain_loop_complete :
    (rs : List Request) (s : Scheduler)
    → IsSound s
    → All (λ r. pos 0 ≤ℤ r.mem_mib) rs
    → IsFresh rs s.running
    → All (λ r. fits_now (drain_loop rs s).1 r ≡ false) (drain_loop rs s).1.queue
unfolding drain_loop
drain_loop_complete [] s h p f = tt
drain_loop_complete (r ∷ rs) s h p f = elim (Result-cases (fit r [] s.cards s.running)) [
  | inl (slots, e) ↦
      rw (e, drain_loop)
        (drain_loop_complete rs (place r slots s) (place_now-IsSound r s h p.0 e) p.1
          (IsFresh-place r rs slots s f))
  | inr (x, e) ↦
      let f' : IsFresh rs s.running = record { apart = f.apart.1; absent = f.absent.1 } in
      let (same, less) = drain_loop_grows rs s h p.1 f' in
      rw (e, drain_loop)
        (still r s (drain_loop rs s).1 same less e, drain_loop_complete rs s h p.1 f')
]

-- After the release of a job no request that is left in the queue fits, if before it the cards were
-- different and none of them was over its seats or its memory, no job held and no queued request asked
-- for a negative amount of memory, no two queued requests had one id, and none had the id of another
-- running job.
pub release_complete :
    (id : String) (s : Scheduler)
    → IsSound s
    → IsFresh s.queue (evict id s).running
    → All (λ r. fits_now (release id s).1 r ≡ false) (release id s).1.queue
unfolding release drain
release_complete id s h f =
    let gone = evict-IsSound id s h in
    drain_loop_complete _ (evict id s) gone (All-sort_stable waits_before _ _ gone.waiting)
      (record {
        apart = Distinct-sort_stable waits_before _ _ (unfold evict in f.apart);
        absent = All-sort_stable waits_before _ _ (unfold evict in f.absent);
      })
