-- ===== src/Scheduler/Exclusive.antt =====
-- scheduler.go: no sequence of calls gives a seat to two jobs.
use gmux.Prelude.{
  ℕ, ◌≡◌, refl, ◌∙◌, true, String, List, [], ◌∷◌, ok, arith, All, All-In, In-All, All-imp, contains,
  delete, insert,
}
use gmux.Prelude.Int.{pos, ◌≤ℤ◌}
use gmux.Scheduler.State.{Request, Slot, Running, Scheduler, Error}
use gmux.Scheduler.Fit.{fit}
use gmux.Scheduler.Operations.{place, turn_away, evict, delete_each}
use gmux.Scheduler.Usage.{contains-nil}
use gmux.Scheduler.Capacity.{fit-Distinct}
use gmux.Scheduler.Invariant.{IsSound, evict-IsSound, place-IsSound}
use gmux.Scheduler.Marks.{held, held-delete, held_mono}
use gmux.Scheduler.Ownership.{
  AllFull, IsSingle, IsSeated, fit-IsSeated, AreFull-of, insert-IsSingle,
}

-- Besides what keeps the scheduler sound: every slot holds as many seats as it says, and on every
-- card each seat is held at most once, and no number that is not one of its seats.
pub record IsExclusive (s : Scheduler) : Type 0 where
  pub sound : IsSound s
  pub full : AllFull s.running
  pub single : All (IsSingle s.running) s.cards

pub AllFull-delete : (id : String) (m : Running) → AllFull m → AllFull (delete id m)
unfolding delete
AllFull-delete id [] h = tt
AllFull-delete id ((j, p) ∷ m) h = ground (arith, AllFull-delete id m h.1)

AllFull-delete_each : (ids : List String) (m : Running) → AllFull m → AllFull (delete_each ids m)
unfolding delete_each
AllFull-delete_each [] m h = h
AllFull-delete_each (id ∷ ids) m h = AllFull-delete_each ids _ (AllFull-delete id m h)

held-delete_each :
    (k i : ℕ) (ids : List String) (m : Running) → held k i [] (delete_each ids m) ≡ held k i ids m
unfolding delete_each
held-delete_each k i [] m = refl
held-delete_each k i (id ∷ ids) m =
    held-delete_each k i ids (delete id m) ∙ held-delete k i ids id m

pub evict-IsExclusive : (id : String) (s : Scheduler) → IsExclusive s → IsExclusive (evict id s)
unfolding evict
evict-IsExclusive id s h = record {
  sound = unfold evict in evict-IsSound id s h.sound;
  full = AllFull-delete id s.running h.full;
  single =
      All-imp s.cards
        (λ c single i. omega (
          arith,
          single i,
          held-delete c.index i [] id s.running,
          held_mono c.index i [] (id ∷ []) s.running (contains-nil (id ∷ [])),
        ))
        h.single;
}

pub place-IsExclusive :
    (r : Request) (s : Scheduler) (after ids : List String) {slots : List Slot}
    → IsExclusive s
    → pos 0 ≤ℤ r.mem_mib
    → fit r after s.cards s.running ≡ ok slots
    → ((x : String) → contains x after ≡ true → contains x ids ≡ true)
    → IsExclusive (place r slots (record s { running = delete_each ids s.running }))
unfolding place insert
place-IsExclusive r s after ids {slots} h p e sub = record {
  sound = unfold place in place-IsSound r s after ids h.sound p e sub;
  full = (
    AreFull-of after s.running s.cards slots seated,
    AllFull-delete r.id _ (AllFull-delete_each ids s.running h.full),
  );
  single = In-All s.cards λ c i.
      insert-IsSingle r.id _ after s.running (delete_each ids s.running) s.cards c h.sound.apart i
        seated (fit-Distinct r after s.cards s.running h.sound.apart e)
        (All-In _ s.cards h.single i)
        (λ j. omega (
          arith,
          held-delete_each c.index j ids s.running,
          held_mono c.index j [] (r.id ∷ []) (delete_each ids s.running) (contains-nil (r.id ∷ [])),
          held_mono c.index j after ids s.running sub,
        ));
}
  where
    seated : All (IsSeated after s.running s.cards) slots
    seated = fit-IsSeated r after s.cards s.running h.full e

pub place_now-IsExclusive :
    (r : Request) (s : Scheduler) {slots : List Slot}
    → IsExclusive s
    → pos 0 ≤ℤ r.mem_mib
    → fit r [] s.cards s.running ≡ ok slots
    → IsExclusive (place r slots s)
unfolding place delete_each
place_now-IsExclusive r s h p e = place-IsExclusive r s [] [] h p e (λ x i. i)

pub turn_away-same :
    (r : Request) (e : Error) (s : Scheduler)
    → ((turn_away r e s).1.running ≡ s.running) × ((turn_away r e s).1.cards ≡ s.cards)
unfolding turn_away
turn_away-same r e s = ground arith

-- The queue does not matter.
pub IsExclusive-same :
    (s t : Scheduler)
    → IsExclusive s
    → IsSound t
    → t.running ≡ s.running
    → t.cards ≡ s.cards
    → IsExclusive t
IsExclusive-same s t h sound e e' = record {
  sound = sound;
  full = rw e h.full;
  single = rw (e, e') h.single;
}
