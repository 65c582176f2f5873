-- ===== src/Scheduler/Safety.antt =====
-- scheduler.go: no sequence of calls uses a card beyond its seats or its memory.
use gmux.Prelude.{
  subst, ℕ, ◌≡◌, ◌≢◌, ◌⊎◌, inl, inr, Bool, String, List, [], ◌∷◌, some, arith, All, In-All,
  Distinct, Result-cases, Bool-cases, Option-cases, lookup, insert, str_eq,
}
use gmux.Prelude.Int.{ℤ, pos, ◌≤ℤ◌}
use gmux.Share.{Ratio}
use gmux.Scheduler.State.{
  Card, Request, Placed, Running, Scheduler, seats_used, mem_used, new, with_seats,
  cards_with_seats,
}
use gmux.Scheduler.Operations.{
  cancel, cancel_in, resize, resized_request, resize_placed, resize_slots, set_down, set_down_card,
  validate,
}
use gmux.Scheduler.Steps.{
  Call, admits, requeues, evicts, releases, cancels, resizes, sets_down, step, run,
}
use gmux.Scheduler.Usage.{IsFair, AreFair, Within, AreFair-delete}
use gmux.Scheduler.Capacity.{HasRoom-Leaves, replace-Within}
use gmux.Scheduler.Resizing.{resize_slots-AreResized}
use gmux.Scheduler.Invariant.{
  IsSound, evict-IsSound, admit-IsSound, release-IsSound, requeue-IsSound,
}

cancel_in-some :
    (id : String) (r : Request) (rs : List Request) {rest : List Request}
    → cancel_in id (r ∷ rs) ≡ some rest
    → (rest ≡ rs) ⊎ ((kept : List Request) × (cancel_in id rs ≡ some kept) × (rest ≡ r ∷ kept))
unfolding cancel_in
cancel_in-some id r rs h = ground arith

All-cancel_in :
    (P : Request → Type 0) (id : String) (rs : List Request) {rest : List Request}
    → cancel_in id rs ≡ some rest
    → All P rs
    → All P rest
unfolding cancel_in
All-cancel_in P id [] h p = absurd (cc)
All-cancel_in P id (r ∷ rs) h p = elim (cancel_in-some id r rs h) [
  | inl e ↦ rw e p.1
  | inr (kept, e, e') ↦ rw e' (p.0, All-cancel_in P id rs e p.1)
]

pub cancel-IsSound : (id : String) (s : Scheduler) → IsSound s → IsSound (cancel id s).1
unfolding cancel
cancel-IsSound id s h = elim (Option-cases (cancel_in id s.queue)) [
  | inl e ↦ rw (e, cancel) h
  | inr (rest, e) ↦
      rw (e, cancel)
        (record {
          apart = h.apart;
          within = h.within;
          fair = h.fair;
          waiting = All-cancel_in _ id s.queue e h.waiting;
        })
]

pub set_down_card-cons :
    (k : ℕ) (down : Bool) (c : Card) (cs : List Card) {after : List Card}
    → set_down_card k down (c ∷ cs) ≡ some after
    → (after ≡ record c { down = down } ∷ cs)
      ⊎ ((rest : List Card) × (set_down_card k down cs ≡ some rest) × (after ≡ c ∷ rest))
unfolding set_down_card
set_down_card-cons k down c cs h = ground arith

-- Only a card's `down` changes.
set_down_card-some :
    (k : ℕ) (down : Bool) (m : Running) (cards : List Card) {after : List Card}
    → set_down_card k down cards ≡ some after
    → (All (Within m) cards → All (Within m) after)
      × ((j : ℕ) → All (λ c. j ≢ c.index) cards → All (λ c. j ≢ c.index) after)
      × (Distinct (λ c. c.index) cards → Distinct (λ c. c.index) after)
unfolding set_down_card
set_down_card-some k down m [] h = absurd (cc)
set_down_card-some k down m (c ∷ cs) {after} h = elim (set_down_card-cons k down c cs h) [
  | inl e ↦ rw e ((λ w. (record { seats = w.0.seats; mem = w.0.mem }, w.1)), (λ j x. x), (λ d. d))
  | inr (rest, e, e') ↦
      let (w, other, apart) = set_down_card-some k down m cs e in
      rw e'
        ((λ x. (x.0, w x.1)), (λ j x. (x.0, other j x.1)), (λ d. (other c.index d.0, apart d.1)))
]

pub resize_placed-IsSound :
    (id : String) (p : Placed) (r : Request) (s : Scheduler)
    → IsSound s
    → IsFair p
    → pos 0 ≤ℤ r.mem_mib
    → IsSound (resize_placed id p r s).1
unfolding resize_placed insert
resize_placed-IsSound id p r s h fair nonneg = elim (Result-cases (resize_slots id r s p.slots)) [
  | inr (x, e) ↦ rw (e, resize_placed) h
  | inl (slots, e) ↦
      let re = resize_slots-AreResized id r s p.slots nonneg e in
      let apart = re.apart fair.apart in
      rw (e, resize_placed)
        (record {
          apart = h.apart;
          within = In-All s.cards λ c i. replace-Within id _ s.running c (
              HasRoom-Leaves (id ∷ []) s.cards s.running slots h.apart h.fair h.within re.rooms
                apart c i);
          fair = (
            record { asked = nonneg; taken = re.taken; apart = apart },
            AreFair-delete id _ h.fair,
          );
          waiting = h.waiting;
        })
]

pub lookup-IsFair :
    (id : String) (m : Running) {p : Placed} → lookup id m ≡ some p → AreFair m → IsFair p
unfolding lookup
lookup-IsFair id [] h f = absurd (cc)
lookup-IsFair id ((j, q) ∷ m) {p} h f = elim (Bool-cases (str_eq j id)) [
  | inl hit ↦ let same : q ≡ p = ground (arith, hit, h) in subst IsFair same f.0
  | inr miss ↦ lookup-IsFair id m (ground (arith, miss, h)) f.1
]

pub resized_request_nonneg :
    (r : Request) (fraction : Ratio) (mem : ℤ)
    → pos 0 ≤ℤ r.mem_mib
    → pos 0 ≤ℤ (resized_request r fraction mem).mem_mib
unfolding resized_request
resized_request_nonneg r fraction mem h = ground arith

resize-IsSound :
    (id : String) (fraction : Ratio) (mem : ℤ) (s : Scheduler)
    → IsSound s
    → IsSound (resize id fraction mem s).1
unfolding resize
resize-IsSound id fraction mem s h = elim (Option-cases (lookup id s.running)) [
  | inl e ↦ rw (e, resize) h
  | inr (p, e) ↦
      let fair = lookup-IsFair id s.running e h.fair in
      elim (Option-cases (validate (resized_request p.req fraction mem))) [
        | inr (x, e') ↦ rw (e, e', resize) h
        | inl e' ↦
            rw (e, e', resize)
              (resize_placed-IsSound id p _ s h fair
                (resized_request_nonneg p.req fraction mem fair.asked))
      ]
]

pub set_down-IsSound :
    (k : ℕ) (down : Bool) (s : Scheduler) → IsSound s → IsSound (set_down k down s).1
unfolding set_down
set_down-IsSound k down s h = elim (Option-cases (set_down_card k down s.cards)) [
  | inl e ↦ rw (e, set_down) h
  | inr (after, e) ↦
      let (w, other, apart) = set_down_card-some k down s.running s.cards e in
      rw (e, set_down)
        (record { apart = apart h.apart; within = w h.within; fair = h.fair; waiting = h.waiting })
]

-- A request of a call asks for no negative amount of memory.
abbrev pub AsksNonneg : Call → Type 0
AsksNonneg (admits r) = pos 0 ≤ℤ r.mem_mib
AsksNonneg (requeues r) = pos 0 ≤ℤ r.mem_mib
AsksNonneg _ = Unit

pub step-IsSound : (s : Scheduler) (c : Call) → AsksNonneg c → IsSound s → IsSound (step s c)
unfolding step
step-IsSound s (admits r) p h = admit-IsSound r s h p
step-IsSound s (requeues r) p h = requeue-IsSound r s h p
step-IsSound s (evicts id) p h = evict-IsSound id s h
step-IsSound s (releases id) p h = release-IsSound id s h
step-IsSound s (cancels id) p h = cancel-IsSound id s h
step-IsSound s (resizes id fraction mem) p h = resize-IsSound id fraction mem s h
step-IsSound s (sets_down k down) p h = set_down-IsSound k down s h

run-IsSound : (s : Scheduler) (cs : List Call) → All AsksNonneg cs → IsSound s → IsSound (run s cs)
unfolding run
run-IsSound s [] p h = h
run-IsSound s (c ∷ cs) p h = run-IsSound (step s c) cs p.1 (step-IsSound s c p.0 h)

with_seats-index : (c : Card) → (with_seats c).index ≡ c.index
unfolding with_seats
with_seats-index c = ground arith

with_seats-apart :
    (k : ℕ) (cards : List Card)
    → All (λ c. k ≢ c.index) cards
    → All (λ c. k ≢ c.index) (cards_with_seats cards)
unfolding cards_with_seats with_seats
with_seats-apart k [] h = tt
with_seats-apart k (c ∷ cs) h = (ground (arith, h.0), with_seats-apart k cs h.1)

cards_with_seats-Distinct :
    (cards : List Card)
    → Distinct (λ c. c.index) cards
    → Distinct (λ c. c.index) (cards_with_seats cards)
unfolding cards_with_seats
cards_with_seats-Distinct [] h = tt
cards_with_seats-Distinct (c ∷ cs) h =
    (rw (with_seats-index c) (with_seats-apart c.index cs h.0), cards_with_seats-Distinct cs h.1)

pub new-IsSound : (cards : List Card) → Distinct (λ c. c.index) cards → IsSound (new cards)
unfolding new
new-IsSound cards h = record {
  apart = cards_with_seats-Distinct cards h;
  within =
      In-All _
        (λ c i. unfold seats_used mem_used in record { seats = omega arith; mem = omega arith });
  fair = tt;
  waiting = tt;
}

-- Take any calls, in any order and with any outcome, on a fresh scheduler over cards of different
-- indices, where no request that is admitted or requeued asks for a negative amount of memory.
-- After them, on every card the seats in use are at most its seats and the memory in use is at
-- most its memory; the cards have different indices, no job holds two slots of one card, and no
-- running or queued job asks for or holds a negative amount of memory.
pub run-new-IsSound :
    (cards : List Card) (cs : List Call)
    → Distinct (λ c. c.index) cards
    → All AsksNonneg cs
    → IsSound (run (new cards) cs)
run-new-IsSound cards cs d p = run-IsSound (new cards) cs p (new-IsSound cards d)
