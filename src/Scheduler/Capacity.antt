-- ===== src/Scheduler/Capacity.antt =====
-- scheduler.go: no operation lets the jobs on a card use more seats or memory than it has.
use gmux.Scheduler.Usage.{
  mem_used_mono, mem_used-delete, contains-nil, seats_used_mono, seats_used-delete, Within, AreFair,
}
use gmux.Prelude.{
  ◌∙◌, sym, length, length, length, length, length, length, length, length, length, All-In, length,
  ok, contains, insert, ℕ, ◌+◌, ◌≤◌, ◌≡◌, refl, ◌≢◌, String, List, [], ◌∷◌, arith, All, In,
  Distinct, Distinct-In, subst,
}
use native.Mathlib.Decide.{ℕ_discrete}
use gmux.Prelude.Int.{
  +ℤ_parts, +ℤ_parts, +ℤ_parts, +ℤ_parts, +ℤ_parts, +ℤ_parts, +ℤ_parts, +ℤ_parts, +ℤ_parts, pos,
  ◌+ℤ◌, ◌≤ℤ◌, +ℤ_parts,
}
use gmux.Scheduler.State.{
  Placed, Slot, Card, Request, Running, seats_on, mem_on, seats_used, mem_used,
}
use gmux.Scheduler.Fit.{
  fit, fit, fit, fit, fit, fit, fit, fit, fit, candidates, wanted, chosen, fit, Cand, slots_of,
}
use gmux.Scheduler.Candidates.{chosen-Distinct, chosen-Fits, need_nonneg, Fits}

-- A slot for whose card there is room without the jobs in `ignore`.
pub record HasRoom (ignore : List String) (m : Running) (cards : List Card) (sl : Slot)
    : Type 0 where
  pub on : Card
  pub listed : In on cards
  pub same : sl.card ≡ on.index
  pub seats_room : seats_used on.index ignore m + sl.seats ≤ on.seats
  pub mem_room : mem_used on.index ignore m +ℤ sl.mem_mib ≤ℤ pos on.mem_mib

-- Slots on other cards take nothing of card k.
slots_apart :
    (k : ℕ) (sls : List Slot)
    → All (λ sl. k ≢ sl.card) sls
    → (seats_on k sls ≡ 0) × (mem_on k sls ≡ pos 0)
unfolding seats_on mem_on
slots_apart k [] h = (refl, refl)
slots_apart k (sl ∷ sls) h = let (s, mem) = slots_apart k sls h.1 in ground (arith, h.0, s, mem)

module _ (ignore : List String) (m : Running) (cards : List Card) (c : Card) where
  -- Slots with room, one to a card, leave the card within its seats and its memory.
  pub slots_within :
      (sls : List Slot)
      → Distinct (λ x. x.index) cards
      → In c cards
      → All (HasRoom ignore m cards) sls
      → Distinct (λ sl. sl.card) sls
      → seats_used c.index ignore m ≤ c.seats
      → mem_used c.index ignore m ≤ℤ pos c.mem_mib
      → (seats_on c.index sls + seats_used c.index ignore m ≤ c.seats)
        × (mem_on c.index sls +ℤ mem_used c.index ignore m ≤ℤ pos c.mem_mib)
  unfolding seats_on mem_on
  slots_within [] dc i f d hs hm =
      (omega arith, omega (arith, +ℤ_parts (pos 0) (mem_used c.index ignore m)))
  slots_within (sl ∷ sls) dc i f d hs hm =
      let (s, mem) = slots_within sls dc i f.1 d.1 hs hm in
      elim (ℕ_discrete sl.card c.index) [
        | yes e ↦
            let same = Distinct-In (λ x. x.index) cards dc f.0.listed i (sym f.0.same ∙ e) in
            let (zs, zm) = slots_apart c.index sls (subst (λ k. All (λ y. k ≢ y.card) sls) e d.0) in
            ground (
              arith,
              e,
              zs,
              zm,
              subst (λ x. seats_used x.index ignore m + sl.seats ≤ x.seats) same f.0.seats_room,
              subst (λ x. mem_used x.index ignore m +ℤ sl.mem_mib ≤ℤ pos x.mem_mib) same
                  f.0.mem_room,
              +ℤ_parts sl.mem_mib (pos 0),
              +ℤ_parts (sl.mem_mib +ℤ pos 0) (mem_used c.index ignore m),
              +ℤ_parts (mem_used c.index ignore m) sl.mem_mib,
            )
        | no ne ↦ ground (arith, ne, s, mem)
      ]

-- With these slots added to the jobs that are not ignored, the card is within its bounds.
pub record Leaves (ignore : List String) (m : Running) (slots : List Slot) (c : Card) : Type 0 where
  pub seats : seats_on c.index slots + seats_used c.index ignore m ≤ c.seats
  pub mem : mem_on c.index slots +ℤ mem_used c.index ignore m ≤ℤ pos c.mem_mib

pub fit-ok :
    (r : Request) (ignore : List String) (cards : List Card) (m : Running) {slots : List Slot}
    → fit r ignore cards m ≡ ok slots
    → (slots ≡ slots_of r ignore m (chosen r ignore m cards))
      × (wanted r ≤ length (candidates r ignore m cards))
unfolding fit
fit-ok r ignore cards m h = ground arith

slots_of-HasRoom :
    (r : Request) (ignore : List String) (m : Running) (cards : List Card) (cds : List Cand)
    → All (Fits r ignore m cards) cds
    → All (HasRoom ignore m cards) (slots_of r ignore m cds)
unfolding slots_of
slots_of-HasRoom r ignore m cards [] f = tt
slots_of-HasRoom r ignore m cards (cd ∷ cds) f = (
  record {
    on = cd.card;
    listed = f.0.listed;
    same = refl;
    seats_room = f.0.seats_room;
    mem_room = f.0.mem_room;
  },
  slots_of-HasRoom r ignore m cards cds f.1,
)

-- Slots with room, one to a card, leave every card within its bounds.
pub HasRoom-Leaves :
    (ignore : List String) (cards : List Card) (m : Running) (sls : List Slot)
    → Distinct (λ x. x.index) cards
    → AreFair m
    → All (Within m) cards
    → All (HasRoom ignore m cards) sls
    → Distinct (λ sl. sl.card) sls
    → (c : Card) → In c cards
    → Leaves ignore m sls c
HasRoom-Leaves ignore cards m sls d f w room apart c i =
    let here = All-In (Within m) cards w i in
    let (s, mem) =
      slots_within ignore m cards c sls d i room apart
        (omega (arith, here.seats, seats_used_mono c.index [] ignore m (contains-nil ignore)))
        (omega (arith, here.mem, mem_used_mono c.index [] ignore m f (contains-nil ignore))) in
    record { seats = s; mem = mem }

slots_of-taken :
    (r : Request) (ignore : List String) (m : Running) (cards : List Card) (cds : List Cand)
    → pos 0 ≤ℤ r.mem_mib
    → All (Fits r ignore m cards) cds
    → All (λ sl. pos 0 ≤ℤ sl.mem_mib) (slots_of r ignore m cds)
unfolding slots_of
slots_of-taken r ignore m cards [] p f = tt
slots_of-taken r ignore m cards (cd ∷ cds) p f =
    (need_nonneg r cd.card p f.0.needed, slots_of-taken r ignore m cards cds p f.1)

slots_of_other :
    (r : Request) (ignore : List String) (m : Running) (k : ℕ) (cds : List Cand)
    → All (λ cd. k ≢ cd.card.index) cds
    → All (λ sl. k ≢ sl.card) (slots_of r ignore m cds)
unfolding slots_of
slots_of_other r ignore m k [] h = tt
slots_of_other r ignore m k (cd ∷ cds) h = (h.0, slots_of_other r ignore m k cds h.1)

slots_of-Distinct :
    (r : Request) (ignore : List String) (m : Running) (cds : List Cand)
    → Distinct (λ cd. cd.card.index) cds
    → Distinct (λ sl. sl.card) (slots_of r ignore m cds)
unfolding slots_of
slots_of-Distinct r ignore m [] h = tt
slots_of-Distinct r ignore m (cd ∷ cds) h =
    (slots_of_other r ignore m cd.card.index cds h.0, slots_of-Distinct r ignore m cds h.1)

pub fit-HasRoom :
    (r : Request) (ignore : List String) (cards : List Card) (m : Running) {slots : List Slot}
    → fit r ignore cards m ≡ ok slots
    → All (HasRoom ignore m cards) slots
fit-HasRoom r ignore cards m h =
    rw ((fit-ok r ignore cards m h).0)
      (slots_of-HasRoom r ignore m cards _ (chosen-Fits r ignore m cards))

pub fit-Distinct :
    (r : Request) (ignore : List String) (cards : List Card) (m : Running) {slots : List Slot}
    → Distinct (λ x. x.index) cards
    → fit r ignore cards m ≡ ok slots
    → Distinct (λ sl. sl.card) slots
fit-Distinct r ignore cards m d h =
    rw ((fit-ok r ignore cards m h).0)
      (slots_of-Distinct r ignore m _ (chosen-Distinct r ignore m cards d))

pub fit-taken :
    (r : Request) (ignore : List String) (cards : List Card) (m : Running) {slots : List Slot}
    → pos 0 ≤ℤ r.mem_mib
    → fit r ignore cards m ≡ ok slots
    → All (λ sl. pos 0 ≤ℤ sl.mem_mib) slots
fit-taken r ignore cards m p h =
    rw ((fit-ok r ignore cards m h).0)
      (slots_of-taken r ignore m cards _ p (chosen-Fits r ignore m cards))

-- The cards stay within their bounds when a job gets slots that leave them so, and the jobs that
-- were ignored are gone.
pub insert-Within :
    (id : String) (p : Placed) (ignore : List String) (m rest : Running) (c : Card)
    → AreFair rest
    → Leaves ignore m p.slots c
    → seats_used c.index [] rest ≤ seats_used c.index ignore m
    → mem_used c.index [] rest ≤ℤ mem_used c.index ignore m
    → Within (insert id p rest) c
unfolding insert seats_used mem_used contains
insert-Within id p ignore m rest c f l s mem = record {
  seats = omega (
    arith,
    l.seats,
    s,
    seats_used-delete c.index [] id rest,
    seats_used_mono c.index [] (id ∷ []) rest (contains-nil (id ∷ [])),
  );
  mem = rw (mem_used-delete c.index [] id rest) (
      omega (
        arith,
        l.mem,
        mem,
        mem_used_mono c.index [] (id ∷ []) rest f (contains-nil (id ∷ [])),
        +ℤ_parts (mem_on c.index p.slots) (mem_used c.index ignore m),
        +ℤ_parts (mem_on c.index p.slots) (mem_used c.index (id ∷ []) rest),
      ));
}

-- The same when the job held slots before, and only it was ignored.
pub replace-Within :
    (id : String) (p : Placed) (m : Running) (c : Card)
    → Leaves (id ∷ []) m p.slots c
    → Within (insert id p m) c
unfolding insert seats_used mem_used contains
replace-Within id p m c l = record {
  seats = omega (arith, l.seats, seats_used-delete c.index [] id m);
  mem = rw (mem_used-delete c.index [] id m) l.mem;
}
