-- ===== src/Scheduler/Ownership.antt =====
-- scheduler.go: the seats that `slot` gives a job are held by no other job.
use gmux.Scheduler.Usage.{contains-nil}
use native.Mathlib.Decide.{ℕ_discrete}
use gmux.Prelude.{
  ℕ, ◌+◌, ◌≤◌, ◌≡◌, refl, sym, ◌∙◌, ◌≢◌, subst, ◌⊎◌, String, List, [], ◌∷◌, ok, if◌then◌else◌, ltb,
  arith, length, All, In, All-imp, Distinct, Distinct-In, contains, insert,
}
use gmux.Prelude.Int.{ℤ}
use gmux.Scheduler.State.{Card, Request, Slot, Placed, Running, seats_used}
use gmux.Scheduler.Seating.{occupied, pick_seats}
use gmux.Scheduler.Fit.{Cand, fit, slot, slots_of}
use gmux.Scheduler.Candidates.{Fits, chosen-Fits}
use gmux.Scheduler.Capacity.{fit-ok}
use gmux.Scheduler.Marks.{
  count, held_on, held, AreFull, is_free-occupied, frees-occupied, held-delete, held_mono,
}
use gmux.Scheduler.Picking.{pick_from-IsPick}

abbrev pub AllFull : Running → Type 0
AllFull = All (λ (id, p). AreFull p.slots)

-- 1 for a seat of the card, 0 for another number.
abbrev pub is_seat : Card → ℕ → ℕ
is_seat c i = if ltb i c.seats then 1 else 0

-- No seat of the card is held twice, and none that it does not have.
abbrev pub IsSingle : Running → Card → Type 0
IsSingle m c = (i : ℕ) → held c.index i [] m ≤ is_seat c i

-- As many seats as the slot says, all of its card, none held by a job that is not ignored.
pub record IsSeated (ignore : List String) (m : Running) (cards : List Card) (sl : Slot)
    : Type 0 where
  pub on : Card
  pub listed : In on cards
  pub same : sl.card ≡ on.index
  pub many : length sl.seat_ids ≡ sl.seats
  pub vacant :
      (i : ℕ)
      → count i sl.seat_ids + held on.index i ignore m ≤ is_seat on i ⊎ (count i sl.seat_ids ≡ 0)

-- What `slot` gives when there is room for it.
pub slot-IsSeated :
    (r : Request) (c : Card) (seats : ℕ) (mem : ℤ) (ignore : List String) (keep : List ℕ)
    (m : Running) (cards : List Card)
    → AllFull m
    → In c cards
    → seats_used c.index ignore m + seats ≤ c.seats
    → IsSeated ignore m cards (slot r c seats mem ignore keep m)
unfolding slot pick_seats
slot-IsSeated r c seats mem ignore keep m cards full i room =
    let p =
      pick_from-IsPick (occupied c ignore m) seats keep
        (omega (arith, frees-occupied c ignore m full)) in
    record {
      on = c;
      listed = i;
      same = refl;
      many = p.many;
      vacant = λ j. ground (arith, p.free j, is_free-occupied c ignore m j);
    }

slots_held_apart : (k i : ℕ) (sls : List Slot) → All (λ sl. k ≢ sl.card) sls → held_on k i sls ≡ 0
unfolding held_on
slots_held_apart k i [] h = refl
slots_held_apart k i (sl ∷ sls) h = ground (arith, h.0, slots_held_apart k i sls h.1)

-- Slots so seated, one to a card, hold no seat twice.
pub slots_single :
    (ignore : List String) (m : Running) (cards : List Card) (c : Card) (i : ℕ) (sls : List Slot)
    → Distinct (λ x. x.index) cards
    → In c cards
    → All (IsSeated ignore m cards) sls
    → Distinct (λ sl. sl.card) sls
    → held c.index i ignore m ≤ is_seat c i
    → held_on c.index i sls + held c.index i ignore m ≤ is_seat c i
unfolding held_on
slots_single ignore m cards c i [] dc ic f d h = omega arith
slots_single ignore m cards c i (sl ∷ sls) dc ic f d h =
    let rest = slots_single ignore m cards c i sls dc ic f.1 d.1 h in
    elim (ℕ_discrete sl.card c.index) [
      | no ne ↦ ground (arith, ne, rest)
      | yes e ↦
          let same = Distinct-In (λ x. x.index) cards dc f.0.listed ic (sym f.0.same ∙ e) in
          let zs = slots_held_apart c.index i sls (subst (λ k. All (λ y. k ≢ y.card) sls) e d.0) in
          let v =
            subst
              (λ x.
                (count i sl.seat_ids + held x.index i ignore m ≤ is_seat x i)
                ⊎ (count i sl.seat_ids ≡ 0))
              same (f.0.vacant i) in
          ground (arith, e, zs, v, h)
    ]

slots_of-IsSeated :
    (r : Request) (ignore : List String) (m : Running) (cards : List Card) (cds : List Cand)
    → AllFull m
    → All (Fits r ignore m cards) cds
    → All (IsSeated ignore m cards) (slots_of r ignore m cds)
unfolding slots_of
slots_of-IsSeated r ignore m cards [] full f = tt
slots_of-IsSeated r ignore m cards (cd ∷ cds) full f = (
  slot-IsSeated r cd.card cd.seats cd.mem ignore [] m cards full f.0.listed f.0.seats_room,
  slots_of-IsSeated r ignore m cards cds full f.1,
)

pub fit-IsSeated :
    (r : Request) (ignore : List String) (cards : List Card) (m : Running) {slots : List Slot}
    → AllFull m
    → fit r ignore cards m ≡ ok slots
    → All (IsSeated ignore m cards) slots
fit-IsSeated r ignore cards m full h =
    rw ((fit-ok r ignore cards m h).0)
      (slots_of-IsSeated r ignore m cards _ full (chosen-Fits r ignore m cards))

pub AreFull-of :
    (ignore : List String) (m : Running) (cards : List Card) (sls : List Slot)
    → All (IsSeated ignore m cards) sls
    → AreFull sls
AreFull-of ignore m cards sls h = All-imp sls (λ sl s. s.many) h

pub insert-IsSingle :
    (id : String) (p : Placed) (ignore : List String) (m rest : Running) (cards : List Card)
    (c : Card)
    → Distinct (λ x. x.index) cards
    → In c cards
    → All (IsSeated ignore m cards) p.slots
    → Distinct (λ sl. sl.card) p.slots
    → IsSingle m c
    → ((i : ℕ) → held c.index i (id ∷ []) rest ≤ held c.index i ignore m)
    → IsSingle (insert id p rest) c
unfolding insert held contains
insert-IsSingle id p ignore m rest cards c dc ic f d single less i = omega (
  arith,
  held-delete c.index i [] id rest,
  less i,
  slots_single ignore m cards c i p.slots dc ic f d
      (omega (arith, single i, held_mono c.index i [] ignore m (contains-nil ignore))),
)
