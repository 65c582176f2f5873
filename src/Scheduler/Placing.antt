-- ===== src/Scheduler/Placing.antt =====
-- scheduler.go: what `fit` gives a request. It is gang placement by best fit.
use gmux.Prelude.{
  Result-cases, ◌-◌, ℕ, ◌+◌, ◌≤◌, ◌≡◌, refl, ap, ◌∙◌, ◌⊎◌, inl, inr, false, String, List, [], ◌∷◌,
  map, ok, arith, All, In, Distinct, length, length-take, length-map, sort_stable,
  length-sort_stable, IsOrder, IsOrdered-sort_stable, In-sort_stable, take_first,
}
use gmux.Prelude.Int.{ℤ, pos, ◌+ℤ◌, ◌≤ℤ◌}
use gmux.Scheduler.State.{Card, Request, Slot, Running, need, seats_used, mem_used}
use gmux.Scheduler.Fit.{
  consider, over, Cand, fit, slots_of, chosen, candidates, fits_before, wanted,
}
use gmux.Scheduler.Candidates.{Fits, chosen-Fits}
use gmux.Scheduler.Capacity.{fit-ok, fit-Distinct}

fits_before-IsOrder : IsOrder fits_before
unfolding fits_before
fits_before-IsOrder = record { asym = λ x y h. ground arith; trans = λ x y z h k. ground arith }

-- A candidate that was not chosen has no fewer seats left than each that was, and no lower index
-- on a tie.
pub chosen_best :
    (r : Request) (ignore : List String) (m : Running) (cards : List Card) (cd : Cand)
    → In cd (candidates r ignore m cards)
    → In cd (chosen r ignore m cards)
      ⊎ All (λ ch. fits_before cd ch ≡ false) (chosen r ignore m cards)
unfolding chosen
chosen_best r ignore m cards cd i =
    take_first fits_before cd (wanted r) _
      (IsOrdered-sort_stable fits_before fits_before-IsOrder (candidates r ignore m cards))
      (In-sort_stable fits_before cd _ i)

length-slots_of :
    (r : Request) (ignore : List String) (m : Running) (cds : List Cand)
    → length (slots_of r ignore m cds) ≡ length cds
unfolding slots_of
length-slots_of r ignore m cds = length-map cds _

length-chosen :
    (r : Request) (ignore : List String) (m : Running) (cards : List Card)
    → wanted r ≤ length (candidates r ignore m cards)
    → length (chosen r ignore m cards) ≡ wanted r
unfolding chosen
length-chosen r ignore m cards h = omega (
  arith,
  length-take (wanted r) (sort_stable fits_before (candidates r ignore m cards)),
  length-sort_stable fits_before (candidates r ignore m cards),
)

-- What a slot says of the card that it is on.
pub record IsSlotOn (r : Request) (ignore : List String) (m : Running) (cards : List Card)
    (sl : Slot) : Type 0 where
  pub on : Card
  pub listed : In on cards
  pub up : on.down ≡ false
  pub same : sl.card ≡ on.index
  pub needed : need r on ≡ ok (sl.seats, sl.mem_mib)
  pub seats_room : seats_used on.index ignore m + sl.seats ≤ on.seats
  pub mem_room : mem_used on.index ignore m +ℤ sl.mem_mib ≤ℤ pos on.mem_mib

slots_of-IsSlotOn :
    (r : Request) (ignore : List String) (m : Running) (cards : List Card) (cds : List Cand)
    → All (Fits r ignore m cards) cds
    → All (IsSlotOn r ignore m cards) (slots_of r ignore m cds)
unfolding slots_of
slots_of-IsSlotOn r ignore m cards [] f = tt
slots_of-IsSlotOn r ignore m cards (cd ∷ cds) f = (
  record {
    on = cd.card;
    listed = f.0.listed;
    up = f.0.up;
    same = refl;
    needed = f.0.needed;
    seats_room = f.0.seats_room;
    mem_room = f.0.mem_room;
  },
  slots_of-IsSlotOn r ignore m cards cds f.1,
)

-- Gang placement: a request that fits gets as many slots as it wants cards, at least one, on
-- different cards, each in service and with room for the seats and the memory that the request
-- takes there, besides the jobs that are not ignored.
pub fit_lem :
    (r : Request) (ignore : List String) (cards : List Card) (m : Running) {slots : List Slot}
    → Distinct (λ x. x.index) cards
    → fit r ignore cards m ≡ ok slots
    → (length slots ≡ wanted r)
      × (1 ≤ wanted r)
      × All (IsSlotOn r ignore m cards) slots
      × Distinct (λ sl. sl.card) slots
fit_lem r ignore cards m d h =
    let (e, enough) = fit-ok r ignore cards m h in
    (
      ap length e ∙ length-slots_of r ignore m _ ∙ length-chosen r ignore m cards enough,
      unfold wanted in omega arith,
      rw e (slots_of-IsSlotOn r ignore m cards _ (chosen-Fits r ignore m cards)),
      fit-Distinct r ignore cards m d h,
    )

keep_ok-In :
    (r : Request) (ignore : List String) (m : Running) (c : Card) (cs : List Card) (cd : Cand)
    → In c cs
    → consider r ignore m c ≡ ok cd
    → In cd (candidates r ignore m cs)
unfolding candidates
keep_ok-In r ignore m c [] cd i e = i
keep_ok-In r ignore m c (x ∷ xs) cd (inl same) e = rw (← same, e) (inl refl)
keep_ok-In r ignore m c (x ∷ xs) cd (inr i) e =
    let there = keep_ok-In r ignore m c xs cd i e in
    elim (Result-cases (consider r ignore m x)) [
      | inl (y, e') ↦ rw e' (inr there)
      | inr (y, e') ↦ rw e' there
    ]

-- The slot is on a card that it leaves with at most n free seats.
pub record LeavesAtMost (ignore : List String) (m : Running) (cards : List Card) (n : ℕ) (sl : Slot)
    : Type 0 where
  on : Card
  listed : In on cards
  same : sl.card ≡ on.index
  tight : on.seats - seats_used on.index ignore m - sl.seats ≤ n

tight_slots :
    (r : Request) (ignore : List String) (m : Running) (cards : List Card) (cds : List Cand)
    (cd : Cand)
    → All (Fits r ignore m cards) cds
    → All (λ ch. fits_before cd ch ≡ false) cds
    → All (LeavesAtMost ignore m cards cd.left_seats) (slots_of r ignore m cds)
unfolding slots_of fits_before
tight_slots r ignore m cards [] cd f b = tt
tight_slots r ignore m cards (ch ∷ chs) cd f b = (
  record { on = ch.card; listed = f.0.listed; same = refl; tight = ground (arith, f.0.left, b.0) },
  tight_slots r ignore m cards chs cd f.1 b.1,
)

In-slots_of :
    (r : Request) (ignore : List String) (m : Running) (cds : List Cand) (cd : Cand)
    → In cd cds
    → In cd.card.index (map (λ (sl : Slot). sl.card) (slots_of r ignore m cds))
unfolding slots_of
In-slots_of r ignore m [] cd i = i
In-slots_of r ignore m (ch ∷ chs) cd (inl e) = inl (ap (λ (x : Cand). x.card.index) e)
In-slots_of r ignore m (ch ∷ chs) cd (inr i) = inr (In-slots_of r ignore m chs cd i)

-- Best fit: take a request that fits and any card in service that has room for what the request
-- needs there, besides the jobs that are not ignored. Either the request gets a slot on it, or
-- every slot that it gets leaves its card with at most as many free seats as this card would
-- have left.
pub fit_best :
    (r : Request) (ignore : List String) (cards : List Card) (m : Running) (slots : List Slot)
    (c : Card) (s : ℕ) (mem : ℤ)
    → fit r ignore cards m ≡ ok slots
    → In c cards
    → c.down ≡ false
    → need r c ≡ ok (s, mem)
    → over c s mem ignore m ≡ false
    → In c.index (map (λ (sl : Slot). sl.card) slots)
      ⊎ All (LeavesAtMost ignore m cards (c.seats - seats_used c.index ignore m - s)) slots
fit_best r ignore cards m slots c s mem h i up needed room =
    elim (chosen_best r ignore m cards cd (keep_ok-In r ignore m c cards cd i considered)) [
      | inl j ↦ inl (rw e (In-slots_of r ignore m _ cd j))
      | inr b ↦ inr (rw e (tight_slots r ignore m cards _ cd (chosen-Fits r ignore m cards) b))
    ]
  where
    e : slots ≡ slots_of r ignore m (chosen r ignore m cards)
    e = (fit-ok r ignore cards m h).0

    cd : Cand
    cd = record {
      card = c;
      seats = s;
      mem = mem;
      left_seats = c.seats - seats_used c.index ignore m - s;
    }

    considered : consider r ignore m c ≡ ok cd
    considered = unfold consider in ground (arith, up, needed, room)
