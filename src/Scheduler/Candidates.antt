-- ===== src/Scheduler/Candidates.antt =====
-- scheduler.go: which cards `fit` chooses from, and what it knows of them.
use gmux.Share.{seats}
use gmux.Share.Seats.{seats_bounds}
use gmux.Prelude.{
  length, refl, [], ◌∷◌, Distinct-sort_stable, All-sort_stable, inl, inr, Distinct-take, All-take,
  ◌≢◌, ◌∷◌, All, sym, Distinct, subst, Result-cases, ℕ, ◌+◌, ◌-◌, ◌≤◌, ◌≡◌, false, String, List, ok,
  arith, In,
}
use gmux.Prelude.Int.{+ℤ_parts, ℤ, pos, ◌+ℤ◌, ◌≤ℤ◌}
use gmux.Scheduler.State.{Slot, Card, Request, Running, need, seats_used, mem_used}
use gmux.Scheduler.Fit.{
  slots_of, fit, fits_before, wanted, chosen, candidates, Cand, over, consider,
}

-- A candidate is a listed card in service that the request may take, with room for it.
pub record Fits (r : Request) (ignore : List String) (m : Running) (cards : List Card) (cd : Cand)
    : Type 0 where
  pub listed : In cd.card cards
  pub up : cd.card.down ≡ false
  pub needed : need r cd.card ≡ ok (cd.seats, cd.mem)
  pub seats_room : seats_used cd.card.index ignore m + cd.seats ≤ cd.card.seats
  pub mem_room : mem_used cd.card.index ignore m +ℤ cd.mem ≤ℤ pos cd.card.mem_mib
  pub left : cd.left_seats ≡ cd.card.seats - seats_used cd.card.index ignore m - cd.seats

pub over-false :
    (c : Card) (s : ℕ) (mem : ℤ) (ignore : List String) (m : Running)
    → over c s mem ignore m ≡ false
    → (seats_used c.index ignore m + s ≤ c.seats)
      × (mem_used c.index ignore m +ℤ mem ≤ℤ pos c.mem_mib)
unfolding over
over-false c s mem ignore m h = ground arith

consider-ok :
    (r : Request) (ignore : List String) (m : Running) (c : Card) (cd : Cand)
    → consider r ignore m c ≡ ok cd
    → (cd.card ≡ c)
      × (c.down ≡ false)
      × (need r c ≡ ok (cd.seats, cd.mem))
      × (over c cd.seats cd.mem ignore m ≡ false)
      × (cd.left_seats ≡ c.seats - seats_used c.index ignore m - cd.seats)
unfolding consider
consider-ok r ignore m c cd h = ground arith

consider-Fits :
    (r : Request) (ignore : List String) (m : Running) (cards : List Card) (c : Card) (cd : Cand)
    → In c cards
    → consider r ignore m c ≡ ok cd
    → Fits r ignore m cards cd
consider-Fits r ignore m cards c cd i h =
    let (same, up, needed, room, left) = consider-ok r ignore m c cd h in
    let (seats_room, mem_room) = over-false c cd.seats cd.mem ignore m room in
    record {
      listed = subst (λ x. In x cards) (sym same) i;
      up = rw same up;
      needed = rw same needed;
      seats_room = rw same seats_room;
      mem_room = rw same mem_room;
      left = rw same left;
    }

-- Every candidate fits.
pub candidates-Fits :
    (r : Request) (ignore : List String) (m : Running) (cards cs : List Card)
    → ((c : Card) → In c cs → In c cards)
    → All (Fits r ignore m cards) (candidates r ignore m cs)
unfolding candidates
candidates-Fits r ignore m cards [] sub = tt
candidates-Fits r ignore m cards (c ∷ cs) sub =
    let rest = candidates-Fits r ignore m cards cs (λ x i. sub x (inr i)) in
    elim (Result-cases (consider r ignore m c)) [
      | inl (cd, e) ↦ rw e (consider-Fits r ignore m cards c cd (sub c (inl refl)) e, rest)
      | inr (x, e) ↦ rw e rest
    ]

candidates-apart :
    (r : Request) (ignore : List String) (m : Running) (k : ℕ) (cs : List Card)
    → All (λ c. k ≢ c.index) cs
    → All (λ cd. k ≢ cd.card.index) (candidates r ignore m cs)
unfolding candidates
candidates-apart r ignore m k [] h = tt
candidates-apart r ignore m k (c ∷ cs) h =
    let rest = candidates-apart r ignore m k cs h.1 in
    elim (Result-cases (consider r ignore m c)) [
      | inl (cd, e) ↦ rw e (rw ((consider-ok r ignore m c cd e).0) h.0, rest)
      | inr (x, e) ↦ rw e rest
    ]

candidates-Distinct :
    (r : Request) (ignore : List String) (m : Running) (cs : List Card)
    → Distinct (λ c. c.index) cs
    → Distinct (λ cd. cd.card.index) (candidates r ignore m cs)
unfolding candidates
candidates-Distinct r ignore m [] h = tt
candidates-Distinct r ignore m (c ∷ cs) h =
    let rest = candidates-Distinct r ignore m cs h.1 in
    elim (Result-cases (consider r ignore m c)) [
      | inl (cd, e) ↦ rw e (
        rw ((consider-ok r ignore m c cd e).0) (candidates-apart r ignore m c.index cs h.0),
        rest,
      )
      | inr (x, e) ↦ rw e rest
    ]

pub chosen-Fits :
    (r : Request) (ignore : List String) (m : Running) (cards : List Card)
    → All (Fits r ignore m cards) (chosen r ignore m cards)
unfolding chosen
chosen-Fits r ignore m cards =
    All-take _ (wanted r) _
      (All-sort_stable fits_before _ _ (candidates-Fits r ignore m cards cards (λ c i. i)))

pub chosen-Distinct :
    (r : Request) (ignore : List String) (m : Running) (cards : List Card)
    → Distinct (λ c. c.index) cards
    → Distinct (λ cd. cd.card.index) (chosen r ignore m cards)
unfolding chosen
chosen-Distinct r ignore m cards h =
    Distinct-take _ (wanted r) _
      (Distinct-sort_stable fits_before _ _ (candidates-Distinct r ignore m cards h))

need-seats :
    (r : Request) (c : Card) (s : ℕ) (mem : ℤ)
    → need r c ≡ ok (s, mem)
    → (seats r.share c.seats ≡ ok s) × (mem ≤ℤ pos c.mem_mib)
unfolding need
need-seats r c s mem h = ground arith

-- What `need` gives: from one seat to all of the card's, and memory within the card.
pub need_bounds :
    (r : Request) (c : Card) {s : ℕ} {mem : ℤ}
    → need r c ≡ ok (s, mem)
    → (1 ≤ s) × (s ≤ c.seats) × (mem ≤ℤ pos c.mem_mib)
need_bounds r c {s} {mem} h =
    let (e, fits) = need-seats r c s mem h in
    let (low, high) = seats_bounds r.share c.seats s e in (low, high, fits)

pub need_nonneg :
    (r : Request) (c : Card) {s : ℕ} {mem : ℤ}
    → pos 0 ≤ℤ r.mem_mib
    → need r c ≡ ok (s, mem)
    → pos 0 ≤ℤ mem
unfolding need
need_nonneg r c {s} {mem} p h = ground arith

-- Less in use on every card, whichever jobs run and are ignored.
pub record LessUsed (ig : List String) (m : Running) (ig' : List String) (m' : Running)
    : Type 0 where
  pub seats : (k : ℕ) → seats_used k ig' m' ≤ seats_used k ig m
  pub mem : (k : ℕ) → mem_used k ig' m' ≤ℤ mem_used k ig m

over_mono :
    (c : Card) (s : ℕ) (mem : ℤ) (ig ig' : List String) (m m' : Running)
    → LessUsed ig m ig' m'
    → over c s mem ig m ≡ false
    → over c s mem ig' m' ≡ false
unfolding over
over_mono c s mem ig ig' m m' l h = ground (
  arith,
  h,
  l.seats c.index,
  l.mem c.index,
  +ℤ_parts (mem_used c.index ig m) mem,
  +ℤ_parts (mem_used c.index ig' m') mem,
)

consider_mono :
    (r : Request) (ig ig' : List String) (m m' : Running) (c : Card) (cd : Cand)
    → LessUsed ig m ig' m'
    → consider r ig m c ≡ ok cd
    → (cd' : Cand) × (consider r ig' m' c ≡ ok cd')
unfolding consider
consider_mono r ig ig' m m' c cd l h =
    let (same, up, needed, room, left) = consider-ok r ig m c cd h in
    (
      record {
        card = c;
        seats = cd.seats;
        mem = cd.mem;
        left_seats = c.seats - seats_used c.index ig' m' - cd.seats;
      },
      ground (arith, up, needed, over_mono c cd.seats cd.mem ig ig' m m' l room),
    )

-- With less in use there are at least as many candidates.
pub candidates_mono :
    (r : Request) (ig ig' : List String) (m m' : Running) (cs : List Card)
    → LessUsed ig m ig' m'
    → length (candidates r ig m cs) ≤ length (candidates r ig' m' cs)
unfolding candidates
candidates_mono r ig ig' m m' [] l = omega arith
candidates_mono r ig ig' m m' (c ∷ cs) l = elim (Result-cases (consider r ig m c)) [
  | inl (cd, e) ↦
      let (cd', e') = consider_mono r ig ig' m m' c cd l e in
      ground (arith, e, e', candidates_mono r ig ig' m m' cs l)
  | inr (x, e) ↦ ground (arith, e, candidates_mono r ig ig' m m' cs l)
]

-- So a request that fits still fits.
pub fit_mono :
    (r : Request) (ig ig' : List String) (cards : List Card) (m m' : Running) {slots : List Slot}
    → LessUsed ig m ig' m'
    → fit r ig cards m ≡ ok slots
    → (slots' : List Slot) × (fit r ig' cards m' ≡ ok slots')
unfolding fit
fit_mono r ig ig' cards m m' l h = (
  slots_of r ig' m' (chosen r ig' m' cards),
  ground (arith, h, candidates_mono r ig ig' m m' cards l),
)
