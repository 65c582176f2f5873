-- ===== src/Scheduler/Fit.antt =====
-- scheduler.go: `slot`, `fit` and `victims`, the placement of a request and whom it may push off.
use gmux.Prelude.{
  ℕ, ◌+◌, ◌-◌, ◌==◌, Bool, ◌&&◌, ◌||◌, String, List, [], ◌∷◌, ◌++◌, map, Option, none, some,
  if◌then◌else◌, ltb, max, length, take, Result, ok, err, discard, sort_stable,
}
use gmux.Prelude.Int.{ℤ, pos, pos_part, neg_part, ltb_ℤ, ◌+ℤ◌}
use gmux.Share.{granted, compute_percent}
use gmux.Scheduler.State.{
  Card, Request, Slot, Placed, Running, Error, no_fit, seats_used, mem_used, need,
}
use gmux.Scheduler.Seating.{pick_seats}

-- `slot`: a burst job may use the whole card.
unfoldable pub slot : Request → Card → ℕ → ℤ → List String → List ℕ → Running → Slot
slot r c seats mem ignore keep running = record {
  card = c.index;
  seats = seats;
  granted_share = granted seats c.seats;
  mem_mib = mem;
  compute_percent = if r.burst then 100 else compute_percent seats c.seats;
  seat_ids = pick_seats c seats ignore keep running;
}

-- A card that has room for the request.
pub record Cand : Type 0 where
  pub card : Card
  pub seats : ℕ
  pub mem : ℤ
  pub left_seats : ℕ

-- `usedS+seats > c.Seats || usedM+mem > c.MemMiB`.
unfoldable pub over : Card → ℕ → ℤ → List String → Running → Bool
over c seats mem ignore running =
    ltb c.seats (seats_used c.index ignore running + seats)
    || ltb_ℤ (pos c.mem_mib) (mem_used c.index ignore running +ℤ mem)

-- The body of the loop over the cards: a candidate, or none with the error, if there is one.
unfoldable pub consider : Request → List String → Running → Card → Result (Option Error) Cand
consider r ignore running c = if c.down then err none else elim (need r c) [
  | err e ↦ err (some e)
  | ok (seats, mem) ↦
      if over c seats mem ignore running
      then err none
      else ok (record {
        card = c;
        seats = seats;
        mem = mem;
        left_seats = c.seats - seats_used c.index ignore running - seats;
      })
]

abbrev pub keep_ok : {E A : Type 0} → Result E A → List A → List A
keep_ok (ok a) rest = a ∷ rest
keep_ok (err e) rest = rest

unfoldable pub candidates : Request → List String → Running → List Card → List Cand
candidates r ignore running [] = []
candidates r ignore running (c ∷ cs) =
    keep_ok (consider r ignore running c) (candidates r ignore running cs)

abbrev or_last : Option Error → Result (Option Error) Cand → Option Error
or_last last (err (some e)) = some e
or_last last (err none) = last
or_last last (ok cd) = last

-- `lastErr`, the last error of `need`.
unfoldable pub last_error :
    Request → List String → Running → List Card → Option Error → Option Error
last_error r ignore running [] last = last
last_error r ignore running (c ∷ cs) last =
    last_error r ignore running cs (or_last last (consider r ignore running c))

-- Best fit: the fewest seats left, then the lower index.
unfoldable pub fits_before : Cand → Cand → Bool
fits_before a b =
    ltb a.left_seats b.left_seats || (a.left_seats == b.left_seats && ltb a.card.index b.card.index)

-- The number of cards wanted, at least one.
unfoldable pub wanted : Request → ℕ
wanted r = max (pos_part r.gpus) 1

unfoldable pub chosen : Request → List String → Running → List Card → List Cand
chosen r ignore running cards =
    take (wanted r) (sort_stable fits_before (candidates r ignore running cards))

unfoldable pub fit_error : List Cand → Option Error → Error
fit_error [] (some e) = e
fit_error [] none = no_fit
fit_error (cd ∷ cds) last = no_fit

unfoldable pub slots_of : Request → List String → Running → List Cand → List Slot
unfolding slot
slots_of r ignore running = map (λ (cd : Cand). slot r cd.card cd.seats cd.mem ignore [] running)

-- `fit`: cards for the request, as if the jobs in `ignore` were gone.
unfoldable pub fit : Request → List String → List Card → Running → Result Error (List Slot)
fit r ignore cards running =
    if ltb (length (candidates r ignore running cards)) (wanted r)
    then err
        (fit_error (candidates r ignore running cards) (last_error r ignore running cards none))
    else ok (slots_of r ignore running (chosen r ignore running cards))

abbrev int_eq : ℤ → ℤ → Bool
int_eq a b = pos_part a + neg_part b == pos_part b + neg_part a

-- Lowest priority first, then the newest.
unfoldable pub gives_way_before : Placed → Placed → Bool
gives_way_before a b =
    ltb_ℤ a.req.priority b.req.priority
    || (int_eq a.req.priority b.req.priority && ltb b.order a.order)

-- `p.req.Preemptible && p.req.Priority < r.Priority`.
unfoldable pub may_push_off : Request → Placed → Bool
may_push_off r p = p.req.preemptible && ltb_ℤ p.req.priority r.priority

unfoldable pub victim_pool : Request → Running → List Placed
victim_pool r [] = []
victim_pool r ((id, p) ∷ m) = if may_push_off r p then p ∷ victim_pool r m else victim_pool r m

-- The loop that drops the victims that turned out not to be needed: whom it needs, and `ignore`
-- after it.
unfoldable pub drop_unneeded :
    Request → List Card → Running → List String → List String → List String × List String
drop_unneeded r cards running [] ignore = ([], ignore)
drop_unneeded r cards running (id ∷ ids) ignore = elim (fit r (discard id ignore) cards running) [
  | ok slots ↦ drop_unneeded r cards running ids (discard id ignore)
  | err e ↦
      let (needed, after) = drop_unneeded r cards running ids (id ∷ discard id ignore) in
      (id ∷ needed, after)
]

abbrev with_slots : List String → Result Error (List Slot) → Option (List String × List Slot)
with_slots needed (ok slots) = some (needed, slots)
with_slots needed (err e) = none

unfoldable pub settle :
    Request → List Card → Running → List String → List String → Option (List String × List Slot)
settle r cards running picked ignore =
    let (needed, after) = drop_unneeded r cards running picked ignore in
    with_slots needed (fit r after cards running)

-- The loop over the pool, with whom it has chosen and ignores so far; `none` is a nil slice of
-- slots.
unfoldable pub push_off :
    Request
    → List Card
    → Running
    → List Placed
    → List String
    → List String
    → Option (List String × List Slot)
push_off r cards running [] picked ignore = none
push_off r cards running (p ∷ pool) picked ignore = elim (fit r (p.req.id ∷ ignore) cards running) [
  | ok slots ↦ settle r cards running (picked ++ p.req.id ∷ []) (p.req.id ∷ ignore)
  | err e ↦ push_off r cards running pool (picked ++ p.req.id ∷ []) (p.req.id ∷ ignore)
]

-- `victims`.
unfoldable pub victims : Request → List Card → Running → Option (List String × List Slot)
victims r cards running =
    push_off r cards running (sort_stable gives_way_before (victim_pool r running)) [] []
