-- ===== src/Scheduler/Preemption.antt =====
-- scheduler.go: whom `victims` pushes off.
use gmux.Prelude.{
  ◌≡◌, refl, ◌⊎◌, inl, inr, true, false, ◌||◌, String, List, [], ◌∷◌, ◌++◌, some, ok, arith,
  contains, discard, Result-cases, str_eq, str_eq-sym, eq_iff,
}
use gmux.Scheduler.State.{Card, Request, Slot, Placed, Running}
use gmux.Scheduler.Fit.{fit, drop_unneeded, settle, push_off, victims}

pub contains-discard :
    (x id : String) (ids : List String)
    → contains x (discard id ids) ≡ true
    → (contains x ids ≡ true) × (str_eq x id ≡ false)
unfolding contains discard
contains-discard x id [] h = cc
contains-discard x id (y ∷ ys) h =
    ground (arith, eq_iff y id, eq_iff y x, eq_iff x id, contains-discard x id ys)

-- Who is still ignored at the end was found to be needed, or was never in question.
drop_unneeded-contains :
    (r : Request) (cards : List Card) (m : Running) (ids ignore : List String) (x : String)
    → contains x (drop_unneeded r cards m ids ignore).1 ≡ true
    → (contains x (drop_unneeded r cards m ids ignore).0 ≡ true)
      ⊎ ((contains x ignore ≡ true) × (contains x ids ≡ false))
unfolding drop_unneeded contains
drop_unneeded-contains r cards m [] ignore x h = inr (h, refl)
drop_unneeded-contains r cards m (id ∷ ids) ignore x h =
    elim (Result-cases (fit r (discard id ignore) cards m)) [
      | inl (slots, e) ↦ ground (
        arith,
        e,
        h,
        str_eq-sym x id,
        contains-discard x id ignore,
        drop_unneeded-contains r cards m ids (discard id ignore) x,
      )
      | inr (er, e) ↦ ground (
        arith,
        e,
        h,
        str_eq-sym x id,
        contains-discard x id ignore,
        drop_unneeded-contains r cards m ids (id ∷ discard id ignore) x,
      )
    ]

settle-some :
    (r : Request) (cards : List Card) (m : Running) (picked ignore needed : List String)
    {slots : List Slot}
    → ((x : String) → contains x ignore ≡ true → contains x picked ≡ true)
    → settle r cards m picked ignore ≡ some (needed, slots)
    → (after : List String) × (fit r after cards m ≡ ok slots)
      × ((x : String) → contains x after ≡ true → contains x needed ≡ true)
unfolding settle
settle-some r cards m picked ignore needed sub h =
    let after = (drop_unneeded r cards m picked ignore).1 in
    (
      after,
      ground (arith, h),
      λ x i. ground (arith, h, sub x, drop_unneeded-contains r cards m picked ignore x i),
    )

pub contains-snoc :
    (x y : String) (ys : List String) → contains x (ys ++ y ∷ []) ≡ (contains x ys || str_eq y x)
unfolding contains
contains-snoc x y [] = ground arith
contains-snoc x y (z ∷ zs) = ground (arith, contains-snoc x y zs)

push_off-some :
    (r : Request) (cards : List Card) (m : Running) (pool : List Placed)
    (picked ignore needed : List String) {slots : List Slot}
    → ((x : String) → contains x ignore ≡ true → contains x picked ≡ true)
    → push_off r cards m pool picked ignore ≡ some (needed, slots)
    → (after : List String) × (fit r after cards m ≡ ok slots)
      × ((x : String) → contains x after ≡ true → contains x needed ≡ true)
unfolding push_off
push_off-some r cards m [] picked ignore needed sub h = absurd (cc)
push_off-some r cards m (p ∷ pool) picked ignore needed {slots} sub h =
    elim (Result-cases (fit r (p.req.id ∷ ignore) cards m)) [
      | inl (found, e) ↦
          settle-some r cards m (picked ++ p.req.id ∷ []) (p.req.id ∷ ignore) needed more
            (ground (arith, h, e))
      | inr (x, e) ↦
          push_off-some r cards m pool (picked ++ p.req.id ∷ []) (p.req.id ∷ ignore) needed more
            (ground (arith, h, e))
    ]
  where
    more :
        (x : String)
        → contains x (p.req.id ∷ ignore) ≡ true
        → contains x (picked ++ p.req.id ∷ []) ≡ true
    more x i = unfold contains in ground (arith, i, sub x, contains-snoc x p.req.id picked)

-- The slots that `victims` finds are those of a fit without the jobs of some set, all of which it
-- names as needed.
pub victims-some :
    (r : Request) (cards : List Card) (m : Running) (needed : List String) {slots : List Slot}
    → victims r cards m ≡ some (needed, slots)
    → (after : List String) × (fit r after cards m ≡ ok slots)
      × ((x : String) → contains x after ≡ true → contains x needed ≡ true)
unfolding victims
victims-some r cards m needed h = push_off-some r cards m _ [] [] needed (λ x i. i) h
