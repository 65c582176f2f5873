-- ===== src/Scheduler/Pushing.antt =====
-- scheduler.go: what `victims` finds, and when it finds nobody.
use gmux.Scheduler.Pool.{
  victim_pool-In, contains-ids_of, victim_pool-IsEligible, contains-victim, IsEligible, IsVictim,
  ids_of, victim_pool-Distinct,
}
use gmux.Prelude.{
  ◌≡◌, subst, ◌≢◌, ◌⊎◌, inl, inr, true, false, String, List, [], ◌∷◌, ◌++◌, Option, none, some,
  arith, contains, discard, Result-cases, Bool-cases, sort_stable, All, All-imp, All-append, All-In,
  In-All, Distinct, is_ok, All-sort_stable, Distinct-sort_stable, In-sort_stable,
}
use gmux.Scheduler.State.{Card, Request, Slot, Placed, Running}
use gmux.Scheduler.Fit.{
  fit, drop_unneeded, settle, push_off, victims, victim_pool, gives_way_before, may_push_off,
}
use gmux.Scheduler.Usage.{AreFair}
use gmux.Scheduler.Preemption.{contains-snoc}
use gmux.Scheduler.Victims.{Sub-discard, Sub, fits_mono, drop_unneeded-IsPruned}

All-dropped :
    (P : String → Type 0) (r : Request) (cards : List Card) (m : Running) (ids ignore : List String)
    → All P ids
    → All P (drop_unneeded r cards m ids ignore).0
unfolding drop_unneeded
All-dropped P r cards m [] ignore h = tt
All-dropped P r cards m (id ∷ ids) ignore h =
    elim (Result-cases (fit r (discard id ignore) cards m)) [
      | inl (slots, e) ↦ rw (e, drop_unneeded) (All-dropped P r cards m ids _ h.1)
      | inr (x, e) ↦ rw (e, drop_unneeded) (h.0, All-dropped P r cards m ids _ h.1)
    ]

-- Whom a request pushes off: without them it fits, without all but one of them it does not, and
-- each may be pushed off.
pub record IsPushOff (r : Request) (cards : List Card) (m : Running) (needed : List String)
    : Type 0 where
  pub fitting : is_ok (fit r needed cards m) ≡ true
  pub minimal : All (λ id. is_ok (fit r (discard id needed) cards m) ≡ false) needed
  pub eligible : All (IsVictim r m) needed

Distinct-snoc :
    (id : String) (ids : List String)
    → Distinct (λ x. x) ids
    → All (λ y. y ≢ id) ids
    → Distinct (λ x. x) (ids ++ id ∷ [])
Distinct-snoc id [] d a = (tt, tt)
Distinct-snoc id (x ∷ xs) d a =
    (All-append _ xs (id ∷ []) d.0 (a.0, tt), Distinct-snoc id xs d.1 a.1)

-- What `push_off` finds: somebody, whom it pushes off rightly, or else nobody would do.
Outcome :
    Request
    → List Card
    → Running
    → List Placed
    → List String
    → Option (List String × List Slot)
    → Type 0
Outcome r cards m pool ignore (some (needed, slots)) = IsPushOff r cards m needed
Outcome r cards m pool ignore none =
    (xs : List String)
    → ((x : String)
        → contains x xs ≡ true
        → (contains x ignore ≡ true) ⊎ (contains x (ids_of pool) ≡ true))
    → is_ok (fit r xs cards m) ≡ false

module _ (r : Request) (cards : List Card) (m : Running) (fair : AreFair m) where
  settle_lem :
      (picked ignore : List String)
      → Distinct (λ x. x) picked
      → Sub picked ignore
      → Sub ignore picked
      → All (IsVictim r m) picked
      → is_ok (fit r ignore cards m) ≡ true
      → (needed : List String) × (slots : List Slot) × (settle r cards m picked ignore
          ≡ some (needed, slots))
        × IsPushOff r cards m needed
  unfolding settle
  settle_lem picked ignore d sub bus vs e =
      let needed = (drop_unneeded r cards m picked ignore).0 in
      let after = (drop_unneeded r cards m picked ignore).1 in
      let pruned = drop_unneeded-IsPruned r cards m fair picked ignore d sub e in
      elim (Result-cases (fit r after cards m)) [
        | inr (x, bad) ↦ absurd (cc (pruned.fitting))
        | inl (slots, good) ↦ (
          needed,
          slots,
          rw good,
          record {
            fitting = fits_mono r cards m fair after needed there pruned.fitting;
            minimal = All-imp needed (λ id low. fails id low) pruned.minimal;
            eligible = All-dropped (IsVictim r m) r cards m picked ignore vs;
          },
        )
      ]
    where
      there :
          Sub (drop_unneeded r cards m picked ignore).1 (drop_unneeded r cards m picked ignore).0
      there x i =
          let p = drop_unneeded-IsPruned r cards m fair picked ignore d sub e in
          ground (arith, p.found x i, bus x (p.within x i))

      fails :
          (id : String)
          → is_ok (fit r (discard id (drop_unneeded r cards m picked ignore).1) cards m) ≡ false
          → is_ok (fit r (discard id (drop_unneeded r cards m picked ignore).0) cards m) ≡ false
      fails id low =
          let p = drop_unneeded-IsPruned r cards m fair picked ignore d sub e in
          elim (Bool-cases
            (is_ok (fit r (discard id (drop_unneeded r cards m picked ignore).0) cards m))) [
              | inr no' ↦ no'
              | inl high ↦
                  absurd (cc (fits_mono r cards m fair _ _ (Sub-discard id _ _ p.named) high))
            ]

  Outcome-cons :
      (p : Placed) (pool : List Placed) (ignore : List String)
      (o : Option (List String × List Slot))
      → Outcome r cards m pool (p.req.id ∷ ignore) o
      → Outcome r cards m (p ∷ pool) ignore o
  unfolding Outcome contains
  Outcome-cons p pool ignore (some (needed, slots)) h = h
  Outcome-cons p pool ignore none h = λ xs g. h xs (λ x i. ground (arith, g x i))

  push_off_lem :
      (pool : List Placed) (picked ignore : List String)
      → Distinct (λ x. x) picked
      → All (λ p. All (λ y. y ≢ p.req.id) picked) pool
      → Distinct (λ p. p.req.id) pool
      → All (IsEligible r m) pool
      → Sub picked ignore
      → Sub ignore picked
      → All (IsVictim r m) picked
      → is_ok (fit r ignore cards m) ≡ false
      → Outcome r cards m pool ignore (push_off r cards m pool picked ignore)
  unfolding push_off Outcome
  push_off_lem [] picked ignore d far apart el sub bus vs bad = λ xs h.
      elim (Bool-cases (is_ok (fit r xs cards m))) [
        | inr e ↦ e
        | inl e ↦
            let within : Sub xs ignore = λ x i. unfold contains in ground (arith, h x i) in
            absurd (cc (fits_mono r cards m fair xs ignore within e))
      ]
  push_off_lem (p ∷ pool) picked ignore d far apart el sub bus vs bad =
      elim (Result-cases (fit r (p.req.id ∷ ignore) cards m)) [
        | inl (found, e) ↦
            let (needed, slots, settled, right) =
              settle_lem (picked ++ p.req.id ∷ []) (p.req.id ∷ ignore)
                (Distinct-snoc p.req.id picked d far.0) sub' bus' vs' (rw e) in
            rw (e, push_off, settled) right
        | inr (x, e) ↦
            rw (e, push_off)
              (Outcome-cons p pool ignore _ (
                push_off_lem pool (picked ++ p.req.id ∷ []) (p.req.id ∷ ignore)
                  (Distinct-snoc p.req.id picked d far.0) far' apart.1 el.1 sub' bus' vs' (rw e)))
      ]
    where
      sub' : Sub (picked ++ p.req.id ∷ []) (p.req.id ∷ ignore)
      sub' x i = unfold contains in ground (arith, i, sub x, contains-snoc x p.req.id picked)

      bus' : Sub (p.req.id ∷ ignore) (picked ++ p.req.id ∷ [])
      bus' x i = unfold contains in ground (arith, i, bus x, contains-snoc x p.req.id picked)

      far' : All (λ q. All (λ y. y ≢ q.req.id) (picked ++ p.req.id ∷ [])) pool
      far' = In-All pool λ q i.
          All-append (λ y. y ≢ q.req.id) picked (p.req.id ∷ []) (All-In _ pool far.1 i)
            (All-In _ pool apart.0 i, tt)

      vs' : All (IsVictim r m) (picked ++ p.req.id ∷ [])
      vs' = All-append _ picked (p.req.id ∷ []) vs (el.0, tt)

module _ (r : Request) (cards : List Card) (m : Running) where
  victims-Outcome :
      AreFair m
      → Distinct (λ (k, p). p.req.id) m
      → is_ok (fit r [] cards m) ≡ false
      → Outcome r cards m (sort_stable gives_way_before (victim_pool r m)) [] (victims r cards m)
  unfolding victims
  victims-Outcome fair apart full =
      push_off_lem r cards m fair _ [] [] tt (In-All _ (λ p i. tt))
        (Distinct-sort_stable gives_way_before _ _ (victim_pool-Distinct r m apart))
        (All-sort_stable gives_way_before _ _ (victim_pool-IsEligible r m m (λ x i. i))) (λ x i. i)
        (λ x i. i) tt full

  -- For a request that does not fit beside the running jobs, which hold no negative amounts of
  -- memory and have different ids, the jobs that victims names, if it names any, are running,
  -- preemptible and of a lower priority; without all of them the request fits, and without all but
  -- any one of them it does not.
  pub victims_lem :
      (needed : List String) (slots : List Slot)
      → AreFair m
      → Distinct (λ (k, p). p.req.id) m
      → is_ok (fit r [] cards m) ≡ false
      → victims r cards m ≡ some (needed, slots)
      → IsPushOff r cards m needed
  unfolding Outcome
  victims_lem needed slots fair apart full e =
      subst (Outcome r cards m (sort_stable gives_way_before (victim_pool r m)) []) e
        (victims-Outcome fair apart full)

  -- For a request that does not fit beside the running jobs, which hold no negative amounts of
  -- memory and have different ids, if victims names nobody, there is no set of running
  -- jobs that are preemptible and of a lower priority without which the request fits.
  pub victims-none :
      (ids : List String)
      → AreFair m
      → Distinct (λ (k, p). p.req.id) m
      → is_ok (fit r [] cards m) ≡ false
      → victims r cards m ≡ none
      → All (IsVictim r m) ids
      → is_ok (fit r ids cards m) ≡ false
  unfolding Outcome may_push_off
  victims-none ids fair apart full e vs =
      subst (Outcome r cards m (sort_stable gives_way_before (victim_pool r m)) []) e
        (victims-Outcome fair apart full) ids
        λ x i.
          let v = contains-victim (IsVictim r m) x ids vs i in
          inr (
            subst (λ y. contains y (ids_of (sort_stable gives_way_before (victim_pool r m))) ≡ true)
              v.same
              (contains-ids_of v.job _ (
                In-sort_stable gives_way_before v.job _ (
                  victim_pool-In r m v.key v.job v.running
                    (ground (arith, v.preemptible, v.lower))))))
