-- ===== src/Scheduler/Victims.antt =====
-- scheduler.go: `victims` pushes off jobs of a lower priority that may be pushed off, none in vain.
use gmux.Prelude.{
  ◌≡◌, refl, ◌≢◌, ◌⊎◌, inl, inr, Bool, true, false, String, List, [], ◌∷◌, arith, contains, discard,
  Result-cases, Bool-cases, str_eq, str_eq_refl, str_eq-sym, eq_iff, All, Distinct, is_ok,
}
use gmux.Scheduler.State.{Card, Request, Running}
use gmux.Scheduler.Fit.{fit, drop_unneeded}
use gmux.Scheduler.Usage.{AreFair, seats_used_mono, mem_used_mono}
use gmux.Scheduler.Candidates.{fit_mono}
use gmux.Scheduler.Preemption.{contains-discard}

-- Every job of the one set is in the other.
abbrev pub Sub : List String → List String → Type 0
Sub xs ys = (x : String) → contains x xs ≡ true → contains x ys ≡ true

discard-contains :
    (x id : String) (ids : List String)
    → contains x ids ≡ true
    → str_eq x id ≡ false
    → contains x (discard id ids) ≡ true
unfolding contains discard
discard-contains x id [] h ne = h
discard-contains x id (y ∷ ys) h ne =
    ground (arith, eq_iff y id, eq_iff y x, eq_iff x id, discard-contains x id ys)

pub Sub-discard :
    (id : String) (xs ys : List String) → Sub xs ys → Sub (discard id xs) (discard id ys)
Sub-discard id xs ys h x i =
    let (there, ne) = contains-discard x id xs i in discard-contains x id ys (h x there) ne

pub absent-ne :
    (x id : String) (ids : List String)
    → All (λ y. id ≢ y) ids
    → contains x ids ≡ true
    → str_eq x id ≡ false
unfolding contains
absent-ne x id [] a h = absurd (cc)
absent-ne x id (y ∷ ys) a h = ground (arith, a.0, eq_iff y x, eq_iff x id, absent-ne x id ys a.1)

absent-contains :
    (id : String) (ids : List String) → All (λ y. id ≢ y) ids → contains id ids ≡ false
unfolding contains
absent-contains id [] a = refl
absent-contains id (y ∷ ys) a = ground (arith, a.0, eq_iff y id, absent-contains id ys a.1)

module _ (r : Request) (cards : List Card) (m : Running) (fair : AreFair m) where
  abbrev pub fits : List String → Bool
  fits ignore = is_ok (fit r ignore cards m)

  -- A request that fits without some jobs fits without more.
  pub fits_mono : (xs ys : List String) → Sub xs ys → fits xs ≡ true → fits ys ≡ true
  fits_mono xs ys h e = elim (Result-cases (fit r xs cards m)) [
    | inr (x, bad) ↦ absurd (cc)
    | inl (slots, good) ↦
        let (slots', again) =
          fit_mono r xs ys cards m m
            (record {
              seats = λ k. seats_used_mono k xs ys m h;
              mem = λ k. mem_used_mono k xs ys m fair h;
            })
            good in
        rw again
  ]

  -- What the loop of `victims` that drops the ones not needed gives: whom it needs and whom it
  -- still ignores.
  pub record IsPruned (ids ignore needed after : List String) : Type 0 where
    pub fitting : fits after ≡ true
    pub within : Sub after ignore
    pub kept :
        (x : String) → contains x ignore ≡ true → contains x ids ≡ false → contains x after ≡ true
    pub found :
        (x : String)
        → contains x after ≡ true
        → (contains x needed ≡ true) ⊎ (contains x ids ≡ false)
    pub named : Sub needed after
    pub minimal : All (λ id. fits (discard id after) ≡ false) needed

  spared-IsPruned :
      (id : String) (ids ignore needed after : List String)
      → IsPruned ids (discard id ignore) needed after
      → IsPruned (id ∷ ids) ignore needed after
  unfolding contains
  spared-IsPruned id ids ignore needed after rest = record {
    fitting = rest.fitting;
    within = λ x i. (contains-discard x id ignore (rest.within x i)).0;
    kept = λ x i ne.
        rest.kept x (discard-contains x id ignore i (ground (arith, ne, str_eq-sym x id)))
          (ground (arith, ne));
    found = λ x i.
        ground
          (arith, rest.found x i, str_eq-sym x id, contains-discard x id ignore (rest.within x i));
    named = rest.named;
    minimal = rest.minimal;
  }

  needed-IsPruned :
      (id : String) (ids ignore needed after : List String)
      → contains id ids ≡ false
      → contains id ignore ≡ true
      → fits (discard id ignore) ≡ false
      → IsPruned ids (id ∷ discard id ignore) needed after
      → IsPruned (id ∷ ids) ignore (id ∷ needed) after
  unfolding contains
  needed-IsPruned id ids ignore needed after once listed bad rest = record {
    fitting = rest.fitting;
    within =
        λ x i. ground (arith, rest.within x i, listed, eq_iff id x, contains-discard x id ignore);
    kept = λ x i ne.
        rest.kept x (ground (arith, ne, discard-contains x id ignore i, str_eq-sym x id))
          (ground (arith, ne));
    found = λ x i. ground (arith, rest.found x i);
    named = λ x i. ground (arith, i, eq_iff id x, once, str_eq_refl id, rest.named x, rest.kept id);
    minimal = (
      elim (Bool-cases (fits (discard id after))) [
        | inr e ↦ e
        | inl good ↦ absurd (cc (fits_mono (discard id after) (discard id ignore) smaller good))
      ],
      rest.minimal,
    );
  }
    where
      smaller : Sub (discard id after) (discard id ignore)
      smaller x i =
          let (there, ne) = contains-discard x id after i in
          ground (arith, ne, rest.within x there, str_eq-sym x id)

  pub drop_unneeded-IsPruned :
      (ids ignore : List String)
      → Distinct (λ x. x) ids
      → Sub ids ignore
      → fits ignore ≡ true
      → IsPruned ids ignore
          (drop_unneeded r cards m ids ignore).0
          (drop_unneeded r cards m ids ignore).1
  unfolding drop_unneeded contains
  drop_unneeded-IsPruned [] ignore d sub e = record {
    fitting = e;
    within = λ x i. i;
    kept = λ x i ne. i;
    found = λ x i. inr refl;
    named = λ x i. absurd (cc);
    minimal = tt;
  }
  drop_unneeded-IsPruned (id ∷ ids) ignore d sub e =
      elim (Result-cases (fit r (discard id ignore) cards m)) [
        | inl (slots, good) ↦
            rw (good, drop_unneeded)
              (spared-IsPruned id ids ignore _ _
                (drop_unneeded-IsPruned ids (discard id ignore) d.1 inside (rw good)))
        | inr (x, bad) ↦
            rw (bad, drop_unneeded)
              (needed-IsPruned id ids ignore _ _ (absent-contains id ids d.0)
                (sub id (ground (arith, str_eq_refl id))) (rw bad)
                (drop_unneeded-IsPruned ids (id ∷ discard id ignore) d.1 inside2
                  (fits_mono ignore _ grows e)))
      ]
    where
      inside : Sub ids (discard id ignore)
      inside x i =
          discard-contains x id ignore (sub x (ground (arith, i))) (absent-ne x id ids d.0 i)

      inside2 : Sub ids (id ∷ discard id ignore)
      inside2 x i = ground (arith, inside x i)

      grows : Sub ignore (id ∷ discard id ignore)
      grows x i = ground (arith, eq_iff id x, str_eq-sym x id, discard-contains x id ignore i)
