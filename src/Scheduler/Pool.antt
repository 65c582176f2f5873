-- ===== src/Scheduler/Pool.antt =====
-- scheduler.go: the jobs that `victims` chooses from.
use gmux.Prelude.{
  ◌≡◌, refl, ap, subst, ◌≢◌, inl, inr, true, String, List, [], ◌∷◌, map, arith, contains,
  Bool-cases, str_eq_refl, str_eq-cases, All, In, Distinct,
}
use gmux.Prelude.Int.{ltb_ℤ}
use gmux.Scheduler.State.{Request, Placed, Running}
use gmux.Scheduler.Fit.{victim_pool, may_push_off}

-- The id of a running job that may be pushed off for a request: preemptible, of a lower priority.
pub record IsVictim (r : Request) (m : Running) (id : String) : Type 0 where
  pub job : Placed
  pub key : String
  pub running : In (key, job) m
  pub same : job.req.id ≡ id
  pub preemptible : job.req.preemptible ≡ true
  pub lower : ltb_ℤ job.req.priority r.priority ≡ true

abbrev pub ids_of : List Placed → List String
ids_of = map (λ (p : Placed). p.req.id)

abbrev pub IsEligible : Request → Running → Placed → Type 0
IsEligible r m p = IsVictim r m p.req.id

pub victim_pool-IsEligible :
    (r : Request) (m all : Running)
    → ((x : String × Placed) → In x m → In x all)
    → All (IsEligible r all) (victim_pool r m)
unfolding victim_pool may_push_off
victim_pool-IsEligible r [] all sub = tt
victim_pool-IsEligible r ((k, p) ∷ m) all sub =
    let rest = victim_pool-IsEligible r m all (λ x i. sub x (inr i)) in
    elim (Bool-cases (may_push_off r p)) [
      | inr e ↦ rw e rest
      | inl e ↦ rw e (
        record {
          job = p;
          key = k;
          running = sub (k, p) (inl refl);
          same = refl;
          preemptible = ground (arith, e);
          lower = ground (arith, e);
        },
        rest,
      )
    ]

pub victim_pool-In :
    (r : Request) (m : Running) (k : String) (p : Placed)
    → In (k, p) m
    → may_push_off r p ≡ true
    → In p (victim_pool r m)
unfolding victim_pool
victim_pool-In r [] k p i e = i
victim_pool-In r ((j, q) ∷ m) k p (inl same) e =
    let eq : p ≡ q = ap (λ (x : String × Placed). x.1) same in rw (← eq, e) (inl refl)
victim_pool-In r ((j, q) ∷ m) k p (inr i) e =
    let rest = victim_pool-In r m k p i e in
    elim (Bool-cases (may_push_off r q)) [ inl yes' ↦ rw yes' (inr rest) | inr no' ↦ rw no' rest ]

victim_pool-apart :
    (r : Request) (m : Running) (id : String)
    → All (λ (k, p). id ≢ p.req.id) m
    → All (λ p. id ≢ p.req.id) (victim_pool r m)
unfolding victim_pool
victim_pool-apart r [] id h = tt
victim_pool-apart r ((k, p) ∷ m) id h = elim (Bool-cases (may_push_off r p)) [
  | inl e ↦ rw e (h.0, victim_pool-apart r m id h.1)
  | inr e ↦ rw e (victim_pool-apart r m id h.1)
]

pub victim_pool-Distinct :
    (r : Request) (m : Running)
    → Distinct (λ (k, p). p.req.id) m
    → Distinct (λ p. p.req.id) (victim_pool r m)
unfolding victim_pool
victim_pool-Distinct r [] h = tt
victim_pool-Distinct r ((k, p) ∷ m) h = elim (Bool-cases (may_push_off r p)) [
  | inl e ↦ rw e (victim_pool-apart r m p.req.id h.0, victim_pool-Distinct r m h.1)
  | inr e ↦ rw e (victim_pool-Distinct r m h.1)
]

pub contains-ids_of :
    (p : Placed) (ps : List Placed) → In p ps → contains p.req.id (ids_of ps) ≡ true
unfolding contains
contains-ids_of p [] i = absurd i
contains-ids_of p (q ∷ qs) (inl e) = rw e (ground (arith, str_eq_refl q.req.id))
contains-ids_of p (q ∷ qs) (inr i) = ground (arith, contains-ids_of p qs i)

pub contains-victim :
    (P : String → Type 0) (x : String) (xs : List String) → All P xs → contains x xs ≡ true → P x
unfolding contains
contains-victim P x [] h i = absurd (cc)
contains-victim P x (y ∷ ys) h i = elim (str_eq-cases y x) [
  | inl e ↦ subst P e h.0
  | inr ne ↦ contains-victim P x ys h.1 (ground (arith, i, ne))
]
