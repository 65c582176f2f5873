-- ===== src/Gpu/Tenants.antt =====
-- internal/gpu/amd.go and internal/scheduler/scheduler.go: what the masks of running jobs share.
use gmux.Prelude.{
  ℕ, ◌+◌, ◌≤◌, ◌<◌, ◌≡◌, ◌≢◌, inl, inr, String, List, [], ◌∷◌, some, arith, length, In, All-In, ltb,
  ◌*◌, ◌&&◌, if◌then◌else◌, contains, Option, none,
}
use gmux.Share.{ceil_div}
use gmux.Scheduler.State.{Card, Slot, Placed, Running, Scheduler}
use gmux.Scheduler.Marks.{count, held_on, held}
use gmux.Scheduler.Ownership.{IsSingle}
use gmux.Scheduler.Exclusive.{IsExclusive}
use gmux.Gpu.Masks.{Device, seat_cu_mask}
use gmux.Gpu.Apart.{seat_cu_mask-Apart}

-- The mask of `JobEnv`, set when the units are known and the job has less than the whole card.
unfoldable pub cu_mask : Device → ℕ → Slot → Option (List ℕ)
cu_mask dev per_card sl =
    if ltb 0 dev.units && ltb sl.compute_percent 100
    then seat_cu_mask sl.seat_ids per_card dev (ceil_div (dev.units * sl.compute_percent) 100)
    else none

cu_mask-some :
    (dev : Device) (per_card : ℕ) (sl : Slot) (m : List ℕ)
    → cu_mask dev per_card sl ≡ some m
    → seat_cu_mask sl.seat_ids per_card dev (ceil_div (dev.units * sl.compute_percent) 100) ≡ some m
unfolding cu_mask
cu_mask-some dev per_card sl m e = ground (arith, e)

count-held_on :
    (k i : ℕ) (sls : List Slot) (sl : Slot)
    → In sl sls
    → sl.card ≡ k
    → count i sl.seat_ids ≤ held_on k i sls
unfolding held_on
count-held_on k i [] sl m e = absurd m
count-held_on k i (t ∷ sls) sl (inl same) e =
    let on : t.card ≡ k = rw (← same) e in rw same (ground (arith, on))
count-held_on k i (t ∷ sls) sl (inr m) e = omega (arith, count-held_on k i sls sl m e)

abbrev JobEntry : Type 0
JobEntry = String × Placed

held_on-held :
    (k i : ℕ) (m : Running) (x : JobEntry) → In x m → held_on k i x.1.slots ≤ held k i [] m
unfolding held contains
held_on-held k i [] x at = absurd at
held_on-held k i (y ∷ m) x (inl same) = rw same (omega arith)
held_on-held k i (y ∷ m) x (inr at) = omega (arith, held_on-held k i m x at)

held_two :
    (k i : ℕ) (m : Running) (x y : JobEntry)
    → In x m
    → In y m
    → x.0 ≢ y.0
    → held_on k i x.1.slots + held_on k i y.1.slots ≤ held k i [] m
unfolding held contains
held_two k i [] x y at at' apart = absurd at
held_two k i (z ∷ m) x y (inl e) (inl f) apart = absurd (apart (rw (e, f)))
held_two k i (z ∷ m) x y (inl e) (inr at) apart = rw e (omega (arith, held_on-held k i m y at))
held_two k i (z ∷ m) x y (inr at) (inl f) apart = rw f (omega (arith, held_on-held k i m x at))
held_two k i (z ∷ m) x y (inr at) (inr at') apart = omega (arith, held_two k i m x y at at' apart)

-- A slot of a running job, on card c.
pub record Tenant (s : Scheduler) (c : Card) (id : String) (sl : Slot) : Type 0 where
  pub placed : Placed
  pub running : In (id, placed) s.running
  pub slot_of : In sl placed.slots
  pub on : sl.card ≡ c.index
  pub some_seat : 0 < length sl.seat_ids

-- While the scheduler is exclusive, two different jobs that hold seats of one card and both have a
-- mask for that card have no compute unit in common in their masks.
pub cu_mask-Apart :
    (s : Scheduler) (c : Card) (dev : Device) (id j : String) (sl sm : Slot) (u : ℕ) (a b : List ℕ)
    → IsExclusive s
    → In c s.cards
    → Tenant s c id sl
    → Tenant s c j sm
    → id ≢ j
    → cu_mask dev c.seats sl ≡ some a
    → cu_mask dev c.seats sm ≡ some b
    → In u a
    → ¬ (In u b)
cu_mask-Apart s c dev id j sl sm u a b h here x y apart e f =
    seat_cu_mask-Apart dev c.seats _ _ u sl.seat_ids sm.seat_ids a b
      (λ i. omega (
        arith,
        All-In (IsSingle s.running) s.cards h.single here i,
        held_two c.index i s.running (id, x.placed) (j, y.placed) x.running y.running apart,
        count-held_on c.index i x.placed.slots sl x.slot_of x.on,
        count-held_on c.index i y.placed.slots sm y.slot_of y.on,
      ))
      x.some_seat y.some_seat (cu_mask-some dev c.seats sl a e) (cu_mask-some dev c.seats sm b f)
