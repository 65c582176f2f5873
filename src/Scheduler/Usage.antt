-- ===== src/Scheduler/Usage.antt =====
-- scheduler.go: how the seats and the memory in use on a card change with the running jobs.
use gmux.Prelude.{
  ℕ, ◌≤◌, ◌≡◌, refl, ◌∙◌, String, List, [], ◌∷◌, arith, contains, delete, str_eq-sym, All, true,
  Distinct,
}
use gmux.Prelude.Int.{pos, ◌≤ℤ◌, +ℤ_parts}
use gmux.Scheduler.State.{Card, Slot, Placed, Running, mem_on, seats_used, mem_used}
use gmux.Scheduler.Operations.{delete_each}

-- What every running job keeps: amounts of memory that are not negative, one slot to a card.
pub record IsFair (p : Placed) : Type 0 where
  pub asked : pos 0 ≤ℤ p.req.mem_mib
  pub taken : All (λ sl. pos 0 ≤ℤ sl.mem_mib) p.slots
  pub apart : Distinct (λ sl. sl.card) p.slots

abbrev pub AreFair : Running → Type 0
AreFair = All (λ (id, p). IsFair p)

pub seats_used-delete :
    (k : ℕ) (ig : List String) (id : String) (m : Running)
    → seats_used k ig (delete id m) ≡ seats_used k (id ∷ ig) m
unfolding seats_used delete contains
seats_used-delete k ig id [] = refl
seats_used-delete k ig id ((j, p) ∷ m) =
    ground (arith, str_eq-sym id j, seats_used-delete k ig id m)

pub mem_used-delete :
    (k : ℕ) (ig : List String) (id : String) (m : Running)
    → mem_used k ig (delete id m) ≡ mem_used k (id ∷ ig) m
unfolding mem_used delete contains
mem_used-delete k ig id [] = refl
mem_used-delete k ig id ((j, p) ∷ m) = ground (arith, str_eq-sym id j, mem_used-delete k ig id m)

pub mem_on_nonneg :
    (k : ℕ) (sls : List Slot) → All (λ sl. pos 0 ≤ℤ sl.mem_mib) sls → pos 0 ≤ℤ mem_on k sls
unfolding mem_on
mem_on_nonneg k [] h = omega arith
mem_on_nonneg k (sl ∷ sls) h =
    ground (arith, mem_on_nonneg k sls h.1, +ℤ_parts sl.mem_mib (mem_on k sls))

-- Ignoring more jobs leaves less in use.
pub seats_used_mono :
    (k : ℕ) (ig more : List String) (m : Running)
    → ((x : String) → contains x ig ≡ true → contains x more ≡ true)
    → seats_used k more m ≤ seats_used k ig m
unfolding seats_used
seats_used_mono k ig more [] h = omega arith
seats_used_mono k ig more ((j, p) ∷ m) h = ground (arith, h j, seats_used_mono k ig more m h)

pub mem_used_mono :
    (k : ℕ) (ig more : List String) (m : Running)
    → AreFair m
    → ((x : String) → contains x ig ≡ true → contains x more ≡ true)
    → mem_used k more m ≤ℤ mem_used k ig m
unfolding mem_used
mem_used_mono k ig more [] f h = omega arith
mem_used_mono k ig more ((j, p) ∷ m) f h = ground (
  arith,
  h j,
  mem_used_mono k ig more m f.1 h,
  mem_on_nonneg k p.slots f.0.taken,
  +ℤ_parts (mem_on k p.slots) (mem_used k ig m),
  +ℤ_parts (mem_on k p.slots) (mem_used k more m),
)

pub contains-nil : (more : List String) (x : String) → contains x [] ≡ true → contains x more ≡ true
unfolding contains
contains-nil more x h = cc

-- Deleting jobs leaves what is in use without them.
pub seats_used-delete_each :
    (k : ℕ) (ids : List String) (m : Running)
    → seats_used k [] (delete_each ids m) ≡ seats_used k ids m
unfolding delete_each
seats_used-delete_each k [] m = refl
seats_used-delete_each k (id ∷ ids) m =
    seats_used-delete_each k ids (delete id m) ∙ seats_used-delete k ids id m

pub mem_used-delete_each :
    (k : ℕ) (ids : List String) (m : Running) → mem_used k [] (delete_each ids m) ≡ mem_used k ids m
unfolding delete_each
mem_used-delete_each k [] m = refl
mem_used-delete_each k (id ∷ ids) m =
    mem_used-delete_each k ids (delete id m) ∙ mem_used-delete k ids id m

pub AreFair-delete : (id : String) (m : Running) → AreFair m → AreFair (delete id m)
unfolding delete
AreFair-delete id [] h = tt
AreFair-delete id ((j, p) ∷ m) h = ground (arith, AreFair-delete id m h.1)

pub AreFair-delete_each :
    (ids : List String) (m : Running) → AreFair m → AreFair (delete_each ids m)
unfolding delete_each
AreFair-delete_each [] m h = h
AreFair-delete_each (id ∷ ids) m h = AreFair-delete_each ids _ (AreFair-delete id m h)

-- The whole use of a card stays within it.
pub record Within (m : Running) (c : Card) : Type 0 where
  pub seats : seats_used c.index [] m ≤ c.seats
  pub mem : mem_used c.index [] m ≤ℤ pos c.mem_mib

pub Within-delete :
    {m : Running} {c : Card} (id : String) → AreFair m → Within m c → Within (delete id m) c
Within-delete {m} {c} id f w = record {
  seats = omega (
    arith,
    w.seats,
    seats_used-delete c.index [] id m,
    seats_used_mono c.index [] (id ∷ []) m (contains-nil _),
  );
  mem =
      rw (mem_used-delete c.index [] id m)
        (omega (arith, w.mem, mem_used_mono c.index [] (id ∷ []) m f (contains-nil _)));
}
