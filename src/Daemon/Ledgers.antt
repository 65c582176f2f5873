-- ===== src/Daemon/Ledgers.antt =====
-- daemon.go: the open intervals of a job, and the invariant that they are what it holds.
use gmux.Prelude.{
  snoc_append, append-nil, lookup-insert, lookup-delete, ℕ, ◌≡◌, refl, ap, subst, ◌∙◌, inl, inr,
  Bool, true, false, String, List, [], ◌∷◌, ◌++◌, map, Option, none, some, if◌then◌else◌, insert,
  lookup, delete, str_eq, str_eq-cases, str_eq_refl, str_eq→eq, arith, Bool-cases,
}
use gmux.Share.{Ratio}
use gmux.Prelude.Int.{ℤ}
use gmux.Scheduler.State.{Slot, Placement}
use gmux.Accounting.{Interval, Ledger, begin, end_job, or_empty}
use gmux.Daemon.Jobs.{interval, Job, JobState, running, System, intervals}

-- The open intervals of a job.
abbrev pub open_of : String → Ledger → List Interval
open_of i l = or_empty (lookup i l.open_intervals)

end_job-delete :
    (k : String) (t : ℕ) (w : Bool) (l : Ledger)
    → (end_job k t w l).1.open_intervals ≡ delete k l.open_intervals
unfolding end_job
end_job-delete k t true l = ground (arith)
end_job-delete k t false l = ground (arith)

pub open_of-end_job :
    (i k : String) (t : ℕ) (w : Bool) (l : Ledger)
    → open_of i (end_job k t w l).1 ≡ (if str_eq k i then [] else open_of i l)
open_of-end_job i k t w l =
    rw (end_job-delete k t w l, lookup-delete i k l.open_intervals) (ground (arith))

pub open_of-begin :
    (sys : System) (job : Job) (sls : List Slot) (i : String) (l : Ledger)
    → open_of i (begin (intervals sys job sls) l)
      ≡ (if str_eq job.id i then open_of i l ++ intervals sys job sls else open_of i l)
unfolding begin intervals
open_of-begin sys job [] i l = rw (append-nil (open_of i l)) (ground (arith))
open_of-begin sys job (sl ∷ sls) i l =
    let after : Ledger = record l {
      open_intervals =
          insert job.id (open_of job.id l ++ interval sys job sl ∷ []) l.open_intervals;
    } in
    let rest = open_of-begin sys job sls i after in
    let found =
      lookup-insert i job.id (open_of job.id l ++ interval sys job sl ∷ []) l.open_intervals in
    elim (Bool-cases (str_eq job.id i)) [
      | inl same ↦
          let moved =
            ap (λ x. open_of x l ++ interval sys job sl ∷ intervals sys job sls)
              (str_eq→eq job.id i same) in
          rw (rest, found, same)
            (snoc_append (open_of job.id l) (interval sys job sl) (intervals sys job sls) ∙ moved)
      | inr apart ↦ rw (rest, found, apart) refl
    ]

-- What an interval bills, and what a slot holds: a card, its share and its memory.
abbrev pub billed : Interval → ℕ × Ratio × ℤ
billed iv = (iv.card, iv.share, iv.mem_mib)

abbrev pub slot_held : Slot → ℕ × Ratio × ℤ
slot_held sl = (sl.card, sl.granted_share, sl.mem_mib)

abbrev pub placed_slots : Option Placement → List Slot
placed_slots none = []
placed_slots (some pl) = pl.slots

abbrev pub held_slots : JobState → Option Placement → List Slot
held_slots running pl = placed_slots pl
held_slots _ pl = []

-- The open intervals of an id are what its job holds now: the slots of its placement while it
-- runs, and nothing else.
unfoldable pub IsBill : String → Option Job → List Interval → Type 0
IsBill id none ivs = ivs ≡ []
IsBill id (some job) ivs =
    (job.id ≡ id) × (map billed ivs ≡ map slot_held (held_slots job.state job.placement))

unfoldable pub IsBilled : List (String × Job) → Ledger → Type 0
IsBilled jobs l = (id : String) → IsBill id (lookup id jobs) (open_of id l)

pub map-intervals :
    (sys : System) (job : Job) (sls : List Slot)
    → map billed (intervals sys job sls) ≡ map slot_held sls
unfolding intervals
map-intervals sys job [] = refl
map-intervals sys job (sl ∷ sls) = ap (λ t. slot_held sl ∷ t) (map-intervals sys job sls)

-- A job that changes, and its intervals with it.
pub insert-IsBilled :
    (jobs : List (String × Job)) (l after : Ledger) (k : String) (v : Job) (ivs : List Interval)
    → IsBilled jobs l
    → ((i : String) → open_of i after ≡ (if str_eq k i then ivs else open_of i l))
    → IsBill k (some v) ivs
    → IsBilled (insert k v jobs) after
unfolding IsBilled
insert-IsBilled jobs l after k v ivs good open_after own i = elim (str_eq-cases k i) [
  | inl same ↦
      subst (λ x. IsBill x (lookup x (insert k v jobs)) (open_of x after)) same
        (rw (lookup-insert k k v jobs, open_after k, str_eq_refl k) own)
  | inr apart ↦ rw (lookup-insert i k v jobs, open_after i, apart) (good i)
]
