-- ===== src/Daemon/Changes.antt =====
-- daemon.go: each change of a job keeps the ledger and the jobs in agreement.
use gmux.Prelude.{
  ◌≡◌, refl, sym, ap, subst, inl, inr, true, false, String, List, [], ◌∷◌, map, Option, none, some,
  if◌then◌else◌, insert, lookup, lookup-delete, delete, str_eq, str_eq-cases, str_eq_refl, arith,
  Bool-cases, Option-cases,
}
use gmux.Scheduler.State.{Placement, Decision, Scheduler}
use gmux.Scheduler.Operations.{release}
use gmux.Accounting.{Interval, begin, end_job}
use gmux.Daemon.Jobs.{
  Job, JobState, unset, queued, running, paused, exited, Daemon, System, intervals, start_locked,
  pause_locked, started_job,
}
use gmux.Daemon.Calls.{
  push_out, settle_job, start_waiting, waits, is_queued, is_running, started_or_dropped,
}
use gmux.Daemon.Ledgers.{
  open_of, open_of-end_job, open_of-begin, IsBill, IsBilled, map-intervals, insert-IsBilled, billed,
  slot_held, held_slots,
}

-- The daemon's jobs and its ledger agree.
abbrev pub IsFair : Daemon → Type 0
IsFair d = IsBilled d.jobs d.ledger

pub nothing_billed : (ivs : List Interval) → map billed ivs ≡ [] → ivs ≡ []
nothing_billed [] e = refl
nothing_billed (iv ∷ ivs) e = absurd (cc (e))

pub idle_when : (q : JobState) (pl : Option Placement) → is_running q ≡ false → held_slots q pl ≡ []
idle_when running pl e = absurd (cc (e))
idle_when unset pl e = refl
idle_when queued pl e = refl
idle_when paused pl e = refl
idle_when exited pl e = refl

pub waits-idle : (q : JobState) → waits q ≡ true → is_running q ≡ false
waits-idle unset e = refl
waits-idle queued e = refl
waits-idle running e = absurd (cc (e))
waits-idle paused e = refl
waits-idle exited e = refl

pub queued-idle : (q : JobState) → is_queued q ≡ true → is_running q ≡ false
queued-idle unset e = refl
queued-idle queued e = refl
queued-idle running e = absurd (cc (e))
queued-idle paused e = refl
queued-idle exited e = refl

module _ (sys : System) (d : Daemon) (good : IsFair d) where
  pub start_locked-IsFair :
      (job : Job) (pl : Placement)
      → open_of job.id d.ledger ≡ []
      → IsFair (start_locked sys job pl d).1
  unfolding start_locked IsBill
  start_locked-IsFair job pl idle = elim (Option-cases (sys.launch job.id)) [
    | inl x ↦ rw (x, start_locked) good
    | inr (proc, x) ↦
        rw (x, start_locked)
          (insert-IsBilled d.jobs d.ledger (begin (intervals sys job pl.slots) d.ledger) job.id
            (started_job sys job pl proc) (intervals sys job pl.slots) good opened
            (refl, map-intervals sys job pl.slots))
  ]
    where
      opened :
          (i : String)
          → open_of i (begin (intervals sys job pl.slots) d.ledger)
            ≡ (if str_eq job.id i then intervals sys job pl.slots else open_of i d.ledger)
      opened i = elim (str_eq-cases job.id i) [
        | inl same ↦
            let none_open : open_of i d.ledger ≡ [] =
              subst (λ x. open_of x d.ledger ≡ []) same idle in
            rw (open_of-begin sys job pl.slots i d.ledger, none_open) (ground (arith))
        | inr apart ↦ rw (open_of-begin sys job pl.slots i d.ledger, apart) refl
      ]

  -- A job that holds nothing has no open interval.
  pub idle-open :
      (id : String) (job : Job)
      → lookup id d.jobs ≡ some job
      → is_running job.state ≡ false
      → (job.id ≡ id) × (open_of id d.ledger ≡ [])
  unfolding IsBilled IsBill
  idle-open id job there idle =
      let bill = subst (λ o. IsBill id o (open_of id d.ledger)) there (good id) in
      let held = idle_when job.state job.placement idle in
      (bill.0, nothing_billed (open_of id d.ledger) (rw held at bill.1))

  pub absent-open : (id : String) → lookup id d.jobs ≡ none → open_of id d.ledger ≡ []
  unfolding IsBilled IsBill
  absent-open id gone = subst (λ o. IsBill id o (open_of id d.ledger)) gone (good id)

  pub start_waiting-IsFair :
      (pl : Placement) → IsFair (start_waiting sys (lookup pl.job_id d.jobs) pl d)
  start_waiting-IsFair pl = elim (Option-cases (lookup pl.job_id d.jobs)) [
    | inl x ↦ rw x good
    | inr (q, x) ↦ elim (Bool-cases (waits q.state)) [
      | inr w ↦ rw (x, w) good
      | inl w ↦
          let (named, idle) = idle-open pl.job_id q x (waits-idle q.state w) in
          rw (x, w)
            (start_locked-IsFair q pl (subst (λ i. open_of i d.ledger ≡ []) (sym named) idle))
    ]
  ]

  -- A job that ends its intervals and goes on to hold nothing.
  pub ended-IsFair :
      (k : String) (v : Job)
      → v.id ≡ k
      → is_running v.state ≡ false
      → IsBilled (insert k v d.jobs) (end_job k sys.now sys.writable d.ledger).1
  unfolding IsBill
  ended-IsFair k v named idle =
      insert-IsBilled d.jobs d.ledger (end_job k sys.now sys.writable d.ledger).1 k v [] good
        (λ i. open_of-end_job i k sys.now sys.writable d.ledger)
        (named, ap (map slot_held) (sym (idle_when v.state v.placement idle)))

  pub push_out-IsFair : (v : Job) → IsFair (push_out sys v d)
  unfolding push_out pause_locked
  push_out-IsFair v = elim (Option-cases v.proc) [
    | inl x ↦ rw (x, push_out) good
    | inr (p, x) ↦
        rw (x, push_out, x, pause_locked)
          (ended-IsFair v.id (record v { state = paused; proc = some p }) refl refl)
  ]

  -- A job that is forgotten when it has no open interval.
  pub delete-IsFair :
      (id : String) (sched : Scheduler)
      → open_of id d.ledger ≡ []
      → IsFair (record d { sched = sched; jobs = delete id d.jobs })
  unfolding IsBilled IsBill
  delete-IsFair id sched idle i = elim (str_eq-cases id i) [
    | inl same ↦
        let gone : lookup i (delete id d.jobs) ≡ none =
          rw (lookup-delete i id d.jobs, same, str_eq_refl i) refl in
        rw gone (subst (λ x. open_of x d.ledger ≡ []) same idle)
    | inr apart ↦ rw (lookup-delete i id d.jobs, apart) (good i)
  ]

  -- A job that is entered or changed while it has no open interval.
  pub enter-IsFair :
      (id : String) (v : Job)
      → open_of id d.ledger ≡ []
      → v.id ≡ id
      → is_running v.state ≡ false
      → IsBilled (insert id v d.jobs) d.ledger
  unfolding IsBill
  enter-IsFair id v idle named still =
      insert-IsBilled d.jobs d.ledger d.ledger id v [] good
        (λ i. elim (str_eq-cases id i) [
          | inl same ↦ rw (same, str_eq_refl i) (subst (λ x. open_of x d.ledger ≡ []) same idle)
          | inr apart ↦ rw apart refl
        ])
        (named, ap (map slot_held) (sym (idle_when v.state v.placement still)))

  pub started_or_dropped-IsFair :
      (job : Job) (pl : Placement)
      → open_of job.id d.ledger ≡ []
      → IsFair (started_or_dropped job.id (start_locked sys job pl d)).1
  unfolding start_locked
  started_or_dropped-IsFair job pl idle = elim (Option-cases (sys.launch job.id)) [
    | inl x ↦ rw (x, start_locked) (delete-IsFair job.id (release job.id d.sched).1 idle)
    | inr (proc, x) ↦
        let started = start_locked-IsFair job pl idle in
        rw (x, start_locked) (rw (x, start_locked) at started)
  ]

  pub settle_job-IsFair :
      (job : Job) (dec : Decision)
      → open_of job.id d.ledger ≡ []
      → IsFair (settle_job sys job dec d).1
  unfolding settle_job
  settle_job-IsFair job dec idle = elim (Bool-cases dec.queued) [
    | inl q ↦
        rw (q, settle_job) (enter-IsFair job.id (record job { state = queued }) idle refl refl)
    | inr n ↦ elim (Option-cases dec.placement) [
      | inl x ↦ rw (n, x, settle_job) good
      | inr (pl, x) ↦ rw (n, x, settle_job) (started_or_dropped-IsFair job pl idle)
    ]
  ]
