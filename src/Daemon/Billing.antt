-- ===== src/Daemon/Billing.antt =====
-- daemon.go: the ledger bills each job for what it holds.
use gmux.Prelude.{
  ℕ, ◌≡◌, refl, subst, inl, inr, true, false, String, List, [], ◌∷◌, Option, none, some,
  if◌then◌else◌, insert, lookup, str_eq, arith, Bool-cases, Option-cases, Result, ok, err,
}
use gmux.Share.{Ratio}
use gmux.Prelude.Int.{ℤ}
use gmux.Scheduler.State.{Placement, Decision, Scheduler, Error}
use gmux.Scheduler.Operations.{release, admit, cancel, resize}
use gmux.Accounting.{begin, end_job}
use gmux.Daemon.Jobs.{
  Job, JobState, queued, exited, running, unset, paused, Daemon, System, pause_locked, intervals,
}
use gmux.Daemon.Calls.{
  push_out, push_out_all, submit_admitted, submit, start_all, reap_job, reap, stop, resized,
  resize_job, is_queued, is_running, is_proc, new_job, exited_job, SubmitRequest, request_of,
  SubmitError, no_command,
}
use gmux.Daemon.Ledgers.{
  held_slots, placed_slots, open_of, open_of-end_job, open_of-begin, IsBill, IsBilled,
  map-intervals, insert-IsBilled,
}
use gmux.Daemon.Changes.{
  IsFair, start_waiting-IsFair, ended-IsFair, push_out-IsFair, delete-IsFair, enter-IsFair,
  settle_job-IsFair, idle-open, absent-open, queued-idle,
}

push_out_all-IsFair :
    (sys : System) (ids : List String) (d : Daemon) → IsFair d → IsFair (push_out_all sys ids d)
unfolding push_out_all
push_out_all-IsFair sys [] d good = good
push_out_all-IsFair sys (id ∷ ids) d good = elim (Option-cases (lookup id d.jobs)) [
  | inl x ↦ rw (x, push_out_all) (push_out_all-IsFair sys ids d good)
  | inr (v, x) ↦
      rw (x, push_out_all)
        (push_out_all-IsFair sys ids (push_out sys v d) (push_out-IsFair sys d good v))
]

push_out-idle :
    (sys : System) (v : Job) (d : Daemon) (id : String)
    → open_of id d.ledger ≡ []
    → open_of id (push_out sys v d).ledger ≡ []
unfolding push_out pause_locked
push_out-idle sys v d id idle = elim (Option-cases v.proc) [
  | inl x ↦ rw (x, push_out) idle
  | inr (p, x) ↦
      rw (x, push_out, x, pause_locked, open_of-end_job id v.id sys.now sys.writable d.ledger)
        (ground (arith, idle))
]

push_out_all-idle :
    (sys : System) (ids : List String) (d : Daemon) (id : String)
    → open_of id d.ledger ≡ []
    → open_of id (push_out_all sys ids d).ledger ≡ []
unfolding push_out_all
push_out_all-idle sys [] d id idle = idle
push_out_all-idle sys (k ∷ ids) d id idle = elim (Option-cases (lookup k d.jobs)) [
  | inl x ↦ rw (x, push_out_all) (push_out_all-idle sys ids d id idle)
  | inr (v, x) ↦
      rw (x, push_out_all)
        (push_out_all-idle sys ids (push_out sys v d) id (push_out-idle sys v d id idle))
]

start_all-IsFair :
    (sys : System) (decs : List Decision) (d : Daemon) → IsFair d → IsFair (start_all sys decs d)
unfolding start_all
start_all-IsFair sys [] d good = good
start_all-IsFair sys (dec ∷ decs) d good = elim (Option-cases dec.placement) [
  | inl x ↦ rw x (start_all-IsFair sys decs d good)
  | inr (pl, x) ↦ rw x (start_all-IsFair sys decs _ (start_waiting-IsFair sys d good pl))
]

running-held :
    (q : JobState) (pl : Option Placement) → is_running q ≡ true → held_slots q pl ≡ placed_slots pl
running-held running pl e = refl
running-held unset pl e = absurd (cc (e))
running-held queued pl e = absurd (cc (e))
running-held paused pl e = absurd (cc (e))
running-held exited pl e = absurd (cc (e))

module _ (sys : System) (d : Daemon) (good : IsFair d) where
  submit_admitted-IsFair :
      (job : Job) (answer : Result Error Decision × Scheduler)
      → is_running job.state ≡ false
      → open_of job.id d.ledger ≡ []
      → IsFair (submit_admitted sys job d answer).1
  unfolding submit_admitted
  submit_admitted-IsFair job (err e, sched) still idle = good
  submit_admitted-IsFair job (ok dec, sched) still idle =
      let entered : Daemon = record d { sched = sched; jobs = insert job.id job d.jobs } in
      let fair : IsFair entered = enter-IsFair sys d good job.id job idle refl still in
      settle_job-IsFair sys (push_out_all sys dec.preempt entered)
        (push_out_all-IsFair sys dec.preempt entered fair) job dec
        (push_out_all-idle sys dec.preempt entered job.id idle)

  submit-IsFair :
      (id : String) (r : SubmitRequest) → lookup id d.jobs ≡ none → IsFair (submit sys id r d).1
  unfolding submit
  submit-IsFair id r fresh =
      with_command r.command
        (submit_admitted sys (new_job id r) d (admit (request_of id r) d.sched))
        (submit_admitted-IsFair (new_job id r) (admit (request_of id r) d.sched) refl
          (absent-open sys d good id fresh))
    where
      with_command :
          (command : List String) (answer : Result SubmitError Job × Daemon)
          → IsFair answer.1
          → IsFair
              (elim command as (λ _. Result SubmitError Job × Daemon) [
                | [] ↦ (err no_command, d)
                | c ∷ cs ↦ answer
              ]).1
      with_command [] answer h = good
      with_command (c ∷ cs) answer h = h

  reap-IsFair : (id : String) (proc : ℕ) (code : ℤ) → IsFair (reap sys id proc code d)
  unfolding reap reap_job IsBill IsBilled
  reap-IsFair id proc code = elim (Option-cases (lookup id d.jobs)) [
    | inl x ↦ rw (x, reap) good
    | inr (job, x) ↦ elim (Bool-cases (is_proc proc job.proc)) [
      | inr other ↦ rw (x, reap, other) good
      | inl own ↦
          let named = (subst (λ o. IsBill id o (open_of id d.ledger)) x (good id)).0 in
          rw (x, reap, own)
            (start_all-IsFair sys (release id d.sched).0 _
              (ended-IsFair sys d good id (exited_job code job) named refl))
    ]
  ]

  stop-IsFair : (id : String) → IsFair (stop id d).1
  unfolding stop
  stop-IsFair id = elim (Option-cases (lookup id d.jobs)) [
    | inl x ↦ rw (x, stop) good
    | inr (job, x) ↦ elim (Bool-cases (is_queued job.state)) [
      | inr other ↦ rw (x, stop, other) good
      | inl q ↦
          rw (x, stop, q)
            (delete-IsFair sys d good id (cancel id d.sched).1
              (idle-open sys d good id job x (queued-idle job.state q)).1)
    ]
  ]

  resized-IsFair :
      (id : String) (fraction : Ratio) (job : Job) (answer : Result Error Placement × Scheduler)
      → job.id ≡ id
      → is_running job.state ≡ true
      → IsFair (resized sys id fraction job d answer).1
  unfolding resized IsBill
  resized-IsFair id fraction job (err e, sched) named runs = good
  resized-IsFair id fraction job (ok pl, sched) named runs =
      insert-IsBilled d.jobs d.ledger
        (begin (intervals sys job pl.slots) (end_job id sys.now sys.writable d.ledger).1) id
        (record job { share = fraction; placement = some pl }) (intervals sys job pl.slots) good
        opened (named, rw (running-held job.state (some pl) runs) (map-intervals sys job pl.slots))
    where
      opened :
          (i : String)
          → open_of i
              (begin (intervals sys job pl.slots) (end_job id sys.now sys.writable d.ledger).1)
            ≡ (if str_eq id i then intervals sys job pl.slots else open_of i d.ledger)
      opened i =
          let begun =
            open_of-begin sys job pl.slots i (end_job id sys.now sys.writable d.ledger).1 in
          let ended = open_of-end_job i id sys.now sys.writable d.ledger in
          elim (Bool-cases (str_eq id i)) [
            | inl same ↦
                let own : str_eq job.id i ≡ true = rw named same in
                rw (begun, own, ended, same) refl
            | inr apart ↦
                let other : str_eq job.id i ≡ false = rw named apart in
                rw (begun, other, ended, apart) refl
          ]

  resize_job-IsFair :
      (id : String) (fraction : Ratio) (mem : ℤ) → IsFair (resize_job sys id fraction mem d).1
  unfolding resize_job IsBill IsBilled
  resize_job-IsFair id fraction mem = elim (Option-cases (lookup id d.jobs)) [
    | inl x ↦ rw (x, resize_job) good
    | inr (job, x) ↦ elim (Bool-cases (is_running job.state)) [
      | inr still ↦ rw (x, resize_job, still) good
      | inl runs ↦
          let named = (subst (λ o. IsBill id o (open_of id d.ledger)) x (good id)).0 in
          rw (x, resize_job, runs)
            (resized-IsFair id fraction job (resize id fraction mem d.sched) named runs)
    ]
  ]

-- The calls that reach a daemon one after another, each with the system's answers at that time. A
-- new id is one that no job has.
pub data Reach (start : Daemon) : Daemon → Type 0 where
  begins : Reach start start
  submits :
      {d : Daemon} (sys : System) (id : String) (r : SubmitRequest)
      → Reach start d
      → lookup id d.jobs ≡ none
      → Reach start (submit sys id r d).1
  reaps :
      {d : Daemon} (sys : System) (id : String) (proc : ℕ) (code : ℤ)
      → Reach start d
      → Reach start (reap sys id proc code d)
  stops : {d : Daemon} (sys : System) (id : String) → Reach start d → Reach start (stop id d).1
  resizes :
      {d : Daemon} (sys : System) (id : String) (fraction : Ratio) (mem : ℤ)
      → Reach start d
      → Reach start (resize_job sys id fraction mem d).1

-- Whatever calls a daemon whose ledger is right has answered since, as long as each new job got a
-- new id: the open intervals of every job are the slots that it holds now, their card, share and
-- memory, while it runs, and there is none for a queued, paused, exited or unknown job.
pub Reach-IsFair : (start d : Daemon) → Reach start d → IsFair start → IsFair d
Reach-IsFair start d begins good = good
Reach-IsFair start d (submits {d = c} sys id r path fresh) good =
    submit-IsFair sys c (Reach-IsFair start c path good) id r fresh
Reach-IsFair start d (reaps {d = c} sys id proc code path) good =
    reap-IsFair sys c (Reach-IsFair start c path good) id proc code
Reach-IsFair start d (stops {d = c} sys id path) good =
    stop-IsFair sys c (Reach-IsFair start c path good) id
Reach-IsFair start d (resizes {d = c} sys id fraction mem path) good =
    resize_job-IsFair sys c (Reach-IsFair start c path good) id fraction mem
