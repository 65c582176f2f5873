-- ===== src/Daemon/Calls.antt =====
-- daemon.go: Submit, reap, Stop and Resize.
use gmux.Prelude.{
  ℕ, ◌==◌, ◌&&◌, Bool, true, false, String, List, [], ◌∷◌, Option, none, some, if◌then◌else◌, ltb,
  Result, ok, err, insert, lookup, delete,
}
use gmux.Share.{Ratio, ratio}
use gmux.Prelude.Int.{ℤ}
use gmux.Scheduler.State.{Request, Placement, Decision, Scheduler, Error}
use gmux.Scheduler.Operations.{admit, release, requeue, cancel, resize}
use gmux.Accounting.{begin, end_job}
use gmux.Daemon.Jobs.{
  Job, JobState, unset, queued, running, paused, exited, Daemon, System, intervals, start_locked,
  pause_locked,
}

pub record SubmitRequest : Type 0 where
  pub command : List String
  pub name : String
  pub owner : String
  pub share : Ratio
  pub mem_mib : ℤ
  pub gpus : ℤ
  pub priority : ℤ
  pub preemptible : Bool
  pub burst : Bool
  pub wait : Bool

pub data SubmitError : Type 0 where
  no_command launch_failed nil_placement : SubmitError
  not_admitted : Error → SubmitError

-- `if r.Share <= 0 { r.Share = 1 }`.
abbrev pub share_or_whole : Ratio → Ratio
share_or_whole f = if ltb 0 f.den && f.num == 0 then ratio 1 1 else f

abbrev pub request_of : String → SubmitRequest → Request
request_of id r = record {
  id = id;
  share = share_or_whole r.share;
  mem_mib = r.mem_mib;
  gpus = r.gpus;
  priority = r.priority;
  preemptible = r.preemptible;
  burst = r.burst;
  wait = r.wait;
}

abbrev pub new_job : String → SubmitRequest → Job
new_job id r = record {
  id = id;
  name = r.name;
  owner = r.owner;
  command = r.command;
  share = share_or_whole r.share;
  priority = r.priority;
  state = unset;
  exit_code = none;
  placement = none;
  started = 0;
  req = request_of id r;
  proc = none;
}

-- The body of the loop of `Submit` over the victims.
unfoldable pub push_out : System → Job → Daemon → Daemon
unfolding pause_locked
push_out sys v d = elim v.proc [
  | none ↦ d
  | some proc ↦
      let after = pause_locked sys v d in
      record after {
        sched = requeue v.req after.sched;
        jobs = insert v.id (record v { state = paused }) after.jobs;
      }
]

unfoldable pub push_out_all : System → List String → Daemon → Daemon
unfolding push_out
push_out_all sys [] d = d
push_out_all sys (victim ∷ victims) d =
    push_out_all sys victims (elim (lookup victim d.jobs) [ none ↦ d | some v ↦ push_out sys v d ])

abbrev pub started_or_dropped : String → Option Job × Daemon → Result SubmitError Job × Daemon
started_or_dropped id (some job, d) = (ok job, d)
started_or_dropped id (none, d) =
    (err launch_failed, record d { sched = (release id d.sched).1; jobs = delete id d.jobs })

-- `Submit`, once the scheduler has admitted the job; `nil_placement` is a panic.
unfoldable pub settle_job : System → Job → Decision → Daemon → Result SubmitError Job × Daemon
unfolding start_locked
settle_job sys job dec d =
    if dec.queued
    then (
      ok (record job { state = queued }),
      record d { jobs = insert job.id (record job { state = queued }) d.jobs },
    )
    else elim dec.placement [
      | none ↦ (err nil_placement, d)
      | some pl ↦ started_or_dropped job.id (start_locked sys job pl d)
    ]

unfoldable pub submit_admitted :
    System → Job → Daemon → Result Error Decision × Scheduler → Result SubmitError Job × Daemon
unfolding settle_job push_out_all
submit_admitted sys job d (err e, sched) = (err (not_admitted e), record d { sched = sched })
submit_admitted sys job d (ok dec, sched) =
    settle_job sys job dec
      (push_out_all sys dec.preempt (record d { sched = sched; jobs = insert job.id job d.jobs }))

-- `Submit`, with the id that newID makes.
unfoldable pub submit : System → String → SubmitRequest → Daemon → Result SubmitError Job × Daemon
unfolding submit_admitted
submit sys id r d = elim r.command [
  | [] ↦ (err no_command, d)
  | c ∷ cs ↦ submit_admitted sys (new_job id r) d (admit (request_of id r) d.sched)
]

abbrev pub waits : JobState → Bool
waits queued = true
waits paused = true
waits _ = false

abbrev pub start_waiting : System → Option Job → Placement → Daemon → Daemon
start_waiting sys none pl d = d
start_waiting sys (some q) pl d = if waits q.state then (start_locked sys q pl d).1 else d

-- The loop of `reap` over what Release has placed.
unfoldable pub start_all : System → List Decision → Daemon → Daemon
unfolding start_locked
start_all sys [] d = d
start_all sys (dec ∷ decs) d =
    start_all sys decs
      (elim dec.placement [ none ↦ d | some pl ↦ start_waiting sys (lookup pl.job_id d.jobs) pl d ])

abbrev pub exited_job : ℤ → Job → Job
exited_job code job = record job { state = exited; exit_code = some code; proc = none }

-- `reap`, on the job whose process has ended.
unfoldable pub reap_job : System → String → ℤ → Job → Daemon → Daemon
unfolding start_all
reap_job sys id code job d = start_all sys (release id d.sched).0 (record d {
  sched = (release id d.sched).1;
  ledger = (end_job id sys.now sys.writable d.ledger).1;
  jobs = insert id (exited_job code job) d.jobs;
})

abbrev pub is_proc : ℕ → Option ℕ → Bool
is_proc proc none = false
is_proc proc (some p) = p == proc

-- `reap`, when the process `proc` has ended with a code.
unfoldable pub reap : System → String → ℕ → ℤ → Daemon → Daemon
unfolding reap_job
reap sys id proc code d = elim (lookup id d.jobs) [
  | none ↦ d
  | some job ↦ if is_proc proc job.proc then reap_job sys id code job d else d
]

-- What Stop does: an error, or the process that it signals, if any.
pub data Stopped : Type 0 where
  no_job cancelled : Stopped
  signals : Option ℕ → Stopped

abbrev pub is_queued : JobState → Bool
is_queued queued = true
is_queued _ = false

-- `Stop`.
unfoldable pub stop : String → Daemon → Stopped × Daemon
stop id d = elim (lookup id d.jobs) [
  | none ↦ (no_job, d)
  | some job ↦
      if is_queued job.state
      then (cancelled, record d { sched = (cancel id d.sched).1; jobs = delete id d.jobs })
      else (signals job.proc, d)
]

pub data ResizeError : Type 0 where
  job_not_running : ResizeError
  not_resized : Error → ResizeError

unfoldable pub resized :
    System
    → String
    → Ratio
    → Job
    → Daemon
    → Result Error Placement × Scheduler
    → Result ResizeError Job × Daemon
resized sys id fraction job d (err e, sched) = (err (not_resized e), record d { sched = sched })
resized sys id fraction job d (ok pl, sched) = (
  ok (record job { share = fraction; placement = some pl }),
  record d {
    sched = sched;
    ledger = begin (intervals sys job pl.slots) (end_job id sys.now sys.writable d.ledger).1;
    jobs = insert id (record job { share = fraction; placement = some pl }) d.jobs;
  },
)

abbrev pub is_running : JobState → Bool
is_running running = true
is_running _ = false

-- `Resize`.
unfoldable pub resize_job : System → String → Ratio → ℤ → Daemon → Result ResizeError Job × Daemon
unfolding resized
resize_job sys id fraction mem d = elim (lookup id d.jobs) [
  | none ↦ (err job_not_running, d)
  | some job ↦
      if is_running job.state
      then resized sys id fraction job d (resize id fraction mem d.sched)
      else (err job_not_running, d)
]
