-- ===== src/Daemon/Errors.antt =====
-- daemon.go: what an error of Submit or Resize leaves behind.
use gmux.Prelude.{
  ◌≡◌, ◌≢◌, ◌⊎◌, refl, sym, ap, true, false, String, [], ◌∷◌, Option, none, some, Result, ok, err,
  lookup, insert, Bool-cases, Option-cases, inl, inr,
}
use gmux.Prelude.Int.{ℤ}
use gmux.Share.{Ratio}
use gmux.Scheduler.State.{Placement, Decision, Scheduler, Error}
use gmux.Scheduler.Operations.{admit, resize}
use gmux.Scheduler.Refusals.{Decided, admit-Decided, Refused, resize-Refused}
use gmux.Daemon.Jobs.{Job, Daemon, System, start_locked}
use gmux.Daemon.Calls.{
  SubmitRequest, SubmitError, no_command, launch_failed, nil_placement, not_admitted, request_of,
  new_job, push_out_all, started_or_dropped, settle_job, submit_admitted, submit, ResizeError,
  resized, is_running, resize_job,
}

-- Unless the launch has failed, an error leaves the daemon as it was, and none is a panic.
abbrev pub Leaves : Daemon → Result SubmitError Job × Daemon → Type 0
Leaves d (ok job, after) = Unit {0}
Leaves d (err launch_failed, after) = Unit {0}
Leaves d (err nil_placement, after) = ⊥
Leaves d (err e, after) = after ≡ d

started_or_dropped-Leaves :
    (id : String) (d : Daemon) (r : Option Job × Daemon) → Leaves d (started_or_dropped id r)
started_or_dropped-Leaves id d (some job, after) = tt
started_or_dropped-Leaves id d (none, after) = tt

settle_job-Leaves :
    (sys : System) (job : Job) (dec : Decision) (d before : Daemon)
    → (dec.queued ≡ true) ⊎ ((dec.queued ≡ false) × (pl : Placement) × (dec.placement ≡ some pl))
    → Leaves before (settle_job sys job dec d)
unfolding settle_job
settle_job-Leaves sys job dec d before (inl waits) = rw waits tt
settle_job-Leaves sys job dec d before (inr (now, pl, at)) =
    rw (now, at, settle_job) (started_or_dropped-Leaves job.id before (start_locked sys job pl d))

submit_admitted-Leaves :
    (sys : System) (job : Job) (d : Daemon) (r : Result Error Decision × Scheduler)
    → Decided d.sched r
    → Leaves d (submit_admitted sys job d r)
unfolding submit_admitted
submit_admitted-Leaves sys job d (err e, sched) same = ap (λ s. record d { sched = s }) same
submit_admitted-Leaves sys job d (ok dec, sched) h =
    settle_job-Leaves sys job dec
      (push_out_all sys dec.preempt (record d { sched = sched; jobs = insert job.id job d.jobs })) d
      h

submit-Leaves :
    (sys : System) (id : String) (r : SubmitRequest) (d : Daemon) → Leaves d (submit sys id r d)
unfolding submit
submit-Leaves sys id r d =
    elim r.command
      as (λ c. Leaves d (elim c [
        | [] ↦ (err no_command, d)
        | c ∷ cs ↦ submit_admitted sys (new_job id r) d (admit (request_of id r) d.sched)
      ])) [
        | [] ↦ refl
        | c ∷ cs ↦
            submit_admitted-Leaves sys (new_job id r) d (admit (request_of id r) d.sched)
              (admit-Decided (request_of id r) d.sched)
      ]

resized-error :
    (sys : System) (id : String) (fraction : Ratio) (job : Job) (d : Daemon)
    (r : Result Error Placement × Scheduler) (e : ResizeError)
    → Refused d.sched r
    → (resized sys id fraction job d r).0 ≡ err e
    → (resized sys id fraction job d r).1 ≡ d
unfolding resized
resized-error sys id fraction job d (ok pl, sched) e h bad = absurd (cc (bad))
resized-error sys id fraction job d (err f, sched) e h bad = ap (λ s. record d { sched = s }) h

Leaves-error :
    (d : Daemon) (r : Result SubmitError Job × Daemon) (e : SubmitError)
    → Leaves d r
    → r.0 ≡ err e
    → e ≢ launch_failed
    → (e ≢ nil_placement) × (r.1 ≡ d)
Leaves-error d (ok job, after) e h bad other = absurd (cc (bad))
Leaves-error d (err launch_failed, after) e h bad other =
    absurd (other (let same : launch_failed ≡ e = cc (bad) in sym same))
Leaves-error d (err nil_placement, after) e h bad other = absurd h
Leaves-error d (err no_command, after) e h bad other =
    ((λ p. absurd (let clash : no_command ≡ nil_placement = cc (bad, p) in cc (clash))), h)
Leaves-error d (err (not_admitted why), after) e h bad other =
    ((λ p. absurd (let clash : not_admitted why ≡ nil_placement = cc (bad, p) in cc (clash))), h)

-- An error of Submit, unless it is that the launch of the process has failed, is never the nil
-- placement that would make it panic, and leaves the daemon as it was, with its scheduler, ledger and
-- jobs.
pub submit_error :
    (sys : System) (id : String) (r : SubmitRequest) (d : Daemon) (e : SubmitError)
    → (submit sys id r d).0 ≡ err e
    → e ≢ launch_failed
    → (e ≢ nil_placement) × ((submit sys id r d).1 ≡ d)
submit_error sys id r d e bad other =
    Leaves-error d (submit sys id r d) e (submit-Leaves sys id r d) bad other

-- A Resize of the daemon that answers with an error leaves the daemon as it was, with its scheduler,
-- ledger and jobs.
pub resize_job_error :
    (sys : System) (id : String) (fraction : Ratio) (mem : ℤ) (d : Daemon) (e : ResizeError)
    → (resize_job sys id fraction mem d).0 ≡ err e
    → (resize_job sys id fraction mem d).1 ≡ d
unfolding resize_job
resize_job_error sys id fraction mem d e bad = elim (Option-cases (lookup id d.jobs)) [
  | inl gone ↦ rw (gone, resize_job) refl
  | inr (job, at) ↦ elim (Bool-cases (is_running job.state)) [
    | inr idle ↦ rw (at, idle, resize_job) refl
    | inl busy ↦
        rw (at, busy, resize_job)
          (resized-error sys id fraction job d (resize id fraction mem d.sched) e
            (resize-Refused id fraction mem d.sched) (rw (at, busy, resize_job) at bad))
  ]
]
