-- ===== src/Daemon/Jobs.antt =====
-- daemon.go: jobs, and how one is started and paused.
use gmux.Prelude.{ℕ, Bool, String, List, [], ◌∷◌, Option, none, some, insert}
use gmux.Share.{Ratio}
use gmux.Prelude.Int.{ℤ}
use gmux.Scheduler.State.{Request, Slot, Placement, Scheduler}
use gmux.Accounting.{Interval, Ledger, begin, end_job}

-- `unset` is "", the state of a job that Submit has just made.
pub data JobState : Type 0 where
  unset queued running paused exited : JobState

-- `proc` is the process that runs the job, by a number of its own.
pub record Job : Type 0 where
  pub id : String
  pub name : String
  pub owner : String
  pub command : List String
  pub share : Ratio
  pub priority : ℤ
  pub state : JobState
  pub exit_code : Option ℤ
  pub placement : Option Placement
  pub started : ℕ
  pub req : Request
  pub proc : Option ℕ

pub record Daemon : Type 0 where
  pub sched : Scheduler
  pub ledger : Ledger
  pub jobs : List (String × Job)

-- What the daemon asks of the system: the vendor and the name of a card, the process that a launch
-- of a job starts, unless it fails, the time, and whether the ledger's file can be written.
pub record System : Type 0 where
  pub vendor : ℕ → String
  pub card_name : ℕ → String
  pub launch : String → Option ℕ
  pub now : ℕ
  pub writable : Bool

abbrev pub interval : System → Job → Slot → Interval
interval sys job sl = record {
  job = job.id;
  name = job.name;
  owner = job.owner;
  vendor = sys.vendor sl.card;
  card = sl.card;
  card_name = sys.card_name sl.card;
  share = sl.granted_share;
  mem_mib = sl.mem_mib;
  start = sys.now;
  end = 0;
}

-- The intervals that open when a job holds these slots.
unfoldable pub intervals : System → Job → List Slot → List Interval
intervals sys job [] = []
intervals sys job (sl ∷ sls) = interval sys job sl ∷ intervals sys job sls

-- The job as `startLocked` leaves it.
abbrev pub started_job : System → Job → Placement → ℕ → Job
started_job sys job pl proc = record job {
  proc = some proc;
  state = running;
  placement = some pl;
  started = sys.now;
}

-- `startLocked`, with the job that it has started, or `none` for an error.
unfoldable pub start_locked : System → Job → Placement → Daemon → Option Job × Daemon
unfolding intervals
start_locked sys job pl d = elim (sys.launch job.id) [
  | none ↦ (none, d)
  | some proc ↦ (
    some (started_job sys job pl proc),
    record d {
      jobs = insert job.id (started_job sys job pl proc) d.jobs;
      ledger = begin (intervals sys job pl.slots) d.ledger;
    },
  )
]

-- `pauseLocked`; it does not look at the error of the ledger.
unfoldable pub pause_locked : System → Job → Daemon → Daemon
pause_locked sys job d = elim job.proc [
  | none ↦ d
  | some proc ↦ record d { ledger = (end_job job.id sys.now sys.writable d.ledger).1 }
]
