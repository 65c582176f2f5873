-- ===== src/Scheduler/Steps.antt =====
-- scheduler.go: the calls that the daemon makes, as steps of the scheduler.
use gmux.Prelude.{ℕ, Bool, String, List, [], ◌∷◌}
use gmux.Prelude.Int.{ℤ}
use gmux.Share.{Ratio}
use gmux.Scheduler.State.{Request, Scheduler}
use gmux.Scheduler.Operations.{admit, evict, release, requeue, cancel, resize, set_down}

pub data Call : Type 0 where
  admits requeues : Request → Call
  evicts releases cancels : String → Call
  resizes : String → Ratio → ℤ → Call
  sets_down : ℕ → Bool → Call

-- The scheduler after a call.
unfoldable pub step : Scheduler → Call → Scheduler
step s (admits r) = (admit r s).1
step s (requeues r) = requeue r s
step s (evicts id) = evict id s
step s (releases id) = (release id s).1
step s (cancels id) = (cancel id s).1
step s (resizes id fraction mem) = (resize id fraction mem s).1
step s (sets_down k down) = (set_down k down s).1

unfoldable pub run : Scheduler → List Call → Scheduler
run s [] = s
run s (c ∷ cs) = run (step s c) cs
