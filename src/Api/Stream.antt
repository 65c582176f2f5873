-- ===== src/Api/Stream.antt =====
-- internal/api/remote.go and internal/remote/client.go: the stream of a job that runs for a client.
-- The goroutines of `exec` take turns in any order; a pipe carries whole lines, and an event stands
-- for its JSON.
use gmux.Prelude.{
  ℕ, Bool, true, false, not, ◌&&◌, List, [], ◌∷◌, ◌++◌, Option, none, some, if◌then◌else◌, ltb,
  length, codes,
}
use gmux.Prelude.Int.{ℤ, negsuc}
use gmux.Fence.Bytes.{Bytes}
use gmux.Api.Text.{drop_cr, coerce, line_size, failure_size}

pub data Kind : Type 0 where
  stdout stderr : Kind

-- `garbled` is a line of the stream that is no event.
pub data Event : Type 0 where
  running : Event
  line : Kind → Bytes → Event
  exit : ℤ → Event
  failure : Bytes → Event
  garbled : Event

-- A pipe from the job to its scanner: the lines that are written and not yet read.
pub record Pipe : Type 0 where
  pub lines : List Bytes
  pub held_open : Bool
  pub scanned : Bool

-- `done` is what the job's end sends; `finished` is closed with the pipes.
pub record Exec : Type 0 where
  pub out : Pipe
  pub errors : Pipe
  pub events : List Event
  pub done : Option ℤ
  pub finished : Bool
  pub final : Option ℤ
  pub stopped : Bool
  pub response : List Event
  pub ended : Bool

abbrev pub pipe_of : Kind → Exec → Pipe
pipe_of stdout s = s.out
pipe_of stderr s = s.errors

abbrev pub with_pipe : Kind → Pipe → Exec → Exec
with_pipe stdout p s = record s { out = p }
with_pipe stderr p s = record s { errors = p }

abbrev pub fresh_pipe : Pipe
fresh_pipe = record { lines = []; held_open = true; scanned = true }

-- After SubmitStreaming, which gave a job or an error.
unfoldable pub begin_exec : Option Bytes → Exec
begin_exec refused = record {
  out = fresh_pipe;
  errors = fresh_pipe;
  events = [];
  done = none;
  finished = false;
  final = none;
  stopped = false;
  response = elim refused [ none ↦ running ∷ [] | some msg ↦ failure msg ∷ [] ];
  ended = elim refused [ none ↦ false | some msg ↦ true ];
}

-- The steps of the job, of its two scanners, of the goroutine that owns `done`, of the one that
-- waits for the client to go, and of the loop that answers.
pub data Turn : Type 0 where
  writes : Kind → Bytes → Turn
  job_ends : ℤ → Turn
  scans gives_up closes_scan : Kind → Turn
  closes_pipes closes_events client_leaves emits emits_exit : Turn

abbrev pub is_none : {A : Type 0} → Option A → Bool
is_none none = true
is_none (some a) = false

abbrev pub shut : Pipe → Pipe
shut p = record p { held_open = false }

-- A line that fits into the scanner's 4 MiB with its newline.
abbrev pub is_short : Bytes → Bool
is_short l = ltb (length l) 4194304

abbrev pub are_short : List Bytes → Bool
are_short [] = true
are_short (l ∷ ls) = is_short l && are_short ls

-- What a scanner does with a line; the channel holds 256 events.
abbrev pub scan_line : Kind → List Bytes → Exec → Option Exec
scan_line k [] s = none
scan_line k (l ∷ ls) s =
    if (pipe_of k s).scanned && is_short l && ltb (length s.events) 256
    then some (
        with_pipe k (record (pipe_of k s) { lines = ls })
          (record s { events = s.events ++ line k (drop_cr l) ∷ [] }))
    else none

-- Scan fails on a longer line, and nothing reads the pipe after that.
abbrev pub scan_fail : Kind → List Bytes → Exec → Option Exec
scan_fail k [] s = none
scan_fail k (l ∷ ls) s =
    if (pipe_of k s).scanned && not (is_short l)
    then some (with_pipe k (record (pipe_of k s) { scanned = false }) s)
    else none

abbrev pub scan_end : Kind → List Bytes → Exec → Option Exec
scan_end k (l ∷ ls) s = none
scan_end k [] s =
    if (pipe_of k s).scanned && not (pipe_of k s).held_open
    then some (with_pipe k (record (pipe_of k s) { scanned = false }) s)
    else none

abbrev pub emit : List Event → Exec → Option Exec
emit [] s = none
emit (e ∷ es) s =
    if not s.ended then some (record s { events = es; response = s.response ++ e ∷ [] }) else none

abbrev pub emit_exit : List Event → Option ℤ → Exec → Option Exec
emit_exit [] (some c) s =
    if not s.ended
    then some (record s { response = s.response ++ exit c ∷ []; ended = true })
    else none
emit_exit [] none s = none
emit_exit (e ∷ es) c s = none

-- The job ends when all that it has written is copied, which a scanner that has failed keeps from
-- coming. A turn, `none` where it has to wait or cannot come.
unfoldable pub turn : Turn → Exec → Option Exec
turn (writes k l) s =
    if is_none s.done && not s.ended
    then some (with_pipe k (record (pipe_of k s) { lines = (pipe_of k s).lines ++ l ∷ [] }) s)
    else none
turn (job_ends c) s =
    if is_none s.done && not s.ended && (are_short s.out.lines && are_short s.errors.lines)
    then some (record s { done = some c })
    else none
turn closes_pipes s =
    if not (is_none s.done) && not s.finished
    then some (record s { finished = true; out = shut s.out; errors = shut s.errors })
    else none
turn (scans k) s = scan_line k (pipe_of k s).lines s
turn (gives_up k) s = scan_fail k (pipe_of k s).lines s
turn (closes_scan k) s = scan_end k (pipe_of k s).lines s
turn closes_events s =
    if s.finished && is_none s.final && (not s.out.scanned && not s.errors.scanned)
    then some (record s { final = s.done })
    else none
turn client_leaves s = if not s.finished then some (record s { stopped = true }) else none
turn emits s = emit s.events s
turn emits_exit s = emit_exit s.events s.final s

unfoldable pub turns : List Turn → Exec → Option Exec
unfolding turn
turns [] s = some s
turns (t ∷ ts) s = elim (turn t s) [ none ↦ none | some next ↦ turns ts next ]

-- What the client has printed, and its exit code.
pub record Printed : Type 0 where
  pub out : List Bytes
  pub errors : List Bytes
  pub code : ℤ

abbrev pub print : Kind → Bytes → Printed → Printed
print stdout l p = record p { out = p.out ++ l ∷ [] }
print stderr l p = record p { errors = p.errors ++ l ∷ [] }

-- The client's scanner takes lines of less than 8 MiB.
abbrev pub client_limit : ℕ
client_limit = 8388608

abbrev pub too_long : Bytes
too_long = codes "bufio.Scanner: token too long"

-- The loop of `Exec` over the stream, and the message of the error that it returns.
unfoldable pub receive : List Event → Printed → Printed × Option Bytes
unfolding line_size failure_size coerce
receive [] p = (p, none)
receive (line k l ∷ es) p =
    if ltb (line_size l) client_limit then receive es (print k (coerce l) p) else (p, some too_long)
receive (exit c ∷ es) p = receive es (record p { code = c })
receive (failure msg ∷ es) p =
    if ltb (failure_size msg) client_limit
    then (record p { code = negsuc 0 }, some (coerce msg))
    else (p, some too_long)
receive (running ∷ es) p = receive es p
receive (garbled ∷ es) p = receive es p

unfoldable pub exec_client : List Event → Printed × Option Bytes
unfolding receive
exec_client es = receive es (record { out = []; errors = []; code = negsuc 0 })
