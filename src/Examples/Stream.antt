-- ===== src/Examples/Stream.antt =====
-- internal/api/remote.go: a job writes on both outputs while a client watches.
use gmux.Prelude.{false, ◌+◌, refl, ◌≡◌, true, none, some, [], ◌∷◌, codes, List}
use gmux.Prelude.Int.{pos, negsuc}
use gmux.Api.Stream.{
  stdout, stderr, running, line, exit, Exec, begin_exec, writes, job_ends, scans, closes_scan,
  closes_pipes, closes_events, emits, emits_exit, Turn, turns, exec_client,
}
use gmux.Api.Streaming.{texts, end_of}
use gmux.Api.Text.{
  drop_cr, are_conts, rune_size, coerced, coerce, escaped_size, line_size, failure_size,
}
use gmux.Api.Receiving.{prints}
use gmux.Api.Concluding.{Ends, exec-Ends}

-- The job ends while one of its lines is still in a pipe, and another in the channel.
abbrev script : List Turn
script =
    writes stdout (codes "one")
    ∷ writes stderr (codes "oops")
    ∷ scans stderr
    ∷ scans stdout
    ∷ emits
    ∷ writes stdout (codes "two")
    ∷ job_ends (pos 3)
    ∷ closes_pipes
    ∷ scans stdout
    ∷ closes_scan stdout
    ∷ emits
    ∷ closes_scan stderr
    ∷ closes_events
    ∷ emits
    ∷ emits_exit
    ∷ []

abbrev after : Exec
after = record {
  out = record { lines = []; held_open = false; scanned = false };
  errors = record { lines = []; held_open = false; scanned = false };
  events = [];
  done = some (pos 3);
  finished = true;
  final = some (pos 3);
  stopped = false;
  response =
      running
      ∷ line stderr (codes "oops")
      ∷ line stdout (codes "one")
      ∷ line stdout (codes "two")
      ∷ exit (pos 3)
      ∷ [];
  ended = true;
}

-- The carriage return goes, and a byte that is no rune becomes U+FFFD.
mended :
    prints (texts ((0x61 ∷ 0xff ∷ 0xc3 ∷ 0xa4 ∷ 13 ∷ []) ∷ []))
    ≡ (0x61 ∷ 0xef ∷ 0xbf ∷ 0xbd ∷ 0xc3 ∷ 0xa4 ∷ []) ∷ []
unfolding prints texts coerce coerced rune_size are_conts drop_cr
mended = refl

-- A quote, a control character, a letter of two bytes, a byte that is no rune, and U+2028.
sizes : line_size (34 ∷ 1 ∷ 0xc3 ∷ 0xa4 ∷ 0x80 ∷ 0xe2 ∷ 0x80 ∷ 0xa8 ∷ []) ≡ 19 + (2 + 6 + 2 + 6 + 6)
unfolding line_size escaped_size rune_size are_conts
sizes = refl

-- Without the end of the job the pipes stay open.
pipes_wait : turns (closes_pipes ∷ []) (begin_exec none) ≡ none
unfolding turns begin_exec
pipes_wait = refl

-- A job that is refused.
refused :
    exec_client (begin_exec (some (codes "full"))).response
    ≡ (record { out = []; errors = []; code = negsuc 0 }, some (codes "full"))
unfolding exec_client begin_exec failure_size escaped_size coerce coerced rune_size
refused = refl

-- The job has ended and nothing has been read yet.
abbrev early : List Turn
early = writes stdout (codes "one") ∷ job_ends (pos 0) ∷ []

abbrev unread : Exec
unread = record {
  out = record { lines = codes "one" ∷ []; held_open = true; scanned = true };
  errors = record { lines = []; held_open = true; scanned = true };
  events = [];
  done = some (pos 0);
  finished = false;
  final = none;
  stopped = false;
  response = running ∷ [];
  ended = false;
}

reached : turns early (begin_exec none) ≡ some unread
unfolding turns begin_exec
reached = refl

exec-Ends_example : Ends unread
unfolding end_of
exec-Ends_example = exec-Ends early unread (pos 0) reached refl
