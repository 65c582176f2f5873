-- ===== src/Api/Ending.antt =====
-- internal/api/remote.go: the exit code of a job comes last, after every line.
use gmux.Prelude.{◌≡◌, Bool, true, false, All, List, [], ◌∷◌, ◌++◌, Option, some}
use gmux.Prelude.Int.{ℤ}
use gmux.Api.Stream.{Event, running, line, exit, Pipe, Exec, is_none, are_short}

-- An event that is neither an end nor an error.
abbrev pub IsCalm : Event → Type 0
IsCalm running = Unit {0}
IsCalm (line k l) = Unit {0}
IsCalm e = ⊥

-- A pipe that is not read any more and has no line that is too long is empty and closed, and it is
-- closed when the job is finished.
unfoldable pub Tidy : Bool → Pipe → Type 0
Tidy finished p =
    (p.scanned ≡ false → are_short p.lines ≡ true → (p.lines ≡ []) × (p.held_open ≡ false))
    × (p.held_open ≡ false → finished ≡ true)
    × (finished ≡ true → p.held_open ≡ false)

-- A response after its end, with the events that are left and the code that was sent.
pub record Over (response events : List Event) (final : Option ℤ) : Type 0 where
  pub before : List Event
  pub code : ℤ
  pub ends : response ≡ before ++ exit code ∷ []
  pub calm : All IsCalm before
  pub drained : events ≡ []
  pub sent : final ≡ some code

pub record Sane (s : Exec) : Type 0 where
  pub out : Tidy s.finished s.out
  pub errors : Tidy s.finished s.errors
  pub short :
      is_none s.done ≡ false → (are_short s.out.lines ≡ true) × (are_short s.errors.lines ≡ true)
  pub finished : s.finished ≡ true → is_none s.done ≡ false
  pub final :
      (c : ℤ)
      → s.final ≡ some c
      → (s.done ≡ some c) × (s.out.scanned ≡ false) × (s.errors.scanned ≡ false)
  pub calm : All IsCalm s.events
  pub response : s.ended ≡ false → All IsCalm s.response
  pub finale : s.ended ≡ true → Over s.response s.events s.final
