-- ===== src/Api/Carrying.antt =====
-- internal/api/remote.go: every turn carries the lines on.
use gmux.Prelude.{
  ◌≡◌, refl, ap, not, ◌&&◌, List, [], ◌∷◌, ◌++◌, Option, none, some, Bool-cases, inl, inr, ltb,
  length,
}
use gmux.Prelude.Int.{ℤ}
use gmux.Fence.Bytes.{Bytes}
use gmux.Api.Text.{drop_cr}
use gmux.Api.Stream.{
  Kind, stdout, stderr, Event, line, Exec, pipe_of, scan_line, scan_end, scan_fail, gives_up,
  is_short, are_short, emit, emit_exit, is_none, Turn, writes, job_ends, scans, closes_scan,
  closes_pipes, closes_events, client_leaves, emits, emits_exit, turn,
}
use gmux.Api.Streaming.{
  Then, Carries, carries, seen, texts, kept, appended, moved, passed_by, answered, concluded,
  lines_of,
}

scan_line-Carries :
    (k : Kind) (ls : List Bytes) (s : Exec)
    → (pipe_of k s).lines ≡ ls
    → Then (Carries (scans k) s) (scan_line k ls s)
unfolding seen texts
scan_line-Carries k [] s at = tt
scan_line-Carries stdout (l ∷ ls) s at =
    elim (Bool-cases (s.out.scanned && is_short l && ltb (length s.events) 256)) [
      | inr wait ↦ rw wait tt
      | inl go ↦ rw go (
          carries
            (moved stdout s.response s.events (texts s.out.lines) (line stdout (drop_cr l))
              (drop_cr l) (texts ls) (ap texts at) refl)
            (passed_by stderr s.response s.events (texts s.errors.lines) (line stdout (drop_cr l))
              refl)
            refl)
    ]
scan_line-Carries stderr (l ∷ ls) s at =
    elim (Bool-cases (s.errors.scanned && is_short l && ltb (length s.events) 256)) [
      | inr wait ↦ rw wait tt
      | inl go ↦ rw go (
          carries
            (passed_by stdout s.response s.events (texts s.out.lines) (line stderr (drop_cr l))
              refl)
            (moved stderr s.response s.events (texts s.errors.lines) (line stderr (drop_cr l))
              (drop_cr l) (texts ls) (ap texts at) refl)
            refl)
    ]

scan_fail-Carries :
    (k : Kind) (ls : List Bytes) (s : Exec) → Then (Carries (gives_up k) s) (scan_fail k ls s)
unfolding seen texts
scan_fail-Carries k [] s = tt
scan_fail-Carries stdout (l ∷ ls) s = elim (Bool-cases (s.out.scanned && not (is_short l))) [
  | inr wait ↦ rw wait tt
  | inl go ↦ rw go (carries (kept stdout s) (kept stderr s) refl)
]
scan_fail-Carries stderr (l ∷ ls) s = elim (Bool-cases (s.errors.scanned && not (is_short l))) [
  | inr wait ↦ rw wait tt
  | inl go ↦ rw go (carries (kept stdout s) (kept stderr s) refl)
]

scan_end-Carries :
    (k : Kind) (ls : List Bytes) (s : Exec) → Then (Carries (closes_scan k) s) (scan_end k ls s)
unfolding seen texts
scan_end-Carries k (l ∷ ls) s = tt
scan_end-Carries stdout [] s = elim (Bool-cases (s.out.scanned && not s.out.held_open)) [
  | inr wait ↦ rw wait tt
  | inl go ↦ rw go (carries (kept stdout s) (kept stderr s) refl)
]
scan_end-Carries stderr [] s = elim (Bool-cases (s.errors.scanned && not s.errors.held_open)) [
  | inr wait ↦ rw wait tt
  | inl go ↦ rw go (carries (kept stdout s) (kept stderr s) refl)
]

emit-Carries : (es : List Event) (s : Exec) → s.events ≡ es → Then (Carries emits s) (emit es s)
unfolding seen texts
emit-Carries [] s at = tt
emit-Carries (e ∷ es) s at = elim (Bool-cases s.ended) [
  | inl finale ↦ rw finale tt
  | inr on ↦ rw on (
      carries (answered stdout s.response es s.events e (texts s.out.lines) at)
        (answered stderr s.response es s.events e (texts s.errors.lines) at) refl)
]

emit_exit-Carries :
    (es : List Event) (final : Option ℤ) (s : Exec)
    → Then (Carries emits_exit s) (emit_exit es final s)
unfolding seen texts
emit_exit-Carries [] none s = tt
emit_exit-Carries (e ∷ es) final s = tt
emit_exit-Carries [] (some c) s = elim (Bool-cases s.ended) [
  | inl finale ↦ rw finale tt
  | inr on ↦ rw on (
      carries (concluded stdout s.response c (lines_of stdout s.events ++ texts s.out.lines) refl)
        (concluded stderr s.response c (lines_of stderr s.events ++ texts s.errors.lines) refl)
        refl)
]

write-Carries :
    (k : Kind) (l : Bytes) (s : Exec) → Then (Carries (writes k l) s) (turn (writes k l) s)
unfolding turn seen texts
write-Carries stdout l s = elim (Bool-cases (is_none s.done && not s.ended)) [
  | inr wait ↦ rw wait tt
  | inl go ↦ rw go (
      carries (appended (lines_of stdout s.response) (lines_of stdout s.events) s.out.lines l)
        (kept stderr s) refl)
]
write-Carries stderr l s = elim (Bool-cases (is_none s.done && not s.ended)) [
  | inr wait ↦ rw wait tt
  | inl go ↦ rw go (
      carries (kept stdout s)
        (appended (lines_of stderr s.response) (lines_of stderr s.events) s.errors.lines l) refl)
]

pub turn-Carries : (t : Turn) (s : Exec) → Then (Carries t s) (turn t s)
unfolding turn seen texts
turn-Carries (writes k l) s = write-Carries k l s
turn-Carries (job_ends c) s =
    elim (Bool-cases
      (is_none s.done && not s.ended && (are_short s.out.lines && are_short s.errors.lines))) [
        | inr wait ↦ rw wait tt
        | inl go ↦ rw go (carries (kept stdout s) (kept stderr s) refl)
      ]
turn-Carries (scans k) s = scan_line-Carries k (pipe_of k s).lines s refl
turn-Carries (gives_up k) s = scan_fail-Carries k (pipe_of k s).lines s
turn-Carries (closes_scan k) s = scan_end-Carries k (pipe_of k s).lines s
turn-Carries closes_pipes s = elim (Bool-cases (not (is_none s.done) && not s.finished)) [
  | inr wait ↦ rw wait tt
  | inl go ↦ rw go (carries (kept stdout s) (kept stderr s) refl)
]
turn-Carries closes_events s =
    elim (Bool-cases
      (s.finished && is_none s.final && (not s.out.scanned && not s.errors.scanned))) [
        | inr wait ↦ rw wait tt
        | inl go ↦ rw go (carries (kept stdout s) (kept stderr s) refl)
      ]
turn-Carries client_leaves s = elim (Bool-cases s.finished) [
  | inl finale ↦ rw finale tt
  | inr on ↦ rw on (carries (kept stdout s) (kept stderr s) refl)
]
turn-Carries emits s = emit-Carries s.events s refl
turn-Carries emits_exit s = emit_exit-Carries s.events s.final s
