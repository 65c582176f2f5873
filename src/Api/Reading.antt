-- ===== src/Api/Reading.antt =====
-- internal/api/remote.go: what the job and the scanners do keeps what holds of the stream.
use gmux.Prelude.{
  ◌≡◌, refl, Bool, true, false, not, ◌&&◌, All-append, List, [], ◌∷◌, ◌++◌, subst, Bool-cases,
  arith, inl, inr, ltb, length,
}
use gmux.Fence.Bytes.{Bytes}
use gmux.Api.Text.{drop_cr}
use gmux.Api.Stream.{
  Kind, stdout, stderr, line, Pipe, Exec, is_none, shut, pipe_of, scan_line, scan_end, scan_fail,
  is_short, are_short, writes, turn,
}
use gmux.Api.Streaming.{Then}
use gmux.Api.Ending.{IsCalm, Tidy, Sane}

are_short-append : (ls ms : List Bytes) → are_short (ls ++ ms) ≡ true → are_short ls ≡ true
are_short-append [] ms h = refl
are_short-append (l ∷ ls) ms h =
    let first : is_short l ≡ true = ground (arith, h) in
    let rest : are_short (ls ++ ms) ≡ true = ground (arith, h) in
    let done = are_short-append ls ms rest in rw (first, done) refl

Tidy-write :
    (f : Bool) (p : Pipe) (l : Bytes)
    → f ≡ false
    → Tidy f p
    → Tidy f (record p { lines = p.lines ++ l ∷ [] })
unfolding Tidy
Tidy-write f p l no' (gone', early, late) = (
  λ gone short.
      let (empty', closed) = gone' gone (are_short-append p.lines (l ∷ []) short) in
      let finale = early closed in absurd (cc (finale, no')),
  early,
  late,
)

Tidy-lines :
    (f : Bool) (p : Pipe) (ls : List Bytes)
    → p.scanned ≡ true
    → Tidy f p
    → Tidy f (record p { lines = ls })
unfolding Tidy
Tidy-lines f p ls read tidy =
    let (gone', early, late) = tidy in (λ gone short. absurd (cc (read, gone)), early, late)

Tidy-end :
    (f : Bool) (p : Pipe)
    → p.lines ≡ []
    → p.held_open ≡ false
    → Tidy f p
    → Tidy f (record p { scanned = false })
unfolding Tidy
Tidy-end f p empty' closed tidy =
    let (gone', early, late) = tidy in (λ gone short. (empty', closed), early, late)

pub Tidy-shut : (f : Bool) (p : Pipe) → Tidy f p → Tidy true (shut p)
unfolding Tidy
Tidy-shut f p tidy = (λ gone short. ((tidy.0 gone short).0, refl), (λ closed. refl), (λ done. refl))

unfinished : (s : Exec) → Sane s → is_none s.done ≡ true → s.finished ≡ false
unfinished s sane alive = elim (Bool-cases s.finished) [
  | inr no' ↦ no'
  | inl yes' ↦ absurd (let ended = sane.finished yes' in cc (alive, ended))
]

Tidy-fail :
    (f : Bool) (p : Pipe) (l : Bytes) (ls : List Bytes)
    → p.lines ≡ l ∷ ls
    → is_short l ≡ false
    → Tidy f p
    → Tidy f (record p { scanned = false })
unfolding Tidy
Tidy-fail f p l ls at long (gone', early, late) = (
  λ gone short.
      let both : (is_short l && are_short ls) ≡ true = subst (λ t. are_short t ≡ true) at short in
      let first : is_short l ≡ true = ground (arith, both) in absurd (cc (first, long)),
  early,
  late,
)

are_short-rest :
    (l : Bytes) (ls all : List Bytes) → all ≡ l ∷ ls → are_short all ≡ true → are_short ls ≡ true
are_short-rest l ls all at h =
    let short : (is_short l && are_short ls) ≡ true = subst (λ t. are_short t ≡ true) at h in
    ground (arith, short)

pub write-Sane : (k : Kind) (l : Bytes) (s : Exec) → Sane s → Then Sane (turn (writes k l) s)
unfolding turn
write-Sane stdout l s sane = elim (Bool-cases (is_none s.done && not s.ended)) [
  | inr wait ↦ rw wait tt
  | inl go ↦
      let now : s.finished ≡ false = unfinished s sane (ground (arith, go)) in
      let on : s.ended ≡ false = ground (arith, go) in
      rw go (record {
        out = Tidy-write s.finished s.out l now sane.out;
        errors = sane.errors;
        short =
            λ e. let alive : is_none s.done ≡ true = ground (arith, go) in absurd (cc (alive, e));
        finished = sane.finished;
        final = sane.final;
        calm = sane.calm;
        response = sane.response;
        finale = λ e. absurd (cc (e, on));
      })
]
write-Sane stderr l s sane = elim (Bool-cases (is_none s.done && not s.ended)) [
  | inr wait ↦ rw wait tt
  | inl go ↦
      let now : s.finished ≡ false = unfinished s sane (ground (arith, go)) in
      let on : s.ended ≡ false = ground (arith, go) in
      rw go (record {
        out = sane.out;
        errors = Tidy-write s.finished s.errors l now sane.errors;
        short =
            λ e. let alive : is_none s.done ≡ true = ground (arith, go) in absurd (cc (alive, e));
        finished = sane.finished;
        final = sane.final;
        calm = sane.calm;
        response = sane.response;
        finale = λ e. absurd (cc (e, on));
      })
]

pub scan-Sane :
    (k : Kind) (ls : List Bytes) (s : Exec)
    → (pipe_of k s).lines ≡ ls
    → Sane s
    → Then Sane (scan_line k ls s)
scan-Sane k [] s at sane = tt
scan-Sane stdout (l ∷ ls) s at sane =
    elim (Bool-cases (s.out.scanned && is_short l && ltb (length s.events) 256)) [
      | inr wait ↦ rw wait tt
      | inl go ↦
          let read : s.out.scanned ≡ true = ground (arith, go) in
          rw go (record {
            out = Tidy-lines s.finished s.out ls read sane.out;
            errors = sane.errors;
            short = λ e. let (x, y) = sane.short e in (are_short-rest l ls (s.out.lines) at x, y);
            finished = sane.finished;
            final = sane.final;
            calm = All-append IsCalm s.events (line stdout (drop_cr l) ∷ []) sane.calm (tt, tt);
            response = sane.response;
            finale = λ e.
                let finale = sane.finale e in
                let (d, gone, r) = sane.final finale.code finale.sent in absurd (cc (gone, read));
          })
    ]
scan-Sane stderr (l ∷ ls) s at sane =
    elim (Bool-cases (s.errors.scanned && is_short l && ltb (length s.events) 256)) [
      | inr wait ↦ rw wait tt
      | inl go ↦
          let read : s.errors.scanned ≡ true = ground (arith, go) in
          rw go (record {
            out = sane.out;
            errors = Tidy-lines s.finished s.errors ls read sane.errors;
            short =
                λ e. let (x, y) = sane.short e in (x, are_short-rest l ls (s.errors.lines) at y);
            finished = sane.finished;
            final = sane.final;
            calm = All-append IsCalm s.events (line stderr (drop_cr l) ∷ []) sane.calm (tt, tt);
            response = sane.response;
            finale = λ e.
                let finale = sane.finale e in
                let (d, o, gone) = sane.final finale.code finale.sent in absurd (cc (gone, read));
          })
    ]

pub scan_fail-Sane :
    (k : Kind) (ls : List Bytes) (s : Exec)
    → (pipe_of k s).lines ≡ ls
    → Sane s
    → Then Sane (scan_fail k ls s)
scan_fail-Sane k [] s at sane = tt
scan_fail-Sane stdout (l ∷ ls) s at sane = elim (Bool-cases (s.out.scanned && not (is_short l))) [
  | inr wait ↦ rw wait tt
  | inl go ↦ rw go (record {
    out = Tidy-fail s.finished s.out l ls at (ground (arith, go)) sane.out;
    errors = sane.errors;
    short = sane.short;
    finished = sane.finished;
    final = λ c e. let (d, o, r) = sane.final c e in (d, refl, r);
    calm = sane.calm;
    response = sane.response;
    finale = sane.finale;
  })
]
scan_fail-Sane stderr (l ∷ ls) s at sane =
    elim (Bool-cases (s.errors.scanned && not (is_short l))) [
      | inr wait ↦ rw wait tt
      | inl go ↦ rw go (record {
        out = sane.out;
        errors = Tidy-fail s.finished s.errors l ls at (ground (arith, go)) sane.errors;
        short = sane.short;
        finished = sane.finished;
        final = λ c e. let (d, o, r) = sane.final c e in (d, o, refl);
        calm = sane.calm;
        response = sane.response;
        finale = sane.finale;
      })
    ]

pub scan_end-Sane :
    (k : Kind) (ls : List Bytes) (s : Exec)
    → (pipe_of k s).lines ≡ ls
    → Sane s
    → Then Sane (scan_end k ls s)
scan_end-Sane k (l ∷ ls) s at sane = tt
scan_end-Sane stdout [] s at sane = elim (Bool-cases (s.out.scanned && not s.out.held_open)) [
  | inr wait ↦ rw wait tt
  | inl go ↦ rw go (record {
    out = Tidy-end s.finished s.out at (ground (arith, go)) sane.out;
    errors = sane.errors;
    short = sane.short;
    finished = sane.finished;
    final = λ c e. let (d, o, r) = sane.final c e in (d, refl, r);
    calm = sane.calm;
    response = sane.response;
    finale = sane.finale;
  })
]
scan_end-Sane stderr [] s at sane = elim (Bool-cases (s.errors.scanned && not s.errors.held_open)) [
  | inr wait ↦ rw wait tt
  | inl go ↦ rw go (record {
    out = sane.out;
    errors = Tidy-end s.finished s.errors at (ground (arith, go)) sane.errors;
    short = sane.short;
    finished = sane.finished;
    final = λ c e. let (d, o, r) = sane.final c e in (d, o, refl);
    calm = sane.calm;
    response = sane.response;
    finale = sane.finale;
  })
]
