-- ===== src/Api/Taking.antt =====
-- internal/api/remote.go: every turn keeps what holds of the stream.
use gmux.Prelude.{
  subst, ◌≡◌, refl, Bool, true, false, not, ◌&&◌, All, All-append, List, [], ◌∷◌, Option, none,
  some, Bool-cases, arith, inl, inr, if◌then◌else◌,
}
use gmux.Prelude.Int.{ℤ}
use gmux.Api.Stream.{
  Event, Exec, is_none, pipe_of, emit, emit_exit, Turn, writes, job_ends, scans, gives_up,
  are_short, closes_scan, closes_pipes, closes_events, client_leaves, emits, emits_exit, turn,
}
use gmux.Api.Streaming.{Then}
use gmux.Api.Ending.{IsCalm, Sane}
use gmux.Api.Reading.{Tidy-shut, write-Sane, scan-Sane, scan_fail-Sane, scan_end-Sane}

emit-Sane : (es : List Event) (s : Exec) → s.events ≡ es → Sane s → Then Sane (emit es s)
emit-Sane [] s at sane = tt
emit-Sane (e ∷ es) s at sane =
    let calm : All IsCalm (e ∷ es) = subst (All IsCalm) at sane.calm in
    elim (Bool-cases s.ended) [
      | inl finale ↦ rw finale tt
      | inr on ↦ rw on (record {
        out = sane.out;
        errors = sane.errors;
        short = sane.short;
        finished = sane.finished;
        final = sane.final;
        calm = calm.1;
        response = λ n. All-append IsCalm s.response (e ∷ []) (sane.response on) (calm.0, tt);
        finale = λ n. absurd (cc (n));
      })
    ]

emit_exit-Sane :
    (es : List Event) (final : Option ℤ) (s : Exec)
    → s.events ≡ es
    → s.final ≡ final
    → Sane s
    → Then Sane (emit_exit es final s)
emit_exit-Sane [] none s at sent sane = tt
emit_exit-Sane (e ∷ es) final s at sent sane = tt
emit_exit-Sane [] (some c) s at sent sane = elim (Bool-cases s.ended) [
  | inl finale ↦ rw finale tt
  | inr on ↦ rw on (record {
    out = sane.out;
    errors = sane.errors;
    short = sane.short;
    finished = sane.finished;
    final = sane.final;
    calm = sane.calm;
    response = λ n. absurd (cc (n));
    finale = λ n. record {
      before = s.response;
      code = c;
      ends = refl;
      calm = sane.response on;
      drained = at;
      sent = sent;
    };
  })
]

job_ends-Sane : (c : ℤ) (s : Exec) → Sane s → Then Sane (turn (job_ends c) s)
unfolding turn
job_ends-Sane c s sane =
    elim (Bool-cases
      (is_none s.done && not s.ended && (are_short s.out.lines && are_short s.errors.lines))) [
        | inr wait ↦ rw wait tt
        | inl go ↦
            let alive : is_none s.done ≡ true = ground (arith, go) in
            let on : s.ended ≡ false = ground (arith, go) in
            rw go (record {
              out = sane.out;
              errors = sane.errors;
              short = λ e. (ground (arith, go), ground (arith, go));
              finished = λ e. refl;
              final = λ d e.
                  let (known, o, r) = sane.final d e in
                  absurd (let no' : is_none (some d) ≡ true = rw known at alive in cc (no'));
              calm = sane.calm;
              response = sane.response;
              finale = λ e. absurd (cc (e, on));
            })
      ]

closes_pipes-Sane : (s : Exec) → Sane s → Then Sane (turn closes_pipes s)
unfolding turn
closes_pipes-Sane s sane = elim (Bool-cases (not (is_none s.done) && not s.finished)) [
  | inr wait ↦ rw wait tt
  | inl go ↦ rw go (record {
    out = Tidy-shut s.finished s.out sane.out;
    errors = Tidy-shut s.finished s.errors sane.errors;
    short = sane.short;
    finished = λ e. ground (arith, go);
    final = sane.final;
    calm = sane.calm;
    response = sane.response;
    finale = sane.finale;
  })
]

closes_events-Sane : (s : Exec) → Sane s → Then Sane (turn closes_events s)
unfolding turn
closes_events-Sane s sane =
    elim (Bool-cases
      (s.finished && is_none s.final && (not s.out.scanned && not s.errors.scanned))) [
        | inr wait ↦ rw wait tt
        | inl go ↦
            let unsent : is_none s.final ≡ true = ground (arith, go) in
            rw go (record {
              out = sane.out;
              errors = sane.errors;
              short = sane.short;
              finished = sane.finished;
              final = λ c e. (e, ground (arith, go), ground (arith, go));
              calm = sane.calm;
              response = sane.response;
              finale = λ e.
                  let finale = sane.finale e in
                  absurd (
                    let no' : is_none (some finale.code) ≡ true = rw finale.sent at unsent in
                    cc (no'));
            })
      ]

Then-if : (P : Exec → Type 0) (b : Bool) (s : Exec) → P s → Then P (if b then some s else none)
Then-if P true s h = h
Then-if P false s h = tt

client_leaves-Sane : (s : Exec) → Sane s → Then Sane (turn client_leaves s)
unfolding turn
client_leaves-Sane s sane =
    Then-if Sane (not s.finished) (record s { stopped = true })
      (record {
        out = sane.out;
        errors = sane.errors;
        short = sane.short;
        finished = sane.finished;
        final = sane.final;
        calm = sane.calm;
        response = sane.response;
        finale = sane.finale;
      })

pub turn-Sane : (t : Turn) (s : Exec) → Sane s → Then Sane (turn t s)
unfolding turn
turn-Sane (writes k l) s sane = write-Sane k l s sane
turn-Sane (job_ends c) s sane = job_ends-Sane c s sane
turn-Sane (scans k) s sane = scan-Sane k (pipe_of k s).lines s refl sane
turn-Sane (gives_up k) s sane = scan_fail-Sane k (pipe_of k s).lines s refl sane
turn-Sane (closes_scan k) s sane = scan_end-Sane k (pipe_of k s).lines s refl sane
turn-Sane closes_pipes s sane = closes_pipes-Sane s sane
turn-Sane closes_events s sane = closes_events-Sane s sane
turn-Sane client_leaves s sane = client_leaves-Sane s sane
turn-Sane emits s sane = emit-Sane s.events s refl sane
turn-Sane emits_exit s sane = emit_exit-Sane s.events s.final s refl refl sane
