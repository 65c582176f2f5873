-- ===== src/Api/Moving.antt =====
-- internal/api/remote.go: after the end of the job some turn can always be taken.
use gmux.Prelude.{
  ℕ, ◌⊎◌, ◌+◌, ◌*◌, ◌<◌, ◌≡◌, refl, sym, ◌∙◌, subst, Bool, true, false, not, ◌&&◌, List, [], ◌∷◌,
  ◌++◌, Option, none, some, Bool-cases, Option-cases, arith, inl, inr, length, if◌then◌else◌,
}
use gmux.Prelude.Int.{ℤ}
use gmux.Fence.Bytes.{Bytes}
use gmux.Api.Text.{drop_cr}
use gmux.Api.Stream.{
  stdout, stderr, line, exit, Event, Pipe, Exec, is_short, are_short, is_none, shut, Turn, scans,
  closes_scan, closes_pipes, closes_events, emits, emits_exit, turn,
}
use gmux.Api.Ending.{Tidy, Sane}

abbrev bit : Bool → ℕ
bit b = if b then 1 else 0

abbrev load : Pipe → ℕ
load p = 2 * length p.lines + bit p.scanned

-- What is left to be done.
abbrev pub weight : Exec → ℕ
weight s =
    load s.out
    + load s.errors
    + length s.events
    + (bit (not s.finished) + bit (is_none s.final) + bit (not s.ended))

-- A turn that can be taken and leaves less to be done.
pub record Moves (s : Exec) : Type 0 where
  pub by : Turn
  pub next : Exec
  pub taken : turn by s ≡ some next
  pub less : weight next < weight s
  pub same : next.done ≡ s.done

first_short :
    (l : Bytes) (ls all : List Bytes) → all ≡ l ∷ ls → are_short all ≡ true → is_short l ≡ true
first_short l ls all at h =
    let both : (is_short l && are_short ls) ≡ true = subst (λ t. are_short t ≡ true) at h in
    ground (arith, both)

-- The lines of a pipe that none of is too long are there only while it is read.
Tidy-read :
    (f : Bool) (p : Pipe) (l : Bytes) (ls : List Bytes)
    → Tidy f p
    → p.lines ≡ l ∷ ls
    → are_short p.lines ≡ true
    → p.scanned ≡ true
unfolding Tidy
Tidy-read f p l ls tidy at short = elim (Bool-cases p.scanned) [
  | inl yes' ↦ yes'
  | inr gone ↦ absurd (let empty' : l ∷ ls ≡ [] = sym at ∙ (tidy.0 gone short).0 in cc (empty'))
]

Tidy-closed : (f : Bool) (p : Pipe) → Tidy f p → f ≡ true → p.held_open ≡ false
unfolding Tidy
Tidy-closed f p (gone, early, late) yes' = late yes'

emits-Moves :
    (s : Exec) (e : Event) (es : List Event) → s.ended ≡ false → s.events ≡ e ∷ es → Moves s
unfolding turn
emits-Moves s e es on at = record {
  by = emits;
  next = record s { events = es; response = s.response ++ e ∷ [] };
  taken = rw (at, on) refl;
  less = rw at (omega arith);
  same = refl;
}

closes_pipes-Moves : (s : Exec) → is_none s.done ≡ false → s.finished ≡ false → Moves s
unfolding turn
closes_pipes-Moves s done on = record {
  by = closes_pipes;
  next = record s { finished = true; out = shut s.out; errors = shut s.errors };
  taken = rw (done, on) refl;
  less = rw on (omega arith);
  same = refl;
}

scan_out-Moves :
    (s : Exec) (l : Bytes) (ls : List Bytes)
    → Sane s
    → s.events ≡ []
    → s.out.lines ≡ l ∷ ls
    → are_short s.out.lines ≡ true
    → Moves s
unfolding turn
scan_out-Moves s l ls sane quiet at short = record {
  by = scans stdout;
  next = record s {
    out = record s.out { lines = ls };
    events = s.events ++ line stdout (drop_cr l) ∷ [];
  };
  taken =
      rw
        (
          at,
          Tidy-read s.finished s.out l ls sane.out at short,
          first_short l ls s.out.lines at short,
          quiet,
        )
        refl;
  less = rw (at, quiet) (omega arith);
  same = refl;
}

scan_errors-Moves :
    (s : Exec) (l : Bytes) (ls : List Bytes)
    → Sane s
    → s.events ≡ []
    → s.errors.lines ≡ l ∷ ls
    → are_short s.errors.lines ≡ true
    → Moves s
unfolding turn
scan_errors-Moves s l ls sane quiet at short = record {
  by = scans stderr;
  next = record s {
    errors = record s.errors { lines = ls };
    events = s.events ++ line stderr (drop_cr l) ∷ [];
  };
  taken =
      rw
        (
          at,
          Tidy-read s.finished s.errors l ls sane.errors at short,
          first_short l ls s.errors.lines at short,
          quiet,
        )
        refl;
  less = rw (at, quiet) (omega arith);
  same = refl;
}

scan_out_end-Moves :
    (s : Exec) → s.out.lines ≡ [] → s.out.scanned ≡ true → s.out.held_open ≡ false → Moves s
unfolding turn
scan_out_end-Moves s at read closed = record {
  by = closes_scan stdout;
  next = record s { out = record s.out { scanned = false } };
  taken = rw (at, read, closed) refl;
  less = rw read (omega arith);
  same = refl;
}

scan_errors_end-Moves :
    (s : Exec)
    → s.errors.lines ≡ []
    → s.errors.scanned ≡ true
    → s.errors.held_open ≡ false
    → Moves s
unfolding turn
scan_errors_end-Moves s at read closed = record {
  by = closes_scan stderr;
  next = record s { errors = record s.errors { scanned = false } };
  taken = rw (at, read, closed) refl;
  less = rw read (omega arith);
  same = refl;
}

some-is_none : (d : Option ℤ) → is_none d ≡ false → (c : ℤ) × (d ≡ some c)
some-is_none none h = absurd (cc (h))
some-is_none (some c) h = (c, refl)

closes_events-Moves :
    (s : Exec)
    → is_none s.done ≡ false
    → s.finished ≡ true
    → s.final ≡ none
    → s.out.scanned ≡ false
    → s.errors.scanned ≡ false
    → Moves s
unfolding turn
closes_events-Moves s done yes' unsent a b =
    let (c, known) = some-is_none s.done done in
    record {
      by = closes_events;
      next = record s { final = s.done };
      taken = rw (yes', unsent, a, b) refl;
      less = rw (unsent, known) (omega arith);
      same = refl;
    }

emits_exit-Moves : (s : Exec) (c : ℤ) → s.events ≡ [] → s.final ≡ some c → s.ended ≡ false → Moves s
unfolding turn
emits_exit-Moves s c quiet sent on = record {
  by = emits_exit;
  next = record s { response = s.response ++ exit c ∷ []; ended = true };
  taken = rw (quiet, sent, on) refl;
  less = rw on (omega arith);
  same = refl;
}

-- With no line in the pipes, no event left, and the pipes closed.
drained-Moves :
    (s : Exec)
    → Sane s
    → is_none s.done ≡ false
    → s.ended ≡ false
    → s.events ≡ []
    → s.out.lines ≡ []
    → s.errors.lines ≡ []
    → s.finished ≡ true
    → Moves s
drained-Moves s sane done on quiet a b yes' = elim (Bool-cases s.out.scanned) [
  | inl read ↦ scan_out_end-Moves s a read (Tidy-closed s.finished s.out sane.out yes')
  | inr out_over ↦ elim (Bool-cases s.errors.scanned) [
    | inl read ↦ scan_errors_end-Moves s b read (Tidy-closed s.finished s.errors sane.errors yes')
    | inr errors_over ↦ elim (Option-cases s.final) [
      | inl unsent ↦ closes_events-Moves s done yes' unsent out_over errors_over
      | inr (c, sent) ↦ emits_exit-Moves s c quiet sent on
    ]
  ]
]

List-cases : {A : Type 0} (xs : List A) → (xs ≡ []) ⊎ ((x : A) × (rest : List A) × (xs ≡ x ∷ rest))
List-cases [] = inl refl
List-cases (x ∷ xs) = inr (x, xs, refl)

pub Sane-Moves : (s : Exec) → Sane s → is_none s.done ≡ false → s.ended ≡ false → Moves s
Sane-Moves s sane done on = elim (List-cases s.events) [
  | inr (e, es, at) ↦ emits-Moves s e es on at
  | inl quiet ↦ elim (List-cases s.out.lines) [
    | inr (l, ls, at) ↦ scan_out-Moves s l ls sane quiet at (sane.short done).0
    | inl a ↦ elim (List-cases s.errors.lines) [
      | inr (l, ls, at) ↦ scan_errors-Moves s l ls sane quiet at (sane.short done).1
      | inl b ↦ elim (Bool-cases s.finished) [
        | inr open' ↦ closes_pipes-Moves s done open'
        | inl yes' ↦ drained-Moves s sane done on quiet a b yes'
      ]
    ]
  ]
]
