-- ===== src/Api/Concluding.antt =====
-- internal/api/remote.go: after the end of the job the stream can always come to its end.
use gmux.Prelude.{
  ℕ, zero, suc, ◌<◌, ◌≡◌, refl, ◌∙◌, subst, true, false, List, [], ◌∷◌, none, some, Bool-cases,
  arith, inl, inr,
}
use gmux.Prelude.Int.{ℤ}
use gmux.Api.Stream.{Exec, begin_exec, is_none, Turn, turns}
use gmux.Api.Streaming.{Then, end_of}
use gmux.Api.Ending.{Sane}
use gmux.Api.Taking.{turn-Sane}
use gmux.Api.Printing.{Reached, turns-Reached, begin_exec-Sane}
use gmux.Api.Moving.{Sane-Moves, weight}

-- Turns that bring a stream to its end.
abbrev pub Ends : Exec → Type 0
Ends s = (ts : List Turn) × (last : Exec) × (turns ts s ≡ some last) × (last.ended ≡ true)

Sane-Ends : (n : ℕ) (s : Exec) → Sane s → is_none s.done ≡ false → weight s < n → Ends s
unfolding turns
Sane-Ends zero s sane done h = elim h [ ]
Sane-Ends (suc n) s sane done h = elim (Bool-cases s.ended) [
  | inl yes' ↦ ([], s, refl, yes')
  | inr on ↦
      let m = Sane-Moves s sane done on in
      let sane' : Sane m.next = subst (Then Sane) m.taken (turn-Sane m.by s sane) in
      let (ts, last, run, over) =
        Sane-Ends n m.next sane' (rw m.same done) (omega (arith, h, m.less)) in
      (m.by ∷ ts, last, rw (m.taken, turns) run, over)
]

-- Once the job has ended, whatever turns were taken before, there are turns that bring the response
-- to its end: the goroutines never all wait for each other.
pub exec-Ends :
    (ts : List Turn) (s : Exec) (c : ℤ)
    → turns ts (begin_exec none) ≡ some s
    → end_of none ts ≡ some c
    → Ends s
unfolding begin_exec
exec-Ends ts s c run over =
    let reached : Reached ts (begin_exec none) s =
      subst (Then (Reached ts (begin_exec none))) run
        (turns-Reached ts (begin_exec none) begin_exec-Sane) in
    let known : s.done ≡ some c = reached.end ∙ over in
    Sane-Ends (suc (weight s)) s reached.sane (rw known refl) (omega arith)
