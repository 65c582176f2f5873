-- ===== src/Api/Printing.antt =====
-- internal/api/remote.go with internal/remote/client.go: the client prints what the job has written.
use gmux.Prelude.{
  ◌≡◌, refl, sym, ◌∙◌, ap, subst, List, [], ◌∷◌, ◌++◌, Option, none, some, append_assoc, append-nil,
  Option-cases, inl, inr,
}
use gmux.Api.Stream.{Kind, Exec, begin_exec, Turn, turn, turns}
use gmux.Api.Streaming.{Then, Carries, seen, written, written_in, end_of, texts, texts-append}
use gmux.Api.Ending.{Tidy, Sane}
use gmux.Api.Taking.{turn-Sane}
use gmux.Api.Carrying.{turn-Carries}

-- What holds after some turns.
pub record Reached (ts : List Turn) (s next : Exec) : Type 0 where
  pub sane : Sane next
  pub lines : (k : Kind) → seen k next ≡ seen k s ++ texts (written k ts)
  pub end : next.done ≡ end_of s.done ts

pub Then-imp :
    {P Q : Exec → Type 0} (o : Option Exec) → ((s : Exec) → P s → Q s) → Then P o → Then Q o
Then-imp none f h = tt
Then-imp (some s) f h = f s h

Reached-cons :
    (t : Turn) (ts : List Turn) (s next last : Exec)
    → Carries t s next
    → Reached ts next last
    → Reached (t ∷ ts) s last
unfolding written end_of
Reached-cons t ts s next last first rest = record {
  sane = rest.sane;
  lines = λ k.
      rest.lines k
      ∙ ap (λ x. x ++ texts (written k ts)) (first.lines k)
      ∙ append_assoc (seen k s) (texts (written_in k t)) (texts (written k ts))
      ∙ ap (λ x. seen k s ++ x) (sym (texts-append (written_in k t) (written k ts)));
  end = rest.end ∙ ap (λ d. end_of d ts) first.end;
}

pub turns-Reached : (ts : List Turn) (s : Exec) → Sane s → Then (Reached ts s) (turns ts s)
unfolding turns written end_of texts
turns-Reached [] s sane = record {
  sane = sane;
  lines = λ k. sym (append-nil (seen k s));
  end = refl;
}
turns-Reached (t ∷ ts) s sane = elim (Option-cases (turn t s)) [
  | inl wait ↦ rw (wait, turns) tt
  | inr (next, e) ↦
      let first : Carries t s next = subst (Then (Carries t s)) e (turn-Carries t s) in
      let sane' : Sane next = subst (Then Sane) e (turn-Sane t s sane) in
      rw (e, turns)
        (Then-imp (turns ts next) (λ last. Reached-cons t ts s next last first)
          (turns-Reached ts next sane'))
]

pub begin_exec-Sane : Sane (begin_exec none)
unfolding begin_exec Tidy
begin_exec-Sane = record {
  out = ((λ e h. cc (e)), (λ e. cc (e)), (λ e. cc (e)));
  errors = ((λ e h. cc (e)), (λ e. cc (e)), (λ e. cc (e)));
  short = λ e. cc (e);
  finished = λ e. cc (e);
  final = λ c e. absurd (cc (e));
  calm = tt;
  response = λ e. (tt, tt);
  finale = λ e. absurd (cc (e));
}
