-- ===== src/Api/Streaming.antt =====
-- internal/api/remote.go: no turn loses, doubles or reorders a line of a job.
use gmux.Prelude.{
  ◌≡◌, refl, sym, ◌∙◌, ap, List, [], ◌∷◌, ◌++◌, Option, none, some, append_assoc, append-nil,
}
use gmux.Prelude.Int.{ℤ}
use gmux.Fence.Bytes.{Bytes}
use gmux.Api.Text.{drop_cr}
use gmux.Api.Stream.{Kind, stdout, stderr, Event, line, exit, Exec, pipe_of, Turn, writes, job_ends}

-- What one event says on one of the two outputs.
abbrev pub line_of : Kind → Event → List Bytes
line_of stdout (line stdout l) = l ∷ []
line_of stderr (line stderr l) = l ∷ []
line_of k e = []

unfoldable pub lines_of : Kind → List Event → List Bytes
lines_of k [] = []
lines_of k (e ∷ es) = line_of k e ++ lines_of k es

-- What a job has written in some turns, and how it ended.
abbrev pub written_in : Kind → Turn → List Bytes
written_in stdout (writes stdout l) = l ∷ []
written_in stderr (writes stderr l) = l ∷ []
written_in k t = []

unfoldable pub written : Kind → List Turn → List Bytes
written k [] = []
written k (t ∷ ts) = written_in k t ++ written k ts

abbrev pub end_in : Turn → Option ℤ → Option ℤ
end_in (job_ends c) d = some c
end_in t d = d

unfoldable pub end_of : Option ℤ → List Turn → Option ℤ
end_of d [] = d
end_of d (t ∷ ts) = end_of (end_in t d) ts

pub lines_of-append :
    (k : Kind) (es fs : List Event) → lines_of k (es ++ fs) ≡ lines_of k es ++ lines_of k fs
unfolding lines_of
lines_of-append k [] fs = refl
lines_of-append k (e ∷ es) fs =
    ap (λ t. line_of k e ++ t) (lines_of-append k es fs) ∙ sym (append_assoc (line_of k e) _ _)

-- The lines as the scanner gives them.
unfoldable pub texts : List Bytes → List Bytes
unfolding drop_cr
texts [] = []
texts (l ∷ ls) = drop_cr l ∷ texts ls

pub texts-append : (ls ms : List Bytes) → texts (ls ++ ms) ≡ texts ls ++ texts ms
unfolding texts
texts-append [] ms = refl
texts-append (l ∷ ls) ms = ap (λ t. drop_cr l ∷ t) (texts-append ls ms)

-- The lines that have come into the pipe, wherever they are now.
unfoldable pub seen : Kind → Exec → List Bytes
unfolding lines_of texts
seen k s = lines_of k s.response ++ (lines_of k s.events ++ texts (pipe_of k s).lines)

abbrev pub Then : (Exec → Type 0) → Option Exec → Type 0
Then P none = Unit {0}
Then P (some s) = P s

-- A turn adds what the job writes in it, and ends the job if it is its end.
pub record Carries (t : Turn) (s next : Exec) : Type 0 where
  pub lines : (k : Kind) → seen k next ≡ seen k s ++ texts (written_in k t)
  pub end : next.done ≡ end_in t s.done

pub carries :
    {t : Turn} {s next : Exec}
    → seen stdout next ≡ seen stdout s ++ texts (written_in stdout t)
    → seen stderr next ≡ seen stderr s ++ texts (written_in stderr t)
    → next.done ≡ end_in t s.done
    → Carries t s next
carries {t} {s} {next} a b end = record {
  lines = λ k. elim k as (λ k. seen k next ≡ seen k s ++ texts (written_in k t)) [
    | stdout ↦ a
    | stderr ↦ b
  ];
  end = end;
}

pub kept : (k : Kind) (s : Exec) → seen k s ≡ seen k s ++ []
kept k s = sym (append-nil (seen k s))

pub appended :
    (r e p : List Bytes) (l : Bytes)
    → r ++ (e ++ texts (p ++ l ∷ [])) ≡ (r ++ (e ++ texts p)) ++ drop_cr l ∷ []
unfolding texts
appended r e p l =
    ap (λ t. r ++ (e ++ t)) (texts-append p (l ∷ []))
    ∙ ap (λ t. r ++ t) (sym (append_assoc e (texts p) (drop_cr l ∷ [])))
    ∙ sym (append_assoc r (e ++ texts p) (drop_cr l ∷ []))

-- A line goes from the pipe to the events.
scanned-own :
    (k : Kind) (es : List Event) (e : Event) (l : Bytes) (ls : List Bytes)
    → line_of k e ≡ l ∷ []
    → lines_of k (es ++ e ∷ []) ++ ls ≡ lines_of k es ++ l ∷ ls
unfolding lines_of
scanned-own k es e l ls own =
    ap (λ t. t ++ ls) (lines_of-append k es (e ∷ []))
    ∙ append_assoc (lines_of k es) (line_of k e ++ []) ls
    ∙ ap (λ t. lines_of k es ++ ((t ++ []) ++ ls)) own

scanned-other :
    (k : Kind) (es : List Event) (e : Event)
    → line_of k e ≡ []
    → lines_of k (es ++ e ∷ []) ≡ lines_of k es
unfolding lines_of
scanned-other k es e other =
    lines_of-append k es (e ∷ [])
    ∙ ap (λ t. lines_of k es ++ (t ++ [])) other
    ∙ append-nil (lines_of k es)

-- An event goes from the channel to the response.
emitted :
    (k : Kind) (r es : List Event) (e : Event) (ls : List Bytes)
    → lines_of k (r ++ e ∷ []) ++ (lines_of k es ++ ls)
      ≡ lines_of k r ++ (lines_of k (e ∷ es) ++ ls)
unfolding lines_of
emitted k r es e ls =
    ap (λ t. t ++ (lines_of k es ++ ls))
      (lines_of-append k r (e ∷ []) ∙ ap (λ t. lines_of k r ++ t) (append-nil (line_of k e)))
    ∙ append_assoc (lines_of k r) (line_of k e) (lines_of k es ++ ls)
    ∙ ap (λ t. lines_of k r ++ t) (sym (append_assoc (line_of k e) (lines_of k es) ls))

pub moved :
    (k : Kind) (r es : List Event) (p : List Bytes) (e : Event) (l : Bytes) (ls : List Bytes)
    → p ≡ l ∷ ls
    → line_of k e ≡ l ∷ []
    → lines_of k r ++ (lines_of k (es ++ e ∷ []) ++ ls)
      ≡ (lines_of k r ++ (lines_of k es ++ p)) ++ []
moved k r es p e l ls at own =
    ap (λ t. lines_of k r ++ t)
      (scanned-own k es e l ls own ∙ ap (λ t. lines_of k es ++ t) (sym at))
    ∙ sym (append-nil (lines_of k r ++ (lines_of k es ++ p)))

pub passed_by :
    (k : Kind) (r es : List Event) (p : List Bytes) (e : Event)
    → line_of k e ≡ []
    → lines_of k r ++ (lines_of k (es ++ e ∷ []) ++ p)
      ≡ (lines_of k r ++ (lines_of k es ++ p)) ++ []
passed_by k r es p e other =
    ap (λ t. lines_of k r ++ (t ++ p)) (scanned-other k es e other)
    ∙ sym (append-nil (lines_of k r ++ (lines_of k es ++ p)))

pub answered :
    (k : Kind) (r es all : List Event) (e : Event) (p : List Bytes)
    → all ≡ e ∷ es
    → lines_of k (r ++ e ∷ []) ++ (lines_of k es ++ p)
      ≡ (lines_of k r ++ (lines_of k all ++ p)) ++ []
answered k r es all e p at =
    emitted k r es e p
    ∙ ap (λ t. lines_of k r ++ (lines_of k t ++ p)) (sym at)
    ∙ sym (append-nil (lines_of k r ++ (lines_of k all ++ p)))

pub concluded :
    (k : Kind) (r : List Event) (c : ℤ) (rest : List Bytes)
    → line_of k (exit c) ≡ []
    → lines_of k (r ++ exit c ∷ []) ++ rest ≡ (lines_of k r ++ rest) ++ []
concluded k r c rest quiet =
    ap (λ t. t ++ rest) (scanned-other k r (exit c) quiet) ∙ sym (append-nil (lines_of k r ++ rest))
