-- ===== src/Api/Receiving.antt =====
-- internal/remote/client.go: what the client makes of a stream that ends with an exit code.
use gmux.Prelude.{
  ◌≡◌, refl, ◌∙◌, ap, true, All, List, [], ◌∷◌, ◌++◌, none, append_assoc, ◌<◌, ltb, arith,
  append-nil,
}
use gmux.Prelude.Int.{ℤ}
use gmux.Fence.Bytes.{Bytes}
use gmux.Api.Text.{coerce, line_size}
use gmux.Api.Stream.{
  Kind, stdout, stderr, Event, running, line, exit, failure, garbled, Printed, print, client_limit,
  receive,
}
use gmux.Api.Streaming.{lines_of}
use gmux.Api.Ending.{IsCalm}

-- A text whose event the client's scanner takes.
abbrev pub IsRead : Bytes → Type 0
unfolding line_size
IsRead l = line_size l < client_limit

-- What the client prints of the texts that it is sent.
unfoldable pub prints : List Bytes → List Bytes
unfolding coerce
prints [] = []
prints (l ∷ ls) = coerce l ∷ prints ls

-- The texts of one output are read.
abbrev pub AreRead : List Event → Type 0
AreRead es = (k : Kind) → All IsRead (lines_of k es)

AreRead-out : (l : Bytes) (es : List Event) → AreRead (line stdout l ∷ es) → AreRead es
unfolding lines_of
AreRead-out l es h stdout = (h stdout).1
AreRead-out l es h stderr = h stderr

AreRead-errors : (l : Bytes) (es : List Event) → AreRead (line stderr l ∷ es) → AreRead es
unfolding lines_of
AreRead-errors l es h stdout = h stdout
AreRead-errors l es h stderr = (h stderr).1

AreRead-running : (es : List Event) → AreRead (running ∷ es) → AreRead es
unfolding lines_of
AreRead-running es h stdout = h stdout
AreRead-running es h stderr = h stderr

-- The client's loop on a calm stream with the exit code at its end.
pub receive-calm :
    (es : List Event) (c : ℤ) (p : Printed)
    → All IsCalm es
    → AreRead es
    → receive (es ++ exit c ∷ []) p ≡ (
      record {
        out = p.out ++ prints (lines_of stdout es);
        errors = p.errors ++ prints (lines_of stderr es);
        code = c;
      },
      none,
    )
unfolding receive lines_of prints
receive-calm [] c p calm short = rw (append-nil p.out, append-nil p.errors) refl
receive-calm (running ∷ es) c p calm short = receive-calm es c p calm.1 (AreRead-running es short)
receive-calm (line stdout l ∷ es) c p calm short =
    let read : ltb (line_size l) client_limit ≡ true =
      (let h : line_size l < client_limit = (short stdout).0 in ground (arith, h)) in
    rw read (
      receive-calm es c (print stdout (coerce l) p) calm.1 (AreRead-out l es short)
      ∙ ap
          (λ o.
            (record { out = o; errors = p.errors ++ prints (lines_of stderr es); code = c }, none))
          (append_assoc p.out (coerce l ∷ []) (prints (lines_of stdout es))))
receive-calm (line stderr l ∷ es) c p calm short =
    let read : ltb (line_size l) client_limit ≡ true =
      (let h : line_size l < client_limit = (short stderr).0 in ground (arith, h)) in
    rw read (
      receive-calm es c (print stderr (coerce l) p) calm.1 (AreRead-errors l es short)
      ∙ ap
          (λ o. (record { out = p.out ++ prints (lines_of stdout es); errors = o; code = c }, none))
          (append_assoc p.errors (coerce l ∷ []) (prints (lines_of stderr es))))
receive-calm (exit d ∷ es) c p calm short = absurd calm.0
receive-calm (failure m ∷ es) c p calm short = absurd calm.0
receive-calm (garbled ∷ es) c p calm short = absurd calm.0
