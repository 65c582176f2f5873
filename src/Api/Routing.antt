-- ===== src/Api/Routing.antt =====
-- internal/api with internal/remote: the server does what the client asks.
use gmux.Prelude.{
  subst, not, zero, suc, ℕ, ◌+◌, ◌-◌, ◌==◌, ◌≡◌, ◌≢◌, ◌<◌, refl, ap, Bool, true, false, ◌&&◌, [],
  ◌∷◌, ◌++◌, arith, All, length, length-append, drop, codes, inl, inr, Bool-cases, ltb, leb,
}
use gmux.Fence.Bytes.{
  Bytes, eq_bytes, eq_bytes_refl, eq_bytes→eq, has_prefix, has_suffix, to_lower, take-length_append,
}
use gmux.Fence.Allowlist.{has_suffix-append}
use gmux.Api.Routes.{
  stop_job, resize_job, post, delete, Server, HttpRequest, serve, serve_job, before_slash,
  behind_slash, is_open, mux, serve_handler, session_verb, equal_fold, bearer,
}
use gmux.Api.Requests.{
  ClientCall, ensure_session, list_the_cards, list_the_jobs, report, send_manifest, send_apply,
  exec, pull, drop_session, upload, stop, resize, request, meant, header_of, path_of,
}

-- What a URL keeps as it is, within one part of its path.
abbrev pub IsOrdinary : ℕ → Type 0
IsOrdinary c = All (λ special. c ≢ special) (codes "/.?#%") × (32 < c) × (c < 127)

abbrev pub IsPart : Bytes → Type 0
IsPart id = (0 < length id) × All IsOrdinary id

abbrev NoSlash : Bytes → Type 0
NoSlash = All (λ c. c ≢ 47)

IsPart-NoSlash : (id : Bytes) → All IsOrdinary id → NoSlash id
IsPart-NoSlash [] h = tt
IsPart-NoSlash (c ∷ id) h = (h.0.0.0, IsPart-NoSlash id h.1)

-- The id of a call is one part of a path.
abbrev pub IsPlain : ClientCall → Type 0
IsPlain (send_manifest id) = IsPart id
IsPlain (send_apply id) = IsPart id
IsPlain (exec id) = IsPart id
IsPlain (pull id) = IsPart id
IsPlain (drop_session id) = IsPart id
IsPlain (stop id) = IsPart id
IsPlain (resize id) = IsPart id
IsPlain (upload sha) = IsPart sha
IsPlain call = Unit {0}

slash-false : (c : ℕ) → c ≢ 47 → (c == 47) ≡ false
slash-false c h = ground (arith, h)

before_slash-append : (id s : Bytes) → NoSlash id → before_slash (id ++ 47 ∷ s) ≡ id
unfolding before_slash
before_slash-append [] s h = refl
before_slash-append (c ∷ id) s h =
    rw (slash-false c h.0) (ap (λ t. c ∷ t) (before_slash-append id s h.1))

behind_slash-append : (id s : Bytes) → NoSlash id → behind_slash (id ++ 47 ∷ s) ≡ s
unfolding behind_slash
behind_slash-append [] s h = refl
behind_slash-append (c ∷ id) s h = rw (slash-false c h.0) (behind_slash-append id s h.1)

slashless : (id : Bytes) → NoSlash id → (before_slash id ≡ id) × (behind_slash id ≡ [])
unfolding before_slash behind_slash
slashless [] h = (refl, refl)
slashless (c ∷ id) h =
    let (first, rest) = slashless id h.1 in
    (rw (slash-false c h.0) (ap (λ t. c ∷ t) first), rw (slash-false c h.0) rest)

NoSlash-drop : (n : ℕ) (id : Bytes) → NoSlash id → NoSlash (drop n id)
NoSlash-drop zero id h = h
NoSlash-drop (suc n) [] h = tt
NoSlash-drop (suc n) (c ∷ id) h = NoSlash-drop n id h.1

&&-false : (b : Bool) → (b && false) ≡ false
&&-false true = refl
&&-false false = refl

has_suffix-NoSlash : (id : Bytes) → NoSlash id → has_suffix id (codes "/resize") ≡ false
unfolding has_suffix
has_suffix-NoSlash id h = elim (Bool-cases (eq_bytes (drop (length id - 7) id) (codes "/resize"))) [
  | inl same ↦
      let slash = eq_bytes→eq (drop (length id - 7) id) (codes "/resize") same in
      let no' : NoSlash (codes "/resize") =
        subst NoSlash slash (NoSlash-drop (length id - 7) id h) in
      absurd (no'.0 refl)
  | inr other ↦ rw other (&&-false (leb 7 (length id)))
]

stop-job :
    (id : Bytes) (r : HttpRequest) → r.method ≡ delete → NoSlash id → serve_job r id ≡ stop_job id
unfolding serve_job
stop-job id r m h = elim (Bool-cases (ltb 7 (length id))) [
  | inl long ↦ rw (long, has_suffix-NoSlash id h) (rw m refl)
  | inr short ↦ rw short (rw m refl)
]

resize-job :
    (id : Bytes) (r : HttpRequest)
    → r.method ≡ post
    → r.decodes ≡ true
    → 0 < length id
    → serve_job r (id ++ codes "/resize") ≡ resize_job id
unfolding serve_job
resize-job id r m d h =
    let cut : length id + 7 - 7 ≡ length id = omega arith in
    let more : ltb 7 (length id + 7) ≡ true = ground (arith, h) in
    rw
      (
        has_suffix-append id (codes "/resize"),
        length-append id (codes "/resize"),
        cut,
        more,
        take-length_append id (codes "/resize"),
      )
      (rw (m, d) refl)

admitted :
    (token : Bytes)
    → (not (is_open token) && not (equal_fold (header_of token) (bearer token))) ≡ false
unfolding equal_fold
admitted [] = refl
admitted (c ∷ token) = rw (eq_bytes_refl (to_lower (bearer (c ∷ token)))) refl

routed :
    (s : Server) (call : ClientCall)
    → s.sessions ≡ true
    → IsPlain call
    → serve_handler s (request s.token call) (mux (path_of call)) ≡ meant call
unfolding request serve_handler mux session_verb meant eq_bytes has_prefix
routed s ensure_session on plain = rw on refl
routed s list_the_cards on plain = refl
routed s list_the_jobs on plain = refl
routed s report on plain = refl
routed s (send_manifest id) on plain =
    rw
      (
        on,
        before_slash-append id (codes "manifest") (IsPart-NoSlash id plain.1),
        behind_slash-append id (codes "manifest") (IsPart-NoSlash id plain.1),
      )
      refl
routed s (send_apply id) on plain =
    rw
      (
        on,
        before_slash-append id (codes "apply") (IsPart-NoSlash id plain.1),
        behind_slash-append id (codes "apply") (IsPart-NoSlash id plain.1),
      )
      refl
routed s (exec id) on plain =
    rw
      (
        on,
        before_slash-append id (codes "exec") (IsPart-NoSlash id plain.1),
        behind_slash-append id (codes "exec") (IsPart-NoSlash id plain.1),
      )
      refl
routed s (pull id) on plain =
    rw
      (
        on,
        before_slash-append id (codes "fetch") (IsPart-NoSlash id plain.1),
        behind_slash-append id (codes "fetch") (IsPart-NoSlash id plain.1),
      )
      refl
routed s (drop_session id) on plain =
    let (first, rest) = slashless id (IsPart-NoSlash id plain.1) in rw (on, first, rest) refl
routed s (upload sha) on plain = rw on refl
routed s (stop id) on plain =
    stop-job id (request s.token (stop id)) refl (IsPart-NoSlash id plain.1)
routed s (resize id) on plain = resize-job id (request s.token (resize id)) refl refl plain.0

-- A server with the client's token and a store of sessions does for each request of the client what
-- the client means by it, with the id that it gives, if every such id is one part of a path.
pub serve-request :
    (s : Server) (call : ClientCall)
    → s.sessions ≡ true
    → IsPlain call
    → serve s (request s.token call) ≡ meant call
unfolding serve request
serve-request s call on plain = rw (admitted s.token) (routed s call on plain)
