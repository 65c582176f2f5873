-- ===== src/Api/Routes.antt =====
-- internal/api/api.go and remote.go: which call of the daemon or of the store of sessions a request
-- leads to. A path is clean (the standard library redirects others) and without its query, and a
-- string is ASCII where its letters are compared without their case.
use gmux.Prelude.{
  ◌++◌, ℕ, ◌-◌, ◌==◌, Bool, true, false, not, ◌&&◌, [], ◌∷◌, if◌then◌else◌, ltb, length, take, drop,
  codes,
}
use gmux.Fence.Bytes.{Bytes, eq_bytes, has_prefix, has_suffix, to_lower}

pub data Method : Type 0 where
  get post put delete another : Method

-- `decodes` says whether the body is the JSON that the handler wants.
pub record HttpRequest : Type 0 where
  pub method : Method
  pub path : Bytes
  pub authorization : Bytes
  pub decodes : Bool

-- An empty token asks for none; `sessions` says whether there is a store of them.
pub record Server : Type 0 where
  pub token : Bytes
  pub sessions : Bool

-- What a handler calls, or the status that it answers without a call.
pub data Action : Type 0 where
  list_jobs submit list_cards report_usage report_health create_session list_missing : Action
  show_job stop_job resize_job : Bytes → Action
  delete_session apply_session exec_session fetch_session put_blob : Bytes → Action
  status : ℕ → Action

-- `mux.HandleFunc` in `New`.
pub data Handler : Type 0 where
  jobs job cards usage health sessions_create session blob not_found : Handler

unfoldable pub mux : Bytes → Handler
unfolding eq_bytes has_prefix
mux path =
    if eq_bytes path (codes "/v1/jobs")
    then jobs
    else if has_prefix path (codes "/v1/jobs/")
    then job
    else if eq_bytes path (codes "/v1/cards")
    then cards
    else if eq_bytes path (codes "/v1/usage")
    then usage
    else if eq_bytes path (codes "/v1/health")
    then health
    else if eq_bytes path (codes "/v1/sessions")
    then sessions_create
    else if has_prefix path (codes "/v1/sessions/")
    then session
    else if has_prefix path (codes "/v1/blobs/")
    then blob
    else not_found

abbrev pub decoded : HttpRequest → Action → Action
decoded r a = if r.decodes then a else status 400

abbrev handle_jobs : Method → HttpRequest → Action
handle_jobs get r = list_jobs
handle_jobs post r = decoded r submit
handle_jobs m r = status 405

abbrev handle_resize : Method → HttpRequest → Bytes → Action
handle_resize post r id = decoded r (resize_job id)
handle_resize m r id = status 405

abbrev handle_job : Method → Bytes → Action
handle_job get id = show_job id
handle_job delete id = stop_job id
handle_job m id = status 405

-- The id behind "/v1/jobs/", which "/resize" may follow.
unfoldable pub serve_job : HttpRequest → Bytes → Action
unfolding has_suffix
serve_job r id =
    if ltb 7 (length id) && has_suffix id (codes "/resize")
    then handle_resize r.method r (take (length id - 7) id)
    else handle_job r.method id

-- What stands before the first slash, and behind it: `strings.SplitN(rest, "/", 2)`.
unfoldable pub before_slash : Bytes → Bytes
before_slash [] = []
before_slash (c ∷ s) = if c == 47 then [] else c ∷ before_slash s

unfoldable pub behind_slash : Bytes → Bytes
behind_slash [] = []
behind_slash (c ∷ s) = if c == 47 then s else behind_slash s

abbrev is_post : Method → Bool
is_post post = true
is_post m = false

abbrev is_delete : Method → Bool
is_delete delete = true
is_delete m = false

abbrev is_put : Method → Bool
is_put put = true
is_put m = false

-- The switch of `session`.
unfoldable pub session_verb : HttpRequest → Bytes → Bytes → Action
unfolding eq_bytes
session_verb r id verb =
    if eq_bytes verb [] && is_delete r.method
    then delete_session id
    else if eq_bytes verb (codes "manifest") && is_post r.method
    then decoded r list_missing
    else if eq_bytes verb (codes "apply") && is_post r.method
    then decoded r (apply_session id)
    else if eq_bytes verb (codes "exec") && is_post r.method
    then decoded r (exec_session id)
    else if eq_bytes verb (codes "fetch") && is_post r.method
    then fetch_session id
    else status 404

-- `requireSessions`: the status that is written first is the answer's.
abbrev pub required : Server → Action → Action
required s a = if s.sessions then a else status 501

unfoldable pub serve_handler : Server → HttpRequest → Handler → Action
unfolding serve_job before_slash behind_slash session_verb
serve_handler s r jobs = handle_jobs r.method r
serve_handler s r job = serve_job r (drop 9 r.path)
serve_handler s r cards = list_cards
serve_handler s r usage = report_usage
serve_handler s r health = report_health
serve_handler s r sessions_create =
    required s (if is_post r.method then create_session else status 405)
serve_handler s r session =
    let rest = drop 13 r.path in required s (session_verb r (before_slash rest) (behind_slash rest))
serve_handler s r blob =
    required s (if is_put r.method then put_blob (drop 10 r.path) else status 405)
serve_handler s r not_found = status 404

-- `strings.EqualFold`.
unfoldable pub equal_fold : Bytes → Bytes → Bool
unfolding to_lower eq_bytes
equal_fold a b = eq_bytes (to_lower a) (to_lower b)

abbrev pub bearer : Bytes → Bytes
bearer token = codes "Bearer " ++ token

abbrev pub is_open : Bytes → Bool
is_open [] = true
is_open (c ∷ token) = false

-- What a request that comes by TCP leads to: `handler` before the mux.
unfoldable pub serve : Server → HttpRequest → Action
unfolding mux serve_handler equal_fold
serve s r =
    if not (is_open s.token) && not (equal_fold r.authorization (bearer s.token))
    then status 401
    else serve_handler s r (mux r.path)
