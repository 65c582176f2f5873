-- ===== src/Api/Requests.antt =====
-- internal/remote/client.go: the requests of the client.
use gmux.Prelude.{true, [], ◌∷◌, ◌++◌, codes}
use gmux.Fence.Bytes.{Bytes}
use gmux.Api.Routes.{
  Method, get, post, put, delete, HttpRequest, Action, bearer, list_jobs, list_cards, report_usage,
  create_session, list_missing, stop_job, resize_job, delete_session, apply_session, exec_session,
  fetch_session, put_blob,
}

pub data ClientCall : Type 0 where
  ensure_session list_the_cards list_the_jobs report : ClientCall
  send_manifest send_apply exec pull drop_session : Bytes → ClientCall
  upload stop resize : Bytes → ClientCall

abbrev session_path : Bytes → Bytes → Bytes
session_path id verb = codes "/v1/sessions/" ++ id ++ 47 ∷ verb

-- The method and the path of a call.
abbrev pub method_of : ClientCall → Method
method_of ensure_session = post
method_of list_the_cards = get
method_of list_the_jobs = get
method_of report = get
method_of (send_manifest id) = post
method_of (send_apply id) = post
method_of (exec id) = post
method_of (pull id) = post
method_of (drop_session id) = delete
method_of (upload sha) = put
method_of (stop id) = delete
method_of (resize id) = post

abbrev pub path_of : ClientCall → Bytes
path_of ensure_session = codes "/v1/sessions"
path_of list_the_cards = codes "/v1/cards"
path_of list_the_jobs = codes "/v1/jobs"
path_of report = codes "/v1/usage"
path_of (send_manifest id) = session_path id (codes "manifest")
path_of (send_apply id) = session_path id (codes "apply")
path_of (exec id) = session_path id (codes "exec")
path_of (pull id) = session_path id (codes "fetch")
path_of (drop_session id) = codes "/v1/sessions/" ++ id
path_of (upload sha) = codes "/v1/blobs/" ++ sha
path_of (stop id) = codes "/v1/jobs/" ++ id
path_of (resize id) = codes "/v1/jobs/" ++ id ++ codes "/resize"

-- `req`: no header without a token.
abbrev pub header_of : Bytes → Bytes
header_of [] = []
header_of (c ∷ token) = bearer (c ∷ token)

unfoldable pub request : Bytes → ClientCall → HttpRequest
request token call = record {
  method = method_of call;
  path = path_of call;
  authorization = header_of token;
  decodes = true;
}

-- What the client means.
unfoldable pub meant : ClientCall → Action
meant ensure_session = create_session
meant list_the_cards = list_cards
meant list_the_jobs = list_jobs
meant report = report_usage
meant (send_manifest id) = list_missing
meant (send_apply id) = apply_session id
meant (exec id) = exec_session id
meant (pull id) = fetch_session id
meant (drop_session id) = delete_session id
meant (upload sha) = put_blob sha
meant (stop id) = stop_job id
meant (resize id) = resize_job id
