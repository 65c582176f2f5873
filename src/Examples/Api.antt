-- ===== src/Examples/Api.antt =====
-- internal/api: a client stops a job.
use gmux.Prelude.{true, refl, ◌≡◌, codes, arith}
use gmux.Api.Routes.{Server, serve, stop_job, status}
use gmux.Api.Requests.{request, meant, stop, exec}
use gmux.Api.Routing.{serve-request}

abbrev host : Server
host = record { token = codes "k3"; sessions = true }

serve-request_example :
    serve host (request (codes "k3") (stop (codes "j12"))) ≡ stop_job (codes "j12")
unfolding meant
serve-request_example = serve-request host (stop (codes "j12")) refl (ground arith)

-- A client without the token is refused.
refused : serve host (request (codes "k4") (exec (codes "s1"))) ≡ status 401
unfolding serve request
refused = refl

-- The letters' case in the token does not count.
folded : serve host (request (codes "K3") (stop (codes "j12"))) ≡ stop_job (codes "j12")
unfolding serve request
folded = refl
