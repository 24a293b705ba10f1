-- ===== src/Tests/Managing.antt =====
-- The managers and the requests to the console at concrete inputs.
use dfs_csi.Prelude.{◌≡◌, ◌<◌, ◌↔◌, refl, [], ◌∷◌}
use dfs_csi.System.{Event, Method, Request, Response, Trace, ok}
use dfs_csi.System.Io.{done, manage, ◌>>=◌, ◌>>◌}
use dfs_csi.Juicefs.Http.{run_http_request_raw}
use dfs_csi.Juicefs.Http.Answers.{run_http_request_raw_iff}
use dfs_csi.Commands.{started}
use dfs_csi.Commands.WarmUp.{
  default_flags, or_exit, init_client_go, setup_cache_reconciler, run_warm_up,
}
use dfs_csi.Commands.WarmUp.Order.{IsSetUp, run_warm_up-IsSetUp}
use dfs_csi.Tests.{calm}

ran : (u : Trace) × (run_warm_up calm default_flags [] ≡ done (started tt) u)
unfolding run_warm_up or_exit init_client_go setup_cache_reconciler manage ◌>>=◌ ◌>>◌
ran = (_, refl)

run_warm_up-IsSetUp_example : IsSetUp calm default_flags [] ran.0
run_warm_up-IsSetUp_example = run_warm_up-IsSetUp calm default_flags [] ran.0 ran.1

abbrev asking : Request
asking = record { method = Method.get; url = "http://console/api/v1/volumes?token=t"; body = "" }

abbrev answer : Response
answer = record { status_code = 200; body = ok "" }

run_http_request_raw_iff_example :
    (run_http_request_raw calm asking [] ≡ done "" (Event.requested asking (ok answer) ∷ [])) ↔ (
      (resp : Response) × (calm.http [] asking ≡ ok resp)
      × (resp.status_code < 400)
      × (resp.body ≡ ok "")
      × (Event.requested asking (ok answer) ∷ [] ≡ Event.requested asking (ok resp) ∷ []))
run_http_request_raw_iff_example =
    run_http_request_raw_iff calm asking "" [] (Event.requested asking (ok answer) ∷ [])
