-- ===== src/Juicefs/Http.antt =====
-- pkg/juicefs/console.go: a request to the console (runHttpRequestRaw), with the timeout as one of the
-- errors of the client.
pub mod Answers
use dfs_csi.Prelude.{String, Bool, leb}
use dfs_csi.System.{System, Code, Failure, Request, ok, err}
use dfs_csi.System.Io.{Io, fail, attempt, lift, http, ◌>>=◌, on_result, branch}

-- The body is read also where the status is an error, whose error then stays.
unfoldable pub run_http_request_raw : System → Request → Io String
run_http_request_raw sys req = do
  r ← attempt (http sys req)
  on_result r
      (λ resp.
        branch (leb 400 resp.status_code)
          (fail (Failure.status Code.internal "Request console failed: status")) (lift resp.body))
      (λ e. fail (Failure.status Code.internal "Reqest console failed"))
