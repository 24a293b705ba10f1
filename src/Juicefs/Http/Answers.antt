-- ===== src/Juicefs/Http/Answers.antt =====
-- Which answers of the console the code takes.
use dfs_csi.Prelude.{◌≡◌, ◌<◌, ◌↔◌, ◌∙◌, ap, String, ◌∷◌, arith}
use dfs_csi.System.{System, Event, Trace, Request, Response, Result, ok, err}
use dfs_csi.System.Io.{done, attempt, http, lift, fail, ◌>>=◌, on_result, branch}
use dfs_csi.System.Steps.{bind-done, on_result-done, branch-done}
use dfs_csi.Juicefs.Http.{run_http_request_raw}

module _ (sys : System) (req : Request) where
  asked :
      (r : Result Response) (t u : Trace)
      → attempt (http sys req) t ≡ done r u
      → (sys.http t req ≡ r) × (u ≡ Event.requested req r ∷ t)
  unfolding attempt http
  asked r t u eq = (grind arith, grind arith)

  read :
      (body : Result String) (text : String) (t u : Trace)
      → lift body t ≡ done text u
      → (body ≡ ok text) × (u ≡ t)
  unfolding lift
  read (ok b) text t u eq = (grind arith, grind arith)
  read (err e) text t u eq = absurd (cc)

  abbrev IsAnswered : String → Trace → Trace → Type 0
  IsAnswered text t u =
      (resp : Response) × (sys.http t req ≡ ok resp)
      × (resp.status_code < 400)
      × (resp.body ≡ ok text)
      × (u ≡ Event.requested req (ok resp) ∷ t)

  answer_of :
      (text : String) (t u : Trace)
      → run_http_request_raw sys req t ≡ done text u
      → IsAnswered text t u
  unfolding run_http_request_raw fail
  answer_of text t u eq = bind-done _ _ t text u eq λ r v tried looked.
      on_result-done r _ _ v text u looked
        (λ resp is_ok tested.
          branch-done _ _ _ v text u tested (λ _ bad. absurd (cc))
            λ small reads. (
              resp,
              (asked r t v tried).0 ∙ is_ok,
              ground (arith, small),
              (read resp.body text v u reads).0,
              (read resp.body text v u reads).1
                  ∙ (asked r t v tried).1
                  ∙ ap (λ q. Event.requested req q ∷ t) is_ok,
            ))
        (λ _ _ bad. absurd (cc))

  text_of :
      (text : String) (t u : Trace)
      → IsAnswered text t u
      → run_http_request_raw sys req t ≡ done text u
  unfolding run_http_request_raw attempt http lift ◌>>=◌ on_result branch
  text_of text t u (resp, answered, small, body, calls) =
      grind (arith, answered, small, body, calls)

  -- A request gives a text exactly if the console answered, with a status below 400 and a body that was
  -- read to its end, and the text is that body; it is one call.
  pub run_http_request_raw_iff :
      (text : String) (t u : Trace)
      → (run_http_request_raw sys req t ≡ done text u) ↔ (
          (resp : Response) × (sys.http t req ≡ ok resp)
          × (resp.status_code < 400)
          × (resp.body ≡ ok text)
          × (u ≡ Event.requested req (ok resp) ∷ t))
  run_http_request_raw_iff text t u = (answer_of text t u, text_of text t u)
