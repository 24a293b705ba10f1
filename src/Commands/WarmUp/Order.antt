-- ===== src/Commands/WarmUp/Order.antt =====
-- What was done when the warm-up's manager has run.
use dfs_csi.Prelude.{◌≡◌, refl, sym, ◌∙◌, ap, ◌∷◌, arith}
use dfs_csi.System.{System, Event, Trace, ok, ManagerCall}
use dfs_csi.System.Io.{Io, done, pure, manage}
use dfs_csi.System.Steps.{bind-done, on_result-done, attempt-done}
use dfs_csi.Commands.{Start, started}
use dfs_csi.Commands.WarmUp.{
  WarmUpFlags, manager_options, or_exit, init_client_go, setup_cache_reconciler, run_warm_up,
}

-- The manager was made, the client of client-go was made behind it, and behind that the controller and
-- the two checks were added before the manager was started.
pub record IsSetUp (sys : System) (flags : WarmUpFlags) (t u : Trace) : Type 0 where
  pub after_client : Trace
  pub client :
      init_client_go sys (
        Event.managed (ManagerCall.new_manager (manager_options flags)) (ok tt)
        ∷ Event.managed ManagerCall.get_config (ok tt)
        ∷ t)
      ≡ done tt after_client
  pub calls :
      u
      ≡ Event.managed ManagerCall.start_manager (ok tt)
        ∷ Event.managed (ManagerCall.add_readyz_check "readyz") (ok tt)
        ∷ Event.managed (ManagerCall.add_healthz_check "healthz") (ok tt)
        ∷ Event.managed (ManagerCall.build_controller "Cache") (ok tt)
        ∷ after_client

module _ {ℓ} {C : Type ℓ} where
  or_exit-done :
      (m : Io (Unit {0})) (rest : Io (Start (Unit {0}))) (t u : Trace)
      → or_exit m rest t ≡ done (started tt) u
      → ((v : Trace) → m t ≡ done tt v → rest v ≡ done (started tt) u → C)
      → C
  unfolding or_exit pure
  or_exit-done m rest t u eq k = bind-done _ _ t (started tt) u eq λ r v tried looked.
      on_result-done r _ _ v (started tt) u looked
        (λ a is_ok goes. k v (attempt-done m t v tt (tried ∙ ap (λ x. done x v) is_ok)) goes)
        (λ _ _ bad. absurd (cc))

module _ (sys : System) where
  called :
      (call : ManagerCall) (t u : Trace)
      → manage sys call t ≡ done tt u
      → u ≡ Event.managed call (ok tt) ∷ t
  unfolding manage
  called call t u eq = grind arith

  ends : (v u : Trace) → pure {A = Start (Unit {0})} (started tt) v ≡ done (started tt) u → u ≡ v
  unfolding pure
  ends v u last = cc

  -- A call behind others.
  after :
      {call : ManagerCall} {t u w : Trace}
      → manage sys call t ≡ done tt u
      → t ≡ w
      → u ≡ Event.managed call (ok tt) ∷ w
  after {call} {t} {u} {w} eq same =
      called call t u eq ∙ ap (λ x. Event.managed call (ok tt) ∷ x) same

  -- Run comes to its end without an exit only if the configuration was found and the manager was made
  -- with the flags, the client of client-go was made behind it, and then, in this order and with
  -- nothing between, the controller of the caches and the two checks were added and the manager ran.
  pub run_warm_up-IsSetUp :
      (flags : WarmUpFlags) (t u : Trace)
      → run_warm_up sys flags t ≡ done (started tt) u
      → IsSetUp sys flags t u
  unfolding run_warm_up setup_cache_reconciler
  run_warm_up-IsSetUp flags t u eq = or_exit-done _ _ t u eq λ v1 c1 eq1.
      or_exit-done _ _ v1 u eq1 λ v2 c2 eq2. or_exit-done _ _ v2 u eq2 λ v3 c3 eq3.
        or_exit-done _ _ v3 u eq3 λ v4 c4 eq4. or_exit-done _ _ v4 u eq4 λ v5 c5 eq5.
          or_exit-done _ _ v5 u eq5 λ v6 c6 eq6. or_exit-done _ _ v6 u eq6 λ v7 c7 last. record {
            after_client = v3;
            client = ap (λ x. init_client_go sys x) (sym (after c2 (after c1 refl))) ∙ c3;
            calls = ends v7 u last ∙ after c7 (after c6 (after c5 (after c4 refl)));
          }
