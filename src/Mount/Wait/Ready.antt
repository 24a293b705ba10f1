-- ===== src/Mount/Wait/Ready.antt =====
-- What has been seen when a mount through a pod returns.
use dfs_csi.Prelude.{◌≡◌, ap, ◌∙◌, ℕ, zero, suc, String, Bool, true, none, List, ◌∷◌, eqb, arith}
use dfs_csi.Config.{Config}
use dfs_csi.Config.Setting.{JfsSetting}
use dfs_csi.Kube.{Pod}
use dfs_csi.System.{System, Event, Trace, FileInfo, ok}
use dfs_csi.System.Io.{done, pure, fail, hang, stat, do_with_timeout, lift, ◌>>=◌}
use dfs_csi.System.Steps.{bind-done, then-done, branch-done, on_result-done, attempt-done}
use dfs_csi.Mount.{j_mount}
use dfs_csi.Mount.Wait.{
  Fuel, ready_loop, wait_until_mount_ready, use_pod, wait_loop, wait_until_mount,
}

-- The last calls saw the root of a file system at the path, before the time was up.
pub record IsSeen (path : String) (t : Trace) : Type 0 where
  pub info : FileInfo
  pub earlier : Trace
  pub calls : t ≡ Event.timer none ∷ Event.statted path (ok info) ∷ earlier
  pub is_root : eqb info.ino 1 ≡ true

module _ (sys : System) where
  stat_in_time :
      (path : String) (info : FileInfo) (t u : Trace)
      → do_with_timeout sys (stat sys path) t ≡ done info u
      → u ≡ Event.timer none ∷ Event.statted path (ok info) ∷ t
  unfolding do_with_timeout stat lift ◌>>=◌
  stat_in_time path info t u eq = grind arith

  module _ (cfg : Config) where
    seen :
        (path : String) (info : FileInfo) (t v u : Trace)
        → eqb info.ino 1 ≡ true
        → do_with_timeout sys (stat sys path) t ≡ done info v
        → pure true v ≡ done true u
        → IsSeen path u
    unfolding pure
    seen path info t v u root in_time last = record {
      info = info;
      earlier = t;
      calls = same ∙ stat_in_time path info t v in_time;
      is_root = root;
    }
      where
        same : u ≡ v
        same = cc

    ready-IsSeen :
        (checks : ℕ) (path : String) (t u : Trace)
        → ready_loop sys cfg checks path t ≡ done true u
        → IsSeen path u
    unfolding ready_loop pure hang
    ready-IsSeen zero path t u eq = absurd (cc)
    ready-IsSeen (suc checks) path t u eq = bind-done _ _ t true u eq λ r v tried looked.
        on_result-done r _ _ v true u looked
          (λ info is_ok tested.
            branch-done _ _ _ v true u tested
              (λ root last.
                seen path info t v u root
                  (attempt-done _ t v info (tried ∙ ap (λ x. done x v) is_ok)) last)
              (λ _ again.
                then-done _ _ v true u again λ w _ slept rest. ready-IsSeen checks path w u rest))
          (λ e _ tested.
            branch-done _ _ _ v true u tested (λ _ last. absurd (cc))
              (λ _ again.
                then-done _ _ v true u again λ w _ slept rest. ready-IsSeen checks path w u rest))

    the_same :
        (ready : Bool) (v u : Trace)
        → ready ≡ true
        → pure {A = Unit {0}} tt v ≡ done tt u
        → done ready v ≡ done true u
    unfolding pure
    the_same ready v u is_ready last = cc

    waited-IsSeen :
        (checks : ℕ) (pod_name path : String) (t u : Trace)
        → wait_until_mount_ready sys cfg checks pod_name path t ≡ done tt u
        → IsSeen path u
    unfolding wait_until_mount_ready pure fail
    waited-IsSeen checks pod_name path t u eq = bind-done _ _ t tt u eq λ ready v looked tested.
        branch-done ready _ _ v tt u tested
          (λ is_ready last.
            ready-IsSeen checks path t u (looked ∙ the_same ready v u is_ready last))
          (λ _ failed. bind-done _ _ v tt u failed λ r w _ last.
            on_result-done r _ _ w tt u last (λ _ _ bad. absurd (cc)) (λ _ _ bad. absurd (cc)))

    used-IsSeen :
        (fuel : Fuel) (pod_name path target : String) (t u : Trace)
        → use_pod sys cfg fuel pod_name path target t ≡ done tt u
        → IsSeen path u
    unfolding use_pod fail
    used-IsSeen fuel pod_name path target t u eq = bind-done _ _ t tt u eq λ r v _ added.
        on_result-done r _ _ v tt u added
          (λ _ _ waits. waited-IsSeen fuel.checks pod_name path v u waits) (λ _ _ bad. absurd (cc))

    loop-IsSeen :
        (fuel : Fuel) (pod : Pod) (pod_name path target : String) (rounds : ℕ) (t u : Trace)
        → wait_loop sys cfg fuel pod pod_name path target rounds t ≡ done tt u
        → IsSeen path u
    unfolding wait_loop fail
    loop-IsSeen fuel pod pod_name path target zero t u eq = absurd (cc)
    loop-IsSeen fuel pod pod_name path target (suc rounds) t u eq =
        bind-done _ _ t tt u eq λ r v _ found.
          on_result-done r _ _ v tt u found
            (λ po _ there.
              branch-done _ _ _ v tt u there
                (λ _ again.
                  then-done _ _ v tt u again
                    λ w _ slept rest. loop-IsSeen fuel pod pod_name path target rounds w u rest)
                (λ _ uses. used-IsSeen fuel pod_name path target v u uses))
            (λ e _ missing.
              branch-done _ _ _ v tt u missing
                (λ _ creates.
                  then-done _ _ v tt u creates
                    λ w _ made rest. loop-IsSeen fuel pod pod_name path target rounds w u rest)
                (λ _ bad. absurd (cc)))

    -- JMount returns without an error only if its last calls saw, in time, the root of a file system
    -- at the mount path: an inode with the number 1.
    pub j_mount-IsSeen :
        (fuel : Fuel) (setting : JfsSetting) (volume_id path target : String)
        (options : List String) (t u : Trace)
        → j_mount sys cfg fuel setting volume_id path target options t ≡ done tt u
        → IsSeen path u
    unfolding j_mount wait_until_mount
    j_mount-IsSeen fuel setting volume_id path target options t u eq =
        bind-done _ _ t tt u eq λ resources v _ loops. loop-IsSeen fuel _ _ path target _ v u loops
