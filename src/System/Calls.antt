-- ===== src/System/Calls.antt =====
-- The call that a single operation leaves in the trace.
use dfs_csi.Prelude.{◌≡◌, String, List, [], ◌∷◌, arith}
use dfs_csi.Kube.{Pod}
use dfs_csi.System.{System, Event, Trace, MountInfo, Output, Failure, Result, ok, err}
use dfs_csi.System.Io.{
  done, fails, pure, attempt, get_pod, delete_pod, command, mount, unmount, cleanup_mount_point,
  parse_mount_info,
}

pub same_end : (v u : Trace) → pure {A = Unit {0}} tt v ≡ done tt u → u ≡ v
unfolding pure
same_end v u last = cc

pub returned :
    (a : Unit {0}) (v u : Trace)
    → pure {A = Unit {0}} tt v ≡ done tt u
    → done (ok a) v ≡ done (ok tt) u
unfolding pure
returned a v u last = cc

pub ended : {A : Type 0} (a b : A) (v u : Trace) → pure a v ≡ done b u → (a ≡ b) × (u ≡ v)
unfolding pure
ended a b v u last = (grind arith, grind arith)

module _ (sys : System) where
  -- The outcome of a look at a pod, by the answer.
  pub pod_got :
      (t : Trace) (name ns : String) (po : Pod)
      → sys.get_pod t name ns ≡ ok po
      → get_pod sys name ns t ≡ done po (Event.got_pod name ns (ok po) ∷ t)
  unfolding get_pod
  pod_got t name ns po got = ground arith

  pub pod_failed :
      (t : Trace) (name ns : String) (e : Failure)
      → sys.get_pod t name ns ≡ err e
      → get_pod sys name ns t ≡ fails e (Event.got_pod name ns (err e) ∷ t)
  unfolding get_pod
  pod_failed t name ns e got = ground arith

  pub pod_tried :
      (t : Trace) (name ns : String) (r : Result Pod)
      → sys.get_pod t name ns ≡ r
      → attempt (get_pod sys name ns) t ≡ done r (Event.got_pod name ns r ∷ t)
  unfolding attempt get_pod
  pod_tried t name ns r got = grind arith

  pub pod_read :
      (name ns : String) (po : Pod) (t u : Trace)
      → get_pod sys name ns t ≡ done po u
      → u ≡ Event.got_pod name ns (ok po) ∷ t
  unfolding get_pod
  pod_read name ns po t u eq = grind arith

  pub pod_looked :
      (name ns : String) (r : Result Pod) (t u : Trace)
      → attempt (get_pod sys name ns) t ≡ done r u
      → u ≡ Event.got_pod name ns r ∷ t
  unfolding attempt get_pod
  pod_looked name ns r t u eq = grind arith

  pub pod_deleted :
      (po : Pod) (t u : Trace)
      → delete_pod sys po t ≡ done tt u
      → u ≡ Event.deleted_pod po (ok tt) ∷ t
  unfolding delete_pod
  pod_deleted po t u eq = grind arith

  pub ran :
      (args : List String) (out : Output) (t u : Trace)
      → command sys args [] t ≡ done out u
      → u ≡ Event.ran args [] out ∷ t
  unfolding command
  ran args out t u eq = grind arith

  pub cleaned :
      (target : String) (t u : Trace)
      → cleanup_mount_point sys target t ≡ done tt u
      → u ≡ Event.cleaned_mount target (ok tt) ∷ t
  unfolding cleanup_mount_point
  cleaned target t u eq = grind arith

  pub mount_call :
      (source target : String) (t u : Trace) (r : Result (Unit {0}))
      → attempt (mount sys source target "none" ("bind" ∷ [])) t ≡ done r u
      → u ≡ Event.mounted source target "none" ("bind" ∷ []) r ∷ t
  unfolding attempt mount
  mount_call source target t u r eq = grind arith

  pub table_read :
      (t v : Trace) (infos : List MountInfo)
      → parse_mount_info sys t ≡ done infos v
      → v ≡ Event.read_mounts (ok infos) ∷ t
  unfolding parse_mount_info
  table_read t v infos eq = grind arith

  pub detached :
      (path : String) (t u : Trace)
      → unmount sys path t ≡ done tt u
      → u ≡ Event.unmounted path (ok tt) ∷ t
  unfolding unmount
  detached path t u eq = grind arith
