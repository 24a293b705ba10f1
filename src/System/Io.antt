-- ===== src/System/Io.antt =====
-- Go code that makes calls and may fail, panic or loop: a function from the calls made so far.
use dfs_csi.Prelude.{ℕ, String, Bool, true, false, Option, none, some, List, ◌∷◌}
use dfs_csi.Prelude.Dict.{Dict}
use dfs_csi.Prelude.Int.{ℤ}
use dfs_csi.Kube.{Pod, PersistentVolume, PersistentVolumeClaim, Cache, Patch}
use dfs_csi.System.{Failure, Result, ok, err, FileInfo, MountInfo, Output, Request, System, Trace}
use dfs_csi.System.{Event, ManagerCall, Response}

-- `hung` says that a loop of the code has used up its fuel.
pub data Outcome {ℓ} (A : Type ℓ) : Type ℓ where
  done : A → Trace → Outcome A
  fails : Failure → Trace → Outcome A
  panics : String → Trace → Outcome A
  hung : Trace → Outcome A

abbrev pub Io {ℓ} : Type ℓ → Type ℓ
Io A = Trace → Outcome A

module _ {ℓ} {A : Type ℓ} where
  unfoldable pub pure : A → Io A
  pure a t = done a t

  unfoldable pub fail : Failure → Io A
  fail e t = fails e t

  unfoldable pub panic : String → Io A
  panic s t = panics s t

  unfoldable pub hang : Io A
  hang t = hung t

  -- A value and an error that the code looks at itself.
  unfoldable pub attempt : Io A → Io (Result A)
  attempt m t = elim (m t) [
    | done a t' ↦ done (ok a) t'
    | fails e t' ↦ done (err e) t'
    | panics s t' ↦ panics s t'
    | hung t' ↦ hung t'
  ]

  abbrev pub trace_of : Outcome A → Trace
  trace_of (done a t) = t
  trace_of (fails e t) = t
  trace_of (panics s t) = t
  trace_of (hung t) = t

  -- The answer of a call, which is recorded.
  abbrev pub answer : Event → Result A → Io A
  answer ev (ok a) t = done a (ev ∷ t)
  answer ev (err e) t = fails e (ev ∷ t)

  unfoldable pub lift : Result A → Io A
  lift (ok a) t = done a t
  lift (err e) t = fails e t

-- The two ways that the code goes on: a test, and a look at a result and at a value that may be missing.
module _ {ℓ κ} {A : Type ℓ} {B : Type κ} where
  unfoldable pub on_result : Result A → (A → Io B) → (Failure → Io B) → Io B
  on_result (ok a) f g = f a
  on_result (err e) f g = g e

  unfoldable pub on_option : Option A → Io B → (A → Io B) → Io B
  on_option none n f = n
  on_option (some a) n f = f a

module _ {κ} {B : Type κ} where
  unfoldable pub branch : Bool → Io B → Io B → Io B
  branch true m n = m
  branch false m n = n

module _ {ℓ κ} {A : Type ℓ} {B : Type κ} where
  -- The code behind a call that returns.
  abbrev pub and_then : Outcome A → (A → Io B) → Outcome B
  and_then (done a t) f = f a t
  and_then (fails e t) f = fails e t
  and_then (panics s t) f = panics s t
  and_then (hung t) f = hung t

  infixl 5 ◌>>=◌
  -- Opening this opens `pure`, `fail`, `attempt` and `lift` too.
  unfoldable pub ◌>>=◌ : Io A → (A → Io B) → Io B
  unfolding pure fail panic hang attempt lift on_result on_option branch
  ◌>>=◌ m f t = and_then (m t) f

  infixl 5 ◌>>◌
  unfoldable pub ◌>>◌ : Io A → Io B → Io B
  unfolding ◌>>=◌
  ◌>>◌ m k = ◌>>=◌ m (λ _. k)

module _ (sys : System) where
  unfoldable pub get_pod : String → String → Io Pod
  get_pod name ns t = let r = sys.get_pod t name ns in answer (Event.got_pod name ns r) r t

  unfoldable pub create_pod : Pod → Io Pod
  create_pod pod t = let r = sys.create_pod t pod in answer (Event.created_pod pod r) r t

  unfoldable pub patch_pod : Pod → Patch → Io (Unit {0})
  patch_pod pod p t = let r = sys.patch_pod t pod p in answer (Event.patched_pod pod p r) r t

  unfoldable pub delete_pod : Pod → Io (Unit {0})
  delete_pod pod t = let r = sys.delete_pod t pod in answer (Event.deleted_pod pod r) r t

  unfoldable pub get_volume : String → Io PersistentVolume
  get_volume name t = let r = sys.get_volume t name in answer (Event.got_volume name r) r t

  unfoldable pub list_volumes : Io (List PersistentVolume)
  list_volumes t = let r = sys.list_volumes t in answer (Event.listed_volumes r) r t

  unfoldable pub list_pods : String → Io (List Pod)
  list_pods ns t = let r = sys.list_pods t ns in answer (Event.listed_pods ns r) r t

  unfoldable pub get_log : String → String → Io String
  get_log pod c t = let r = sys.get_log t pod c in answer (Event.got_log pod c r) r t

  unfoldable pub stat : String → Io FileInfo
  stat path t = let r = sys.stat t path in answer (Event.statted path r) r t

  unfoldable pub path_exists : String → Io Bool
  path_exists path t = let r = sys.path_exists t path in answer (Event.checked_path path r) r t

  unfoldable pub mkdir_all : String → ℕ → Io (Unit {0})
  mkdir_all path m t = let r = sys.mkdir_all t path m in answer (Event.made_dir path m r) r t

  unfoldable pub chmod : String → ℕ → Io (Unit {0})
  chmod path m t = let r = sys.chmod t path m in answer (Event.changed_mode path m r) r t

  unfoldable pub remove : String → Io (Unit {0})
  remove path t = let r = sys.remove t path in answer (Event.removed_file path r) r t

  unfoldable pub write_file : String → String → Io (Unit {0})
  write_file path text t =
      let r = sys.write_file t path text in answer (Event.wrote_file path text r) r t

  unfoldable pub read_file : String → Io String
  read_file path t = let r = sys.read_file t path in answer (Event.read_file path r) r t

  unfoldable pub get_claim : String → String → Io PersistentVolumeClaim
  get_claim ns name t = let r = sys.get_claim t ns name in answer (Event.got_claim ns name r) r t

  unfoldable pub get_cache : String → String → Io Cache
  get_cache ns name t = let r = sys.get_cache t ns name in answer (Event.got_cache ns name r) r t

  unfoldable pub delete_cache : Cache → Io (Unit {0})
  delete_cache c t = let r = sys.delete_cache t c in answer (Event.deleted_cache c r) r t

  unfoldable pub update_status : Cache → Io (Unit {0})
  update_status c t = let r = sys.update_status t c in answer (Event.updated_status c r) r t

  unfoldable pub exec : String → String → List String → Io (Unit {0})
  exec ns pod args t = let r = sys.exec t ns pod args in answer (Event.executed ns pod args r) r t

  unfoldable pub kubelet_get : String → Io String
  kubelet_get url t = let r = sys.kubelet_get t url in answer (Event.got_kubelet url r) r t

  unfoldable pub new_client : Io (Unit {0})
  new_client t = let r = sys.new_client t in answer (Event.made_client r) r t

  unfoldable pub manage : ManagerCall → Io (Unit {0})
  manage call t = let r = sys.manage t call in answer (Event.managed call r) r t

  unfoldable pub home_dir : Io String
  home_dir t = let r = sys.home_dir t in answer (Event.looked_home r) r t

  unfoldable pub serve : String → String → Io (Unit {0})
  serve scheme addr t = let r = sys.serve t scheme addr in answer (Event.served scheme addr r) r t

  unfoldable pub parse_mount_info : Io (List MountInfo)
  parse_mount_info t = let r = sys.parse_mount_info t in answer (Event.read_mounts r) r t

  unfoldable pub not_mount_point : String → Io Bool
  not_mount_point path t =
      let r = sys.not_mount_point t path in answer (Event.checked_mount path r) r t

  unfoldable pub mount : String → String → String → List String → Io (Unit {0})
  mount source target fstype options t =
      let r = sys.mount t source target fstype options in
      answer (Event.mounted source target fstype options r) r t

  unfoldable pub unmount : String → Io (Unit {0})
  unmount target t = let r = sys.unmount t target in answer (Event.unmounted target r) r t

  unfoldable pub cleanup_mount_point : String → Io (Unit {0})
  cleanup_mount_point target t =
      let r = sys.cleanup_mount_point t target in answer (Event.cleaned_mount target r) r t

  -- A command in the process's environment with more variables.
  unfoldable pub command : List String → Dict String → Io Output
  command args env t = let r = sys.command t args env in done r (Event.ran args env r ∷ t)

  unfoldable pub http : Request → Io Response
  http req t = let r = sys.http t req in answer (Event.requested req r) r t

  -- util.DoWithTimeout: the call is made, and its answer is dropped if the context ends first.
  unfoldable pub do_with_timeout {ℓ} : {A : Type ℓ} → Io A → Io A
  unfolding ◌>>=◌
  do_with_timeout f = attempt f >>= λ r t. elim (sys.expired t) [
    | some reason ↦ fails reason (Event.timer (some reason) ∷ t)
    | none ↦ lift r (Event.timer none ∷ t)
  ]

  unfoldable pub now : Io ℤ
  now t = let r = sys.now t in done r (Event.read_clock r ∷ t)

unfoldable pub sleep : Io (Unit {0})
sleep t = done tt (Event.slept ∷ t)

-- `go func() { _ = cmd.Run() }()`
unfoldable pub start : List String → Dict String → Io (Unit {0})
start args env t = done tt (Event.started args env ∷ t)
