-- ===== src/System/Keeps.antt =====
-- Properties of the trace that code keeps, whatever the answers that it gets: a rule for each way to
-- build code, and for each call.
use dfs_csi.Prelude.{
  ℕ, ◌≡◌, refl, String, Bool, true, false, List, ◌∷◌, Option, some, none, if◌then◌else◌, arith,
}
use dfs_csi.Prelude.Dict.{Dict}
use dfs_csi.System.{System, Event, Trace, Failure, Result, ok, err, Request}
use dfs_csi.System.Io.{
  Io, Outcome, and_then, done, fails, panics, hung, trace_of, answer, pure, fail, panic, hang,
  attempt, lift, on_result, on_option, branch, ◌>>=◌, ◌>>◌, get_pod, get_volume, list_volumes,
  list_pods, get_log, stat, path_exists, mkdir_all, chmod, remove, write_file, parse_mount_info,
  not_mount_point, mount, unmount, cleanup_mount_point, command, http, do_with_timeout, now, sleep,
  start, get_claim, get_cache, exec, read_file, kubelet_get, new_client,
}

pub record Keeps {ℓ κ} {A : Type κ} (P : Trace → Type ℓ) (m : Io A) : Type (ℓ ⊔ κ) where
  pub at : (t : Trace) → P t → P (trace_of (m t))

-- Whether a call changes an object of the API server.
abbrev pub changes_object : Event → Bool
changes_object (Event.created_pod _ _) = true
changes_object (Event.patched_pod _ _ _) = true
changes_object (Event.deleted_pod _ _) = true
changes_object (Event.deleted_cache _ _) = true
changes_object (Event.updated_status _ _) = true
changes_object _ = false

-- `P` stands whatever else is called.
pub record Ignores {ℓ} (P : Trace → Type ℓ) : Type ℓ where
  pub at : (ev : Event) (t : Trace) → changes_object ev ≡ false → P t → P (ev ∷ t)

module _ {κ} {A : Type κ} where
  trace_of-attempt : (m : Io A) (t : Trace) → trace_of (attempt m t) ≡ trace_of (m t)
  unfolding attempt
  trace_of-attempt m t = ground arith

module _ {ℓ κ} {A : Type κ} (P : Trace → Type ℓ) where
  pub Keeps-answer :
      (ev : Event) (r : Result A) (t : Trace) → P (ev ∷ t) → P (trace_of (answer ev r t))
  Keeps-answer ev (ok a) t h = h
  Keeps-answer ev (err e) t h = h

module _ {ℓ κ} {A : Type κ} {P : Trace → Type ℓ} where
  pub Keeps-pure : (a : A) → Keeps P (pure a)
  unfolding pure
  Keeps-pure a = record { at = λ t h. h }

  pub Keeps-fail : (e : Failure) → Keeps P (fail {A = A} e)
  unfolding fail
  Keeps-fail e = record { at = λ t h. h }

  pub Keeps-panic : (s : String) → Keeps P (panic {A = A} s)
  unfolding panic
  Keeps-panic s = record { at = λ t h. h }

  pub Keeps-hang : Keeps P (hang {A = A})
  unfolding hang
  Keeps-hang = record { at = λ t h. h }

  pub Keeps-lift : (r : Result A) → Keeps P (lift r)
  unfolding lift
  Keeps-lift (ok a) = record { at = λ t h. h }
  Keeps-lift (err e) = record { at = λ t h. h }

  pub Keeps-attempt : (m : Io A) → Keeps P m → Keeps P (attempt m)
  Keeps-attempt m k = record { at = λ t h. rw trace_of-attempt (k.at t h) }

  pub Keeps-if : (b : Bool) (m n : Io A) → Keeps P m → Keeps P n → Keeps P (if b then m else n)
  Keeps-if true m n km kn = km
  Keeps-if false m n km kn = kn

module _ {ℓ κ ι} {A : Type κ} {B : Type ι} (P : Trace → Type ℓ) where
  Keeps-and_then :
      (o : Outcome A) (f : A → Io B)
      → P (trace_of o)
      → ((a : A) → Keeps P (f a))
      → P (trace_of (and_then o f))
  Keeps-and_then (done a t) f h k = (k a).at t h
  Keeps-and_then (fails e t) f h k = h
  Keeps-and_then (panics s t) f h k = h
  Keeps-and_then (hung t) f h k = h

module _ {ℓ κ ι} {A : Type κ} {B : Type ι} {P : Trace → Type ℓ} where
  pub Keeps-bind :
      (m : Io A) (f : A → Io B) → Keeps P m → ((a : A) → Keeps P (f a)) → Keeps P (m >>= f)
  unfolding ◌>>=◌
  Keeps-bind m f km kf = record { at = λ t h. Keeps-and_then P (m t) f (km.at t h) kf }

  pub Keeps-then : (m : Io A) (k : Io B) → Keeps P m → Keeps P k → Keeps P (m >> k)
  unfolding ◌>>◌ ◌>>=◌
  Keeps-then m k km kk = record {
    at = λ t h. Keeps-and_then P (m t) (λ _. k) (km.at t h) (λ _. kk);
  }

module _ {ℓ} {P : Trace → Type ℓ} (sys : System) where
  pub Keeps-get_pod : (name ns : String) → Ignores P → Keeps P (get_pod sys name ns)
  unfolding get_pod
  Keeps-get_pod name ns ig = record {
    at = λ t h. Keeps-answer P _ (sys.get_pod t name ns) t (ig.at _ t refl h);
  }

  pub Keeps-get_volume : (name : String) → Ignores P → Keeps P (get_volume sys name)
  unfolding get_volume
  Keeps-get_volume name ig = record {
    at = λ t h. Keeps-answer P _ (sys.get_volume t name) t (ig.at _ t refl h);
  }

  pub Keeps-list_volumes : Ignores P → Keeps P (list_volumes sys)
  unfolding list_volumes
  Keeps-list_volumes ig = record {
    at = λ t h. Keeps-answer P _ (sys.list_volumes t) t (ig.at _ t refl h);
  }

  pub Keeps-list_pods : (ns : String) → Ignores P → Keeps P (list_pods sys ns)
  unfolding list_pods
  Keeps-list_pods ns ig = record {
    at = λ t h. Keeps-answer P _ (sys.list_pods t ns) t (ig.at _ t refl h);
  }

  pub Keeps-get_log : (pod c : String) → Ignores P → Keeps P (get_log sys pod c)
  unfolding get_log
  Keeps-get_log pod c ig = record {
    at = λ t h. Keeps-answer P _ (sys.get_log t pod c) t (ig.at _ t refl h);
  }

  pub Keeps-stat : (path : String) → Ignores P → Keeps P (stat sys path)
  unfolding stat
  Keeps-stat path ig = record {
    at = λ t h. Keeps-answer P _ (sys.stat t path) t (ig.at _ t refl h);
  }

  pub Keeps-path_exists : (path : String) → Ignores P → Keeps P (path_exists sys path)
  unfolding path_exists
  Keeps-path_exists path ig = record {
    at = λ t h. Keeps-answer P _ (sys.path_exists t path) t (ig.at _ t refl h);
  }

  pub Keeps-mkdir_all : (path : String) (m : ℕ) → Ignores P → Keeps P (mkdir_all sys path m)
  unfolding mkdir_all
  Keeps-mkdir_all path m ig = record {
    at = λ t h. Keeps-answer P _ (sys.mkdir_all t path m) t (ig.at _ t refl h);
  }

  pub Keeps-chmod : (path : String) (m : ℕ) → Ignores P → Keeps P (chmod sys path m)
  unfolding chmod
  Keeps-chmod path m ig = record {
    at = λ t h. Keeps-answer P _ (sys.chmod t path m) t (ig.at _ t refl h);
  }

  pub Keeps-remove : (path : String) → Ignores P → Keeps P (remove sys path)
  unfolding remove
  Keeps-remove path ig = record {
    at = λ t h. Keeps-answer P _ (sys.remove t path) t (ig.at _ t refl h);
  }

  pub Keeps-write_file : (path text : String) → Ignores P → Keeps P (write_file sys path text)
  unfolding write_file
  Keeps-write_file path text ig = record {
    at = λ t h. Keeps-answer P _ (sys.write_file t path text) t (ig.at _ t refl h);
  }

  pub Keeps-parse_mount_info : Ignores P → Keeps P (parse_mount_info sys)
  unfolding parse_mount_info
  Keeps-parse_mount_info ig = record {
    at = λ t h. Keeps-answer P _ (sys.parse_mount_info t) t (ig.at _ t refl h);
  }

  pub Keeps-not_mount_point : (path : String) → Ignores P → Keeps P (not_mount_point sys path)
  unfolding not_mount_point
  Keeps-not_mount_point path ig = record {
    at = λ t h. Keeps-answer P _ (sys.not_mount_point t path) t (ig.at _ t refl h);
  }

  pub Keeps-mount :
      (source target fstype : String) (options : List String)
      → Ignores P
      → Keeps P (mount sys source target fstype options)
  unfolding mount
  Keeps-mount source target fstype options ig = record {
    at = λ t h. Keeps-answer P _ (sys.mount t source target fstype options) t (ig.at _ t refl h);
  }

  pub Keeps-unmount : (target : String) → Ignores P → Keeps P (unmount sys target)
  unfolding unmount
  Keeps-unmount target ig = record {
    at = λ t h. Keeps-answer P _ (sys.unmount t target) t (ig.at _ t refl h);
  }

  pub Keeps-cleanup_mount_point :
      (target : String) → Ignores P → Keeps P (cleanup_mount_point sys target)
  unfolding cleanup_mount_point
  Keeps-cleanup_mount_point target ig = record {
    at = λ t h. Keeps-answer P _ (sys.cleanup_mount_point t target) t (ig.at _ t refl h);
  }

  pub Keeps-http : (req : Request) → Ignores P → Keeps P (http sys req)
  unfolding http
  Keeps-http req ig = record { at = λ t h. Keeps-answer P _ (sys.http t req) t (ig.at _ t refl h) }

  pub Keeps-get_claim : (ns name : String) → Ignores P → Keeps P (get_claim sys ns name)
  unfolding get_claim
  Keeps-get_claim ns name ig = record {
    at = λ t h. Keeps-answer P _ (sys.get_claim t ns name) t (ig.at _ t refl h);
  }

  pub Keeps-get_cache : (ns name : String) → Ignores P → Keeps P (get_cache sys ns name)
  unfolding get_cache
  Keeps-get_cache ns name ig = record {
    at = λ t h. Keeps-answer P _ (sys.get_cache t ns name) t (ig.at _ t refl h);
  }

  pub Keeps-exec : (ns pod : String) (cmd : List String) → Ignores P → Keeps P (exec sys ns pod cmd)
  unfolding exec
  Keeps-exec ns pod cmd ig = record {
    at = λ t h. Keeps-answer P _ (sys.exec t ns pod cmd) t (ig.at _ t refl h);
  }

  pub Keeps-read_file : (path : String) → Ignores P → Keeps P (read_file sys path)
  unfolding read_file
  Keeps-read_file path ig = record {
    at = λ t h. Keeps-answer P _ (sys.read_file t path) t (ig.at _ t refl h);
  }

  pub Keeps-kubelet_get : (url : String) → Ignores P → Keeps P (kubelet_get sys url)
  unfolding kubelet_get
  Keeps-kubelet_get url ig = record {
    at = λ t h. Keeps-answer P _ (sys.kubelet_get t url) t (ig.at _ t refl h);
  }

  pub Keeps-new_client : Ignores P → Keeps P (new_client sys)
  unfolding new_client
  Keeps-new_client ig = record {
    at = λ t h. Keeps-answer P _ (sys.new_client t) t (ig.at _ t refl h);
  }

  pub Keeps-command :
      (args : List String) (env : Dict String) → Ignores P → Keeps P (command sys args env)
  unfolding command
  Keeps-command args env ig = record { at = λ t h. ig.at _ t refl h }

  pub Keeps-now : Ignores P → Keeps P (now sys)
  unfolding now
  Keeps-now ig = record { at = λ t h. ig.at _ t refl h }

module _ {ℓ} {P : Trace → Type ℓ} where
  pub Keeps-sleep : Ignores P → Keeps P sleep
  unfolding sleep
  Keeps-sleep ig = record { at = λ t h. ig.at _ t refl h }

  pub Keeps-start : (args : List String) (env : Dict String) → Ignores P → Keeps P (start args env)
  unfolding start
  Keeps-start args env ig = record { at = λ t h. ig.at _ t refl h }

module _ {ℓ κ ι} {A : Type ι} {B : Type κ} {P : Trace → Type ℓ} where
  pub Keeps-on_result :
      (r : Result A) (f : A → Io B) (g : Failure → Io B)
      → ((a : A) → Keeps P (f a))
      → ((e : Failure) → Keeps P (g e))
      → Keeps P (on_result r f g)
  unfolding on_result
  Keeps-on_result (ok a) f g kf kg = kf a
  Keeps-on_result (err e) f g kf kg = kg e

  pub Keeps-on_option :
      (o : Option A) (n : Io B) (f : A → Io B)
      → Keeps P n
      → ((a : A) → Keeps P (f a))
      → Keeps P (on_option o n f)
  unfolding on_option
  Keeps-on_option none n f kn kf = kn
  Keeps-on_option (some a) n f kn kf = kf a

module _ {ℓ κ} {B : Type κ} {P : Trace → Type ℓ} where
  pub Keeps-branch :
      (b : Bool) (m n : Io B)
      → (b ≡ true → Keeps P m)
      → (b ≡ false → Keeps P n)
      → Keeps P (branch b m n)
  unfolding branch
  Keeps-branch true m n km kn = km refl
  Keeps-branch false m n km kn = kn refl

module _ {ℓ κ} {A : Type κ} {P : Trace → Type ℓ} (sys : System) where
  after_timer :
      (r : Result A)
      → Ignores P
      → Keeps P (λ t. elim (sys.expired t) [
        | some reason ↦ fails reason (Event.timer (some reason) ∷ t)
        | none ↦ lift r (Event.timer none ∷ t)
      ])
  after_timer r ig = record { at = λ t h. by_reason (sys.expired t) t h }
    where
      by_reason :
          (o : Option Failure) (t : Trace)
          → P t
          → P (
              trace_of (elim o [
                | some reason ↦ fails reason (Event.timer (some reason) ∷ t)
                | none ↦ lift r (Event.timer none ∷ t)
              ]))
      by_reason none t h = (Keeps-lift {P = P} r).at _ (ig.at _ t refl h)
      by_reason (some reason) t h = ig.at _ t refl h

  pub Keeps-do_with_timeout : (f : Io A) → Ignores P → Keeps P f → Keeps P (do_with_timeout sys f)
  unfolding do_with_timeout
  Keeps-do_with_timeout f ig kf = Keeps-bind _ _ (Keeps-attempt f kf) λ r. after_timer r ig

-- The same at one trace: a test, and a call whose outcome is known.
module _ {ℓ κ} {B : Type κ} (P : Trace → Type ℓ) where
  pub branch-at :
      (b : Bool) (m n : Io B) (t : Trace)
      → (b ≡ true → P (trace_of (m t)))
      → (b ≡ false → P (trace_of (n t)))
      → P (trace_of (branch b m n t))
  unfolding branch
  branch-at true m n t hm hn = hm refl
  branch-at false m n t hm hn = hn refl

module _ {ℓ κ ι} {A : Type ι} {B : Type κ} (P : Trace → Type ℓ) where
  pub bind-at :
      (m : Io A) (f : A → Io B) (t u : Trace) (a : A)
      → m t ≡ done a u
      → P (trace_of (f a u))
      → P (trace_of ((m >>= f) t))
  unfolding ◌>>=◌
  bind-at m f t u a eq h = rw eq h

  pub bind-fails-at :
      (m : Io A) (f : A → Io B) (t u : Trace) (e : Failure)
      → m t ≡ fails e u
      → P u
      → P (trace_of ((m >>= f) t))
  unfolding ◌>>=◌
  bind-fails-at m f t u e eq h = rw eq h

-- A call of which only what it returns is known.
module _ {ℓ κ ι} {A : Type κ} {B : Type ι} {P : Trace → Type ℓ} where
  Keeps-answered :
      (f : A → Io B) (g : Failure → Io B) (o : Outcome A)
      → P (trace_of o)
      → ((a : A) (u : Trace) → o ≡ done a u → P u → P (trace_of (f a u)))
      → ((e : Failure) → Keeps P (g e))
      → P (trace_of (and_then (attempt (λ t. o) (trace_of o)) (λ r. on_result r f g)))
  unfolding attempt on_result
  Keeps-answered f g (done a u) h kf kg = kf a u refl h
  Keeps-answered f g (fails e u) h kf kg = (kg e).at u h
  Keeps-answered f g (panics s u) h kf kg = h
  Keeps-answered f g (hung u) h kf kg = h

  pub Keeps-attempted :
      (m : Io A) (f : A → Io B) (g : Failure → Io B)
      → Keeps P m
      → ((a : A) (t u : Trace) → m t ≡ done a u → P u → P (trace_of (f a u)))
      → ((e : Failure) → Keeps P (g e))
      → Keeps P (attempt m >>= λ r. on_result r f g)
  unfolding attempt ◌>>=◌
  Keeps-attempted m f g km kf kg = record {
    at = λ t h. Keeps-answered f g (m t) (km.at t h) (λ a u. kf a t u) kg;
  }

pub ruleset keeps_rules = (
  Keeps-do_with_timeout, Keeps-pure, Keeps-fail, Keeps-panic, Keeps-hang, Keeps-lift, Keeps-attempt,
  Keeps-if, Keeps-bind, Keeps-then, Keeps-on_result, Keeps-on_option, Keeps-branch, Keeps-sleep,
  Keeps-start, Keeps-command, Keeps-now, Keeps-get_pod, Keeps-get_volume, Keeps-list_volumes,
  Keeps-list_pods, Keeps-get_log, Keeps-stat, Keeps-path_exists, Keeps-mkdir_all, Keeps-chmod,
  Keeps-remove, Keeps-write_file, Keeps-parse_mount_info, Keeps-not_mount_point, Keeps-mount,
  Keeps-unmount, Keeps-cleanup_mount_point, Keeps-http, Keeps-get_claim, Keeps-get_cache,
  Keeps-exec, Keeps-read_file, Keeps-kubelet_get, Keeps-new_client,
)
