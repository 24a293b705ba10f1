-- ===== src/References/Mounted.antt =====
-- JMount of a mount pod on an API server that serves every call: the reference is there when it returns.
use dfs_csi.Prelude.{
  ℕ, suc, ◌≡◌, refl, ap, String, true, false, Option, none, some, List, ◌∷◌, ◌==◌, eqb, arith,
}
use dfs_csi.Prelude.Dict.{Dict, lookup}
use dfs_csi.Config.{Config, delete_delay_at_key}
use dfs_csi.Config.Setting.{JfsSetting}
use dfs_csi.Kube.{Pod}
use dfs_csi.System.{System, Event, Trace, FileInfo, ok}
use dfs_csi.System.Io.{done, stat, do_with_timeout, lift, ◌>>=◌}
use dfs_csi.System.Returns.{
  Returns, Returns-pure, Returns-true, Returns-false, Returns-bind, Returns-then, Returns-tried,
  Returns-option,
}
use dfs_csi.K8sClient
use dfs_csi.Util.{get_loop_timeout}
use dfs_csi.Util.Patches.{get_reference_key, replace_pod_annotation}
use dfs_csi.Util.Patches.Keys.{get_reference_key-starts_with}
use dfs_csi.Mount.Builder.{Resources, parse_pod_resources}
use dfs_csi.Mount.Refs.{add_ref, add_ref_loop, add_ref_of_mount}
use dfs_csi.Mount.Refs.Annotations.{with_ref}
use dfs_csi.Mount.Wait.{Fuel, ready_loop, wait_until_mount_ready, use_pod, wait_loop}
use dfs_csi.References.Objects.{
  is_named, annotations_after, patched, IsServer, get_pod-Returns, missing-Returns,
  patch_pod-Returns, create_pod-Returns,
}
use dfs_csi.References.Holders.{has, hold, IsHolding, with_ref-IsHolding, hold-IsHolding}

-- The mount point comes up in time, and the resources of the pod can be read. No delay is set, and there
-- are two rounds for the loop of waitUntilMount: one creates the pod, and one finds it.
pub record IsMountable (sys : System) (setting : JfsSetting) (path : String) : Type 0 where
  pub resources :
      (t : Trace)
      → (r : Resources) × (parse_pod_resources sys setting.mount_pod_cpu_limit
            setting.mount_pod_mem_limit setting.mount_pod_cpu_request setting.mount_pod_mem_request
            t
          ≡ done r t)
  pub in_time : (t : Trace) → sys.expired t ≡ none
  pub root : (t : Trace) → (info : FileInfo) × (sys.stat t path ≡ ok info) × (eqb info.ino 1 ≡ true)
  pub rounds : ℕ
  pub enough : get_loop_timeout sys ≡ suc (suc rounds)
  pub no_delay : setting.deleted_delay ≡ ""

module _ (sys : System) (cfg : Config) (name : String) (old : Option (Dict String))
    (server : IsServer name cfg.namespace sys old) (target : String)
    (apart : (get_reference_key sys target == delete_delay_at_key) ≡ false) where
  abbrev key : String
  key = get_reference_key sys target

  -- The annotations stand for a set with the key.
  abbrev IsHeldBy : List String → Trace → Type 0
  IsHeldBy keys u =
      (d : Dict String) × (annotations_after name cfg.namespace old u ≡ some d)
      × IsHolding (hold key keys) d

  add_ref-Returns :
      (keys : List String) (t : Trace) (d : Dict String)
      → annotations_after name cfg.namespace old t ≡ some d
      → IsHolding keys d
      → Returns (add_ref sys cfg key target name) t (λ _ u. IsHeldBy keys u)
  unfolding add_ref replace_pod_annotation patched
  add_ref-Returns keys t d h holds =
      Returns-bind _ _ t (get_pod-Returns name cfg.namespace sys old server t d h) λ po u seen.
        Returns-option (lookup key po.annotations) _ _ u
          (λ gone.
            Returns-tried _ _ _ u
              (patch_pod-Returns name cfg.namespace sys old server u d po _ seen.named seen.current)
              λ _ w after. Returns-pure tt w (
                with_ref key target po.annotations,
                after,
                with_ref-IsHolding key target keys po.annotations
                    (get_reference_key-starts_with sys target) apart (rw seen.annotated holds),
              ))
          (λ v there. Returns-pure tt u (
            d,
            seen.current,
            hold-IsHolding key keys d (get_reference_key-starts_with sys target)
                (ground (arith, there, ap (λ a. has key a) seen.annotated)) holds,
          ))

  add_ref_loop-Returns :
      (retries : ℕ) (keys : List String) (t : Trace) (d : Dict String)
      → annotations_after name cfg.namespace old t ≡ some d
      → IsHolding keys d
      → Returns (add_ref_loop sys cfg (suc retries) key target name) t (λ _ u. IsHeldBy keys u)
  unfolding add_ref_loop
  add_ref_loop-Returns retries keys t d h holds =
      Returns-tried _ _ _ t (add_ref-Returns keys t d h holds) λ _ u held. Returns-pure tt u held

  module _ (setting : JfsSetting) (path : String) (up : IsMountable sys setting path) where
    root_seen :
        (t : Trace) (info : FileInfo)
        → sys.stat t path ≡ ok info
        → do_with_timeout sys (stat sys path) t
          ≡ done info (Event.timer none ∷ Event.statted path (ok info) ∷ t)
    unfolding do_with_timeout stat lift ◌>>=◌
    root_seen t info found = grind (arith, up.in_time (Event.statted path (ok info) ∷ t))

    ready-Returns :
        (checks : ℕ) (keys : List String) (t : Trace)
        → IsHeldBy keys t
        → Returns (wait_until_mount_ready sys cfg (suc checks) name path) t (λ _ u. IsHeldBy keys u)
    unfolding wait_until_mount_ready ready_loop annotations_after
    ready-Returns checks keys t held =
        let (info, found, is_root) = up.root t in
        Returns-bind {p = λ b u. (b ≡ true) × IsHeldBy keys u} _ _ t
          (Returns-tried {p = λ i u. (eqb i.ino 1 ≡ true) × IsHeldBy keys u} _ _ _ t
            (record {
              value = info;
              after = _;
              ends = root_seen t info found;
              holds = (is_root, held);
            })
            λ i u (root, still). Returns-true _ _ _ u root (Returns-pure true u (refl, still)))
          λ b u (ready, still). Returns-true b _ _ u ready (Returns-pure tt u still)

    use_pod-Returns :
        (retries checks : ℕ) (keys : List String) (t : Trace) (d : Dict String)
        → annotations_after name cfg.namespace old t ≡ some d
        → IsHolding keys d
        → Returns
            (use_pod sys cfg
              (record { retries = suc retries; checks = suc checks })
              name
              path
              target)
            t
            (λ _ u. IsHeldBy keys u)
    unfolding use_pod add_ref_of_mount
    use_pod-Returns retries checks keys t d h holds =
        Returns-tried _ _ _ t (add_ref_loop-Returns retries keys t d h holds)
          λ _ u held. ready-Returns checks keys u held

    abbrev fuel_of : ℕ → ℕ → Fuel
    fuel_of retries checks = record { retries = suc retries; checks = suc checks }

    pub found-Returns :
        (retries checks rounds : ℕ) (pod : Pod) (keys : List String) (t : Trace) (d : Dict String)
        → annotations_after name cfg.namespace old t ≡ some d
        → IsHolding keys d
        → Returns
            (wait_loop sys cfg (fuel_of retries checks) pod name path target (suc rounds))
            t
            (λ _ u. IsHeldBy keys u)
    unfolding wait_loop
    found-Returns retries checks rounds pod keys t d h holds =
        Returns-tried _ _ _ t (get_pod-Returns name cfg.namespace sys old server t d h) λ po u seen.
          Returns-false _ _ _ u seen.stays
            (use_pod-Returns retries checks keys u d seen.current holds)

    client-Returns :
        (pod : Pod) (t : Trace)
        → is_named name cfg.namespace pod ≡ true
        → Returns
            (K8sClient.create_pod sys pod)
            t
            (λ _ u. annotations_after name cfg.namespace old u ≡ some pod.annotations)
    unfolding K8sClient.create_pod
    client-Returns pod t named =
        Returns-tried _ _ _ t (create_pod-Returns name cfg.namespace sys old server t pod named)
          λ _ u made. Returns-pure tt u made

    pub created-Returns :
        (retries checks rounds : ℕ) (pod : Pod) (keys : List String) (t : Trace)
        → annotations_after name cfg.namespace old t ≡ none
        → is_named name cfg.namespace pod ≡ true
        → IsHolding keys pod.annotations
        → Returns
            (wait_loop sys cfg (fuel_of retries checks) pod name path target (suc (suc rounds)))
            t
            (λ _ u. IsHeldBy keys u)
    unfolding wait_loop
    created-Returns retries checks rounds pod keys t gone named holds =
        missing-Returns name cfg.namespace sys old server _ _ t gone λ e u absent still.
          Returns-true _ _ _ u absent (
            Returns-then _ _ u (client-Returns pod u named)
              λ _ w made. found-Returns retries checks rounds pod keys w pod.annotations made holds)
