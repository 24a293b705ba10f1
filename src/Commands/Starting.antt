-- ===== src/Commands/Starting.antt =====
-- What the driver runs with once it has started.
use dfs_csi.Prelude.{
  ℕ, ◌≡◌, refl, ap, List, [], ◌∷◌, ◌++◌, any, Bool-cases, ◌∙◌, ◌⊎◌, inl, inr, String, true, false,
  ◌==◌, ◌||◌, Option, some, none, arith,
}
use dfs_csi.Prelude.Int.{ltb_ℤ}
use dfs_csi.Kube.{Pod, Container}
use dfs_csi.System.{System, Trace, Result, ok, environment}
use dfs_csi.System.Io.{done, attempt, pure, get_pod, on_result, on_option, ◌>>=◌}
use dfs_csi.System.Steps.{bind-done, branch-done, on_result-done, attempt-done}
use dfs_csi.K8sClient.Kubelet.{Tls, KubeletClient}
use dfs_csi.Controller.Reconciler.{start_reconciler}
use dfs_csi.Commands.{
  Flags, Variables, started, exited, Manager, polling, pod_manager, reconcile_timeout, plugin_image,
  timeout_of, variables, with_image, init, start_manager, main,
}

module _ (sys : System) where
  timeout_of-least : (text : String) → ltb_ℤ (timeout_of sys text) reconcile_timeout ≡ false
  unfolding timeout_of
  timeout_of-least text = ground arith

  -- The first container of a pod with a name has the image.
  abbrev pub IsImageOf : String → Pod → String → Type 0
  IsImageOf name pod image =
      (before : List Container) × (c : Container) × (after : List Container) × (pod.spec.containers
        ≡ before ++ c ∷ after)
      × (any (λ (b : Container). b.name == name) before ≡ false)
      × ((c.name == name) ≡ true)
      × (c.image ≡ image)

  -- What init leaves in the variables of the configuration.
  abbrev pub IsConfigured : Variables → Type 0
  IsConfigured v =
      ((v.namespace == "") ≡ false)
      × ((v.pod_name == "") ≡ false)
      × (v.namespace ≡ environment sys "MOSFS_MOUNT_NAMESPACE")
      × (v.pod_name ≡ environment sys "POD_NAME")
      × (ltb_ℤ v.reconcile_timeout reconcile_timeout ≡ false)
      × ((pod : Pod) × (w : Trace) × (sys.get_pod w v.pod_name v.namespace ≡ ok pod)
          × IsImageOf "mosfs-plugin" pod v.mount_image)

  first_named :
      (containers : List Container) (image : String)
      → plugin_image containers ≡ some image
      → (before : List Container) × (c : Container) × (after : List Container) × (containers
          ≡ before ++ c ∷ after)
        × (any (λ (b : Container). b.name == "mosfs-plugin") before ≡ false)
        × ((c.name == "mosfs-plugin") ≡ true)
        × (c.image ≡ image)
  unfolding plugin_image
  first_named [] image h = absurd (cc)
  first_named (c ∷ cs) image h = elim (Bool-cases (c.name == "mosfs-plugin")) [
    | inl named ↦ ([], c, cs, refl, refl, named, grind arith)
    | inr other ↦
        let (before, d, after, same, none_before, named, has) =
          first_named cs image (ground arith) in
        (c ∷ before, d, after, ap (λ xs. c ∷ xs) same, ground arith, named, has)
  ]

  own_pod :
      (name namespace : String) (t u : Trace) (r : Result Pod)
      → attempt (get_pod sys name namespace) t ≡ done r u
      → sys.get_pod t name namespace ≡ r
  unfolding attempt get_pod
  own_pod name namespace t u r eq = grind arith

  never_exits : (n : ℕ) (v : Variables) (w u : Trace) → pure (exited n) w ≡ done (started v) u → ⊥
  unfolding pure
  never_exits n v w u bad = cc

  image_of :
      (pod : Pod) (v : Variables) (x u : Trace)
      → with_image sys pod x ≡ done (started v) u
      → (image : String) × (plugin_image pod.spec.containers ≡ some image)
        × (v ≡ variables sys image)
  unfolding with_image on_option pure
  image_of pod v x u last = by_option (plugin_image pod.spec.containers) last
    where
      by_option :
          (o : Option String)
          → on_option o (pure (exited 0)) (λ image. pure (started (variables sys image))) x
            ≡ done (started v) u
          → (image : String) × (o ≡ some image) × (v ≡ variables sys image)
      by_option none eq = absurd (cc)
      by_option (some image) eq = (image, refl, cc)

  configured :
      (pod : Pod) (v : Variables) (w x u : Trace) (r : Result Pod)
      → (environment sys "POD_NAME" == "" || environment sys "MOSFS_MOUNT_NAMESPACE" == "") ≡ false
      → sys.get_pod w (environment sys "POD_NAME") (environment sys "MOSFS_MOUNT_NAMESPACE") ≡ r
      → r ≡ ok pod
      → with_image sys pod x ≡ done (started v) u
      → IsConfigured v
  unfolding variables
  configured pod v w x u r named read is_ok last = by_image (image_of pod v x u last)
    where
      by_image :
          (image : String) × (plugin_image pod.spec.containers ≡ some image)
            × (v ≡ variables sys image)
          → IsConfigured v
      by_image (image, is_image, same) = rw same (
        grind arith,
        grind arith,
        refl,
        refl,
        timeout_of-least (environment sys "MOSFS_RECONCILE_TIMEOUT"),
        (pod, w, read ∙ is_ok, first_named pod.spec.containers image is_image),
      )

  -- If init goes on, then the name and the namespace of the driver's pod are those of the environment
  -- and are set, the timeout of a round is not below five minutes, and the image of the mount pods is that
  -- of the first container with the name `mosfs-plugin` of this pod, as it was read.
  pub init-IsConfigured :
      (v : Variables) (t u : Trace) → init sys t ≡ done (started v) u → IsConfigured v
  unfolding init with_image variables
  init-IsConfigured v t u eq =
      branch-done _ _ _ t (started v) u eq (λ _ bad. absurd (never_exits _ v _ u bad))
        λ named go. bind-done _ _ t (started v) u go λ client w _ at_client.
          on_result-done client _ _ w (started v) u at_client
            (λ _ _ reads. bind-done _ _ w (started v) u reads λ r x got at_pod.
              on_result-done r _ _ x (started v) u at_pod
                (λ pod is_ok last.
                  configured pod v w x u r named (own_pod _ _ w x r got) is_ok last)
                (λ e _ bad. absurd (never_exits _ v _ u bad)))
            (λ e _ bad. absurd (never_exits _ v _ u bad))

  same_manager :
      (chosen m : Manager) (w u : Trace) → pure (started chosen) w ≡ done (started m) u → chosen ≡ m
  unfolding pure
  same_manager chosen m w u eq = cc

  module _ (tls : Tls) where
    -- What start_manager answers, where the manager is enabled.
    abbrev IsManager : Variables → Manager → Type 0
    IsManager vars m =
        (m ≡ pod_manager)
        ⊎ ((kc : KubeletClient) × (v : Trace) × (w : Trace) × (m ≡ polling kc)
            × (start_reconciler tls sys vars.host_ip vars.kubelet_port v ≡ done kc w))

    polls :
        (vars : Variables) (m : Manager) (t u : Trace)
        → (attempt (start_reconciler tls sys vars.host_ip vars.kubelet_port) >>= λ r.
              on_result r (λ kc. pure (polling kc)) (λ e. pure pod_manager))
            t
          ≡ done m u
        → IsManager vars m
    unfolding pure
    polls vars m t u eq = bind-done _ _ t m u eq λ r v tried looked.
        on_result-done r _ _ v m u looked
          (λ kc is_ok last.
            inr (kc, t, v, cc, attempt-done _ t v kc (tried ∙ ap (λ x. done x v) is_ok)))
          (λ e _ last. inl (cc))

    managed :
        (flags : Flags) (vars : Variables) (m : Manager) (t u : Trace)
        → start_manager sys tls flags vars t ≡ done m u
        → flags.enable_manager ≡ true
        → IsManager vars m
    unfolding start_manager pure
    managed flags vars m t u eq enabled =
        branch-done _ _ _ t m u eq
          (λ _ on.
            branch-done _ _ _ t m u on (λ _ tried. polls vars m t u tried) (λ _ last. inl (cc)))
          (λ off _. absurd (cc))

    -- Where main has served with the manager enabled, either the pod manager was started, or the
    -- loop over the pods of a kubelet to which StartReconciler could connect.
    pub main-managed :
        (flags : Flags) (vars : Variables) (m : Manager) (t u : Trace)
        → main sys tls flags vars t ≡ done (started m) u
        → flags.enable_manager ≡ true
        → (m ≡ pod_manager)
          ⊎ ((kc : KubeletClient) × (v : Trace) × (w : Trace) × (m ≡ polling kc)
              × (start_reconciler tls sys vars.host_ip vars.kubelet_port v ≡ done kc w))
    unfolding main pure
    main-managed flags vars m t u eq enabled =
        branch-done _ _ _ t (started m) u eq (λ _ bad. absurd (cc))
          λ _ go.
            branch-done _ _ _ t (started m) u go (λ _ bad. absurd (cc))
              λ _ runs. bind-done _ _ t (started m) u runs λ chosen v made serves.
                bind-done _ _ v (started m) u serves λ r w _ last.
                  on_result-done r _ _ w (started m) u last
                    (λ _ _ same.
                      rw (← same_manager chosen m w u same)
                        (managed flags vars chosen t v made enabled))
                    (λ e _ bad. absurd (cc))
