-- ===== src/Warmup/Cached/Requests.antt =====
-- The statuses that Reconcile of the cache controller sends.
use dfs_csi.Prelude.{
  ◌≡◌, refl, ◌∙◌, String, true, false, some, none, List, [], ◌∷◌, ◌==◌, is_empty, arith,
}
use dfs_csi.Kube.{Pod, Cache, PersistentVolumeClaim}
use dfs_csi.System.{System, environment, Failure, Event, Result, Trace, ok, err}
use dfs_csi.System.Io.{
  Io, done, pure, attempt, list_pods, get_claim, get_cache, update_status, on_option, ◌>>=◌,
}
use dfs_csi.System.Keeps.{Keeps}
use dfs_csi.Warmup.{
  pod_nodes, warm_up_command, cache_path, warm_up_loop, with_status, warm_up_all, warm_nodes,
  from_pvc_get_used_pods_node_name, reconcile_request, reconcile_cache, no_reply,
  get_storage_class_name_and_pv_name,
}
use dfs_csi.Warmup.Cached.{Place, all_at, loop_at, call_of, loop-ok, warmed}

module _ (sys : System) where
  -- The place of a cache whose claim has the class and the volume.
  abbrev pub place_of : String → String → Cache → Place
  place_of sc_name pv_name c = record {
    sc_name = sc_name;
    pv_name = pv_name;
    path =
        cache_path (environment sys "STORAGE_CLASS_SHARE_MOUNT" == "true") sc_name pv_name c.path;
    namespace = environment sys "MOSFS_MOUNT_NAMESPACE";
    share_mount = environment sys "STORAGE_CLASS_SHARE_MOUNT" == "true";
  }

  -- The listing of pods.
  listed :
      (c : Cache) (namespace : String) (t : Trace) (r : Result (List Pod))
      → sys.list_pods t namespace ≡ r
      → attempt (from_pvc_get_used_pods_node_name sys namespace c.pvc_name) t ≡ elim r [
        | ok pods ↦
            done (ok (pod_nodes c.pvc_name pods)) (Event.listed_pods namespace (ok pods) ∷ t)
        | err e ↦
            done
              (err (Failure.message "list pod in namesapce"))
              (Event.listed_pods namespace (err e) ∷ t)
      ]
  unfolding from_pvc_get_used_pods_node_name list_pods ◌>>=◌
  listed c namespace t (ok pods) eq = rw (eq, attempt) (rw eq refl)
  listed c namespace t (err e) eq = rw (eq, attempt) (rw eq refl)

  module _ (claim : PersistentVolumeClaim) (pods : List Pod) (sc_name : String) (c : Cache) where
    -- All nodes are warmed up where each command succeeds.
    loop-warm :
        (p : Place) (nodes : List String) (t : Trace)
        → ((u : Trace) (pod : String) → sys.exec u p.namespace pod (warm_up_command p.path) ≡ ok tt)
        → loop_at sys p nodes t ≡ done none (warmed p nodes t)
    unfolding warm_up_loop pure
    loop-warm p [] t works = refl
    loop-warm p (node ∷ nodes) t works =
        loop-ok sys p node nodes t (works t _)
        ∙ loop-warm p nodes (call_of sys p node (ok tt) ∷ t) works

    -- warmUpAll where each call succeeds.
    warm_all :
        (p : Place) (nodes : List String) (t : Trace)
        → ((u : Trace) (pod : String) → sys.exec u p.namespace pod (warm_up_command p.path) ≡ ok tt)
        → ((u : Trace) (d : Cache) → sys.update_status u d ≡ ok tt)
        → all_at sys p c nodes t
          ≡ done tt (Event.updated_status (record c { cached = true }) (ok tt) ∷ warmed p nodes t)
    unfolding warm_up_all update_status with_status on_option ◌>>=◌
    warm_all p nodes t works updates =
        grind (
          arith,
          loop-warm p nodes t works,
          updates (warmed p nodes t) (record c { cached = true }),
        )

    names_of :
        (namespace : String) (t : Trace)
        → sys.get_claim t namespace c.pvc_name ≡ ok claim
        → claim.storage_class_name ≡ some sc_name
        → (sc_name == "") ≡ false
        → (claim.volume_name == "") ≡ false
        → get_storage_class_name_and_pv_name sys namespace c.pvc_name t
          ≡ done (sc_name, claim.volume_name) (Event.got_claim namespace c.pvc_name (ok claim) ∷ t)
    unfolding get_storage_class_name_and_pv_name get_claim ◌>>=◌
    names_of namespace t read class named bound = grind arith

    -- Reconcile of a cache that is neither deleted nor cached warms up each node of the claim's pods
    -- and sends the cache with the status `cached`, if the claim has a class and is bound, some pod
    -- that uses it runs on a node, the namespace is set, and the API server answers each call
    -- without an error.
    pub reconcile-warms :
        (namespace name : String) (t : Trace)
        → sys.get_cache t namespace name ≡ ok c
        → c.deleting ≡ false
        → c.cached ≡ false
        → ((u : Trace) → sys.get_claim u namespace c.pvc_name ≡ ok claim)
        → claim.storage_class_name ≡ some sc_name
        → (sc_name == "") ≡ false
        → (claim.volume_name == "") ≡ false
        → ((u : Trace) → sys.list_pods u namespace ≡ ok pods)
        → is_empty (pod_nodes c.pvc_name pods) ≡ false
        → (environment sys "MOSFS_MOUNT_NAMESPACE" == "") ≡ false
        → ((u : Trace) (ns pod : String) (args : List String) → sys.exec u ns pod args ≡ ok tt)
        → ((u : Trace) (d : Cache) → sys.update_status u d ≡ ok tt)
        → reconcile_request sys namespace name t
          ≡ done no_reply (
              Event.updated_status (record c { cached = true }) (ok tt)
              ∷ warmed (place_of sc_name claim.volume_name c) (pod_nodes c.pvc_name pods) (
                  Event.listed_pods namespace (ok pods)
                  ∷ Event.got_claim namespace c.pvc_name (ok claim)
                  ∷ Event.got_cache namespace name (ok c)
                  ∷ t))
    unfolding reconcile_request reconcile_cache warm_nodes get_cache ◌>>=◌
    reconcile-warms namespace name t got alive fresh claimed class named bound lists used set works
          updates =
        grind (
          arith,
          names_of namespace (Event.got_cache namespace name (ok c) ∷ t) (claimed _) class named
              bound,
          listed c namespace
              (Event.got_claim namespace c.pvc_name (ok claim)
                ∷ Event.got_cache namespace name (ok c)
                ∷ t)
              (ok pods) (lists _),
          warm_all (place_of sc_name claim.volume_name c) (pod_nodes c.pvc_name pods)
              (Event.listed_pods namespace (ok pods)
                ∷ Event.got_claim namespace c.pvc_name (ok claim)
                ∷ Event.got_cache namespace name (ok c)
                ∷ t)
              (λ u pod. works u _ pod _) updates,
        )
