-- ===== src/References/Released.antt =====
-- JUmount on an API server that serves every call: the reference goes, and the pod with the last one.
use dfs_csi.Prelude.{
  ℕ, suc, ◌≡◌, refl, ap, String, true, false, Option, none, some, List, [], ◌∷◌, is_empty,
  starts_with, eq_iff, arith,
}
use dfs_csi.Prelude.Dict.{Dict, lookup, erase}
use dfs_csi.Config.{Config}
use dfs_csi.Kube.{Pod}
use dfs_csi.System.{System, Trace}
use dfs_csi.System.Io.{pure, get_pod, branch, ◌>>=◌}
use dfs_csi.System.Returns.{
  Returns, Returns-pure, Returns-weaken, Returns-true, Returns-false, Returns-bind, Returns-then,
  Returns-tried, Returns-option, Returns-same,
}
use dfs_csi.Util.Patches.{get_reference_key, del_pod_annotation}
use dfs_csi.Util.Patches.Keys.{get_reference_key-starts_with}
use dfs_csi.Mount.Builder.{has_ref, generate_pod_name}
use dfs_csi.Mount.Refs.{del_ref, del_ref_loop, delete_mount_pod, drop_ref, j_umount}
use dfs_csi.Mount.Refs.Safety.{should_delay-unreferenced}
use dfs_csi.References.Objects.{
  is_named, annotations_after, patched, IsServer, IsFound, get_pod-Returns, patch_pod-Returns,
  delete_pod-Returns, missing-Returns,
}
use dfs_csi.References.Holders.{
  has, let_go, IsHolding, Represents, erase-IsHolding, let_go-IsHolding, has_ref-IsHolding,
}

module _ (sys : System) (name ns : String) (old : Option (Dict String))
    (server : IsServer name ns sys old) where
  -- A look at a pod by its own name.
  looked :
      (pod : Pod) (t : Trace) (d : Dict String)
      → is_named name ns pod ≡ true
      → annotations_after name ns old t ≡ some d
      → Returns (get_pod sys pod.name pod.namespace) t (IsFound name ns sys old server d)
  looked pod t d named h = rw (at_name, at_namespace) (get_pod-Returns name ns sys old server t d h)
    where
      at_name : pod.name ≡ name
      at_name = grind (arith, eq_iff pod.name name)

      at_namespace : pod.namespace ≡ ns
      at_namespace = grind (arith, eq_iff pod.namespace ns)

  -- The annotations stand for the set without the key.
  abbrev IsLetGo : String → List String → Trace → Type 0
  IsLetGo key keys u =
      (d : Dict String) × (annotations_after name ns old u ≡ some d) × IsHolding (let_go key keys) d

  del_ref-Returns :
      (pod : Pod) (key : String) (keys : List String) (t : Trace) (d : Dict String)
      → is_named name ns pod ≡ true
      → starts_with key "mosfs-" ≡ true
      → annotations_after name ns old t ≡ some d
      → IsHolding keys d
      → Returns (del_ref sys pod key) t (λ _ u. IsLetGo key keys u)
  unfolding del_ref del_pod_annotation patched
  del_ref-Returns pod key keys t d named own h holds =
      Returns-bind _ _ t (looked pod t d named h) λ po u seen.
        Returns-option (lookup key po.annotations) _ _ u
          (λ gone. Returns-pure tt u (
            d,
            seen.current,
            let_go-IsHolding key keys d own
                (ground (arith, gone, ap (λ a. has key a) seen.annotated)) holds,
          ))
          (λ v there.
            Returns-weaken _ u
              (patch_pod-Returns name ns sys old server u d po _ seen.named seen.current)
              λ _ w after. (erase key d, after, erase-IsHolding key keys d holds))

  del_ref_loop-Returns :
      (fuel : ℕ) (pod : Pod) (key : String) (keys : List String) (t : Trace) (d : Dict String)
      → is_named name ns pod ≡ true
      → starts_with key "mosfs-" ≡ true
      → annotations_after name ns old t ≡ some d
      → IsHolding keys d
      → Returns (del_ref_loop sys (suc fuel) pod key) t (λ _ u. IsLetGo key keys u)
  unfolding del_ref_loop
  del_ref_loop-Returns fuel pod key keys t d named own h holds =
      Returns-tried _ _ _ t (del_ref-Returns pod key keys t d named own h holds)
        λ _ u gone. Returns-pure tt u gone

  delete_mount_pod-Returns :
      (pod : Pod) (t : Trace) (d : Dict String)
      → is_named name ns pod ≡ true
      → annotations_after name ns old t ≡ some d
      → IsHolding [] d
      → Returns
          (delete_mount_pod sys pod.name pod.namespace)
          t
          (λ _ u. annotations_after name ns old u ≡ none)
  unfolding delete_mount_pod
  delete_mount_pod-Returns pod t d named h holds =
      Returns-bind _ _ t (looked pod t d named h) λ po u seen.
        Returns-false _ _ _ u (free po u seen) (
          Returns-same _ _ u u false (should_delay-unreferenced sys po u (free po u seen)) (
            Returns-false false _ _ u refl
              (delete_pod-Returns name ns sys old server u po seen.named)))
    where
      free : (po : Pod) (u : Trace) → IsFound name ns sys old server d po u → has_ref po ≡ false
      free po u seen = has_ref-IsHolding [] po (rw seen.annotated holds)

  -- The last look: the pod stays with its other references, and is deleted without any.
  settle-Returns :
      (pod : Pod) (keys : List String) (t : Trace) (d : Dict String)
      → is_named name ns pod ≡ true
      → annotations_after name ns old t ≡ some d
      → IsHolding keys d
      → Returns
          (get_pod sys pod.name pod.namespace >>= λ new_pod.
            branch (has_ref new_pod) (pure tt) (delete_mount_pod sys pod.name pod.namespace))
          t
          (λ _ u. Represents keys (annotations_after name ns old u))
  settle-Returns pod [] t d named h holds = Returns-bind _ _ t (looked pod t d named h) λ po u seen.
      Returns-false _ _ _ u (has_ref-IsHolding [] po (rw seen.annotated holds)) (
        Returns-weaken _ u (delete_mount_pod-Returns pod u d named seen.current holds)
          λ _ w gone. rw gone refl)
  settle-Returns pod (k ∷ keys) t d named h holds =
      Returns-bind _ _ t (looked pod t d named h) λ po u seen.
        Returns-true _ _ _ u (has_ref-IsHolding (k ∷ keys) po (rw seen.annotated holds))
          (Returns-pure tt u (rw seen.current (refl, holds)))

  drop_ref-Returns :
      (fuel : ℕ) (pod : Pod) (target : String) (keys : List String) (t : Trace) (d : Dict String)
      → is_named name ns pod ≡ true
      → annotations_after name ns old t ≡ some d
      → IsHolding keys d
      → Returns (drop_ref sys (suc fuel) pod target) t (λ _ u.
        Represents (let_go (get_reference_key sys target) keys) (annotations_after name ns old u))
  unfolding drop_ref
  drop_ref-Returns fuel pod target keys t d named h holds =
      Returns-then _ _ t
        (del_ref_loop-Returns fuel pod (get_reference_key sys target) keys t d named
          (get_reference_key-starts_with sys target) h holds)
        λ _ u (left, current, holding). settle-Returns pod _ u left named current holding

module _ (sys : System) (cfg : Config) (volume_id : String) (old : Option (Dict String))
    (server : IsServer (generate_pod_name cfg volume_id) cfg.namespace sys old) where
  nothing_held :
      (key : String) (keys : List String) → is_empty keys ≡ true → is_empty (let_go key keys) ≡ true
  unfolding let_go
  nothing_held key [] e = refl
  nothing_held key (k ∷ keys) e = absurd (cc)

  pub j_umount-Returns :
      (fuel : ℕ) (target : String) (keys : List String) (t : Trace)
      → Represents keys (annotations_after (generate_pod_name cfg volume_id) cfg.namespace old t)
      → Returns (j_umount sys cfg (suc fuel) volume_id target) t (λ _ u.
        Represents
          (let_go (get_reference_key sys target) keys)
          (annotations_after (generate_pod_name cfg volume_id) cfg.namespace old u))
  unfolding j_umount
  j_umount-Returns fuel target keys t h =
      by_state (annotations_after (generate_pod_name cfg volume_id) cfg.namespace old t) refl h
    where
      by_state :
          (o : Option (Dict String))
          → annotations_after (generate_pod_name cfg volume_id) cfg.namespace old t ≡ o
          → Represents keys o
          → Returns (j_umount sys cfg (suc fuel) volume_id target) t (λ _ u.
            Represents
              (let_go (get_reference_key sys target) keys)
              (annotations_after (generate_pod_name cfg volume_id) cfg.namespace old u))
      by_state none now nothing =
          missing-Returns (generate_pod_name cfg volume_id) cfg.namespace sys old server _ _ t now
            λ e u absent gone.
              Returns-true _ _ _ u absent
                (Returns-pure tt u (rw gone (nothing_held _ keys nothing)))
      by_state (some d) now (filled, holding) =
          Returns-tried _ _ _ t
            (get_pod-Returns (generate_pod_name cfg volume_id) cfg.namespace sys old server t d now)
            λ po u seen.
              drop_ref-Returns sys (generate_pod_name cfg volume_id) cfg.namespace old server fuel
                po target keys u d seen.named seen.current holding
