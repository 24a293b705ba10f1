-- ===== src/References/Acquired.antt =====
-- JMount of a mount pod, whether the pod is there or is created.
use dfs_csi.Prelude.{
  ℕ, suc, ◌≡◌, refl, String, true, false, Option, none, some, List, [], ◌∷◌, ◌==◌, starts_with,
  eq_refl, arith,
}
use mathlib.Core.Path.{subst}
use dfs_csi.Prelude.Dict.{Dict, lookup, insert}
use dfs_csi.Config.{Config, delete_delay_at_key}
use dfs_csi.Config.Setting.{JfsSetting}
use dfs_csi.System.{System, Trace}
use dfs_csi.System.Returns.{Returns, Returns-weaken, Returns-same}
use dfs_csi.Util.Patches.{get_reference_key}
use dfs_csi.Util.Patches.Keys.{get_reference_key-starts_with}
use dfs_csi.Mount.{mount_command, j_mount}
use dfs_csi.Mount.Builder.{Resources, generate_pod_name, new_mount_pod}
use dfs_csi.Mount.Wait.{first_pod, wait_loop, wait_until_mount}
use dfs_csi.References.Objects.{annotations_after, IsServer}
use dfs_csi.References.Holders.{hold, hold-filled, IsHolding, Represents}
use dfs_csi.References.Mounted.{IsMountable, found-Returns, created-Returns}

-- The annotations of a pod that is created.
first_pod-annotations :
    (sys : System) (cfg : Config) (setting : JfsSetting) (r : Resources)
    → (pod_name cmd path target : String) → setting.deleted_delay ≡ ""
    → (first_pod sys cfg setting r pod_name cmd path target).annotations
      ≡ (get_reference_key sys target, target) ∷ []
unfolding first_pod new_mount_pod insert
first_pod-annotations sys cfg setting r pod_name cmd path target none_set = rw none_set refl

-- One reference.
one-IsHolding :
    (key target : String)
    → starts_with key "mosfs-" ≡ true
    → (key == delete_delay_at_key) ≡ false
    → IsHolding (key ∷ []) ((key, target) ∷ [])
unfolding lookup
one-IsHolding key target own apart = record {
  same = λ j prefix. ground arith;
  prefixed = ground arith;
  timeless = ground arith;
}

held_again : (key : String) → hold key (key ∷ []) ≡ key ∷ []
unfolding hold
held_again key = ground (arith, eq_refl key)

module _ (sys : System) (cfg : Config) (volume_id : String) (old : Option (Dict String))
    (server : IsServer (generate_pod_name cfg volume_id) cfg.namespace sys old)
    (setting : JfsSetting) (path : String) (up : IsMountable sys setting path) where
  held-Represents :
      (key : String) (keys : List String) (o : Option (Dict String))
      → ((d : Dict String) × (o ≡ some d) × IsHolding (hold key keys) d)
      → Represents (hold key keys) o
  held-Represents key keys none (d, there, holding) = absurd (cc)
  held-Represents key keys (some a) (d, there, holding) =
      (hold-filled key keys, ground (arith, there, holding))

  module _ (retries checks : ℕ) (target : String)
      (apart : (get_reference_key sys target == delete_delay_at_key) ≡ false) where
    abbrev IsHeldAfter : List String → Trace → Type 0
    IsHeldAfter keys u =
        Represents (hold (get_reference_key sys target) keys)
          (annotations_after (generate_pod_name cfg volume_id) cfg.namespace old u)

    loop-Returns :
        (r : Resources) (cmd : String) (keys : List String) (t : Trace)
        → Represents keys (annotations_after (generate_pod_name cfg volume_id) cfg.namespace old t)
        → Returns
            (wait_loop sys cfg
              (record { retries = suc retries; checks = suc checks })
              (first_pod sys cfg setting r (generate_pod_name cfg volume_id) cmd path target)
              (generate_pod_name cfg volume_id)
              path
              target
              (suc (suc up.rounds)))
            t
            (λ _ u. IsHeldAfter keys u)
    unfolding first_pod new_mount_pod hold
    loop-Returns r cmd keys t h =
        by_state keys (annotations_after (generate_pod_name cfg volume_id) cfg.namespace old t) refl
          h
      where
        by_state :
            (ks : List String) (o : Option (Dict String))
            → annotations_after (generate_pod_name cfg volume_id) cfg.namespace old t ≡ o
            → Represents ks o
            → Returns
                (wait_loop sys cfg
                  (record { retries = suc retries; checks = suc checks })
                  (first_pod sys cfg setting r (generate_pod_name cfg volume_id) cmd path target)
                  (generate_pod_name cfg volume_id)
                  path
                  target
                  (suc (suc up.rounds)))
                t
                (λ _ u. IsHeldAfter ks u)
        by_state ks (some d) now (filled, holding) =
            Returns-weaken _ t
              (found-Returns sys cfg (generate_pod_name cfg volume_id) old server target apart
                setting path up retries checks (suc up.rounds) _ ks t d now holding)
              λ _ u held. held-Represents (get_reference_key sys target) ks _ held
        by_state (k ∷ ks) none now filled = absurd (cc)
        by_state [] none now nothing =
            Returns-weaken _ t
              (created-Returns sys cfg (generate_pod_name cfg volume_id) old server target apart
                setting path up retries checks up.rounds
                (first_pod sys cfg setting r (generate_pod_name cfg volume_id) cmd path target)
                (get_reference_key sys target ∷ []) t now
                (ground (arith, eq_refl (generate_pod_name cfg volume_id), eq_refl cfg.namespace))
                (rw
                  (first_pod-annotations sys cfg setting r (generate_pod_name cfg volume_id) cmd
                    path target up.no_delay)
                  (one-IsHolding (get_reference_key sys target) target
                    (get_reference_key-starts_with sys target) apart)))
              λ _ u held.
                subst
                  (λ ks.
                    Represents ks
                      (annotations_after (generate_pod_name cfg volume_id) cfg.namespace old u))
                  (held_again (get_reference_key sys target))
                  (held-Represents (get_reference_key sys target)
                    (get_reference_key sys target ∷ []) _ held)

    pub j_mount-Returns :
        (options : List String) (keys : List String) (t : Trace)
        → Represents keys (annotations_after (generate_pod_name cfg volume_id) cfg.namespace old t)
        → Returns
            (j_mount sys cfg
              (record { retries = suc retries; checks = suc checks })
              setting
              volume_id
              path
              target
              options)
            t
            (λ _ u. IsHeldAfter keys u)
    unfolding j_mount wait_until_mount
    j_mount-Returns options keys t h =
        let (r, read) = up.resources t in
        rw up.enough (
          Returns-same _ _ t t r read
            (loop-Returns r (mount_command setting path options) keys t h))
