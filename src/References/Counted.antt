-- ===== src/References/Counted.antt =====
-- Mount and unmount of one volume, in any sequence: the references of its mount pod are those of the targets
-- that hold it, and the pod is there while one does.
use dfs_csi.Prelude.{ℕ, suc, ◌≡◌, String, false, Option, List, [], ◌∷◌, ◌==◌}
use dfs_csi.Prelude.Dict.{Dict}
use dfs_csi.Config.{Config, delete_delay_at_key}
use dfs_csi.Config.Setting.{JfsSetting}
use dfs_csi.System.{System, Trace}
use dfs_csi.System.Io.{Io, pure, ◌>>◌}
use dfs_csi.System.Returns.{Returns, Returns-pure, Returns-then}
use dfs_csi.Util.Patches.{get_reference_key}
use dfs_csi.Mount.{j_mount}
use dfs_csi.Mount.Builder.{generate_pod_name}
use dfs_csi.Mount.Refs.{j_umount}
use dfs_csi.Mount.Wait.{Fuel}
use dfs_csi.References.Objects.{annotations_after, IsServer}
use dfs_csi.References.Holders.{hold, let_go, Represents}
use dfs_csi.References.Mounted.{IsMountable}
use dfs_csi.References.Acquired.{j_mount-Returns}
use dfs_csi.References.Released.{j_umount-Returns}

pub data Change : Type 0 where
  acquire : String → Change
  release : String → Change

-- JMount and JUmount of a volume, one after the other, up to the first failure.
module _ (sys : System) (cfg : Config) (fuel : Fuel) (setting : JfsSetting)
    (volume_id path : String) (options : List String) where
  unfoldable pub make_change : Change → Io (Unit {0})
  make_change (acquire target) = j_mount sys cfg fuel setting volume_id path target options
  make_change (release target) = j_umount sys cfg fuel.retries volume_id target

  unfoldable pub make_changes : List Change → Io (Unit {0})
  unfolding make_change
  make_changes [] = pure tt
  make_changes (c ∷ changes) = make_change c >> make_changes changes

module _ (sys : System) where
  -- The same changes of a set.
  unfoldable pub holders_after : List Change → List String → List String
  unfolding hold let_go
  holders_after [] keys = keys
  holders_after (acquire target ∷ changes) keys =
      holders_after changes (hold (get_reference_key sys target) keys)
  holders_after (release target ∷ changes) keys =
      holders_after changes (let_go (get_reference_key sys target) keys)

  -- No target has the key of the time of deletion.
  abbrev pub AreApart : List Change → Type 0
  AreApart [] = Unit {0}
  AreApart (acquire target ∷ changes) =
      ((get_reference_key sys target == delete_delay_at_key) ≡ false) × AreApart changes
  AreApart (release target ∷ changes) = AreApart changes

module _ (sys : System) (cfg : Config) (volume_id : String) (old : Option (Dict String))
    (server : IsServer (generate_pod_name cfg volume_id) cfg.namespace sys old)
    (setting : JfsSetting) (path : String) (up : IsMountable sys setting path)
    (options : List String) where
  -- Let every call to the API server succeed, nobody else write the mount pod, a deleted pod be gone by
  -- the next call, and the mount point come up in time. Let the pod's references be a set of keys, and no
  -- pod be there if the set is empty. Then, given fuel for one round, any sequence of JMount and JUmount
  -- of the volume, without a delay of the deletion, returns without an error; behind it the references
  -- are the set that JMount adds its key to and JUmount takes its key from, and the pod is there exactly
  -- while this set is not empty.
  pub make_changes-Represents :
      (retries checks : ℕ) (changes : List Change) (keys : List String) (t : Trace)
      → AreApart sys changes
      → Represents keys (annotations_after (generate_pod_name cfg volume_id) cfg.namespace old t)
      → Returns
          (make_changes sys cfg
            (record { retries = suc retries; checks = suc checks })
            setting
            volume_id
            path
            options
            changes)
          t
          (λ _ u.
            Represents
              (holders_after sys changes keys)
              (annotations_after (generate_pod_name cfg volume_id) cfg.namespace old u))
  unfolding make_changes holders_after
  make_changes-Represents retries checks [] keys t apart h = Returns-pure tt t h
  make_changes-Represents retries checks (acquire target ∷ changes) keys t (one, rest) h =
      Returns-then _ _ t
        (j_mount-Returns sys cfg volume_id old server setting path up retries checks target one
          options keys t h)
        λ _ u held. make_changes-Represents retries checks changes _ u rest held
  make_changes-Represents retries checks (release target ∷ changes) keys t apart h =
      Returns-then _ _ t (j_umount-Returns sys cfg volume_id old server retries target keys t h)
        λ _ u left. make_changes-Represents retries checks changes _ u apart left
