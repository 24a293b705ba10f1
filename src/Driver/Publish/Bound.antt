-- ===== src/Driver/Publish/Bound.antt =====
-- What holds when NodePublishVolume returns.
use mathlib.Core.Path.{subst}
use dfs_csi.Prelude.{some, ◌≡◌, ◌⊎◌, inl, inr, ap, ◌∙◌, String, true, List, [], ◌∷◌, arith}
use dfs_csi.Config.{Config}
use dfs_csi.System.{System, Event, Trace, MountInfo, ok}
use dfs_csi.System.Io.{done, pure, fail}
use dfs_csi.System.Calls.{same_end, mount_call, table_read}
use dfs_csi.System.Steps.{
  bind-done, then-done, branch-done, on_result-done, on_option-done, relabelled-done,
}
use dfs_csi.Juicefs.{Jfs, create_vol}
use dfs_csi.Juicefs.ConsoleApi.{Codec}
use dfs_csi.Prelude.Dict.{value_of}
use dfs_csi.Strings.{join_path}
use dfs_csi.Juicefs.Modes.{Opens, create_vol-Opens}
use dfs_csi.Juicefs.Mounting.Seen.{IsMounted, jfs_mount-IsMounted}
use dfs_csi.Mount.Wait.{Fuel}
use dfs_csi.Driver.Node.{new_scan, bind, check_bind_and_mount, create_target}
use dfs_csi.Driver.Node.Bind.{is_mounted, has_target-scan}
use dfs_csi.Driver.Publish.Options.{AreOptionsOf, mount_options-AreOptionsOf}
use dfs_csi.Driver.Publish.{
  NodePublishRequest, VolumeCapability, mount_options, publish, node_publish_volume,
}

-- The last call bound the source at the target, or read a mount table where the target is mounted.
abbrev pub IsBound : String → String → Trace → Type 0
IsBound source target u =
    ((earlier : Trace) × (u ≡ Event.mounted source target "none" ("bind" ∷ []) (ok tt) ∷ earlier))
    ⊎ ((infos : List MountInfo) × (earlier : Trace) × (u ≡ Event.read_mounts (ok infos) ∷ earlier)
        × (is_mounted target infos ≡ true))

-- The directory of the volume.
abbrev pub directory_of : Jfs → NodePublishRequest → String
directory_of fs req = join_path fs.mount_path (value_of req.volume_context "subPath")

module _ (sys : System) where
  bind-IsBound :
      (source target : String) (t u : Trace)
      → bind sys source target t ≡ done tt u
      → IsBound source target u
  unfolding bind pure fail
  bind-IsBound source target t u eq = bind-done _ _ t tt u eq λ r v tried looked.
      on_result-done r _ _ v tt u looked
        (λ _ is_ok last. inl (
          t,
          same_end v u last
              ∙ mount_call sys source target t v r tried
              ∙ ap (λ q. Event.mounted source target "none" ("bind" ∷ []) q ∷ t) is_ok,
        ))
        (λ _ _ failed. then-done _ _ v tt u failed λ w _ _ bad. absurd (cc))

  check-IsBound :
      (path source target : String) (t u : Trace)
      → check_bind_and_mount sys path source target t ≡ done tt u
      → IsBound source target u
  unfolding check_bind_and_mount pure fail
  check-IsBound path source target t u eq = bind-done _ _ t tt u eq λ infos v got looked.
      on_option-done _ _ _ v tt u looked (λ _ bad. absurd (cc))
        λ minor _ there.
          branch-done _ _ _ v tt u there
            (λ has_target bound.
              branch-done _ _ _ v tt u bound
                (λ _ last. inr (
                  infos,
                  t,
                  same_end v u last ∙ table_read sys t v infos got,
                  ground (arith, has_target-scan path target new_scan infos),
                ))
                (λ _ again.
                  then-done _ _ v tt u again λ w _ _ binds. bind-IsBound source target w u binds))
            (λ _ binds. bind-IsBound source target v u binds)

  module _ (codec : Codec) (cfg : Config) (fuel : Fuel) where
    -- The stages of a volume that is published: JfsMount for the volume and the target, with the options
    -- of the request, the directory of the volume in the file system, and the bind mount of it.
    pub record IsPublished (req : NodePublishRequest) (t u : Trace) : Type 0 where
      pub capability : VolumeCapability
      pub fs : Jfs
      pub before_mount : Trace
      pub after_mount : Trace
      pub after_volume : Trace
      pub target_made : create_target sys fuel.checks req.target_path t ≡ done tt before_mount
      pub asked : req.capability ≡ some capability
      pub mounted :
          IsMounted sys cfg fuel req.volume_id req.target_path req.secrets req.volume_context
            (mount_options req capability)
            before_mount
            fs
            after_mount
      pub chosen : AreOptionsOf req capability (mount_options req capability)
      pub made :
          create_vol sys codec fs (value_of req.volume_context "subPath") 0 "" after_mount
          ≡ done (directory_of fs req) after_volume
      pub bound : IsBound (directory_of fs req) req.target_path u

    made_at :
        (fs : Jfs) (sub_path source : String) (t u : Trace)
        → create_vol sys codec fs sub_path 0 "" t ≡ done source u
        → source ≡ join_path fs.mount_path sub_path
    made_at fs sub_path source t u eq =
        (subst (λ o. Opens (join_path fs.mount_path sub_path) o) eq
          (create_vol-Opens sys codec fs sub_path t)).0

    publish-IsPublished :
        (req : NodePublishRequest) (capability : VolumeCapability) (t u : Trace)
        → req.capability ≡ some capability
        → publish sys codec cfg fuel req capability t ≡ done tt u
        → IsPublished req t u
    unfolding publish
    publish-IsPublished req capability t u asked eq =
        then-done _ _ t tt u eq λ v0 _ makes_target eq0.
          bind-done _ _ v0 tt u eq0 λ fs v1 mounts eq1.
            bind-done _ _ v1 tt u eq1 λ source v2 makes binds.
              published_by fs source v0 v1 v2 (relabelled-done _ _ t tt v0 makes_target)
                (jfs_mount-IsMounted sys cfg fuel _ _ _ _ _ fs v0 v1
                  (relabelled-done _ _ v0 fs v1 mounts))
                (relabelled-done _ _ v1 source v2 makes)
                (check-IsBound fs.mount_path source req.target_path v2 u
                  (relabelled-done _ _ v2 tt u binds))
      where
        published_by :
            (fs : Jfs) (source : String) (v0 v1 v2 : Trace)
            → create_target sys fuel.checks req.target_path t ≡ done tt v0
            → IsMounted sys cfg fuel req.volume_id req.target_path req.secrets req.volume_context
                (mount_options req capability)
                v0
                fs
                v1
            → create_vol sys codec fs (value_of req.volume_context "subPath") 0 "" v1
              ≡ done source v2
            → IsBound source req.target_path u
            → IsPublished req t u
        published_by fs source v0 v1 v2 target_made mounts makes binds = record {
          target_made = target_made;
          capability = capability;
          fs = fs;
          before_mount = v0;
          after_mount = v1;
          after_volume = v2;
          asked = asked;
          chosen = mount_options-AreOptionsOf req capability;
          mounted = mounts;
          made = makes ∙ ap (λ d. done d v2) (made_at fs _ source v1 v2 makes);
          bound = subst (λ d. IsBound d req.target_path u) (made_at fs _ source v1 v2 makes) binds;
        }

    -- NodePublishVolume returns without an error only if these were done: the target was made; JMount of the
    -- unique id of the volume, at its path under the mount base, for the target, with a setting that was
    -- read from the secrets and the context of the request, and with the options that the context names,
    -- `ro` where the request or its access mode only reads, and the flags of its capability; the root of
    -- a file system was seen at this path when JMount returned; the directory that the context names as
    -- `subPath` was then made under this path; and the last call bound this directory at the target or
    -- read a mount table where the target is mounted.
    pub node_publish_volume-IsPublished :
        (req : NodePublishRequest) (t u : Trace)
        → node_publish_volume sys codec cfg fuel req t ≡ done tt u
        → IsPublished req t u
    unfolding node_publish_volume fail
    node_publish_volume-IsPublished req t u eq =
        branch-done _ _ _ t tt u eq (λ _ bad. absurd (cc))
          λ _ go.
            on_option-done _ _ _ t tt u go (λ _ bad. absurd (cc))
              λ capability asked supported.
                branch-done _ _ _ t tt u supported
                  (λ _ publishes. publish-IsPublished req capability t u asked publishes)
                  (λ _ bad. absurd (cc))
