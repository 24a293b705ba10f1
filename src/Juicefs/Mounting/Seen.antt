-- ===== src/Juicefs/Mounting/Seen.antt =====
-- What has been seen when JfsMount returns.
use mathlib.Core.Path.{subst₂}
use dfs_csi.Prelude.{
  ◌≡◌, ◌⊎◌, inl, inr, refl, sym, Bool, false, if◌then◌else◌, ap, ◌∙◌, String, true, some, List,
}
use dfs_csi.Prelude.Dict.{Dict, lookup, value_of}
use dfs_csi.Strings.{join_path}
use dfs_csi.Config.{Config, mount_base, pod_mount_base}
use dfs_csi.Config.Setting.{JfsSetting, no_setting, parse_setting, parse_setting-use_pod}
use dfs_csi.System.{System, Trace, ok}
use dfs_csi.System.Io.{done, pure, fail, lift}
use dfs_csi.System.Calls.{ended}
use dfs_csi.System.Steps.{
  bind-done, branch-done, on_result-done, on_option-done, attempt-done, lift-done,
}
use dfs_csi.Juicefs.{Jfs, get_unique_id}
use dfs_csi.Juicefs.ConsoleApi.{Console}
use dfs_csi.Juicefs.Mounting.{get_console, mount_fs, jfs_mount}
use dfs_csi.Mount.{j_mount}
use dfs_csi.Mount.Wait.{Fuel}
use dfs_csi.Mount.Wait.Ready.{IsSeen, j_mount-IsSeen}

-- What JfsMount has done for a volume and a target when it returns a file system, through a mount pod:
-- JMount of the volume's unique id, at its path, for the target, with a setting that was read from the
-- secrets and the context, and a source.
pub record IsMounted (sys : System) (cfg : Config) (fuel : Fuel) (volume_id target : String)
    (secrets ctx : Dict String) (options : List String) (t : Trace) (fs : Jfs) (u : Trace)
    : Type 0 where
  pub unique_id : String
  pub after_id : Trace
  pub before_mount : Trace
  pub setting : JfsSetting
  pub identified : get_unique_id sys volume_id t ≡ done unique_id after_id
  pub path : fs.mount_path ≡ join_path pod_mount_base unique_id
  pub read : parse_setting sys secrets ctx true ≡ ok setting
  pub sourced : fs.setting ≡ record setting { source = fs.setting.source }
  pub named : fs.name ≡ value_of secrets "name"
  pub mounted :
      j_mount sys cfg fuel fs.setting unique_id fs.mount_path target options before_mount
      ≡ done tt u
  pub seen : IsSeen fs.mount_path u

module _ (sys : System) (cfg : Config) (fuel : Fuel) where
  at_base :
      (pods : Bool) (volume_id : String)
      → pods ≡ true
      → join_path (if pods then pod_mount_base else mount_base) volume_id
        ≡ join_path pod_mount_base volume_id
  at_base true volume_id e = refl
  at_base false volume_id e = absurd (cc)

  -- MountFs of a setting that asks for a mount pod.
  mount_fs-done :
      (volume_id target : String) (options : List String) (setting : JfsSetting) (path : String)
      (t u : Trace)
      → setting.use_pod ≡ true
      → mount_fs sys cfg fuel volume_id target options setting t ≡ done path u
      → (path ≡ join_path pod_mount_base volume_id)
        × (j_mount sys cfg fuel setting volume_id
              (join_path pod_mount_base volume_id)
              target
              options
              t
            ≡ done tt u)
  unfolding mount_fs pure fail
  mount_fs-done volume_id target options setting path t u pods eq =
      bind-done _ _ t path u eq λ r v tried looked.
        on_result-done r _ _ v path u looked
          (λ _ is_ok last.
            branch-done _ _ _ t tt v (attempt-done _ t v tt (tried ∙ ap (λ x. done x v) is_ok))
              (λ _ mounts. (
                sym (ended _ path v u last).0 ∙ at_base setting.use_pod volume_id pods,
                subst₂
                    (λ p w. j_mount sys cfg fuel setting volume_id p target options t ≡ done tt w)
                    (at_base setting.use_pod volume_id pods) (sym (ended _ path v u last).1) mounts,
              ))
              (λ no_pod _. absurd (cc)))
          (λ _ _ bad. absurd (cc))

  no_base : {base : String} → lookup "BASE_URL" no_setting.envs ≡ some base → ⊥
  unfolding lookup
  no_base eq = cc

  -- A setting that a console is found for, and that was read for a mount pod, asks for one.
  asks_for_pod :
      (setting : JfsSetting) (secrets ctx : Dict String) (base : String)
      → parse_setting sys secrets ctx true ≡ ok setting
      → lookup "BASE_URL" setting.envs ≡ some base
      → setting.use_pod ≡ true
  unfolding lookup
  asks_for_pod setting secrets ctx base read found =
      by_case (parse_setting-use_pod sys secrets ctx true setting read)
    where
      by_case : (setting ≡ no_setting) ⊎ (setting.use_pod ≡ true) → setting.use_pod ≡ true
      by_case (inl nothing) = absurd (no_base (rw nothing at found))
      by_case (inr pods) = pods

  has_base :
      (setting : JfsSetting) (secrets : Dict String) (c : Console) (t u : Trace)
      → get_console sys setting secrets t ≡ done c u
      → (base : String) × (lookup "BASE_URL" setting.envs ≡ some base)
  unfolding get_console fail
  has_base setting secrets c t u eq =
      on_option-done _ _ _ t c u eq (λ _ bad. absurd (cc)) (λ base is_some _. (base, is_some))

  built : (g fs : Jfs) (v u : Trace) → pure g v ≡ done fs u → (g ≡ fs) × (v ≡ u)
  unfolding pure
  built g fs v u last = (cc, cc)

  -- JfsMount through a mount pod returns a file system only behind JMount for the volume and the target.
  pub jfs_mount-IsMounted :
      (volume_id target : String) (secrets ctx : Dict String) (options : List String) (fs : Jfs)
      (t u : Trace)
      → jfs_mount sys cfg fuel volume_id target secrets ctx options true t ≡ done fs u
      → IsMounted sys cfg fuel volume_id target secrets ctx options t fs u
  unfolding jfs_mount
  jfs_mount-IsMounted volume_id target secrets ctx options fs t u eq =
      bind-done _ _ t fs u eq λ unique_id v0 id eq0.
        bind-done _ _ v0 fs u eq0 λ setting v1 read eq1.
          bind-done _ _ v1 fs u eq1 λ console v2 found eq2.
            bind-done _ _ v2 fs u eq2 λ source v3 _ eq3.
              bind-done _ _ v3 fs u eq3 λ path v4 mounts last.
                subst₂
                  (λ (h : Jfs) w. IsMounted sys cfg fuel volume_id target secrets ctx options t h w)
                  (built _ fs v4 u last).0 (built _ fs v4 u last).1
                  (mounted_by unique_id setting console source path v0 v1 v2 v3 v4 id read found
                    mounts)
    where
      pods :
          (setting : JfsSetting) (c : Console) (v0 v1 v2 : Trace)
          → lift (parse_setting sys secrets ctx true) v0 ≡ done setting v1
          → get_console sys setting secrets v1 ≡ done c v2
          → setting.use_pod ≡ true
      pods setting c v0 v1 v2 read found =
          asks_for_pod setting secrets ctx _ (lift-done _ v0 setting v1 read)
            (has_base setting secrets c v1 v2 found).1

      mounted_by :
          (unique_id : String) (setting : JfsSetting) (console : Console) (source path : String)
          (v0 v1 v2 v3 v4 : Trace)
          → get_unique_id sys volume_id t ≡ done unique_id v0
          → lift (parse_setting sys secrets ctx true) v0 ≡ done setting v1
          → get_console sys setting secrets v1 ≡ done console v2
          → mount_fs sys cfg fuel unique_id target options (record setting { source = source }) v3
            ≡ done path v4
          → IsMounted sys cfg fuel volume_id target secrets ctx options t
              (record {
                console = console;
                name = value_of secrets "name";
                mount_path = path;
                setting = record setting { source = source };
              })
              v4
      mounted_by unique_id setting console source path v0 v1 v2 v3 v4 id read found mounts =
          let (at, through) =
            mount_fs-done unique_id target options (record setting { source = source }) path v3 v4
              (pods setting console v0 v1 v2 read found) mounts in
          let mounted : j_mount sys cfg fuel (record setting { source = source }) unique_id path
                target options v3
              ≡ done tt v4 =
            rw at through in
          record {
            unique_id = unique_id;
            after_id = v0;
            before_mount = v3;
            setting = setting;
            identified = id;
            path = at;
            read = lift-done _ v0 setting v1 read;
            sourced = refl;
            named = refl;
            mounted = mounted;
            seen =
                j_mount-IsSeen sys cfg fuel (record setting { source = source }) unique_id path
                  target options v3 v4 mounted;
          }
