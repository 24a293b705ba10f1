-- ===== src/Driver/Controller/Created.antt =====
-- What holds when CreateVolume returns a volume.
use mathlib.Core.Path.{subst}
use dfs_csi.Prelude.{
  ◌≡◌, refl, ap, ◌∙◌, String, Bool, true, false, some, [], ◌∷◌, ◌==◌, arith, if◌then◌else◌,
}
use dfs_csi.Prelude.Dict.{lookup, lookup-insert}
use dfs_csi.Config.{Config}
use dfs_csi.System.{System, Event, Trace, ok}
use dfs_csi.System.Io.{Outcome, done}
use dfs_csi.System.Calls.{ended, cleaned, detached}
use dfs_csi.System.Steps.{bind-done, then-done, relabelled-done}
use dfs_csi.Util.{parse_qos_params}
use dfs_csi.Util.Locks.{ObjLocks, has, try_acquire}
use dfs_csi.Mount.Wait.{Fuel}
use dfs_csi.Juicefs.{Jfs, jfs_unmount}
use dfs_csi.Juicefs.Mounting.{jfs_mount}
use dfs_csi.Juicefs.ConsoleApi.{Codec}
use dfs_csi.Driver.Controller.{
  ControllerService, CreateVolumeRequest, CsiVolume, locked, is_smaller, make_volume, provision,
  create_locked, create_volume,
}
use dfs_csi.Driver.Controller.Sizes.{IsAdmitted, size-create_volume}

module _ {A : Type 0} {S : Type 0} {C : Type 0} where
  -- Where a handler with a test returns, so does one of its branches.
  if-done :
      (b : Bool) (x y : S × Outcome A) (a : A) (u : Trace)
      → (if b then x else y).1 ≡ done a u
      → (b ≡ true → x.1 ≡ done a u → C)
      → (b ≡ false → y.1 ≡ done a u → C)
      → C
  if-done true x y a u eq k l = k refl eq
  if-done false x y a u eq k l = l refl eq

free_before :
    (id : String) (locks : ObjLocks) → (try_acquire id locks).0 ≡ true → has locks id ≡ false
unfolding try_acquire
free_before id locks h = ground arith

-- The answer to a request: the size that was asked for, the parameters, and under `subPath` the name
-- of the directory, which NodePublishVolume looks up.
pub record IsAnswer (req : CreateVolumeRequest) (volume : CsiVolume) : Type 0 where
  pub same_id : volume.volume_id ≡ req.name
  pub same_size : volume.capacity_bytes ≡ req.required_bytes
  pub same_source : volume.content_source ≡ req.content_source
  pub context :
      (k : String)
      → lookup k volume.volume_context
        ≡ (if "subPath" == k then some req.name else lookup k req.parameters)

module _ (sys : System) (codec : Codec) (cfg : Config) (fuel : Fuel) where
  -- The stages of a volume that is created: the file system is mounted, the directory made, and the
  -- last two calls unmount the file system and clean its mount point.
  pub record IsMade (req : CreateVolumeRequest) (t u : Trace) : Type 0 where
    pub fs : Jfs
    pub after_mount : Trace
    pub after_make : Trace
    pub mounted : jfs_mount sys cfg fuel req.name "" req.secrets [] [] false t ≡ done fs after_mount
    pub made :
        make_volume sys codec cfg fuel fs req (parse_qos_params req.parameters) after_mount
        ≡ done tt after_make
    pub cleared :
        u
        ≡ Event.cleaned_mount fs.mount_path (ok tt)
          ∷ Event.unmounted fs.mount_path (ok tt)
          ∷ after_make

  unmounts :
      (path : String) (t u : Trace)
      → jfs_unmount sys path t ≡ done tt u
      → u ≡ Event.cleaned_mount path (ok tt) ∷ Event.unmounted path (ok tt) ∷ t
  unfolding jfs_unmount
  unmounts path t u eq = then-done _ _ t tt u eq λ v _ first second.
      cleaned sys path v u second
      ∙ ap (λ w. Event.cleaned_mount path (ok tt) ∷ w) (detached sys path t v first)

  provision-IsMade :
      (req : CreateVolumeRequest) (volume : CsiVolume) (t u : Trace)
      → provision sys codec cfg fuel req t ≡ done volume u
      → IsAnswer req volume × IsMade req t u
  unfolding provision
  provision-IsMade req volume t u eq = bind-done _ _ t volume u eq λ fs v1 mounts eq1.
      then-done _ _ v1 volume u eq1 λ v2 _ makes eq2.
        then-done _ _ v2 volume u eq2 λ v3 _ clears last. (
          subst (λ v. IsAnswer req v) (ended _ volume v3 u last).0
              (record {
                same_id = refl;
                same_size = refl;
                same_source = refl;
                context = λ k. lookup-insert "subPath" k req.name req.parameters;
              }),
          record {
            fs = fs;
            after_mount = v1;
            after_make = v2;
            mounted = relabelled-done _ _ t fs v1 mounts;
            made = relabelled-done _ _ v1 tt v2 makes;
            cleared =
                (ended _ volume v3 u last).1
                ∙ unmounts fs.mount_path v2 v3 (relabelled-done _ _ v2 tt v3 clears);
          },
        )

  -- What is known of the request, of the service before and after it, of the answer and of the calls.
  pub record IsCreated (req : CreateVolumeRequest) (d : ControllerService) (volume : CsiVolume)
      (t u : Trace) : Type 0 where
    pub admitted : IsAdmitted d req
    pub fits : is_smaller d req ≡ false
    pub remembered :
        lookup req.name (create_volume sys codec cfg fuel req d t).0.vols ≡ some req.required_bytes
    pub answer : IsAnswer req volume
    pub made : IsMade req t u

  -- CreateVolume returns a volume only for a request that has a name, capabilities and no running
  -- operation, and that asks for no more bytes than the service remembers for the name; the service
  -- then remembers the size. The volume has the name and the size of the request, its parameters and
  -- the name as its `subPath`. The file system was mounted, the directory made in it, and the last two
  -- calls unmounted it and cleaned its mount point.
  pub create_volume-IsCreated :
      (req : CreateVolumeRequest) (d : ControllerService) (volume : CsiVolume) (t u : Trace)
      → (create_volume sys codec cfg fuel req d t).1 ≡ done volume u
      → IsCreated req d volume t u
  unfolding create_volume locked create_locked is_smaller
  create_volume-IsCreated req d volume t u eq =
      if-done (req.name == "") _ _ volume u eq (λ _ bad. absurd (cc))
        λ name eq1.
          if-done req.has_capabilities _ _ volume u eq1
            (λ capable eq2.
              if-done (try_acquire req.name d.snap_locks).0 _ _ volume u eq2
                (λ free eq3.
                  if-done (is_smaller d req) _ _ volume u eq3 (λ _ bad. absurd (cc))
                    (λ fits provisions.
                      returned
                        (record {
                          named = name;
                          capable = capable;
                          free = free_before req.name d.snap_locks free;
                        })
                        fits (provision-IsMade req volume t u provisions)))
                (λ _ bad. absurd (cc)))
            (λ _ bad. absurd (cc))
    where
      returned :
          IsAdmitted d req
          → is_smaller d req ≡ false
          → IsAnswer req volume × IsMade req t u
          → IsCreated req d volume t u
      returned admitted fits (answer, made) = record {
        admitted = admitted;
        fits = fits;
        remembered = size-create_volume sys codec cfg fuel req d t admitted fits;
        answer = answer;
        made = made;
      }
