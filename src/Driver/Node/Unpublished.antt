-- ===== src/Driver/Node/Unpublished.antt =====
-- What holds when NodeUnpublishVolume returns.
use dfs_csi.Prelude.{
  ◌≡◌, ◌⊎◌, inl, inr, ap, sym, ◌∙◌, ℕ, zero, suc, String, true, none, some, [], ◌∷◌,
}
use dfs_csi.Config.{Config}
use dfs_csi.System.{System, Event, Trace, Failure, Output, ok}
use dfs_csi.System.Io.{done, fail, hang}
use dfs_csi.System.Calls.{same_end, ran, cleaned}
use dfs_csi.System.Steps.{bind-done, then-done, branch-done, on_option-done}
use dfs_csi.Util.{is_not_mounted}
use dfs_csi.Util.Patches.{get_reference_key}
use dfs_csi.Juicefs.{get_unique_id}
use dfs_csi.Mount.Builder.{generate_pod_name}
use dfs_csi.Mount.Refs.Released.{IsReleased, j_umount-IsReleased}
use dfs_csi.Driver.Node.{unmount_all, node_unpublish_volume}

-- `umount` failed since nothing is mounted at the target, or the lazy one after it succeeded.
abbrev pub IsUnmounted : String → Trace → Type 0
IsUnmounted target u =
    (out : Output) × (earlier : Trace) × (e : Failure) × (out.error ≡ some e)
    × (((u ≡ Event.ran ("umount" ∷ target ∷ []) [] out ∷ earlier)
          × (is_not_mounted out.text ≡ true))
        ⊎ ((lazy : Output) × (u
              ≡ Event.ran ("umount" ∷ "-l" ∷ target ∷ []) [] lazy
                ∷ Event.ran ("umount" ∷ target ∷ []) [] out
                ∷ earlier)
            × (lazy.error ≡ none)))

module _ (sys : System) where
  unmount_all-IsUnmounted :
      (fuel : ℕ) (target : String) (t u : Trace)
      → unmount_all sys fuel target t ≡ done tt u
      → IsUnmounted target u
  unfolding unmount_all hang fail
  unmount_all-IsUnmounted zero target t u eq = absurd (cc)
  unmount_all-IsUnmounted (suc fuel) target t u eq =
      bind-done _ _ t tt u eq λ out v unmounts looked.
        on_option-done _ _ _ v tt u looked
          (λ _ again. unmount_all-IsUnmounted fuel target v u again)
          λ e failed stops. (
            out,
            t,
            e,
            failed,
            branch-done _ _ _ v tt u stops
                (λ missing ends. inl (same_end v u ends ∙ ran sys _ out t v unmounts, missing))
                (λ _ tries. bind-done _ _ v tt u tries λ lazy w detaches looks.
                  on_option-done _ _ _ w tt u looks
                    (λ succeeds ends. inr (
                      lazy,
                      same_end w u ends
                          ∙ ran sys _ lazy v w detaches
                          ∙ ap (λ x. Event.ran ("umount" ∷ "-l" ∷ target ∷ []) [] lazy ∷ x)
                              (ran sys _ out t v unmounts),
                      succeeds,
                    ))
                    (λ _ _ bad. absurd (cc))),
          )

  -- The stages of a volume that is taken off a target: the target is unmounted and cleaned, and the
  -- mount pod of the volume is released.
  pub record IsUnpublished (cfg : Config) (volume_id target : String) (u : Trace) : Type 0 where
    pub after_unmount : Trace
    pub after_name : Trace
    pub unique_id : String
    pub unmounted : IsUnmounted target after_unmount
    pub named :
        get_unique_id sys volume_id (Event.cleaned_mount target (ok tt) ∷ after_unmount)
        ≡ done unique_id after_name
    pub released :
        IsReleased
          (generate_pod_name cfg unique_id)
          cfg.namespace
          (get_reference_key sys target)
          after_name
          u

  -- NodeUnpublishVolume returns without an error only if an `umount` of the target failed since
  -- nothing is mounted there, or failed and the lazy one after it succeeded; the mount point was then
  -- cleaned; and the reference of the target to the mount pod of the volume's unique id was then
  -- released: a look at this pod found none; or it found the pod, behind this look the reference was gone
  -- from it, and a look at it found an annotation with the prefix of the references or the last call
  -- deleted it.
  pub node_unpublish_volume-IsUnpublished :
      (cfg : Config) (fuel : ℕ) (volume_id target : String) (t u : Trace)
      → node_unpublish_volume sys cfg fuel volume_id target t ≡ done tt u
      → IsUnpublished cfg volume_id target u
  unfolding node_unpublish_volume fail
  node_unpublish_volume-IsUnpublished cfg fuel volume_id target t u eq =
      branch-done _ _ _ t tt u eq (λ _ bad. absurd (cc))
        λ _ goes. then-done _ _ t tt u goes λ v1 _ unmounts cleans.
          then-done _ _ v1 tt u cleans λ v2 _ clears names.
            bind-done _ _ v2 tt u names λ unique_id v3 found drops. record {
              after_unmount = v1;
              after_name = v3;
              unique_id = unique_id;
              unmounted = unmount_all-IsUnmounted fuel target t v1 unmounts;
              named =
                  ap (λ x. get_unique_id sys volume_id x) (sym (cleaned sys target v1 v2 clears))
                  ∙ found;
              released = j_umount-IsReleased sys cfg fuel unique_id target v3 u drops;
            }
