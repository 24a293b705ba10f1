-- ===== src/Mount/Refs/Loops.antt =====
-- The retries on a conflict end, and what AddRefOfMount leaves.
use dfs_csi.Prelude.{
  ℕ, zero, suc, ◌+◌, ◌≤◌, ◌<◌, ◌≡◌, refl, String, Bool, false, ◌∷◌, arith, length,
}
use dfs_csi.Config.{Config}
use dfs_csi.Kube.{Pod, Patch}
use dfs_csi.System.{System, Trace, Event, Result, ok, err, is_conflict}
use dfs_csi.System.Io.{Outcome, done, fails, panics, hung, get_pod, patch_pod, sleep, ◌>>=◌, ◌>>◌}
use dfs_csi.Util.Patches.{del_pod_annotation, replace_pod_annotation}
use dfs_csi.Mount.Refs.{del_ref, del_ref_loop, add_ref, add_ref_loop}

abbrev pub conflicts {ℓ} : {A : Type ℓ} → Result A → Bool
conflicts (ok a) = false
conflicts (err e) = is_conflict e

-- No answer is a conflict once `limit` calls have been made.
pub record Settles (sys : System) (limit : ℕ) : Type 0 where
  pub patch_pod :
      (t : Trace) (pod : Pod) (p : Patch)
      → limit ≤ length t
      → conflicts (sys.patch_pod t pod p) ≡ false
  pub get_pod :
      (t : Trace) (name ns : String) → limit ≤ length t → conflicts (sys.get_pod t name ns) ≡ false

abbrev pub IsHung {ℓ} : {A : Type ℓ} → Outcome A → Type 0
IsHung (hung t) = Unit {0}
IsHung _ = ⊥

-- A round ends with more calls made, and with a conflict only below the limit.
abbrev RoundEnds : ℕ → Trace → Outcome (Unit {0}) → Type 0
RoundEnds limit t (done a t') = Unit {0}
RoundEnds limit t (fails e t') = (length t < length t') × (limit ≤ length t → is_conflict e ≡ false)
RoundEnds limit t _ = ⊥

module _ (sys : System) (limit : ℕ) (settles : Settles sys limit) where
  del_ref-RoundEnds :
      (pod : Pod) (key : String) (t : Trace) → RoundEnds limit t (del_ref sys pod key t)
  unfolding del_ref del_pod_annotation get_pod patch_pod ◌>>=◌
  del_ref-RoundEnds pod key t = grind (arith, settles.get_pod, settles.patch_pod)

  add_ref-RoundEnds :
      (cfg : Config) (key target pod_name : String) (t : Trace)
      → RoundEnds limit t (add_ref sys cfg key target pod_name t)
  unfolding add_ref replace_pod_annotation get_pod patch_pod ◌>>=◌
  add_ref-RoundEnds cfg key target pod_name t = grind (arith, settles.get_pod, settles.patch_pod)

  after_del_ref :
      (fuel : ℕ) (pod : Pod) (key : String) (t : Trace) (o : Outcome (Unit {0}))
      → del_ref sys pod key t ≡ o
      → RoundEnds limit t o
      → limit < suc fuel + length t
      → ((u : Trace)
          → 0 < fuel
          → limit < fuel + length u
          → ¬ (IsHung (del_ref_loop sys fuel pod key u)))
      → ¬ (IsHung (del_ref_loop sys (suc fuel) pod key t))
  unfolding del_ref_loop ◌>>=◌
  after_del_ref fuel pod key t (done a u) e r h ih = ground arith
  after_del_ref fuel pod key t (fails f u) e r h ih = ground (arith, ih u)
  after_del_ref fuel pod key t (panics s u) e r h ih = absurd r
  after_del_ref fuel pod key t (hung u) e r h ih = absurd r

  pub del_ref_loop-ends :
      (fuel : ℕ) (pod : Pod) (key : String) (t : Trace)
      → 0 < fuel
      → limit < fuel + length t
      → ¬ (IsHung (del_ref_loop sys fuel pod key t))
  del_ref_loop-ends zero pod key t pos h = absurd (omega arith)
  del_ref_loop-ends (suc fuel) pod key t pos h =
      after_del_ref fuel pod key t (del_ref sys pod key t) refl (del_ref-RoundEnds pod key t) h
        (del_ref_loop-ends fuel pod key)

  after_add_ref :
      (cfg : Config) (fuel : ℕ) (key target pod_name : String) (t : Trace) (o : Outcome (Unit {0}))
      → add_ref sys cfg key target pod_name t ≡ o
      → RoundEnds limit t o
      → limit < suc fuel + length t
      → ((u : Trace)
          → 0 < fuel
          → limit < fuel + length u
          → ¬ (IsHung (add_ref_loop sys cfg fuel key target pod_name u)))
      → ¬ (IsHung (add_ref_loop sys cfg (suc fuel) key target pod_name t))
  unfolding add_ref_loop sleep ◌>>◌ ◌>>=◌
  after_add_ref cfg fuel key target pod_name t (done a u) e r h ih = ground arith
  after_add_ref cfg fuel key target pod_name t (fails f u) e r h ih =
      ground (arith, ih (Event.slept ∷ u))
  after_add_ref cfg fuel key target pod_name t (panics s u) e r h ih = absurd r
  after_add_ref cfg fuel key target pod_name t (hung u) e r h ih = absurd r

  -- If no answer is a conflict once `limit` calls have been made, the loop of AddRefOfMount ends:
  -- with fuel for a round, and more fuel than calls are left up to the limit, it returns, fails or
  -- panics, and does not run out.
  pub add_ref_loop-ends :
      (cfg : Config) (fuel : ℕ) (key target pod_name : String) (t : Trace)
      → 0 < fuel
      → limit < fuel + length t
      → ¬ (IsHung (add_ref_loop sys cfg fuel key target pod_name t))
  add_ref_loop-ends cfg zero key target pod_name t pos h = absurd (omega arith)
  add_ref_loop-ends cfg (suc fuel) key target pod_name t pos h =
      after_add_ref cfg fuel key target pod_name t (add_ref sys cfg key target pod_name t) refl
        (add_ref-RoundEnds cfg key target pod_name t) h
        (add_ref_loop-ends cfg fuel key target pod_name)
