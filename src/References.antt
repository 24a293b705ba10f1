-- ===== src/References.antt =====
-- The references of one mount pod, as the API server keeps them: the annotations that
-- pkg/juicefs/mount/pod_mount.go and pkg/controller/pod_driver.go write and take off, over the calls
-- that they make.

pub mod Listed
pub mod Reconciling
pub mod Added
pub mod Elsewhere
pub mod Sharing
pub mod Acquired
pub mod Counted
pub mod Holders
pub mod Mounted
pub mod Objects
pub mod Publishing
pub mod Released
pub mod Rules
pub mod Targets
use dfs_csi.Prelude.{
  ◌≡◌, refl, ◌∙◌, String, Bool, true, false, ◌&&◌, Option, none, some, List, [], ◌∷◌, ◌==◌, any,
  eq_iff, arith, if◌then◌else◌,
}
use dfs_csi.Prelude.Dict.{lookup}
use dfs_csi.Kube.{Pod, Patch}
use dfs_csi.System.{System, Event, Trace, Failure, Result, ok, err, is_not_found}
use dfs_csi.Util.Patches.{get_reference_key}
use dfs_csi.System.Io.{
  patch_pod, delete_pod, create_pod, get_pod, trace_of, Io, done, fails, attempt, on_result, ◌>>=◌,
}
use dfs_csi.System.Traces.{Deletes, Deletes-Ignores}
use dfs_csi.System.Keeps.{Keeps, Keeps-answer, Ignores, changes_object, bind-at}

-- What a patch makes of the value of an annotation.
unfoldable pub patched_value : String → Patch → Option String → Option String
unfolding lookup
patched_value key (Patch.add_annotations d) v = elim (lookup key d) [ none ↦ v | some w ↦ some w ]
patched_value key (Patch.remove_annotations ks) v = if any (λ k. k == key) ks then none else v
patched_value key (Patch.replace_annotations d) v = lookup key d
patched_value key _ v = v

-- The annotation of a pod that the text `key` names.
pub record Place : Type 0 where
  pub name : String
  pub namespace : String
  pub key : String

-- The reference of a target to a mount pod.
abbrev pub place_of : System → String → String → String → Place
place_of sys target name ns = record {
  name = name;
  namespace = ns;
  key = get_reference_key sys target;
}

abbrev pub is_at : Place → Pod → Bool
is_at place pod = pod.name == place.name && pod.namespace == place.namespace

-- The value of the annotation behind the calls of a trace, if it was `old` before them.
unfoldable pub value_after : Place → Option String → Trace → Option String
unfolding lookup patched_value
value_after place old [] = old
value_after place old (Event.patched_pod pod p (ok _) ∷ t) =
    let v = value_after place old t in if is_at place pod then patched_value place.key p v else v
value_after place old (Event.created_pod pod (ok _) ∷ t) =
    let v = value_after place old t in
    if is_at place pod then lookup place.key pod.annotations else v
value_after place old (Event.deleted_pod pod (ok _) ∷ t) =
    let v = value_after place old t in if is_at place pod then none else v
value_after place old (_ ∷ t) = value_after place old t

-- The API server answers with the pod that was asked for, and with the annotation as the calls so far
-- leave it, and finds a pod that has the annotation: nobody else writes this one annotation or deletes
-- the pod. The rest of the pod may be anything.
pub record IsApi (sys : System) (place : Place) (old : Option String) : Type 0 where
  pub named :
      (t : Trace) (name ns : String) (po : Pod)
      → sys.get_pod t name ns ≡ ok po
      → (po.name ≡ name) × (po.namespace ≡ ns)
  pub read :
      (t : Trace) (po : Pod)
      → sys.get_pod t place.name place.namespace ≡ ok po
      → lookup place.key po.annotations ≡ value_after place old t
  pub present :
      (t : Trace) (v : String) (e : Failure)
      → value_after place old t ≡ some v
      → sys.get_pod t place.name place.namespace ≡ err e
      → is_not_found e ≡ false

-- The annotation refers to the target, and no call asked to delete the pod.
pub record IsHeld (place : Place) (old : Option String) (target : String) (t : Trace) : Type 0 where
  pub refers : value_after place old t ≡ some target
  pub spared : Deletes (λ pod. is_at place pod ≡ false) t

module _ (place : Place) (old : Option String) (target : String) where
  value-ignored :
      (ev : Event) (t : Trace)
      → changes_object ev ≡ false
      → value_after place old (ev ∷ t) ≡ value_after place old t
  unfolding value_after
  value-ignored (Event.created_pod _ _) t e = absurd (cc)
  value-ignored (Event.patched_pod _ _ _) t e = absurd (cc)
  value-ignored (Event.deleted_pod _ _) t e = absurd (cc)
  value-ignored _ t e = refl

  pub IsHeld-Ignores : Ignores (IsHeld place old target)
  IsHeld-Ignores = record {
    at = λ ev t quiet h. record {
      refers = value-ignored ev t quiet ∙ h.refers;
      spared = (Deletes-Ignores _).at ev t quiet h.spared;
    };
  }
