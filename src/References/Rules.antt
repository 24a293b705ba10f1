-- ===== src/References/Rules.antt =====
-- The calls of the API server keep a reference: a rule for each.
use dfs_csi.Prelude.{◌≡◌, refl, ◌∙◌, String, Bool, true, false, Option, some, ◌∷◌, eq_iff, arith}
use dfs_csi.Prelude.Dict.{lookup}
use dfs_csi.Kube.{Pod, Patch}
use dfs_csi.System.{System, Event, Trace, Failure, Result, ok, err, is_not_found}
use dfs_csi.System.Io.{
  patch_pod, delete_pod, create_pod, get_pod, trace_of, Io, attempt, on_result, ◌>>=◌,
}
use dfs_csi.System.Calls.{pod_got, pod_failed, pod_tried}
use dfs_csi.System.Keeps.{Keeps, Keeps-answer, bind-at}
use dfs_csi.References.{Place, is_at, IsApi, IsHeld, IsHeld-Ignores, patched_value, value_after}

module _ (sys : System) (place : Place) (old : Option String) (target : String) where
  -- A patch that leaves the annotation, where it is one of this pod.
  pub Keeps-patch :
      (pod : Pod) (p : Patch)
      → (is_at place pod ≡ true → patched_value place.key p (some target) ≡ some target)
      → Keeps (IsHeld place old target) (patch_pod sys pod p)
  unfolding patch_pod value_after
  Keeps-patch pod p leaves = record {
    at = λ t h.
        Keeps-answer (IsHeld place old target) _ (sys.patch_pod t pod p) t
          (record { refers = patched t (sys.patch_pod t pod p) h.refers; spared = h.spared });
  }
    where
      patched :
          (t : Trace) (r : Result (Unit {0}))
          → value_after place old t ≡ some target
          → value_after place old (Event.patched_pod pod p r ∷ t) ≡ some target
      patched t (ok _) h = ground arith
      patched t (err e) h = h

  pub Keeps-delete :
      (pod : Pod) → is_at place pod ≡ false → Keeps (IsHeld place old target) (delete_pod sys pod)
  unfolding delete_pod value_after
  Keeps-delete pod other = record {
    at = λ t h.
        Keeps-answer (IsHeld place old target) _ (sys.delete_pod t pod) t (record {
          refers = deleted t (sys.delete_pod t pod) h.refers;
          spared = (other, h.spared);
        });
  }
    where
      deleted :
          (t : Trace) (r : Result (Unit {0}))
          → value_after place old t ≡ some target
          → value_after place old (Event.deleted_pod pod r ∷ t) ≡ some target
      deleted t (ok _) h = ground arith
      deleted t (err e) h = h

  -- What is read of the pod while the reference is held.
  abbrev pub IsRead : Pod → Type 0
  IsRead po = is_at place po ≡ true → lookup place.key po.annotations ≡ some target

  -- A pod at the place is answered as the pod of the place.
  asked :
      (t : Trace) (name ns : String) (pod : Pod)
      → pod.name ≡ name
      → pod.namespace ≡ ns
      → is_at place pod ≡ true
      → sys.get_pod t place.name place.namespace ≡ sys.get_pod t name ns
  asked t name ns pod same_name same_namespace here = rw (at_name, at_namespace) refl
    where
      at_name : name ≡ place.name
      at_name = grind (arith, eq_iff pod.name place.name)

      at_namespace : ns ≡ place.namespace
      at_namespace = grind (arith, eq_iff pod.namespace place.namespace)

  get_pod-IsRead :
      (t : Trace) (name ns : String) (po : Pod)
      → IsApi sys place old
      → IsHeld place old target t
      → sys.get_pod t name ns ≡ ok po
      → IsRead po
  get_pod-IsRead t name ns po api h got here =
      api.read t po (
        asked t name ns po (api.named t name ns po got).0 (api.named t name ns po got).1 here ∙ got)
      ∙ h.refers

  pub Keeps-read {ℓ} :
      {A : Type ℓ} (name ns : String) (f : Pod → Io A)
      → IsApi sys place old
      → ((po : Pod) → IsRead po → Keeps (IsHeld place old target) (f po))
      → Keeps (IsHeld place old target) (get_pod sys name ns >>= f)
  unfolding ◌>>=◌
  Keeps-read {A} name ns f api kf = record {
    at = λ t h. by_answer t (sys.get_pod t name ns) refl h;
  }
    where
      by_answer :
          (t : Trace) (r : Result Pod)
          → sys.get_pod t name ns ≡ r
          → IsHeld place old target t
          → IsHeld place old target (trace_of ((get_pod sys name ns >>= f) t))
      by_answer t (ok po) got h =
          bind-at (IsHeld place old target) (get_pod sys name ns) f t
            (Event.got_pod name ns (ok po) ∷ t) po (pod_got sys t name ns po got)
            ((kf po (get_pod-IsRead t name ns po api h got)).at (Event.got_pod name ns (ok po) ∷ t)
              ((IsHeld-Ignores place old target).at (Event.got_pod name ns (ok po)) t refl h))
      by_answer t (err e) got h =
          rw (pod_failed sys t name ns e got)
            ((IsHeld-Ignores place old target).at (Event.got_pod name ns (err e)) t refl h)

  -- A look at a pod whose failure the code looks at: the pod of the reference is not missing.
  missing :
      (t : Trace) (name ns : String) (e : Failure) (pod : Pod)
      → IsApi sys place old
      → IsHeld place old target t
      → sys.get_pod t name ns ≡ err e
      → is_not_found e ≡ true
      → pod.name ≡ name
      → pod.namespace ≡ ns
      → is_at place pod ≡ false
  missing t name ns e pod api h got absent same_name same_namespace =
      by_place (is_at place pod) refl
    where
      by_place : (here : Bool) → is_at place pod ≡ here → here ≡ false
      by_place false elsewhere = refl
      by_place true here = absurd (
          ground (
            arith,
            absent,
            api.present t target e h.refers
                (asked t name ns pod same_name same_namespace here ∙ got),
          ))

  -- A look at a pod, where the code goes on with its failure: then no pod of that name is the one that
  -- refers, if the failure is that there is none.
  pub Keeps-looked {ℓ} :
      {A : Type ℓ} (name ns : String) (f : Pod → Io A) (g : Failure → Io A)
      → IsApi sys place old
      → ((po : Pod) → Keeps (IsHeld place old target) (f po))
      → ((e : Failure)
          → (is_not_found e ≡ true
              → (pod : Pod) → pod.name ≡ name
              → pod.namespace ≡ ns
              → is_at place pod ≡ false)
          → Keeps (IsHeld place old target) (g e))
      → Keeps (IsHeld place old target) (attempt (get_pod sys name ns) >>= λ r. on_result r f g)
  unfolding on_result
  Keeps-looked {A} name ns f g api kf kg = record {
    at = λ t h. by_answer t (sys.get_pod t name ns) refl h;
  }
    where
      by_answer :
          (t : Trace) (r : Result Pod)
          → sys.get_pod t name ns ≡ r
          → IsHeld place old target t
          → IsHeld place old target
              (trace_of ((attempt (get_pod sys name ns) >>= λ q. on_result q f g) t))
      by_answer t (ok po) got h =
          bind-at (IsHeld place old target) (attempt (get_pod sys name ns)) (λ q. on_result q f g) t
            (Event.got_pod name ns (ok po) ∷ t) (ok po) (pod_tried sys t name ns (ok po) got)
            ((kf po).at (Event.got_pod name ns (ok po) ∷ t)
              ((IsHeld-Ignores place old target).at (Event.got_pod name ns (ok po)) t refl h))
      by_answer t (err e) got h =
          bind-at (IsHeld place old target) (attempt (get_pod sys name ns)) (λ q. on_result q f g) t
            (Event.got_pod name ns (err e) ∷ t) (err e) (pod_tried sys t name ns (err e) got)
            ((kg e (λ absent pod same_name same_namespace.
                missing t name ns e pod api h got absent same_name same_namespace)).at
              (Event.got_pod name ns (err e) ∷ t)
              ((IsHeld-Ignores place old target).at (Event.got_pod name ns (err e)) t refl h))

  pub Keeps-create :
      (pod : Pod) → is_at place pod ≡ false → Keeps (IsHeld place old target) (create_pod sys pod)
  unfolding create_pod value_after
  Keeps-create pod other = record {
    at = λ t h.
        Keeps-answer (IsHeld place old target) _ (sys.create_pod t pod) t
          (record { refers = created t (sys.create_pod t pod) h.refers; spared = h.spared });
  }
    where
      created :
          (t : Trace) (r : Result Pod)
          → value_after place old t ≡ some target
          → value_after place old (Event.created_pod pod r ∷ t) ≡ some target
      created t (ok _) h = ground arith
      created t (err e) h = h
