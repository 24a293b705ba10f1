-- ===== src/References/Objects.antt =====
-- The annotations of one mount pod, as an API server keeps them on which every call succeeds and nobody
-- else writes the pod.
use dfs_csi.Prelude.{
  ◌≡◌, refl, String, Bool, true, false, ◌&&◌, Option, none, some, List, [], ◌∷◌, ◌==◌,
  if◌then◌else◌, arith,
}
use dfs_csi.Prelude.Dict.{Dict, insert, erase}
use dfs_csi.Kube.{Pod, Patch}
use dfs_csi.System.{System, Event, Trace, Failure, ok, err, is_not_found}
use dfs_csi.System.Io.{
  Io, done, attempt, on_result, ◌>>=◌, get_pod, patch_pod, delete_pod, create_pod,
}
use dfs_csi.System.Returns.{Returns, Returns-same}

unfoldable insert_all : Dict String → Dict String → Dict String
unfolding insert
insert_all [] d = d
insert_all ((k, v) ∷ new) d = insert_all new (insert k v d)

unfoldable erase_all : List String → Dict String → Dict String
unfolding erase
erase_all [] d = d
erase_all (k ∷ ks) d = erase_all ks (erase k d)

-- What a patch makes of annotations.
unfoldable pub patched : Patch → Dict String → Dict String
unfolding insert_all erase_all
patched (Patch.add_annotations new) d = insert_all new d
patched (Patch.remove_annotations ks) d = erase_all ks d
patched (Patch.replace_annotations new) d = new
patched _ d = d

module _ (name ns : String) where
  abbrev pub is_named : Pod → Bool
  is_named pod = pod.name == name && pod.namespace == ns

  -- The annotations of the pod behind the calls of a trace, or none where there is no pod.
  unfoldable pub annotations_after : Option (Dict String) → Trace → Option (Dict String)
  unfolding patched
  annotations_after old [] = old
  annotations_after old (Event.patched_pod pod p (ok _) ∷ t) =
      let o = annotations_after old t in
      if is_named pod then elim o [ none ↦ none | some d ↦ some (patched p d) ] else o
  annotations_after old (Event.created_pod pod (ok _) ∷ t) =
      let o = annotations_after old t in if is_named pod then some pod.annotations else o
  annotations_after old (Event.deleted_pod pod (ok _) ∷ t) =
      let o = annotations_after old t in if is_named pod then none else o
  annotations_after old (_ ∷ t) = annotations_after old t

  -- The API server serves the pod as the calls leave it, and takes on every call. A pod that was deleted
  -- is gone by the next call: what its finalizer waits for was done.
  pub record IsServer (sys : System) (old : Option (Dict String)) : Type 0 where
    pub found :
        (t : Trace) (d : Dict String)
        → annotations_after old t ≡ some d
        → (po : Pod) × (sys.get_pod t name ns ≡ ok po)
          × (is_named po ≡ true)
          × (po.deleting ≡ false)
          × (po.annotations ≡ d)
    pub absent :
        (t : Trace)
        → annotations_after old t ≡ none
        → (e : Failure) × (sys.get_pod t name ns ≡ err e) × (is_not_found e ≡ true)
    pub patches : (t : Trace) (po : Pod) (p : Patch) → sys.patch_pod t po p ≡ ok tt
    pub deletes : (t : Trace) (po : Pod) → sys.delete_pod t po ≡ ok tt
    pub creates : (t : Trace) (po : Pod) → (q : Pod) × (sys.create_pod t po ≡ ok q)

  module _ (sys : System) (old : Option (Dict String)) (server : IsServer sys old) where
    -- What a look at the pod gives.
    pub record IsFound (d : Dict String) (po : Pod) (u : Trace) : Type 0 where
      pub named : is_named po ≡ true
      pub stays : po.deleting ≡ false
      pub annotated : po.annotations ≡ d
      pub current : annotations_after old u ≡ some d

    pub get_pod-Returns :
        (t : Trace) (d : Dict String)
        → annotations_after old t ≡ some d
        → Returns (get_pod sys name ns) t (IsFound d)
    unfolding get_pod annotations_after
    get_pod-Returns t d h =
        let (po, got, named, stays, annotated) = server.found t d h in
        record {
          value = po;
          after = Event.got_pod name ns (ok po) ∷ t;
          ends = rw got refl;
          holds = record { named = named; stays = stays; annotated = annotated; current = h };
        }

    looked_for :
        (t : Trace) (e : Failure)
        → sys.get_pod t name ns ≡ err e
        → attempt (get_pod sys name ns) t ≡ done (err e) (Event.got_pod name ns (err e) ∷ t)
    unfolding attempt get_pod
    looked_for t e got = grind arith

    -- A look at a pod that is not there, where the code goes on with the failure.
    pub missing-Returns {ℓ κ} :
        {B : Type κ} {q : B → Trace → Type ℓ} (f : Pod → Io B) (g : Failure → Io B) (t : Trace)
        → annotations_after old t ≡ none
        → ((e : Failure) (u : Trace)
            → is_not_found e ≡ true
            → annotations_after old u ≡ none
            → Returns (g e) u q)
        → Returns (attempt (get_pod sys name ns) >>= λ r. on_result r f g) t q
    unfolding annotations_after on_result
    missing-Returns f g t gone k =
        let (e, got, absent) = server.absent t gone in
        Returns-same _ _ t (Event.got_pod name ns (err e) ∷ t) (err e) (looked_for t e got)
          (k e (Event.got_pod name ns (err e) ∷ t) absent gone)

    pub patch_pod-Returns :
        (t : Trace) (d : Dict String) (po : Pod) (p : Patch)
        → is_named po ≡ true
        → annotations_after old t ≡ some d
        → Returns (patch_pod sys po p) t (λ _ u. annotations_after old u ≡ some (patched p d))
    unfolding patch_pod annotations_after
    patch_pod-Returns t d po p named h = record {
      value = tt;
      after = Event.patched_pod po p (ok tt) ∷ t;
      ends = rw (server.patches t po p) refl;
      holds = rw (named, h) refl;
    }

    pub delete_pod-Returns :
        (t : Trace) (po : Pod)
        → is_named po ≡ true
        → Returns (delete_pod sys po) t (λ _ u. annotations_after old u ≡ none)
    unfolding delete_pod annotations_after
    delete_pod-Returns t po named = record {
      value = tt;
      after = Event.deleted_pod po (ok tt) ∷ t;
      ends = rw (server.deletes t po) refl;
      holds = rw named refl;
    }

    pub create_pod-Returns :
        (t : Trace) (po : Pod)
        → is_named po ≡ true
        → Returns (create_pod sys po) t (λ _ u. annotations_after old u ≡ some po.annotations)
    unfolding create_pod annotations_after
    create_pod-Returns t po named =
        let (q, made) = server.creates t po in
        record {
          value = q;
          after = Event.created_pod po (ok q) ∷ t;
          ends = rw made refl;
          holds = rw named refl;
        }
