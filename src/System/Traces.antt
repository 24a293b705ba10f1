-- ===== src/System/Traces.antt =====
-- What a trace of calls holds: counts of the calls that change a pod, and predicates on them.
use dfs_csi.Prelude.{ℕ, suc, ◌≡◌, false, [], ◌∷◌}
use dfs_csi.Kube.{Pod, Patch}
use dfs_csi.System.{System, Event, Trace}
use dfs_csi.System.Io.{create_pod, patch_pod, delete_pod}
use dfs_csi.System.Keeps.{Keeps, Keeps-answer, Ignores, changes_object}

-- The DeletePod calls of a trace.
abbrev pub deletions : Trace → ℕ
deletions [] = 0
deletions (Event.deleted_pod pod r ∷ t) = suc (deletions t)
deletions (_ ∷ t) = deletions t

-- The CreatePod calls of a trace.
abbrev pub creations : Trace → ℕ
creations [] = 0
creations (Event.created_pod pod r ∷ t) = suc (creations t)
creations (_ ∷ t) = creations t

-- Every pod with which a trace calls DeletePod has `p`.
abbrev pub Deletes : (Pod → Type 0) → Trace → Type 0
Deletes p [] = Unit {0}
Deletes p (Event.deleted_pod pod r ∷ t) = p pod × Deletes p t
Deletes p (_ ∷ t) = Deletes p t

-- Every pod that a trace creates is one with `p`.
abbrev pub Creates : (Pod → Type 0) → Trace → Type 0
Creates p [] = Unit {0}
Creates p (Event.created_pod pod r ∷ t) = p pod × Creates p t
Creates p (_ ∷ t) = Creates p t

-- The trace has `n` deletions.
abbrev pub HasDeletions : ℕ → Trace → Type 0
HasDeletions n t = deletions t ≡ n

abbrev pub HasCreations : ℕ → Trace → Type 0
HasCreations n t = creations t ≡ n

ignored :
    (p : Pod → Type 0) (ev : Event) (t : Trace)
    → changes_object ev ≡ false
    → Deletes p t
    → Deletes p (ev ∷ t)
ignored p (Event.created_pod _ _) t e h = h
ignored p (Event.deleted_pod _ _) t e h = cc
ignored p _ t e h = h

pub Deletes-Ignores : (p : Pod → Type 0) → Ignores (Deletes p)
Deletes-Ignores p = record { at = ignored p }

Creates-ignored :
    (p : Pod → Type 0) (ev : Event) (t : Trace)
    → changes_object ev ≡ false
    → Creates p t
    → Creates p (ev ∷ t)
Creates-ignored p (Event.deleted_pod _ _) t e h = h
Creates-ignored p (Event.created_pod _ _) t e h = cc
Creates-ignored p _ t e h = h

pub Creates-Ignores : (p : Pod → Type 0) → Ignores (Creates p)
Creates-Ignores p = record { at = Creates-ignored p }

deletions-ignored :
    (n : ℕ) (ev : Event) (t : Trace)
    → changes_object ev ≡ false
    → HasDeletions n t
    → HasDeletions n (ev ∷ t)
deletions-ignored n (Event.created_pod _ _) t e h = h
deletions-ignored n (Event.deleted_pod _ _) t e h = cc
deletions-ignored n _ t e h = h

pub HasDeletions-Ignores : (n : ℕ) → Ignores (HasDeletions n)
HasDeletions-Ignores n = record { at = deletions-ignored n }

creations-ignored :
    (n : ℕ) (ev : Event) (t : Trace)
    → changes_object ev ≡ false
    → HasCreations n t
    → HasCreations n (ev ∷ t)
creations-ignored n (Event.deleted_pod _ _) t e h = h
creations-ignored n (Event.created_pod _ _) t e h = cc
creations-ignored n _ t e h = h

pub HasCreations-Ignores : (n : ℕ) → Ignores (HasCreations n)
HasCreations-Ignores n = record { at = creations-ignored n }

module _ (sys : System) where
  pub Deletes-create_pod : (p : Pod → Type 0) (pod : Pod) → Keeps (Deletes p) (create_pod sys pod)
  unfolding create_pod
  Deletes-create_pod p pod = record {
    at = λ t h. Keeps-answer (Deletes p) _ (sys.create_pod t pod) t h;
  }

  pub Deletes-patch_pod :
      (p : Pod → Type 0) (pod : Pod) (c : Patch) → Keeps (Deletes p) (patch_pod sys pod c)
  unfolding patch_pod
  Deletes-patch_pod p pod c = record {
    at = λ t h. Keeps-answer (Deletes p) _ (sys.patch_pod t pod c) t h;
  }

  pub Deletes-delete_pod :
      (p : Pod → Type 0) (pod : Pod) → p pod → Keeps (Deletes p) (delete_pod sys pod)
  unfolding delete_pod
  Deletes-delete_pod p pod fits = record {
    at = λ t h. Keeps-answer (Deletes p) _ (sys.delete_pod t pod) t (fits, h);
  }

  pub Creates-create_pod :
      (p : Pod → Type 0) (pod : Pod) → p pod → Keeps (Creates p) (create_pod sys pod)
  unfolding create_pod
  Creates-create_pod p pod fits = record {
    at = λ t h. Keeps-answer (Creates p) _ (sys.create_pod t pod) t (fits, h);
  }

  pub Creates-patch_pod :
      (p : Pod → Type 0) (pod : Pod) (c : Patch) → Keeps (Creates p) (patch_pod sys pod c)
  unfolding patch_pod
  Creates-patch_pod p pod c = record {
    at = λ t h. Keeps-answer (Creates p) _ (sys.patch_pod t pod c) t h;
  }

  pub Creates-delete_pod : (p : Pod → Type 0) (pod : Pod) → Keeps (Creates p) (delete_pod sys pod)
  unfolding delete_pod
  Creates-delete_pod p pod = record {
    at = λ t h. Keeps-answer (Creates p) _ (sys.delete_pod t pod) t h;
  }

  pub HasDeletions-create_pod : (n : ℕ) (pod : Pod) → Keeps (HasDeletions n) (create_pod sys pod)
  unfolding create_pod
  HasDeletions-create_pod n pod = record {
    at = λ t h. Keeps-answer (HasDeletions n) _ (sys.create_pod t pod) t h;
  }

  pub HasDeletions-patch_pod :
      (n : ℕ) (pod : Pod) (c : Patch) → Keeps (HasDeletions n) (patch_pod sys pod c)
  unfolding patch_pod
  HasDeletions-patch_pod n pod c = record {
    at = λ t h. Keeps-answer (HasDeletions n) _ (sys.patch_pod t pod c) t h;
  }

  pub HasCreations-patch_pod :
      (n : ℕ) (pod : Pod) (c : Patch) → Keeps (HasCreations n) (patch_pod sys pod c)
  unfolding patch_pod
  HasCreations-patch_pod n pod c = record {
    at = λ t h. Keeps-answer (HasCreations n) _ (sys.patch_pod t pod c) t h;
  }

  pub HasCreations-delete_pod : (n : ℕ) (pod : Pod) → Keeps (HasCreations n) (delete_pod sys pod)
  unfolding delete_pod
  HasCreations-delete_pod n pod = record {
    at = λ t h. Keeps-answer (HasCreations n) _ (sys.delete_pod t pod) t h;
  }

pub ruleset trace_rules = (
  Deletes-Ignores, HasDeletions-Ignores, HasCreations-Ignores, Deletes-create_pod,
  Deletes-patch_pod, Creates-Ignores, Creates-patch_pod, Creates-delete_pod,
  HasDeletions-create_pod, HasDeletions-patch_pod, HasCreations-patch_pod, HasCreations-delete_pod,
)
