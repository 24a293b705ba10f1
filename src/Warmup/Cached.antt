-- ===== src/Warmup/Cached.antt =====
-- What stands behind the status of a cache: warmUpAll. The child has Reconcile.
pub mod Requests
use dfs_csi.Prelude.{
  ◌≡◌, ◌⊎◌, inl, inr, refl, ◌∙◌, String, Bool, true, false, some, none, Option, List, [], ◌∷◌, ◌==◌,
  is_empty, arith,
}
use dfs_csi.Kube.{Pod, Cache}
use dfs_csi.System.{System, environment, Failure, Event, Result, Trace, ok, err}
use dfs_csi.System.Io.{
  Io, done, trace_of, pure, attempt, exec, list_pods, update_status, on_result, on_option,
  delete_cache, ◌>>=◌,
}
use dfs_csi.System.Keeps.{
  Keeps, Ignores, changes_object, Keeps-answer, keeps_rules, branch-at, bind-at,
}
use dfs_csi.Warmup.{
  pod_nodes, mount_pod_name, warm_up_command, cache_path, warm_up, warm_up_loop, with_status,
  warm_up_all, warm_nodes, from_pvc_get_used_pods_node_name, reconcile_request, reconcile_cache,
  delete_it, failed_reply, no_reply, get_storage_class_name_and_pv_name,
}

-- Where a warm-up goes: the class, the volume, the path, the namespace of the mount pods, and
-- whether the volumes of a class share a mount.
pub record Place : Type 0 where
  pub sc_name : String
  pub pv_name : String
  pub path : String
  pub namespace : String
  pub share_mount : Bool

-- The trace with a successful warm-up of each node.
abbrev pub warmed : Place → List String → Trace → Trace
warmed p [] t = t
warmed p (node ∷ nodes) t = warmed p nodes (
    Event.executed p.namespace (mount_pod_name p.share_mount node p.sc_name p.pv_name)
      (warm_up_command p.path) (ok tt)
    ∷ t)

-- The last calls of a trace are a listing of pods and a successful warm-up of each node of the
-- claim's pods, of which there is one at least.
pub record IsWarm (pvc_name : String) (t : Trace) : Type 0 where
  pub place : Place
  pub namespace : String
  pub pods : List Pod
  pub earlier : Trace
  pub used : is_empty (pod_nodes pvc_name pods) ≡ false
  pub calls :
      t ≡ warmed place (pod_nodes pvc_name pods) (Event.listed_pods namespace (ok pods) ∷ earlier)

-- Each status that says `cached` was sent right behind such calls.
abbrev pub IsExplained : Trace → Type 0
IsExplained [] = Unit {0}
IsExplained (Event.updated_status c r ∷ t) = (c.cached ≡ true → IsWarm c.pvc_name t) × IsExplained t
IsExplained (_ ∷ t) = IsExplained t

ignored :
    (ev : Event) (t : Trace) → changes_object ev ≡ false → IsExplained t → IsExplained (ev ∷ t)
ignored (Event.updated_status _ _) t e h = absurd (cc)
ignored _ t e h = h

pub IsExplained-Ignores : Ignores IsExplained
IsExplained-Ignores = record { at = ignored }

warmed-Explained :
    (p : Place) (nodes : List String) (t : Trace) → IsExplained t → IsExplained (warmed p nodes t)
warmed-Explained p [] t h = h
warmed-Explained p (node ∷ nodes) t h = warmed-Explained p nodes _ h

module _ (sys : System) where
  -- The loop of one place.
  abbrev pub loop_at : Place → List String → Io (Option Failure)
  loop_at p nodes = warm_up_loop sys p.sc_name p.pv_name p.path p.namespace p.share_mount nodes

  abbrev pub call_of : Place → String → Result (Unit {0}) → Event
  call_of p node r =
      Event.executed p.namespace (mount_pod_name p.share_mount node p.sc_name p.pv_name)
        (warm_up_command p.path) r

  abbrev pub exec_at : Place → String → Trace → Result (Unit {0})
  exec_at p node t =
      sys.exec t p.namespace (mount_pod_name p.share_mount node p.sc_name p.pv_name)
        (warm_up_command p.path)

  pub loop-ok :
      (p : Place) (node : String) (nodes : List String) (t : Trace)
      → exec_at p node t ≡ ok tt
      → loop_at p (node ∷ nodes) t ≡ loop_at p nodes (call_of p node (ok tt) ∷ t)
  unfolding warm_up_loop warm_up exec ◌>>=◌
  loop-ok p node nodes t h = ground arith

  loop-err :
      (p : Place) (node : String) (nodes : List String) (t : Trace) (e : Failure)
      → exec_at p node t ≡ err e
      → loop_at p (node ∷ nodes) t ≡ done (some e) (call_of p node (err e) ∷ t)
  unfolding warm_up_loop warm_up exec ◌>>=◌
  loop-err p node nodes t e h = ground arith

  -- How the loop ends: without an error, behind a successful warm-up of each node, or with one.
  abbrev Ends : Place → List String → Trace → Type 0
  Ends p nodes t =
      (loop_at p nodes t ≡ done none (warmed p nodes t))
      ⊎ ((e : Failure) × (u : Trace) × IsExplained u × (loop_at p nodes t ≡ done (some e) u))

  loop-Ends : (p : Place) (nodes : List String) (t : Trace) → IsExplained t → Ends p nodes t
  unfolding warm_up_loop pure
  loop-Ends p [] t h = inl refl
  loop-Ends p (node ∷ nodes) t h =
      by_answer (loop-Ends p nodes (call_of p node (ok tt) ∷ t) h) (exec_at p node t) refl
    where
      go_on :
          exec_at p node t ≡ ok tt
          → Ends p nodes (call_of p node (ok tt) ∷ t)
          → Ends p (node ∷ nodes) t
      go_on eq (inl done_at) = inl (loop-ok p node nodes t eq ∙ done_at)
      go_on eq (inr (e, u, k, stops_at)) = inr (e, u, k, loop-ok p node nodes t eq ∙ stops_at)

      by_answer :
          Ends p nodes (call_of p node (ok tt) ∷ t)
          → (r : Result (Unit {0})) → exec_at p node t ≡ r
          → Ends p (node ∷ nodes) t
      by_answer rest (ok done_at) eq = go_on eq rest
      by_answer rest (err e) eq =
          inr (e, call_of p node (err e) ∷ t, h, loop-err p node nodes t e eq)

  -- The calls of warmUpAll behind the loop.
  update-Explained :
      (final : Option Failure) (c : Cache) (t : Trace)
      → (final ≡ none → IsWarm c.pvc_name t)
      → IsExplained t
      → IsExplained (trace_of (update_status sys (with_status sys final c) t))
  unfolding update_status with_status
  update-Explained none c t warm h =
      Keeps-answer IsExplained _ (sys.update_status t (with_status sys none c)) t
        (λ _. warm refl, h)
  update-Explained (some e) c t warm h =
      Keeps-answer IsExplained _ (sys.update_status t (with_status sys (some e) c)) t
        (λ eq. absurd (cc), h)

  abbrev pub all_at : Place → Cache → List String → Io (Unit {0})
  all_at p c nodes = warm_up_all sys p.sc_name p.pv_name p.path p.namespace p.share_mount c nodes

  all-trace :
      (p : Place) (c : Cache) (nodes : List String) (t u : Trace) (final : Option Failure)
      → loop_at p nodes t ≡ done final u
      → trace_of (all_at p c nodes t) ≡ trace_of (update_status sys (with_status sys final c) u)
  unfolding warm_up_all update_status on_option ◌>>=◌
  all-trace p c nodes t u final eq = ground arith

  pub all-Explained :
      (p : Place) (c : Cache) (pods : List Pod) (namespace : String) (t : Trace)
      → is_empty (pod_nodes c.pvc_name pods) ≡ false
      → IsExplained t
      → IsExplained (
          trace_of
            (all_at p c (pod_nodes c.pvc_name pods) (Event.listed_pods namespace (ok pods) ∷ t)))
  all-Explained p c pods namespace t used h = by_end (loop-Ends p nodes start h)
    where
      nodes : List String
      nodes = pod_nodes c.pvc_name pods

      start : Trace
      start = Event.listed_pods namespace (ok pods) ∷ t

      by_end : Ends p nodes start → IsExplained (trace_of (all_at p c nodes start))
      by_end (inl eq) = rw (all-trace p c nodes start (warmed p nodes start) none eq) (
          update-Explained none c (warmed p nodes start)
            (λ _. record {
              place = p;
              namespace = namespace;
              pods = pods;
              earlier = t;
              used = used;
              calls = refl;
            })
            (warmed-Explained p nodes start h))
      by_end (inr (e, u, k, eq)) =
          rw (all-trace p c nodes start u (some e) eq)
            (update-Explained (some e) c u (λ none_at. absurd (cc)) k)
