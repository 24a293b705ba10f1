-- ===== src/Tests/Counting.antt =====
-- Mounts and unmounts of a volume against a concrete API server.
use dfs_csi.Prelude.{String, ◌≡◌, refl, ap, Option, none, some, List, [], ◌∷◌, eq_refl, arith}
use dfs_csi.Prelude.Dict.{Dict}
use dfs_csi.Config.Setting.{no_setting}
use dfs_csi.Kube.{Pod}
use dfs_csi.System.{System, Failure, Result, ok, err}
use dfs_csi.System.Io.{◌>>=◌}
use dfs_csi.System.Returns.{Returns}
use dfs_csi.Util.{get_loop_timeout}
use dfs_csi.Util.Patches.{get_reference_key}
use dfs_csi.Mount.Builder.{generate_pod_name, parse_pod_resources}
use dfs_csi.References.Objects.{annotations_after, IsServer}
use dfs_csi.References.Holders.{hold, let_go, Represents}
use dfs_csi.References.Mounted.{IsMountable}
use dfs_csi.References.Counted.{
  Change, acquire, release, make_changes, holders_after, AreApart, make_changes-Represents,
}
use dfs_csi.Tests.{calm, config, mount_pod, target_of}

abbrev kept : Dict String → Pod
kept d = record (mount_pod d) { name = generate_pod_name config "vol"; namespace = "kube-system" }

abbrev answered : Option (Dict String) → Result Pod
answered none = err Failure.not_found
answered (some d) = ok (kept d)

-- An API server that keeps the annotations of the mount pod.
abbrev server : System
server = record calm {
  get_pod = λ t name ns.
      answered (annotations_after (generate_pod_name config "vol") "kube-system" none t);
}

server-IsServer : IsServer (generate_pod_name config "vol") "kube-system" server none
server-IsServer = record {
  found = λ t d h.
      (kept d, ap answered h, ground (arith, eq_refl (generate_pod_name config "vol")), refl, refl);
  absent = λ t h. (Failure.not_found, ap answered h, refl);
  patches = λ t po p. refl;
  deletes = λ t po. refl;
  creates = λ t po. (po, refl);
}

mountable : IsMountable server no_setting "/mosfs/vol"
unfolding parse_pod_resources get_loop_timeout ◌>>=◌
mountable = record {
  resources = λ t. (_, refl);
  in_time = λ t. refl;
  root = λ t. (_, refl, refl);
  rounds = 58;
  enough = refl;
  no_delay = refl;
}

abbrev changes : List Change
changes =
    acquire (target_of "a")
    ∷ acquire (target_of "b")
    ∷ release (target_of "a")
    ∷ acquire (target_of "b")
    ∷ release (target_of "b")
    ∷ []

changes-AreApart : AreApart server changes
unfolding get_reference_key
changes-AreApart = (refl, (refl, (refl, tt)))

-- Behind all changes nobody holds the pod.
nobody : holders_after server changes [] ≡ []
unfolding holders_after hold let_go get_reference_key
nobody = refl

make_changes-Represents_example :
    Returns
      (make_changes server config
        (record { retries = 1; checks = 1 })
        no_setting
        "vol"
        "/mosfs/vol"
        []
        changes)
      []
      (λ _ u.
        Represents
          (holders_after server changes [])
          (annotations_after (generate_pod_name config "vol") "kube-system" none u))
unfolding annotations_after
make_changes-Represents_example =
    make_changes-Represents server config "vol" none server-IsServer no_setting "/mosfs/vol"
      mountable [] 0 0 changes [] [] changes-AreApart refl
