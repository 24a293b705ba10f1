-- ===== src/Controller/PodController/Watch.antt =====
-- pkg/controller/pod_controller.go: which events of the API server lead to a check (SetupWithManager).
use dfs_csi.Prelude.{String, Bool, true, false, not, ◌==◌}
use dfs_csi.System.{System, ManagerCall}
use dfs_csi.System.Io.{Io, pure, panic, manage, ◌>>◌}

-- An object of an event: a pod with its name and its resource version, or another.
pub data WatchedObject : Type 0 where
  watched_pod : String → String → WatchedObject
  another_object : WatchedObject

-- CreateFunc and DeleteFunc, whose type assertion panics on another object.
unfoldable pub on_create : WatchedObject → Io Bool
on_create (watched_pod name version) = pure true
on_create another_object = panic "interface conversion"

unfoldable pub on_delete : WatchedObject → Io Bool
on_delete (watched_pod name version) = pure true
on_delete another_object = panic "interface conversion"

-- UpdateFunc of the new and the old object. The name is taken of the new pod, which is nil if the object
-- is another, before the type is looked at.
unfoldable pub on_update : WatchedObject → WatchedObject → Io Bool
on_update another_object old = panic "nil pointer dereference"
on_update (watched_pod name version) another_object = pure false
on_update (watched_pod name version) (watched_pod old_name old_version) =
    pure (not (version == old_version))

-- SetupWithManager
unfoldable pub setup_with_manager : System → Io (Unit {0})
setup_with_manager sys = do
  manage sys (ManagerCall.new_controller "mount")
  manage sys ManagerCall.watch_pods
