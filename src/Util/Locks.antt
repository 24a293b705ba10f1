-- ===== src/Util/Locks.antt =====
-- pkg/util/util.go: ObjLocks, the set of the names with an operation under way.
pub mod Exclusion
pub mod Contract
use dfs_csi.Prelude.{String, Bool, true, false, List, [], ◌∷◌, any, keep, not, ◌==◌, if◌then◌else◌}

abbrev pub ObjLocks : Type 0
ObjLocks = List String

-- NewObjLocks
abbrev pub new_obj_locks : ObjLocks
new_obj_locks = []

-- sets.String.Has
abbrev pub has : ObjLocks → String → Bool
has locks id = any (λ held. held == id) locks

-- TryAcquire, under the mutex
unfoldable pub try_acquire : String → ObjLocks → Bool × ObjLocks
try_acquire id locks = if has locks id then (false, locks) else (true, id ∷ locks)

-- Release, under the mutex
unfoldable pub release : String → ObjLocks → ObjLocks
release id locks = keep (λ held. not (held == id)) locks
