-- ===== src/Util/Patches/Keys.antt =====
-- The finalizers that RemoveFinalizer leaves, and the form of reference keys.
use dfs_csi.Prelude.{
  ◌≡◌, String, ◌<>◌, true, not, List, [], ◌∷◌, ◌++◌, ◌==◌, starts_with, keep, arith,
  starts_with-append,
}
use mathlib.Core.List.{append-nil, append_assoc}
use dfs_csi.Strings.{chars, text}
use dfs_csi.Strings.Laws.{chars-append, text-append}
use dfs_csi.System.{System}
use dfs_csi.Util.Patches.{without_finalizer, get_reference_key, take}

without_finalizer_loop :
    (finalizer : String) (front rest : List String)
    → without_finalizer finalizer front rest ≡ front ++ keep (λ x. not (x == finalizer)) rest
unfolding without_finalizer
without_finalizer_loop f front [] = rw append-nil
without_finalizer_loop f front (x ∷ rest) = ground (
  arith,
  without_finalizer_loop f front rest,
  without_finalizer_loop f (front ++ x ∷ []) rest,
  append_assoc front (x ∷ []) (keep (λ y. not (y == f)) rest),
)

-- The loop that deletes in place keeps exactly the finalizers other than the given one, in their
-- order.
pub without_finalizer_lem :
    (finalizer : String) (finalizers : List String)
    → without_finalizer finalizer [] finalizers ≡ keep (λ x. not (x == finalizer)) finalizers
without_finalizer_lem f xs = without_finalizer_loop f [] xs

get_reference_key_parts :
    (sys : System) (target : String)
    → get_reference_key sys target ≡ "mosfs-" <> text (take 57 (chars (sys.sha256_hex target)))
unfolding get_reference_key
get_reference_key_parts sys target =
    rw chars-append (text-append (chars "mosfs-") (take 57 (chars (sys.sha256_hex target))))

-- Every reference key begins with `mosfs-`.
pub get_reference_key-starts_with :
    (sys : System) (target : String) → starts_with (get_reference_key sys target) "mosfs-" ≡ true
get_reference_key-starts_with sys target =
    rw get_reference_key_parts (starts_with-append "mosfs-" _)
