-- ===== src/Controller/MountInfo/Counts.antt =====
-- What resolveTargetItem counts.
use dfs_csi.Prelude.{
  suc, ◌+◌, ◌≡◌, refl, sym, String, true, false, not, Option, none, some, List, [], ◌∷◌, ◌==◌,
  eq_iff, keep, any, length, arith, if◌then◌else◌,
}
use dfs_csi.Prelude.Dict.{Dict, lookup, lookup-insert}
use dfs_csi.System.{MountInfo}
use dfs_csi.Controller.MountInfo.{
  TargetItem, add_mount, collect_records, subpath_of, new_item, count_mount,
}

-- The mounts at a path.
abbrev pub mounts_at : String → List MountInfo → List MountInfo
mounts_at path mis = keep (λ mi. path == mi.mount_point) mis

-- The record of some mounts: their number, and whether one has another subpath than the first.
abbrev pub record_of : String → List MountInfo → Option TargetItem
record_of path [] = none
record_of path (mi ∷ mis) = some (record (new_item path (subpath_of mi) (suc (length mis))) {
  inconsistent = any (λ m. not (subpath_of mi == subpath_of m)) mis;
})

-- One record with some more mounts.
abbrev more : TargetItem → List MountInfo → TargetItem
more r mis = record r {
  count = r.count + length mis;
  inconsistent = if r.inconsistent then true else any (λ m. not (r.subpath == subpath_of m)) mis;
}

abbrev add_all : String → Option TargetItem → List MountInfo → Option TargetItem
add_all path (some r) mis = some (more r mis)
add_all path none mis = record_of path mis

add_mount-here :
    (path : String) (mi : MountInfo) (records : Dict TargetItem)
    → (path == mi.mount_point) ≡ true
    → lookup path (add_mount mi records)
      ≡ some (elim (lookup path records) [
        | none ↦ new_item path (subpath_of mi) 1
        | some r ↦ count_mount r (subpath_of mi)
      ])
unfolding add_mount
add_mount-here path mi records at = ground (
  arith,
  eq_iff mi.mount_point path,
  eq_iff path mi.mount_point,
  lookup-insert mi.mount_point path
      (elim (lookup mi.mount_point records) [
        | none ↦ new_item mi.mount_point (subpath_of mi) 1
        | some r ↦ count_mount r (subpath_of mi)
      ])
      records,
)

add_mount-other :
    (path : String) (mi : MountInfo) (records : Dict TargetItem)
    → (path == mi.mount_point) ≡ false
    → lookup path (add_mount mi records) ≡ lookup path records
unfolding add_mount
add_mount-other path mi records other = ground (
  arith,
  eq_iff mi.mount_point path,
  eq_iff path mi.mount_point,
  lookup-insert mi.mount_point path
      (elim (lookup mi.mount_point records) [
        | none ↦ new_item mi.mount_point (subpath_of mi) 1
        | some r ↦ count_mount r (subpath_of mi)
      ])
      records,
)

add_all-cons :
    (path : String) (o : Option TargetItem) (mi : MountInfo) (mis : List MountInfo)
    → add_all path
        (some (elim o [
          | none ↦ new_item path (subpath_of mi) 1
          | some r ↦ count_mount r (subpath_of mi)
        ]))
        mis
      ≡ add_all path o (mi ∷ mis)
add_all-cons path none mi mis = ground arith
add_all-cons path (some r) mi mis = ground arith

add_all-nil : (path : String) (o : Option TargetItem) → add_all path o [] ≡ o
add_all-nil path none = refl
add_all-nil path (some r) = ground arith

collect_records-add_all :
    (path : String) (records : Dict TargetItem) (mis : List MountInfo)
    → lookup path (collect_records path false records mis)
      ≡ add_all path (lookup path records) (mounts_at path mis)
unfolding collect_records
collect_records-add_all path records [] = sym (add_all-nil path (lookup path records))
collect_records-add_all path records (mi ∷ mis) = ground (
  arith,
  collect_records-add_all path records mis,
  collect_records-add_all path (add_mount mi records) mis,
  eq_iff path mi.mount_point,
  add_mount-here path mi records,
  add_mount-other path mi records,
  add_all-cons path (lookup path records) mi (mounts_at path mis),
)

-- For one path, resolveTargetItem records a target exactly when the table has a mount at the path. The
-- record counts these mounts, and is inconsistent exactly when one has another subpath than the first.
pub collect_records-exact :
    (path : String) (mis : List MountInfo)
    → lookup path (collect_records path false [] mis) ≡ record_of path (mounts_at path mis)
unfolding lookup
collect_records-exact path mis = collect_records-add_all path [] mis
