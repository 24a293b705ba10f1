-- ===== src/Controller/PodController/Apps.antt =====
-- Which pods of applications Reconcile looks for.
use dfs_csi.Prelude.{
  ◌≡◌, refl, String, Bool, false, ◌&&◌, ◌||◌, Option, none, some, List, [], ◌∷◌, ◌++◌, ◌==◌, any,
  eq_iff, arith,
}
use dfs_csi.Kube.{PersistentVolume}
use dfs_csi.Controller.PodController.{is_driver, add_namespace, claim_namespaces}

abbrev pub is_claimed_in : String → Option String → Bool
is_claimed_in ns none = false
is_claimed_in ns (some claim) = claim == ns

-- Whether the namespace is in the list.
abbrev pub lists : String → List String → Bool
lists ns names = any (λ n. n == ns) names

lists-append :
    (ns m : String) (names : List String) → lists ns (names ++ m ∷ []) ≡ (lists ns names || m == ns)
lists-append ns m [] = ground arith
lists-append ns m (n ∷ names) = ground (arith, lists-append ns m names)

lists-add_namespace :
    (ns : String) (claim : Option String) (seen : List String)
    → lists ns (add_namespace claim seen) ≡ (lists ns seen || is_claimed_in ns claim)
lists-add_namespace ns none seen = ground arith
lists-add_namespace ns (some m) seen =
    ground (arith, lists-append ns m seen, eq_iff m ns, lists_same)
  where
    lists_same : m ≡ ns → lists m seen ≡ lists ns seen
    lists_same e = rw e refl

after :
    (ns : String) (seen : List String) (pvs : List PersistentVolume)
    → lists ns (claim_namespaces seen pvs) ≡ (
        lists ns seen || any (λ pv. is_driver pv.driver && is_claimed_in ns pv.claim_namespace) pvs)
unfolding claim_namespaces
after ns seen [] = ground arith
after ns seen (pv ∷ pvs) = ground (
  arith,
  after ns seen pvs,
  after ns (add_namespace pv.claim_namespace seen) pvs,
  lists-add_namespace ns pv.claim_namespace seen,
)

-- ListAppPod looks into a namespace exactly when a volume of this driver has a claim there.
pub claim_namespaces_lem :
    (ns : String) (pvs : List PersistentVolume)
    → lists ns (claim_namespaces [] pvs)
      ≡ any (λ pv. is_driver pv.driver && is_claimed_in ns pv.claim_namespace) pvs
claim_namespaces_lem ns pvs = ground (arith, after ns [] pvs)
