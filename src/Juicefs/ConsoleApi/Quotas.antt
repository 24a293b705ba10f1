-- ===== src/Juicefs/ConsoleApi/Quotas.antt =====
-- Which quota the console's client finds.
use dfs_csi.Prelude.{
  ℕ, ◌≡◌, refl, String, Option, none, some, List, [], ◌∷◌, ◌++◌, ◌==◌, arith, find_first,
  if◌then◌else◌,
}
use dfs_csi.Juicefs.ConsoleApi.{QuotaInfo, quota_at}

-- A list backwards.
abbrev pub backwards : List QuotaInfo → List QuotaInfo
backwards [] = []
backwards (q ∷ qs) = backwards qs ++ q ∷ []

abbrev pub at_volume : ℕ → Option QuotaInfo → Option QuotaInfo
at_volume volid none = none
at_volume volid (some q) = some (record q { volid = volid })

abbrev or_else : Option QuotaInfo → Option QuotaInfo → Option QuotaInfo
or_else (some q) r = some q
or_else none r = r

find_first-append :
    (path : String) (qs : List QuotaInfo) (q : QuotaInfo)
    → find_first (λ (q : QuotaInfo). q.path == path) (qs ++ q ∷ [])
      ≡ or_else
          (find_first (λ (q : QuotaInfo). q.path == path) qs)
          (if q.path == path then some q else none)
find_first-append path [] q = ground arith
find_first-append path (r ∷ qs) q = ground (arith, find_first-append path qs q)

after :
    (volid : ℕ) (path : String) (found : Option QuotaInfo) (qs : List QuotaInfo)
    → quota_at volid path found qs
      ≡ or_else
          (at_volume volid (find_first (λ (q : QuotaInfo). q.path == path) (backwards qs)))
          found
unfolding quota_at
after volid path found [] = refl
after volid path found (q ∷ qs) = ground (
  arith,
  after volid path (if q.path == path then some (record q { volid = volid }) else found) qs,
  find_first-append path (backwards qs) q,
)

-- GetQuota finds the first quota of the path in the console's list read backwards, and none if no
-- quota has the path.
pub quota_at-last :
    (volid : ℕ) (path : String) (quotas : List QuotaInfo)
    → quota_at volid path none quotas
      ≡ at_volume volid (find_first (λ (q : QuotaInfo). q.path == path) (backwards quotas))
quota_at-last volid path quotas = ground (arith, after volid path none quotas)
