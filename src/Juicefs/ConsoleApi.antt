-- ===== src/Juicefs/ConsoleApi.antt =====
-- pkg/juicefs/console.go: the quotas and the access rules of a file system, which the console keeps.
-- encoding/json is the parameter Codec; a number of the console is not negative here.
pub mod Quotas
use dfs_csi.Prelude.{
  ℕ, String, Bool, true, false, Option, none, some, List, [], ◌∷◌, ◌<>◌, ◌==◌, find_first,
  if◌then◌else◌,
}
use dfs_csi.Juicefs.Http.{run_http_request_raw}
use dfs_csi.Strings.{decimal}
use dfs_csi.System.{System, Code, Failure, Method, Request, Result, ok, err}
use dfs_csi.System.Io.{Io, pure, fail, attempt, lift, ◌>>=◌, ◌>>◌, on_result, on_option}

pub record VolumeInfo : Type 0 where
  pub id : ℕ
  pub name : String
  pub size : ℕ

pub record QuotaInfo : Type 0 where
  pub id : ℕ
  pub volid : ℕ
  pub path : String
  pub size : ℕ
  pub inode : ℕ

pub record Console : Type 0 where
  pub addr : String
  pub token : String

pub record Acl : Type 0 where
  pub id : ℕ
  pub desc : String
  pub iprange : String
  pub apionly : Bool
  pub readonly : Bool
  pub appendonly : Bool
  pub token : String
  pub qos : String
  pub extend : String

-- The body of CreateQuota's request, and UpdateQos's `updateBody`.
pub record NewQuota : Type 0 where
  pub path : String
  pub inodes : ℕ
  pub size : ℕ

pub record UpdateBody : Type 0 where
  pub desc : String
  pub iprange : String
  pub readonly : Bool
  pub appendonly : Bool
  pub qos : String
  pub extend : String

-- json.Unmarshal and json.Marshal at the types of this file.
pub record Codec : Type 0 where
  pub volumes : String → Result (List VolumeInfo)
  pub quotas : String → Result (List QuotaInfo)
  pub acls : String → Result (List Acl)
  pub new_quota : NewQuota → String
  pub quota : QuotaInfo → String
  pub update_body : UpdateBody → String

-- The loop of GetQuota: the last quota of the path.
unfoldable pub quota_at : ℕ → String → Option QuotaInfo → List QuotaInfo → Option QuotaInfo
quota_at volid path found [] = found
quota_at volid path found (q ∷ quotas) =
    quota_at volid path (if q.path == path then some (record q { volid = volid }) else found) quotas

-- The loop of SetQos, which stops at the first rule.
abbrev pub default_acl : List Acl → Option Acl
default_acl acls = find_first (λ acl. acl.desc == "default") acls

module _ (sys : System) (codec : Codec) (cs : Console) where
  pub volumes_url : String
  volumes_url = "http://" <> cs.addr <> "/api/v1/volumes"

  pub quotas_url : ℕ → String
  quotas_url volid = volumes_url <> "/" <> decimal volid <> "/quotas"

  pub exports_url : ℕ → String
  exports_url volid = volumes_url <> "/" <> decimal volid <> "/exports"

  pub with_token : String → String
  with_token url = url <> "?token=" <> cs.token

  -- http.NewRequest
  pub request : Method → String → String → Request
  unfolding with_token
  request m url content = record { method = m; url = with_token url; body = content }

  unfoldable pub get_volumes : Io (List VolumeInfo)
  unfolding request volumes_url
  get_volumes = do
    resp ← run_http_request_raw sys (request Method.get volumes_url "")
    lift (codec.volumes resp)

  -- Console.volume
  unfoldable pub volume : String → Io VolumeInfo
  volume name = do
    vols ← get_volumes
    on_option (find_first (λ v. v.name == name) vols)
        (fail (Failure.status Code.internal "Volume not found")) pure

  unfoldable pub get_quotas : ℕ → Io (List QuotaInfo)
  unfolding request quotas_url
  get_quotas volid = do
    resp ← run_http_request_raw sys (request Method.get (quotas_url volid) "")
    lift (codec.quotas resp)

  unfoldable pub create_quota : String → String → ℕ → ℕ → Io (Unit {0})
  unfolding request quotas_url
  create_quota volume_name path inodes size = do
    vol ← volume volume_name
    run_http_request_raw sys (
        request Method.post (quotas_url vol.id)
          (codec.new_quota (record { path = path; inodes = inodes; size = size })))
    pure tt

  unfoldable pub get_quota : String → String → Io (Option QuotaInfo)
  unfolding quota_at
  get_quota volume_name path = do
    vol ← volume volume_name
    quotas ← get_quotas vol.id
    pure (quota_at vol.id path none quotas)

  pub quota_url : QuotaInfo → String
  unfolding quotas_url
  quota_url quota = quotas_url quota.volid <> "/" <> decimal quota.id

  unfoldable pub delete_quota : String → String → Io (Unit {0})
  unfolding request quota_url
  delete_quota volume_name path = do
    quota ← get_quota volume_name path
    on_option quota (pure tt)
        (λ q. do run_http_request_raw sys (request Method.delete (quota_url q) ""); pure tt)

  unfoldable pub update_quota : QuotaInfo → Io (Unit {0})
  unfolding request quota_url
  update_quota quota = do
    run_http_request_raw sys (request Method.put (quota_url quota) (codec.quota quota))
    pure tt

  unfoldable pub get_acl_list : String → Io (List Acl)
  unfolding request exports_url
  get_acl_list volume_name = do
    vol ← volume volume_name
    resp ← run_http_request_raw sys (request Method.get (exports_url vol.id) "")
    lift (codec.acls resp)

  unfoldable pub update_qos : String → String → Acl → Io (Unit {0})
  unfolding request exports_url
  update_qos qos volume_name acl = do
    vol ← volume volume_name
    run_http_request_raw sys (
        request Method.put (exports_url vol.id <> "/" <> decimal acl.id) (
          codec.update_body (record {
            desc = acl.desc;
            iprange = acl.iprange;
            readonly = acl.readonly;
            appendonly = acl.appendonly;
            qos = qos;
            extend = acl.extend;
          })))
    pure tt

  unfoldable pub set_qos : String → String → Io (Unit {0})
  set_qos volume_name qos = do
    listed ← attempt (get_acl_list volume_name)
    on_result listed
        (λ acls.
          on_option (default_acl acls) (fail (Failure.message "volume not contains default acl"))
            λ acl. do
              updated ← attempt (update_qos qos volume_name acl)
              on_result updated pure (λ _. fail (Failure.message "update volume qos error")))
        (λ _. fail (Failure.message "get volume acl list error"))
