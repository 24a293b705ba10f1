-- ===== src/Config/Setting.antt =====
-- pkg/juicefs/config/setting.go
use dfs_csi.Prelude.{
  ◌≡◌, ◌⊎◌, inl, inr, ap, String, Bool, true, false, [], ◌∷◌, ◌==◌, is_some, if◌then◌else◌,
}
use dfs_csi.Prelude.Dict.{Dict, lookup, value_of}
use dfs_csi.System.{System, Code, Failure, Result, ok, err}

-- JfsSetting
pub record JfsSetting : Type 0 where
  pub is_ce : Bool
  pub use_pod : Bool
  pub name : String
  pub meta_url : String
  pub source : String
  pub storage : String
  pub configs : Dict String
  pub envs : Dict String
  pub mount_pod_cpu_limit : String
  pub mount_pod_mem_limit : String
  pub mount_pod_cpu_request : String
  pub mount_pod_mem_request : String
  pub deleted_delay : String

abbrev pub no_setting : JfsSetting
no_setting = record {
  is_ce = false;
  use_pod = false;
  name = "";
  meta_url = "";
  source = "";
  storage = "";
  configs = [];
  envs = [];
  mount_pod_cpu_limit = "";
  mount_pod_mem_limit = "";
  mount_pod_cpu_request = "";
  mount_pod_mem_request = "";
  deleted_delay = "";
}

infixl 5 ◌>>=◌
abbrev ◌>>=◌ {ℓ κ} : {A : Type ℓ} {B : Type κ} → Result A → (A → Result B) → Result B
ok a >>= f = f a
err e >>= f = err e

-- A map in YAML or else in JSON; nothing is read from an empty text.
parse_map : System → String → String → Result (Dict String)
parse_map sys what s = if s == "" then ok [] else elim (sys.unmarshal_yaml s) [
  | ok m ↦ ok m
  | err _ ↦ elim (sys.unmarshal_json s) [
    | ok m ↦ ok m
    | err _ ↦ err (Failure.status Code.invalid_argument what)
  ]
]

check_delay : System → String → Result String
check_delay sys delay = if delay == "" then ok "" else elim (sys.parse_duration delay) [
  | ok _ ↦ ok delay
  | err _ ↦ err (Failure.message "can't parse delay time")
]

-- ParseSetting of secrets that are not nil
parse_secrets : System → Dict String → Dict String → Bool → Result JfsSetting
unfolding parse_map check_delay lookup value_of
parse_secrets sys secrets ctx use_pod =
    if value_of secrets "name" == ""
    then err (Failure.status Code.invalid_argument "Empty name")
    else do
      configs ← parse_map sys "Parse configs in secret error" (value_of secrets "configs")
      envs ← parse_map sys "Parse envs in secret error" (value_of secrets "envs")
      delay ← check_delay sys (value_of ctx "mountpod/mount-delete-delay")
      ok (record {
        is_ce = is_some (lookup "metaurl" secrets);
        use_pod = use_pod;
        name = value_of secrets "name";
        meta_url = value_of secrets "metaurl";
        source = "";
        storage = value_of secrets "storage";
        configs = configs;
        envs = envs;
        mount_pod_cpu_limit = value_of ctx "mountpod/cpu-limit";
        mount_pod_mem_limit = value_of ctx "mountpod/memory-limit";
        mount_pod_cpu_request = value_of ctx "mountpod/cpu-request";
        mount_pod_mem_request = value_of ctx "mountpod/memory-request";
        deleted_delay = delay;
      })

-- ParseSetting
unfoldable pub parse_setting : System → Dict String → Dict String → Bool → Result JfsSetting
unfolding parse_secrets
parse_setting sys secrets ctx use_pod = elim secrets [
  | [] ↦ ok no_setting
  | entry ∷ more ↦ parse_secrets sys (entry ∷ more) ctx use_pod
]

-- A sequence that gives a value is one whose parts do.
by_parts {ℓ κ ι μ} :
    {A : Type ℓ} {B : Type κ} {C : Type ι} {D : Type μ} (ra : Result A) (rb : Result B)
    (rc : Result C) (mk : A → B → C → D) (d : D)
    → (ra >>= λ a. rb >>= λ b. rc >>= λ c. ok (mk a b c)) ≡ ok d
    → (a : A) × (b : B) × (c : C) × (d ≡ mk a b c)
by_parts (ok a) (ok b) (ok c) mk d eq = (a, b, c, cc)
by_parts (err e) rb rc mk d eq = absurd (cc)
by_parts (ok a) (err e) rc mk d eq = absurd (cc)
by_parts (ok a) (ok b) (err e) mk d eq = absurd (cc)

tested {ℓ κ} :
    {B : Type κ} {C : Type ℓ} (b : Bool) (e : Failure) (r : Result B) (s : B)
    → (if b then err e else r) ≡ ok s
    → (r ≡ ok s → C)
    → C
tested true e r s eq k = absurd (cc)
tested false e r s eq k = k eq

secrets-use_pod :
    (sys : System) (secrets ctx : Dict String) (use_pod : Bool) (s : JfsSetting)
    → parse_secrets sys secrets ctx use_pod ≡ ok s
    → s.use_pod ≡ use_pod
unfolding parse_secrets
secrets-use_pod sys secrets ctx use_pod s eq =
    tested (value_of secrets "name" == "") _ _ s eq λ eq'.
      ap (λ (q : JfsSetting). q.use_pod)
        (by_parts (parse_map sys "Parse configs in secret error" (value_of secrets "configs"))
          (parse_map sys "Parse envs in secret error" (value_of secrets "envs"))
          (check_delay sys (value_of ctx "mountpod/mount-delete-delay")) _ s eq').3

-- The setting that ParseSetting makes of secrets is one for a mount pod if it is asked to be.
pub parse_setting-use_pod :
    (sys : System) (secrets ctx : Dict String) (use_pod : Bool) (s : JfsSetting)
    → parse_setting sys secrets ctx use_pod ≡ ok s
    → (s ≡ no_setting) ⊎ (s.use_pod ≡ use_pod)
unfolding parse_setting
parse_setting-use_pod sys [] ctx use_pod s eq = inl (cc)
parse_setting-use_pod sys (entry ∷ more) ctx use_pod s eq =
    inr (secrets-use_pod sys (entry ∷ more) ctx use_pod s eq)
