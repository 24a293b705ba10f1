-- ===== src/Driver/Publish/Options.antt =====
-- The options with which NodePublishVolume mounts.
use dfs_csi.Prelude.{
  ◌≡◌, String, Bool, true, false, ◌||◌, ◌&&◌, none, some, List, [], ◌∷◌, ◌++◌, ◌==◌, any, map,
  arith, if◌then◌else◌, eq_iff,
}
use dfs_csi.Prelude.Dict.{Dict, lookup, insert}
use dfs_csi.Strings.{split}
use dfs_csi.Driver.Capability.{AccessMode, multi_node_reader_only}
use dfs_csi.Driver.Publish.{NodePublishRequest, VolumeCapability, flag_keys, mount_options}

abbrev pub is_in : String → List String → Bool
is_in o options = any (λ p. p == o) options

abbrev reads_only : AccessMode → Bool
reads_only multi_node_reader_only = true
reads_only _ = false

-- The options that the context of the volume names.
abbrev of_context : NodePublishRequest → List String
of_context req = elim (lookup "mountOptions" req.volume_context) [
  | none ↦ []
  | some opts ↦ split opts ","
]

-- The options of a request: those of the context, `ro` where it or its access mode only reads, and the
-- flags of the capability.
abbrev pub AreOptionsOf : NodePublishRequest → VolumeCapability → List String → Type 0
AreOptionsOf req capability options =
    (o : String)
    → is_in o options ≡ (
        is_in o (of_context req)
        || ((req.readonly || reads_only capability.mode) && ("ro" == o)
            || is_in o capability.mount_flags))

is_in-append : (o : String) (xs ys : List String) → is_in o (xs ++ ys) ≡ (is_in o xs || is_in o ys)
is_in-append o [] ys = ground arith
is_in-append o (x ∷ xs) ys = ground (arith, is_in-append o xs ys)

is_in-insert :
    (o k v : String) (d : Dict String)
    → is_in o (map (λ (j, w). j) (insert k v d)) ≡ (k == o || is_in o (map (λ (j, w). j) d))
unfolding insert
is_in-insert o k v [] = ground arith
is_in-insert o k v ((j, w) ∷ d) = ground (arith, is_in-insert o k v d, eq_iff j k)

is_in-flag_keys :
    (o : String) (d : Dict String) (flags : List String)
    → is_in o (map (λ (j, w). j) (flag_keys d flags))
      ≡ (is_in o (map (λ (j, w). j) d) || is_in o flags)
unfolding flag_keys
is_in-flag_keys o d [] = ground arith
is_in-flag_keys o d (f ∷ flags) =
    ground (arith, is_in-flag_keys o (insert f "" d) flags, is_in-insert o f "" d)

abbrev when : Bool → Dict String
when b = if b then ("ro", "") ∷ [] else []

is_in-when : (b : Bool) (o : String) → is_in o (map (λ (j, w). j) (when b)) ≡ (b && ("ro" == o))
is_in-when true o = ground arith
is_in-when false o = ground arith

pub mount_options-AreOptionsOf :
    (req : NodePublishRequest) (capability : VolumeCapability)
    → AreOptionsOf req capability (mount_options req capability)
unfolding mount_options
mount_options-AreOptionsOf req capability o = ground (
  arith,
  is_in-append o (of_context req) (
      map (λ (j, w). j)
        (flag_keys (when (req.readonly || reads_only capability.mode)) capability.mount_flags)),
  is_in-flag_keys o (when (req.readonly || reads_only capability.mode)) capability.mount_flags,
  is_in-when (req.readonly || reads_only capability.mode) o,
)
