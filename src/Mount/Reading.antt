-- ===== src/Mount/Reading.antt =====
-- The command of a mount pod, read back by the reconciler.
use mathlib.Core.Path.{subst⁻¹}
use dfs_csi.Prelude.{
  ◌≡◌, refl, ap, sym, ◌∙◌, Char, String, ◌<>◌, Bool, true, false, not, ◌&&◌, List, [], ◌∷◌, ◌++◌,
  ◌==◌, all, is_empty, arith,
}
use dfs_csi.Prelude.Dict.{Dict}
use dfs_csi.Strings.{Chars, chars, join, join_path, is_space, char_eq}
use dfs_csi.Strings.Laws.{chars-append}
use dfs_csi.Strings.Words.{is_word, lacks, join_path-element}
use dfs_csi.Config.{Config, jfs_mount_path, pod_mount_base}
use dfs_csi.Config.Setting.{JfsSetting}
use dfs_csi.System.{ok}
use dfs_csi.Util.Paths.{get_mount_path_of_pod, parse_mnt_path}
use dfs_csi.Mount.{mount_command}
use dfs_csi.Mount.Builder.{Resources, quote_for_shell, new_mount_pod}
use dfs_csi.Mount.Builder.Reading.{
  line, line-append, quoted, lacks-line, parse_mnt_path-line, all-append,
}

-- No character of the text is a space, or a bracket, which quoteForShell changes.
abbrev pub is_plain : String → Bool
is_plain s = is_word (chars s) && lacks "(" (chars s) && lacks ")" (chars s)

-- The name of a volume, as an element of a path.
abbrev pub is_volume_name : String → Bool
is_volume_name s =
    not (s == "") && not (s == ".") && not (s == "..") && is_plain s && lacks "/" (chars s)

spaced : (a s : String) → chars (a <> (" " <> s)) ≡ chars a ++ (" " ∷ chars s)
spaced a s = chars-append a (" " <> s) ∙ ap (λ x. chars a ++ x) (chars-append " " s)

-- The first three words of a text with spaces in between.
three_words :
    (a b c s : String)
    → chars (a <> (" " <> (b <> (" " <> (c <> (" " <> s))))))
      ≡ line (chars a) (chars b) (chars c) [] ++ chars s
three_words a b c s =
    spaced a _
    ∙ ap (λ x. chars a ++ (" " ∷ x)) (spaced b _ ∙ ap (λ x. chars b ++ (" " ∷ x)) (spaced c s))
    ∙ sym (line-append (chars a) (chars b) (chars c) [] (chars s))

is_empty-chars : (s : String) → (s == "") ≡ false → is_empty (chars s) ≡ false
is_empty-chars String.[] h = absurd (cc)
is_empty-chars (String.◌∷◌ c s) h = refl

all-mount_path :
    (p : Char → Bool) (volume : String)
    → all p (chars "/mosfs/") ≡ true
    → all p (chars volume) ≡ true
    → all p (chars ("/mosfs/" <> volume)) ≡ true
all-mount_path p volume hs hv =
    ap (all p) (chars-append "/mosfs/" volume) ∙ all-append p (chars "/mosfs/") (chars volume) hs hv

module _ (setting : JfsSetting) (volume : String) (options : List String) where
  abbrev front : Chars
  front = line (chars jfs_mount_path) (chars setting.source) (chars ("/mosfs/" <> volume)) []

  command-line :
      (rest : Chars) × (chars (mount_command setting ("/mosfs/" <> volume) options) ≡ front ++ rest)
  unfolding mount_command join
  command-line = (_, three_words jfs_mount_path setting.source ("/mosfs/" <> volume) _)

  lacks-front :
      (c : Char)
      → lacks c (" " ∷ []) ≡ true
      → lacks c (chars jfs_mount_path) ≡ true
      → lacks c (chars "/mosfs/") ≡ true
      → lacks c (chars setting.source) ≡ true
      → lacks c (chars volume) ≡ true
      → lacks c front ≡ true
  lacks-front c space path base source name =
      lacks-line c (chars jfs_mount_path) (chars setting.source) (chars ("/mosfs/" <> volume)) space
        path source (all-mount_path (λ d. not (char_eq c d)) volume base name)

  -- The same with the mount path written out.
  read_back :
      (setting.source == "") ≡ false
      → is_plain setting.source ≡ true
      → is_plain volume ≡ true
      → lacks "/" (chars volume) ≡ true
      → parse_mnt_path (quote_for_shell (mount_command setting ("/mosfs/" <> volume) options))
        ≡ ok ("/mosfs/" <> volume, volume)
  read_back sourced plain named flat = parsed (
      quoted _ front command-line.0 command-line.1
        (lacks-front "(" refl refl refl (ground arith) (ground arith))
        (lacks-front ")" refl refl refl (ground arith) (ground arith)))
    where
      cmd : String
      cmd = mount_command setting ("/mosfs/" <> volume) options

      parsed :
          (rest : Chars) × (chars (quote_for_shell cmd) ≡ front ++ rest)
          → parse_mnt_path (quote_for_shell cmd) ≡ ok ("/mosfs/" <> volume, volume)
      parsed (rest, eq) =
          parse_mnt_path-line (quote_for_shell cmd) volume (chars jfs_mount_path)
            (chars setting.source) rest
            (eq
              ∙ line-append (chars jfs_mount_path) (chars setting.source)
                  (chars ("/mosfs/" <> volume)) [] rest)
            (refl, refl) (is_empty-chars setting.source sourced, ground arith)
            (
              ap is_empty (chars-append "/mosfs/" volume),
              all-mount_path (λ c. not (is_space c)) volume refl (ground arith),
            )
            flat

  -- GetMountPathOfPod of the pod that NewMountPod makes of JMount's command gives back the mount path
  -- and the volume, if the source and the name of the volume have no space and no bracket, the source is
  -- not empty, and the name of the volume is an element of a path: no slash, not empty, `.` or `..`.
  pub get_mount_path_of_pod-new_mount_pod :
      (cfg : Config) (pod_name : String) (resources : Resources) (configs env : Dict String)
      → (setting.source == "") ≡ false
      → is_plain setting.source ≡ true
      → is_volume_name volume ≡ true
      → get_mount_path_of_pod (
          new_mount_pod cfg pod_name
            (mount_command setting (join_path pod_mount_base volume) options)
            (join_path pod_mount_base volume)
            resources
            configs
            env)
        ≡ ok (join_path pod_mount_base volume, volume)
  unfolding get_mount_path_of_pod new_mount_pod
  get_mount_path_of_pod-new_mount_pod cfg pod_name resources configs env sourced plain named =
      subst⁻¹
        (λ path.
          parse_mnt_path (quote_for_shell (mount_command setting path options)) ≡ ok (path, volume))
        (join_path-element volume (ground arith) (ground arith) (ground arith) (ground arith))
        (read_back sourced plain (ground arith) (ground arith))
