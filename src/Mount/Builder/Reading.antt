-- ===== src/Mount/Builder/Reading.antt =====
-- What the command of a mount pod says when it is read back.
use mathlib.Core.List.{append_assoc}
use dfs_csi.Prelude.{
  ◌≡◌, refl, ap, ◌∙◌, Char, String, ◌<>◌, Bool, true, false, [], ◌∷◌, ◌++◌, map, all, is_empty,
  contains_text, starts_with, none, arith, if◌then◌else◌,
}
use dfs_csi.Strings.{Chars, chars, text, split, fields, fields_loop, replace_char}
use dfs_csi.Strings.Laws.{text-chars, chars-text}
use dfs_csi.Strings.Words.{
  is_word, lacks, fields_loop-word_first, split-last, replace_char-append, under_base,
}
use dfs_csi.Config.{pod_mount_base}
use dfs_csi.System.{Failure, ok, err}
use dfs_csi.Util.Paths.{check_args, split_mnt_path, parse_mnt_path}
use dfs_csi.Mount.Builder.{replace_all, quote_for_shell}

-- Three words and what follows them.
abbrev pub line : Chars → Chars → Chars → Chars → Chars
line u v w rest = u ++ (" " ∷ (v ++ (" " ∷ (w ++ (" " ∷ rest)))))

pub line-append : (u v w s t : Chars) → line u v w s ++ t ≡ line u v w (s ++ t)
line-append u v w s t =
    append_assoc u (" " ∷ (v ++ (" " ∷ (w ++ (" " ∷ s))))) t
    ∙ ap (λ x. u ++ (" " ∷ x))
        (append_assoc v (" " ∷ (w ++ (" " ∷ s))) t
          ∙ ap (λ x. v ++ (" " ∷ x)) (append_assoc w (" " ∷ s) t))

pub all-append :
    (p : Char → Bool) (s t : Chars) → all p s ≡ true → all p t ≡ true → all p (s ++ t) ≡ true
all-append p [] t hs ht = ht
all-append p (c ∷ s) t hs ht = ground (arith, all-append p s t)

-- A step of quoteForShell leaves the front of a text as it is, if the character is not in it.
front :
    (c : Char) (new s : String) (b : Bool) (a rest : Chars)
    → chars s ≡ a ++ rest
    → lacks c a ≡ true
    → (rest' : Chars) × (chars (if b then replace_all s c new else s) ≡ a ++ rest')
unfolding replace_char
front c new s false a rest eq plain = (rest, eq)
front c new s true a rest eq plain = (
  replace_char c (chars new) rest,
  chars-text _
      ∙ ap (replace_char c (chars new)) eq
      ∙ replace_char-append c (chars new) a rest plain,
)

pub quoted :
    (s : String) (a rest : Chars)
    → chars s ≡ a ++ rest
    → lacks "(" a ≡ true
    → lacks ")" a ≡ true
    → (rest' : Chars) × (chars (quote_for_shell s) ≡ a ++ rest')
unfolding quote_for_shell
quoted s a rest eq plain plain' = by_first (front "(" "\\(" s (contains_text s "(") a rest eq plain)
  where
    by_first :
        (rest' : Chars) × (chars (if contains_text s "(" then replace_all s "(" "\\(" else s)
            ≡ a ++ rest')
        → (rest' : Chars) × (chars (quote_for_shell s) ≡ a ++ rest')
    by_first (rest', eq') = front ")" "\\)" _ _ a rest' eq' plain'

-- A text that is no empty word.
abbrev pub IsWord : Chars → Type 0
IsWord w = (is_empty w ≡ false) × (is_word w ≡ true)

fields_loop-line :
    (u v w rest : Chars)
    → IsWord u
    → IsWord v
    → IsWord w
    → fields_loop (line u v w rest) none ≡ u ∷ v ∷ w ∷ fields_loop rest none
fields_loop-line u v w rest hu hv hw =
    fields_loop-word_first u _ " " hu.0 hu.1 refl
    ∙ ap (λ x. u ∷ x)
        (fields_loop-word_first v _ " " hv.0 hv.1 refl
          ∙ ap (λ x. v ∷ x) (fields_loop-word_first w rest " " hw.0 hw.1 refl))

pub lacks-line :
    (c : Char) (u v w : Chars)
    → lacks c (" " ∷ []) ≡ true
    → lacks c u ≡ true
    → lacks c v ≡ true
    → lacks c w ≡ true
    → lacks c (line u v w []) ≡ true
lacks-line c u v w hc hu hv hw =
    all-append _ u _ hu
      (cons_space _ (all-append _ v _ hv (cons_space _ (all-append _ w (" " ∷ []) hw hc))))
  where
    cons_space : (s : Chars) → lacks c s ≡ true → lacks c (" " ∷ s) ≡ true
    cons_space s h = ground (arith, hc)

under :
    (volume : String)
    → split ("/mosfs/" <> volume) "/" ≡ "" ∷ "mosfs" ∷ volume ∷ []
    → (if starts_with ("/mosfs/" <> volume) pod_mount_base
        then split_mnt_path ("/mosfs/" <> volume) (split ("/mosfs/" <> volume) "/")
        else err (Failure.message "err cmd"))
      ≡ ok ("/mosfs/" <> volume, volume)
unfolding split_mnt_path
under volume eq =
    ap
      (λ b.
        if b
        then split_mnt_path ("/mosfs/" <> volume) (split ("/mosfs/" <> volume) "/")
        else err (Failure.message "err cmd"))
      (under_base volume)
    ∙ ap (split_mnt_path ("/mosfs/" <> volume)) eq

-- The path in the third word of a command.
pub parse_mnt_path-line :
    (cmd volume : String) (u v rest : Chars)
    → chars cmd ≡ line u v (chars ("/mosfs/" <> volume)) rest
    → IsWord u
    → IsWord v
    → IsWord (chars ("/mosfs/" <> volume))
    → lacks "/" (chars volume) ≡ true
    → parse_mnt_path cmd ≡ ok ("/mosfs/" <> volume, volume)
unfolding parse_mnt_path fields
parse_mnt_path-line cmd volume u v rest eq hu hv hw plain =
    ap (λ s. check_args (map text (fields_loop s none))) eq
    ∙ ap (λ ws. check_args (map text ws)) (fields_loop-line u v _ rest hu hv hw)
    ∙ ap
        (λ p.
          if starts_with p pod_mount_base
          then split_mnt_path p (split p "/")
          else err (Failure.message "err cmd"))
        (text-chars ("/mosfs/" <> volume))
    ∙ under volume (split-last volume plain)
