-- ===== src/Strings/Words.antt =====
-- Splitting a text that is made of parts: strings.Fields, strings.Split and filepath.Join.
use mathlib.Core.List.{append-nil, append_assoc}
use mathlib.Core.List.{reverse}
use package.text.Mathlib.TextLemmas.{append_assoc as append_assoc_text}
use package.text.Mathlib.TextPositions.{starts_with-append}
use dfs_csi.Prelude.{
  ◌≡◌, refl, ap, sym, ◌∙◌, zero, Char, String, ◌<>◌, Bool, true, false, not, none, some, List, [],
  ◌∷◌, ◌++◌, map, all, ◌==◌, arith, if◌then◌else◌, starts_with, is_empty,
}
use dfs_csi.Strings.{
  Chars, chars, text, char_eq, has_prefix, push, is_space, fields_loop, split_loop, split,
  clean_loop, clean, join, join_path, replace_char,
}
use dfs_csi.Strings.Laws.{chars-append, text-chars}

-- No character of the text is a space, or a given one.
abbrev pub is_word : Chars → Bool
is_word w = all (λ c. not (is_space c)) w

abbrev pub lacks : Char → Chars → Bool
lacks c s = all (λ d. not (char_eq c d)) s

module _ {ℓ} {A : Type ℓ} where
  elim-true : (b : Bool) (x y : A) → b ≡ true → elim b [ true ↦ x | false ↦ y ] ≡ x
  elim-true true x y h = refl
  elim-true false x y h = absurd (cc)

  elim-false : (b : Bool) (x y : A) → b ≡ false → elim b [ true ↦ x | false ↦ y ] ≡ y
  elim-false true x y h = absurd (cc)
  elim-false false x y h = refl

module _ {ℓ} {A : Type ℓ} where
  if-false : (b : Bool) (x y : A) → b ≡ false → (if b then x else y) ≡ y
  if-false true x y h = absurd (cc)
  if-false false x y h = refl

all_head :
    (p : Char → Bool) (c : Char) (s : Chars) → all (λ d. not (p d)) (c ∷ s) ≡ true → p c ≡ false
all_head p c s h = ground arith

all_tail :
    (p : Char → Bool) (c : Char) (s : Chars)
    → all (λ d. not (p d)) (c ∷ s) ≡ true
    → all (λ d. not (p d)) s ≡ true
all_tail p c s h = ground arith

fields_loop-word :
    (w s acc : Chars) (c : Char)
    → is_word w ≡ true
    → is_space c ≡ true
    → fields_loop (w ++ c ∷ s) (some acc) ≡ (acc ++ w) ∷ fields_loop s none
unfolding fields_loop
fields_loop-word [] s acc c plain space = elim-true (is_space c) _ _ space ∙ rw append-nil refl
fields_loop-word (d ∷ w) s acc c plain space =
    elim-false (is_space d) _ _ (all_head is_space d w plain)
    ∙ fields_loop-word w s (acc ++ d ∷ []) c (all_tail is_space d w plain) space
    ∙ ap (λ v. v ∷ fields_loop s none) (append_assoc acc (d ∷ []) w)

-- A word and the space behind it.
pub fields_loop-next :
    (d : Char) (w s : Chars) (c : Char)
    → is_word (d ∷ w) ≡ true
    → is_space c ≡ true
    → fields_loop (d ∷ w ++ c ∷ s) none ≡ (d ∷ w) ∷ fields_loop s none
unfolding fields_loop
fields_loop-next d w s c plain space =
    ap (fields_loop (w ++ c ∷ s)) (if-false (is_space d) _ _ (all_head is_space d w plain))
    ∙ fields_loop-word w s (d ∷ []) c (all_tail is_space d w plain) space

split_loop-last : (s : Chars) → lacks "/" s ≡ true → split_loop ("/" ∷ []) zero s ≡ s ∷ []
unfolding split_loop push has_prefix
split_loop-last [] h = refl
split_loop-last (c ∷ s) h =
    elim-false (has_prefix ("/" ∷ []) (c ∷ s)) _ _ (ground (arith, all_head (char_eq "/") c s h))
    ∙ ap (push c) (split_loop-last s (all_tail (char_eq "/") c s h))

pub split-last :
    (s : String) → lacks "/" (chars s) ≡ true → split ("/mosfs/" <> s) "/" ≡ "" ∷ "mosfs" ∷ s ∷ []
unfolding split split_loop push has_prefix
split-last s h =
    ap (λ v. map text (split_loop ("/" ∷ []) zero v)) (chars-append "/mosfs/" s)
    ∙ ap (λ v. "" ∷ "mosfs" ∷ map text v) (split_loop-last (chars s) h)
    ∙ ap (λ v. "" ∷ "mosfs" ∷ v ∷ []) (text-chars s)

pub replace_char-append :
    (c : Char) (new s t : Chars)
    → lacks c s ≡ true
    → replace_char c new (s ++ t) ≡ s ++ replace_char c new t
unfolding replace_char
replace_char-append c new [] t h = refl
replace_char-append c new (d ∷ s) t h =
    ap (λ v. v ++ replace_char c new (s ++ t))
      (if-false (char_eq c d) _ _ (all_head (char_eq c) d s h))
    ∙ ap (λ v. d ∷ v) (replace_char-append c new s t (all_tail (char_eq c) d s h))

-- The same for any text that is not empty.
pub fields_loop-word_first :
    (w s : Chars) (c : Char)
    → is_empty w ≡ false
    → is_word w ≡ true
    → is_space c ≡ true
    → fields_loop (w ++ c ∷ s) none ≡ w ∷ fields_loop s none
fields_loop-word_first [] s c some_char plain space = absurd (cc)
fields_loop-word_first (d ∷ w) s c some_char plain space = fields_loop-next d w s c plain space

cleaned :
    (t : String) (parts : List String)
    → starts_with t "/" ≡ true
    → split t "/" ≡ parts
    → clean t ≡ "/" <> join (reverse (clean_loop true [] parts)) "/"
unfolding clean
cleaned t parts rooted eq = rw (rooted, eq, clean) refl

at_root : (s : String) → starts_with ("/mosfs/" <> s) "/" ≡ true
at_root s =
    ap (λ v. starts_with v "/") (append_assoc_text "/" "mosfs/" s)
    ∙ starts_with-append "/" ("mosfs/" <> s)

pub under_base : (s : String) → starts_with ("/mosfs/" <> s) "/mosfs" ≡ true
under_base s =
    ap (λ v. starts_with v "/mosfs") (append_assoc_text "/mosfs" "/" s)
    ∙ starts_with-append "/mosfs" ("/" <> s)

kept :
    (s : String)
    → (s == "") ≡ false
    → (s == ".") ≡ false
    → (s == "..") ≡ false
    → clean_loop true [] ("" ∷ "mosfs" ∷ s ∷ []) ≡ s ∷ "mosfs" ∷ []
unfolding clean_loop
kept s some_char no_dot no_dots = rw (some_char, no_dot, no_dots) refl

-- An element of a path behind a root of one element.
pub join_path-element :
    (s : String)
    → (s == "") ≡ false
    → (s == ".") ≡ false
    → (s == "..") ≡ false
    → lacks "/" (chars s) ≡ true
    → join_path "/mosfs" s ≡ "/mosfs/" <> s
unfolding join_path join
join_path-element s some_char no_dot no_dots plain =
    if-false (s == "") _ _ some_char
    ∙ ap clean (sym (append_assoc_text "/mosfs" "/" s))
    ∙ cleaned ("/mosfs/" <> s) _ (at_root s) (split-last s plain)
    ∙ ap (λ stack. "/" <> join (reverse stack) "/") (kept s some_char no_dot no_dots)
    ∙ sym (append_assoc_text "/" "mosfs" ("/" <> s))
    ∙ sym (append_assoc_text "/mosfs" "/" s)
