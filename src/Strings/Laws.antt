-- ===== src/Strings/Laws.antt =====
-- Texts and their characters.
use Prim.Native.String.append
use dfs_csi.Prelude.{◌≡◌, refl, ap, sym, ◌∙◌, String, ◌<>◌, [], ◌∷◌, ◌++◌}
use dfs_csi.Strings.{Chars, chars, text}

pub chars-append : (s t : String) → chars (s <> t) ≡ chars s ++ chars t
chars-append String.[] t = ap chars (append.nil t)
chars-append (String.◌∷◌ c s) t = ap chars (append.cons c s t) ∙ ap (λ u. c ∷ u) (chars-append s t)

pub text-append : (a b : Chars) → text (a ++ b) ≡ text a <> text b
text-append [] b = sym (append.nil (text b))
text-append (c ∷ a) b =
    ap (λ u. String.◌∷◌ c u) (text-append a b) ∙ sym (append.cons c (text a) (text b))

pub text-chars : (s : String) → text (chars s) ≡ s
text-chars String.[] = refl
text-chars (String.◌∷◌ c s) = ap (λ u. String.◌∷◌ c u) (text-chars s)

pub chars-text : (s : Chars) → chars (text s) ≡ s
chars-text [] = refl
chars-text (c ∷ s) = ap (λ u. c ∷ u) (chars-text s)
