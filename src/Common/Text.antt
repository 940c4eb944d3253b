-- ===== src/Common/Text.antt =====
-- Go strings: emptiness, membership in a slice, and the order of `<` on strings.
use Prim.Native.Char.{Char, code}
use Prim.Native.String.{String, ◌++◌}
use mathlib.Core.Path.{◌≡◌, refl, ap, ap₂, ◌∙◌}
use mathlib.Core.Bool.{Bool, true, false}
use mathlib.Core.List.{List}
use mathlib.Core.HLevel.{hedberg}
use mathlib.Core.Logic.{inl, inr}
use native.Mathlib.Omega.{arith}
use text.Mathlib.Text.{◌==◌}
use text.Mathlib.TextLemmas.{nil-append, cons-append}
use text.Mathlib.TextEquality.{eq_iff, Char-path}
use cluster_openshift_contro.Common.Tests.{if◌then◌else◌, ltb, any, nat_eq, Bool-cases}

-- concatenation, beside that of lists
infixr 65 ◌<>◌
abbrev pub ◌<>◌ : String → String → String
s <> t = s ++ t

pub single_append : (c : Char) (s : String) → String.◌∷◌ c "" <> s ≡ String.◌∷◌ c s
single_append c s = cons-append c "" s ∙ ap (String.◌∷◌ c) (nil-append s)

-- `%q` of a text without characters to escape, as the names of objects are
abbrev pub quote : String → String
quote s = "\"" <> s <> "\""

-- len(s) == 0
abbrev pub is_empty : String → Bool
is_empty s = s == ""

-- one of the values of a slice is `s`
abbrev pub member : String → List String → Bool
member s = any (λ x. x == s)

-- `s < t`: the first difference decides, and a proper prefix is smaller. Comparing code points is
-- comparing the bytes of UTF-8.
unfoldable pub less_text : String → String → Bool
less_text s String.[] = false
less_text String.[] (String.◌∷◌ d t) = true
less_text (String.◌∷◌ c s) (String.◌∷◌ d t) =
    if nat_eq (code c) (code d) then less_text s t else ltb (code c) (code d)

pub less_text_irrefl : (s : String) → less_text s s ≡ false
unfolding less_text
less_text_irrefl String.[] = refl
less_text_irrefl (String.◌∷◌ c s) = ground (arith, less_text_irrefl s)

pub less_text_trans :
    (s t u : String) → less_text s t ≡ true → less_text t u ≡ true → less_text s u ≡ true
unfolding less_text
less_text_trans String.[] String.[] u h k = absurd (ground arith)
less_text_trans String.[] (String.◌∷◌ d t) String.[] h k = k
less_text_trans String.[] (String.◌∷◌ d t) (String.◌∷◌ e u) h k = refl
less_text_trans (String.◌∷◌ c s) String.[] u h k = absurd (ground arith)
less_text_trans (String.◌∷◌ c s) (String.◌∷◌ d t) String.[] h k = k
less_text_trans (String.◌∷◌ c s) (String.◌∷◌ d t) (String.◌∷◌ e u) h k =
    ground (arith, less_text_trans s t u)

-- Texts of which neither is smaller are equal.
pub less_text_total : (s t : String) → less_text s t ≡ false → less_text t s ≡ false → s ≡ t
unfolding less_text
less_text_total String.[] String.[] h k = refl
less_text_total String.[] (String.◌∷◌ d t) h k = absurd (ground arith)
less_text_total (String.◌∷◌ c s) String.[] h k = absurd (ground arith)
less_text_total (String.◌∷◌ c s) (String.◌∷◌ d t) h k =
    ap₂ String.◌∷◌ (Char-path c d (ground arith))
      (less_text_total s t (ground arith) (ground arith))

pub String-discrete : Discrete String
String-discrete s t = elim (Bool-cases (s == t)) [
  | inl e ↦ yes ((eq_iff s t).0 e)
  | inr e ↦ no (λ p. ground (arith, (eq_iff s t).1 p))
]

pub String-set : IsSet String
String-set = hedberg String-discrete
