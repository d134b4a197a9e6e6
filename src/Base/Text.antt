-- ===== src/Base/Text.antt =====
-- `strings.HasPrefix` and `strings.TrimPrefix`.
use Prim.Native.Char.{Char, code}
use Prim.Native.String.{String, [], ◌∷◌, ◌++◌}
use mathlib.Core.Path.{◌≡◌, refl, sym, ap, ap₂, ◌∙◌}
use mathlib.Core.Bool.{Bool, true, false, not, ◌&&◌, ◌||◌, false≢true}
use Prim.Native.Nat.{ℕ}
use mathlib.Core.Option.{Option, none, some}
use mathlib.Core.List.{List}
use mathlib.Core.Logic.{inl, inr}
use native.Mathlib.Omega.{arith}
use text.Mathlib.TextEquality.{Char-path, eq_iff}
use text.Mathlib.TextLemmas.{nil-append, cons-append, append_cancel_left}
use solarwinds_otel_collecto.Base.Tests.{◌==◌, ◌=s=◌, Bool-cases, if◌then◌else◌, str_cases}

-- Concatenation of Go strings.
infixr 65 ◌++ₛ◌
abbrev pub ◌++ₛ◌ : String → String → String
s ++ₛ t = s ++ t

-- `HasPrefix(s, prefix)`, the prefix first.
unfoldable pub has_prefix : String → String → Bool
has_prefix [] s = true
has_prefix (c ∷ p) [] = false
has_prefix (c ∷ p) (d ∷ s) = code c == code d && has_prefix p s

drop_prefix : String → String → String
drop_prefix [] s = s
drop_prefix (c ∷ p) [] = []
drop_prefix (c ∷ p) (d ∷ s) = drop_prefix p s

-- `TrimPrefix(s, prefix)`, the prefix first.
unfoldable pub trim_prefix : String → String → String
unfolding has_prefix drop_prefix
trim_prefix p s = if has_prefix p s then drop_prefix p s else s

-- `strings.Contains(s, sub)`, the part first.
unfoldable pub contains_text : String → String → Bool
contains_text sub [] = has_prefix sub []
contains_text sub (c ∷ s) = has_prefix sub (c ∷ s) || contains_text sub s

-- `strings.Split` and `strings.Cut` at a separator of one character, given by its code.
add_to_first : Char → List String → List String
add_to_first c List.[] = List.◌∷◌ (c ∷ "") List.[]
add_to_first c (List.◌∷◌ part parts) = List.◌∷◌ (c ∷ part) parts

unfoldable pub split_on : ℕ → String → List String
unfolding add_to_first
split_on sep [] = List.◌∷◌ "" List.[]
split_on sep (c ∷ s) =
    let parts = split_on sep s in if code c == sep then List.◌∷◌ "" parts else add_to_first c parts

abbrev pub split_dots : String → List String
split_dots = split_on b'.'

unfoldable pub cut_at : ℕ → String → Option (String × String)
cut_at sep [] = none
cut_at sep (c ∷ s) =
    let rest = cut_at sep s in
    if code c == sep
    then some ("", s)
    else elim rest [ none ↦ none | some (before, after) ↦ some (c ∷ before, after) ]

append-drop_prefix : (p s : String) → has_prefix p s ≡ true → p ++ drop_prefix p s ≡ s
unfolding has_prefix drop_prefix
append-drop_prefix [] s h = nil-append s
append-drop_prefix (c ∷ p) [] h = absurd (false≢true h)
append-drop_prefix (c ∷ p) (d ∷ s) h =
    rw cons-append (ap₂ ◌∷◌ (Char-path c d (ground arith)) (append-drop_prefix p s (ground arith)))

pub has_prefix-append : (p s : String) → has_prefix p (p ++ s) ≡ true
unfolding has_prefix
has_prefix-append [] s = refl
has_prefix-append (c ∷ p) s = rw cons-append (ground (arith, has_prefix-append p s))

-- A text that starts with the prefix is the prefix and the trimmed text.
pub append-trim_prefix : (p s : String) → has_prefix p s ≡ true → p ++ trim_prefix p s ≡ s
unfolding trim_prefix
append-trim_prefix p s h = rw h (append-drop_prefix p s h)

-- A text is `p ++ j` exactly if it starts with `p` and its rest is `j`.
pub eq-append : (p s j : String) → (s =s= p ++ j) ≡ (has_prefix p s && (trim_prefix p s =s= j))
eq-append p s j = elim (Bool-cases (has_prefix p s)) [
  | inl h ↦ ground (
    arith,
    eq_iff s (p ++ j),
    eq_iff (trim_prefix p s) j,
    append-trim_prefix p s h,
    λ (e : p ++ trim_prefix p s ≡ p ++ j). append_cancel_left p (trim_prefix p s) j e,
  )
  | inr h ↦
      ground (
        arith,
        h,
        eq_iff s (p ++ j),
        has_prefix-append p j,
        λ (e : s ≡ p ++ j). ap (has_prefix p) e,
      )
]

-- A text without a dot.
unfoldable pub dot_free : String → Bool
dot_free [] = true
dot_free (c ∷ s) = not (code c == b'.') && dot_free s

dot : Char
dot = "."

split_dots-cons_dot :
    (a s : String) → dot_free a ≡ true → split_dots (a ++ (dot ∷ s)) ≡ List.◌∷◌ a (split_dots s)
unfolding split_on dot_free dot
split_dots-cons_dot [] s h = rw nil-append refl
split_dots-cons_dot (c ∷ a) s h = rw cons-append (ground (arith, split_dots-cons_dot a s))

-- The part before a dot is the first.
pub split_dots-append :
    (a s : String) → dot_free a ≡ true → split_dots (a ++ "." ++ s) ≡ List.◌∷◌ a (split_dots s)
unfolding dot
split_dots-append a s h =
    ap (λ t. split_dots (a ++ t)) (cons-append dot "" s ∙ ap (◌∷◌ dot) (nil-append s))
    ∙ split_dots-cons_dot a s h

abbrev is_nil : String → Bool
is_nil [] = true
is_nil (c ∷ s) = false

pub append_nonempty : (a b : String) → not (a =s= "") ≡ true → ((a ++ₛ b) =s= "") ≡ false
append_nonempty [] b h = absurd (ground arith)
append_nonempty (c ∷ a) b h = elim (str_cases ((c ∷ a) ++ b) "") [
  | inl (p, _) ↦ absurd (false≢true (ap is_nil (sym (cons-append c a b) ∙ p)))
  | inr (_, q) ↦ q
]
