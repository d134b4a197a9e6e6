-- ===== src/Connector/Keys/Relationships.antt =====
-- The keys of relationships: type, source hash and destination hash, joined by colons.
use Prim.Native.Char.{Char, code}
use Prim.Native.String.{String, [], ◌∷◌, ◌++◌}
use mathlib.Core.Bool.{false≢true}
use mathlib.Core.Path.{ap₂}
use text.Mathlib.TextLemmas.{
  nil-append, cons-append, head-eq_of_cons-eq, tail-eq_of_cons-eq, cons≢nil, append_assoc,
}
use solarwinds_otel_collecto.Base.{
  ℕ, zero, suc, ◌/◌, ◌%◌, ◌<◌, ◌≡◌, refl, ◌∙◌, sym, ap, Bool, true, false, not, ◌&&◌, arith, ◌==◌,
  ◌=s=◌, if◌then◌else◌, Bool-cases, inl, inr, ◌≢◌, ok, err, ◌++ₛ◌, eq_iff,
}
use solarwinds_otel_collecto.Connector.Keys.{
  relationship_type_empty, hex_digit, hex_from, hex, word, build_relationship_key,
}
use solarwinds_otel_collecto.Connector.Keys.Hashes.{passes_below, passes_below_sound, hex_inj}

-- A text without a colon.
unfoldable pub plain : String → Bool
plain [] = true
plain (c ∷ s) = not (code c == b':') && plain s

colon : Char
colon = ":"

plain-append_colon : (s t : String) → plain (s ++ₛ (colon ∷ t)) ≡ false
unfolding plain colon
plain-append_colon [] t = rw nil-append
plain-append_colon (c ∷ s) t = rw cons-append (ground (arith, plain-append_colon s t))

cons_parts : {a b : Char} {s t : String} → (a ∷ s) ≡ (b ∷ t) → (a ≡ b) × (s ≡ t)
cons_parts e = (head-eq_of_cons-eq e, tail-eq_of_cons-eq e)

-- What stands behind the last colon, and before it.
last_colon :
    (x y c d : String)
    → plain c ≡ true
    → plain d ≡ true
    → x ++ₛ (colon ∷ c) ≡ y ++ₛ (colon ∷ d)
    → (x ≡ y) × (c ≡ d)
last_colon [] [] c d pc pd e = (refl, (cons_parts (rw (nil-append, nil-append) at e)).1)
last_colon [] (b ∷ y) c d pc pd e =
    let f : (colon ∷ c) ≡ (b ∷ (y ++ₛ (colon ∷ d))) = rw (nil-append, cons-append) at e in
    absurd (false≢true (sym (plain-append_colon y d) ∙ ap plain (sym (cons_parts f).1) ∙ pc))
last_colon (a ∷ x) [] c d pc pd e =
    let f : (a ∷ (x ++ₛ (colon ∷ c))) ≡ (colon ∷ d) = rw (nil-append, cons-append) at e in
    absurd (false≢true (sym (plain-append_colon x c) ∙ ap plain (cons_parts f).1 ∙ pd))
last_colon (a ∷ x) (b ∷ y) c d pc pd e =
    let f : (a ∷ (x ++ₛ (colon ∷ c))) ≡ (b ∷ (y ++ₛ (colon ∷ d))) =
      rw (cons-append, cons-append) at e in
    let (p, q) = last_colon x y c d pc pd (cons_parts f).1 in (ap₂ ◌∷◌ (cons_parts f).0 p, q)

digit_table : passes_below (λ n. not (code (hex_digit n) == b':')) 16 ≡ true
unfolding passes_below hex_digit
digit_table = refl

hex_from-plain : (fuel n : ℕ) (s : String) → plain s ≡ true → plain (hex_from fuel n s) ≡ true
unfolding hex_from plain
hex_from-plain zero n s h = h
hex_from-plain (suc fuel) n s h =
    let digit =
      passes_below_sound (λ n. not (code (hex_digit n) == b':')) 16 (n % 16) digit_table
        (omega arith) in
    ground (arith, digit, hex_from-plain fuel (n / 16) (hex_digit (n % 16) ∷ s))

-- A printed hash has no colon and is not empty.
pub hex-plain : (n : ℕ) → plain (hex n) ≡ true
unfolding hex plain
hex-plain n = hex_from-plain 16 n "" refl

hex_from-cons-ne-nil : (fuel n : ℕ) (c : Char) (s : String) → hex_from fuel n (c ∷ s) ≢ ""
unfolding hex_from
hex_from-cons-ne-nil zero n c s = cons≢nil
hex_from-cons-ne-nil (suc fuel) n c s = elim (Bool-cases (n / 16 == 0)) [
  | inl last ↦ rw last cons≢nil
  | inr more ↦ rw more (hex_from-cons-ne-nil fuel (n / 16) (hex_digit (n % 16)) (c ∷ s))
]

hex_from-ne-nil : (fuel n : ℕ) (s : String) → hex_from (suc fuel) n s ≢ ""
unfolding hex_from
hex_from-ne-nil fuel n s = elim (Bool-cases (n / 16 == 0)) [
  | inl last ↦ rw last cons≢nil
  | inr more ↦ rw more (hex_from-cons-ne-nil fuel (n / 16) (hex_digit (n % 16)) s)
]

pub hex-ne-nil : (n : ℕ) → hex n ≢ ""
unfolding hex
hex-ne-nil n = hex_from-ne-nil 15 n ""

-- The colon before a text, and the key with its last colon in front.
colon-append : (s : String) → ":" ++ₛ s ≡ colon ∷ s
unfolding colon
colon-append s = cons-append colon "" s ∙ ap (◌∷◌ colon) (nil-append s)

joined : (t s d : String) → t ++ₛ ":" ++ₛ s ++ₛ ":" ++ₛ d ≡ (t ++ₛ (colon ∷ s)) ++ₛ (colon ∷ d)
joined t s d =
    rw (colon-append, colon-append)
      (ap (◌++◌ t) (sym (cons-append colon s (colon ∷ d)))
        ∙ sym (append_assoc t (colon ∷ s) (colon ∷ d)))

build_relationship_key-joined :
    (t s d k : String) → build_relationship_key t s d ≡ ok k → k ≡ t ++ₛ ":" ++ₛ s ++ₛ ":" ++ₛ d
unfolding build_relationship_key
build_relationship_key-joined t s d k e = ground arith

-- Two relationships share a key only if they share the type, the source hash and the destination
-- hash: the parts of a key can be told apart, whatever colons the type contains.
pub build_relationship_key_inj :
    (t t' : String) (m n m' n' : ℕ) (k : String)
    → m < word
    → n < word
    → m' < word
    → n' < word
    → build_relationship_key t (hex m) (hex n) ≡ ok k
    → build_relationship_key t' (hex m') (hex n') ≡ ok k
    → (t ≡ t') × (m ≡ m') × (n ≡ n')
build_relationship_key_inj t t' m n m' n' k bm bn bm' bn' e e' =
    let same : (t ++ₛ (colon ∷ hex m)) ++ₛ (colon ∷ hex n)
        ≡ (t' ++ₛ (colon ∷ hex m')) ++ₛ (colon ∷ hex n') =
      sym (joined t (hex m) (hex n))
      ∙ sym (build_relationship_key-joined t (hex m) (hex n) k e)
      ∙ build_relationship_key-joined t' (hex m') (hex n') k e'
      ∙ joined t' (hex m') (hex n') in
    let (front, dest) = last_colon _ _ (hex n) (hex n') (hex-plain n) (hex-plain n') same in
    let (type, source) = last_colon t t' (hex m) (hex m') (hex-plain m) (hex-plain m') front in
    (type, hex_inj m m' bm bm' source, hex_inj n n' bn bn' dest)

-- A key of two printed hashes fails only for an empty type.
pub build_relationship_key-hex :
    (t : String) (m n : ℕ)
    → build_relationship_key t (hex m) (hex n) ≡ (
        if t =s= ""
        then err relationship_type_empty
        else ok (t ++ₛ ":" ++ₛ hex m ++ₛ ":" ++ₛ hex n))
unfolding build_relationship_key
build_relationship_key-hex t m n =
    ground (arith, eq_iff (hex m) "", eq_iff (hex n) "", hex-ne-nil m, hex-ne-nil n)
