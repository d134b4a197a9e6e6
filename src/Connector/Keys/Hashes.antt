-- ===== src/Connector/Keys/Hashes.antt =====
-- The printed hashes: sixteen digits suffice, and different hashes print differently.
use Prim.Native.Char.{Char, code}
use Prim.Native.Nat.{bit_xor}
use Prim.Native.String.{String, [], ◌∷◌}
use native.Mathlib.Nat.{pow-suc}
use solarwinds_otel_collecto.Base.{
  ℕ, zero, suc, ◌+◌, ◌*◌, ◌-◌, ◌/◌, ◌%◌, ◌^◌, ◌<◌, ◌≡◌, refl, ◌∙◌, sym, ap, Bool, true, ◌&&◌, arith,
  ltb, ◌==◌, if◌then◌else◌, Bool-cases, inl, inr, List,
}
use solarwinds_otel_collecto.Connector.Keys.{word, fnv_from, fnv64a, hex_digit, hex_from, hex}

-- The value of a digit, and of a text of digits behind a number that is read already.
unfoldable pub digit_value : Char → ℕ
digit_value c = if ltb (code c) 58 then code c - 48 else code c - 87

unfoldable pub parse_hex : ℕ → String → ℕ
parse_hex n [] = n
parse_hex n (c ∷ s) = parse_hex (n * 16 + digit_value c) s

module _ (test : ℕ → Bool) where
  unfoldable pub passes_below : ℕ → Bool
  passes_below zero = true
  passes_below (suc bound) = test bound && passes_below bound

  pub passes_below_sound :
      (bound digit : ℕ) → passes_below bound ≡ true → digit < bound → test digit ≡ true
  unfolding passes_below
  passes_below_sound zero digit passed small = absurd (omega arith)
  passes_below_sound (suc bound) digit passed small =
      let below = passes_below_sound bound digit in ground (arith, below)

digit_table : passes_below (λ n. digit_value (hex_digit n) == n) 16 ≡ true
unfolding passes_below digit_value hex_digit
digit_table = refl

digit_value-hex_digit : (n : ℕ) → n < 16 → digit_value (hex_digit n) ≡ n
digit_value-hex_digit n h =
    let seen = passes_below_sound (λ n. digit_value (hex_digit n) == n) 16 n digit_table h in
    ground (arith, seen)

parse_hex-digit :
    (m d : ℕ) (s : String) → d < 16 → parse_hex m (hex_digit d ∷ s) ≡ parse_hex (m * 16 + d) s
unfolding parse_hex
parse_hex-digit m d s h = ap (λ v. parse_hex (m * 16 + v) s) (digit_value-hex_digit d h)

-- The last digit goes before the text that is printed.
parse_hex-step : (n : ℕ) (s : String) → parse_hex (n / 16) (hex_digit (n % 16) ∷ s) ≡ parse_hex n s
parse_hex-step n s =
    parse_hex-digit (n / 16) (n % 16) s (omega arith) ∙ ap (λ k. parse_hex k s) (omega arith)

parse_hex-hex_from :
    (fuel n : ℕ) (printed : String)
    → n < 16 ^ suc fuel
    → parse_hex 0 (hex_from (suc fuel) n printed) ≡ parse_hex n printed
unfolding hex_from
parse_hex-hex_from zero n printed h =
    let last : (n / 16 == 0) ≡ true = ground (arith, pow-suc 16 zero) in
    rw last (
      ap (λ k. parse_hex k (hex_digit (n % 16) ∷ printed)) (ground arith)
      ∙ parse_hex-step n printed)
parse_hex-hex_from (suc fuel) n printed h = elim (Bool-cases (n / 16 == 0)) [
  | inl last ↦ rw last (
      ap (λ k. parse_hex k (hex_digit (n % 16) ∷ printed)) (ground arith)
      ∙ parse_hex-step n printed)
  | inr more ↦ rw more (
      parse_hex-hex_from fuel (n / 16) (hex_digit (n % 16) ∷ printed)
        (omega (arith, pow-suc 16 (suc fuel)))
      ∙ parse_hex-step n printed)
]

-- Reading the digits back gives the number.
parse_hex-hex : (n : ℕ) → n < word → parse_hex 0 (hex n) ≡ n
unfolding hex parse_hex
parse_hex-hex n h = parse_hex-hex_from 15 n "" h

fnv_from-lt : (h : ℕ) (bytes : List ℕ) → h < word → fnv_from h bytes < word
unfolding fnv_from
fnv_from-lt h List.[] p = p
fnv_from-lt h (List.◌∷◌ b bytes) p =
    fnv_from-lt ((bit_xor h b * 1099511628211) % word) bytes (omega arith)

pub fnv64a-lt : (bytes : List ℕ) → fnv64a bytes < word
unfolding fnv64a
fnv64a-lt bytes = fnv_from-lt _ bytes (omega arith)

-- Two hashes print alike only if they are the same number.
pub hex_inj : (m n : ℕ) → m < word → n < word → hex m ≡ hex n → m ≡ n
hex_inj m n p q e = sym (parse_hex-hex m p) ∙ ap (parse_hex 0) e ∙ parse_hex-hex n q
