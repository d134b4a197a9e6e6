-- ===== src/Base/Letters.antt =====
-- `strings.ToLower`, on ASCII.
use Prim.Native.Nat.{ℕ, zero, suc, ◌-◌}
use Prim.Native.Char.{Char, code}
use Prim.Native.String.{String, [], ◌∷◌}
use mathlib.Core.Bool.{◌&&◌}
use mathlib.Core.List.{List}
use solarwinds_otel_collecto.Base.Tests.{leb, if◌then◌else◌}

lower_letters : List Char
lower_letters = letters "abcdefghijklmnopqrstuvwxyz"
  where
    letters : String → List Char
    letters [] = List.[]
    letters (c ∷ s) = List.◌∷◌ c (letters s)

letter_at : ℕ → Char → List Char → Char
letter_at n c List.[] = c
letter_at zero c (List.◌∷◌ d ds) = d
letter_at (suc n) c (List.◌∷◌ d ds) = letter_at n c ds

unfoldable pub to_lower : String → String
unfolding lower_letters letter_at
to_lower [] = ""
to_lower (c ∷ s) =
    (if leb 65 (code c) && leb (code c) 90 then letter_at (code c - 65) c lower_letters else c)
    ∷ to_lower s
