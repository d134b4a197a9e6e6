-- ===== src/Connector/Keys.antt =====
-- connector/solarwindsentityconnector/internal/key_builder.go: the keys of entities and
-- relationships. `encoding/json` over a map of pdata is a parameter; the hash and its print are
-- written out.
pub mod Hashes
pub mod Relationships
use Prim.Native.Char.{Char}
use Prim.Native.String
use Prim.Native.Nat.{bit_xor}
use solarwinds_otel_collecto.Base.{
  ℕ, zero, suc, ◌+◌, ◌*◌, ◌/◌, ◌%◌, ◌^◌, List, [], ◌∷◌, String, Result, ok, err, wrap, ◌>>=◌,
  if◌then◌else◌, ◌==◌, ◌=s=◌, ◌++ₛ◌, Option, none, some,
}
use solarwinds_otel_collecto.Connector.Pdata.{Pdata}
use solarwinds_otel_collecto.Connector.Events.{Entity}

pub data KeyError : Type 0 where
  failed_to_encode : KeyError
  relationship_type_empty source_hash_empty dest_hash_empty : KeyError

abbrev pub word : ℕ
word = 2 ^ 64

-- `hash/fnv`, 64 bit FNV-1a: the offset basis and the prime of the standard.
fnv_from : ℕ → List ℕ → ℕ
fnv_from h [] = h
fnv_from h (b ∷ bytes) = fnv_from ((bit_xor h b * 1099511628211) % word) bytes

unfoldable pub fnv64a : List ℕ → ℕ
unfolding fnv_from
fnv64a bytes = fnv_from 14695981039346656037 bytes

-- The digits of `%x`.
digits : List Char
digits =
    "0" ∷ "1" ∷ "2" ∷ "3" ∷ "4" ∷ "5" ∷ "6" ∷ "7" ∷ "8" ∷ "9" ∷ "a" ∷ "b" ∷ "c" ∷ "d" ∷ "e" ∷ "f"
    ∷ []

nth : ℕ → List Char → Char
nth n [] = "0"
nth zero (c ∷ cs) = c
nth (suc n) (c ∷ cs) = nth n cs

unfoldable pub hex_digit : ℕ → Char
unfolding digits nth
hex_digit n = nth n digits

-- The digits of a number before a text that is printed already, with fuel for each digit.
unfoldable pub hex_from : ℕ → ℕ → String → String
hex_from zero n printed = printed
hex_from (suc fuel) n printed =
    let longer = String.◌∷◌ (hex_digit (n % 16)) printed in
    let rest = hex_from fuel (n / 16) longer in if n / 16 == 0 then longer else rest

-- `Sprintf("%x", n)` of a 64 bit number, which has at most 16 digits.
unfoldable pub hex : ℕ → String
unfolding hex_from hex_digit
hex n = hex_from 16 n ""

unfoldable pub build_relationship_key : String → String → String → Result KeyError String
build_relationship_key relationship_type source_hash dest_hash =
    if relationship_type =s= ""
    then err relationship_type_empty
    else if source_hash =s= ""
    then err source_hash_empty
    else if dest_hash =s= ""
    then err dest_hash_empty
    else ok (relationship_type ++ₛ ":" ++ₛ source_hash ++ₛ ":" ++ₛ dest_hash)

-- What `json.Marshal` makes of the struct of a type and the raw IDs; none is its error.
abbrev pub Marshal : Pdata → Type 0
Marshal pd = String → pd.Map → Option (List ℕ)

module _ (pd : Pdata) (marshal : Marshal pd) where
  unfoldable pub hash_object : String → pd.Map → Result KeyError String
  hash_object type ids = elim (marshal type ids) [
    | none ↦ err failed_to_encode
    | some bytes ↦ ok (hex (fnv64a bytes))
  ]

  unfoldable pub build_entity_key : Entity pd → Result KeyError String
  unfolding hash_object
  build_entity_key e = hash_object e.type e.ids
