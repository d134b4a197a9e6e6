-- ===== src/Connector/Attributes/Reading.antt =====
-- What `putAttribute`, `mergeMaps`, `getRequiredAttributes` and `getOptionalAttributes` read.
use mathlib.Core.Option
use solarwinds_otel_collecto.Base.{
  ◌≡◌, refl, List, [], ◌∷◌, Option, none, some, String, Dict, lookup, insert, lookup-insert,
  Distinct, contains, ok, err, if◌then◌else◌, ◌=s=◌, arith, eq_iff, or_else, inl, inr, Option-cases,
}
use solarwinds_otel_collecto.Connector.Pdata.{
  Pdata, Laws, ValueType, value_empty, value_str, value_int, value_double, value_bool, value_map,
  value_slice, value_bytes,
}
use solarwinds_otel_collecto.Connector.Attributes.{
  not_configured, not_found, put_by_type, put_attribute, copy_map, merge_maps, require,
  get_required_attributes, collect, get_optional_attributes,
}

-- The first key that a map lacks.
unfoldable pub missing {ℓ} : {V : Type ℓ} → List String → Dict V → Option String
missing [] m = none
missing (k ∷ ks) m = elim (lookup k m) [ none ↦ some k | some v ↦ missing ks m ]

module _ (pd : Pdata) where
  open pd use {Value, Map, type_of, str, new_str, new_map, get}

  stored_by_type : Value → ValueType → Value
  stored_by_type v value_empty = new_str (str v)
  stored_by_type v value_map = new_str (str v)
  stored_by_type v value_slice = new_str (str v)
  stored_by_type v _ = v

  -- What `putAttribute` stores of a value: the value, if it is a scalar, and else its text.
  unfoldable pub stored : Value → Value
  unfolding stored_by_type
  stored v = stored_by_type v (type_of v)

  -- The attributes of the keys that the map has.
  abbrev pub picked : List String → Dict Value → String → Option Value
  picked keys m j = if contains j keys then Option.map stored (lookup j m) else none

module _ (pd : Pdata) (laws : Laws pd) where
  open pd use {Value, Map, type_of, str, int, double, bool, bytes, new_str, new_map, get}

  put_by_type-get :
      (m : Map) (k : String) (v : Value) (t : ValueType) (j : String)
      → type_of v ≡ t
      → get (put_by_type pd m k v t) j ≡ (if k =s= j then some (stored_by_type pd v t) else get m j)
  unfolding put_by_type stored_by_type
  put_by_type-get m k v value_int j e =
      ground (arith, laws.get-put_int m k (int v) j, laws.new_int-int v e)
  put_by_type-get m k v value_double j e =
      ground (arith, laws.get-put_double m k (double v) j, laws.new_double-double v e)
  put_by_type-get m k v value_bool j e =
      ground (arith, laws.get-put_bool m k (bool v) j, laws.new_bool-bool v e)
  put_by_type-get m k v value_bytes j e =
      ground (arith, laws.get-put_bytes m k (bytes v) j, laws.new_bytes-bytes v e)
  put_by_type-get m k v value_str j e =
      ground (arith, laws.get-put_str m k (str v) j, laws.new_str-str v e)
  put_by_type-get m k v _ j e = ground (arith, laws.get-put_str m k (str v) j)

  -- `putAttribute` writes under its key and nothing else. Texts, numbers, truth values and bytes
  -- are copied; an empty value, a map or a slice is written as the text that `Str` returns.
  pub get-put_attribute :
      (m : Map) (k : String) (v : Value) (j : String)
      → get (put_attribute pd m k v) j ≡ (if k =s= j then some (stored pd v) else get m j)
  unfolding put_attribute stored
  get-put_attribute m k v j = put_by_type-get m k v (type_of v) j refl

  collect-get :
      (m : Map) (merged : Dict Value) (keys : List String) (j : String)
      → get (collect pd m merged keys) j ≡ or_else (picked pd keys merged j) (get m j)
  unfolding collect contains
  collect-get m merged [] j = refl
  collect-get m merged (k ∷ ks) j = elim (Option-cases (lookup k merged)) [
    | inl e ↦ ground (arith, e, eq_iff k j, collect-get m merged ks j)
    | inr (v, e) ↦ ground (
      arith,
      e,
      eq_iff k j,
      collect-get (put_attribute pd m k v) merged ks j,
      get-put_attribute m k v j,
    )
  ]

  require-collect :
      (m : Map) (merged : Dict Value) (keys : List String)
      → require pd m merged keys ≡ elim (missing keys merged) [
        | none ↦ ok (collect pd m merged keys)
        | some k ↦ err (not_found k)
      ]
  unfolding require collect missing
  require-collect m merged [] = refl
  require-collect m merged (k ∷ ks) = elim (Option-cases (lookup k merged)) [
    | inl e ↦ ground (arith, e)
    | inr (v, e) ↦ ground (arith, e, require-collect (put_attribute pd m k v) merged ks)
  ]

  -- The optional attributes are those of the keys that the merged maps have, and no others.
  pub get-get_optional_attributes :
      (keys : List String) (actual : List (Dict Value)) (j : String)
      → get (get_optional_attributes pd keys actual) j ≡ picked pd keys (merge_maps pd actual) j
  unfolding get_optional_attributes
  get-get_optional_attributes keys actual j =
      ground (arith, collect-get new_map (merge_maps pd actual) keys j, laws.get-new_map j)

  -- The required attributes: an error for no keys, an error that names the first key that the
  -- merged maps lack, and else the same map as for optional attributes.
  get_required_attributes-get_optional_attributes :
      (keys : List String) (actual : List (Dict Value))
      → get_required_attributes pd keys actual ≡ elim keys [
        | [] ↦ err not_configured
        | k ∷ ks ↦ elim (missing (k ∷ ks) (merge_maps pd actual)) [
          | none ↦ ok (get_optional_attributes pd (k ∷ ks) actual)
          | some lacking ↦ err (not_found lacking)
        ]
      ]
  unfolding get_required_attributes get_optional_attributes
  get_required_attributes-get_optional_attributes [] actual = refl
  get_required_attributes-get_optional_attributes (k ∷ ks) actual =
      require-collect new_map (merge_maps pd actual) (k ∷ ks)

  -- What was required and found is what the optional attributes of the same keys would be.
  pub required_ok :
      (keys : List String) (actual : List (Dict Value)) (m : Map)
      → get_required_attributes pd keys actual ≡ ok m
      → m ≡ get_optional_attributes pd keys actual
  required_ok [] actual m h =
      ground (arith, get_required_attributes-get_optional_attributes [] actual)
  required_ok (k ∷ ks) actual m h =
      ground (arith, get_required_attributes-get_optional_attributes (k ∷ ks) actual)

module _ (pd : Pdata) where
  open pd use {Value}

  lookup-copy_map :
      (j : String) (dst src : Dict Value)
      → Distinct src
      → lookup j (copy_map pd dst src) ≡ or_else (lookup j src) (lookup j dst)
  unfolding copy_map lookup
  lookup-copy_map j dst [] d = refl
  lookup-copy_map j dst ((k, v) ∷ src) d =
      ground
        (arith, eq_iff k j, lookup-copy_map j (insert k v dst) src d.1, lookup-insert k j v dst)

  -- Of two maps that are merged, the second wins.
  pub lookup-merge_maps :
      (j : String) (common prefixed : Dict Value)
      → Distinct common
      → Distinct prefixed
      → lookup j (merge_maps pd (common ∷ prefixed ∷ []))
        ≡ or_else (lookup j prefixed) (lookup j common)
  unfolding merge_maps lookup
  lookup-merge_maps j common prefixed c p =
      ground
        (arith, lookup-copy_map j (copy_map pd [] common) prefixed p, lookup-copy_map j [] common c)
