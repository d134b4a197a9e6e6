-- ===== src/Connector/Attributes.antt =====
-- connector/solarwindsentityconnector/internal: attributes.go, attribute_helper.go and the reading
-- of attributes in attribute_mapper.go.
pub mod Routing
pub mod Reading
use solarwinds_otel_collecto.Base.{
  ◌≡◌, Bool, true, false, not, ◌&&◌, List, [], ◌∷◌, Option, none, some, String, Dict, lookup,
  insert, Result, ok, err, has_prefix, trim_prefix, if◌then◌else◌, ◌=s=◌,
}
use solarwinds_otel_collecto.Connector.Pdata.{
  Pdata, ValueType, value_empty, value_str, value_int, value_double, value_bool, value_map,
  value_slice, value_bytes,
}

-- The maps of resource attributes, by the prefix of their keys.
pub record Attributes (pd : Pdata) : Type 0 where
  pub source : Dict pd.Value
  pub destination : Dict pd.Value
  pub common : Dict pd.Value

pub data ReadError : Type 0 where
  not_configured : ReadError
  not_found : String → ReadError

module _ (pd : Pdata) where
  open pd use {
    Value, Map, type_of, str, int, double, bool, bytes, new_map, all, put_str, put_int, put_double,
    put_bool, put_bytes,
  }

  -- The `switch` in the loop of `IdentifyAttributes`.
  sort_attribute : String → String → Attributes pd → String → Value → Attributes pd
  sort_attribute src dest attrs k v =
      if not (src =s= "") && has_prefix src k
      then record attrs { source = insert (trim_prefix src k) v attrs.source }
      else if not (dest =s= "") && has_prefix dest k
      then record attrs { destination = insert (trim_prefix dest k) v attrs.destination }
      else record attrs { common = insert k v attrs.common }

  identify_from : String → String → Attributes pd → Dict Value → Attributes pd
  identify_from src dest attrs [] = attrs
  identify_from src dest attrs ((k, v) ∷ rest) =
      identify_from src dest (sort_attribute src dest attrs k v) rest

  unfoldable pub identify_attributes : Map → String → String → Attributes pd
  unfolding identify_from sort_attribute
  identify_attributes resource_attrs src dest =
      identify_from src dest (record { source = []; destination = []; common = [] })
        (all resource_attrs)

  -- The `switch` of `putAttribute`, on the type of the value.
  put_by_type : Map → String → Value → ValueType → Map
  put_by_type dest key v value_int = put_int dest key (int v)
  put_by_type dest key v value_double = put_double dest key (double v)
  put_by_type dest key v value_bool = put_bool dest key (bool v)
  put_by_type dest key v value_bytes = put_bytes dest key (bytes v)
  put_by_type dest key v _ = put_str dest key (str v)

  unfoldable pub put_attribute : Map → String → Value → Map
  unfolding put_by_type
  put_attribute dest key v = put_by_type dest key v (type_of v)

  -- `maps.Copy(dst, src)`: every entry of the second map is written into the first.
  unfoldable pub copy_map : Dict Value → Dict Value → Dict Value
  copy_map dst [] = dst
  copy_map dst ((k, v) ∷ src) = copy_map (insert k v dst) src

  merge_from : Dict Value → List (Dict Value) → Dict Value
  merge_from merged [] = merged
  merge_from merged (m ∷ rest) = merge_from (copy_map merged m) rest

  unfoldable pub merge_maps : List (Dict Value) → Dict Value
  unfolding merge_from
  merge_maps maps = merge_from [] maps

  -- The loop of `getRequiredAttributes`.
  require : Map → Dict Value → List String → Result ReadError Map
  require required merged [] = ok required
  require required merged (key ∷ keys) = elim (lookup key merged) [
    | none ↦ err (not_found key)
    | some v ↦ require (put_attribute required key v) merged keys
  ]

  unfoldable pub get_required_attributes : List String → List (Dict Value) → Result ReadError Map
  unfolding require
  get_required_attributes [] actual = err not_configured
  get_required_attributes (k ∷ keys) actual = require new_map (merge_maps actual) (k ∷ keys)

  -- The loop of `getOptionalAttributes`.
  collect : Map → Dict Value → List String → Map
  collect optional merged [] = optional
  collect optional merged (key ∷ keys) =
      collect (elim (lookup key merged) [ none ↦ optional | some v ↦ put_attribute optional key v ])
        merged keys

  unfoldable pub get_optional_attributes : List String → List (Dict Value) → Map
  unfolding collect
  get_optional_attributes keys actual = collect new_map (merge_maps actual) keys
