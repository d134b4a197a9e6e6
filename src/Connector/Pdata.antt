-- ===== src/Connector/Pdata.antt =====
-- The interface of go.opentelemetry.io/collector/pdata that the connector uses (pcommon.Map and
-- pcommon.Value). The package is not part of the repository: its types and operations are the
-- fields of a record, and what its documentation says of them are the fields of `Laws`.
use solarwinds_otel_collecto.Base.{
  ℕ, ◌≡◌, Bool, true, false, List, Option, none, some, String, Dict, lookup, if◌then◌else◌, ◌=s=◌,
  Distinct,
}

-- `pcommon.ValueType`.
pub data ValueType : Type 0 where
  value_empty value_str value_int value_double value_bool value_map value_slice value_bytes :
      ValueType

abbrev pub is_text : ValueType → Bool
is_text value_str = true
is_text _ = false

pub record Pdata : Type 1 where
  pub Int : Type 0
  pub Double : Type 0
  pub Value : Type 0
  pub Map : Type 0
  -- `Value.Type`, `Value.Str`, `Value.Int`, `Value.Double`, `Value.Bool`, `Value.Bytes().AsRaw`.
  pub type_of : Value → ValueType
  pub str : Value → String
  pub int : Value → Int
  pub double : Value → Double
  pub bool : Value → Bool
  pub bytes : Value → List ℕ
  -- The value that holds a text, a number and so on: `pcommon.NewValueStr` and the others.
  pub new_str : String → Value
  pub new_int : Int → Value
  pub new_double : Double → Value
  pub new_bool : Bool → Value
  pub new_bytes : List ℕ → Value
  pub new_map_value : Map → Value
  -- `pcommon.NewMap`, `Map.Get`, `Map.Len`, and `Map.All` in its order.
  pub new_map : Map
  pub get : Map → String → Option Value
  pub len : Map → ℕ
  pub all : Map → Dict Value
  -- `Map.PutStr` and so on; `put_map` is `PutEmptyMap` with `CopyTo` into the new map.
  pub put_str : Map → String → String → Map
  pub put_int : Map → String → Int → Map
  pub put_double : Map → String → Double → Map
  pub put_bool : Map → String → Bool → Map
  pub put_bytes : Map → String → List ℕ → Map
  pub put_map : Map → String → Map → Map

-- The documented behaviour of a map: what is read after a write, and that `All` walks the entries,
-- each key once. A value is determined by its type and what the getter of that type returns.
pub record Laws (pd : Pdata) : Type 0 where
  pub get-new_map : (k : String) → pd.get pd.new_map k ≡ none
  pub get-put_str :
      (m : pd.Map) (k : String) (v : String) (j : String)
      → pd.get (pd.put_str m k v) j ≡ (if k =s= j then some (pd.new_str v) else pd.get m j)
  pub get-put_int :
      (m : pd.Map) (k : String) (v : pd.Int) (j : String)
      → pd.get (pd.put_int m k v) j ≡ (if k =s= j then some (pd.new_int v) else pd.get m j)
  pub get-put_double :
      (m : pd.Map) (k : String) (v : pd.Double) (j : String)
      → pd.get (pd.put_double m k v) j ≡ (if k =s= j then some (pd.new_double v) else pd.get m j)
  pub get-put_bool :
      (m : pd.Map) (k : String) (v : Bool) (j : String)
      → pd.get (pd.put_bool m k v) j ≡ (if k =s= j then some (pd.new_bool v) else pd.get m j)
  pub get-put_bytes :
      (m : pd.Map) (k : String) (v : List ℕ) (j : String)
      → pd.get (pd.put_bytes m k v) j ≡ (if k =s= j then some (pd.new_bytes v) else pd.get m j)
  pub get-put_map :
      (m : pd.Map) (k : String) (v : pd.Map) (j : String)
      → pd.get (pd.put_map m k v) j ≡ (if k =s= j then some (pd.new_map_value v) else pd.get m j)
  pub new_str-str : (v : pd.Value) → pd.type_of v ≡ value_str → pd.new_str (pd.str v) ≡ v
  pub new_int-int : (v : pd.Value) → pd.type_of v ≡ value_int → pd.new_int (pd.int v) ≡ v
  pub new_double-double :
      (v : pd.Value) → pd.type_of v ≡ value_double → pd.new_double (pd.double v) ≡ v
  pub new_bool-bool : (v : pd.Value) → pd.type_of v ≡ value_bool → pd.new_bool (pd.bool v) ≡ v
  pub new_bytes-bytes : (v : pd.Value) → pd.type_of v ≡ value_bytes → pd.new_bytes (pd.bytes v) ≡ v
  pub lookup-all : (m : pd.Map) (k : String) → lookup k (pd.all m) ≡ pd.get m k
  pub all-Distinct : (m : pd.Map) → Distinct (pd.all m)
