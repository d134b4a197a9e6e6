-- ===== src/Connector/Samples.antt =====
-- Concrete instances of what the connector takes from other packages: maps of pdata as lists of
-- entries, caches that forget nothing, and an OTTL context over numbers.
use solarwinds_otel_collecto.Base.{
  ℕ, ◌≡◌, refl, Bool, true, false, List, [], ◌∷◌, some, String, Dict, lookup, insert, delete,
  lookup-insert, lookup-delete, Distinct, arith, eq_iff, ltb, length,
}
use solarwinds_otel_collecto.Connector.Pdata.{
  Pdata, Laws, ValueType, value_empty, value_str, value_int, value_double, value_bool, value_map,
  value_bytes,
}
use solarwinds_otel_collecto.Connector.Keys.{Marshal}
use solarwinds_otel_collecto.Connector.Storage.{Cache}
use solarwinds_otel_collecto.Connector.Config.Conditions.{Language}

mutual
  pub data SampleValue : Type 0 where
    text : String → SampleValue
    number : ℕ → SampleValue
    fraction : ℕ → SampleValue
    truth : Bool → SampleValue
    octets : List ℕ → SampleValue
    nested : SampleMap → SampleValue
    nothing : SampleValue

  pub data SampleMap : Type 0 where
    end : SampleMap
    entry : String → SampleValue → SampleMap → SampleMap

abbrev pub to_sample_map : Dict SampleValue → SampleMap
to_sample_map [] = end
to_sample_map ((k, v) ∷ m) = entry k v (to_sample_map m)

abbrev type_of : SampleValue → ValueType
type_of (text _) = value_str
type_of (number _) = value_int
type_of (fraction _) = value_double
type_of (truth _) = value_bool
type_of (octets _) = value_bytes
type_of (nested _) = value_map
type_of nothing = value_empty

abbrev str : SampleValue → String
str (text s) = s
str _ = ""

abbrev int : SampleValue → ℕ
int (number n) = n
int _ = 0

abbrev double : SampleValue → ℕ
double (fraction n) = n
double _ = 0

abbrev bool : SampleValue → Bool
bool (truth b) = b
bool _ = false

abbrev bytes : SampleValue → List ℕ
bytes (octets bs) = bs
bytes _ = []

-- The entries of a list, the first for each key.
abbrev entries : Dict SampleValue → Dict SampleValue
entries [] = []
entries ((k, v) ∷ m) = (k, v) ∷ delete k (entries m)

abbrev pub sample : Pdata
sample = record {
  Int = ℕ;
  Double = ℕ;
  Value = SampleValue;
  Map = Dict SampleValue;
  type_of = type_of;
  str = str;
  int = int;
  double = double;
  bool = bool;
  bytes = bytes;
  new_str = text;
  new_int = number;
  new_double = fraction;
  new_bool = truth;
  new_bytes = octets;
  new_map_value = λ m. nested (to_sample_map m);
  new_map = [];
  get = λ m k. lookup k m;
  len = length;
  all = entries;
  put_str = λ m k v. insert k (text v) m;
  put_int = λ m k v. insert k (number v) m;
  put_double = λ m k v. insert k (fraction v) m;
  put_bool = λ m k v. insert k (truth v) m;
  put_bytes = λ m k v. insert k (octets v) m;
  put_map = λ m k v. insert k (nested (to_sample_map v)) m;
}

new_str-str : (v : SampleValue) → type_of v ≡ value_str → text (str v) ≡ v
new_str-str v h = ground arith

new_int-int : (v : SampleValue) → type_of v ≡ value_int → number (int v) ≡ v
new_int-int v h = ground arith

new_double-double : (v : SampleValue) → type_of v ≡ value_double → fraction (double v) ≡ v
new_double-double v h = ground arith

new_bool-bool : (v : SampleValue) → type_of v ≡ value_bool → truth (bool v) ≡ v
new_bool-bool v h = ground arith

new_bytes-bytes : (v : SampleValue) → type_of v ≡ value_bytes → octets (bytes v) ≡ v
new_bytes-bytes v h = ground arith

lookup-entries : (m : Dict SampleValue) (k : String) → lookup k (entries m) ≡ lookup k m
unfolding lookup
lookup-entries [] k = refl
lookup-entries ((j, v) ∷ m) k =
    ground (arith, eq_iff j k, lookup-delete j k (entries m), lookup-entries m k)

delete-Distinct : (k : String) (m : Dict SampleValue) → Distinct m → Distinct (delete k m)
unfolding delete
delete-Distinct k [] d = tt
delete-Distinct k ((j, v) ∷ m) d = ground (arith, lookup-delete k j m, delete-Distinct k m d.1)

entries-Distinct : (m : Dict SampleValue) → Distinct (entries m)
entries-Distinct [] = tt
entries-Distinct ((k, v) ∷ m) = (
  ground (arith, lookup-delete k k (entries m), eq_iff k k),
  delete-Distinct k (entries m) (entries-Distinct m),
)

pub sample_laws : Laws sample
unfolding lookup
sample_laws = record {
  get-new_map = λ k. refl;
  get-put_str = λ m k v j. lookup-insert k j (text v) m;
  get-put_int = λ m k v j. lookup-insert k j (number v) m;
  get-put_double = λ m k v j. lookup-insert k j (fraction v) m;
  get-put_bool = λ m k v j. lookup-insert k j (truth v) m;
  get-put_bytes = λ m k v j. lookup-insert k j (octets v) m;
  get-put_map = λ m k v j. lookup-insert k j (nested (to_sample_map v)) m;
  new_str-str = new_str-str;
  new_int-int = new_int-int;
  new_double-double = new_double-double;
  new_bool-bool = new_bool-bool;
  new_bytes-bytes = new_bytes-bytes;
  lookup-all = lookup-entries;
  all-Distinct = entries-Distinct;
}

-- The number of IDs stands for their JSON.
abbrev pub sample_marshal : Marshal sample
sample_marshal type ids = some (length ids ∷ [])

-- A cache that takes every write.
abbrev pub sample_cache : (V : Type 0) → Cache V
sample_cache V = record {
  State = Dict V;
  new_cache = λ _. some [];
  get = λ s k. lookup k s;
  set_with_ttl = λ s k v cost ttl. (insert k v s, true);
  del = λ s k. delete k s;
}

-- A context over numbers, in which every condition holds of a number that is not 0.
abbrev pub sample_language : String → Language
sample_language name = record {
  context_name = name;
  TransformContext = ℕ;
  ConditionSequence = List String;
  parse_conditions = λ conditions. some conditions;
  eval = λ conditions tc. some (ltb 0 tc);
}
