-- ===== src/WorkloadType/Mappings.antt =====
-- `Validate` of config.go: which mappings are accepted, and what becomes of them.
use solarwinds_otel_collecto.Base.{
  Bool, not, ◌&&◌, ◌||◌, List, [], ◌∷◌, ◌++◌, Option, none, some, String, Dict, lookup, has, insert,
  contains, Result, ok, err, if◌then◌else◌, ◌=s=◌, ◌==◌, length, cut_at,
}
use solarwinds_otel_collecto.WorkloadType.{pods_workload_type, replica_sets_workload_type}
use solarwinds_otel_collecto.WorkloadType.Resources.{
  is_set, ResourceKind, MappingError, mappings_empty, mapping_nil, type_attr_empty,
  no_name_or_address, name_and_address, inconsistent_context, expected_types_empty,
  index_out_of_range, invalid_expected_type, Discovery, valid_objects,
}

abbrev pub resource_context : String
resource_context = "resource"

abbrev pub scope_context : String
scope_context = "scope"

abbrev pub metric_context : String
metric_context = "metric"

abbrev pub data_point_context : String
data_point_context = "datapoint"

pub record MappingConfig : Type 0 where
  pub name_attr : String
  pub namespace_attr : String
  pub address_attr : String
  pub workload_name_attr : String
  pub workload_namespace_attr : String
  pub workload_type_attr : String
  pub expected_types : List String
  pub prefer_owner_for_pods : Bool
  pub context : String

abbrev pub is_context : String → Bool
is_context c =
    c =s= data_point_context
    || (c =s= metric_context || (c =s= scope_context || c =s= resource_context))

-- The closure `extractContext`: the attribute without its context, and the context.
unfoldable pub extract_context : String → String × String
extract_context attr = elim (cut_at b'.' attr) [
  | none ↦ (attr, "")
  | some (before, after) ↦ if is_context before then (after, before) else (attr, "")
]

-- The last loop of `validate`: the first resource of each expected type.
unfoldable pub map_types :
    Dict (List ResourceKind)
    → Dict ResourceKind
    → List String
    → Result MappingError (Dict ResourceKind)
map_types valid mapped [] = ok mapped
map_types valid mapped (type ∷ types) =
    let rest = map_types valid mapped types in
    if has type mapped then rest else elim (lookup type valid) [
      | none ↦ err (invalid_expected_type type)
      | some [] ↦ err index_out_of_range
      | some (first ∷ _) ↦ map_types valid (insert type first mapped) types
    ]

-- With owners preferred for pods, replica sets are expected too.
abbrev pub all_expected_types : Dict (List ResourceKind) → MappingConfig → List String
all_expected_types valid m =
    if has replica_sets_workload_type valid
      && (m.prefer_owner_for_pods && contains pods_workload_type m.expected_types)
    then m.expected_types ++ replica_sets_workload_type ∷ []
    else m.expected_types

-- The attributes of a mapping, each without its context, and the contexts that they had.
pub record Extracted : Type 0 where
  pub mapping : MappingConfig
  pub name_context : String
  pub type_context : String
  pub namespace_context : String
  pub address_context : String
  pub workload_name_context : String
  pub workload_namespace_context : String

unfoldable pub extract_all : MappingConfig → Extracted
extract_all m =
    let (name, name_context) = extract_context m.name_attr in
    let (type, type_context) = extract_context m.workload_type_attr in
    let (namespace, namespace_context) = extract_context m.namespace_attr in
    let (address, address_context) = extract_context m.address_attr in
    let (workload_name, workload_name_context) = extract_context m.workload_name_attr in
    let (workload_namespace, workload_namespace_context) =
      extract_context m.workload_namespace_attr in
    record {
      mapping = record m {
        name_attr = name;
        workload_type_attr = type;
        namespace_attr = namespace;
        address_attr = address;
        workload_name_attr = workload_name;
        workload_namespace_attr = workload_namespace;
      };
      name_context = name_context;
      type_context = type_context;
      namespace_context = namespace_context;
      address_context = address_context;
      workload_name_context = workload_name_context;
      workload_namespace_context = workload_namespace_context;
    }

-- The context of a mapping, from the attribute that it looks up by.
abbrev pub own_context : Extracted → String
own_context x = if is_set x.mapping.name_attr then x.name_context else x.address_context

abbrev pub is_consistent : Extracted → Bool
is_consistent x =
    let same : String → Bool = λ c. c =s= own_context x in
    same x.type_context
    && ((not (is_set x.mapping.namespace_attr) || same x.namespace_context)
        && ((not (is_set x.mapping.workload_name_attr) || same x.workload_name_context)
            && (not (is_set x.mapping.workload_namespace_attr)
                || same x.workload_namespace_context)))

-- `validate` of a mapping: the mapping with its context, and the mapped types.
unfoldable pub validate_mapping :
    Dict (List ResourceKind)
    → Dict ResourceKind
    → MappingConfig
    → Result MappingError (MappingConfig × Dict ResourceKind)
validate_mapping valid mapped m =
    let x = extract_all m in
    let n = x.mapping in
    let context = if own_context x =s= "" then data_point_context else own_context x in
    if not (is_set m.workload_type_attr)
    then err type_attr_empty
    else if not (is_set n.name_attr) && not (is_set n.address_attr)
    then err no_name_or_address
    else if is_set n.name_attr && is_set n.address_attr
    then err name_and_address
    else if not (is_consistent x)
    then err inconsistent_context
    else if length n.expected_types == 0
    then err expected_types_empty
    else elim (map_types valid mapped (all_expected_types valid n)) [
      | err e ↦ err e
      | ok mapped' ↦ ok (record n { context = context }, mapped')
    ]

-- The loop of `Validate`; a mapping that is none is nil.
unfoldable pub validate_mappings :
    Dict (List ResourceKind)
    → Dict ResourceKind
    → List (Option MappingConfig)
    → Result MappingError (List MappingConfig × Dict ResourceKind)
validate_mappings valid mapped [] = ok ([], mapped)
validate_mappings valid mapped (none ∷ ms) = err mapping_nil
validate_mappings valid mapped (some m ∷ ms) = elim (validate_mapping valid mapped m) [
  | err e ↦ err e
  | ok (n, mapped') ↦ elim (validate_mappings valid mapped' ms) [
    | err e ↦ err e
    | ok (ns, mapped'') ↦ ok (n ∷ ns, mapped'')
  ]
]

-- `Validate`; `mapped` is what is mapped already.
unfoldable pub validate :
    Discovery
    → Dict ResourceKind
    → List (Option MappingConfig)
    → Result MappingError (List MappingConfig × Dict ResourceKind)
validate discovered mapped mappings =
    if length mappings == 0 then err mappings_empty else elim (valid_objects discovered) [
      | err e ↦ err e
      | ok valid ↦ validate_mappings valid mapped mappings
    ]
