-- ===== src/WorkloadType/Resources.antt =====
-- `getValidObjects` of config.go: the resources of a cluster that a mapping may expect. The discovery
-- client is of client-go: its answer is an argument.
use solarwinds_otel_collecto.Base.{
  Bool, false, not, ◌||◌, List, [], ◌∷◌, ◌++◌, Option, none, some, String, Dict, lookup, insert,
  Result, ok, err, if◌then◌else◌, ◌=s=◌, split_on,
}

abbrev pub is_set : String → Bool
is_set attr = not (attr =s= "")

pub record ResourceKind : Type 0 where
  pub group : String
  pub version : String
  pub resource : String
  pub kind : String

pub data MappingError : Type 0 where
  mappings_empty mapping_nil type_attr_empty no_name_or_address name_and_address : MappingError
  inconsistent_context expected_types_empty discovery_failed index_out_of_range : MappingError
  invalid_expected_type : String → MappingError

-- A group of resources as the discovery client gives it: its version, and names with kinds.
pub record ResourceGroup : Type 0 where
  pub group_version : String
  pub resources : List (String × String)

abbrev pub resources_at : String → Dict (List ResourceKind) → List ResourceKind
resources_at name valid = elim (lookup name valid) [ none ↦ [] | some gvrs ↦ gvrs ]

unfoldable pub add_resources :
    String → String → List (String × String) → Dict (List ResourceKind) → Dict (List ResourceKind)
add_resources group version [] valid = valid
add_resources group version ((name, kind) ∷ resources) valid =
    let added : ResourceKind = record {
      group = group;
      version = version;
      resource = name;
      kind = kind;
    } in
    add_resources group version resources
      (if kind =s= "" then valid else insert name (resources_at name valid ++ added ∷ []) valid)

-- The parts of a group version. A version without a group, but "v1", has no second part, which
-- panics where there is a resource with a kind.
abbrev pub group_parts : String → List String
group_parts group_version =
    if group_version =s= "v1" then "" ∷ "v1" ∷ [] else split_on b'/' group_version

abbrev pub any_kind : List (String × String) → Bool
any_kind [] = false
any_kind ((name, kind) ∷ resources) = is_set kind || any_kind resources

unfoldable pub valid_objects_from :
    Dict (List ResourceKind) → List ResourceGroup → Result MappingError (Dict (List ResourceKind))
valid_objects_from valid [] = ok valid
valid_objects_from valid (g ∷ groups) = elim (group_parts g.group_version) [
  | group ∷ version ∷ _ ↦ valid_objects_from (add_resources group version g.resources valid) groups
  | _ ↦ if any_kind g.resources then err index_out_of_range else valid_objects_from valid groups
]

-- The answer of the discovery client: the resources, none for a nil slice, and the error if there is
-- one, true if it is a failure of some of the groups only.
pub record Discovery : Type 0 where
  pub groups : Option (List ResourceGroup)
  pub failure : Option Bool

-- `getValidObjects`.
unfoldable pub valid_objects : Discovery → Result MappingError (Dict (List ResourceKind))
valid_objects d = elim d.groups [
  | none ↦ ok []
  | some groups ↦ elim d.failure [
    | some false ↦ err discovery_failed
    | _ ↦ valid_objects_from [] groups
  ]
]
