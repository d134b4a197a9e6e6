-- ===== src/EntityRefs.antt =====
-- processor/swootelentityrefprocessor: config.go and processor.go. The processor adds references to
-- entities to resources, or removes them. `strings.ToLower`, with its tables for Unicode, is the
-- parameter `lower`; logging is left out.
pub mod Checked
pub mod Present
pub mod Inserted
pub mod Examples
use solarwinds_otel_collecto.Base.{
  ℕ, suc, Bool, true, false, not, ◌&&◌, ◌||◌, List, [], ◌∷◌, ◌++◌, map, keep, Option, none, some,
  String, Dict, has, insert, lookup, Result, ok, err, if◌then◌else◌, ◌=s=◌, ◌==◌, length,
}
use solarwinds_otel_collecto.Connector.Pdata.{Pdata, is_text}

abbrev pub action_insert : String
action_insert = "insert"

abbrev pub action_remove_all : String
action_remove_all = "remove_all"

pub record EntityRefConfig : Type 0 where
  pub type : String
  pub id_keys : List String
  pub description_keys : List String
  pub normalized_type : String

pub record Config : Type 0 where
  pub action : String
  pub entity_refs : List EntityRefConfig

pub data ConfigError : Type 0 where
  invalid_action : String → ConfigError
  entity_refs_not_empty : ConfigError
  type_empty id_keys_empty : ℕ → ConfigError
  duplicate_id_key duplicate_description_key overlapping_key : ℕ → String → ConfigError
  duplicate_type : ℕ → String → ℕ → ConfigError

-- `findDuplicatedItem`, with the items that were seen.
duplicated_from : Dict (Unit {0}) → List String → Option String
duplicated_from seen [] = none
duplicated_from seen (item ∷ items) =
    let rest = duplicated_from (insert item tt seen) items in
    if has item seen then some item else rest

unfoldable pub find_duplicated_item : List String → Option String
unfolding duplicated_from
find_duplicated_item collection = duplicated_from [] collection

set_of : List String → Dict (Unit {0}) → Dict (Unit {0})
set_of [] set = set
set_of (item ∷ items) set = set_of items (insert item tt set)

first_in : Dict (Unit {0}) → List String → Option String
first_in set [] = none
first_in set (item ∷ items) =
    let rest = first_in set items in if has item set then some item else rest

unfoldable pub find_overlapping_item : List String → List String → Option String
unfolding set_of first_in
find_overlapping_item a b = first_in (set_of a []) b

module _ (lower : String → String) where
  -- The checks of one entry of `Validate`, in their order; none is that all pass.
  unfoldable pub entry_error : ℕ → Dict ℕ → EntityRefConfig → Option ConfigError
  entry_error i seen er =
      if er.type =s= ""
      then some (type_empty i)
      else if length er.id_keys == 0
      then some (id_keys_empty i)
      else elim (find_duplicated_item er.id_keys) [
        | some item ↦ some (duplicate_id_key i item)
        | none ↦ elim (find_duplicated_item er.description_keys) [
          | some item ↦ some (duplicate_description_key i item)
          | none ↦ elim (find_overlapping_item er.id_keys er.description_keys) [
            | some item ↦ some (overlapping_key i item)
            | none ↦ elim (lookup (lower er.type) seen) [
              | some prev ↦ some (duplicate_type i er.type prev)
              | none ↦ none
            ]
          ]
        ]
      ]

  -- The loop of `Validate`, which fills in the normalized types.
  unfoldable pub validate_entries :
      ℕ → Dict ℕ → List EntityRefConfig → Result ConfigError (List EntityRefConfig)
  validate_entries i seen [] = ok []
  validate_entries i seen (er ∷ ers) =
      let rest = validate_entries (suc i) (insert (lower er.type) i seen) ers in
      elim (entry_error i seen er) [
        | some e ↦ err e
        | none ↦ elim rest [
          | err e ↦ err e
          | ok checked ↦ ok (record er { normalized_type = lower er.type } ∷ checked)
        ]
      ]

  unfoldable pub validate : Config → Result ConfigError Config
  validate c =
      if not (c.action =s= action_insert || c.action =s= action_remove_all)
      then err (invalid_action c.action)
      else if c.action =s= action_remove_all && not (length c.entity_refs == 0)
      then err entity_refs_not_empty
      else elim (validate_entries 0 [] c.entity_refs) [
        | err e ↦ err e
        | ok checked ↦ ok (record c { entity_refs = checked })
      ]

pub record EntityRef : Type 0 where
  pub type : String
  pub id_keys : List String
  pub description_keys : List String

module _ (pd : Pdata) (lower : String → String) where
  unfoldable pub contains_key : pd.Map → String → Bool
  contains_key attrs key = elim (pd.get attrs key) [
    | none ↦ false
    | some v ↦ is_text (pd.type_of v) && not (pd.str v =s= "")
  ]

  unfoldable pub all_keys_present : pd.Map → List String → Bool
  all_keys_present attrs [] = true
  all_keys_present attrs (k ∷ ks) =
      if not (contains_key attrs k) then false else all_keys_present attrs ks

  -- The types of the references that are there, in lower case.
  unfoldable pub types_from : Dict (Unit {0}) → List EntityRef → Dict (Unit {0})
  types_from types [] = types
  types_from types (ref ∷ refs) = types_from (insert (lower ref.type) tt types) refs

  -- The reference that an entry of the configuration stands for.
  abbrev pub made_ref : pd.Map → EntityRefConfig → EntityRef
  made_ref attrs er = record {
    type = er.type;
    id_keys = er.id_keys;
    description_keys = keep (contains_key attrs) er.description_keys;
  }

  -- The loop of the action "insert", over the slice of references and the map of existing types.
  unfoldable pub insert_refs :
      pd.Map → Dict (Unit {0}) → List EntityRef → List EntityRefConfig → List EntityRef
  insert_refs attrs existing refs [] = refs
  insert_refs attrs existing refs (er ∷ ers) =
      if not (all_keys_present attrs er.id_keys)
      then insert_refs attrs existing refs ers
      else if has er.normalized_type existing
      then insert_refs attrs existing refs ers
      else insert_refs attrs (insert er.normalized_type tt existing)
          (refs ++ made_ref attrs er ∷ []) ers

  unfoldable pub process_resource : Config → pd.Map → List EntityRef → List EntityRef
  process_resource cfg attrs refs =
      if cfg.action =s= action_insert
      then insert_refs attrs (types_from [] refs) refs cfg.entity_refs
      else if cfg.action =s= action_remove_all
      then []
      else refs

  -- `processLogs`, `processMetrics` and `processTraces`: a batch that is read-only is refused.
  unfoldable pub process_batch :
      Config → Bool → List (pd.Map × List EntityRef) → Option (List (pd.Map × List EntityRef))
  process_batch cfg true resources = none
  process_batch cfg false resources =
      some (map (λ (r : pd.Map × List EntityRef). (r.0, process_resource cfg r.0 r.1)) resources)
