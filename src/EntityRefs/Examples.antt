-- ===== src/EntityRefs/Examples.antt =====
-- The theorems about references to entities at concrete inputs.
use solarwinds_otel_collecto.Base.{
  ◌≡◌, refl, true, ◌&&◌, ◌||◌, [], ◌∷◌, String, Dict, ok, ◌=s=◌, ◌==◌, length, All, to_lower, has,
  insert, lookup,
}
use solarwinds_otel_collecto.Connector.Samples.{SampleValue, text}
use solarwinds_otel_collecto.EntityRefs.{
  EntityRefConfig, Config, validate, validate_entries, entry_error, find_duplicated_item,
  find_overlapping_item, EntityRef, action_insert, action_remove_all,
}
use solarwinds_otel_collecto.EntityRefs.Checked
use solarwinds_otel_collecto.EntityRefs.Checked.{IsChecked, DistinctTypes}
use solarwinds_otel_collecto.EntityRefs.Inserted

abbrev entry_of : String → String → EntityRefConfig
entry_of type normalized_type = record {
  type = type;
  id_keys = "pod" ∷ [];
  description_keys = "zone" ∷ [];
  normalized_type = normalized_type;
}

abbrev config : Config
config = record { action = "insert"; entity_refs = entry_of "Pod" "" ∷ entry_of "Node" "" ∷ [] }

abbrev checked : Config
checked = record {
  action = "insert";
  entity_refs = entry_of "Pod" "pod" ∷ entry_of "Node" "node" ∷ [];
}

config_valid : validate to_lower config ≡ ok checked
unfolding validate validate_entries entry_error find_duplicated_item find_overlapping_item to_lower
    has insert lookup
config_valid = refl

validate-IsChecked_example :
    (checked.action ≡ config.action)
    × ((config.action =s= action_insert)
          || ((config.action =s= action_remove_all) && (length config.entity_refs == 0))
        ≡ true)
    × All (IsChecked to_lower) checked.entity_refs
    × DistinctTypes to_lower checked.entity_refs
validate-IsChecked_example = Checked.validate-IsChecked to_lower config checked config_valid

abbrev attributes : Dict SampleValue
attributes = ("pod", text "a") ∷ []

abbrev node : EntityRef
node = record { type = "NODE"; id_keys = "host" ∷ []; description_keys = [] }
