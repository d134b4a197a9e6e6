-- ===== src/Solarwinds/Extension.antt =====
-- processor/solarwindsprocessor/extension_provider.go and `start` of processor.go: the attributes of
-- the collector, which come from the extension. The package extensionfinder is a parameter.
use solarwinds_otel_collecto.Base.{
  Bool, Option, none, some, String, Dict, insert, Result, ok, err, if◌then◌else◌,
}
use solarwinds_otel_collecto.Solarwinds.Processor.{SolarwindsProcessor}

pub record CommonConfig : Type 0 where
  pub collector_name : String
  pub without_entity : Bool

-- An extension, with what `GetCommonConfig` returns, `none` being nil.
pub record Extension : Type 0 where
  pub common_config : Option CommonConfig

-- The extension of a provider, once it is found.
pub record ExtensionProvider : Type 0 where
  pub extension : Option Extension

pub data StartError : Type 0 where
  failed_to_find extension_is_nil failed_to_get_config : StartError
  failed_to_get_extension : String → StartError → StartError
  failed_to_decor : StartError → StartError

abbrev pub collector_name_attribute : String
collector_name_attribute = "sw.otelcol.collector.name"

abbrev pub entity_creation : String
entity_creation = "sw.otelcol.collector.entity_creation"

abbrev pub entity_creation_value : String
entity_creation_value = "on"

abbrev new_extension_provider : ExtensionProvider
new_extension_provider = record { extension = none }

abbrev pub with_attributes : SolarwindsProcessor → Dict String → SolarwindsProcessor
with_attributes p attrs = record {
  cfg = record {
    max_size_mib = p.cfg.max_size_mib;
    resource_attributes = attrs;
    collector_attributes_decoration = p.cfg.collector_attributes_decoration;
    host_attributes_decoration = p.cfg.host_attributes_decoration;
  };
  host_attributes = p.host_attributes;
  has_provider = p.has_provider;
}

module _ (find_extension : String → Result StartError Extension) where
  unfoldable pub init : String → ExtensionProvider → Result StartError ExtensionProvider
  init name ep = elim ep.extension [
    | some _ ↦ ok ep
    | none ↦ elim (find_extension name) [
      | err _ ↦ err failed_to_find
      | ok found ↦ ok (record { extension = some found })
    ]
  ]

  unfoldable pub set_attributes : ExtensionProvider → Dict String → Result StartError (Dict String)
  set_attributes ep attrs = elim ep.extension [
    | none ↦ err extension_is_nil
    | some extension ↦ elim extension.common_config [
      | none ↦ err failed_to_get_config
      | some cfg ↦
          let flagged =
            if cfg.without_entity
            then attrs
            else insert entity_creation entity_creation_value attrs in
          ok (insert collector_name_attribute cfg.collector_name flagged)
    ]
  ]

  -- The processor's provider is the one that `NewExtensionProvider` made.
  unfoldable pub start : SolarwindsProcessor → Result StartError SolarwindsProcessor
  start p =
      let name = p.cfg.collector_attributes_decoration.extension_name in
      if p.has_provider
      then elim (init name new_extension_provider) [
        | err e ↦ err (failed_to_get_extension name e)
        | ok ep ↦ elim (set_attributes ep p.cfg.resource_attributes) [
          | err e ↦ err (failed_to_decor e)
          | ok attrs ↦ ok (with_attributes p attrs)
        ]
      ]
      else ok p
