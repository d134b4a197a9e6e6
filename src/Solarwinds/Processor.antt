-- ===== src/Solarwinds/Processor.antt =====
-- processor/solarwindsprocessor/{processor,config,collector_decoration,extension_provider}.go and
-- pkg/attributesdecorator/decorator.go.
use solarwinds_otel_collecto.Base.{
  ℕ, Bool, ◌&&◌, List, [], ◌∷◌, Option, none, some, String, Dict, Result, ok, err, if◌then◌else◌,
  ◌=s=◌, ℤ, pos, ◌<ℤ?◌, mul64,
}
use solarwinds_otel_collecto.Connector.Pdata.{Pdata}
use solarwinds_otel_collecto.Solarwinds.HostAttributes.{
  Values, HostDecoration, HostAttributesDecorator, Provider, new_host_attributes, apply_attributes,
}

pub record CollectorDecoration : Type 0 where
  pub enabled : Bool
  pub extension_name : String

pub record Config : Type 0 where
  pub max_size_mib : ℤ
  pub resource_attributes : Dict String
  pub collector_attributes_decoration : CollectorDecoration
  pub host_attributes_decoration : HostDecoration

pub data ConfigError : Type 0 where
  extension_must_be_set negative_size invalid_type : ConfigError
  validation_failed : ConfigError → ConfigError

unfoldable pub validate_collector : CollectorDecoration → Option ConfigError
validate_collector cd =
    if cd.enabled && cd.extension_name =s= "" then some extension_must_be_set else none

unfoldable pub validate : Config → Option ConfigError
validate c = elim (validate_collector c.collector_attributes_decoration) [
  | some e ↦ some e
  | none ↦ if c.max_size_mib <ℤ? pos 0 then some negative_size else none
]

-- `none` is a configuration of another type.
unfoldable pub check_config : Option Config → Result ConfigError Config
check_config none = err invalid_type
check_config (some c) = elim (validate c) [ some e ↦ err (validation_failed e) | none ↦ ok c ]

-- The processor; `has_provider` is an extension provider that is not nil.
pub record SolarwindsProcessor : Type 0 where
  pub cfg : Config
  pub host_attributes : Option HostAttributesDecorator
  pub has_provider : Bool

unfoldable pub new_processor : Provider → Config → SolarwindsProcessor
new_processor provider cfg = record {
  cfg = cfg;
  host_attributes =
      if cfg.host_attributes_decoration.enabled
      then some (new_host_attributes cfg.host_attributes_decoration provider)
      else none;
  has_provider = cfg.collector_attributes_decoration.enabled;
}

unfoldable pub create_processor : Provider → Option Config → Result ConfigError SolarwindsProcessor
create_processor provider cfg = elim (check_config cfg) [
  | err e ↦ err e
  | ok c ↦ ok (new_processor provider c)
]

pub data SignalKind : Type 0 where
  logs metrics traces : SignalKind

pub data SignalError : Type 0 where
  failed_to_marshal : SignalError
  failed_to_notify : SignalKind → SignalError → SignalError

-- The warning that is logged: what exceeds the limit, its bytes and the limit.
pub record Warning : Type 0 where
  pub signal : SignalKind
  pub size_bytes : ℕ
  pub limit_mib : ℤ

module _ (pd : Pdata) (vs : Values pd) where
  unfoldable pub decorate_by_function : (pd.Map → pd.Map) → List pd.Map → List pd.Map
  decorate_by_function fn [] = []
  decorate_by_function fn (m ∷ collection) = fn m ∷ decorate_by_function fn collection

  -- The attributes in an order in which Go may walk them.
  unfoldable pub put_all : Dict String → pd.Map → pd.Map
  put_all [] attributes = attributes
  put_all ((key, value) ∷ atts) attributes = put_all atts (pd.put_str attributes key value)

  unfoldable pub decorate_resource_attributes : List pd.Map → Dict String → List pd.Map
  decorate_resource_attributes [] atts = []
  decorate_resource_attributes (m ∷ collection) atts =
      put_all atts m ∷ decorate_resource_attributes collection atts

  -- What `processLogs`, `processMetrics` and `processTraces` leave in the resources of their
  -- signal.
  unfoldable pub decorated : SolarwindsProcessor → List pd.Map → List pd.Map
  decorated p resources =
      decorate_resource_attributes
        (decorate_by_function (apply_attributes pd vs p.host_attributes) resources)
        p.cfg.resource_attributes

  -- `marshal` is the size of the protobuf message for a signal, which another package builds.
  module _ (marshal : SignalKind → List pd.Map → Option ℕ) where
    unfoldable pub notify_signal_size_limit_exceeded :
        SignalKind → List pd.Map → ℤ → Result SignalError (Option Warning)
    notify_signal_size_limit_exceeded signal content limit =
        if pos 0 <ℤ? limit
        then elim (marshal signal content) [
          | none ↦ err failed_to_marshal
          | some bytes ↦ ok (
              if mul64 (mul64 limit 1024) 1024 <ℤ? pos bytes
              then some (record { signal = signal; size_bytes = bytes; limit_mib = limit })
              else none)
        ]
        else ok none

    -- The three of them, which differ in the kind of signal alone.
    unfoldable pub process_signal :
        SignalKind
        → SolarwindsProcessor
        → List pd.Map
        → Result SignalError (List pd.Map × Option Warning)
    process_signal signal p resources =
        let out = decorated p resources in
        elim (notify_signal_size_limit_exceeded signal out p.cfg.max_size_mib) [
          | err e ↦ err (failed_to_notify signal e)
          | ok warning ↦ ok (out, warning)
        ]
