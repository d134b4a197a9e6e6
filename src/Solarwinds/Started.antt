-- ===== src/Solarwinds/Started.antt =====
-- What the attributes of every resource are once the processor is started with an extension.
use mathlib.Core.Path.{fun_ext}
use solarwinds_otel_collecto.Base.{
  ◌≡◌, refl, ◌∙◌, ap, Bool, true, false, not, ◌&&◌, List, Option, some, String, Dict, lookup,
  insert, lookup-insert, insert-Distinct, Distinct, Result, ok, if◌then◌else◌, ◌=s=◌, map, arith,
  Bool-cases, inl, inr,
}
use solarwinds_otel_collecto.Connector.Pdata.{Pdata, Laws}
use solarwinds_otel_collecto.Solarwinds.HostAttributes.{Values, ValuesLaws}
use solarwinds_otel_collecto.Solarwinds.Processor.{SolarwindsProcessor, decorated}
use solarwinds_otel_collecto.Solarwinds.Extension.{
  Extension, CommonConfig, StartError, init, set_attributes, start, with_attributes,
  collector_name_attribute, entity_creation, entity_creation_value,
}
use solarwinds_otel_collecto.Solarwinds.Expected.{overlay, expected, expected_host}
use solarwinds_otel_collecto.Solarwinds.Decorated.{decorated-expected}

if_true : {A : Type 0} (b : Bool) (x y : A) → b ≡ true → (if b then x else y) ≡ x
if_true true x y h = refl
if_true false x y h = absurd (ground arith)

-- The attributes that the extension adds to those that are configured.
abbrev added_attributes : CommonConfig → Dict String → Dict String
added_attributes cfg attrs =
    insert collector_name_attribute cfg.collector_name
      (if cfg.without_entity then attrs else insert entity_creation entity_creation_value attrs)

added_attributes-Distinct :
    (cfg : CommonConfig) (attrs : Dict String)
    → Distinct attrs
    → Distinct (added_attributes cfg attrs)
added_attributes-Distinct cfg attrs d = elim (Bool-cases cfg.without_entity) [
  | inl e ↦ rw e (insert-Distinct _ _ attrs d)
  | inr e ↦ rw e (insert-Distinct _ _ _ (insert-Distinct _ _ attrs d))
]

lookup-added_attributes :
    (cfg : CommonConfig) (attrs : Dict String) (k : String)
    → lookup k (added_attributes cfg attrs) ≡ (
        if collector_name_attribute =s= k
        then some cfg.collector_name
        else if not cfg.without_entity && entity_creation =s= k
        then some entity_creation_value
        else lookup k attrs)
lookup-added_attributes cfg attrs k = ground (
  arith,
  lookup-insert collector_name_attribute k cfg.collector_name attrs,
  lookup-insert entity_creation k entity_creation_value attrs,
  lookup-insert collector_name_attribute k cfg.collector_name
      (insert entity_creation entity_creation_value attrs),
)

module _ (pd : Pdata) (vs : Values pd) where
  -- An attribute of a resource after the start: the name of the collector, the flag that its entity is
  -- to be created, and else what a processor without the extension leaves.
  unfoldable pub started : CommonConfig → SolarwindsProcessor → String → pd.Map → Option pd.Value
  started cfg p k m =
      if collector_name_attribute =s= k
      then some (pd.new_str cfg.collector_name)
      else if not cfg.without_entity && entity_creation =s= k
      then some (pd.new_str entity_creation_value)
      else expected pd vs p m k

  overlay-if :
      (a b : Bool) (v w : String) (rest : Option String) (before : Option pd.Value)
      → overlay pd vs (if a then some v else if b then some w else rest) before ≡ (
          if a
          then some (pd.new_str v)
          else if b
          then some (pd.new_str w)
          else overlay pd vs rest before)
  overlay-if true b v w rest before = refl
  overlay-if false true v w rest before = refl
  overlay-if false false v w rest before = refl

  expected-started :
      (cfg : CommonConfig) (p : SolarwindsProcessor) (k : String) (m : pd.Map)
      → expected pd vs (with_attributes p (added_attributes cfg p.cfg.resource_attributes)) m k
        ≡ started cfg p k m
  unfolding expected started
  expected-started cfg p k m =
      ap (λ found. overlay pd vs found (expected_host pd vs p.host_attributes m k))
        (lookup-added_attributes cfg p.cfg.resource_attributes k)
      ∙ overlay-if (collector_name_attribute =s= k)
          (not cfg.without_entity && entity_creation =s= k) _ _ (lookup k p.cfg.resource_attributes)
          _

  module _ (laws : Laws pd) (vl : ValuesLaws pd vs) where
    -- If the decoration with the attributes of the collector is enabled and the extension is found
    -- with a configuration, the processor starts, and every resource that it decorates from then on
    -- has the name of the collector, and the flag that its entity is to be created unless the
    -- extension forbids it, whatever the resource and the configuration had under these keys; its
    -- other attributes are those that the processor would give it without the extension.
    pub start-started :
        (find_extension : String → Result StartError Extension) (p : SolarwindsProcessor)
        (extension : Extension) (cfg : CommonConfig) (resources : List pd.Map) (k : String)
        → p.has_provider ≡ true
        → find_extension p.cfg.collector_attributes_decoration.extension_name ≡ ok extension
        → extension.common_config ≡ some cfg
        → Distinct p.cfg.resource_attributes
        → (p' : SolarwindsProcessor) × (start find_extension p ≡ ok p')
          × (map (λ m. pd.get m k) (decorated pd vs p' resources) ≡ map (started cfg p k) resources)
    unfolding start init set_attributes
    start-started find_extension p extension cfg resources k enabled found configured d =
        let p' = with_attributes p (added_attributes cfg p.cfg.resource_attributes) in
        (
          p',
          if_true p.has_provider _ (ok p) enabled
              ∙ rw (init, found, set_attributes, configured) refl,
          decorated-expected pd vs laws vl p' resources k
                (added_attributes-Distinct cfg p.cfg.resource_attributes d)
              ∙ ap (λ f. map f resources) (fun_ext (expected-started cfg p k)),
        )
