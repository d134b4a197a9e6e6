-- ===== src/Connector/Attributes/Routing.antt =====
-- Where a resource attribute goes: the maps of `IdentifyAttributes` against the resource.
use solarwinds_otel_collecto.Base.{
  ◌≡◌, Bool, not, ◌&&◌, ◌||◌, [], ◌∷◌, Option, none, String, Dict, lookup, lookup-insert, Distinct,
  insert-Distinct, has_prefix, trim_prefix, eq-append, if◌then◌else◌, ◌=s=◌, arith, eq_iff, ◌++ₛ◌,
  or_else,
}
use solarwinds_otel_collecto.Connector.Pdata.{Pdata, Laws}
use solarwinds_otel_collecto.Connector.Attributes.{
  Attributes, sort_attribute, identify_from, identify_attributes,
}

-- The key starts with a prefix that is configured.
abbrev pub taken : String → String → Bool
taken prefix k = not (prefix =s= "") && has_prefix prefix k

-- The resource attribute that an entry of each map comes from, if there is one.
abbrev pub source_origin {ℓ} : {A : Type ℓ} → String → String → (String → Option A) → Option A
source_origin src j get = if src =s= "" then none else get (src ++ₛ j)

abbrev pub destination_origin {ℓ} :
    {A : Type ℓ} → String → String → String → (String → Option A) → Option A
destination_origin src dest j get =
    if dest =s= "" || taken src (dest ++ₛ j) then none else get (dest ++ₛ j)

abbrev pub common_origin {ℓ} :
    {A : Type ℓ} → String → String → String → (String → Option A) → Option A
common_origin src dest j get = if taken src j || taken dest j then none else get j

module _ (pd : Pdata) (src dest : String) where
  open pd use {Value, Map, get, all}

  from-source :
      (j : String) (acc : Attributes pd) (es : Dict Value)
      → Distinct es
      → lookup j (identify_from pd src dest acc es).source
        ≡ or_else (source_origin src j (λ k. lookup k es)) (lookup j acc.source)
  unfolding identify_from sort_attribute lookup
  from-source j acc [] d = ground arith
  from-source j acc ((k, v) ∷ es) d = ground (
    arith,
    from-source j (sort_attribute pd src dest acc k v) es d.1,
    lookup-insert (trim_prefix src k) j v acc.source,
    eq-append src k j,
    eq_iff k (src ++ₛ j),
  )

  from-destination :
      (j : String) (acc : Attributes pd) (es : Dict Value)
      → Distinct es
      → lookup j (identify_from pd src dest acc es).destination
        ≡ or_else (destination_origin src dest j (λ k. lookup k es)) (lookup j acc.destination)
  unfolding identify_from sort_attribute lookup
  from-destination j acc [] d = ground arith
  from-destination j acc ((k, v) ∷ es) d = ground (
    arith,
    from-destination j (sort_attribute pd src dest acc k v) es d.1,
    lookup-insert (trim_prefix dest k) j v acc.destination,
    eq-append dest k j,
    eq_iff k (dest ++ₛ j),
  )

  from-common :
      (j : String) (acc : Attributes pd) (es : Dict Value)
      → Distinct es
      → lookup j (identify_from pd src dest acc es).common
        ≡ or_else (common_origin src dest j (λ k. lookup k es)) (lookup j acc.common)
  unfolding identify_from sort_attribute lookup
  from-common j acc [] d = ground arith
  from-common j acc ((k, v) ∷ es) d = ground (
    arith,
    from-common j (sort_attribute pd src dest acc k v) es d.1,
    lookup-insert k j v acc.common,
    eq_iff k j,
  )

  -- An attribute of the resource goes to exactly one of the three maps. The source map holds, under
  -- `j`, the attribute `src ++ j`; the destination map the attribute `dest ++ j`, unless that key
  -- starts with the source prefix; the common map the attribute `j`, unless it starts with a prefix
  -- that is configured. An empty prefix takes nothing.
  pub identify_attributes-get :
      (m : Map) (j : String)
      → Laws pd
      → let attrs = identify_attributes pd m src dest in
        (lookup j attrs.source ≡ source_origin src j (get m))
        × (lookup j attrs.destination ≡ destination_origin src dest j (get m))
        × (lookup j attrs.common ≡ common_origin src dest j (get m))
  unfolding identify_attributes lookup
  identify_attributes-get m j laws =
      let d = laws.all-Distinct m in
      let acc : Attributes pd = record { source = []; destination = []; common = [] } in
      (
        ground (arith, from-source j acc (all m) d, laws.lookup-all m (src ++ₛ j)),
        ground (arith, from-destination j acc (all m) d, laws.lookup-all m (dest ++ₛ j)),
        ground (arith, from-common j acc (all m) d, laws.lookup-all m j),
      )

  from-Distinct :
      (acc : Attributes pd) (es : Dict Value)
      → Distinct acc.source × Distinct acc.destination × Distinct acc.common
      → let attrs = identify_from pd src dest acc es in
        Distinct attrs.source × Distinct attrs.destination × Distinct attrs.common
  unfolding identify_from sort_attribute
  from-Distinct acc [] d = d
  from-Distinct acc ((k, v) ∷ es) d = from-Distinct (sort_attribute pd src dest acc k v) es (
    ground (arith, insert-Distinct (trim_prefix src k) v acc.source),
    ground (arith, insert-Distinct (trim_prefix dest k) v acc.destination),
    ground (arith, insert-Distinct k v acc.common),
  )

  -- Each of the three maps holds a key once.
  pub identify_attributes-Distinct :
      (m : Map)
      → let attrs = identify_attributes pd m src dest in
        Distinct attrs.source × Distinct attrs.destination × Distinct attrs.common
  unfolding identify_attributes
  identify_attributes-Distinct m =
      from-Distinct (record { source = []; destination = []; common = [] }) (all m) (tt, tt, tt)
