-- ===== src/EntityRefs/Inserted.antt =====
-- What the processor adds to a resource.
use mathlib.Core.List.{Memᴰ}
use solarwinds_otel_collecto.Base.{◌≡◌, true, false, List, String, Dict, has, All, ◌⊎◌, ◌≢◌}
use solarwinds_otel_collecto.Connector.Pdata.{Pdata}
use solarwinds_otel_collecto.EntityRefs.{EntityRefConfig, EntityRef}
use solarwinds_otel_collecto.EntityRefs.Present.{IsMissing, IsThere, IsMade}

module _ (pd : Pdata) (lower : String → String) (attrs : pd.Map) where
  -- No reference of a list has a type, in lower case, or one has it.
  pub NewTo : List EntityRef → String → Type 0
  NewTo refs k = All (λ (r : EntityRef). lower r.type ≢ k) refs

  pub HasType : List EntityRef → String → Type 0
  HasType refs k = (r : EntityRef) × Memᴰ r refs × (lower r.type ≡ k)

  -- A reference that is added: that of an entry of the configuration, whose ID keys are all there and
  -- whose type is new.
  pub record IsInserted (IsNew : String → Type 0) (ers : List EntityRefConfig) (ref : EntityRef)
      : Type 0 where
    pub entry : EntityRefConfig
    pub is_configured : Memᴰ entry ers
    pub is_made : IsMade pd lower attrs entry ref
    pub has_keys : All (IsThere pd lower attrs) entry.id_keys
    pub is_new : IsNew entry.normalized_type

  -- What becomes of an entry: a key is missing, its type is old, or a reference is added for it or
  -- for an entry of the same type.
  pub Covered : (String → Type 0) → List EntityRef → EntityRefConfig → Type 0
  Covered IsOld added er =
      ((key : String) × Memᴰ key er.id_keys × IsMissing pd lower attrs key)
      ⊎ (IsOld er.normalized_type
          ⊎ ((other : EntityRefConfig) × (ref : EntityRef) × Memᴰ ref added
              × IsMade pd lower attrs other ref
              × (other.normalized_type ≡ er.normalized_type)))

  abbrev Absent : Dict (Unit {0}) → String → Type 0
  Absent existing k = has k existing ≡ false

  abbrev Present : Dict (Unit {0}) → String → Type 0
  Present existing k = has k existing ≡ true

  abbrev Settled : Dict (Unit {0}) → List EntityRefConfig → List EntityRef → Type 0
  Settled existing ers added =
      All (IsInserted (Absent existing) ers) added × All (Covered (Present existing) added) ers
