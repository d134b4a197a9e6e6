-- ===== src/WorkloadType/Frame.antt =====
-- What the processor writes to attributes, and what it leaves alone.
use solarwinds_otel_collecto.Base.{
  ℕ, ◌≡◌, refl, sym, ◌∙◌, ap, Bool, true, false, not, ◌&&◌, ◌||◌, List, [], ◌∷◌, Option, none, some,
  String, Dict, Result, ok, err, ok_inj, if◌then◌else◌, ◌=s=◌, arith, All, Bool-cases, Result-cases,
  inl, inr, eq_iff, eq_refl, subst,
}
use solarwinds_otel_collecto.Connector.Pdata.{Pdata, Laws}
use solarwinds_otel_collecto.WorkloadType.{LookupResult, Informer, Stop, Outcome}
use solarwinds_otel_collecto.WorkloadType.Resources.{is_set}
use solarwinds_otel_collecto.WorkloadType.Mappings.{MappingConfig}
use solarwinds_otel_collecto.WorkloadType.Decoration.{
  Net, get_attribute, lookup_by_name_attr, lookup_by_address_attr, put_if, write_result,
  write_found, process_mapping, process_attributes,
}

-- The text that a result gives an attribute: of a mapping's attributes with the same name, the
-- namespace counts before the name, and the name before the type.
unfoldable pub written_at : MappingConfig → LookupResult → String → Option String
written_at m res k =
    if m.workload_namespace_attr =s= k && (is_set k && is_set res.namespace)
    then some res.namespace
    else if m.workload_name_attr =s= k && (is_set k && is_set res.name)
    then some res.name
    else if m.workload_type_attr =s= k && is_set res.kind
    then some res.kind
    else none

-- A mapping of a context writes an attribute.
unfoldable pub writes : String → MappingConfig → String → Bool
writes context m k =
    m.context =s= context
    && (m.workload_type_attr =s= k
        || (m.workload_name_attr =s= k || m.workload_namespace_attr =s= k))

module _ (pd : Pdata) (laws : Laws pd) where
  get-put_if :
      (c : Bool) (k v j : String) (m : pd.Map)
      → pd.get (put_if pd c k v m) j ≡ (if c && k =s= j then some (pd.new_str v) else pd.get m j)
  get-put_if true k v j m = laws.get-put_str m k v j
  get-put_if false k v j m = refl

  -- A value with a text on top, if there is one.
  abbrev covered : Option pd.Value → Option String → Option pd.Value
  covered before none = before
  covered before (some v) = some (pd.new_str v)

  -- One more text on top, under conditions that are met together or not.
  covered-if :
      (a b c : Bool) (v : String) (old before : Option pd.Value) (previous : Option String)
      → old ≡ covered before previous
      → (if (a && b) && c then some (pd.new_str v) else old)
        ≡ covered before (if c && (b && a) then some v else previous)
  covered-if true true true v old before previous h = refl
  covered-if true true false v old before previous h = h
  covered-if true false true v old before previous h = h
  covered-if true false false v old before previous h = h
  covered-if false true true v old before previous h = h
  covered-if false true false v old before previous h = h
  covered-if false false true v old before previous h = h
  covered-if false false false v old before previous h = h

  -- Instead of the attribute itself, an equal one may be tested.
  same_test :
      (attr k : String) (a : Bool)
      → (attr =s= k && (is_set attr && a)) ≡ (attr =s= k && (is_set k && a))
  same_test attr k a = elim (Bool-cases (attr =s= k)) [
    | inl e ↦ ap (λ j. attr =s= k && (is_set j && a)) ((eq_iff attr k).0 e)
    | inr e ↦ rw e refl
  ]

  put_if-covered :
      (attr v k : String) (m : pd.Map) (before : Option pd.Value) (previous : Option String)
      → pd.get m k ≡ covered before previous
      → pd.get (put_if pd (is_set v && is_set attr) attr v m) k
        ≡ covered before (if attr =s= k && (is_set k && is_set v) then some v else previous)
  put_if-covered attr v k m before previous h =
      get-put_if (is_set v && is_set attr) attr v k m
      ∙ covered-if (is_set v) (is_set attr) (attr =s= k) v (pd.get m k) before previous h
      ∙ ap (λ c. covered before (if c then some v else previous)) (same_test attr k (is_set v))

  put_type-covered :
      (attr v k : String) (m : pd.Map)
      → pd.get (put_if pd (is_set v) attr v m) k
        ≡ covered (pd.get m k) (if attr =s= k && is_set v then some v else none)
  put_type-covered attr v k m = get-put_if (is_set v) attr v k m ∙ elim (Bool-cases (attr =s= k)) [
    | inl e ↦ rw e (elim (Bool-cases (is_set v)) [ inl g ↦ rw g refl | inr g ↦ rw g refl ])
    | inr e ↦ rw e (elim (Bool-cases (is_set v)) [ inl g ↦ rw g refl | inr g ↦ rw g refl ])
  ]

  get-write_result :
      (m : MappingConfig) (res : LookupResult) (attributes : pd.Map) (k : String)
      → pd.get (write_result pd m res attributes) k
        ≡ covered (pd.get attributes k) (written_at m res k)
  unfolding write_result written_at
  get-write_result m res attributes k =
      put_if-covered m.workload_namespace_attr res.namespace k _ (pd.get attributes k) _ (
        put_if-covered m.workload_name_attr res.name k _ (pd.get attributes k) _
          (put_type-covered m.workload_type_attr res.kind k attributes))

  -- A result that leaves an attribute as it was.
  data Keeps (k : String) (before : pd.Map) : Result Stop pd.Map → Type 0 where
    keeps_ok : (after : pd.Map) → pd.get after k ≡ pd.get before k → Keeps k before (ok after)
    keeps_stop : (e : Stop) → Keeps k before (err e)

  Keeps-if :
      {k : String} {before : pd.Map} {a b : Result Stop pd.Map} (c : Bool)
      → Keeps k before a
      → Keeps k before b
      → Keeps k before (if c then a else b)
  Keeps-if true h g = h
  Keeps-if false h g = g

  Keeps-write_found :
      (m : MappingConfig) (k : String) (attributes : pd.Map) (found : Outcome)
      → (m.workload_type_attr =s= k
          || (m.workload_name_attr =s= k || m.workload_namespace_attr =s= k))
        ≡ false
      → Keeps k attributes (write_found pd m attributes found)
  unfolding written_at
  Keeps-write_found m k attributes (err e) h = keeps_stop e
  Keeps-write_found m k attributes (ok res) h =
      keeps_ok (write_result pd m res attributes)
        (ground (arith, get-write_result m res attributes k))

  kept_value :
      {k : String} {before : pd.Map} (after : pd.Map)
      → Keeps k before (ok after)
      → pd.get after k ≡ pd.get before k
  kept_value _ (keeps_ok _ same) = same

  module _ (net : Net) (informers : Dict Informer) (fuel : ℕ) where
    Keeps-process_mapping :
        (m : MappingConfig) (context k : String) (resource_attributes attributes : pd.Map)
        → writes context m k ≡ false
        → Keeps k attributes
            (process_mapping pd net informers fuel m context resource_attributes attributes)
    unfolding process_mapping writes
    Keeps-process_mapping m context k resource_attributes attributes h =
        let same = keeps_ok attributes refl in
        elim (Bool-cases (m.context =s= context)) [
          | inr e ↦ rw (e, process_mapping) same
          | inl e ↦
              let unwritten = Keeps-write_found m k attributes in
              rw (e, process_mapping)
                (Keeps-if (is_set (get_attribute pd attributes m.workload_type_attr)) same (
                  Keeps-if (is_set m.name_attr) (unwritten _ (ground arith))
                    (Keeps-if (is_set m.address_attr) (unwritten _ (ground arith)) same)))
        ]

    -- Attributes that no mapping of the context writes are left as they are.
    pub get-process_attributes :
        (ms : List MappingConfig) (context k : String) (resource_attributes before after : pd.Map)
        → process_attributes pd net informers fuel ms context resource_attributes before ≡ ok after
        → All (λ m. writes context m k ≡ false) ms
        → pd.get after k ≡ pd.get before k
    unfolding process_attributes
    get-process_attributes [] context k resource_attributes before after h none_writes =
        ap (λ m. pd.get m k) (sym (ok_inj h))
    get-process_attributes (m ∷ ms) context k resource_attributes before after h none_writes =
        let kept = Keeps-process_mapping m context k resource_attributes before none_writes.0 in
        elim (Result-cases
          (process_mapping pd net informers fuel m context resource_attributes before)) [
            | inr (e, failed) ↦ absurd (ground (arith, rw (failed, process_attributes) at h))
            | inl (next, done) ↦
                get-process_attributes ms context k resource_attributes next after
                  (rw (done, process_attributes) at h) none_writes.1
                ∙ kept_value next (subst (Keeps k before) done kept)
          ]

    -- The look-up of a mapping: by name if it has a name attribute, else by address.
    abbrev looked_up : MappingConfig → pd.Map → pd.Map → Outcome
    looked_up m attributes resource_attributes =
        if is_set m.name_attr
        then lookup_by_name_attr pd net informers fuel m attributes resource_attributes
        else lookup_by_address_attr pd net informers fuel m attributes resource_attributes

    -- A mapping of the context that is visited, with one of a name and an address attribute, and whose
    -- type attribute holds no text yet, writes exactly what its look-up found: afterwards each
    -- attribute has the text that the result gives it, or what it had.
    pub get-process_mapping :
        (m : MappingConfig) (resource_attributes before : pd.Map) (res : LookupResult)
        → is_set m.name_attr ≡ not (is_set m.address_attr)
        → is_set (get_attribute pd before m.workload_type_attr) ≡ false
        → looked_up m before resource_attributes ≡ ok res
        → (after : pd.Map) × (process_mapping pd net informers fuel m m.context resource_attributes
              before
            ≡ ok after)
          × ((k : String)
              → pd.get after k ≡ (elim (written_at m res k) [
                | none ↦ pd.get before k
                | some v ↦ some (pd.new_str v)
              ]))
    unfolding process_mapping
    get-process_mapping m resource_attributes before res one untyped found =
        let by_key =
          elim (Bool-cases (is_set m.name_attr))
            as (λ _.
              process_mapping pd net informers fuel m m.context resource_attributes before
              ≡ ok (write_result pd m res before)) [
                | inl e ↦ rw (eq_refl m.context, untyped, e, rw e at found, process_mapping) refl
                | inr e ↦
                    let addressed : is_set m.address_attr ≡ true = ground arith in
                    rw (eq_refl m.context, untyped, e, addressed, rw e at found, process_mapping)
                      refl
              ] in
        (write_result pd m res before, by_key, get-write_result m res before)
