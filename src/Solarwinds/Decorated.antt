-- ===== src/Solarwinds/Decorated.antt =====
-- What the attributes of every resource are once a signal is processed.
use solarwinds_otel_collecto.Base.{
  ℕ, ◌≡◌, refl, ◌∙◌, ap, ap₂, true, false, List, [], ◌∷◌, Option, none, some, String, lookup, ok,
  err, if◌then◌else◌, ◌=s=◌, map, arith, pos, ◌<ℤ?◌, mul64, ℤ, Result, inl, inr, ◌⊎◌, Distinct,
  eq_iff, subst, Bool-cases, str_cases, Option-cases,
}
use solarwinds_otel_collecto.Connector.Pdata.{Pdata, Laws}
use solarwinds_otel_collecto.Solarwinds.HostAttributes.{
  Values, ValuesLaws, HostAttributesDecorator, exists, str_of, host_id_attribute,
  host_name_attribute, os_type_attribute, cloud_provider_attribute, cloud_account_id,
  cloud_availability_zone, get_host_id, put_host_id, put_host_name, put_gcp_host_id,
  apply_attributes,
}
use solarwinds_otel_collecto.Solarwinds.Processor.{
  SolarwindsProcessor, SignalKind, SignalError, failed_to_marshal, failed_to_notify, Warning,
  decorate_by_function, put_all, decorate_resource_attributes, decorated, process_signal,
  notify_signal_size_limit_exceeded,
}
use solarwinds_otel_collecto.Solarwinds.Expected.{
  gcp_id, own_id, expected_id, expected_name, expected_os, expected_host, overlay, expected,
}
use solarwinds_otel_collecto.Solarwinds.Writes.{
  get-put_os_type, get-put_host_name, get-put_host_id, get-put_gcp_host_id, gcp_host_id-gcp_id,
  put_all-lookup, from_eq,
}

module _ (pd : Pdata) (vs : Values pd) where
  module _ (laws : Laws pd) (vl : ValuesLaws pd vs) where
    -- The three writes before the last one.
    module _ (h : HostAttributesDecorator) (m : pd.Map) where
      abbrev provider : String
      provider = str_of pd vs (pd.get m cloud_provider_attribute)

      abbrev m1 : pd.Map
      m1 =
          put_host_id pd vs h (exists (pd.get m cloud_provider_attribute)) (get_host_id pd vs h m) m

      abbrev m2 : pd.Map
      m2 = put_host_name pd vs h provider m1

      abbrev m3 : pd.Map
      m3 = put_gcp_host_id pd vs provider m2

      get-own_id : pd.get m2 host_id_attribute ≡ own_id pd vs h m
      unfolding own_id
      get-own_id =
          get-put_host_name pd vs laws vl h provider m1 host_id_attribute
          ∙ get-put_host_id pd vs laws vl h (exists (pd.get m cloud_provider_attribute))
              (get_host_id pd vs h m) m host_id_attribute

      get-other :
          (k : String)
          → (host_id_attribute =s= k) ≡ false
          → (host_name_attribute =s= k) ≡ false
          → pd.get m2 k ≡ pd.get m k
      get-other k i n = ground (
        arith,
        get-put_host_name pd vs laws vl h provider m1 k,
        get-put_host_id pd vs laws vl h (exists (pd.get m cloud_provider_attribute))
            (get_host_id pd vs h m) m k,
      )

      get-expected_id : pd.get m3 host_id_attribute ≡ expected_id pd vs h m
      unfolding expected_id
      get-expected_id =
          get-put_gcp_host_id pd vs laws vl provider m2 host_id_attribute
          ∙ ap (λ v. if provider =s= "gcp" then v else pd.get m2 host_id_attribute)
              (gcp_host_id-gcp_id pd vs laws vl m2)
          ∙ ap
              (λ v.
                if provider =s= "gcp"
                then gcp_id pd vs (str_of pd vs (pd.get m2 cloud_account_id))
                    (str_of pd vs (pd.get m2 cloud_availability_zone)) (str_of pd vs v)
                else v)
              get-own_id
          ∙ ap₂
              (λ a z.
                if provider =s= "gcp"
                then gcp_id pd vs (str_of pd vs a) (str_of pd vs z)
                    (str_of pd vs (own_id pd vs h m))
                else own_id pd vs h m)
              (get-other cloud_account_id refl refl) (get-other cloud_availability_zone refl refl)

      get-m3 :
          (k : String)
          → pd.get m3 k ≡ (
              if host_id_attribute =s= k
              then expected_id pd vs h m
              else if host_name_attribute =s= k
              then expected_name pd vs h m
              else pd.get m k)
      unfolding expected_name
      get-m3 k = elim (Bool-cases (host_id_attribute =s= k)) [
        | inl i ↦
            subst
              (λ j. pd.get m3 j ≡ (
                if host_id_attribute =s= j
                then expected_id pd vs h m
                else if host_name_attribute =s= j
                then expected_name pd vs h m
                else pd.get m j))
              (from_eq pd vs laws vl host_id_attribute k i) get-expected_id
        | inr i ↦ ground (
          arith,
          eq_iff host_name_attribute k,
          get-put_gcp_host_id pd vs laws vl provider m2 k,
          get-put_host_name pd vs laws vl h provider m1 k,
          get-put_host_id pd vs laws vl h (exists (pd.get m cloud_provider_attribute))
              (get_host_id pd vs h m) m k,
        )
      ]

    get-apply_attributes :
        (h : Option HostAttributesDecorator) (m : pd.Map) (k : String)
        → pd.get (apply_attributes pd vs h m) k ≡ expected_host pd vs h m k
    unfolding apply_attributes expected_host
    get-apply_attributes none m k = refl
    get-apply_attributes (some h) m k =
        get-put_os_type pd vs laws vl (m3 h m) k ∙ elim (str_cases os_type_attribute k) [
          | inl (p, e) ↦
              subst
                (λ j.
                  (if os_type_attribute =s= j
                    then expected_os pd vs (pd.get (m3 h m) j)
                    else pd.get (m3 h m) j)
                  ≡ expected_host pd vs (some h) m j)
                p (ap (expected_os pd vs) (get-m3 h m os_type_attribute))
          | inr (_, e) ↦ rw (e) (get-m3 h m k)
        ]

    get-decorated :
        (p : SolarwindsProcessor) (m : pd.Map) (k : String)
        → Distinct p.cfg.resource_attributes
        → pd.get
            (put_all pd vs p.cfg.resource_attributes (apply_attributes pd vs p.host_attributes m))
            k
          ≡ expected pd vs p m k
    unfolding expected
    get-decorated p m k d =
        put_all-lookup pd vs laws vl p.cfg.resource_attributes
          (apply_attributes pd vs p.host_attributes m) k d
        ∙ ap (overlay pd vs (lookup k p.cfg.resource_attributes))
            (get-apply_attributes p.host_attributes m k)

    pub decorated-expected :
        (p : SolarwindsProcessor) (resources : List pd.Map) (k : String)
        → Distinct p.cfg.resource_attributes
        → map (λ m. pd.get m k) (decorated pd vs p resources)
          ≡ map (λ m. expected pd vs p m k) resources
    unfolding decorated decorate_by_function decorate_resource_attributes
    decorated-expected p [] k d = refl
    decorated-expected p (m ∷ resources) k d =
        ap₂ (λ v vs. v ∷ vs) (get-decorated p m k d) (decorated-expected p resources k d)

    -- What is returned for what the check of the size returns.
    abbrev processed :
        SignalKind
        → List pd.Map
        → Result SignalError (Option Warning)
        → Result SignalError (List pd.Map × Option Warning)
    processed signal out (err e) = err (failed_to_notify signal e)
    processed signal out (ok warning) = ok (out, warning)

    notify-cases :
        (marshal : SignalKind → List pd.Map → Option ℕ) (signal : SignalKind) (out : List pd.Map)
        (limit : ℤ)
        → ((warning : Option Warning) × (notify_signal_size_limit_exceeded pd vs marshal signal out
                limit
              ≡ ok warning))
          ⊎ ((notify_signal_size_limit_exceeded pd vs marshal signal out limit
                ≡ err failed_to_marshal)
              × ((pos 0 <ℤ? limit) ≡ true)
              × (marshal signal out ≡ none))
    unfolding notify_signal_size_limit_exceeded
    notify-cases marshal signal out limit = elim (Bool-cases (pos 0 <ℤ? limit)) [
      | inl limited ↦ elim (Option-cases (marshal signal out)) [
        | inl missing ↦
            inr (rw (notify_signal_size_limit_exceeded, limited, missing) refl, limited, missing)
        | inr (bytes, there) ↦ inl (
          if mul64 (mul64 limit 1024) 1024 <ℤ? pos bytes
              then some (record { signal = signal; size_bytes = bytes; limit_mib = limit })
              else none,
          rw (notify_signal_size_limit_exceeded, limited, there) refl,
        )
      ]
      | inr unlimited ↦ inl (none, rw (notify_signal_size_limit_exceeded, unlimited) refl)
    ]

    -- A signal is processed, with a warning or without, unless there is a limit and the signal
    -- cannot be marshalled. If no attribute is configured twice, every attribute of every resource
    -- that comes out is the expected one: the configured text, and else what the attributes of the
    -- host are, which are those of the resource but for host.id, host.name and os.type.
    pub process_signal-expected :
        (marshal : SignalKind → List pd.Map → Option ℕ) (signal : SignalKind)
        (p : SolarwindsProcessor) (resources : List pd.Map) (k : String)
        → Distinct p.cfg.resource_attributes
        → ((out : List pd.Map) × (warning : Option Warning) × (process_signal pd vs marshal signal p
                resources
              ≡ ok (out, warning))
            × (map (λ m. pd.get m k) out ≡ map (λ m. expected pd vs p m k) resources))
          ⊎ ((process_signal pd vs marshal signal p resources
                ≡ err (failed_to_notify signal failed_to_marshal))
              × ((pos 0 <ℤ? p.cfg.max_size_mib) ≡ true)
              × (marshal signal (decorated pd vs p resources) ≡ none))
    unfolding process_signal
    process_signal-expected marshal signal p resources k d =
        let out = decorated pd vs p resources in
        let same = decorated-expected p resources k d in
        elim (notify-cases marshal signal out p.cfg.max_size_mib) [
          | inl (warning, sent) ↦ inl (out, warning, ap (processed signal out) sent, same)
          | inr (failed, limited, missing) ↦
              inr (ap (processed signal out) failed, limited, missing)
        ]
