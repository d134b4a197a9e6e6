-- ===== src/Solarwinds/Writes.antt =====
-- What each write of the decorators does to the attributes.
use solarwinds_otel_collecto.Base.{
  ◌≡◌, refl, ◌∙◌, ap, Bool, true, false, not, ◌&&◌, [], ◌∷◌, Option, none, some, String, Dict,
  lookup, if◌then◌else◌, ◌=s=◌, ◌++ₛ◌, arith, inl, inr, Distinct, eq_iff, subst, Bool-cases,
  append_nonempty, Option-cases,
}
use solarwinds_otel_collecto.Connector.Pdata.{Pdata, Laws}
use solarwinds_otel_collecto.Solarwinds.HostAttributes.{
  Values, ValuesLaws, HostAttributesDecorator, exists, str_of, host_id_attribute,
  host_name_attribute, os_type_attribute, cloud_account_id, cloud_availability_zone,
  normalize_os_type, get_gcp_host_id, put_host_id, put_host_name, put_gcp_host_id, put_os_type,
}
use solarwinds_otel_collecto.Solarwinds.Processor.{put_all}
use solarwinds_otel_collecto.Solarwinds.Expected.{gcp_id, expected_os, overlay}

module _ (pd : Pdata) (vs : Values pd) where
  module _ (laws : Laws pd) (vl : ValuesLaws pd vs) where
    pub get-put_host_id :
        (h : HostAttributesDecorator) (cloud : Bool) (id : String) (m : pd.Map) (k : String)
        → pd.get (put_host_id pd vs h cloud id m) k ≡ (
            if host_id_attribute =s= k
            then (if cloud && h.container_id =s= "" then pd.get m k else some (pd.new_str id))
            else pd.get m k)
    unfolding put_host_id
    get-put_host_id h true id m k = ground (arith, laws.get-put_str m host_id_attribute id k)
    get-put_host_id h false id m k = laws.get-put_str m host_id_attribute id k

    pub get-put_host_name :
        (h : HostAttributesDecorator) (provider : String) (m : pd.Map) (k : String)
        → pd.get (put_host_name pd vs h provider m) k ≡ (
            if host_name_attribute =s= k
              && ((provider =s= "aws" && h.is_run_in_containerd) && not (h.container_id =s= ""))
            then some (pd.new_str h.container_id)
            else pd.get m k)
    unfolding put_host_name
    get-put_host_name h provider m k =
        ground (arith, laws.get-put_str m host_name_attribute h.container_id k)

    pub get-put_gcp_host_id :
        (provider : String) (m : pd.Map) (k : String)
        → pd.get (put_gcp_host_id pd vs provider m) k ≡ (
            if host_id_attribute =s= k && provider =s= "gcp"
            then (if not (get_gcp_host_id pd vs m =s= "")
                then some (pd.new_str (get_gcp_host_id pd vs m))
                else none)
            else pd.get m k)
    unfolding put_gcp_host_id
    get-put_gcp_host_id provider m k = ground (
      arith,
      laws.get-put_str m host_id_attribute (get_gcp_host_id pd vs m) k,
      vl.get-remove m host_id_attribute k,
    )

    pub get-put_os_type :
        (m : pd.Map) (k : String)
        → pd.get (put_os_type pd vs m) k
          ≡ (if os_type_attribute =s= k then expected_os pd vs (pd.get m k) else pd.get m k)
    unfolding put_os_type expected_os
    get-put_os_type m k = elim (Option-cases (pd.get m os_type_attribute)) [
      | inl h ↦ ground (arith, eq_iff os_type_attribute k, h, ap (expected_os pd vs) h)
      | inr (v, h) ↦ ground (
        arith,
        eq_iff os_type_attribute k,
        h,
        ap (expected_os pd vs) h,
        vl.get-set_str m os_type_attribute (normalize_os_type pd vs (pd.str v)) k (ap exists h),
      )
    ]

    and_left : (a b : Bool) → a && b ≡ true → a ≡ true
    and_left true b h = refl
    and_left false b h = h

    joined-gcp_id :
        (project zone instance_id : String)
        → (let joined =
              if not (project =s= "") && (not (zone =s= "") && not (instance_id =s= ""))
              then project ++ₛ ":" ++ₛ zone ++ₛ ":" ++ₛ instance_id
              else "" in
            if not (joined =s= "") then some (pd.new_str joined) else none)
          ≡ gcp_id pd vs project zone instance_id
    unfolding gcp_id
    joined-gcp_id project zone instance_id =
        elim (Bool-cases
          (not (project =s= "") && (not (zone =s= "") && not (instance_id =s= "")))) [
            | inl h ↦
                rw
                  (
                    h,
                    append_nonempty project (":" ++ₛ zone ++ₛ ":" ++ₛ instance_id)
                        (and_left (not (project =s= "")) _ h),
                  )
                  refl
            | inr h ↦ rw (h) refl
          ]

    pub gcp_host_id-gcp_id :
        (m : pd.Map)
        → (if not (get_gcp_host_id pd vs m =s= "")
            then some (pd.new_str (get_gcp_host_id pd vs m))
            else none)
          ≡ gcp_id pd vs
              (str_of pd vs (pd.get m cloud_account_id))
              (str_of pd vs (pd.get m cloud_availability_zone))
              (str_of pd vs (pd.get m host_id_attribute))
    unfolding get_gcp_host_id
    gcp_host_id-gcp_id m =
        joined-gcp_id (str_of pd vs (pd.get m cloud_account_id))
          (str_of pd vs (pd.get m cloud_availability_zone))
          (str_of pd vs (pd.get m host_id_attribute))

    overlay-cons :
        (c : Bool) (v : String) (rest : Option String) (before : Option pd.Value)
        → (c ≡ true → rest ≡ none)
        → overlay pd vs rest (if c then some (pd.new_str v) else before)
          ≡ overlay pd vs (if c then some v else rest) before
    overlay-cons true v none before h = refl
    overlay-cons true v (some w) before h = absurd (ground (arith, h refl))
    overlay-cons false v rest before h = refl

    pub from_eq : (j k : String) → (j =s= k) ≡ true → j ≡ k
    from_eq j k h = ground (arith, eq_iff j k)

    pub put_all-lookup :
        (atts : Dict String) (m : pd.Map) (k : String)
        → Distinct atts
        → pd.get (put_all pd vs atts m) k ≡ overlay pd vs (lookup k atts) (pd.get m k)
    unfolding put_all lookup
    put_all-lookup [] m k d = refl
    put_all-lookup ((j, v) ∷ atts) m k d =
        put_all-lookup atts (pd.put_str m j v) k (d.1)
        ∙ ap (overlay pd vs (lookup k atts)) (laws.get-put_str m j v k)
        ∙ overlay-cons (j =s= k) v (lookup k atts) (pd.get m k)
            (λ h. subst (λ i. lookup i atts ≡ none) (from_eq j k h) (d.0))
