-- ===== src/Solarwinds/Expected.antt =====
-- What the attributes of a resource are to be, read off the resource before it is processed.
use solarwinds_otel_collecto.Base.{
  not, ◌&&◌, Option, none, some, String, lookup, if◌then◌else◌, ◌=s=◌, ◌++ₛ◌,
}
use solarwinds_otel_collecto.Connector.Pdata.{Pdata}
use solarwinds_otel_collecto.Solarwinds.HostAttributes.{
  Values, HostAttributesDecorator, exists, str_of, host_id_attribute, host_name_attribute,
  os_type_attribute, cloud_provider_attribute, cloud_account_id, cloud_availability_zone,
  get_host_id, normalize_os_type,
}
use solarwinds_otel_collecto.Solarwinds.Processor.{SolarwindsProcessor}

module _ (pd : Pdata) (vs : Values pd) where
  -- The host ID that GCP leaves: made of three texts, or none if one is empty.
  unfoldable pub gcp_id : String → String → String → Option pd.Value
  gcp_id project zone instance_id =
      if not (project =s= "") && (not (zone =s= "") && not (instance_id =s= ""))
      then some (pd.new_str (project ++ₛ ":" ++ₛ zone ++ₛ ":" ++ₛ instance_id))
      else none

  -- The host ID before GCP is looked at: the client's, but the machine's own in a cloud outside a
  -- container.
  unfoldable pub own_id : HostAttributesDecorator → pd.Map → Option pd.Value
  own_id h m =
      if exists (pd.get m cloud_provider_attribute) && h.container_id =s= ""
      then pd.get m host_id_attribute
      else some (pd.new_str (get_host_id pd vs h m))

  unfoldable pub expected_id : HostAttributesDecorator → pd.Map → Option pd.Value
  expected_id h m =
      if str_of pd vs (pd.get m cloud_provider_attribute) =s= "gcp"
      then gcp_id (str_of pd vs (pd.get m cloud_account_id))
          (str_of pd vs (pd.get m cloud_availability_zone)) (str_of pd vs (own_id h m))
      else own_id h m

  unfoldable pub expected_name : HostAttributesDecorator → pd.Map → Option pd.Value
  expected_name h m =
      if (str_of pd vs (pd.get m cloud_provider_attribute) =s= "aws" && h.is_run_in_containerd)
        && not (h.container_id =s= "")
      then some (pd.new_str h.container_id)
      else pd.get m host_name_attribute

  unfoldable pub expected_os : Option pd.Value → Option pd.Value
  expected_os none = none
  expected_os (some v) = some (pd.new_str (normalize_os_type pd vs (pd.str v)))

  -- What the attributes of a host are, attribute by attribute.
  unfoldable pub expected_host : Option HostAttributesDecorator → pd.Map → String → Option pd.Value
  expected_host none m k = pd.get m k
  expected_host (some h) m k =
      if host_id_attribute =s= k
      then expected_id h m
      else if host_name_attribute =s= k
      then expected_name h m
      else if os_type_attribute =s= k
      then expected_os (pd.get m k)
      else pd.get m k

  -- A configured text on top of a value, if there is one.
  abbrev pub overlay : Option String → Option pd.Value → Option pd.Value
  overlay none before = before
  overlay (some v) before = some (pd.new_str v)

  unfoldable pub expected : SolarwindsProcessor → pd.Map → String → Option pd.Value
  expected p m k =
      overlay (lookup k p.cfg.resource_attributes) (expected_host p.host_attributes m k)
