-- ===== src/Solarwinds/HostAttributes.antt =====
-- processor/solarwindsprocessor/internal/host_attributes_decorator.go. Errors that are only logged
-- leave no trace.
use solarwinds_otel_collecto.Base.{
  ◌≡◌, Bool, true, false, not, ◌&&◌, Option, none, some, String, Result, ok, err, if◌then◌else◌,
  ◌=s=◌, ◌++ₛ◌,
}
use solarwinds_otel_collecto.Connector.Pdata.{Pdata}

-- What this processor uses of pcommon besides: `Map.Remove`, `Value.SetStr` on the value that
-- `Map.Get` returned for a key, and `Value.Str` of the value it returns for a key that is missing.
-- `equal_fold` is `strings.EqualFold`.
pub record Values (pd : Pdata) : Type 0 where
  pub remove : pd.Map → String → pd.Map
  pub set_str : pd.Map → String → String → pd.Map
  pub missing_str : String
  pub equal_fold : String → String → Bool

abbrev pub exists : {A : Type 0} → Option A → Bool
exists none = false
exists (some _) = true

pub record ValuesLaws (pd : Pdata) (vs : Values pd) : Type 0 where
  pub get-remove :
      (m : pd.Map) (k j : String)
      → pd.get (vs.remove m k) j ≡ (if k =s= j then none else pd.get m j)
  pub get-set_str :
      (m : pd.Map) (k v j : String)
      → exists (pd.get m k) ≡ true
      → pd.get (vs.set_str m k v) j ≡ (if k =s= j then some (pd.new_str v) else pd.get m j)

abbrev pub cloud_provider_attribute : String
cloud_provider_attribute = "cloud.provider"

abbrev pub host_id_attribute : String
host_id_attribute = "host.id"

abbrev pub host_bios_uuid : String
host_bios_uuid = "host.bios-uuid"

abbrev pub host_name_attribute : String
host_name_attribute = "host.name"

abbrev pub os_type_attribute : String
os_type_attribute = "os.type"

abbrev pub cloud_account_id : String
cloud_account_id = "cloud.account.id"

abbrev pub cloud_availability_zone : String
cloud_availability_zone = "cloud.availability_zone"

pub record HostDecoration : Type 0 where
  pub enabled : Bool
  pub on_prem_override_id : String

-- `container.Provider`: the instance ID of the container, or an error.
pub record Provider : Type 0 where
  pub read_container_instance_id : Result String String
  pub is_run_in_containerd : Bool

pub record HostAttributesDecorator : Type 0 where
  pub container_id : String
  pub is_run_in_containerd : Bool
  pub on_prem_override_id : String

unfoldable pub new_host_attributes : HostDecoration → Provider → HostAttributesDecorator
new_host_attributes hd cp = record {
  container_id = elim cp.read_container_instance_id [ ok id ↦ id | err _ ↦ "" ];
  is_run_in_containerd = cp.is_run_in_containerd;
  on_prem_override_id = hd.on_prem_override_id;
}

module _ (pd : Pdata) (vs : Values pd) where
  -- `Str` of what `Get` returns.
  abbrev pub str_of : Option pd.Value → String
  str_of none = vs.missing_str
  str_of (some v) = pd.str v

  unfoldable pub get_host_id : HostAttributesDecorator → pd.Map → String
  get_host_id h attributes =
      let bios_uuid = pd.get attributes host_bios_uuid in
      let received = pd.get attributes host_id_attribute in
      if not (h.on_prem_override_id =s= "")
      then h.on_prem_override_id
      else if exists bios_uuid && not (str_of bios_uuid =s= "")
      then str_of bios_uuid
      else if exists received && not (str_of received =s= "")
      then str_of received
      else ""

  unfoldable pub normalize_os_type : String → String
  normalize_os_type original = if vs.equal_fold original "windows" then "Windows" else "Linux"

  unfoldable pub get_gcp_host_id : pd.Map → String
  get_gcp_host_id attributes =
      let project_id = str_of (pd.get attributes cloud_account_id) in
      let zone_id = str_of (pd.get attributes cloud_availability_zone) in
      let instance_id = str_of (pd.get attributes host_id_attribute) in
      if not (project_id =s= "") && (not (zone_id =s= "") && not (instance_id =s= ""))
      then project_id ++ₛ ":" ++ₛ zone_id ++ₛ ":" ++ₛ instance_id
      else ""

  -- `host.id` becomes the client's ID outside a cloud, and in a container. The two tests of the
  -- source are one after the other.
  unfoldable pub put_host_id : HostAttributesDecorator → Bool → String → pd.Map → pd.Map
  put_host_id h cloud id attributes =
      let outside = if not cloud then pd.put_str attributes host_id_attribute id else attributes in
      if cloud && not (h.container_id =s= "")
      then pd.put_str outside host_id_attribute id
      else outside

  unfoldable pub put_host_name : HostAttributesDecorator → String → pd.Map → pd.Map
  put_host_name h provider attributes =
      if provider =s= "aws" && h.is_run_in_containerd
      then if h.container_id =s= ""
        then attributes
        else pd.put_str attributes host_name_attribute h.container_id
      else attributes

  unfoldable pub put_gcp_host_id : String → pd.Map → pd.Map
  put_gcp_host_id provider attributes =
      let id = get_gcp_host_id attributes in
      if provider =s= "gcp"
      then if not (id =s= "")
        then pd.put_str attributes host_id_attribute id
        else vs.remove attributes host_id_attribute
      else attributes

  unfoldable pub put_os_type : pd.Map → pd.Map
  put_os_type attributes = elim (pd.get attributes os_type_attribute) [
    | none ↦ attributes
    | some v ↦ vs.set_str attributes os_type_attribute (normalize_os_type (pd.str v))
  ]

  -- A decorator that is nil does nothing.
  unfoldable pub apply_attributes : Option HostAttributesDecorator → pd.Map → pd.Map
  apply_attributes none attributes = attributes
  apply_attributes (some h) attributes =
      let cloud = pd.get attributes cloud_provider_attribute in
      let host_id = get_host_id h attributes in
      put_os_type (
        put_gcp_host_id (str_of cloud)
          (put_host_name h (str_of cloud) (put_host_id h (exists cloud) host_id attributes)))
