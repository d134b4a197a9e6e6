-- ===== src/K8sEvents/Addresses.antt =====
-- The addresses of a service.
use solarwinds_otel_collecto.Base.{
  ◌≡◌, refl, ◌∙◌, Bool, true, false, not, ◌&&◌, ◌||◌, List, [], ◌∷◌, String, contains,
  if◌then◌else◌, ◌=s=◌, arith, eq_iff,
}
use solarwinds_otel_collecto.K8sEvents.Manifests.{
  EndpointSubset, EndpointManifest, add_address, add_addresses, add_subsets, add_slice_addresses,
  add_endpoints, endpoint_mapping, slice_mapping, EndpointSliceManifest,
}

contains-add_address :
    (k ip : String) (addresses : List String)
    → contains k (add_address ip addresses) ≡ (ip =s= k || contains k addresses)
unfolding contains add_address
contains-add_address k ip [] = refl
contains-add_address k ip (a ∷ addresses) =
    ground (arith, contains-add_address k ip addresses, eq_iff a ip, eq_iff a k, eq_iff ip k)

contains-add_addresses :
    (k : String) (ips addresses : List String)
    → contains k (add_addresses ips addresses) ≡ (contains k ips || contains k addresses)
unfolding contains add_addresses
contains-add_addresses k [] addresses = refl
contains-add_addresses k (ip ∷ ips) addresses =
    contains-add_addresses k ips (add_address ip addresses)
    ∙ ground (arith, contains-add_address k ip addresses)

-- No address stands twice.
unfoldable pub no_repeat : List String → Bool
no_repeat [] = true
no_repeat (a ∷ addresses) = not (contains a addresses) && no_repeat addresses

no_repeat-add_address :
    (ip : String) (addresses : List String)
    → no_repeat addresses ≡ true
    → no_repeat (add_address ip addresses) ≡ true
unfolding no_repeat add_address contains
no_repeat-add_address ip [] h = refl
no_repeat-add_address ip (a ∷ addresses) h = ground (
  arith,
  no_repeat-add_address ip addresses,
  contains-add_address a ip addresses,
  eq_iff a ip,
  eq_iff ip a,
)

no_repeat-add_addresses :
    (ips addresses : List String)
    → no_repeat addresses ≡ true
    → no_repeat (add_addresses ips addresses) ≡ true
unfolding add_addresses
no_repeat-add_addresses [] addresses h = h
no_repeat-add_addresses (ip ∷ ips) addresses h =
    no_repeat-add_addresses ips (add_address ip addresses) (no_repeat-add_address ip addresses h)

-- A subset has the address, ready or not.
unfoldable pub listed : String → List EndpointSubset → Bool
listed k [] = false
listed k (s ∷ subsets) =
    contains k s.addresses || (contains k s.not_ready_addresses || listed k subsets)

-- An endpoint has the address.
unfoldable pub listed_in_slice : String → List (List String) → Bool
listed_in_slice k [] = false
listed_in_slice k (e ∷ endpoints) = contains k e || listed_in_slice k endpoints

contains-add_subsets :
    (k : String) (subsets : List EndpointSubset) (addresses : List String)
    → contains k (add_subsets subsets addresses) ≡ (listed k subsets || contains k addresses)
unfolding add_subsets listed
contains-add_subsets k [] addresses = refl
contains-add_subsets k (s ∷ subsets) addresses =
    let ready = add_addresses s.addresses addresses in
    contains-add_subsets k subsets (add_addresses s.not_ready_addresses ready)
    ∙ ground (
      arith,
      contains-add_addresses k s.not_ready_addresses ready,
      contains-add_addresses k s.addresses addresses,
    )

no_repeat-add_subsets :
    (subsets : List EndpointSubset) (addresses : List String)
    → no_repeat addresses ≡ true
    → no_repeat (add_subsets subsets addresses) ≡ true
unfolding add_subsets
no_repeat-add_subsets [] addresses h = h
no_repeat-add_subsets (s ∷ subsets) addresses h = no_repeat-add_subsets subsets _ (
    no_repeat-add_addresses s.not_ready_addresses _
      (no_repeat-add_addresses s.addresses addresses h))

contains-add_slice_addresses :
    (k : String) (ips addresses : List String)
    → contains k (add_slice_addresses ips addresses)
      ≡ ((not (k =s= "") && contains k ips) || contains k addresses)
unfolding add_slice_addresses contains
contains-add_slice_addresses k [] addresses = ground arith
contains-add_slice_addresses k (ip ∷ ips) addresses =
    contains-add_slice_addresses k ips (if ip =s= "" then addresses else add_address ip addresses)
    ∙ ground (arith, contains-add_address k ip addresses, eq_iff ip k)

no_repeat-add_slice_addresses :
    (ips addresses : List String)
    → no_repeat addresses ≡ true
    → no_repeat (add_slice_addresses ips addresses) ≡ true
unfolding add_slice_addresses
no_repeat-add_slice_addresses [] addresses h = h
no_repeat-add_slice_addresses (ip ∷ ips) addresses h =
    no_repeat-add_slice_addresses ips (if ip =s= "" then addresses else add_address ip addresses)
      (ground (arith, no_repeat-add_address ip addresses))

contains-add_endpoints :
    (k : String) (endpoints : List (List String)) (addresses : List String)
    → contains k (add_endpoints endpoints addresses)
      ≡ ((not (k =s= "") && listed_in_slice k endpoints) || contains k addresses)
unfolding add_endpoints listed_in_slice
contains-add_endpoints k [] addresses = ground arith
contains-add_endpoints k (e ∷ endpoints) addresses =
    contains-add_endpoints k endpoints (add_slice_addresses e addresses)
    ∙ ground (arith, contains-add_slice_addresses k e addresses)

no_repeat-add_endpoints :
    (endpoints : List (List String)) (addresses : List String)
    → no_repeat addresses ≡ true
    → no_repeat (add_endpoints endpoints addresses) ≡ true
unfolding add_endpoints
no_repeat-add_endpoints [] addresses h = h
no_repeat-add_endpoints (e ∷ endpoints) addresses h =
    no_repeat-add_endpoints endpoints (add_slice_addresses e addresses)
      (no_repeat-add_slice_addresses e addresses h)

-- The addresses of a service are those that a subset of its endpoints lists, ready or not, and those
-- of an endpoint slice are the addresses of its endpoints that are not empty; in both, no address
-- stands twice.
pub addresses-listed :
    (m : EndpointManifest) (n : EndpointSliceManifest) (k : String)
    → (contains k (endpoint_mapping m).addresses ≡ listed k m.subsets)
      × (no_repeat (endpoint_mapping m).addresses ≡ true)
      × (contains k (slice_mapping n).addresses ≡ (not (k =s= "") && listed_in_slice k n.endpoints))
      × (no_repeat (slice_mapping n).addresses ≡ true)
unfolding contains no_repeat
addresses-listed m n k = (
  contains-add_subsets k m.subsets [] ∙ ground arith,
  no_repeat-add_subsets m.subsets [] refl,
  contains-add_endpoints k n.endpoints [] ∙ ground arith,
  no_repeat-add_endpoints n.endpoints [] refl,
)
