-- ===== src/Discovery/Services.antt =====
-- helpers.go: the service of a pod, and the address of a database. The addresses of Go's package net
-- are a parameter.
use Prim.Native.String.{compare}
use text.Mathlib.Text.{is_lt}
use solarwinds_otel_collecto.Base.{
  ℕ, Bool, true, false, not, ◌&&◌, ◌||◌, List, [], ◌∷◌, Option, none, some, String, Dict, lookup,
  insert, if◌then◌else◌, ◌=s=◌, ◌==◌, ltb, length, ℤ, pos, ◌==ℤ◌,
}

-- A port is an int32. A reference to an owner has a controller flag that may be nil.
pub record ContainerPort : Type 0 where
  pub name : String
  pub container_port : ℤ

pub record PodContainer : Type 0 where
  pub image : String
  pub ports : List ContainerPort

pub record Owner : Type 0 where
  pub kind : String
  pub name : String
  pub controller : Option Bool

pub record Pod : Type 0 where
  pub name : String
  pub namespace : String
  pub labels : Dict String
  pub owners : List Owner
  pub containers : List PodContainer

-- `intstr.IntOrString`.
pub data TargetPort : Type 0 where
  int_target : ℤ → TargetPort
  string_target : String → TargetPort

pub record ServicePort : Type 0 where
  pub port : ℤ
  pub target : TargetPort

pub record Service : Type 0 where
  pub name : String
  pub namespace : String
  pub selector : Dict String
  pub ports : List ServicePort
  pub external_name : String

-- `selectorMatches`: a label that is missing is the empty text.
unfoldable pub selector_matches : Dict String → Dict String → Bool
selector_matches [] labels = true
selector_matches ((k, v) ∷ selector) labels =
    (elim (lookup k labels) [ none ↦ "" =s= v | some w ↦ w =s= v ])
    && selector_matches selector labels

-- The map `nameToPort`.
unfoldable pub name_to_port : List ContainerPort → Dict ℤ → Dict ℤ
name_to_port [] named = named
name_to_port (p ∷ ps) named =
    name_to_port ps (if p.name =s= "" then named else insert p.name p.container_port named)

abbrev pub zero_port : ℤ
zero_port = pos 0

-- The port of a container to which a port of a service leads.
unfoldable pub target_of : Dict ℤ → ServicePort → ℤ
target_of named sp =
    let tp : ℤ = elim sp.target [
      | int_target n ↦ n
      | string_target s ↦
          if s =s= "" then zero_port else elim (lookup s named) [ none ↦ zero_port | some v ↦ v ]
    ] in
    if tp ==ℤ zero_port then sp.port else tp

unfoldable pub has_port : ℤ → List ℤ → Bool
has_port p [] = false
has_port p (q ∷ ports) = q ==ℤ p || has_port p ports

-- The ports of a service that lead to one of the given ports.
unfoldable pub service_ports : Dict ℤ → List ℤ → List ServicePort → List ℤ
service_ports named ports [] = []
service_ports named ports (sp ∷ sps) =
    let rest = service_ports named ports sps in
    if has_port (target_of named sp) ports then sp.port ∷ rest else rest

-- `svcMatch`.
pub record Candidate : Type 0 where
  pub service : Service
  pub svc_ports : List ℤ
  pub port_matches : ℕ

-- The loop over the services: the one with as many matches as there are ports, or the candidates.
pub data Search : Type 0 where
  exact : Service → List ℤ → Search
  candidates : List Candidate → Search

abbrev pub add_candidate : Candidate → Search → Search
add_candidate c (exact svc ports) = exact svc ports
add_candidate c (candidates cs) = candidates (c ∷ cs)

abbrev pub is_selected : Dict String → Service → Bool
is_selected labels svc = not (length svc.selector == 0) && selector_matches svc.selector labels

unfoldable pub find_service : Dict String → Dict ℤ → List ℤ → List Service → Search
find_service labels named ports [] = candidates []
find_service labels named ports (svc ∷ services) =
    let rest = find_service labels named ports services in
    let svc_ports = service_ports named ports svc.ports in
    let port_matches = length svc_ports in
    if not (is_selected labels svc)
    then rest
    else if port_matches == length ports
    then exact svc svc_ports
    else if not (port_matches == 0)
    then add_candidate
        (record { service = svc; svc_ports = svc_ports; port_matches = port_matches }) rest
    else rest

-- `<` on texts.
abbrev pub text_before : String → String → Bool
text_before a b = is_lt (compare a b)

-- The last loop, from the best candidate so far.
unfoldable pub best_from : Candidate → List Candidate → Candidate
best_from best [] = best
best_from best (c ∷ cs) =
    best_from
      (if ltb c.port_matches best.port_matches
          || (c.port_matches == best.port_matches && text_before c.service.name best.service.name)
        then c
        else best)
      cs

-- The name and the ports of what the search returned.
abbrev pub taken : Search → String × List ℤ
taken (exact svc svc_ports) = (svc.name, svc_ports)
taken (candidates []) = ("", [])
taken (candidates (c ∷ cs)) = let best = best_from c cs in (best.service.name, best.svc_ports)

unfoldable pub match_service_for_pod : Pod → PodContainer → List ℤ → List Service → String × List ℤ
match_service_for_pod pod container ports services =
    taken (find_service pod.labels (name_to_port container.ports []) ports services)

-- What the source uses of the packages net and strconv: the port of an address that
-- `SplitHostPort` accepts, `JoinHostPort`, and a port in decimal digits.
pub record Addresses : Type 0 where
  pub port_of : String → Option String
  pub join_host_port : String → String → String
  pub itoa : ℤ → String

unfoldable pub build_address_with_port : Addresses → String → ℤ → String
build_address_with_port net endpoint default_port =
    let joined = net.join_host_port endpoint (net.itoa default_port) in
    if default_port ==ℤ zero_port then endpoint else elim (net.port_of endpoint) [
      | none ↦ joined
      | some port ↦ if port =s= "" then joined else endpoint
    ]
