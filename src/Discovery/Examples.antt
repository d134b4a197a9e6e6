-- ===== src/Discovery/Examples.antt =====
-- The theorems about discovery at concrete inputs: a pod with a database, and services that select it.
use solarwinds_otel_collecto.Base.{
  ℕ, ◌≡◌, ◌≤◌, refl, true, List, [], ◌∷◌, none, some, String, lookup, insert, ℤ, pos, All,
}
use solarwinds_otel_collecto.Discovery.Services.{
  PodContainer, Pod, string_target, ServicePort, Service, Candidate, Addresses, name_to_port,
  target_of, has_port, service_ports, selector_matches, find_service, best_from,
  match_service_for_pod,
}
use solarwinds_otel_collecto.Discovery.Workloads.{Client}
use solarwinds_otel_collecto.Discovery.Rules.{ImageRule}
use solarwinds_otel_collecto.Discovery.Images.{discover_pods, discover_by_images}
use solarwinds_otel_collecto.Discovery.Matches
use solarwinds_otel_collecto.Discovery.Matches.{IsFound}
use solarwinds_otel_collecto.Discovery.Once
use solarwinds_otel_collecto.Discovery.Once.{NoRepeat, IsPublished}

abbrev container : PodContainer
container = record {
  image = "mysql:8";
  ports = record { name = "db"; container_port = pos 3306 } ∷ [];
}

abbrev pod : Pod
pod = record {
  name = "db-0";
  namespace = "shop";
  labels = ("app", "db") ∷ [];
  owners = record { kind = "StatefulSet"; name = "db"; controller = some true } ∷ [];
  containers = container ∷ container ∷ [];
}

abbrev service_of : String → List ServicePort → Service
service_of name ports = record {
  name = name;
  namespace = "shop";
  selector = ("app", "db") ∷ [];
  ports = ports;
  external_name = "";
}

abbrev named_port : ℕ → ServicePort
named_port n = record { port = pos n; target = string_target "db" }

abbrev services : List Service
services = service_of "mysql" (named_port 3307 ∷ []) ∷ []

abbrev asked : List ℤ
asked = pos 3306 ∷ []

found : match_service_for_pod pod container asked services ≡ ("mysql", pos 3307 ∷ [])
unfolding match_service_for_pod find_service name_to_port insert service_ports target_of has_port
    selector_matches lookup
found = refl

match_service_for_pod-IsFound_example :
    (svc : Service) × IsFound pod.labels container.ports asked services svc (pos 3307 ∷ [])
    × (svc.name ≡ "mysql")
match_service_for_pod-IsFound_example =
    Matches.match_service_for_pod-IsFound pod container asked services "mysql" (pos 3307) [] found

abbrev candidate : String → List ServicePort → ℕ → Candidate
candidate name ports n = record {
  service = service_of name ports;
  svc_ports = pos 3307 ∷ [];
  port_matches = n;
}

abbrev three : Candidate
three = candidate "a" (named_port 1 ∷ named_port 2 ∷ named_port 3 ∷ []) 3

abbrev two : Candidate
two = candidate "b" (named_port 1 ∷ named_port 2 ∷ []) 2

best_from-fewest_example :
    All (λ c. (best_from three (two ∷ [])).port_matches ≤ c.port_matches) (three ∷ two ∷ [])
best_from-fewest_example = Matches.best_from-fewest three (two ∷ [])

abbrev net : Addresses
net = record { port_of = λ address. none; join_host_port = λ host port. host; itoa = λ n. "3306" }

abbrev client : Client
client = record { replica_set_owners = λ namespace name. none; job_owners = λ namespace name. none }

abbrev rules : List ImageRule
rules =
    record {
      database_type = "mysql";
      patterns = "mysql" ∷ [];
      patterns_compiled = (λ image. true) ∷ [];
      default_port = pos 3306;
    }
    ∷ []

discover_by_images-once_example :
    NoRepeat net (discover_by_images net client services rules (pod ∷ []))
    × All
        (IsPublished net (discover_by_images net client services rules (pod ∷ [])))
        (discover_pods net client services rules (pod ∷ []))
discover_by_images-once_example = Once.discover_by_images-once net client services rules (pod ∷ [])
