-- ===== src/Discovery/Matches.antt =====
-- Which service is found for a pod.
use mathlib.Core.List.{Memᴰ}
use solarwinds_otel_collecto.Base.{
  ◌≡◌, refl, ap, ◌≤◌, ◌&&◌, ◌||◌, List, [], ◌∷◌, String, Dict, ◌==◌, ltb, length, ℤ, arith, All,
  All-imp, Bool-cases, inl, inr, subst,
}
use solarwinds_otel_collecto.Discovery.Services.{
  ContainerPort, PodContainer, Pod, Service, Candidate, Search, exact, candidates, add_candidate,
  is_selected, name_to_port, service_ports, find_service, best_from, text_before, taken,
  match_service_for_pod,
}
use solarwinds_otel_collecto.Discovery.Ports.{
  Selects, is_selected-Selects, Filtered, service_ports-Filtered,
}

-- The ports of a service that lead to the given ports, of a service that selects the labels.
pub record IsFound (labels : Dict String) (cps : List ContainerPort) (ports : List ℤ)
    (services : List Service) (svc : Service) (svc_ports : List ℤ) : Type 0 where
  pub is_listed : Memᴰ svc services
  pub selects : Selects labels svc.selector
  pub leads : Filtered cps ports svc.ports svc_ports

module _ (labels : Dict String) (cps : List ContainerPort) (ports : List ℤ) where
  IsFound-cons :
      (other svc : Service) (services : List Service) (svc_ports : List ℤ)
      → IsFound labels cps ports services svc svc_ports
      → IsFound labels cps ports (other ∷ services) svc svc_ports
  IsFound-cons other svc services svc_ports f = record {
    is_listed = Memᴰ.tail f.is_listed;
    selects = f.selects;
    leads = f.leads;
  }

  -- Whatever the search returns was found.
  AllFound : List Service → Search → Type 0
  AllFound services (exact svc svc_ports) = IsFound labels cps ports services svc svc_ports
  AllFound services (candidates cs) =
      All (λ c. IsFound labels cps ports services c.service c.svc_ports) cs

  AllFound-cons :
      (other : Service) (services : List Service) (s : Search)
      → AllFound services s
      → AllFound (other ∷ services) s
  unfolding AllFound
  AllFound-cons other services (exact svc svc_ports) f = IsFound-cons other svc services svc_ports f
  AllFound-cons other services (candidates cs) f =
      All-imp (λ c. IsFound-cons other c.service services c.svc_ports) cs f

  AllFound-add_candidate :
      (c : Candidate) (services : List Service) (s : Search)
      → IsFound labels cps ports services c.service c.svc_ports
      → AllFound services s
      → AllFound services (add_candidate c s)
  unfolding AllFound
  AllFound-add_candidate c services (exact svc svc_ports) here f = f
  AllFound-add_candidate c services (candidates cs) here f = (here, f)

  find_service-AllFound :
      (services : List Service)
      → AllFound services (find_service labels (name_to_port cps []) ports services)
  unfolding find_service AllFound
  find_service-AllFound [] = tt
  find_service-AllFound (svc ∷ services) =
      let rest =
        AllFound-cons svc services (find_service labels (name_to_port cps []) ports services)
          (find_service-AllFound services) in
      let svc_ports = service_ports (name_to_port cps []) ports svc.ports in
      elim (Bool-cases (is_selected labels svc)) [
        | inr e ↦ rw (e, find_service) rest
        | inl e ↦
            let here : IsFound labels cps ports (svc ∷ services) svc svc_ports = record {
              is_listed = Memᴰ.head refl;
              selects = is_selected-Selects labels svc e;
              leads = service_ports-Filtered cps ports svc.ports;
            } in
            elim (Bool-cases (length svc_ports == length ports)) [
              | inl g ↦ rw (e, g, find_service) here
              | inr g ↦ elim (Bool-cases (length svc_ports == 0)) [
                | inl k ↦ rw (e, g, k, find_service) rest
                | inr k ↦
                    rw (e, g, k, find_service)
                      (AllFound-add_candidate
                        (record {
                          service = svc;
                          svc_ports = svc_ports;
                          port_matches = length svc_ports;
                        })
                        (svc ∷ services) (find_service labels (name_to_port cps []) ports services)
                        here rest)
              ]
            ]
      ]

best_from-All :
    (P : Candidate → Type 0) (best : Candidate) (cs : List Candidate)
    → P best
    → All P cs
    → P (best_from best cs)
unfolding best_from
best_from-All P best [] h all = h
best_from-All P best (c ∷ cs) h all =
    let next =
      ltb c.port_matches best.port_matches
      || (c.port_matches == best.port_matches && text_before c.service.name best.service.name) in
    elim (Bool-cases next) [
      | inl e ↦ rw (e, best_from) (best_from-All P c cs all.0 all.1)
      | inr e ↦ rw (e, best_from) (best_from-All P best cs h all.1)
    ]

best_from-le :
    (best : Candidate) (cs : List Candidate) → (best_from best cs).port_matches ≤ best.port_matches
unfolding best_from
best_from-le best [] = omega arith
best_from-le best (c ∷ cs) =
    let next =
      ltb c.port_matches best.port_matches
      || (c.port_matches == best.port_matches && text_before c.service.name best.service.name) in
    elim (Bool-cases next) [
      | inl e ↦ rw (e, best_from) (ground (arith, best_from-le c cs))
      | inr e ↦ rw (e, best_from) (best_from-le best cs)
    ]

best_from-others :
    (best : Candidate) (cs : List Candidate)
    → All (λ c. (best_from best cs).port_matches ≤ c.port_matches) cs
unfolding best_from
best_from-others best [] = tt
best_from-others best (c ∷ cs) =
    let next =
      ltb c.port_matches best.port_matches
      || (c.port_matches == best.port_matches && text_before c.service.name best.service.name) in
    let no_more : Candidate → Type 0 = λ b. All (λ d. b.port_matches ≤ d.port_matches) (c ∷ cs) in
    elim (Bool-cases next) [
      | inl e ↦
          let same : best_from c cs ≡ best_from best (c ∷ cs) = rw (e, best_from) refl in
          subst no_more same (best_from-le c cs, best_from-others c cs)
      | inr e ↦
          let same : best_from best cs ≡ best_from best (c ∷ cs) = rw (e, best_from) refl in
          subst no_more same (ground (arith, best_from-le best cs), best_from-others best cs)
    ]

-- Of the services that are candidates, none has fewer ports that match than the one that is taken.
pub best_from-fewest :
    (best : Candidate) (cs : List Candidate)
    → All (λ c. (best_from best cs).port_matches ≤ c.port_matches) (best ∷ cs)
best_from-fewest best cs = (best_from-le best cs, best_from-others best cs)

module _ (labels : Dict String) (cps : List ContainerPort) (ports : List ℤ)
    (services : List Service) where
  taken-IsFound :
      (s : Search) (name : String) (p : ℤ) (ps : List ℤ)
      → AllFound labels cps ports services s
      → taken s ≡ (name, p ∷ ps)
      → (svc : Service) × IsFound labels cps ports services svc (p ∷ ps) × (svc.name ≡ name)
  unfolding AllFound
  taken-IsFound (exact svc svc_ports) name p ps found h =
      (svc, subst (IsFound labels cps ports services svc) (ap (λ r. r.1) h) found, ap (λ r. r.0) h)
  taken-IsFound (candidates []) name p ps found h = absurd (ground arith)
  taken-IsFound (candidates (c ∷ cs)) name p ps found h =
      let best = best_from c cs in
      let good =
        best_from-All (λ d. IsFound labels cps ports services d.service d.svc_ports) c cs found.0
          found.1 in
      (
        best.service,
        subst (IsFound labels cps ports services best.service) (ap (λ r. r.1) h) good,
        ap (λ r. r.0) h,
      )

-- If ports of a service are found for a pod, the service is one of those given, it has a selector
-- that is not empty and all of whose entries are labels of the pod, a missing label counting as the
-- empty text, and the ports are those of its ports, in order, that lead to one of the ports asked for:
-- by the number of their target, by its name, which is that of the last container port with it, or by
-- themselves if the target names no port.
pub match_service_for_pod-IsFound :
    (pod : Pod) (container : PodContainer) (ports : List ℤ) (services : List Service)
    (name : String) (p : ℤ) (ps : List ℤ)
    → match_service_for_pod pod container ports services ≡ (name, p ∷ ps)
    → (svc : Service) × IsFound pod.labels container.ports ports services svc (p ∷ ps)
      × (svc.name ≡ name)
unfolding match_service_for_pod
match_service_for_pod-IsFound pod container ports services name p ps h =
    taken-IsFound pod.labels container.ports ports services
      (find_service pod.labels (name_to_port container.ports []) ports services) name p ps
      (find_service-AllFound pod.labels container.ports ports services) h
