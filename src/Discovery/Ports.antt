-- ===== src/Discovery/Ports.antt =====
-- What it means that a service selects labels, and that a port of a service leads to a port of a
-- container, independently of the loops of helpers.go.
use mathlib.Core.List.{Memᴰ}
use mathlib.Core.Bool.{false≢true}
use solarwinds_otel_collecto.Base.{
  insert, lookup-insert, if◌then◌else◌, Option, ◌≡◌, ◌≢◌, ◌⊎◌, inl, inr, refl, sym, ◌∙◌, ap, subst,
  Bool, true, false, ◌&&◌, List, [], ◌∷◌, none, some, String, Dict, lookup, ◌=s=◌, ◌==◌, length, ℤ,
  pos, negsuc, ◌==ℤ◌, arith, All, Bool-cases, Option-cases, str_cases, eq_iff,
}
use solarwinds_otel_collecto.Discovery.Services.{
  TargetPort, int_target, string_target, ServicePort, Service, zero_port, target_of, has_port,
  service_ports, name_to_port, ContainerPort, selector_matches, is_selected,
}

-- The value of a label; one that is missing counts as the empty text.
pub LabelIs : Dict String → String → String → Type 0
LabelIs labels k v = (lookup k labels ≡ some v) ⊎ ((lookup k labels ≡ none) × (v ≡ ""))

-- A selector that is not empty, all of whose labels are there.
pub Selects : Dict String → Dict String → Type 0
Selects labels selector =
    (selector ≢ []) × All (λ (entry : String × String). LabelIs labels entry.0 entry.1) selector

both_true : (a b : Bool) → a && b ≡ true → (a ≡ true) × (b ≡ true)
both_true true b h = (refl, h)
both_true false b h = absurd (false≢true h)

selector_matches-All :
    (selector labels : Dict String)
    → selector_matches selector labels ≡ true
    → All (λ (entry : String × String). LabelIs labels entry.0 entry.1) selector
unfolding selector_matches LabelIs
selector_matches-All [] labels h = tt
selector_matches-All ((k, v) ∷ selector) labels h = elim (Option-cases (lookup k labels)) [
  | inl e ↦
      let h' : ("" =s= v) && selector_matches selector labels ≡ true = rw e at h in
      (
        inr (e, sym ((eq_iff "" v).0 (both_true _ _ h').0)),
        selector_matches-All selector labels (both_true _ _ h').1,
      )
  | inr (w, e) ↦
      let h' : (w =s= v) && selector_matches selector labels ≡ true = rw e at h in
      (
        inl (e ∙ ap some ((eq_iff w v).0 (both_true _ _ h').0)),
        selector_matches-All selector labels (both_true _ _ h').1,
      )
]

pub is_selected-Selects :
    (labels : Dict String) (svc : Service)
    → is_selected labels svc ≡ true
    → Selects labels svc.selector
unfolding Selects
is_selected-Selects labels svc h = (
  λ e. absurd (ground (arith, ap length e)),
  selector_matches-All svc.selector labels (ground arith),
)

-- The number of the last port of a container with a name.
unfoldable pub port_named : String → List ContainerPort → Option ℤ
port_named s [] = none
port_named s (p ∷ ps) =
    let later = port_named s ps in
    elim later [ some n ↦ some n | none ↦ if p.name =s= s then some p.container_port else none ]

abbrev orelse : Option ℤ → Option ℤ → Option ℤ
orelse (some n) before = some n
orelse none before = before

orelse-none : (found : Option ℤ) → orelse found none ≡ found
orelse-none none = refl
orelse-none (some n) = refl

-- One more port.
one_more :
    (s : String) (p : ContainerPort) (named : Dict ℤ) (later : Option ℤ)
    → s ≢ ""
    → orelse later
        (lookup s (if p.name =s= "" then named else insert p.name p.container_port named))
      ≡ orelse
          (elim later as (λ _. Option ℤ) [
            | some n ↦ some n
            | none ↦ if p.name =s= s then some p.container_port else none
          ])
          (lookup s named)
one_more s p named (some n) h = refl
one_more s p named none h = elim (str_cases p.name "") [
  | inl (e, f) ↦ elim (str_cases p.name s) [
    | inl (g, _) ↦ absurd (h (sym g ∙ e))
    | inr (_, k) ↦ rw (f, k) refl
  ]
  | inr (_, f) ↦ elim (str_cases p.name s) [
    | inl (_, k) ↦ rw f (lookup-insert p.name s p.container_port named ∙ rw k refl)
    | inr (_, k) ↦ rw f (lookup-insert p.name s p.container_port named ∙ rw k refl)
  ]
]

lookup-name_to_port :
    (s : String) (cps : List ContainerPort) (named : Dict ℤ)
    → s ≢ ""
    → lookup s (name_to_port cps named) ≡ orelse (port_named s cps) (lookup s named)
unfolding name_to_port port_named
lookup-name_to_port s [] named h = refl
lookup-name_to_port s (p ∷ ps) named h =
    lookup-name_to_port s ps (if p.name =s= "" then named else insert p.name p.container_port named)
      h
    ∙ one_more s p named (port_named s ps) h

-- A target that names no port: the number 0, an empty name, or a name without a port.
pub NoTarget : List ContainerPort → TargetPort → Type 0
NoTarget cps (int_target n) = n ≡ zero_port
NoTarget cps (string_target s) =
    (s ≡ "") ⊎ ((port_named s cps ≡ none) ⊎ (port_named s cps ≡ some zero_port))

-- The port of a container to which a port of a service leads: by number, by name, or by the port of
-- the service itself if the target names none.
pub data Leads (cps : List ContainerPort) (sp : ServicePort) : ℤ → Type 0 where
  by_number : {q : ℤ} → sp.target ≡ int_target q → q ≢ zero_port → Leads cps sp q
  by_name :
      {q : ℤ} {s : String}
      → sp.target ≡ string_target s
      → s ≢ ""
      → port_named s cps ≡ some q
      → q ≢ zero_port
      → Leads cps sp q
  by_port : NoTarget cps sp.target → Leads cps sp sp.port

-- Of the ports of a service, in order, those that lead to one of the given ports.
pub data Filtered (cps : List ContainerPort) (ports : List ℤ)
    : List ServicePort → List ℤ → Type 0 where
  none_left : Filtered cps ports [] []
  led :
      {sp : ServicePort} {q : ℤ} {sps : List ServicePort} {ps : List ℤ}
      → Leads cps sp q
      → Memᴰ q ports
      → Filtered cps ports sps ps
      → Filtered cps ports (sp ∷ sps) (sp.port ∷ ps)
  left_out :
      {sp : ServicePort} {q : ℤ} {sps : List ServicePort} {ps : List ℤ}
      → Leads cps sp q
      → All (λ p. p ≢ q) ports
      → Filtered cps ports sps ps
      → Filtered cps ports (sp ∷ sps) ps

ℤ-cases : (a b : ℤ) → ((a ≡ b) × ((a ==ℤ b) ≡ true)) ⊎ ((a ≢ b) × ((a ==ℤ b) ≡ false))
ℤ-cases (pos a) (pos b) = elim (Bool-cases (a == b)) [
  | inl e ↦ inl (ap pos (ground arith), ground arith)
  | inr e ↦ inr (λ h. ground arith, ground arith)
]
ℤ-cases (pos a) (negsuc b) = inr (λ e. ground arith, ground arith)
ℤ-cases (negsuc a) (pos b) = inr (λ e. ground arith, ground arith)
ℤ-cases (negsuc a) (negsuc b) = elim (Bool-cases (a == b)) [
  | inl e ↦ inl (ap negsuc (ground arith), ground arith)
  | inr e ↦ inr (λ h. ground arith, ground arith)
]

has_port-cases :
    (q : ℤ) (ports : List ℤ)
    → (Memᴰ q ports × (has_port q ports ≡ true))
      ⊎ (All (λ p. p ≢ q) ports × (has_port q ports ≡ false))
unfolding has_port
has_port-cases q [] = inr (tt, refl)
has_port-cases q (p ∷ ports) = elim (ℤ-cases p q) [
  | inl (e, f) ↦ inl (Memᴰ.head (sym e), rw (f, has_port) refl)
  | inr (n, f) ↦ elim (has_port-cases q ports) [
    | inl (m, g) ↦ inl (Memᴰ.tail m, rw (f, g, has_port) refl)
    | inr (all, g) ↦ inr ((n, all), rw (f, g, has_port) refl)
  ]
]

target-cases :
    (t : TargetPort) → ((n : ℤ) × (t ≡ int_target n)) ⊎ ((s : String) × (t ≡ string_target s))
target-cases (int_target n) = inl (n, refl)
target-cases (string_target s) = inr (s, refl)

module _ (cps : List ContainerPort) where
  abbrev named : Dict ℤ
  named = name_to_port cps []

  Leads-at :
      (sp : ServicePort) (q : ℤ)
      → target_of named sp ≡ q
      → Leads cps sp q
      → Leads cps sp (target_of named sp)
  Leads-at sp q e l = subst (Leads cps sp) (sym e) l

  looked : (s : String) → s ≢ "" → lookup s named ≡ port_named s cps
  unfolding lookup
  looked s h = lookup-name_to_port s cps [] h ∙ orelse-none (port_named s cps)

  target_of-Leads : (sp : ServicePort) → Leads cps sp (target_of named sp)
  unfolding target_of NoTarget
  target_of-Leads sp = elim (target-cases sp.target) [
    | inl (n, e) ↦ elim (ℤ-cases n zero_port) [
      | inl (z, f) ↦
          Leads-at sp sp.port (rw (e, f, target_of) refl) (by_port (subst (NoTarget cps) (sym e) z))
      | inr (z, f) ↦ Leads-at sp n (rw (e, f, target_of) refl) (by_number e z)
    ]
    | inr (s, e) ↦ elim (str_cases s "") [
      | inl (empty, f) ↦
          Leads-at sp sp.port (rw (e, f, target_of) refl)
            (by_port (subst (NoTarget cps) (sym e) (inl empty)))
      | inr (filled, f) ↦ elim (Option-cases (port_named s cps)) [
        | inl g ↦
            let g' : lookup s named ≡ none = looked s filled ∙ g in
            Leads-at sp sp.port (rw (e, f, g', target_of) refl)
              (by_port (subst (NoTarget cps) (sym e) (inr (inl g))))
        | inr (n, g) ↦
            let g' : lookup s named ≡ some n = looked s filled ∙ g in
            elim (ℤ-cases n zero_port) [
              | inl (z, k) ↦
                  Leads-at sp sp.port (rw (e, f, g', k, target_of) refl)
                    (by_port (subst (NoTarget cps) (sym e) (inr (inr (g ∙ ap some z)))))
              | inr (z, k) ↦ Leads-at sp n (rw (e, f, g', k, target_of) refl) (by_name e filled g z)
            ]
      ]
    ]
  ]

  pub service_ports-Filtered :
      (ports : List ℤ) (sps : List ServicePort)
      → Filtered cps ports sps (service_ports named ports sps)
  unfolding service_ports
  service_ports-Filtered ports [] = none_left
  service_ports-Filtered ports (sp ∷ sps) =
      let rest = service_ports-Filtered ports sps in
      let leads = target_of-Leads sp in
      elim (has_port-cases (target_of named sp) ports) [
        | inl (m, e) ↦
            let same : sp.port ∷ service_ports named ports sps
                ≡ service_ports named ports (sp ∷ sps) =
              rw (e, service_ports) refl in
            subst (Filtered cps ports (sp ∷ sps)) same (led leads m rest)
        | inr (all, e) ↦
            let same : service_ports named ports sps ≡ service_ports named ports (sp ∷ sps) =
              rw (e, service_ports) refl in
            subst (Filtered cps ports (sp ∷ sps)) same (left_out leads all rest)
      ]
