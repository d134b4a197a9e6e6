-- ===== src/K8sEvents/Once.antt =====
-- Loops that write a record for each key once: they leave out no key, invent none, and repeat none.
use mathlib.Core.List.Memᴰ
use mathlib.Core.List.{Memᴰ}
use mathlib.Core.Bool.{false≢true}
use solarwinds_otel_collecto.Base.{
  ◌≡◌, refl, sym, ◌∙◌, ap, Bool, true, false, List, [], ◌∷◌, map, Option, some, ◌⊎◌, inl, inr,
  arith, Bool-cases, Option-cases, All, All-imp, ◌≢◌, ◌↔◌, ◌||◌,
}
use solarwinds_otel_collecto.K8sEvents.Manifests.{Container}
use solarwinds_otel_collecto.K8sEvents.Records.{is_seen, each_once}

or_false : (a b : Bool) → a || b ≡ false → (a ≡ false) × (b ≡ false)
or_false true b h = absurd (ground arith)
or_false false b h = (refl, h)

-- Elements of a list that is mapped.
pub map-Memᴰ :
    {A B : Type 0} (f : A → B) {b : B} (xs : List A)
    → Memᴰ b (map f xs)
    → (a : A) × Memᴰ a xs × (b ≡ f a)
map-Memᴰ f [] m = absurd (Memᴰ.not-nil m)
map-Memᴰ f (x ∷ xs) (Memᴰ.head e) = (x, Memᴰ.head refl, e)
map-Memᴰ f (x ∷ xs) (Memᴰ.tail m) = let (a, i, e) = map-Memᴰ f xs m in (a, Memᴰ.tail i, e)

pub Memᴰ-map : {A B : Type 0} (f : A → B) {a : A} {xs : List A} → Memᴰ a xs → Memᴰ (f a) (map f xs)
Memᴰ-map f (Memᴰ.head e) = Memᴰ.head (ap f e)
Memᴰ-map f (Memᴰ.tail m) = Memᴰ.tail (Memᴰ-map f m)

module _ {K : Type 0} (same : K → K → Bool) (key_of : Container → Option K) where
  -- Each entry has the key of its container, which was walked over.
  pub each_once-Memᴰ :
      (k : K) (c : Container) (seen : List K) (containers : List Container)
      → Memᴰ (k, c) (each_once same key_of seen containers)
      → Memᴰ c containers × (key_of c ≡ some k)
  unfolding each_once
  each_once-Memᴰ k c seen [] m = absurd (Memᴰ.not-nil m)
  each_once-Memᴰ k c seen (d ∷ containers) m = elim (Option-cases (key_of d)) [
    | inl e ↦
        let (i, found) = each_once-Memᴰ k c seen containers (rw (e, each_once) at m) in
        (Memᴰ.tail i, found)
    | inr (l, e) ↦ elim (Bool-cases (is_seen same l seen)) [
      | inl g ↦
          let (i, found) = each_once-Memᴰ k c seen containers (rw (e, g, each_once) at m) in
          (Memᴰ.tail i, found)
      | inr g ↦ elim (Memᴰ.cases_cons (rw (e, g, each_once) at m)) [
        | inl eq ↦
            let here = ap (λ p. p.1) eq in
            (Memᴰ.head here, ap key_of here ∙ e ∙ ap some (sym (ap (λ p. p.0) eq)))
        | inr i ↦
            let (j, found) = each_once-Memᴰ k c (l ∷ seen) containers i in (Memᴰ.tail j, found)
      ]
    ]
  ]

  -- No key is repeated, and none was seen before.
  abbrev Fresh : List K → List (K × Container) → Type 0
  Fresh seen [] = Unit
  Fresh seen ((k, c) ∷ entries) = (is_seen same k seen ≡ false) × Fresh (k ∷ seen) entries

  pub each_once-Fresh :
      (seen : List K) (containers : List Container)
      → Fresh seen (each_once same key_of seen containers)
  unfolding each_once
  each_once-Fresh seen [] = tt
  each_once-Fresh seen (d ∷ containers) = elim (Option-cases (key_of d)) [
    | inl e ↦ rw (e, each_once) (each_once-Fresh seen containers)
    | inr (l, e) ↦ elim (Bool-cases (is_seen same l seen)) [
      | inl g ↦ rw (e, g, each_once) (each_once-Fresh seen containers)
      | inr g ↦ rw (e, g, each_once) (g, each_once-Fresh (l ∷ seen) containers)
    ]
  ]

  module _ (same_sound : (a b : K) → same a b ≡ true → a ≡ b) where
    -- A key was seen, or there is an entry for it.
    abbrev Covered : K → List K → List (K × Container) → Type 0
    Covered k seen entries = (is_seen same k seen ≡ true) ⊎ ((c : Container) × Memᴰ (k, c) entries)

    Covered-cons :
        (k l : K) (d : Container) (seen : List K) (entries : List (K × Container))
        → Covered k (l ∷ seen) entries
        → Covered k seen ((l, d) ∷ entries)
    unfolding is_seen
    Covered-cons k l d seen entries (inr (c, m)) = inr (c, Memᴰ.tail m)
    Covered-cons k l d seen entries (inl s) = elim (Bool-cases (same l k)) [
      | inl e ↦ inr (d, Memᴰ.head (ap (λ x. (x, d)) (sym (same_sound l k e))))
      | inr e ↦ inl (ground arith)
    ]

    -- Each container with a key has an entry for it, unless it was seen before.
    pub each_once-Covered :
        (k : K) (c : Container) (seen : List K) (containers : List Container)
        → Memᴰ c containers
        → key_of c ≡ some k
        → Covered k seen (each_once same key_of seen containers)
    unfolding each_once
    each_once-Covered k c seen [] m h = absurd (Memᴰ.not-nil m)
    each_once-Covered k c seen (d ∷ containers) (Memᴰ.head is_first) h =
        let e : key_of d ≡ some k = ap key_of (sym is_first) ∙ h in
        elim (Bool-cases (is_seen same k seen)) [
          | inl g ↦ inl g
          | inr g ↦ rw (e, g, each_once) (inr (d, Memᴰ.head refl))
        ]
    each_once-Covered k c seen (d ∷ containers) (Memᴰ.tail m) h = elim (Option-cases (key_of d)) [
      | inl e ↦ rw (e, each_once) (each_once-Covered k c seen containers m h)
      | inr (l, e) ↦ elim (Bool-cases (is_seen same l seen)) [
        | inl g ↦ rw (e, g, each_once) (each_once-Covered k c seen containers m h)
        | inr g ↦
            rw (e, g, each_once)
              (Covered-cons k l d seen _ (each_once-Covered k c (l ∷ seen) containers m h))
      ]
    ]

    -- Each key of a container that is walked over has an entry.
    pub each_once-entry :
        (k : K) (c : Container) (containers : List Container)
        → Memᴰ c containers
        → key_of c ≡ some k
        → (d : Container) × Memᴰ (k, d) (each_once same key_of [] containers)
    unfolding is_seen
    each_once-entry k c containers m h = elim (each_once-Covered k c [] containers m h) [
      | inl s ↦ absurd (false≢true s)
      | inr e ↦ e
    ]

-- No two entries have equal keys.
pub NoRepeat : {K : Type 0} → List (K × Container) → Type 0
NoRepeat [] = Unit
NoRepeat (entry ∷ entries) = All (λ e. entry.0 ≢ e.0) entries × NoRepeat entries

-- What a loop owes: each entry is a container that was walked over with its key, each container
-- with a key has an entry for it, and no key has two entries.
pub record IsOnce {K : Type 0} (key_of : Container → Option K) (containers : List Container)
    (entries : List (K × Container)) : Type 0 where
  pub sound :
      (k : K) (c : Container) → Memᴰ (k, c) entries → Memᴰ c containers × (key_of c ≡ some k)
  pub covers :
      (k : K) (c : Container)
      → Memᴰ c containers
      → key_of c ≡ some k
      → (d : Container) × Memᴰ (k, d) entries
  pub once : NoRepeat entries

module _ {K : Type 0} (same : K → K → Bool) (key_of : Container → Option K)
    (decides : (a b : K) → (same a b ≡ true) ↔ (a ≡ b)) where
  unseen-differs : (k : K) (seen : List K) → is_seen same k seen ≡ false → All (λ s. s ≢ k) seen
  unfolding is_seen
  unseen-differs k [] h = tt
  unseen-differs k (s ∷ seen) h = (
    λ e. absurd (false≢true (sym (or_false (same s k) _ h).0 ∙ (decides s k).1 e)),
    unseen-differs k seen (or_false (same s k) _ h).1,
  )

  -- The keys of the entries differ from those that were seen.
  New : List K → List (K × Container) → Type 0
  New seen = All (λ e. All (λ s. s ≢ e.0) seen)

  Fresh-New :
      (seen : List K) (entries : List (K × Container))
      → Fresh same key_of seen entries
      → New seen entries × NoRepeat entries
  unfolding New NoRepeat
  Fresh-New seen [] h = (tt, tt)
  Fresh-New seen ((k, c) ∷ entries) (here, h) =
      let (new, distinct) = Fresh-New (k ∷ seen) entries h in
      (
        (unseen-differs k seen here, All-imp (λ e n. n.1) entries new),
        (All-imp (λ e n. n.0) entries new, distinct),
      )

  -- If `same` decides the equality of keys, a loop has an entry for each key of the containers that
  -- it walks over, for no other, and no two entries with equal keys.
  pub each_once-IsOnce :
      (containers : List Container) → IsOnce key_of containers (each_once same key_of [] containers)
  each_once-IsOnce containers = record {
    sound = λ k c. each_once-Memᴰ same key_of k c [] containers;
    covers = λ k c. each_once-entry same key_of (λ a b. (decides a b).0) k c containers;
    once = (Fresh-New [] _ (each_once-Fresh same key_of [] containers)).1;
  }
