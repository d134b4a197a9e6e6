-- ===== src/Connector/Handlers/Loops.antt =====
-- The loops of a call: a loop of loops is one loop.
use mathlib.Core.Path.{fun_ext}
use solarwinds_otel_collecto.Base.{
  ◌≡◌, refl, sym, ◌∙◌, ap, List, [], ◌∷◌, ◌++◌, map, Option, none, some, Option-cases, inl, inr,
}
use solarwinds_otel_collecto.Connector.Pdata.{Pdata}
use solarwinds_otel_collecto.Connector.Keys.{Marshal}
use solarwinds_otel_collecto.Connector.Storage.{Cache, StoredEntity, StoredRelationship}
use solarwinds_otel_collecto.Connector.Handlers.{HandlerError, State, fold_until}

abbrev pub flat {ℓ κ} : {A : Type ℓ} {B : Type κ} → (A → List B) → List A → List B
flat g [] = []
flat g (x ∷ xs) = g x ++ flat g xs

module _ (pd : Pdata) (marshal : Marshal pd) (ec : Cache (StoredEntity pd))
    (rc : Cache StoredRelationship) where
  abbrev pub Run : Type 0
  Run = State pd marshal ec rc × Option HandlerError

  -- What follows a loop, unless it ended with an error.
  abbrev pub and_then : Run → (State pd marshal ec rc → Run) → Run
  and_then r f = elim r.1 [ none ↦ f r.0 | some e ↦ (r.0, some e) ]

  pub fold_until-append {ℓ} :
      {A : Type ℓ} (f : A → State pd marshal ec rc → Run) (xs ys : List A)
      (s : State pd marshal ec rc)
      → fold_until pd marshal ec rc f (xs ++ ys) s
        ≡ and_then (fold_until pd marshal ec rc f xs s) (fold_until pd marshal ec rc f ys)
  unfolding fold_until
  fold_until-append f [] ys s = refl
  fold_until-append f (x ∷ xs) ys s = elim (Option-cases (f x s).1) [
    | inl e ↦ rw (e, fold_until) (fold_until-append f xs ys (f x s).0)
    | inr (failed, e) ↦ rw (e, fold_until)
  ]

  pub fold_until-flat {ℓ κ} :
      {A : Type ℓ} {B : Type κ} (f : B → State pd marshal ec rc → Run) (g : A → List B)
      (h : A → State pd marshal ec rc → Run) (xs : List A) (s : State pd marshal ec rc)
      → ((x : A) (t : State pd marshal ec rc) → h x t ≡ fold_until pd marshal ec rc f (g x) t)
      → fold_until pd marshal ec rc h xs s ≡ fold_until pd marshal ec rc f (flat g xs) s
  unfolding fold_until
  fold_until-flat f g h [] s same = refl
  fold_until-flat f g h (x ∷ xs) s same =
      ap (λ r. and_then r (fold_until pd marshal ec rc h xs)) (same x s)
      ∙ ap (and_then (fold_until pd marshal ec rc f (g x) s))
          (fun_ext (λ t. fold_until-flat f g h xs t same))
      ∙ sym (fold_until-append f (g x) (flat g xs) s)

  pub fold_until-map {ℓ κ} :
      {A : Type ℓ} {B : Type κ} (f : B → State pd marshal ec rc → Run) (g : A → B) (xs : List A)
      (s : State pd marshal ec rc)
      → fold_until pd marshal ec rc (λ x. f (g x)) xs s ≡ fold_until pd marshal ec rc f (map g xs) s
  unfolding fold_until
  fold_until-map f g [] s = refl
  fold_until-map f g (x ∷ xs) s = ap (and_then (f (g x) s)) (fun_ext (λ t. fold_until-map f g xs t))
