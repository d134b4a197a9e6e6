-- ===== src/EntityRefs/Present.antt =====
-- Which attributes of a resource are there, and the reference of an entry.
use mathlib.Core.List.{Memᴰ}
use solarwinds_otel_collecto.Base.{
  ◌≡◌, refl, true, false, List, [], ◌∷◌, String, Dict, has, insert, has-insert, arith, All,
  Bool-cases, Option-cases, str_cases, inl, inr, ◌⊎◌, ◌≢◌, some, none, keep, ◌=s=◌,
}
use solarwinds_otel_collecto.Connector.Pdata.{Pdata, is_text}
use solarwinds_otel_collecto.EntityRefs.{
  EntityRefConfig, EntityRef, contains_key, all_keys_present, made_ref, types_from,
}

module _ (pd : Pdata) (lower : String → String) (attrs : pd.Map) where
  -- An attribute that is a text and not empty, and one that is not there, no text, or empty.
  pub IsThere : String → Type 0
  IsThere key =
      (v : pd.Value) × (pd.get attrs key ≡ some v)
      × (is_text (pd.type_of v) ≡ true)
      × ((pd.str v =s= "") ≡ false)

  pub IsMissing : String → Type 0
  IsMissing key =
      (pd.get attrs key ≡ none)
      ⊎ ((v : pd.Value) × (pd.get attrs key ≡ some v)
          × ((is_text (pd.type_of v) ≡ false) ⊎ ((pd.str v =s= "") ≡ true)))

  pub contains_key-cases :
      (key : String)
      → (IsThere key × (contains_key pd lower attrs key ≡ true))
        ⊎ (IsMissing key × (contains_key pd lower attrs key ≡ false))
  unfolding contains_key IsThere IsMissing
  contains_key-cases key = elim (Option-cases (pd.get attrs key)) [
    | inl e ↦ inr (inl e, rw (e, contains_key) refl)
    | inr (v, e) ↦ elim (Bool-cases (is_text (pd.type_of v))) [
      | inr t ↦ inr (inr (v, e, inl t), rw (e, t, contains_key) refl)
      | inl t ↦ elim (Bool-cases (pd.str v =s= "")) [
        | inl s ↦ inr (inr (v, e, inr s), rw (e, t, s, contains_key) refl)
        | inr s ↦ inl ((v, e, t, s), rw (e, t, s, contains_key) refl)
      ]
    ]
  ]

  pub all_keys_present-cases :
      (keys : List String)
      → (All IsThere keys × (all_keys_present pd lower attrs keys ≡ true))
        ⊎ (((key : String) × Memᴰ key keys × IsMissing key)
            × (all_keys_present pd lower attrs keys ≡ false))
  unfolding all_keys_present
  all_keys_present-cases [] = inl (tt, refl)
  all_keys_present-cases (k ∷ ks) = elim (contains_key-cases k) [
    | inr (missing, e) ↦ inr ((k, Memᴰ.head refl, missing), rw (e, all_keys_present) refl)
    | inl (here, e) ↦ elim (all_keys_present-cases ks) [
      | inl (there, f) ↦ inl ((here, there), rw (e, f, all_keys_present) refl)
      | inr ((key, m, missing), f) ↦
          inr ((key, Memᴰ.tail m, missing), rw (e, f, all_keys_present) refl)
    ]
  ]

  -- The keys of a list that are there, in order.
  pub data Chosen : List String → List String → Type 0 where
    all_chosen : Chosen [] []
    chosen :
        {k : String} {ks ds : List String} → IsThere k → Chosen ks ds → Chosen (k ∷ ks) (k ∷ ds)
    skipped : {k : String} {ks ds : List String} → IsMissing k → Chosen ks ds → Chosen (k ∷ ks) ds

  pub keep-Chosen : (keys : List String) → Chosen keys (keep (contains_key pd lower attrs) keys)
  unfolding keep
  keep-Chosen [] = all_chosen
  keep-Chosen (k ∷ ks) = elim (contains_key-cases k) [
    | inl (here, e) ↦ rw e (chosen here (keep-Chosen ks))
    | inr (missing, e) ↦ rw e (skipped missing (keep-Chosen ks))
  ]

  -- The reference of an entry: its type, its ID keys, and its description keys that are there.
  pub record IsMade (entry : EntityRefConfig) (ref : EntityRef) : Type 0 where
    pub same_type : ref.type ≡ entry.type
    pub same_keys : ref.id_keys ≡ entry.id_keys
    pub descriptions : Chosen entry.description_keys ref.description_keys

  pub made_ref-IsMade : (entry : EntityRefConfig) → IsMade entry (made_ref pd lower attrs entry)
  made_ref-IsMade entry = record {
    same_type = refl;
    same_keys = refl;
    descriptions = keep-Chosen entry.description_keys;
  }

  pub types_from-cases :
      (k : String) (types : Dict (Unit {0})) (refs : List EntityRef)
      → ((has k (types_from pd lower types refs) ≡ true)
          × ((has k types ≡ true) ⊎ ((r : EntityRef) × Memᴰ r refs × (lower r.type ≡ k))))
        ⊎ ((has k (types_from pd lower types refs) ≡ false)
            × (has k types ≡ false)
            × All (λ (r : EntityRef). lower r.type ≢ k) refs)
  unfolding types_from
  types_from-cases k types [] = elim (Bool-cases (has k types)) [
    | inl e ↦ inl (e, inl e)
    | inr e ↦ inr (e, e, tt)
  ]
  types_from-cases k types (r ∷ refs) =
      let step = has-insert (lower r.type) k tt types in
      elim (types_from-cases k (insert (lower r.type) tt types) refs) [
        | inl (e, inr (other, m, same)) ↦ inl (e, inr (other, Memᴰ.tail m, same))
        | inl (e, inl there) ↦ elim (str_cases (lower r.type) k) [
          | inl (same, _) ↦ inl (e, inr (r, Memᴰ.head refl, same))
          | inr (_, differs) ↦ inl (e, inl (ground (arith, step, differs, there)))
        ]
        | inr (e, absent, rest) ↦ elim (str_cases (lower r.type) k) [
          | inl (_, same) ↦ absurd (ground (arith, step, same, absent))
          | inr (differs, other) ↦ inr (e, ground (arith, step, other, absent), (differs, rest))
        ]
      ]
