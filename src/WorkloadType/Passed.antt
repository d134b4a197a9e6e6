-- ===== src/WorkloadType/Passed.antt =====
-- What a mapping that `validate` accepts has passed, and the types that it maps.
use solarwinds_otel_collecto.Base.{
  ◌≡◌, refl, sym, ◌∙◌, ap, Bool, true, false, not, ◌&&◌, ◌||◌, List, [], ◌∷◌, String, Dict, ok,
  ok_inj, lookup, has, insert, has-insert, contains, passed, if◌then◌else◌, ◌=s=◌, ◌==◌, length,
  arith, Bool-cases, Result-cases, Option-cases, inl, inr, subst, eq_iff, cut_at,
}
use solarwinds_otel_collecto.WorkloadType.Resources.{
  ResourceKind, is_set, type_attr_empty, no_name_or_address, name_and_address, inconsistent_context,
  expected_types_empty,
}
use solarwinds_otel_collecto.WorkloadType.Mappings.{
  MappingConfig, map_types, all_expected_types, extract_all, own_context, is_consistent,
  extract_context, is_context, data_point_context, validate_mapping,
}

pub has-map_types :
    (valid : Dict (List ResourceKind)) (types : List String) (mapped mapped' : Dict ResourceKind)
    → map_types valid mapped types ≡ ok mapped'
    → (t : String) → (has t mapped || contains t types) ≡ true
    → has t mapped' ≡ true
unfolding map_types contains
has-map_types valid [] mapped mapped' h t c = ap (has t) (sym (ok_inj h)) ∙ ground arith
has-map_types valid (type ∷ types) mapped mapped' h t c = elim (Bool-cases (has type mapped)) [
  | inl here ↦
      has-map_types valid types mapped mapped' (rw (here, map_types) at h) t
        (ground (arith, eq_iff type t))
  | inr new ↦ elim (Option-cases (lookup type valid)) [
    | inl e ↦ absurd (ground arith)
    | inr ([], e) ↦ absurd (ground arith)
    | inr (first ∷ others, e) ↦
        has-map_types valid types (insert type first mapped) mapped' (rw (new, e, map_types) at h) t
          (ground (arith, has-insert type t first mapped, eq_iff type t))
  ]
]

with_default :
    (c : String)
    → is_context c ≡ true
    → is_context (if c =s= "" then data_point_context else c) ≡ true
with_default c h = elim (Bool-cases (c =s= "")) [ inl e ↦ rw e refl | inr e ↦ rw e h ]

is_context-extract_context :
    (attr : String)
    → is_context
        (if (extract_context attr).1 =s= "" then data_point_context else (extract_context attr).1)
      ≡ true
unfolding extract_context
is_context-extract_context attr = elim (Option-cases (cut_at b'.' attr)) [
  | inl e ↦ rw (e, extract_context) refl
  | inr ((before, after), e) ↦ elim (Bool-cases (is_context before)) [
    | inl g ↦ rw (e, g, extract_context) (with_default before g)
    | inr g ↦ rw (e, g, extract_context) refl
  ]
]

one_of : (a b : Bool) → (not a && not b) ≡ false → (a && b) ≡ false → a ≡ not b
one_of true true h g = absurd (ground arith)
one_of true false h g = refl
one_of false true h g = refl
one_of false false h g = absurd (ground arith)

-- What a mapping that is accepted has passed.
pub record IsPassed (valid : Dict (List ResourceKind)) (mapped mapped' : Dict ResourceKind)
    (m n : MappingConfig) : Type 0 where
  pub types_mapped : map_types valid mapped (all_expected_types valid m) ≡ ok mapped'
  pub same_types : n.expected_types ≡ m.expected_types
  pub same_preference : n.prefer_owner_for_pods ≡ m.prefer_owner_for_pods
  pub one_key : is_set n.name_attr ≡ not (is_set n.address_attr)
  pub known_context : is_context n.context ≡ true

is_context-own_context :
    (m : MappingConfig)
    → is_context (
        if own_context (extract_all m) =s= ""
        then data_point_context
        else own_context (extract_all m))
      ≡ true
unfolding extract_all
is_context-own_context m = elim (Bool-cases (is_set (extract_all m).mapping.name_attr)) [
  | inl e ↦ rw e (is_context-extract_context m.name_attr)
  | inr e ↦ rw e (is_context-extract_context m.address_attr)
]

pub validate_mapping-IsPassed :
    (valid : Dict (List ResourceKind)) (mapped mapped' : Dict ResourceKind) (m n : MappingConfig)
    → validate_mapping valid mapped m ≡ ok (n, mapped')
    → IsPassed valid mapped mapped' m n
unfolding validate_mapping extract_all
validate_mapping-IsPassed valid mapped mapped' m n h =
    let x = (extract_all m).mapping in
    let (_, h₁) = passed type_attr_empty (not (is_set m.workload_type_attr)) h in
    let (some_key, h₂) =
      passed no_name_or_address (not (is_set x.name_attr) && not (is_set x.address_attr)) h₁ in
    let (not_both, h₃) = passed name_and_address (is_set x.name_attr && is_set x.address_attr) h₂ in
    let (_, h₄) = passed inconsistent_context (not (is_consistent (extract_all m))) h₃ in
    let (_, h₅) = passed expected_types_empty (length x.expected_types == 0) h₄ in
    elim (Result-cases (map_types valid mapped (all_expected_types valid m))) [
      | inr (e, failed) ↦ absurd (ground (arith, rw failed at h₅))
      | inl (types, mapped_ok) ↦
          let same = ok_inj (rw mapped_ok at h₅) in
          let mapping = ap (λ p. p.0) same in
          record {
            types_mapped = mapped_ok ∙ ap ok (ap (λ p. p.1) same);
            same_types = sym (ap (λ k. k.expected_types) mapping);
            same_preference = sym (ap (λ k. k.prefer_owner_for_pods) mapping);
            one_key =
                subst (λ k. is_set k.name_attr ≡ not (is_set k.address_attr)) mapping
                  (one_of (is_set x.name_attr) (is_set x.address_attr) some_key not_both);
            known_context =
                subst (λ k. is_context k.context ≡ true) mapping (is_context-own_context m);
          }
    ]
