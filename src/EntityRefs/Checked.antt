-- ===== src/EntityRefs/Checked.antt =====
-- What a configuration is that `Validate` accepts.
use solarwinds_otel_collecto.Base.{
  ℕ, suc, ◌≡◌, refl, sym, true, false, ◌&&◌, ◌||◌, List, [], ◌∷◌, none, String, Dict, has, insert,
  has-insert, ok, ok_inj, ◌=s=◌, ◌==◌, length, arith, All, All-imp, Option-cases, Result-cases, inl,
  inr, eq_refl, eq_iff, Bool-cases, subst, ◌∙◌,
}
use mathlib.Core.Bool.{false≢true}
use solarwinds_otel_collecto.EntityRefs.{
  EntityRefConfig, Config, entry_error, validate_entries, validate, action_insert,
  action_remove_all, find_duplicated_item, find_overlapping_item, duplicated_from, set_of, first_in,
}

-- A text is none of a list.
abbrev pub Without : String → List String → Type 0
Without x = All (λ y. (x =s= y) ≡ false)

-- No text stands twice.
abbrev pub NoRepeat : List String → Type 0
NoRepeat [] = Unit
NoRepeat (x ∷ xs) = Without x xs × NoRepeat xs

-- No text stands in both lists.
abbrev pub Disjoint : List String → List String → Type 0
Disjoint xs ys = All (λ x. Without x ys) xs

duplicated_from-NoRepeat :
    (seen : Dict (Unit {0})) (items : List String)
    → duplicated_from seen items ≡ none
    → All (λ x. has x seen ≡ false) items × NoRepeat items
unfolding duplicated_from
duplicated_from-NoRepeat seen [] h = (tt, tt)
duplicated_from-NoRepeat seen (item ∷ items) h = elim (Bool-cases (has item seen)) [
  | inl old ↦ absurd (ground arith)
  | inr new ↦
      let (unseen, distinct) = duplicated_from-NoRepeat (insert item tt seen) items (rw new at h) in
      (
        (new, All-imp (λ o u. ground (arith, u, has-insert item o tt seen)) items unseen),
        (All-imp (λ o u. ground (arith, u, has-insert item o tt seen)) items unseen, distinct),
      )
]

find_duplicated_item-NoRepeat :
    (items : List String) → find_duplicated_item items ≡ none → NoRepeat items
unfolding find_duplicated_item
find_duplicated_item-NoRepeat items h = (duplicated_from-NoRepeat [] items h).1

set_of-kept :
    (k : String) (items : List String) (set : Dict (Unit {0}))
    → has k set ≡ true
    → has k (set_of items set) ≡ true
unfolding set_of
set_of-kept k [] set h = h
set_of-kept k (item ∷ items) set h =
    set_of-kept k items (insert item tt set) (ground (arith, h, has-insert item k tt set))

set_of-has :
    (items : List String) (set : Dict (Unit {0})) → All (λ x. has x (set_of items set) ≡ true) items
unfolding set_of
set_of-has [] set = tt
set_of-has (item ∷ items) set = (
  set_of-kept item items (insert item tt set)
      (ground (arith, eq_refl item, has-insert item item tt set)),
  set_of-has items (insert item tt set),
)

first_in-none :
    (set : Dict (Unit {0})) (items : List String)
    → first_in set items ≡ none
    → (x : String) → has x set ≡ true
    → Without x items
unfolding first_in
first_in-none set [] h x there = tt
first_in-none set (item ∷ items) h x there = elim (Bool-cases (has item set)) [
  | inl old ↦ absurd (ground arith)
  | inr new ↦ (
    elim (Bool-cases (x =s= item)) [
      | inr e ↦ e
      | inl e ↦
          absurd (false≢true (sym new ∙ subst (λ k. has k set ≡ true) ((eq_iff x item).0 e) there))
    ],
    first_in-none set items (rw new at h) x there,
  )
]

find_overlapping_item-Disjoint :
    (a b : List String) → find_overlapping_item a b ≡ none → Disjoint a b
unfolding find_overlapping_item
find_overlapping_item-Disjoint a b h = All-imp (first_in-none (set_of a []) b h) a (set_of-has a [])

module _ (lower : String → String) where
  -- An entry with a type, ID keys, no key twice in a list and none in both, and its type in lower case.
  pub record IsChecked (er : EntityRefConfig) : Type 0 where
    pub normalized : er.normalized_type ≡ lower er.type
    pub has_type : (er.type =s= "") ≡ false
    pub has_keys : (length er.id_keys == 0) ≡ false
    pub distinct_keys : NoRepeat er.id_keys
    pub distinct_descriptions : NoRepeat er.description_keys
    pub disjoint_keys : Disjoint er.id_keys er.description_keys

  -- No two entries have the same type in lower case.
  abbrev pub DistinctTypes : List EntityRefConfig → Type 0
  DistinctTypes [] = Unit
  DistinctTypes (er ∷ ers) =
      All (λ (other : EntityRefConfig). (er.normalized_type =s= other.normalized_type) ≡ false) ers
      × DistinctTypes ers

  entry_error-IsChecked :
      (i : ℕ) (seen : Dict ℕ) (er : EntityRefConfig)
      → entry_error lower i seen er ≡ none
      → IsChecked (record er { normalized_type = lower er.type })
        × (has (lower er.type) seen ≡ false)
  unfolding entry_error has
  entry_error-IsChecked i seen er h = (
    record {
      normalized = refl;
      has_type = ground arith;
      has_keys = ground arith;
      distinct_keys = find_duplicated_item-NoRepeat er.id_keys (ground arith);
      distinct_descriptions = find_duplicated_item-NoRepeat er.description_keys (ground arith);
      disjoint_keys = find_overlapping_item-Disjoint er.id_keys er.description_keys (ground arith);
    },
    ground arith,
  )

  validate_entries-IsChecked :
      (i : ℕ) (seen : Dict ℕ) (ers checked : List EntityRefConfig)
      → validate_entries lower i seen ers ≡ ok checked
      → All IsChecked checked
        × DistinctTypes checked
        × All (λ (er : EntityRefConfig). has er.normalized_type seen ≡ false) checked
  unfolding validate_entries
  validate_entries-IsChecked i seen [] checked h = rw (sym (ok_inj h)) (tt, tt, tt)
  validate_entries-IsChecked i seen (er ∷ ers) checked h =
      let seen' = insert (lower er.type) i seen in
      let er' = record er { normalized_type = lower er.type } in
      elim (Option-cases (entry_error lower i seen er)) [
        | inr (e, failed) ↦ absurd (ground arith)
        | inl fine ↦ elim (Result-cases (validate_entries lower (suc i) seen' ers)) [
          | inr (e, failed) ↦ absurd (ground arith)
          | inl (rest, found) ↦
              let same : er' ∷ rest ≡ checked = ok_inj (rw (fine, found, validate_entries) at h) in
              let (all, distinct, unseen) =
                validate_entries-IsChecked (suc i) seen' ers rest found in
              let (here, new) = entry_error-IsChecked i seen er fine in
              rw (sym same) (
                (here, all),
                (
                  All-imp
                      (λ o u.
                        ground (arith, u, has-insert (lower er.type) o.normalized_type i seen))
                      rest unseen,
                  distinct,
                ),
                (
                  new,
                  All-imp
                      (λ o u.
                        ground (arith, u, has-insert (lower er.type) o.normalized_type i seen))
                      rest unseen,
                ),
              )
        ]
      ]

  -- If `Validate` accepts a configuration, the action is one of the two and stays, without entries
  -- for "remove_all". Each entry has a type and ID keys, no key twice in a list and none in both, with the type in lower case
  -- filled in, and no two types are the same in lower case.
  pub validate-IsChecked :
      (c c' : Config)
      → validate lower c ≡ ok c'
      → (c'.action ≡ c.action)
        × ((c.action =s= action_insert)
              || ((c.action =s= action_remove_all) && (length c.entity_refs == 0))
            ≡ true)
        × All IsChecked c'.entity_refs
        × DistinctTypes c'.entity_refs
  unfolding validate
  validate-IsChecked c c' h = elim (Result-cases (validate_entries lower 0 [] c.entity_refs)) [
    | inr (e, failed) ↦ absurd (ground arith)
    | inl (checked, found) ↦
        let (all, distinct, _) = validate_entries-IsChecked 0 [] c.entity_refs checked found in
        let same : c'.entity_refs ≡ checked = ground arith in
        (ground arith, ground arith, rw same all, rw same distinct)
  ]
