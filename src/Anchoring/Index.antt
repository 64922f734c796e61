-- ===== src/Anchoring/Index.antt =====
-- packages/contracts/contracts/MaterialRegistry.sol: the index from hashes to materials.
use text.Mathlib.Text.{◌==◌ as str_eq}
use text.Mathlib.TextEquality.{eq_iff}
use trace_public.Common.{
  ℕ, true, false, none, some, String, ◌==◌, ◌≡◌, ◌⊎◌, inl, inr, refl, ==_self, ==_iff, Bool-cases,
  sym, ◌∙◌, ap, some-injective, true_is_false,
}
use trace_public.Anchoring.Registry.{PassportRecord, Registry, with_passport, with_hash, with_owner}

-- The index names, for each hash, the material that holds it, and 0 for the others.
pub record IsIndexed (r : Registry) : Type 0 where
  pub holder :
      (hash : String)
      → ((r.hash_to_id hash == 0) ≡ true)
        ⊎ ((rec : PassportRecord) × (r.records (r.hash_to_id hash) ≡ some rec)
            × (rec.data_hash ≡ hash))
  pub entry :
      (id : ℕ) (rec : PassportRecord)
      → r.records id ≡ some rec
      → (r.hash_to_id rec.data_hash ≡ id) × ((id == 0) ≡ false)

-- A hash that no material but this one has, and not this one either, is free.
pub free_hash :
    (r : Registry) (id : ℕ) (hash : String)
    → IsIndexed r
    → ((rec : PassportRecord) → r.records id ≡ some rec → rec.data_hash ≡ hash → ⊥)
    → ((j : ℕ) (rec : PassportRecord) → r.records j ≡ some rec → rec.data_hash ≡ hash → j ≡ id)
    → (r.hash_to_id hash == 0) ≡ true
free_hash r id hash indexed other alone = elim (indexed.holder hash) [
  | inl free ↦ free
  | inr (rec, found, same) ↦
      let here = alone (r.hash_to_id hash) rec found same in
      absurd (other rec (sym (ap r.records here) ∙ found) same)
]

text-cases : (s t : String) → (s ≡ t) ⊎ (str_eq s t ≡ false)
text-cases s t = elim (Bool-cases (str_eq s t)) [
  | inl same ↦ inl ((eq_iff s t).0 same)
  | inr other ↦ inr other
]

id-cases : (j id : ℕ) → (j ≡ id) ⊎ ((j == id) ≡ false)
id-cases j id = elim (Bool-cases (j == id)) [
  | inl same ↦ inl ((==_iff j id).0 same)
  | inr other ↦ inr other
]

str_eq_self : (s : String) → str_eq s s ≡ true
str_eq_self s = (eq_iff s s).1 refl

-- No material that is registered has a hash that is free.
taken_hash :
    (r : Registry) (j : ℕ) (rec : PassportRecord) (hash : String)
    → IsIndexed r
    → r.records j ≡ some rec
    → (r.hash_to_id hash == 0) ≡ true
    → rec.data_hash ≡ hash
    → ⊥
taken_hash r j rec hash indexed found free same =
    let (at, named) = indexed.entry j rec found in
    let here : r.hash_to_id hash ≡ j = ap r.hash_to_id (sym same) ∙ at in
    true_is_false (sym (sym (ap (λ n. n == 0) here) ∙ free) ∙ named)

module _ (r : Registry) (indexed : IsIndexed r) (id : ℕ) (hash : String)
    (free : (r.hash_to_id hash == 0) ≡ true) where
  module _ (sender : String) (vacant : r.records id ≡ none) (named : (id == 0) ≡ false) where
    abbrev added : Registry
    added = with_passport sender id hash r

    added-holder :
        (h : String)
        → ((added.hash_to_id h == 0) ≡ true)
          ⊎ ((rec : PassportRecord) × (added.records (added.hash_to_id h) ≡ some rec)
              × (rec.data_hash ≡ h))
    added-holder h = elim (text-cases h hash) [
      | inl same ↦ rw (same, str_eq_self hash, ==_self id) (inr (_, refl, refl))
      | inr other ↦ rw other (elim (indexed.holder h) [
        | inl none_has ↦ inl none_has
        | inr (rec, found, its) ↦ elim (id-cases (r.hash_to_id h) id) [
          | inl here ↦ absurd (let e = sym vacant ∙ (sym (ap r.records here) ∙ found) in cc)
          | inr elsewhere ↦ inr (rec, rw elsewhere found, its)
        ]
      ])
    ]

    added-entry :
        (j : ℕ) (rec : PassportRecord)
        → added.records j ≡ some rec
        → (added.hash_to_id rec.data_hash ≡ j) × ((j == 0) ≡ false)
    added-entry j rec found = elim (id-cases j id) [
      | inl here ↦
          let new : some (record { data_hash = hash; owner = sender }) ≡ some rec =
            sym (rw (here, ==_self id) refl) ∙ found in
          let its : hash ≡ rec.data_hash =
            ap (λ (z : PassportRecord). z.data_hash) (some-injective new) in
          rw (← its, here, str_eq_self hash) (refl, named)
      | inr elsewhere ↦
          let old : r.records j ≡ some rec = sym (rw elsewhere refl) ∙ found in
          elim (text-cases rec.data_hash hash) [
            | inl same ↦ absurd (taken_hash r j rec hash indexed old free same)
            | inr other ↦ rw other (indexed.entry j rec old)
          ]
    ]

    pub with_passport-IsIndexed : IsIndexed added
    with_passport-IsIndexed = record { holder = added-holder; entry = added-entry }

  module _ (was : PassportRecord) (known : r.records id ≡ some was) where
    abbrev replaced : Registry
    replaced = with_hash id hash was r

    replaced-holder :
        (h : String)
        → ((replaced.hash_to_id h == 0) ≡ true)
          ⊎ ((rec : PassportRecord) × (replaced.records (replaced.hash_to_id h) ≡ some rec)
              × (rec.data_hash ≡ h))
    replaced-holder h = elim (text-cases h hash) [
      | inl same ↦ rw (same, str_eq_self hash, ==_self id) (inr (_, refl, refl))
      | inr other ↦ rw other (elim (text-cases h was.data_hash) [
        | inl old ↦ rw (old, str_eq_self was.data_hash) (inl refl)
        | inr third ↦ rw third (elim (indexed.holder h) [
          | inl none_has ↦ inl none_has
          | inr (rec, found, its) ↦ elim (id-cases (r.hash_to_id h) id) [
            | inl here ↦
                let same = some-injective (sym known ∙ (sym (ap r.records here) ∙ found)) in
                let equal = sym its ∙ sym (ap (λ (z : PassportRecord). z.data_hash) same) in
                absurd (true_is_false (sym ((eq_iff h was.data_hash).1 equal) ∙ third))
            | inr elsewhere ↦ inr (rec, rw elsewhere found, its)
          ]
        ])
      ])
    ]

    replaced-entry :
        (j : ℕ) (rec : PassportRecord)
        → replaced.records j ≡ some rec
        → (replaced.hash_to_id rec.data_hash ≡ j) × ((j == 0) ≡ false)
    replaced-entry j rec found = elim (id-cases j id) [
      | inl here ↦
          let new : some (record was { data_hash = hash }) ≡ some rec =
            sym (rw (here, ==_self id) refl) ∙ found in
          let its : hash ≡ rec.data_hash =
            ap (λ (z : PassportRecord). z.data_hash) (some-injective new) in
          rw (← its, here, str_eq_self hash) (refl, (indexed.entry id was known).1)
      | inr elsewhere ↦
          let old : r.records j ≡ some rec = sym (rw elsewhere refl) ∙ found in
          let (at, named) = indexed.entry j rec old in
          elim (text-cases rec.data_hash hash) [
            | inl same ↦ absurd (taken_hash r j rec hash indexed old free same)
            | inr other ↦ rw other (elim (text-cases rec.data_hash was.data_hash) [
              | inl shared ↦
                  let here = sym at ∙ (ap r.hash_to_id shared ∙ (indexed.entry id was known).0) in
                  absurd (true_is_false (sym ((==_iff j id).1 here) ∙ elsewhere))
              | inr third ↦ rw third (at, named)
            ])
          ]
    ]

    pub with_hash-IsIndexed : IsIndexed replaced
    with_hash-IsIndexed = record { holder = replaced-holder; entry = replaced-entry }

module _ (r : Registry) (indexed : IsIndexed r) (id : ℕ) where
  module _ (new_owner : String) (was : PassportRecord) (known : r.records id ≡ some was) where
    abbrev handed : Registry
    handed = with_owner id new_owner was r

    handed-holder :
        (h : String)
        → ((handed.hash_to_id h == 0) ≡ true)
          ⊎ ((rec : PassportRecord) × (handed.records (handed.hash_to_id h) ≡ some rec)
              × (rec.data_hash ≡ h))
    handed-holder h = elim (indexed.holder h) [
      | inl none_has ↦ inl none_has
      | inr (rec, found, its) ↦ elim (id-cases (r.hash_to_id h) id) [
        | inl here ↦
            let same = some-injective (sym known ∙ (sym (ap r.records here) ∙ found)) in
            let equal = ap (λ (z : PassportRecord). z.data_hash) same ∙ its in
            inr (record was { owner = new_owner }, rw (here, ==_self id) refl, equal)
        | inr elsewhere ↦ inr (rec, rw elsewhere found, its)
      ]
    ]

    handed-entry :
        (j : ℕ) (rec : PassportRecord)
        → handed.records j ≡ some rec
        → (handed.hash_to_id rec.data_hash ≡ j) × ((j == 0) ≡ false)
    handed-entry j rec found = elim (id-cases j id) [
      | inl here ↦
          let new : some (record was { owner = new_owner }) ≡ some rec =
            sym (rw (here, ==_self id) refl) ∙ found in
          let its : was.data_hash ≡ rec.data_hash =
            ap (λ (z : PassportRecord). z.data_hash) (some-injective new) in
          rw (← its, here) (indexed.entry id was known)
      | inr elsewhere ↦ indexed.entry j rec (sym (rw elsewhere refl) ∙ found)
    ]

    pub with_owner-IsIndexed : IsIndexed handed
    with_owner-IsIndexed = record { holder = handed-holder; entry = handed-entry }
