-- ===== src/Table/Search.antt =====
-- A search by a condition, and a row that is read after an update.
use trace_public.Common.{
  ℕ, Bool, true, false, Option, none, some, [], ◌∷◌, ◌≡◌, ◌≢◌, ◌⊎◌, inl, inr, refl, arith, ◌==◌,
  is_some, Bool-cases, ==_iff, ==_self, some-injective, subst, ap, sym, ◌∙◌, true_is_false,
}
use trace_public.Table.{Table, find, modify, first_where}
use trace_public.Table.Laws.{modify-eq-put, find-put_self, find-modify_ne, find-put_cases}

module _ {A : Type 0} (p : A → Bool) where
  -- What no search finds, no row is.
  pub first_where-none :
      (k : ℕ) (t : Table A) {r : A} → first_where p t ≡ none → find k t ≡ some r → p r ≡ false
  unfolding first_where find
  first_where-none k [] h e = cc
  first_where-none k ((j, q) ∷ t) {r} h e = elim (Bool-cases (p q)) [
    | inl hit ↦ absurd (hidden (rw (hit, first_where) at h))
    | inr miss ↦ elim (Bool-cases (j == k)) [
      | inl here ↦ subst (λ x. p x ≡ false) (some-injective (rw (here, find) at e)) miss
      | inr there ↦ first_where-none k t (rw (miss, first_where) at h) (rw (there, find) at e)
    ]
  ]
    where
      hidden : {x : ℕ × A} → some x ≡ none → ⊥
      hidden e = cc

  -- The row of a search is in the table.
  pub is_some-find-first_where :
      (t : Table A) {id : ℕ} {r : A} → first_where p t ≡ some (id, r) → is_some (find id t) ≡ true
  unfolding first_where find
  is_some-find-first_where [] h = cc
  is_some-find-first_where ((j, q) ∷ t) {id} {r} h = elim (Bool-cases (p q)) [
    | inl hit ↦
        let same : j ≡ id = ap (λ x. x.0) (some-injective (rw (hit, first_where) at h)) in
        rw (same, ==_self id) refl
    | inr miss ↦ elim (Bool-cases (j == id)) [
      | inl here ↦ rw here refl
      | inr there ↦ rw there (is_some-find-first_where t (rw (miss, first_where) at h))
    ]
  ]

module _ {A : Type 0} where
  -- Where a row that is read after an update comes from.
  pub find-modify_cases :
      (k j : ℕ) (f : A → A) (t : Table A) {q r : A}
      → find k t ≡ some q
      → find j (modify k f t) ≡ some r
      → ((j ≡ k) × (r ≡ f q)) ⊎ ((k ≢ j) × (find j t ≡ some r))
  find-modify_cases k j f t {q} found h =
      find-put_cases k j (f q) t (rw (modify-eq-put k f t found) at h)

  pub is_some-find-modify :
      (k j : ℕ) (f : A → A) (t : Table A)
      → is_some (find j t) ≡ true
      → is_some (find j (modify k f t)) ≡ true
  unfolding find modify
  is_some-find-modify k j f [] h = h
  is_some-find-modify k j f ((i, q) ∷ t) h = ground (arith, is_some-find-modify k j f t)

  -- The row that an update writes, and the rows that it does not.
  pub find-modify_self :
      (k : ℕ) (f : A → A) (t : Table A) {r : A}
      → find k t ≡ some r
      → find k (modify k f t) ≡ some (f r)
  find-modify_self k f t {r} h = rw (modify-eq-put k f t h) (find-put_self k (f r) t h)

  pub find-modify_split :
      (k j : ℕ) (f : A → A) (t : Table A) → (k ≡ j) ⊎ (find j (modify k f t) ≡ find j t)
  find-modify_split k j f t = elim (Bool-cases (k == j)) [
    | inl same ↦ inl ((==_iff k j).0 same)
    | inr other ↦ inr (find-modify_ne k j f t (λ e. true_is_false (sym (rw e (==_self j)) ∙ other)))
  ]

  abbrev pub updated : (A → A) → Option A → Option A
  updated f none = none
  updated f (some r) = some (f r)

  pub find-modify-updated :
      (k : ℕ) (f : A → A) (t : Table A) → find k (modify k f t) ≡ updated f (find k t)
  unfolding find modify
  find-modify-updated k f [] = refl
  find-modify-updated k f ((j, r) ∷ t) = elim (Bool-cases (j == k)) [
    | inl here ↦ rw here (rw here refl)
    | inr there ↦ rw there (rw there (find-modify-updated k f t))
  ]
