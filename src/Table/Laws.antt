-- ===== src/Table/Laws.antt =====
-- What a write to a table does to a later read and to a sum over its rows.
use trace_public.Common.{
  ℕ, ◌+◌, ◌≤◌, true, none, some, is_some, [], ◌∷◌, ◌≡◌, ◌≢◌, ◌⊎◌, inl, inr, subst, ◌==◌, Bool-cases,
  some-injective, refl, arith,
}
use trace_public.Table.{Table, AllRows, find, put, insert, modify, sum_by}

module _ {ℓ} {A : Type ℓ} where
  pub find-put_self :
      (k : ℕ) (v : A) (t : Table A) {r : A} → find k t ≡ some r → find k (put k v t) ≡ some v
  unfolding find put
  find-put_self k v [] h = ground arith
  find-put_self k v ((j, r) ∷ t) {r = q} h = ground (arith, find-put_self k v t {r = q})

  pub find-put_ne : (k j : ℕ) (v : A) (t : Table A) → k ≢ j → find j (put k v t) ≡ find j t
  unfolding find put
  find-put_ne k j v [] h = refl
  find-put_ne k j v ((i, r) ∷ t) h = ground (arith, find-put_ne k j v t)

  pub find-insert_self :
      (k : ℕ) (v : A) (t : Table A) → find k t ≡ none → find k (insert k v t) ≡ some v
  unfolding find insert
  find-insert_self k v [] h = ground arith
  find-insert_self k v ((j, r) ∷ t) h = ground (arith, find-insert_self k v t)

  pub find-insert_ne : (k j : ℕ) (v : A) (t : Table A) → k ≢ j → find j (insert k v t) ≡ find j t
  unfolding find insert
  find-insert_ne k j v [] h = ground arith
  find-insert_ne k j v ((i, r) ∷ t) h = ground (arith, find-insert_ne k j v t)

  pub modify-eq-put :
      (k : ℕ) (f : A → A) (t : Table A) {r : A} → find k t ≡ some r → modify k f t ≡ put k (f r) t
  unfolding find put modify
  modify-eq-put k f [] h = refl
  modify-eq-put k f ((j, r) ∷ t) {r = q} h = ground (arith, modify-eq-put k f t {r = q})

  pub find-modify_ne :
      (k j : ℕ) (f : A → A) (t : Table A) → k ≢ j → find j (modify k f t) ≡ find j t
  unfolding find modify
  find-modify_ne k j f [] h = refl
  find-modify_ne k j f ((i, r) ∷ t) h = ground (arith, find-modify_ne k j f t)

  -- A new row hides none that was there.
  pub find-insert-some :
      (k j : ℕ) (v : A) (t : Table A) {r : A} → find j t ≡ some r → find j (insert k v t) ≡ some r
  unfolding find insert
  find-insert-some k j v [] h = ground arith
  find-insert-some k j v ((i, q) ∷ t) {r} h = ground (arith, find-insert-some k j v t {r = r})

  -- A row that is there stays there.
  pub is_some-find-put :
      (k j : ℕ) (v : A) (t : Table A)
      → is_some (find j t) ≡ true
      → is_some (find j (put k v t)) ≡ true
  unfolding find put
  is_some-find-put k j v [] h = h
  is_some-find-put k j v ((i, q) ∷ t) h = ground (arith, is_some-find-put k j v t)

  pub is_some-find-insert :
      (k j : ℕ) (v : A) (t : Table A)
      → is_some (find j t) ≡ true
      → is_some (find j (insert k v t)) ≡ true
  unfolding find insert
  is_some-find-insert k j v [] h = ground arith
  is_some-find-insert k j v ((i, q) ∷ t) h = ground (arith, is_some-find-insert k j v t)

  module _ (f : A → ℕ) where
    pub sum_by-insert : (k : ℕ) (v : A) (t : Table A) → sum_by f (insert k v t) ≡ sum_by f t + f v
    unfolding sum_by insert
    sum_by-insert k v [] = omega arith
    sum_by-insert k v ((j, r) ∷ t) = omega (arith, sum_by-insert k v t)

    pub sum_by-put :
        (k : ℕ) (v : A) (t : Table A) {r : A}
        → find k t ≡ some r
        → sum_by f (put k v t) + f r ≡ sum_by f t + f v
    unfolding sum_by put find
    sum_by-put k v [] h = ground arith
    sum_by-put k v ((j, r) ∷ t) {r = q} h = ground (arith, sum_by-put k v t {r = q})

    -- A row that is there counts towards the sum.
    pub le-sum_by : (k : ℕ) (t : Table A) {r : A} → find k t ≡ some r → f r ≤ sum_by f t
    unfolding sum_by find
    le-sum_by k [] h = ground arith
    le-sum_by k ((j, r) ∷ t) {r = q} h = ground (arith, le-sum_by k t {r = q})

module _ {A : Type 0} where
  -- Where a row that is read after a write comes from.
  pub find-put_cases :
      (k j : ℕ) (v : A) (t : Table A) {r : A}
      → find j (put k v t) ≡ some r
      → ((j ≡ k) × (r ≡ v)) ⊎ ((k ≢ j) × (find j t ≡ some r))
  unfolding find put
  find-put_cases k j v [] h = ground arith
  find-put_cases k j v ((i, q) ∷ t) {r} h = ground (arith, find-put_cases k j v t {r = r})

  pub find-insert_cases :
      (k j : ℕ) (v : A) (t : Table A) {r : A}
      → find j (insert k v t) ≡ some r
      → ((j ≡ k) × (r ≡ v)) ⊎ (find j t ≡ some r)
  unfolding find insert
  find-insert_cases k j v [] h = ground arith
  find-insert_cases k j v ((i, q) ∷ t) {r} h = ground (arith, find-insert_cases k j v t {r = r})

module _ {A : Type 0} (P : A → Type 0) where
  pub AllRows-find : (k : ℕ) (t : Table A) {r : A} → AllRows P t → find k t ≡ some r → P r
  unfolding find
  AllRows-find k [] h e = cc
  AllRows-find k ((j, q) ∷ t) {r} h e = elim (Bool-cases (j == k)) [
    | inl here ↦ subst P (some-injective (rw (here, find) at e)) h.0
    | inr there ↦ AllRows-find k t h.1 (rw (there, find) at e)
  ]

  pub AllRows-put : (k : ℕ) (v : A) (t : Table A) → P v → AllRows P t → AllRows P (put k v t)
  unfolding put
  AllRows-put k v [] p h = h
  AllRows-put k v ((j, q) ∷ t) p h = elim (Bool-cases (j == k)) [
    | inl here ↦ rw (here, put) (p, h.1)
    | inr there ↦ rw (there, put) (h.0, AllRows-put k v t p h.1)
  ]

  pub AllRows-insert : (k : ℕ) (v : A) (t : Table A) → P v → AllRows P t → AllRows P (insert k v t)
  unfolding insert
  AllRows-insert k v [] p h = (p, tt)
  AllRows-insert k v ((j, q) ∷ t) p h = (h.0, AllRows-insert k v t p h.1)

module _ {A : Type 0} {P Q : A → Type 0} where
  pub AllRows-map : (t : Table A) → ((r : A) → P r → Q r) → AllRows P t → AllRows Q t
  AllRows-map [] f h = tt
  AllRows-map ((j, q) ∷ t) f h = (f q h.0, AllRows-map t f h.1)

-- A sum of nothing but zeros.
module _ {A : Type 0} (f : A → ℕ) where
  pub sum_by_zero : (t : Table A) → AllRows (λ r. f r ≡ 0) t → sum_by f t ≡ 0
  unfolding sum_by
  sum_by_zero [] h = refl
  sum_by_zero ((j, q) ∷ t) h = omega (arith, h.0, sum_by_zero t h.1)
