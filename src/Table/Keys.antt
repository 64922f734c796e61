-- ===== src/Table/Keys.antt =====
-- Tables with a primary key: every row is the one that its id reads.
use mathlib.Core.List.{Memᴰ}
use trace_public.Common.{
  some-injective, sym, ℕ, ◌≤◌, none, some, ◌∷◌, [], ◌≡◌, refl, ◌==◌, ==_self, subst, arith,
  Bool-cases, ==_iff, inl, inr, Option, Bool, if◌then◌else◌, true,
}
use trace_public.Table.{Table, AllRows, find, sum_by, IsKeyed}
use trace_public.Table.Laws.{sum_by_zero}

module _ {A : Type 0} where
  clash : {q : A} {o : Option A} → o ≡ some q → o ≡ none → ⊥
  clash e gone = cc

  pub find-head : (j : ℕ) (r : A) (t : Table A) → find j ((j, r) ∷ t) ≡ some r
  unfolding find
  find-head j r t = rw (==_self j) refl

  -- What the tail holds, the table holds, for its head's id is not in the tail.
  pub find-tail :
      (j k : ℕ) (r : A) (t : Table A) {q : A}
      → find j t ≡ none
      → find k t ≡ some q
      → find k ((j, r) ∷ t) ≡ some q
  unfolding find
  find-tail j k r t {q} h e = elim (Bool-cases (j == k)) [
    | inl same ↦
        let clash : find k t ≡ none = subst (λ i. find i t ≡ none) ((==_iff j k).0 same) h in cc
    | inr other ↦ rw other e
  ]

  -- The rows of a keyed table are what its ids read.
  pub Mem-find : (k : ℕ) (t : Table A) {r : A} → find k t ≡ some r → Memᴰ (k, r) t
  unfolding find
  Mem-find k [] {r} h = cc
  Mem-find k ((j, q) ∷ t) {r} h = elim (Bool-cases (j == k)) [
    | inl here ↦
        let it : q ≡ r = some-injective (rw (here, find) at h) in
        Memᴰ.head (λ i. (sym ((==_iff j k).0 here) i, sym it i))
    | inr there ↦ Memᴰ.tail (Mem-find k t (rw (there, find) at h))
  ]

  pub find-Mem : (t : Table A) (k : ℕ) (r : A) → IsKeyed t → Memᴰ (k, r) t → find k t ≡ some r
  unfolding IsKeyed
  find-Mem [] k r keyed m = elim m [ ]
  find-Mem ((j, q) ∷ t) k r keyed (Memᴰ.head e) =
      subst (λ (row : ℕ × A). find row.0 ((j, q) ∷ t) ≡ some row.1) (sym e) (find-head j q t)
  find-Mem ((j, q) ∷ t) k r keyed (Memᴰ.tail m) =
      find-tail j k q t keyed.0 (find-Mem t k r keyed.1 m)

  pub AllRows-of_keyed :
      (P : A → Type 0) (t : Table A)
      → IsKeyed t
      → ((k : ℕ) (r : A) → find k t ≡ some r → P r)
      → AllRows P t
  unfolding IsKeyed
  AllRows-of_keyed P [] keyed h = tt
  AllRows-of_keyed P ((j, r) ∷ t) keyed h = (
    h j r (find-head j r t),
    AllRows-of_keyed P t keyed.1 (λ k q e. h k q (find-tail j k r t keyed.0 e)),
  )

-- A condition that at most one id satisfies is counted at most once.
module _ {A : Type 0} (p : A → Bool) where
  abbrev count_of : A → ℕ
  count_of r = if p r then 1 else 0

  pub count_at_most_one :
      (t : Table A)
      → IsKeyed t
      → ((i j : ℕ) (a b : A)
          → find i t ≡ some a
          → find j t ≡ some b
          → p a ≡ true
          → p b ≡ true
          → i ≡ j)
      → sum_by count_of t ≤ 1
  unfolding IsKeyed sum_by
  count_at_most_one [] keyed only = ground arith
  count_at_most_one ((j, r) ∷ t) keyed only = elim (Bool-cases (p r)) [
    | inl counted ↦
        let others : AllRows (λ q. count_of q ≡ 0) t =
          AllRows-of_keyed (λ q. count_of q ≡ 0) t keyed.1
            (λ k q e. elim (Bool-cases (p q)) [
              | inl also ↦
                  let same : j ≡ k =
                    only j k r q (find-head j r t) (find-tail j k r t keyed.0 e) counted also in
                  let gone : find k t ≡ none = subst (λ i. find i t ≡ none) same keyed.0 in
                  absurd (clash e gone)
              | inr not_also ↦ rw not_also refl
            ]) in
        let none_left : sum_by count_of t ≡ 0 = sum_by_zero count_of t others in
        let one : count_of r ≡ 1 = rw counted refl in omega (arith, one, none_left)
    | inr skipped ↦
        let rest : sum_by count_of t ≤ 1 = count_at_most_one t keyed.1 (λ i k a b e f.
          only i k a b (find-tail j i r t keyed.0 e) (find-tail j k r t keyed.0 f)) in
        let nothing : count_of r ≡ 0 = rw skipped refl in omega (arith, nothing, rest)
  ]
