-- ===== src/Common/Members.antt =====
-- The members of a list that is filtered, mapped, sorted or cut, and of a table's rows.
use mathlib.Core.List.{Memᴰ}
use mathlib.Core.List.Memᴰ.{cases_cons}
use trace_public.Common.{
  Bool, true, List, [], ◌∷◌, ◌≡◌, ◌⊎◌, inl, inr, refl, sym, ◌∙◌, ap, map, keep, sort_by, insert_by,
  Bool-cases,
}

module _ {A : Type 0} where
  pub Mem-keep : (p : A → Bool) (xs : List A) {x : A} → Memᴰ x xs → p x ≡ true → Memᴰ x (keep p xs)
  Mem-keep p [] m h = elim m [ ]
  Mem-keep p (y ∷ ys) {x} (Memᴰ.head e) h =
      let kept : p y ≡ true = ap p (sym e) ∙ h in rw kept (Memᴰ.head e)
  Mem-keep p (y ∷ ys) {x} (Memᴰ.tail m) h = elim (Bool-cases (p y)) [
    | inl kept ↦ rw kept (Memᴰ.tail (Mem-keep p ys m h))
    | inr dropped ↦ rw dropped (Mem-keep p ys m h)
  ]

  pub Mem-of_keep :
      (p : A → Bool) (xs : List A) {x : A} → Memᴰ x (keep p xs) → Memᴰ x xs × (p x ≡ true)
  Mem-of_keep p (y ∷ ys) {x} m = elim (Bool-cases (p y)) [
    | inl kept ↦ elim (cases_cons (rw kept at m)) [
      | inl e ↦ (Memᴰ.head e, ap p e ∙ kept)
      | inr more ↦ let (rest, h) = Mem-of_keep p ys more in (Memᴰ.tail rest, h)
    ]
    | inr dropped ↦ let (rest, h) = Mem-of_keep p ys (rw dropped at m) in (Memᴰ.tail rest, h)
  ]
  Mem-of_keep p [] {x} m = elim m [ ]

  Mem-insert_by :
      (before : A → A → Bool) (y : A) (xs : List A) {x : A}
      → (x ≡ y) ⊎ Memᴰ x xs
      → Memᴰ x (insert_by before y xs)
  unfolding insert_by
  Mem-insert_by before y [] {x} (inl e) = Memᴰ.head e
  Mem-insert_by before y [] {x} (inr m) = elim m [ ]
  Mem-insert_by before y (z ∷ zs) {x} (inl e) = elim (Bool-cases (before z y)) [
    | inl later ↦ rw later (Memᴰ.tail (Mem-insert_by before y zs (inl e)))
    | inr first ↦ rw first (Memᴰ.head e)
  ]
  Mem-insert_by before y (z ∷ zs) {x} (inr (Memᴰ.head e)) = elim (Bool-cases (before z y)) [
    | inl later ↦ rw later (Memᴰ.head e)
    | inr first ↦ rw first (Memᴰ.tail (Memᴰ.head e))
  ]
  Mem-insert_by before y (z ∷ zs) {x} (inr (Memᴰ.tail m)) = elim (Bool-cases (before z y)) [
    | inl later ↦ rw later (Memᴰ.tail (Mem-insert_by before y zs (inr m)))
    | inr first ↦ rw first (Memᴰ.tail (Memᴰ.tail m))
  ]

  Mem-of_insert_by :
      (before : A → A → Bool) (y : A) (xs : List A) {x : A}
      → Memᴰ x (insert_by before y xs)
      → (x ≡ y) ⊎ Memᴰ x xs
  unfolding insert_by
  Mem-of_insert_by before y [] {x} (Memᴰ.head e) = inl e
  Mem-of_insert_by before y [] {x} (Memᴰ.tail m) = inr m
  Mem-of_insert_by before y (z ∷ zs) {x} m = elim (Bool-cases (before z y)) [
    | inl later ↦ elim (cases_cons (rw later at m)) [
      | inl e ↦ inr (Memᴰ.head e)
      | inr rest ↦ elim (Mem-of_insert_by before y zs rest) [
        | inl e ↦ inl e
        | inr it ↦ inr (Memᴰ.tail it)
      ]
    ]
    | inr first ↦ cases_cons (rw first at m)
  ]

  pub Mem-sort_by :
      (before : A → A → Bool) (xs : List A) {x : A} → Memᴰ x xs → Memᴰ x (sort_by before xs)
  unfolding sort_by
  Mem-sort_by before [] m = elim m [ ]
  Mem-sort_by before (y ∷ ys) (Memᴰ.head e) = Mem-insert_by before y (sort_by before ys) (inl e)
  Mem-sort_by before (y ∷ ys) (Memᴰ.tail m) =
      Mem-insert_by before y (sort_by before ys) (inr (Mem-sort_by before ys m))

  pub Mem-of_sort_by :
      (before : A → A → Bool) (xs : List A) {x : A} → Memᴰ x (sort_by before xs) → Memᴰ x xs
  unfolding sort_by
  Mem-of_sort_by before [] m = elim m [ ]
  Mem-of_sort_by before (y ∷ ys) {x} m = elim (Mem-of_insert_by before y (sort_by before ys) m) [
    | inl e ↦ Memᴰ.head e
    | inr rest ↦ Memᴰ.tail (Mem-of_sort_by before ys rest)
  ]

module _ {A B : Type 0} where
  pub Mem-map : (f : A → B) (xs : List A) {x : A} → Memᴰ x xs → Memᴰ (f x) (map f xs)
  Mem-map f [] m = elim m [ ]
  Mem-map f (y ∷ ys) (Memᴰ.head e) = Memᴰ.head (ap f e)
  Mem-map f (y ∷ ys) (Memᴰ.tail m) = Memᴰ.tail (Mem-map f ys m)

  pub Mem-of_map :
      (f : A → B) (xs : List A) {y : B} → Memᴰ y (map f xs) → (x : A) × Memᴰ x xs × (y ≡ f x)
  Mem-of_map f [] m = elim m [ ]
  Mem-of_map f (x ∷ xs) (Memᴰ.head e) = (x, Memᴰ.head refl, e)
  Mem-of_map f (x ∷ xs) (Memᴰ.tail m) =
      let (z, there, e) = Mem-of_map f xs m in (z, Memᴰ.tail there, e)
