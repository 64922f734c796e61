-- ===== src/Anchoring/Marked.antt =====
-- packages/api/src/workers/anchor-passport.worker.ts: the fingerprints that a sweep marks as stale.
use mathlib.Core.List.{Memᴰ}
use mathlib.Core.List.Memᴰ.{cases_cons}
use text.Mathlib.Text.{◌==◌ as str_eq}
use text.Mathlib.TextEquality.{eq_iff}
use trace_public.Common.{
  ℕ, zero, suc, ◌≤◌, arith, true, false, not, Option, none, some, List, [], ◌∷◌, ◌≡◌, ◌≢◌, inl, inr,
  refl, sym, ◌∙◌, ap, String, is_some, length, take, ◌==◌, ==_iff, Bool-cases, Option-cases,
  some-injective, true_is_false, eq_true_of_not,
}
use trace_public.Common.Members.{Mem-keep, Mem-map, Mem-sort_by}
use trace_public.Store.{Passport}
use trace_public.Table.{Table, find, modify}
use trace_public.Table.Keys.{Mem-find}
use trace_public.Table.Search.{find-modify_split, find-modify-updated, updated}
use trace_public.Quality.{QualityDb, Anchor}
use trace_public.Quality.Anchors.{CanonicalDocument, compute_passport_hash, no_anchor}
use trace_public.Quality.Reports.{is_draft}
use trace_public.Passports.Reading.{tx_of}
use trace_public.Anchoring.Sweep.{
  Row, is_stale, is_hash, is_unanchored, is_anchored, with_anchor, oldest_first,
  latest_update_first, anchored, unanchored, mark_stale, reconcile_stale_anchors,
}

pub Mem-take :
    {A : Type 0} (n : ℕ) (xs : List A) {x : A} → Memᴰ x xs → length xs ≤ n → Memᴰ x (take n xs)
Mem-take n [] m h = elim m [ ]
Mem-take zero (y ∷ ys) m h = absurd (omega (arith, h))
Mem-take (suc n) (y ∷ ys) (Memᴰ.head e) h = Memᴰ.head e
Mem-take (suc n) (y ∷ ys) (Memᴰ.tail m) h = Memᴰ.tail (Mem-take n ys m (omega (arith, h)))

module _ (db : QualityDb) (id : ℕ) (passport : Passport)
    (found : find id db.market.passports ≡ some passport) where
  pub Mem-unanchored :
      tx_of (find id db.anchors) ≡ none
      → is_draft passport.status ≡ false
      → Memᴰ (with_anchor db (id, passport)) (unanchored db)
  unfolding unanchored
  Mem-unanchored off published = Mem-sort_by oldest_first _ (
      Mem-keep is_unanchored _ (Mem-map (with_anchor db) db.market.passports (Mem-find id _ found))
        (rw (off, published) refl))

  Mem-anchored :
      is_some (tx_of (find id db.anchors)) ≡ true
      → Memᴰ (with_anchor db (id, passport)) (anchored db)
  unfolding anchored
  Mem-anchored on = Mem-sort_by latest_update_first _ (
      Mem-keep is_anchored _ (Mem-map (with_anchor db) db.market.passports (Mem-find id _ found))
        on)

-- A fingerprint that is cleared has no transaction.
uncleared :
    (k id : ℕ) (t : Table Anchor) (a : Anchor)
    → find id (modify k (λ _. no_anchor) t) ≡ some a
    → is_some a.tx_hash ≡ true
    → (k ≢ id) × (find id t ≡ some a)
uncleared k id t a h on = elim (find-modify_split k id (λ _. no_anchor) t) [
  | inl same ↦
      let here : updated (λ _. no_anchor) (find k t) ≡ some a =
        sym (find-modify-updated k (λ _. no_anchor) t)
        ∙ (ap (λ j. find j (modify k (λ _. no_anchor) t)) same ∙ h) in
      absurd (never (find k t) here)
  | inr other ↦ elim (Bool-cases (k == id)) [
    | inl same ↦
        let e = (==_iff k id).0 same in
        let here : updated (λ _. no_anchor) (find k t) ≡ some a =
          sym (find-modify-updated k (λ _. no_anchor) t)
          ∙ (ap (λ j. find j (modify k (λ _. no_anchor) t)) e ∙ h) in
        absurd (never (find k t) here)
    | inr differs ↦ (λ e. true_is_false (sym ((==_iff k id).1 e) ∙ differs), sym other ∙ h)
  ]
]
  where
    never : (o : Option Anchor) → updated (λ _. no_anchor) o ≡ some a → ⊥
    never none e = cc
    never (some b) e =
        true_is_false (sym on ∙ ap (λ (r : Anchor). is_some r.tx_hash) (sym (some-injective e)))

module _ (digest : CanonicalDocument → String) where
  -- A material that still has a transaction after the loop was not read as stale.
  mark_stale-HasTx :
      (rows : List Row) (anchors : Table Anchor) (marked id : ℕ) (a : Anchor)
      → find id (mark_stale digest rows anchors marked).0 ≡ some a
      → is_some a.tx_hash ≡ true
      → (find id anchors ≡ some a)
        × ((row : Row) → Memᴰ row rows → row.0 ≡ id → is_stale digest row ≡ false)
  unfolding mark_stale
  mark_stale-HasTx [] anchors marked id a h on = (h, λ row m same. elim m [ ])
  mark_stale-HasTx (first ∷ rows) anchors marked id a h on =
      let (left, fresh) = mark_stale-HasTx rows _ _ id a h on in
      elim (Bool-cases (is_stale digest first)) [
        | inl stale ↦
            let (other, kept) = uncleared first.0 id anchors a (rw stale at left) on in
            (
              kept,
              λ row m same. elim (cases_cons m) [
                | inl e ↦ absurd (other (sym (ap (λ (r : Row). r.0) e) ∙ same))
                | inr rest ↦ fresh row rest same
              ],
            )
        | inr current ↦ (
          rw current at left,
          λ row m same. elim (cases_cons m) [
            | inl e ↦ ap (is_stale digest) e ∙ current
            | inr rest ↦ fresh row rest same
          ],
        )
      ]

  is_hash-eq :
      (a : Anchor) (hash : String) → is_hash (some a) hash ≡ true → a.passport_hash ≡ some hash
  is_hash-eq a hash h = elim (Option-cases a.passport_hash) [
    | inl absent ↦ absurd (true_is_false (sym h ∙ simp absent))
    | inr (stored, there) ↦
        let same : str_eq hash stored ≡ true = sym (simp there) ∙ h in
        there ∙ ap some (sym ((eq_iff hash stored).0 same))
  ]

  -- The materials that are read are marked where their fingerprint is not the one of their data.
  pub reconciled-current :
      (limit : ℕ) (db : QualityDb) (id : ℕ) (passport : Passport) (a : Anchor)
      → length (anchored db) ≤ limit
      → find id db.market.passports ≡ some passport
      → find id (reconcile_stale_anchors digest limit db).0.anchors ≡ some a
      → is_some a.tx_hash ≡ true
      → a.passport_hash ≡ some (compute_passport_hash digest id passport)
  unfolding reconcile_stale_anchors
  reconciled-current limit db id passport a few found h on =
      let (kept, fresh) = mark_stale-HasTx (take limit (anchored db)) db.anchors 0 id a h on in
      let listed =
        Mem-take limit (anchored db)
          (Mem-anchored db id passport found (ap (λ o. is_some (tx_of o)) kept ∙ on)) few in
      let current : not (is_hash (find id db.anchors) (compute_passport_hash digest id passport))
          ≡ false =
        fresh (with_anchor db (id, passport)) listed refl in
      is_hash-eq a (compute_passport_hash digest id passport) (
        sym (ap (λ o. is_hash o (compute_passport_hash digest id passport)) kept)
        ∙ eq_true_of_not _ current)
