-- ===== src/Passports/Shown.antt =====
-- passport.service.ts: the lot that a material's public page shows.
use mathlib.Core.List.{Memᴰ}
use trace_public.Common.{
  ◌&&◌, Bool-cases, ℕ, true, some, List, [], ◌∷◌, ◌≡◌, ◌↔◌, refl, sym, ◌∙◌, ap, subst, keep,
  some-injective, ◌==◌, ==_iff, inl, inr,
}
use trace_public.Common.Members.{
  Mem-keep, Mem-of_keep, Mem-map, Mem-of_map, Mem-sort_by, Mem-of_sort_by,
}
use trace_public.Config.{ListingStatus, is_active}
use trace_public.Store.{Db, Listing}
use trace_public.Table.{find, IsKeyed}
use trace_public.Table.Keys.{Mem-find, find-Mem}
use trace_public.Market.Invariant.{IsSound}
use trace_public.Market.Lots.{is_live, has_passed}
use trace_public.Passports.Reading.{
  PassportListingSummary, read_at, is_candidate, newest_lot_first, preferred, candidates, chosen,
  summary_of_lot, passport_listing,
}

module _ (now : ℕ) (db : Db) where
  -- A lot of this material, as it reads now.
  abbrev pub IsCandidate : ℕ → ℕ × Listing → Type 0
  IsCandidate passport_id row =
      (lot : Listing) × (find row.0 db.listings ≡ some lot)
      × (lot.passport_id ≡ passport_id)
      × (row ≡ read_at now (row.0, lot))
      × (is_candidate row ≡ true)

  abbrev rows_of_material : ℕ → List (ℕ × Listing)
  rows_of_material passport_id =
      keep (λ (row : ℕ × Listing). row.1.passport_id == passport_id) db.listings

  candidates-Mem :
      (passport_id id : ℕ) (lot : Listing)
      → find id db.listings ≡ some lot
      → lot.passport_id ≡ passport_id
      → is_candidate (read_at now (id, lot)) ≡ true
      → Memᴰ (read_at now (id, lot)) (candidates passport_id now db)
  unfolding candidates
  candidates-Mem passport_id id lot found his live = Mem-sort_by preferred _ (
      Mem-keep is_candidate _
        (Mem-map (read_at now) _ (
          Mem-sort_by newest_lot_first (rows_of_material passport_id) (
            Mem-keep (λ (row : ℕ × Listing). row.1.passport_id == passport_id) db.listings
              (Mem-find id db.listings found) ((==_iff lot.passport_id passport_id).1 his))))
        live)

  Mem-of_candidates :
      (passport_id : ℕ) (row : ℕ × Listing)
      → IsKeyed db.listings
      → Memᴰ row (candidates passport_id now db)
      → IsCandidate passport_id row
  unfolding candidates
  Mem-of_candidates passport_id row keyed m =
      let (read, live) = Mem-of_keep is_candidate _ (Mem-of_sort_by preferred _ m) in
      let (raw, there, made) = Mem-of_map (read_at now) _ read in
      let (stored, his) =
        Mem-of_keep (λ (r : ℕ × Listing). r.1.passport_id == passport_id) db.listings
          (Mem-of_sort_by newest_lot_first (rows_of_material passport_id) there) in
      let same : row.0 ≡ raw.0 = ap (λ r. r.0) made in
      (
        raw.1,
        ap (λ k. find k db.listings) same ∙ find-Mem db.listings raw.0 raw.1 keyed stored,
        (==_iff raw.1.passport_id passport_id).0 his,
        made ∙ ap (λ k. read_at now (k, raw.1)) (sym same),
        live,
      )

  live_before :
      (row : ℕ × Listing) → is_candidate (read_at now row) ≡ true → is_live row.1.status ≡ true
  live_before (id, lot) h =
      elim (Bool-cases (is_active lot.status && has_passed lot.expires_at now)) [
        | inl late ↦ absurd (not_live (rw late at h))
        | inr open_still ↦ rw open_still at h
      ]
    where
      not_live : is_live ListingStatus.expired ≡ true → ⊥
      not_live e = cc

  -- No material has two lots that a visitor would want.
  only_candidate :
      (passport_id : ℕ) (row other : ℕ × Listing)
      → IsSound db
      → IsCandidate passport_id row
      → IsCandidate passport_id other
      → other ≡ row
  only_candidate passport_id row other sound (lot, found, his, made, live)
        (lot', found', his', made', live') =
      let raw = live_before (row.0, lot) (subst (λ r. is_candidate r ≡ true) made live) in
      let raw' = live_before (other.0, lot') (subst (λ r. is_candidate r ≡ true) made' live') in
      let same : other.0 ≡ row.0 =
        sound.single row.0 lot found raw other.0 lot' found' raw' (his' ∙ sym his) in
      let same_lot : lot' ≡ lot =
        some-injective (sym found' ∙ (ap (λ k. find k db.listings) same ∙ found)) in
      made' ∙ ((λ i. read_at now (same i, same_lot i)) ∙ sym made)

  Mem-chosen :
      (rows : List (ℕ × Listing)) (s : PassportListingSummary)
      → chosen rows ≡ some s
      → (row : ℕ × Listing) × Memᴰ row rows × (s ≡ summary_of_lot row)
  Mem-chosen [] s h = cc
  Mem-chosen (row ∷ rows) s h = (row, Memᴰ.head refl, sym (some-injective h))

  chosen-some :
      (rows : List (ℕ × Listing)) {row : ℕ × Listing}
      → Memᴰ row rows
      → (first : ℕ × Listing) × Memᴰ first rows × (chosen rows ≡ some (summary_of_lot first))
  chosen-some [] m = elim m [ ]
  chosen-some (row ∷ rows) m = (row, Memᴰ.head refl, refl)

  -- In a state that satisfies the marketplace's invariant and where no id is used twice, a material's
  -- page shows a lot exactly when it is the material's and, past its date or not, reads as on sale,
  -- reserved or sold at that time; it shows its id, that status, its price, its currency and when it
  -- was listed. There is at most one such lot, so the order in which the code prefers them never
  -- decides.
  pub passport_listing_iff :
      (passport_id : ℕ) (s : PassportListingSummary)
      → IsKeyed db.listings
      → IsSound db
      → (passport_listing passport_id now db ≡ some s) ↔ (
          (row : ℕ × Listing) × IsCandidate passport_id row
          × (s ≡ summary_of_lot row)
          × ((other : ℕ × Listing) → IsCandidate passport_id other → other ≡ row))
  unfolding passport_listing
  passport_listing_iff passport_id s keyed sound = (
    λ h.
        let (row, there, made) = Mem-chosen (candidates passport_id now db) s h in
        let it = Mem-of_candidates passport_id row keyed there in
        (row, it, made, λ other another. only_candidate passport_id row other sound it another),
    λ shown.
        let (row, it, made, only) = shown in
        let there : Memᴰ row (candidates passport_id now db) =
          subst (λ r. Memᴰ r (candidates passport_id now db)) (sym it.3)
            (candidates-Mem passport_id row.0 it.0 it.1 it.2
              (subst (λ r. is_candidate r ≡ true) it.3 it.4)) in
        let (first, listed, chose) = chosen-some (candidates passport_id now db) there in
        chose
        ∙ (ap (λ r. some (summary_of_lot r))
              (only first (Mem-of_candidates passport_id first keyed listed))
            ∙ ap some (sym made)),
  )
