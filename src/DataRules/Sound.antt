-- ===== src/DataRules/Sound.antt =====
-- The checker of packages/db/scripts/lib/invariants.ts on a state that satisfies the marketplace's
-- invariant.
use trace_public.Common.{
  sym, ◌∙◌, and_right, ==_iff, and_left, String, ℕ, ◌≤◌, false, ◌&&◌, some, List, [], ◌∷◌, ◌≡◌, sym,
  ◌∙◌, arith, All, ltb, ◌==◌,
}
use trace_public.Store.{Listing, Transaction, Db}
use trace_public.Table.{IsKeyed, Table, AllRows, find}
use trace_public.Market.Invariant.{OrderFits, IsSound}
use trace_public.Table.Keys.{find-head, find-tail, count_at_most_one}
use trace_public.DataRules.{
  is_live, fingerprint_violations, live_violations, check_invariants, curated_violations, each_id,
  each_row, live_count, order_violations, PassportRow, Rule, Violation,
}
use trace_public.DataRules.Faults.{
  IsExcused, IsFaultless, IsFaultless-append, absent, Excused-error, warned_then,
}
use trace_public.DataRules.Rows.{SameStatuses, listing-IsFaultless, order-IsFaultless}

-- The loops over the rows of a table, over a list of ids and over the products of the catalogue.
each_row-IsFaultless :
    {A : Type 0} (f : ℕ → A → List Violation) (t : Table A)
    → IsKeyed t
    → ((k : ℕ) (r : A) → find k t ≡ some r → IsFaultless (f k r))
    → IsFaultless (each_row f t)
unfolding each_row IsKeyed IsFaultless
each_row-IsFaultless f [] keyed h = tt
each_row-IsFaultless f ((j, r) ∷ t) keyed h =
    IsFaultless-append _ _ (h j r (find-head j r t))
      (each_row-IsFaultless f t keyed.1 (λ k q e. h k q (find-tail j k r t keyed.0 e)))

each_order-IsFaultless :
    (listings : Table Listing) (now : ℕ) (orders : Table Transaction)
    → AllRows (λ o. OrderFits o listings) orders
    → IsFaultless (each_row (order_violations listings now) orders)
unfolding each_row IsFaultless
each_order-IsFaultless listings now [] h = tt
each_order-IsFaultless listings now ((j, o) ∷ t) h =
    IsFaultless-append _ _ (order-IsFaultless listings now j o h.0)
      (each_order-IsFaultless listings now t h.1)

each_fingerprint-IsFaultless :
    (t : Table PassportRow) → IsFaultless (each_row fingerprint_violations t)
unfolding each_row IsFaultless fingerprint_violations
each_fingerprint-IsFaultless [] = tt
each_fingerprint-IsFaultless ((j, p) ∷ t) =
    IsFaultless-append _ _ (Excused-error _ Rule.stale_fingerprint _ tt)
      (each_fingerprint-IsFaultless t)

each_id-IsFaultless :
    (f : ℕ → List Violation) (ids : List ℕ)
    → ((id : ℕ) → IsFaultless (f id))
    → IsFaultless (each_id f ids)
unfolding each_id IsFaultless
each_id-IsFaultless f [] h = tt
each_id-IsFaultless f (x ∷ xs) h = IsFaultless-append _ _ (h x) (each_id-IsFaultless f xs h)

curated-IsFaultless :
    (passports : Table PassportRow) (keys : List String)
    → IsFaultless (curated_violations passports keys)
unfolding curated_violations IsFaultless
curated-IsFaultless passports [] = tt
curated-IsFaultless passports (key ∷ keys) =
    warned_then _ _ _ _ (curated-IsFaultless passports keys)

live_count_le :
    (db : Db) (id : ℕ) → IsKeyed db.listings → IsSound db → live_count id db.listings ≤ 1
unfolding live_count
live_count_le db id keyed sound =
    count_at_most_one (λ (lot : Listing). is_live lot.status && lot.passport_id == id) db.listings
      keyed
      (λ i j a b e f counted also.
        sound.single j b f (and_left _ _ also) i a e (and_left _ _ counted) (
          (==_iff a.passport_id id).0 (and_right _ _ counted)
          ∙ sym ((==_iff b.passport_id id).0 (and_right _ _ also))))

-- In a state that satisfies the marketplace's invariant, where no two lots have the same id and the
-- checker sees each material's status as the database has it, the checker of the marketplace's rows
-- reports, at any time, no error but on minimum orders and on fingerprints.
pub check_invariants-IsFaultless :
    (db : Db) (rows : Table PassportRow) (now : ℕ)
    → IsSound db
    → IsKeyed db.listings
    → SameStatuses rows db.passports
    → All IsExcused (check_invariants db.listings db.transactions rows now)
unfolding check_invariants live_violations IsFaultless
check_invariants-IsFaultless db rows now sound keyed same =
    IsFaultless-append _ _
      (each_row-IsFaultless _ db.listings keyed (λ id lot e.
        listing-IsFaultless db rows now id lot same (sound.lots id lot e)
          (sound.materials id lot e)))
      (IsFaultless-append _ _
        (each_id-IsFaultless _ _ (λ id.
          let few : ltb 1 (live_count id db.listings) ≡ false =
            ground (arith, live_count_le db id keyed sound) in
          absent _ _ _ few))
        (IsFaultless-append _ _
          (each_order-IsFaultless db.listings now db.transactions sound.orders)
          (IsFaultless-append _ _ (curated-IsFaultless rows _)
            (each_fingerprint-IsFaultless rows))))
