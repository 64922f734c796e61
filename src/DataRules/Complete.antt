-- ===== src/DataRules/Complete.antt =====
-- What a report of the checker of packages/db/scripts/lib/invariants.ts says of the rows that it read.
use trace_public.Common.{
  refl, ◌%◌, not, eq_true_of_not, is_some, true, is_some, ◌≤◌, inr, ==_iff, subst, some-injective,
  inl, Bool-cases, ℕ, ◌+◌, Bool, false, not, ◌&&◌, ◌||◌, some, List, [], ◌∷◌, ◌++◌, ==_iff, ◌≡◌,
  arith, All, All-of_append, All-of_only_if, ltb, ◌==◌,
}
use trace_public.Config.{ListingStatus, is_active}
use trace_public.Store.{Listing, Transaction}
use trace_public.Table.{Table, find}
use trace_public.Market.Invariant.{StatusFits, LotFits, taken}
use trace_public.DataRules.{
  is_accepted, order_violations, taken_of, is_off_market, is_reserved, is_sold, is_unexpected,
  listing_violations, stock_violations, PassportRow, Severity, Rule, Subject, Violation, error_if,
  check_invariants, each_row,
}
use trace_public.DataRules.Faults.{IsFaultless, IsExcused, Excused}

IsFaultless-of_append :
    (xs ys : List Violation) → IsFaultless (xs ++ ys) → IsFaultless xs × IsFaultless ys
unfolding IsFaultless
IsFaultless-of_append xs ys h = All-of_append IsExcused xs ys h

-- An error that nothing excuses has a condition that fails.
fails :
    (b : Bool) (rule : Rule) (subject : Subject)
    → (Excused Severity.error rule → ⊥)
    → IsFaultless (error_if b rule subject)
    → b ≡ false
unfolding IsFaultless error_if
fails b rule subject unexcused h = All-of_only_if IsExcused b _ unexcused h

fails_then :
    (b : Bool) (rule : Rule) (subject : Subject) (vs : List Violation)
    → (Excused Severity.error rule → ⊥)
    → IsFaultless (error_if b rule subject ++ vs)
    → (b ≡ false) × IsFaultless vs
fails_then b rule subject vs unexcused h =
    let parts = IsFaultless-of_append _ _ h in (fails b rule subject unexcused parts.0, parts.1)

status_fits :
    (s : ListingStatus) (available opened : ℕ)
    → (is_active s && available == 0) ≡ false
    → (is_reserved s && (not (available == 0) || opened == 0)) ≡ false
    → (is_sold s && (not (available == 0) || ltb 0 opened)) ≡ false
    → (is_off_market s && ltb 0 opened) ≡ false
    → StatusFits s available opened
status_fits ListingStatus.active available opened h1 h2 h3 h4 = ground arith
status_fits ListingStatus.reserved available opened h1 h2 h3 h4 = ground arith
status_fits ListingStatus.sold available opened h1 h2 h3 h4 = ground arith
status_fits ListingStatus.expired available opened h1 h2 h3 h4 = ground arith
status_fits ListingStatus.cancelled available opened h1 h2 h3 h4 = ground arith

total :
    (available taken quantity : ℕ)
    → not (available + taken == quantity) ≡ false
    → taken + available ≡ quantity
total available taken quantity h = ground arith

module _ (orders : Table Transaction) (rows : Table PassportRow) (now id : ℕ) (lot : Listing) where
  listing-LotFits :
      IsFaultless (listing_violations orders rows now id lot)
      → LotFits id lot orders × (is_unexpected lot.status (find lot.passport_id rows) ≡ false)
  unfolding listing_violations stock_violations taken taken_of
  listing-LotFits h =
      let parts = IsFaultless-of_append _ _ h in
      let in_range = fails_then _ _ _ _ (λ e. e) parts.0 in
      let adds_up = fails_then _ _ _ _ (λ e. e) in_range.1 in
      let stocked = fails_then _ _ _ _ (λ e. e) (IsFaultless-of_append _ _ adds_up.1).1 in
      let held = fails_then _ _ _ _ (λ e. e) stocked.1 in
      let sold_out = fails _ _ _ (λ e. e) held.1 in
      let stranded = fails_then _ _ _ _ (λ e. e) (IsFaultless-of_append _ _ parts.1).1 in
      (
        record {
          stock = total _ _ _ adds_up.0;
          status = status_fits lot.status _ _ stocked.0 held.0 sold_out stranded.0;
        },
        fails _ _ _ (λ e. e) stranded.1,
      )

each_row-of_find :
    {A : Type 0} (f : ℕ → A → List Violation) (t : Table A) (k : ℕ) {r : A}
    → IsFaultless (each_row f t)
    → find k t ≡ some r
    → IsFaultless (f k r)
unfolding each_row find
each_row-of_find f [] k h e = cc
each_row-of_find f ((j, q) ∷ t) k {r} h e = elim (Bool-cases (j == k)) [
  | inl here ↦
      let same : q ≡ r = some-injective (rw (here, find) at e) in
      subst (λ i. IsFaultless (f i r)) ((==_iff j k).0 here)
        (subst (λ x. IsFaultless (f j x)) same (IsFaultless-of_append _ _ h).0)
  | inr there ↦ each_row-of_find f t k (IsFaultless-of_append _ _ h).1 (rw (there, find) at e)
]

-- Where the checker of the marketplace's rows reports no error but on minimum orders and fingerprints,
-- every lot's stock is its size less what its orders took, its status follows from its stock and its
-- open orders, and its material, if the checker has it, is at a status that the lot's status expects.
pub check_invariants_complete :
    (listings : Table Listing) (orders : Table Transaction) (rows : Table PassportRow) (now id : ℕ)
    (lot : Listing)
    → All IsExcused (check_invariants listings orders rows now)
    → find id listings ≡ some lot
    → LotFits id lot orders × (is_unexpected lot.status (find lot.passport_id rows) ≡ false)
unfolding check_invariants IsFaultless
check_invariants_complete listings orders rows now id lot h found =
    listing-LotFits orders rows now id lot
      (each_row-of_find _ listings id (All-of_append IsExcused _ _ h).0 found)

at_least_one : (n : ℕ) → ltb n 1 ≡ false → 1 ≤ n
at_least_one n h = ground arith

whole_price :
    (legacy : Bool) (quantity amount : ℕ)
    → 1 ≤ quantity
    → (not legacy && ltb 0 quantity && not (amount % quantity == 0)) ≡ false
    → (not legacy && not (amount % quantity == 0)) ≡ false
whole_price true quantity amount some_units h = refl
whole_price false quantity amount some_units h = ground arith

module _ (listings : Table Listing) (now id : ℕ) (o : Transaction) where
  order-passes :
      IsFaultless (order_violations listings now id o)
      → (is_some (find o.listing_id listings) ≡ true)
        × (1 ≤ o.quantity)
        × (1 ≤ o.amount_pence)
        × ((is_accepted o.status && not (is_some o.dispute_deadline)) ≡ false)
        × ((not o.legacy_whole_lot && not (o.amount_pence % o.quantity == 0)) ≡ false)
  unfolding order_violations
  order-passes h =
      let placed = fails_then _ _ _ _ (λ e. e) h in
      let some_units = fails_then _ _ _ _ (λ e. e) placed.1 in
      let not_late = IsFaultless-of_append _ _ (IsFaultless-of_append _ _ some_units.1).1 in
      let some_pence = fails_then _ _ _ _ (λ e. e) not_late.1 in
      let window = fails_then _ _ _ _ (λ e. e) some_pence.1 in
      let no_window = fails_then _ _ _ _ (λ e. e) window.1 in
      let units : 1 ≤ o.quantity = at_least_one o.quantity some_units.0 in
      (
        eq_true_of_not _ placed.0,
        units,
        at_least_one o.amount_pence some_pence.0,
        window.0,
        whole_price o.legacy_whole_lot o.quantity o.amount_pence units
            (fails _ _ _ (λ e. e) no_window.1),
      )

order_part :
    (listings : Table Listing) (orders : Table Transaction) (rows : Table PassportRow) (now : ℕ)
    → IsFaultless (check_invariants listings orders rows now)
    → IsFaultless (each_row (order_violations listings now) orders)
unfolding check_invariants
order_part listings orders rows now h =
    (IsFaultless-of_append _ _ (IsFaultless-of_append _ _ (IsFaultless-of_append _ _ h).1).1).0

-- Where the checker of the marketplace's rows reports no error but on minimum orders and fingerprints,
-- every order is of a lot that exists, for at least one unit and at least one penny; it has a date for
-- reporting a problem if it is accepted; and its total is a whole number of pence a unit, unless it was
-- placed on a whole lot by an earlier release.
pub check_invariants_orders :
    (listings : Table Listing) (orders : Table Transaction) (rows : Table PassportRow) (now id : ℕ)
    (o : Transaction)
    → All IsExcused (check_invariants listings orders rows now)
    → find id orders ≡ some o
    → (is_some (find o.listing_id listings) ≡ true)
      × (1 ≤ o.quantity)
      × (1 ≤ o.amount_pence)
      × ((is_accepted o.status && not (is_some o.dispute_deadline)) ≡ false)
      × ((not o.legacy_whole_lot && not (o.amount_pence % o.quantity == 0)) ≡ false)
unfolding IsFaultless
check_invariants_orders listings orders rows now id o h found = order-passes listings now id o (
    each_row-of_find (order_violations listings now) orders id
      (order_part listings orders rows now h) found)
