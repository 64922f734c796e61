-- ===== src/DataRules/Rows.antt =====
-- The checker of packages/db/scripts/lib/invariants.ts on a row that fits.
use trace_public.Common.{
  some-injective, ℕ, ◌+◌, ◌%◌, Bool, true, false, not, ◌&&◌, ◌||◌, Option, none, some, ◌≡◌, refl,
  arith, ltb, ◌==◌, is_some,
}
use trace_public.Config.{is_pending, PassportStatus, ListingStatus, OrderStatus, is_active}
use trace_public.Store.{Passport, Listing, Transaction, Db}
use trace_public.Table.{Table, find}
use trace_public.Market.Invariant.{
  MaterialFits, status_of, Expects, WindowFits, LotFits, OrderFits, StatusFits, taken,
}
use trace_public.Market.Lots.{passport_status_for_lot}
use trace_public.DataRules.{
  is_unexpected, is_accepted, taken_of, is_off_market, listing_violations, order_violations,
  PassportRow, Rule, stock_violations, is_reserved, is_sold,
}
use trace_public.DataRules.Faults.{
  IsFaultless, IsFaultless-append, absent_then, absent, Excused-error, warned_then,
}

-- The conditions of the rules on a status fail where the status fits stock and orders.
module _ (available opened : ℕ) where
  pub active_has_stock :
      (s : ListingStatus) → StatusFits s available opened → (is_active s && available == 0) ≡ false
  active_has_stock ListingStatus.active f = ground arith
  active_has_stock ListingStatus.reserved f = refl
  active_has_stock ListingStatus.sold f = refl
  active_has_stock ListingStatus.expired f = refl
  active_has_stock ListingStatus.cancelled f = refl

  pub reserved_has_orders :
      (s : ListingStatus)
      → StatusFits s available opened
      → (is_reserved s && (not (available == 0) || opened == 0)) ≡ false
  reserved_has_orders ListingStatus.active f = refl
  reserved_has_orders ListingStatus.reserved f = ground arith
  reserved_has_orders ListingStatus.sold f = refl
  reserved_has_orders ListingStatus.expired f = refl
  reserved_has_orders ListingStatus.cancelled f = refl

  pub sold_has_neither :
      (s : ListingStatus)
      → StatusFits s available opened
      → (is_sold s && (not (available == 0) || ltb 0 opened)) ≡ false
  sold_has_neither ListingStatus.active f = refl
  sold_has_neither ListingStatus.reserved f = refl
  sold_has_neither ListingStatus.sold f = ground arith
  sold_has_neither ListingStatus.expired f = refl
  sold_has_neither ListingStatus.cancelled f = refl

  pub off_market_has_none :
      (s : ListingStatus)
      → StatusFits s available opened
      → (is_off_market s && ltb 0 opened) ≡ false
  off_market_has_none ListingStatus.active f = refl
  off_market_has_none ListingStatus.reserved f = refl
  off_market_has_none ListingStatus.sold f = refl
  off_market_has_none ListingStatus.expired f = ground arith
  off_market_has_none ListingStatus.cancelled f = ground arith

module _ (id : ℕ) (lot : Listing) (took opened : ℕ) where
  pub stock-IsFaultless :
      took + lot.quantity_available ≡ lot.quantity
      → StatusFits lot.status lot.quantity_available opened
      → IsFaultless (stock_violations id lot took opened)
  unfolding stock_violations
  stock-IsFaultless stock status =
      let in_range : ltb lot.quantity lot.quantity_available ≡ false = ground arith in
      let adds_up : not (lot.quantity_available + took == lot.quantity) ≡ false = ground arith in
      absent_then _ _ _ _ in_range (
        absent_then _ _ _ _ adds_up (
          IsFaultless-append _ _ (Excused-error _ Rule.minimum_order _ tt) (
            absent_then _ _ _ _ (active_has_stock _ _ lot.status status) (
              absent_then _ _ _ _ (reserved_has_orders _ _ lot.status status)
                (absent _ _ _ (sold_has_neither _ _ lot.status status))))))

-- The passports table as the checker reads it agrees with the database on each material's status.
abbrev pub row_status : Option PassportRow → Option PassportStatus
row_status none = none
row_status (some p) = some p.status

abbrev pub SameStatuses : Table PassportRow → Table Passport → Type 0
SameStatuses rows passports = (id : ℕ) → row_status (find id rows) ≡ status_of (find id passports)

pub material_expected :
    (s : ListingStatus) (row : Option PassportRow)
    → Expects (passport_status_for_lot s) (row_status row)
    → is_unexpected s row ≡ false
material_expected ListingStatus.active none f = refl
material_expected ListingStatus.active (some p) f = ground (arith, some-injective f)
material_expected ListingStatus.reserved none f = refl
material_expected ListingStatus.reserved (some p) f = ground (arith, some-injective f)
material_expected ListingStatus.sold none f = refl
material_expected ListingStatus.sold (some p) f = ground (arith, some-injective f)
material_expected ListingStatus.expired none f = refl
material_expected ListingStatus.expired (some p) f = refl
material_expected ListingStatus.cancelled none f = refl
material_expected ListingStatus.cancelled (some p) f = refl

pub listing-IsFaultless :
    (db : Db) (rows : Table PassportRow) (now id : ℕ) (lot : Listing)
    → SameStatuses rows db.passports
    → LotFits id lot db.transactions
    → MaterialFits lot db.passports
    → IsFaultless (listing_violations db.transactions rows now id lot)
unfolding listing_violations taken taken_of
listing-IsFaultless db rows now id lot same fits material =
    IsFaultless-append _ _ (stock-IsFaultless id lot _ _ fits.stock fits.status) (
      warned_then _ _ _ _ (
        absent_then _ _ _ _ (off_market_has_none _ _ lot.status fits.status)
          (absent _ _ _ (material_expected lot.status _ (rw (same lot.passport_id) material)))))

pub accepted_has_window :
    (s : OrderStatus) (deadline : Option ℕ)
    → WindowFits s deadline
    → (is_accepted s && not (is_some deadline)) ≡ false
accepted_has_window OrderStatus.pending deadline f = refl
accepted_has_window OrderStatus.confirmed deadline f = rw f
accepted_has_window OrderStatus.disputed deadline f = rw f
accepted_has_window OrderStatus.resolved deadline f = rw f
accepted_has_window OrderStatus.completed deadline f = rw f
accepted_has_window OrderStatus.cancelled deadline f = refl

pub pending_has_none :
    (s : OrderStatus) (deadline : Option ℕ) (legacy : Bool)
    → WindowFits s deadline
    → (not legacy && is_pending s && is_some deadline) ≡ false
pending_has_none s deadline true f = refl
pending_has_none OrderStatus.pending deadline false f = rw f
pending_has_none OrderStatus.confirmed deadline false f = refl
pending_has_none OrderStatus.disputed deadline false f = refl
pending_has_none OrderStatus.resolved deadline false f = refl
pending_has_none OrderStatus.completed deadline false f = refl
pending_has_none OrderStatus.cancelled deadline false f = refl

pub whole_units :
    (legacy : Bool) (quantity amount : ℕ)
    → amount % quantity ≡ 0
    → (not legacy && ltb 0 quantity && not (amount % quantity == 0)) ≡ false
whole_units true quantity amount f = refl
whole_units false quantity amount f = ground (arith, f)

pub order-IsFaultless :
    (listings : Table Listing) (now id : ℕ) (o : Transaction)
    → OrderFits o listings
    → IsFaultless (order_violations listings now id o)
unfolding order_violations
order-IsFaultless listings now id o fits =
    let has_lot : not (is_some (find o.listing_id listings)) ≡ false = rw fits.listing refl in
    let some_units : ltb o.quantity 1 ≡ false = ground (arith, fits.quantity) in
    let some_pence : ltb o.amount_pence 1 ≡ false = ground (arith, fits.amount) in
    absent_then _ _ _ _ has_lot (
      absent_then _ _ _ _ some_units (
        warned_then _ _ _ _ (
          warned_then _ _ _ _ (
            absent_then _ _ _ _ some_pence (
              absent_then _ _ _ _ (accepted_has_window o.status o.dispute_deadline fits.window) (
                absent_then _ _ _ _
                  (pending_has_none o.status o.dispute_deadline o.legacy_whole_lot fits.window)
                  (absent _ _ _ (
                    whole_units o.legacy_whole_lot o.quantity o.amount_pence fits.unit_price))))))))
