-- ===== src/Market/Lots.antt =====
-- marketplace.service.ts: a lot's status and stock (`orderableQuantity`, `listingStatusAt`,
-- `lotStatus`, `settleLot`).
use text.Mathlib.Text.{◌==◌ as str_eq}
use trace_public.Common.{
  ℕ, ◌-◌, Bool, true, false, not, ◌&&◌, ◌||◌, Option, none, some, String, ltb, leb, ◌==◌,
  if◌then◌else◌,
}
use trace_public.Config.{ListingStatus, PassportStatus, OrderStatus, is_active}
use trace_public.Errors.{Result, err, ok, unexpected}
use trace_public.Store.{Listing, Transaction, Passport, Db}
use trace_public.Table.{Table, find, put, modify, count_where}

-- `SEED_TAG` of packages/core/src/constants/demo-catalogue.ts.
abbrev pub seed_tag : String
seed_tag = "workshop-curated-2026-06"

-- `OPEN_TRANSACTION_STATUSES`.
abbrev pub is_open : OrderStatus → Bool
is_open OrderStatus.pending = true
is_open OrderStatus.confirmed = true
is_open OrderStatus.disputed = true
is_open _ = false

abbrev pub is_curated : Option String → Bool
is_curated none = false
is_curated (some s) = str_eq s seed_tag

-- `Math.max(0, available - 1)` is the truncated `-`.
unfoldable pub orderable_quantity : ℕ → Option String → Bool → ℕ
orderable_quantity available seed_source keep_last_curated_unit =
    if keep_last_curated_unit && is_curated seed_source then available - 1 else available

-- `date && date <= now`.
abbrev pub has_passed : Option ℕ → ℕ → Bool
has_passed none now = false
has_passed (some date) now = leb date now

unfoldable pub listing_status_at : ListingStatus → Option ℕ → ℕ → ListingStatus
listing_status_at status expires_at now =
    if is_active status && has_passed expires_at now then ListingStatus.expired else status

unfoldable pub lot_status : ℕ → ℕ → ListingStatus
lot_status quantity_available open_orders =
    if ltb 0 quantity_available
    then ListingStatus.active
    else if ltb 0 open_orders
    then ListingStatus.reserved
    else ListingStatus.sold

-- `['active', 'reserved', 'sold'].includes(status)`.
abbrev pub is_live : ListingStatus → Bool
is_live ListingStatus.active = true
is_live ListingStatus.reserved = true
is_live ListingStatus.sold = true
is_live _ = false

-- `PASSPORT_STATUS_FOR_LOT`, which has no entry for the other two.
abbrev pub passport_status_for_lot : ListingStatus → Option PassportStatus
passport_status_for_lot ListingStatus.active = some PassportStatus.listed
passport_status_for_lot ListingStatus.reserved = some PassportStatus.reserved
passport_status_for_lot ListingStatus.sold = some PassportStatus.sold
passport_status_for_lot _ = none

abbrev pub same_status : ListingStatus → ListingStatus → Bool
same_status ListingStatus.active ListingStatus.active = true
same_status ListingStatus.reserved ListingStatus.reserved = true
same_status ListingStatus.sold ListingStatus.sold = true
same_status ListingStatus.expired ListingStatus.expired = true
same_status ListingStatus.cancelled ListingStatus.cancelled = true
same_status _ _ = false

-- The condition of the count that `settleLot`, `cancelListing` and the sweep make.
abbrev pub holds_lot : ℕ → Transaction → Bool
holds_lot id order = order.listing_id == id && is_open order.status

unfoldable pub open_orders : ℕ → Table Transaction → ℕ
unfolding count_where
open_orders id transactions = count_where (holds_lot id) transactions

-- `set({ status, updatedAt })` on a passport; `none` stands for `undefined`, which drizzle leaves out.
abbrev pub set_passport_status : Option PassportStatus → ℕ → Passport → Passport
set_passport_status none now p = record p { updated_at = now }
set_passport_status (some s) now p = record p { status = s; updated_at = now }

-- The row that `settleLot` writes: `changes` is already in `listing`.
unfoldable pub settled : Listing → ℕ → ListingStatus → Listing
settled listing quantity_available status = record listing {
  quantity_available = quantity_available;
  status = status;
}

-- The status that `settleLot` gives a lot.
unfoldable pub settled_status : ListingStatus → ℕ → ℕ → Bool → ListingStatus
unfolding lot_status
settled_status status quantity_available opened reopen =
    if reopen || is_live status then lot_status quantity_available opened else status

-- The writes of `settleLot`: the lot's row, and its material's where the lot is live and its status
-- changes.
unfoldable pub write_lot : ℕ → Listing → Listing → Bool → ℕ → Db → Db
write_lot id listing updated reopen now db =
    let db1 = record db { listings = put id updated db.listings } in
    if (reopen || is_live listing.status)
      && (reopen || not (same_status updated.status listing.status))
    then record db1 {
      passports =
          modify listing.passport_id
            (set_passport_status (passport_status_for_lot updated.status) now) db.passports;
    }
    else db1

-- `changes` is the spread of the edited columns, as a function on the row.
unfoldable pub settle_lot :
    ℕ → Listing → ℕ → (Listing → Listing) → Bool → ℕ → Db → Result (Db × Listing)
unfolding settled settled_status write_lot
settle_lot id listing quantity_available changes reopen now db =
    let status =
      settled_status listing.status quantity_available (open_orders id db.transactions) reopen in
    elim (find id db.listings) [
      | none ↦ err unexpected
      | some row ↦
          let updated = settled (changes row) quantity_available status in
          ok (write_lot id listing updated reopen now db, updated)
    ]
