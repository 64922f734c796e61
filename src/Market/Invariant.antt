-- ===== src/Market/Invariant.antt =====
-- What holds between two requests of the lots, the orders and the materials of the marketplace:
-- the rules of packages/db/scripts/lib/invariants.ts on stock, statuses and amounts. Its rule that a
-- minimum order is at most the lot is not among them.
pub mod Writes
pub mod Settle
pub mod Lot
pub mod Steps
pub mod Retire
pub mod Requests
pub mod Offers
pub mod Listings
pub mod Edits
pub mod History
pub mod Reach
use trace_public.Common.{
  ◌%◌, ℕ, ◌+◌, ◌≤◌, ◌<◌, Bool, true, ◌&&◌, Option, none, some, ◌==◌, if◌then◌else◌, ◌≡◌, is_some,
}
use trace_public.Config.{
  ListingStatus, OrderStatus, PassportStatus, max_amount_pence, max_lot_quantity,
}
use trace_public.Store.{Listing, Transaction, Passport, Db}
use trace_public.Table.{Table, AllRows, find, sum_by}
use trace_public.Market.Lots.{is_live, open_orders, passport_status_for_lot}

-- `TAKING_ORDER_STATUSES`: orders whose quantity is no longer available, held or sold.
abbrev pub takes : OrderStatus → Bool
takes OrderStatus.cancelled = Bool.false
takes _ = true

abbrev pub share_of : ℕ → Transaction → ℕ
share_of id order = if order.listing_id == id && takes order.status then order.quantity else 0

-- What orders hold or bought of a lot.
unfoldable pub taken : ℕ → Table Transaction → ℕ
taken id transactions = sum_by (share_of id) transactions

abbrev pub StatusFits : ListingStatus → (available opened : ℕ) → Type 0
StatusFits ListingStatus.active available opened = 0 < available
StatusFits ListingStatus.reserved available opened = (available ≡ 0) × (0 < opened)
StatusFits ListingStatus.sold available opened = (available ≡ 0) × (opened ≡ 0)
StatusFits ListingStatus.expired available opened = opened ≡ 0
StatusFits ListingStatus.cancelled available opened = opened ≡ 0

-- A lot's stock is its size less what orders took, and its status follows from stock and open
-- orders.
pub record LotFits (id : ℕ) (lot : Listing) (transactions : Table Transaction) : Type 0 where
  pub stock : taken id transactions + lot.quantity_available ≡ lot.quantity
  pub status : StatusFits lot.status lot.quantity_available (open_orders id transactions)

-- The figures of a lot are in the ranges that the input checks allow.
pub record TermsFit (lot : Listing) : Type 0 where
  pub price : (1 ≤ lot.price_pence) × (lot.price_pence ≤ max_amount_pence)
  pub size : (1 ≤ lot.quantity) × (lot.quantity ≤ max_lot_quantity)
  pub minimum : 1 ≤ lot.min_order_quantity

abbrev pub status_of : Option Passport → Option PassportStatus
status_of none = none
status_of (some passport) = some passport.status

abbrev pub Expects : Option PassportStatus → Option PassportStatus → Type 0
Expects none actual = Unit
Expects (some status) actual = actual ≡ some status

-- A live lot's material is listed, reserved or sold as the lot is.
abbrev pub MaterialFits : Listing → Table Passport → Type 0
MaterialFits lot passports =
    Expects (passport_status_for_lot lot.status) (status_of (find lot.passport_id passports))

-- The buyer's window to report a problem opens when the seller accepts.
abbrev pub WindowFits : OrderStatus → (dispute_deadline : Option ℕ) → Type 0
WindowFits OrderStatus.pending deadline = deadline ≡ none
WindowFits OrderStatus.confirmed deadline = is_some deadline ≡ true
WindowFits OrderStatus.disputed deadline = is_some deadline ≡ true
WindowFits OrderStatus.resolved deadline = is_some deadline ≡ true
WindowFits OrderStatus.completed deadline = is_some deadline ≡ true
WindowFits OrderStatus.cancelled deadline = Unit

-- An order is for something, at a price that fits, of a lot that exists.
pub record OrderFits (order : Transaction) (listings : Table Listing) : Type 0 where
  pub quantity : 1 ≤ order.quantity
  pub amount : (1 ≤ order.amount_pence) × (order.amount_pence ≤ max_amount_pence)
  pub unit_price : order.amount_pence % order.quantity ≡ 0
  pub window : WindowFits order.status order.dispute_deadline
  pub listing : is_some (find order.listing_id listings) ≡ true

-- No other live lot is of this material.
abbrev pub IsOnlyLive : ℕ → ℕ → Table Listing → Type 0
IsOnlyLive id passport_id listings =
    (j : ℕ) (other : Listing)
    → find j listings ≡ some other
    → is_live other.status ≡ true
    → other.passport_id ≡ passport_id
    → j ≡ id

pub record IsSound (db : Db) : Type 0 where
  pub lots :
      (id : ℕ) (lot : Listing) → find id db.listings ≡ some lot → LotFits id lot db.transactions
  pub terms : (id : ℕ) (lot : Listing) → find id db.listings ≡ some lot → TermsFit lot
  pub materials :
      (id : ℕ) (lot : Listing) → find id db.listings ≡ some lot → MaterialFits lot db.passports
  pub single :
      (id : ℕ) (lot : Listing)
      → find id db.listings ≡ some lot
      → is_live lot.status ≡ true
      → IsOnlyLive id lot.passport_id db.listings
  pub orders : AllRows (λ order. OrderFits order db.listings) db.transactions
