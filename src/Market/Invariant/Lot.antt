-- ===== src/Market/Invariant/Lot.antt =====
-- `settleLot` as the operations call it: on a lot that stays on the marketplace or off it as it is,
-- and on an expired one that goes back on sale.
use trace_public.Common.{
  ℕ, zero, suc, ◌+◌, Bool, true, false, ◌||◌, none, some, ◌≡◌, ◌≢◌, inl, inr, refl, arith, is_some,
  Bool-cases, Option,
}
use trace_public.Config.{ListingStatus}
use trace_public.Errors.{ok}
use trace_public.Store.{Listing, Passport, Db}
use trace_public.Table.{AllRows, find}
use trace_public.Market.Lots.{
  is_live, open_orders, lot_status, settled, settled_status, settle_lot, write_lot,
  passport_status_for_lot,
}
use trace_public.Market.Invariant.{
  taken, StatusFits, status_of, Expects, LotFits, TermsFit, MaterialFits, OrderFits, IsOnlyLive,
  IsSound,
}
use trace_public.Market.Invariant.Settle.{CanWrite, write_lot-IsSound}

lot_status_reserved : (n : ℕ) → lot_status 0 (suc n) ≡ ListingStatus.reserved
unfolding lot_status
lot_status_reserved n = ground arith

lot_status_active : (m n : ℕ) → lot_status (suc m) n ≡ ListingStatus.active
unfolding lot_status
lot_status_active m n = ground arith

lot_status-StatusFits :
    (available opened : ℕ) → StatusFits (lot_status available opened) available opened
lot_status-StatusFits zero zero = unfold lot_status in (refl, refl)
lot_status-StatusFits zero (suc n) = rw (lot_status_reserved n) (refl, omega arith)
lot_status-StatusFits (suc m) n = rw (lot_status_active m n) (omega arith)

lot_status-live : (available opened : ℕ) → is_live (lot_status available opened) ≡ true
unfolding lot_status
lot_status-live available opened = ground arith

settled_status-live :
    (s : ListingStatus) (available opened : ℕ) (reopen : Bool)
    → is_live (settled_status s available opened reopen) ≡ (reopen || is_live s)
unfolding settled_status
settled_status-live s available opened true = lot_status-live available opened
settled_status-live s available opened false = elim (Bool-cases (is_live s)) [
  | inl l ↦ rw l (lot_status-live available opened)
  | inr d ↦ rw d d
]

pub StatusFits-of_dead :
    (s : ListingStatus) (available opened : ℕ)
    → is_live s ≡ false
    → opened ≡ 0
    → StatusFits s available opened
StatusFits-of_dead ListingStatus.expired available opened h e = e
StatusFits-of_dead ListingStatus.cancelled available opened h e = e
StatusFits-of_dead ListingStatus.active available opened h e = cc
StatusFits-of_dead ListingStatus.reserved available opened h e = cc
StatusFits-of_dead ListingStatus.sold available opened h e = cc

settled_status-StatusFits :
    (s : ListingStatus) (available opened : ℕ) (reopen : Bool)
    → ((reopen || is_live s) ≡ false → opened ≡ 0)
    → StatusFits (settled_status s available opened reopen) available opened
unfolding settled_status
settled_status-StatusFits s available opened true h = lot_status-StatusFits available opened
settled_status-StatusFits s available opened false h = elim (Bool-cases (is_live s)) [
  | inl l ↦ rw l (lot_status-StatusFits available opened)
  | inr d ↦ rw d (StatusFits-of_dead s available opened d (h d))
]

-- All that the invariant says but of the lot `id` and its orders.
pub record Rest (id : ℕ) (db : Db) : Type 0 where
  pub lots :
      (j : ℕ) (lot : Listing)
      → id ≢ j
      → find j db.listings ≡ some lot
      → LotFits j lot db.transactions
  pub terms : (j : ℕ) (lot : Listing) → find j db.listings ≡ some lot → TermsFit lot
  pub materials :
      (j : ℕ) (lot : Listing) → find j db.listings ≡ some lot → MaterialFits lot db.passports
  pub single :
      (j : ℕ) (lot : Listing)
      → find j db.listings ≡ some lot
      → is_live lot.status ≡ true
      → IsOnlyLive j lot.passport_id db.listings
  pub orders : AllRows (λ order. OrderFits order db.listings) db.transactions

pub Expects-is_some :
    (s : ListingStatus) (o : Option Passport)
    → is_live s ≡ true
    → Expects (passport_status_for_lot s) (status_of o)
    → is_some o ≡ true
Expects-is_some s (some p) l h = refl
Expects-is_some ListingStatus.active none l h = cc
Expects-is_some ListingStatus.reserved none l h = cc
Expects-is_some ListingStatus.sold none l h = cc
Expects-is_some ListingStatus.expired none l h = cc
Expects-is_some ListingStatus.cancelled none l h = cc

module _ (id : ℕ) (listing : Listing) (available : ℕ) (changes : Listing → Listing) (reopen : Bool)
    (now : ℕ) (db : Db) where
  abbrev pub next_status : ListingStatus
  next_status = settled_status listing.status available (open_orders id db.transactions) reopen

  abbrev pub next_lot : Listing
  next_lot = settled (changes listing) available next_status

  -- What `settleLot` does to a lot that is there.
  pub settle_lot-eq :
      find id db.listings ≡ some listing
      → settle_lot id listing available changes reopen now db
        ≡ ok (write_lot id listing next_lot reopen now db, next_lot)
  unfolding settle_lot
  settle_lot-eq h = rw (h, settle_lot)

  module _ (rest : Rest id db) (found : find id db.listings ≡ some listing)
      (material_kept : (changes listing).passport_id ≡ listing.passport_id)
      (terms_fit : TermsFit (changes listing))
      (stock : taken id db.transactions + available ≡ (changes listing).quantity)
      (closed : (reopen || is_live listing.status) ≡ false → open_orders id db.transactions ≡ 0)
      (alone : (reopen || is_live listing.status) ≡ true
        → IsOnlyLive id listing.passport_id db.listings)
      (has_material : (reopen || is_live listing.status) ≡ true
        → is_some (find listing.passport_id db.passports) ≡ true) where
    can_write : CanWrite id listing next_lot reopen db
    unfolding settled
    can_write =
        let live =
          settled_status-live listing.status available (open_orders id db.transactions) reopen in
        record {
          found = found;
          material_kept = material_kept;
          live = live;
          fits = record {
            stock = stock;
            status =
                settled_status-StatusFits listing.status available (open_orders id db.transactions)
                  reopen closed;
          };
          terms_fit = record {
            price = terms_fit.price;
            size = terms_fit.size;
            minimum = terms_fit.minimum;
          };
          alone = λ l. alone (rw live at l);
          has_material = λ l. has_material (rw live at l);
          lots = rest.lots;
          terms = rest.terms;
          materials = rest.materials;
          single = rest.single;
          orders = rest.orders;
        }

    pub settled-IsSound : IsSound (write_lot id listing next_lot reopen now db)
    settled-IsSound = write_lot-IsSound id listing next_lot reopen now db can_write

-- An order's step or a new order: the row is written with other stock and nothing else.
module _ (id : ℕ) (listing : Listing) (available now : ℕ) (db : Db) (rest : Rest id db)
    (found : find id db.listings ≡ some listing)
    (stock : taken id db.transactions + available ≡ listing.quantity)
    (closed : is_live listing.status ≡ false → open_orders id db.transactions ≡ 0) where
  pub restocked-IsSound :
      IsSound (
        write_lot id listing (next_lot id listing available (λ row. row) false now db) false now db)
  restocked-IsSound =
      settled-IsSound id listing available (λ row. row) false now db rest found refl
        (rest.terms id listing found) stock closed (λ l. rest.single id listing found l)
        (λ l. Expects-is_some listing.status _ l (rest.materials id listing found))
