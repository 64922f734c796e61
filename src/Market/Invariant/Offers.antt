-- ===== src/Market/Invariant/Offers.antt =====
-- Placing an order (`makeOffer`) takes a quantity within the lot's limits and keeps the invariant.
use native.Mathlib.Nat.{mul-mod_left}
use trace_public.Common.{
  refl, ℕ, ◌+◌, ◌-◌, ◌*◌, ◌≤◌, true, false, not, Option, none, some, ◌≡◌, ◌≢◌, ◌⊎◌, sym, ◌∙◌, arith,
  ==_self, eq_true_of_not, String, Bool, List,
}
use trace_public.Config.{ListingStatus, is_active, max_amount_pence, max_lot_quantity}
use trace_public.Errors.{ok, require-eq-ok, refuse-eq-ok, >>=-eq-ok}
use trace_public.Store.{Listing, Transaction, OrderEvent, Db}
use trace_public.Table.{find, insert}
use trace_public.Table.Laws.{AllRows-insert}
use trace_public.Market.Lots.{is_live, open_orders, orderable_quantity, write_lot}
use trace_public.Market.Listings.{optional, is_between_1_and}
use trace_public.Market.Offers.{
  Viewer, MakeOffer, make_offer_schema, may_order, order_quantity, new_order, write_order,
  make_offer,
}
use trace_public.Market.Invariant.{share_of, taken, StatusFits, OrderFits, IsSound}
use trace_public.Market.Invariant.Writes.{opens, taken-insert, open_orders-insert}
use trace_public.Market.Invariant.Lot.{Rest, next_lot, settle_lot-eq, restocked-IsSound}
use trace_public.Market.Invariant.Steps.{IsSound-of_ok}

pub orderable_quantity-le :
    (available : ℕ) (source : Option String) (keep : Bool)
    → orderable_quantity available source keep ≤ available
unfolding orderable_quantity
orderable_quantity-le available source keep = ground arith

-- What an order takes lies between 1 and what may be ordered, is at least the lot's minimum unless
-- it is all that may be ordered, and its total is at most the largest amount.
pub order_quantity_bounds :
    (listing : Listing) (orderable : ℕ) (asked : Option ℕ) (q : ℕ)
    → orderable ≤ listing.quantity_available
    → 1 ≤ listing.quantity_available
    → 1 ≤ listing.min_order_quantity
    → optional (is_between_1_and max_lot_quantity) asked ≡ true
    → order_quantity listing orderable asked ≡ ok q
    → (1 ≤ q)
      × (q ≤ orderable)
      × ((listing.min_order_quantity ≤ q) ⊎ (q ≡ orderable))
      × (listing.price_pence * q ≤ max_amount_pence)
unfolding order_quantity
order_quantity_bounds listing orderable none q h1 h2 h3 h4 h5 = ground arith
order_quantity_bounds listing orderable (some n) q h1 h2 h3 h4 h5 = ground arith

one-le-mul : (a b : ℕ) → 1 ≤ a → 1 ≤ b → 1 ≤ a * b
one-le-mul a b h k = grind arith

module _ (id : ℕ) (listing : Listing) (input : MakeOffer) (q : ℕ) (buyer : Viewer) (now : ℕ)
    (db : Db) (sound : IsSound db) (found : find input.listing_id db.listings ≡ some listing)
    (live : is_live listing.status ≡ true)
    (bounds : (1 ≤ q)
      × (q ≤ listing.quantity_available)
      × (listing.price_pence * q ≤ max_amount_pence)) where
  abbrev order : Transaction
  order = new_order listing input q buyer now

  abbrev lot_id : ℕ
  lot_id = input.listing_id

  share_here : share_of lot_id order ≡ q
  unfolding new_order
  share_here = rw (==_self lot_id)

  share_other : (j : ℕ) → lot_id ≢ j → share_of j order ≡ 0
  unfolding new_order
  share_other j ne = ground arith

  opens_other : (j : ℕ) → lot_id ≢ j → opens j order ≡ 0
  unfolding new_order
  opens_other j ne = ground arith

  order-OrderFits : OrderFits order db.listings
  unfolding new_order
  order-OrderFits = record {
    quantity = bounds.0;
    amount = (
      one-le-mul listing.price_pence q (sound.terms lot_id listing found).price.0 bounds.0,
      bounds.2,
    );
    unit_price = mul-mod_left listing.price_pence q;
    window = refl;
    listing = rw found;
  }

  abbrev left : ℕ
  left = listing.quantity_available - q

  module _ (events : List OrderEvent) where
    abbrev db_placed : Db
    db_placed = record db { transactions = insert id order db.transactions; order_events = events }

    placed-Rest : Rest lot_id db_placed
    placed-Rest = record {
      lots = λ j lot ne h.
          let fits = sound.lots j lot h in
          record {
            stock =
                omega
                  (arith, fits.stock, share_other j ne, taken-insert id order db.transactions j);
            status =
                let same : open_orders j (insert id order db.transactions)
                    ≡ open_orders j db.transactions =
                  omega (arith, opens_other j ne, open_orders-insert id order db.transactions j) in
                rw same fits.status;
          };
      terms = sound.terms;
      materials = sound.materials;
      single = sound.single;
      orders =
          AllRows-insert (λ t. OrderFits t db.listings) id order db.transactions order-OrderFits
            sound.orders;
    }

    placed-stock : taken lot_id db_placed.transactions + left ≡ listing.quantity
    placed-stock = omega (
      arith,
      bounds.1,
      share_here,
      (sound.lots lot_id listing found).stock,
      taken-insert id order db.transactions lot_id,
    )

    placed-IsSound : IsSound (
        write_lot lot_id listing
          (next_lot lot_id listing left (λ row. row) false now db_placed)
          false
          now
          db_placed)
    placed-IsSound =
        restocked-IsSound lot_id listing left now db_placed placed-Rest found placed-stock
          (λ dead. cc (live, dead))

  write_order-keeps :
      {db' : Db} {o : Transaction}
      → write_order id listing input q buyer now db ≡ ok (db', o)
      → IsSound db'
  unfolding write_order
  write_order-keeps h =
      let ((db1, lot), settled, same) = >>=-eq-ok _ _ h in
      IsSound-of_ok
        (IsSound-of_ok (placed-IsSound _) (
          sym (settle_lot-eq lot_id listing left (λ row. row) false now (db_placed _) found)
          ∙ settled))
        same

live_of_active : (s : ListingStatus) → is_active s ≡ true → is_live s ≡ true
live_of_active s h = ground arith

one_le_available :
    (s : ListingStatus) (available opened : ℕ)
    → is_active s ≡ true
    → StatusFits s available opened
    → 1 ≤ available
one_le_available ListingStatus.active available opened h f = f
one_le_available ListingStatus.reserved available opened h f = cc
one_le_available ListingStatus.sold available opened h f = cc
one_le_available ListingStatus.expired available opened h f = cc
one_le_available ListingStatus.cancelled available opened h f = cc

may_order-active :
    (listing : Listing) (buyer : Viewer) (now : ℕ) {x : Unit {0}}
    → may_order listing buyer now ≡ ok x
    → is_active listing.status ≡ true
unfolding may_order
may_order-active listing buyer now h =
    eq_true_of_not (is_active listing.status)
      (refuse-eq-ok (not (is_active listing.status)) _ _ h).0

module _ (id : ℕ) (input : MakeOffer) (buyer : Viewer) (now : ℕ) (db : Db) (listing : Listing)
    (orderable : ℕ) (valid : make_offer_schema input ≡ true) (sound : IsSound db)
    (found : find input.listing_id db.listings ≡ some listing)
    (active : is_active listing.status ≡ true) (le : orderable ≤ listing.quantity_available) where
  chosen-keeps :
      (q : ℕ) {db' : Db} {o : Transaction}
      → order_quantity listing orderable input.quantity ≡ ok q
      → write_order id listing input q buyer now db ≡ ok (db', o)
      → IsSound db'
  chosen-keeps q chosen h =
      let available =
        one_le_available listing.status _ _ active
          (sound.lots input.listing_id listing found).status in
      let bounds =
        order_quantity_bounds listing orderable input.quantity q le available
          (sound.terms input.listing_id listing found).minimum valid chosen in
      write_order-keeps id listing input q buyer now db sound found
        (live_of_active listing.status active) (bounds.0, omega (arith, bounds.1, le), bounds.3) h

-- From a state that satisfies the invariant, placing an order whose input passes the check leaves,
-- where it succeeds, one that does.
pub make_offer-keeps :
    (id : ℕ) (input : MakeOffer) (buyer : Viewer) (keep : Bool) (now : ℕ) (db : Db) {db' : Db}
    {o : Transaction}
    → make_offer_schema input ≡ true
    → IsSound db
    → make_offer id input buyer keep now db ≡ ok (db', o)
    → IsSound db'
unfolding make_offer
make_offer-keeps id input buyer keep now db valid sound h =
    let (listing, found, h1) = require-eq-ok (find input.listing_id db.listings) _ _ h in
    let (_, may, h2) = >>=-eq-ok (may_order listing buyer now) _ h1 in
    let (q, chosen, h3) = >>=-eq-ok (order_quantity listing _ input.quantity) _ h2 in
    chosen-keeps id input buyer now db listing _ valid sound found
      (may_order-active listing buyer now may)
      (orderable_quantity-le listing.quantity_available _ keep) q chosen h3
