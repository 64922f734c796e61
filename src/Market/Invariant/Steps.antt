-- ===== src/Market/Invariant/Steps.antt =====
-- A step of an open order (`applyStep`) never fails on the rows it was given, and keeps the
-- invariant.
use trace_public.Common.{
  Bool, ℕ, ◌+◌, ◌≤◌, true, false, ==_self, some, ◌≡◌, ◌≢◌, refl, sym, ap, subst, ◌∙◌, arith,
  if◌then◌else◌,
}
use trace_public.Config.{OrderStatus, ListingStatus, is_cancelled}
use trace_public.Errors.{Result, ok, ok-injective}
use trace_public.Store.{Listing, Transaction, Db}
use trace_public.Table.{find, put}
use trace_public.Table.Laws.{le-sum_by, AllRows-find, AllRows-put}
use trace_public.Market.Lots.{is_live, is_open, open_orders, write_lot}
use trace_public.Market.Steps.{
  Step, moved, move_order, same_order_status, stock_after, record_step, apply_step,
}
use trace_public.Market.Invariant.{
  WindowFits, takes, share_of, taken, OrderFits, IsSound, StatusFits,
}
use trace_public.Market.Invariant.Writes.{opens, taken-put, open_orders-put}
use trace_public.Market.Invariant.Lot.{Rest, next_lot, settle_lot-eq, restocked-IsSound}

pub same_order_status_self : (s : OrderStatus) → same_order_status s s ≡ true
same_order_status_self s = ground arith

takes_of_open : (s : OrderStatus) → is_open s ≡ true → takes s ≡ true
takes_of_open s h = ground arith

-- Which moves keep the problem window in step with the status: it is open from the acceptance on.
unfoldable pub keeps_window : (from to : OrderStatus) → Bool
keeps_window from OrderStatus.confirmed = true
keeps_window from OrderStatus.cancelled = true
keeps_window OrderStatus.confirmed OrderStatus.disputed = true
keeps_window OrderStatus.confirmed OrderStatus.completed = true
keeps_window OrderStatus.disputed OrderStatus.resolved = true
keeps_window from to = false

WindowFits-moved :
    (order : Transaction) (step : Step)
    → keeps_window order.status step.to ≡ true
    → WindowFits order.status order.dispute_deadline
    → WindowFits (moved step order).status (moved step order).dispute_deadline
unfolding keeps_window moved
WindowFits-moved order step kept fits = ground arith

-- Only a live lot has open orders.
dead_has_none :
    (s : ListingStatus) (available opened : ℕ)
    → 1 ≤ opened
    → StatusFits s available opened
    → is_live s ≡ true
dead_has_none ListingStatus.active available opened h f = refl
dead_has_none ListingStatus.reserved available opened h f = refl
dead_has_none ListingStatus.sold available opened h f = refl
dead_has_none ListingStatus.expired available opened h f = absurd (omega arith)
dead_has_none ListingStatus.cancelled available opened h f = absurd (omega arith)

-- The state of an answer that is known is that of the answer.
pub IsSound-of_ok {ℓ} :
    {A : Type ℓ} {db db' : Db} {x y : A}
    → IsSound db
    → ◌≡◌ {A = Result (Db × A)} (ok (db, x)) (ok (db', y))
    → IsSound db'
IsSound-of_ok sound h = subst IsSound (ap (λ p. p.0) (ok-injective h)) sound

record_step-IsSound :
    (id : ℕ) (order : Transaction) (listing : Listing) (step : Step) (db : Db)
    → IsSound db
    → IsSound (record_step id order listing step db)
unfolding record_step
record_step-IsSound id order listing step db s = record {
  lots = s.lots;
  terms = s.terms;
  materials = s.materials;
  single = s.single;
  orders = s.orders;
}

module _ (id : ℕ) (order : Transaction) (listing : Listing) (step : Step) (db : Db)
    (found : find id db.transactions ≡ some order) where
  abbrev db_moved : Db
  db_moved = record db { transactions = put id (moved step order) db.transactions }

  move_order-eq : move_order id order step db ≡ ok (db_moved, moved step order)
  unfolding move_order
  move_order-eq = rw (found, move_order) (rw (same_order_status_self order.status))

  module _ (listed : find order.listing_id db.listings ≡ some listing)
      (opened : is_open order.status ≡ true) (kept : keeps_window order.status step.to ≡ true)
      (sound : IsSound db) where
    abbrev lot_id : ℕ
    lot_id = order.listing_id

    share_before : share_of lot_id order ≡ order.quantity
    share_before = rw (==_self order.listing_id, takes_of_open order.status opened)

    share_after :
        share_of lot_id (moved step order) ≡ (if is_cancelled step.to then 0 else order.quantity)
    unfolding moved
    share_after = ground (arith, ==_self order.listing_id)

    share_other :
        (j : ℕ) → lot_id ≢ j → (t : Transaction) → t.listing_id ≡ lot_id → share_of j t ≡ 0
    share_other j ne t e = ground arith

    opens_other : (j : ℕ) → lot_id ≢ j → (t : Transaction) → t.listing_id ≡ lot_id → opens j t ≡ 0
    opens_other j ne t e = ground arith

    moved-listing_id : (moved step order).listing_id ≡ lot_id
    unfolding moved
    moved-listing_id = refl

    quantity-le-taken : order.quantity ≤ taken lot_id db.transactions
    unfolding taken
    quantity-le-taken =
        omega (arith, share_before, le-sum_by (share_of lot_id) id db.transactions found)

    one-le-open_orders : 1 ≤ open_orders lot_id db.transactions
    unfolding open_orders
    one-le-open_orders =
        let one : opens lot_id order ≡ 1 = rw (==_self order.listing_id, opened) in
        omega (arith, one, le-sum_by (opens lot_id) id db.transactions found)

    -- What the lot has left is exactly what its other orders leave: the cap at the lot size never
    -- binds.
    stock_kept :
        taken lot_id db_moved.transactions + stock_after listing order step.to ≡ listing.quantity
    unfolding stock_after
    stock_kept = ground (
      arith,
      share_before,
      share_after,
      quantity-le-taken,
      (sound.lots lot_id listing listed).stock,
      taken-put id (moved step order) db.transactions lot_id found,
    )

    taken_other : (j : ℕ) → lot_id ≢ j → taken j db_moved.transactions ≡ taken j db.transactions
    taken_other j ne = omega (
      arith,
      share_other j ne order refl,
      share_other j ne (moved step order) moved-listing_id,
      taken-put id (moved step order) db.transactions j found,
    )

    open_orders_other :
        (j : ℕ) → lot_id ≢ j → open_orders j db_moved.transactions ≡ open_orders j db.transactions
    open_orders_other j ne = omega (
      arith,
      opens_other j ne order refl,
      opens_other j ne (moved step order) moved-listing_id,
      open_orders-put id (moved step order) db.transactions j found,
    )

    moved-OrderFits : OrderFits (moved step order) db.listings
    unfolding moved
    moved-OrderFits =
        let o = AllRows-find (λ t. OrderFits t db.listings) id db.transactions sound.orders found in
        record {
          quantity = o.quantity;
          amount = o.amount;
          unit_price = o.unit_price;
          window = WindowFits-moved order step kept o.window;
          listing = o.listing;
        }

    moved-Rest : Rest lot_id db_moved
    moved-Rest = record {
      lots = λ j lot ne h. record {
        stock = rw (taken_other j ne) (sound.lots j lot h).stock;
        status = rw (open_orders_other j ne) (sound.lots j lot h).status;
      };
      terms = sound.terms;
      materials = sound.materials;
      single = sound.single;
      orders =
          AllRows-put (λ t. OrderFits t db.listings) id (moved step order) db.transactions
            moved-OrderFits sound.orders;
    }

    lot_is_live : is_live listing.status ≡ true
    lot_is_live =
        dead_has_none listing.status _ _ one-le-open_orders
          (sound.lots lot_id listing listed).status

    abbrev db_restocked : Db
    db_restocked =
        let available = stock_after listing order step.to in
        write_lot lot_id listing
          (next_lot lot_id listing available (λ row. row) false step.now db_moved) false step.now
          db_moved

    -- A step of an open order is taken.
    pub apply_step-eq :
        apply_step id order listing step db
        ≡ ok (record_step id order listing step db_restocked, moved step order)
    unfolding apply_step
    apply_step-eq = rw (
      move_order-eq,
      settle_lot-eq lot_id listing (stock_after listing order step.to) (λ row. row) false step.now
          db_moved listed,
    )

    pub apply_step-IsSound : IsSound (record_step id order listing step db_restocked)
    apply_step-IsSound = record_step-IsSound id order listing step db_restocked (
        restocked-IsSound lot_id listing (stock_after listing order step.to) step.now db_moved
          moved-Rest listed stock_kept (λ dead. cc (lot_is_live, dead)))

    pub apply_step-keeps :
        {db' : Db} {updated : Transaction}
        → apply_step id order listing step db ≡ ok (db', updated)
        → IsSound db'
    apply_step-keeps h = IsSound-of_ok apply_step-IsSound (sym apply_step-eq ∙ h)

    pub apply_step_total :
        (db' : Db) × (apply_step id order listing step db ≡ ok (db', moved step order))
    apply_step_total = (record_step id order listing step db_restocked, apply_step-eq)
