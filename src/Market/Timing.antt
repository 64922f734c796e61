-- ===== src/Market/Timing.antt =====
-- What a step records, and when the time limits of an order fall due.
use trace_public.Common.{
  ℕ, ◌+◌, ◌*◌, ◌≤◌, Bool, not, true, false, eq_true_of_not, some, ◌∷◌, ◌≡◌, ◌↔◌, ◌∙◌, sym, ap,
  subst, arith, if◌then◌else◌, Option-cases, inl, inr,
}
use trace_public.Config.{OrderStatus}
use trace_public.Errors.{ok, >>=-eq-ok, require-eq-ok, refuse-eq-ok, ok-injective}
use trace_public.Store.{Listing, Transaction, OrderEvent, PassportEvent, EventData, Db}
use trace_public.Table.{find, put}
use trace_public.Market.Lots.{settle_lot, write_lot}
use trace_public.Market.Offers.{Viewer, MakeOffer, new_order}
use trace_public.Market.Transitions.{timed_step, lapse, auto_complete, response_deadline_of}
use trace_public.Market.Steps.{
  Step, moved, move_order, record_step, apply_step, is_sale, stock_after, same_order_status,
}

-- An order that is placed lapses from 72 hours on, if nothing happens to it; one that moves to
-- confirmed completes by itself from 48 hours after that on.
pub time_limits :
    (listing : Listing) (input : MakeOffer) (quantity : ℕ) (buyer : Viewer) (order : Transaction)
    (step : Step) (placed now : ℕ)
    → step.to ≡ OrderStatus.confirmed
    → ((timed_step (new_order listing input quantity buyer placed) now ≡ some lapse)
        ↔ (placed + 72 * (60 * 60 * 1000) ≤ now))
      × ((timed_step (moved step order) now ≡ some auto_complete)
          ↔ (step.now + 48 * (60 * 60 * 1000) ≤ now))
unfolding timed_step new_order moved response_deadline_of
time_limits listing input quantity buyer order step placed now confirmed = (
  ((λ h. ground arith), (λ h. ground arith)),
  rw confirmed ((λ h. ground arith), (λ h. ground arith)),
)

write_lot-kept :
    (id : ℕ) (listing updated : Listing) (reopen : Bool) (now : ℕ) (db : Db)
    → ((write_lot id listing updated reopen now db).transactions ≡ db.transactions)
      × ((write_lot id listing updated reopen now db).order_events ≡ db.order_events)
      × ((write_lot id listing updated reopen now db).passport_events ≡ db.passport_events)
unfolding write_lot
write_lot-kept id listing updated reopen now db = ground arith

settle_lot-kept :
    (id : ℕ) (listing : Listing) (available : ℕ) (changes : Listing → Listing) (reopen : Bool)
    (now : ℕ) (db : Db) {db' : Db} {lot : Listing}
    → settle_lot id listing available changes reopen now db ≡ ok (db', lot)
    → (db'.transactions ≡ db.transactions)
      × (db'.order_events ≡ db.order_events)
      × (db'.passport_events ≡ db.passport_events)
unfolding settle_lot
settle_lot-kept id listing available changes reopen now db {db'} {lot} h =
    elim (Option-cases (find id db.listings)) [
      | inl missing ↦ let h1 = rw (missing, settle_lot) at h in cc h1
      | inr (row, found) ↦
          subst
            (λ (d : Db).
              (d.transactions ≡ db.transactions)
              × (d.order_events ≡ db.order_events)
              × (d.passport_events ≡ db.passport_events))
            (ap (λ p. p.0) (ok-injective (rw (found, settle_lot) at h)))
            (write_lot-kept id listing _ reopen now db)
    ]

abbrev pub event_of : ℕ → Transaction → Step → OrderEvent
event_of id order step = record {
  transaction_id = id;
  action = step.action;
  from_status = some order.status;
  to_status = step.to;
  actor_id = step.actor_id;
  actor_side = step.actor_side;
  note = step.note;
  created_at = step.now;
}

abbrev pub sale_of : ℕ → Transaction → Listing → Step → PassportEvent
sale_of id order listing step = record {
  passport_id = listing.passport_id;
  event_data = EventData.sold id order.buyer_id order.quantity order.amount_pence;
  actor_id = step.actor_id;
}

move_order-writes :
    (id : ℕ) (order : Transaction) (step : Step) (db : Db) {db' : Db} {updated : Transaction}
    → move_order id order step db ≡ ok (db', updated)
    → (row : Transaction) × (find id db.transactions ≡ some row)
      × (same_order_status row.status order.status ≡ true)
      × (db' ≡ record db { transactions = put id (moved step row) db.transactions })
      × (updated ≡ moved step row)
unfolding move_order
move_order-writes id order step db {db'} {updated} h =
    let (row, found, h1) = require-eq-ok (find id db.transactions) _ _ h in
    let (same, h2) = refuse-eq-ok (not (same_order_status row.status order.status)) _ _ h1 in
    let e : Path (Db × Transaction)
        (record db { transactions = put id (moved step row) db.transactions }, moved step row)
        (db', updated) =
      ok-injective h2 in
    (row, found, eq_true_of_not _ same, sym (ap (λ p. p.0) e), sym (ap (λ p. p.1) e))

module _ (id : ℕ) (order : Transaction) (listing : Listing) (step : Step) (db db1 db2 db' : Db)
    (row updated : Transaction)
    (is_moved : db1 ≡ record db { transactions = put id (moved step row) db.transactions })
    (is_settled : (db2.transactions ≡ db1.transactions)
      × (db2.order_events ≡ db1.order_events)
      × (db2.passport_events ≡ db1.passport_events))
    (is_recorded : db' ≡ record_step id order listing step db2) where
  recorded :
      (db'.transactions ≡ put id (moved step row) db.transactions)
      × (db'.order_events ≡ event_of id order step ∷ db.order_events)
      × (db'.passport_events ≡ (
          if is_sale step.to
          then sale_of id order listing step ∷ db.passport_events
          else db.passport_events))
  unfolding record_step
  recorded =
      let (kept, events, history) = is_settled in
      (
        ap (λ (d : Db). d.transactions) is_recorded
            ∙ (kept ∙ ap (λ (d : Db). d.transactions) is_moved),
        ap (λ (d : Db). d.order_events) is_recorded
            ∙ ap (λ es. event_of id order step ∷ es)
                (events ∙ ap (λ (d : Db). d.order_events) is_moved),
        ap (λ (d : Db). d.passport_events) is_recorded
            ∙ ap (λ es. if is_sale step.to then sale_of id order listing step ∷ es else es)
                (history ∙ ap (λ (d : Db). d.passport_events) is_moved),
      )

pub apply_step-records :
    (id : ℕ) (order : Transaction) (listing : Listing) (step : Step) (db : Db) {db' : Db}
    {updated : Transaction}
    → apply_step id order listing step db ≡ ok (db', updated)
    → (row : Transaction) × (find id db.transactions ≡ some row)
      × (same_order_status row.status order.status ≡ true)
      × (updated ≡ moved step row)
      × (db'.transactions ≡ put id (moved step row) db.transactions)
      × (db'.order_events ≡ event_of id order step ∷ db.order_events)
      × (db'.passport_events ≡ (
          if is_sale step.to
          then sale_of id order listing step ∷ db.passport_events
          else db.passport_events))
unfolding apply_step
apply_step-records id order listing step db {db'} {updated} h =
    let ((db1, u), is_moved, h1) = >>=-eq-ok (move_order id order step db) _ h in
    let ((db2, lot), is_settled, h2) =
      >>=-eq-ok
        (settle_lot order.listing_id listing (stock_after listing order step.to) (λ row. row) false
          step.now db1)
        _ h1 in
    let (row, found, same, e1, e2) = move_order-writes id order step db is_moved in
    let e : Path (Db × Transaction) (record_step id order listing step db2, u) (db', updated) =
      ok-injective h2 in
    let (rows, events, history) =
      recorded id order listing step db db1 db2 db' row updated e1
        (settle_lot-kept order.listing_id listing _ _ _ _ db1 is_settled) (sym (ap (λ p. p.0) e)) in
    (row, found, same, sym (ap (λ p. p.1) e) ∙ e2, rows, events, history)
