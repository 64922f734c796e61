-- ===== src/Market/Invariant/Requests.antt =====
-- The requests that move an order (`closeIfOverdue`, `updateTransaction`) and the sweep's loops
-- keep the invariant.
use trace_public.Common.{
  ℕ, [], ◌∷◌, List, Option, true, not, ◌||◌, ltb, some, ◌≡◌, inl, inr, refl, arith, Option-cases,
  Bool-cases, eq_true_of_not,
}
use trace_public.Config.{DisputeOutcome, OrderStatus, ListingStatus, is_active}
use trace_public.Errors.{ok, Result-cases, >>=-eq-ok, require-eq-ok, refuse-eq-ok}
use trace_public.Store.{Transaction, Db}
use trace_public.Table.{find}
use trace_public.Market.Lots.{is_open, has_passed, open_orders}
use trace_public.Market.Offers.{Viewer}
use trace_public.Market.Transitions.{
  target, timed_to, OrderAction, TimedAction, is_from, timed_step, sides_of,
}
use trace_public.Market.Steps.{
  overdue_step, apply_step, close_order, close_if_overdue, UpdateTransaction, asked_step, take_step,
  update_transaction,
}
use trace_public.Market.Sweep.{
  Swept, tally, close_all, expire_listing, expire_all, is_stale, overdue_at, select_ids,
  sweep_limit, sweep_order_lifecycle,
}
use trace_public.Market.Invariant.{IsSound}
use trace_public.Market.Invariant.Steps.{keeps_window, IsSound-of_ok, apply_step-keeps}
use trace_public.Market.Invariant.Retire.{retired-IsSound}

pub is_open_of_is_from :
    (action : OrderAction) (s : OrderStatus) → is_from action s ≡ true → is_open s ≡ true
unfolding is_from
is_open_of_is_from action s h = ground arith

pub is_open_of_timed_step :
    (order : Transaction) (now : ℕ) {due : TimedAction}
    → timed_step order now ≡ some due
    → is_open order.status ≡ true
unfolding timed_step
is_open_of_timed_step order now h = ground arith

keeps_window_of_timed_step :
    (order : Transaction) (now : ℕ) {due : TimedAction}
    → timed_step order now ≡ some due
    → keeps_window order.status (timed_to due) ≡ true
unfolding timed_step keeps_window
keeps_window_of_timed_step order now {due} h = ground arith

pub keeps_window_of_is_from :
    (action : OrderAction) (s : OrderStatus) (outcome : Option DisputeOutcome)
    → is_from action s ≡ true
    → keeps_window s (target action outcome) ≡ true
unfolding is_from keeps_window target
keeps_window_of_is_from action s outcome h = ground arith

close_order-keeps :
    (id : ℕ) (order : Transaction) (due : TimedAction) (now : ℕ) (db : Db) {db' : Db}
    {taken : Option TimedAction}
    → find id db.transactions ≡ some order
    → is_open order.status ≡ true
    → keeps_window order.status (timed_to due) ≡ true
    → IsSound db
    → close_order id order due now db ≡ ok (db', taken)
    → IsSound db'
unfolding close_order
close_order-keeps id order due now db {db'} found opened kept sound h =
    elim (Option-cases (find order.listing_id db.listings)) [
      | inl missing ↦ IsSound-of_ok sound (rw (missing, close_order) at h)
      | inr (listing, listed) ↦
          let ((db1, updated), applied, same) =
            >>=-eq-ok (apply_step id order listing (overdue_step due now) db) _
              (rw (listed, close_order) at h) in
          IsSound-of_ok
            (apply_step-keeps id order listing (overdue_step due now) db found listed opened kept
              sound applied)
            same
    ]

-- A time limit that passes keeps the invariant.
pub close_if_overdue-keeps :
    (id now : ℕ) (db : Db) {db' : Db} {taken : Option TimedAction}
    → IsSound db
    → close_if_overdue id now db ≡ ok (db', taken)
    → IsSound db'
unfolding close_if_overdue
close_if_overdue-keeps id now db sound h = elim (Option-cases (find id db.transactions)) [
  | inl missing ↦ IsSound-of_ok sound (rw (missing, close_if_overdue) at h)
  | inr (order, found) ↦
      let h1 = rw (found, close_if_overdue) at h in
      elim (Option-cases (timed_step order now)) [
        | inl early ↦ IsSound-of_ok sound (rw early at h1)
        | inr (due, late) ↦
            close_order-keeps id order due now db found (is_open_of_timed_step order now late)
              (keeps_window_of_timed_step order now late) sound (rw late at h1)
      ]
]

-- So does the step that a person takes.
pub take_step-keeps :
    (id : ℕ) (input : UpdateTransaction) (viewer : Viewer) (timed_out : Option TimedAction)
    (now : ℕ) (db : Db) {db' : Db} {updated : Transaction}
    → IsSound db
    → take_step id input viewer timed_out now db ≡ ok (db', updated)
    → IsSound db'
unfolding take_step
take_step-keeps id input viewer timed_out now db sound h =
    let (order, found, h1) = require-eq-ok (find id db.transactions) _ _ h in
    let (listing, listed, h2) = require-eq-ok (find order.listing_id db.listings) _ _ h1 in
    let (allowed, h3) = refuse-eq-ok _ _ _ h2 in
    let (from, h4) = refuse-eq-ok _ _ _ h3 in
    apply_step-keeps id order listing (asked_step input viewer (sides_of viewer order listing) now)
      db found listed (is_open_of_is_from input.action order.status (eq_true_of_not _ from))
      (keeps_window_of_is_from input.action order.status input.outcome (eq_true_of_not _ from))
      sound h4

-- From a state that satisfies the invariant, whatever step of whatever order a person asks for, and
-- whether or not it is taken, the state that is left satisfies the invariant.
pub update_transaction-IsSound :
    (id : ℕ) (input : UpdateTransaction) (viewer : Viewer) (now : ℕ) (db : Db)
    → IsSound db
    → IsSound (update_transaction id input viewer now db).0
unfolding update_transaction
update_transaction-IsSound id input viewer now db sound =
    elim (Result-cases (close_if_overdue id now db)) [
      | inl (e, failed) ↦ rw (failed, update_transaction) sound
      | inr ((db1, timed_out), closed) ↦
          let sound1 = close_if_overdue-keeps id now db sound closed in
          rw (closed, update_transaction)
            (elim (Result-cases (take_step id input viewer timed_out now db1)) [
              | inl (e, failed) ↦ rw failed sound1
              | inr ((db2, updated), taken) ↦
                  rw taken (take_step-keeps id input viewer timed_out now db1 sound1 taken)
            ])
    ]

close_all-IsSound :
    (ids : List ℕ) (now : ℕ) (result : Swept) (db : Db)
    → IsSound db
    → IsSound (close_all ids now result db).0
unfolding close_all
close_all-IsSound [] now result db sound = sound
close_all-IsSound (id ∷ ids) now result db sound =
    elim (Result-cases (close_if_overdue id now db)) [
      | inl (e, failed) ↦ rw (failed, close_all) sound
      | inr ((db1, taken), closed) ↦
          rw (closed, close_all)
            (close_all-IsSound ids now (tally taken result) db1
              (close_if_overdue-keeps id now db sound closed))
    ]

expire_listing-IsSound : (id now : ℕ) (db : Db) → IsSound db → IsSound (expire_listing id now db).0
unfolding expire_listing
expire_listing-IsSound id now db sound = elim (Option-cases (find id db.listings)) [
  | inl missing ↦ rw (missing, expire_listing) sound
  | inr (listing, found) ↦
      rw (found, expire_listing)
        (elim (Bool-cases (
          not (is_active listing.status)
          || not (has_passed listing.expires_at now)
          || ltb 0 (open_orders id db.transactions))) [
            | inl stays ↦ rw stays sound
            | inr goes ↦ rw goes (
                retired-IsSound id listing ListingStatus.expired now db sound found (ground arith)
                  refl (ground arith))
          ])
]

expire_all-IsSound :
    (ids : List ℕ) (now : ℕ) (result : Swept) (db : Db)
    → IsSound db
    → IsSound (expire_all ids now result db).0
unfolding expire_all
expire_all-IsSound [] now result db sound = sound
expire_all-IsSound (id ∷ ids) now result db sound =
    expire_all-IsSound ids now _ (expire_listing id now db).0
      (expire_listing-IsSound id now db sound)

-- From a state that satisfies the invariant, the sweep at any time leaves one that does, also where an
-- error ends it part-way.
pub sweep-IsSound : (now : ℕ) (db : Db) → IsSound db → IsSound (sweep_order_lifecycle now db).0
unfolding sweep_order_lifecycle
sweep-IsSound now db sound =
    let due = select_ids sweep_limit (overdue_at now) db.transactions in
    let start : Swept = record { lapsed = 0; completed = 0; expired_listings = 0 } in
    let db1 = (close_all due now start db).0 in
    let sound1 = close_all-IsSound due now start db sound in
    elim (Result-cases (close_all due now start db).1) [
      | inl (e, failed) ↦ rw (failed, sweep_order_lifecycle) sound1
      | inr (result, closed) ↦
          rw (closed, sweep_order_lifecycle)
            (expire_all-IsSound (select_ids sweep_limit (is_stale now) db1.listings) now result db1
              sound1)
    ]
