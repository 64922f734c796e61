-- ===== src/Market/Steps.antt =====
-- marketplace.service.ts: taking a step of an order (`applyStep`, `closeIfOverdue`,
-- `updateTransaction`).
use trace_public.Common.{
  ℕ, ◌+◌, min, Bool, true, false, not, Option, none, some, ◌∷◌, String, if◌then◌else◌,
}
use trace_public.Config.{OrderStatus, DisputeOutcome, is_confirmed, is_cancelled}
use trace_public.Errors.{
  Result, ok, err, ◌>>=◌, ◌>>◌, require, refuse, not_found, forbidden, conflict, Resource, Reason,
}
use trace_public.Store.{
  Listing, Transaction, StepName, ActorSide, OrderEvent, PassportEvent, EventData, Db,
}
use trace_public.Table.{find, put}
use trace_public.Market.Lots.{settle_lot}
use trace_public.Market.Offers.{Viewer}
use trace_public.Market.Transitions.{
  OrderAction, TimedAction, lapse, auto_complete, Sides, is_from, by_side, may_act, timed_to,
  timed_step, dispute_window_ms, target, sides_of, actor_side, wrong_state, note_of,
}

-- The `step` argument of `applyStep`.
pub record Step : Type 0 where
  pub action : StepName
  pub to : OrderStatus
  pub actor_id : Option ℕ
  pub actor_side : ActorSide
  pub note : Option String
  pub now : ℕ

-- `order.status === status` of the guarded update.
abbrev pub same_order_status : OrderStatus → OrderStatus → Bool
same_order_status OrderStatus.pending OrderStatus.pending = true
same_order_status OrderStatus.confirmed OrderStatus.confirmed = true
same_order_status OrderStatus.disputed OrderStatus.disputed = true
same_order_status OrderStatus.resolved OrderStatus.resolved = true
same_order_status OrderStatus.completed OrderStatus.completed = true
same_order_status OrderStatus.cancelled OrderStatus.cancelled = true
same_order_status _ _ = false

-- The order row after the step.
unfoldable pub moved : Step → Transaction → Transaction
moved step row = record row {
  status = step.to;
  dispute_deadline =
      if is_confirmed step.to then some (step.now + dispute_window_ms) else row.dispute_deadline;
}

-- `update … where id = and status = … returning`.
unfoldable pub move_order : ℕ → Transaction → Step → Db → Result (Db × Transaction)
unfolding moved
move_order id order step db = do
  row ← require (find id db.transactions) (conflict Reason.order_changed)
  refuse (not (same_order_status row.status order.status)) (conflict Reason.order_changed)
  let updated = moved step row
  ok (record db { transactions = put id updated db.transactions }, updated)

-- `step.to === 'completed' || step.to === 'resolved'`.
abbrev pub is_sale : OrderStatus → Bool
is_sale OrderStatus.completed = true
is_sale OrderStatus.resolved = true
is_sale _ = false

-- What the lot has left once a cancelled order has given its share back.
unfoldable pub stock_after : Listing → Transaction → OrderStatus → ℕ
stock_after listing order to =
    min listing.quantity
      (listing.quantity_available + (if is_cancelled to then order.quantity else 0))

-- The events that a step leaves: the material's sale, if it is one, and the step.
unfoldable pub record_step : ℕ → Transaction → Listing → Step → Db → Db
record_step id order listing step db =
    let sale : PassportEvent = record {
      passport_id = listing.passport_id;
      event_data = EventData.sold id order.buyer_id order.quantity order.amount_pence;
      actor_id = step.actor_id;
    } in
    let event : OrderEvent = record {
      transaction_id = id;
      action = step.action;
      from_status = some order.status;
      to_status = step.to;
      actor_id = step.actor_id;
      actor_side = step.actor_side;
      note = step.note;
      created_at = step.now;
    } in
    record db {
      passport_events = if is_sale step.to then sale ∷ db.passport_events else db.passport_events;
      order_events = event ∷ db.order_events;
    }

unfoldable pub apply_step : ℕ → Transaction → Listing → Step → Db → Result (Db × Transaction)
unfolding move_order stock_after record_step
apply_step id order listing step db = do
  (db1, updated) ← move_order id order step db
  (db2, lot) ←
      settle_lot order.listing_id listing (stock_after listing order step.to) (λ row. row) false
        step.now db1
  ok (record_step id order listing step db2, updated)

abbrev pub timed_name : TimedAction → StepName
timed_name lapse = StepName.lapse
timed_name auto_complete = StepName.auto_complete

abbrev pub overdue_step : TimedAction → ℕ → Step
overdue_step due now = record {
  action = timed_name due;
  to = timed_to due;
  actor_id = none;
  actor_side = ActorSide.time_limit;
  note = none;
  now = now;
}

-- The body of `closeIfOverdue` with the order's row and the step that is due.
unfoldable pub close_order :
    ℕ → Transaction → TimedAction → ℕ → Db → Result (Db × Option TimedAction)
close_order id order due now db = elim (find order.listing_id db.listings) [
  | none ↦ ok (db, none)
  | some listing ↦ do
    (db', updated) ← apply_step id order listing (overdue_step due now) db
    ok (db', some due)
]

unfoldable pub close_if_overdue : ℕ → ℕ → Db → Result (Db × Option TimedAction)
unfolding close_order timed_step
close_if_overdue id now db = elim (find id db.transactions) [
  | none ↦ ok (db, none)
  | some order ↦ elim (timed_step order now) [
    | none ↦ ok (db, none)
    | some due ↦ close_order id order due now db
  ]
]

-- `UpdateTransactionInput`.
pub record UpdateTransaction : Type 0 where
  pub action : OrderAction
  pub notes : Option String
  pub outcome : Option DisputeOutcome

abbrev pub action_name : OrderAction → StepName
action_name OrderAction.accept = StepName.accept
action_name OrderAction.reject = StepName.reject
action_name OrderAction.cancel = StepName.cancel
action_name OrderAction.confirm_delivery = StepName.confirm_delivery
action_name OrderAction.flag_dispute = StepName.flag_dispute
action_name OrderAction.resolve_dispute = StepName.resolve_dispute

-- The step that a viewer asks for, as `applyStep` takes it.
unfoldable pub asked_step : UpdateTransaction → Viewer → Sides → ℕ → Step
unfolding target actor_side
asked_step input viewer on now = record {
  action = action_name input.action;
  to = target input.action input.outcome;
  actor_id = some viewer.user_id;
  actor_side = actor_side input.action on;
  note = note_of input.notes;
  now = now;
}

-- The second transaction of `updateTransaction`.
unfoldable pub take_step :
    ℕ → UpdateTransaction → Viewer → Option TimedAction → ℕ → Db → Result (Db × Transaction)
unfolding is_from by_side may_act sides_of wrong_state asked_step
take_step id input viewer timed_out now db = do
  order ← require (find id db.transactions) (not_found Resource.order)
  listing ← require (find order.listing_id db.listings) (not_found Resource.listing)
  let on = sides_of viewer order listing
  refuse (not (may_act (by_side input.action) on)) (forbidden Reason.not_your_step)
  refuse (not (is_from input.action order.status)) (conflict (wrong_state timed_out order.status))
  apply_step id order listing (asked_step input viewer on now) db

-- The state that is left, and the answer: what `closeIfOverdue` wrote in its own transaction stays
-- also where the step is then refused.
unfoldable pub update_transaction :
    ℕ → UpdateTransaction → Viewer → ℕ → Db → Db × Result Transaction
update_transaction id input viewer now db = elim (close_if_overdue id now db) [
  | err e ↦ (db, err e)
  | ok (db1, timed_out) ↦ elim (take_step id input viewer timed_out now db1) [
    | err e ↦ (db1, err e)
    | ok (db2, updated) ↦ (db2, ok updated)
  ]
]
