-- ===== src/Market/Orders.antt =====
-- marketplace.service.ts: what a person reads of their orders (`getTransactionById`,
-- `listUserTransactions`, `getOrdersSummary`, `markOrdersSeen`). Of the joined passport only its id
-- is modelled, not its name and unit.
use trace_public.Common.{
  ℕ, Bool, true, false, not, ◌&&◌, ◌||◌, Option, none, some, List, [], ◌∷◌, String, ltb, leb, ◌==◌,
  is_id, if◌then◌else◌, keep, map, length, sort_by, last?,
}
use trace_public.Config.{OrderStatus, is_pending, is_confirmed, is_platform_admin}
use trace_public.Errors.{Result, ok, err, ◌>>=◌, ◌>>◌, require, refuse, not_found, Resource}
use trace_public.Store.{Listing, Transaction, OrderEvent, StepName, ActorSide, User, Db}
use trace_public.Table.{Table, find, modify, count_where}
use trace_public.Market.Offers.{Viewer, is_seller_role, sells_for}
use trace_public.Market.Transitions.{OrderAction, Sides, allowed_actions, response_deadline_of}
use trace_public.Market.Steps.{close_if_overdue}
use trace_public.Market.Sweep.{overdue_at}

-- `listing !== null && sellsFor(viewer, order, listing)`.
abbrev pub sells_lot : Viewer → Transaction → Option Listing → Bool
sells_lot viewer order none = false
sells_lot viewer order (some listing) = sells_for viewer order.seller_id listing.organisation_id

unfoldable pub get_transaction_by_id : ℕ → Viewer → Db → Result Transaction
get_transaction_by_id id viewer db = do
  order ← require (find id db.transactions) (not_found Resource.order)
  let is_party =
      order.buyer_id == viewer.user_id || sells_lot viewer order (find order.listing_id db.listings)
  refuse (not is_party && not (is_platform_admin viewer.role)) (not_found Resource.order)
  ok order

-- `OrderStep`: an event without its user id.
pub record OrderStep : Type 0 where
  pub action : StepName
  pub to_status : OrderStatus
  pub actor_side : ActorSide
  pub note : Option String
  pub created_at : ℕ

abbrev pub to_step : OrderEvent → OrderStep
to_step event = record {
  action = event.action;
  to_status = event.to_status;
  actor_side = event.actor_side;
  note = event.note;
  created_at = event.created_at;
}

-- `viewerSide`.
pub data ViewerSide : Type 0 where
  buyer seller : ViewerSide

pub record OrderForViewer : Type 0 where
  pub id : ℕ
  pub order : Transaction
  pub response_deadline : Option ℕ
  pub passport_id : Option ℕ
  pub viewer_side : ViewerSide
  pub allowed : List OrderAction
  pub steps : List OrderStep
  pub is_new : Bool
  pub needs_viewer : Bool

abbrev pub belongs : Option Listing → Option ℕ → Bool
belongs none organisation_id = false
belongs (some listing) organisation_id = is_id organisation_id listing.organisation_id

-- The condition `mine`.
unfoldable pub is_mine : Viewer → Db → Transaction → Bool
is_mine viewer db order =
    order.buyer_id == viewer.user_id
    || order.seller_id == viewer.user_id
    || is_seller_role viewer.role
      && belongs (find order.listing_id db.listings) viewer.organisation_id

-- An order's events, oldest first.
unfoldable pub events_of : ℕ → List OrderEvent → List OrderEvent
events_of id events =
    sort_by (λ a b. leb a.created_at b.created_at) (keep (λ e. e.transaction_id == id) events)

-- `!!last && last.actorId !== viewer.userId && (!seenAt || last.createdAt > seenAt)`.
abbrev pub moved_since : Option OrderEvent → ℕ → Option ℕ → Bool
moved_since none user_id seen_at = false
moved_since (some last) user_id none = not (is_id last.actor_id user_id)
moved_since (some last) user_id (some at) =
    not (is_id last.actor_id user_id) && ltb at last.created_at

unfoldable pub needs_viewer : OrderStatus → Bool → Bool → Bool
needs_viewer status is_buyer is_seller =
    is_pending status && is_seller && not is_buyer || is_confirmed status && is_buyer

abbrev pub passport_id_of : Option Listing → Option ℕ
passport_id_of none = none
passport_id_of (some listing) = some listing.passport_id

-- One row of the list.
unfoldable pub order_for_viewer : Viewer → Option ℕ → Db → ℕ → Transaction → OrderForViewer
unfolding allowed_actions response_deadline_of events_of needs_viewer
order_for_viewer viewer seen_at db id order =
    let listing = find order.listing_id db.listings in
    let on : Sides = record {
      buyer = order.buyer_id == viewer.user_id;
      seller = sells_lot viewer order listing;
      admin = is_platform_admin viewer.role;
    } in
    let events = events_of id db.order_events in
    record {
      id = id;
      order = order;
      response_deadline =
          if is_pending order.status then some (response_deadline_of order) else none;
      passport_id = passport_id_of listing;
      viewer_side = if on.buyer then ViewerSide.buyer else ViewerSide.seller;
      allowed = allowed_actions order.status on;
      steps = map to_step events;
      is_new = moved_since (last? events) viewer.user_id seen_at;
      needs_viewer = needs_viewer order.status on.buyer on.seller;
    }

abbrev pub seen_at_of : Option User → Option ℕ
seen_at_of none = none
seen_at_of (some user) = user.orders_seen_at

-- `select id … where mine and overdueAt`.
unfoldable pub overdue_of : Viewer → Db → ℕ → Table Transaction → List ℕ
unfolding is_mine overdue_at
overdue_of viewer db now [] = []
overdue_of viewer db now ((id, order) ∷ t) =
    let rest = overdue_of viewer db now t in
    if is_mine viewer db order && overdue_at now order then id ∷ rest else rest

-- The loop that closes them.
unfoldable pub close_each : List ℕ → ℕ → Db → Db × Result (Unit {0})
close_each [] now db = (db, ok tt)
close_each (id ∷ ids) now db = elim (close_if_overdue id now db) [
  | err e ↦ (db, err e)
  | ok (db', taken) ↦ close_each ids now db'
]

abbrev pub newest_first : (ℕ × Transaction) → (ℕ × Transaction) → Bool
newest_first a b = leb b.1.created_at a.1.created_at

-- The viewer's orders as they are read once the overdue ones are closed.
unfoldable pub read_orders : Viewer → Db → List OrderForViewer
unfolding is_mine order_for_viewer
read_orders viewer db =
    let seen_at = seen_at_of (find viewer.user_id db.users) in
    map (λ row. order_for_viewer viewer seen_at db row.0 row.1)
      (sort_by newest_first (keep (λ row. is_mine viewer db row.1) db.transactions))

unfoldable pub list_user_transactions : Viewer → ℕ → Db → Db × Result (List OrderForViewer)
unfolding overdue_of close_each read_orders
list_user_transactions viewer now db =
    let (db1, closed) = close_each (overdue_of viewer db now db.transactions) now db in
    elim closed [ err e ↦ (db1, err e) | ok _ ↦ (db1, ok (read_orders viewer db1)) ]

pub record OrdersSummary : Type 0 where
  pub needs_action : ℕ
  pub changed : ℕ
  pub flagged : ℕ

abbrev pub is_disputed : OrderStatus → Bool
is_disputed OrderStatus.disputed = true
is_disputed _ = false

unfoldable pub summary_of : Viewer → List OrderForViewer → Db → OrdersSummary
summary_of viewer orders db = record {
  needs_action = length (keep (λ (o : OrderForViewer). o.needs_viewer) orders);
  changed = length (keep (λ (o : OrderForViewer). o.is_new) orders);
  flagged =
      if is_platform_admin viewer.role
      then count_where (λ (o : Transaction). is_disputed o.status) db.transactions
      else 0;
}

unfoldable pub get_orders_summary : Viewer → ℕ → Db → Db × Result OrdersSummary
unfolding list_user_transactions summary_of
get_orders_summary viewer now db =
    let (db1, orders) = list_user_transactions viewer now db in
    elim orders [ err e ↦ (db1, err e) | ok listed ↦ (db1, ok (summary_of viewer listed db1)) ]

unfoldable pub mark_orders_seen : Viewer → ℕ → Db → Db
mark_orders_seen viewer now db = record db {
  users = modify viewer.user_id (λ user. record user { orders_seen_at = some now }) db.users;
}
