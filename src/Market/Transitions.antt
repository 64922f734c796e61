-- ===== src/Market/Transitions.antt =====
-- marketplace.service.ts: the rules of an order's steps (`TRANSITIONS`, `mayAct`, `allowedActions`,
-- `responseDeadlineOf`, `timedStep`) and what `updateTransaction` reads off them.
use trace_public.Common.{
  ℕ, ◌+◌, ◌*◌, Bool, true, false, ◌&&◌, ◌||◌, Option, none, some, List, [], ◌∷◌, String, leb, ◌==◌,
  ◌or_else◌, if◌then◌else◌, keep,
}
use trace_public.Config.{
  OrderStatus, DisputeOutcome, is_pending, is_confirmed, is_platform_admin,
  order_problem_window_hours,
}
use trace_public.Errors.{Reason}
use trace_public.Store.{Listing, Transaction, ActorSide}
use trace_public.Market.Lots.{has_passed}
use trace_public.Market.Offers.{Viewer, sells_for, hour_ms, response_window_ms}

-- `OrderAction`: what a person may ask for.
pub data OrderAction : Type 0 where
  accept reject cancel confirm_delivery flag_dispute resolve_dispute : OrderAction

-- `OrderSide`.
pub data OrderSide : Type 0 where
  buyer seller party platform_admin : OrderSide

-- `TimedAction`: the steps that a time limit takes.
pub data TimedAction : Type 0 where
  lapse auto_complete : TimedAction

-- `TRANSITIONS[action].from.includes(status)`.
unfoldable pub is_from : OrderAction → OrderStatus → Bool
is_from OrderAction.accept OrderStatus.pending = true
is_from OrderAction.reject OrderStatus.pending = true
is_from OrderAction.cancel OrderStatus.pending = true
is_from OrderAction.cancel OrderStatus.confirmed = true
is_from OrderAction.confirm_delivery OrderStatus.confirmed = true
is_from OrderAction.flag_dispute OrderStatus.confirmed = true
is_from OrderAction.resolve_dispute OrderStatus.disputed = true
is_from _ _ = false

-- `TRANSITIONS[action].to`.
unfoldable pub to_status : OrderAction → OrderStatus
to_status OrderAction.accept = OrderStatus.confirmed
to_status OrderAction.reject = OrderStatus.cancelled
to_status OrderAction.cancel = OrderStatus.cancelled
to_status OrderAction.confirm_delivery = OrderStatus.completed
to_status OrderAction.flag_dispute = OrderStatus.disputed
to_status OrderAction.resolve_dispute = OrderStatus.resolved

-- `TRANSITIONS[action].by`.
unfoldable pub by_side : OrderAction → OrderSide
by_side OrderAction.accept = OrderSide.seller
by_side OrderAction.reject = OrderSide.seller
by_side OrderAction.cancel = OrderSide.party
by_side OrderAction.confirm_delivery = OrderSide.buyer
by_side OrderAction.flag_dispute = OrderSide.buyer
by_side OrderAction.resolve_dispute = OrderSide.platform_admin

-- The sides of an order that the viewer is on.
pub record Sides : Type 0 where
  pub buyer : Bool
  pub seller : Bool
  pub admin : Bool

unfoldable pub may_act : OrderSide → Sides → Bool
may_act OrderSide.buyer on = on.buyer
may_act OrderSide.seller on = on.seller
may_act OrderSide.party on = on.buyer || on.seller
may_act OrderSide.platform_admin on = on.admin

-- `Object.keys(TRANSITIONS)`.
abbrev pub actions : List OrderAction
actions =
    OrderAction.accept ∷ OrderAction.reject ∷ OrderAction.cancel ∷ OrderAction.confirm_delivery
    ∷ OrderAction.flag_dispute ∷ OrderAction.resolve_dispute ∷ []

unfoldable pub allowed_actions : OrderStatus → Sides → List OrderAction
unfolding is_from by_side may_act
allowed_actions status on =
    keep (λ action. is_from action status && may_act (by_side action) on) actions

unfoldable pub response_deadline_of : Transaction → ℕ
response_deadline_of order = order.response_deadline or_else order.created_at + response_window_ms

abbrev pub timed_to : TimedAction → OrderStatus
timed_to lapse = OrderStatus.cancelled
timed_to auto_complete = OrderStatus.completed

-- The step that a time limit takes on this order; it leads to `timed_to`.
unfoldable pub timed_step : Transaction → ℕ → Option TimedAction
unfolding response_deadline_of
timed_step order now =
    if is_pending order.status && leb (response_deadline_of order) now
    then some lapse
    else if is_confirmed order.status && has_passed order.dispute_deadline now
    then some auto_complete
    else none

abbrev pub dispute_window_ms : ℕ
dispute_window_ms = order_problem_window_hours * hour_ms

-- Where the step leads: a flagged order may be resolved by cancelling it.
unfoldable pub target : OrderAction → Option DisputeOutcome → OrderStatus
unfolding to_status
target OrderAction.resolve_dispute (some DisputeOutcome.cancel_order) = OrderStatus.cancelled
target action _ = to_status action

unfoldable pub sides_of : Viewer → Transaction → Listing → Sides
unfolding sells_for
sides_of viewer order listing = record {
  buyer = order.buyer_id == viewer.user_id;
  seller = sells_for viewer order.seller_id listing.organisation_id;
  admin = is_platform_admin viewer.role;
}

abbrev pub is_admin_step : OrderSide → Bool
is_admin_step OrderSide.platform_admin = true
is_admin_step _ = false

unfoldable pub actor_side : OrderAction → Sides → ActorSide
unfolding by_side
actor_side action on =
    if on.admin && is_admin_step (by_side action)
    then ActorSide.platform
    else if on.buyer
    then ActorSide.buyer
    else ActorSide.seller

-- Why an order in this status takes no such step.
unfoldable pub wrong_state : Option TimedAction → OrderStatus → Reason
wrong_state (some lapse) status = Reason.lapsed
wrong_state (some auto_complete) status = Reason.auto_completed
wrong_state none status = Reason.not_in_state status

-- `input.notes || null`: an empty note is none.
abbrev pub note_of : Option String → Option String
note_of none = none
note_of (some String.[]) = none
note_of (some s) = some s
