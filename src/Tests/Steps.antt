-- ===== src/Tests/Steps.antt =====
-- A step of an order, run: the seller accepts it.
use trace_public.Common.{ℕ, ◌⊎◌, ◌+◌, ◌*◌, ◌≤◌, none, some, ◌∷◌, ◌≡◌, ◌↔◌, refl}
use trace_public.Config.{OrderStatus}
use trace_public.Errors.{ok}
use trace_public.Store.{OrderEvent, Transaction, StepName, ActorSide, Db}
use trace_public.Table.{find, put, insert}
use trace_public.Market.Lots.{orderable_quantity, settle_lot}
use trace_public.Market.Listings.{create_listing}
use trace_public.Market.Offers.{make_offer, new_order}
use trace_public.Market.Transitions.{timed_step, lapse, auto_complete}
use trace_public.Market.Steps.{Step, moved, apply_step}
use trace_public.Market.Routes.{handle, dispatch}
use trace_public.Market.Timing.{time_limits}
use trace_public.Market.Effects.{SameTerms, SaysMove, History, apply_step_keeps_books}
use trace_public.Tests.Samples.{ten_please, buyer_viewer, lot_ordered, order_placed, db_ordered}

abbrev accepting : Step
accepting = record {
  action = StepName.accept;
  to = OrderStatus.confirmed;
  actor_id = some 1;
  actor_side = ActorSide.seller;
  note = none;
  now = 3000;
}

time_limits_example :
    ((timed_step (new_order lot_ordered ten_please 10 buyer_viewer 2000) 259202000 ≡ some lapse)
      ↔ (2000 + 72 * (60 * 60 * 1000) ≤ 259202000))
    × ((timed_step (moved accepting order_placed) 259202000 ≡ some auto_complete)
        ↔ (3000 + 48 * (60 * 60 * 1000) ≤ 259202000))
time_limits_example =
    time_limits lot_ordered ten_please 10 buyer_viewer order_placed accepting 2000 259202000 refl

accepted :
    (db' : Db) × (updated : Transaction) × (apply_step 200 order_placed lot_ordered accepting
        db_ordered
      ≡ ok (db', updated))
unfolding handle dispatch find create_listing make_offer insert orderable_quantity settle_lot put
    apply_step
accepted = (_, _, refl)

apply_step_keeps_books_example :
    (row : Transaction) × (event : OrderEvent) × (find 200 db_ordered.transactions ≡ some row)
    × (row.status ≡ OrderStatus.pending)
    × (find 200 accepted.0.transactions ≡ some accepted.1)
    × (accepted.1.status ≡ OrderStatus.confirmed)
    × SameTerms row accepted.1
    × ((Path ℕ 200 201) ⊎ (find 201 accepted.0.transactions ≡ find 201 db_ordered.transactions))
    × (accepted.0.order_events ≡ event ∷ db_ordered.order_events)
    × SaysMove 200 row.status accepting event
    × History 200 order_placed lot_ordered OrderStatus.confirmed db_ordered accepted.0
apply_step_keeps_books_example =
    apply_step_keeps_books 200 order_placed lot_ordered accepting db_ordered 201 accepted.2
