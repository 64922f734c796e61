-- ===== src/Tests/OrderForm.antt =====
-- The order form on the sample lot, of which thirty units are left.
use trace_public.Common.{none, some, ◌≡◌, ◌↔◌, ◌≤◌, arith}
use trace_public.Errors.{ok}
use trace_public.Market.Offers.{order_quantity}
use trace_public.Web.OrderForm.{order_quantity_problem}
use trace_public.Web.OrderForm.Laws.{shown_lot, form_agrees_with_api}
use trace_public.Tests.Samples.{lot_ordered}

form_agrees_with_api_example :
    (order_quantity_problem 10 (shown_lot lot_ordered 30) ≡ none)
    ↔ ((1 ≤ 10) × (order_quantity lot_ordered 30 (some 10) ≡ ok 10))
form_agrees_with_api_example = form_agrees_with_api lot_ordered 30 10 (omega arith) (omega arith)
