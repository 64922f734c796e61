-- ===== src/Web/OrderForm/Laws.antt =====
-- The order form of packages/web and `makeOffer` of the API.
use trace_public.Common.{ℕ, ◌*◌, ◌≤◌, none, some, ◌≡◌, ◌⊎◌, inr, ◌↔◌, arith}
use trace_public.Config.{max_amount_pence}
use trace_public.Errors.{ok}
use trace_public.Store.{Listing}
use trace_public.Market.Offers.{order_quantity}
use trace_public.Market.Quantities.{order_quantity_iff}
use trace_public.Web.OrderForm.{
  LotAvailability, orderable_of, default_order_quantity, order_quantity_problem,
}

-- The form's lot, as the API's answer shows it.
abbrev pub shown_lot : Listing → ℕ → LotAvailability
shown_lot listing orderable = record {
  quantity_available = listing.quantity_available;
  min_order_quantity = listing.min_order_quantity;
  orderable_quantity = some orderable;
}

-- What the form finds no fault with.
problem_iff :
    (listing : Listing) (orderable q : ℕ)
    → orderable ≤ listing.quantity_available
    → (order_quantity_problem q (shown_lot listing orderable) ≡ none)
      ↔ ((1 ≤ q) × (q ≤ orderable) × ((listing.min_order_quantity ≤ q) ⊎ (orderable ≤ q)))
unfolding order_quantity_problem orderable_of
problem_iff listing orderable q h = (λ e. ground arith, λ p. ground arith)

-- For a lot of which no more may be ordered than it has left, and a quantity whose total is at most the
-- largest amount, the order form shows no problem exactly when the API would take an order of that
-- quantity and it is at least 1.
pub form_agrees_with_api :
    (listing : Listing) (orderable q : ℕ)
    → orderable ≤ listing.quantity_available
    → listing.price_pence * q ≤ max_amount_pence
    → (order_quantity_problem q (shown_lot listing orderable) ≡ none)
      ↔ ((1 ≤ q) × (order_quantity listing orderable (some q) ≡ ok q))
form_agrees_with_api listing orderable q h total = (
  (λ e.
      let p = (problem_iff listing orderable q h).0 e in
      (
        p.0,
        (order_quantity_iff listing orderable q h).1
            (inr (omega (arith, p.0, p.1)), p.1, p.2, total),
      )),
  λ p.
      let r = (order_quantity_iff listing orderable q h).0 p.1 in
      (problem_iff listing orderable q h).1 (p.0, r.1, r.2),
)

-- Where something may be ordered, the quantity that the form starts at is one that it takes.
pub default_has_no_problem :
    (lot : LotAvailability)
    → 1 ≤ orderable_of lot
    → order_quantity_problem (default_order_quantity lot) lot ≡ none
unfolding order_quantity_problem orderable_of default_order_quantity
default_has_no_problem lot h = ground arith
