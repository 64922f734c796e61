-- ===== src/Market/Quantities.antt =====
-- How much of a lot one order may take (`orderableQuantity`, the checks of `makeOffer`).
use trace_public.Common.{ℕ, ◌*◌, ◌≤◌, ◌<◌, true, Option, none, some, ◌≡◌, ◌⊎◌, ◌↔◌, arith, String}
use trace_public.Config.{max_amount_pence}
use trace_public.Errors.{ok}
use trace_public.Store.{Listing}
use trace_public.Market.Lots.{is_curated, orderable_quantity}
use trace_public.Market.Offers.{order_quantity}

-- Where no more may be ordered than the stock, a quantity that is asked for is granted exactly when
-- all of the stock may be ordered or at least one unit may, it is at most what may be ordered, it is at
-- least the lot's minimum or all that may be ordered, and its total is at most the largest amount.
pub order_quantity_iff :
    (listing : Listing) (orderable q : ℕ)
    → orderable ≤ listing.quantity_available
    → (order_quantity listing orderable (some q) ≡ ok q) ↔ (
        ((orderable ≡ listing.quantity_available) ⊎ (1 ≤ orderable))
        × (q ≤ orderable)
        × ((listing.min_order_quantity ≤ q) ⊎ (orderable ≤ q))
        × (listing.price_pence * q ≤ max_amount_pence))
unfolding order_quantity
order_quantity_iff listing orderable q h = (λ e. ground arith, λ p. ground arith)

-- On the public demo no order takes the last unit of a curated lot: a quantity that is granted, asked
-- for or by default, is less than what the lot has left, if it has anything left.
pub last_curated_unit_stays :
    (listing : Listing) (source : Option String) (asked : Option ℕ) (q : ℕ)
    → is_curated source ≡ true
    → 1 ≤ listing.quantity_available
    → order_quantity listing (orderable_quantity listing.quantity_available source true) asked
      ≡ ok q
    → q < listing.quantity_available
unfolding order_quantity orderable_quantity
last_curated_unit_stays listing source none q curated stock h = ground arith
last_curated_unit_stays listing source (some n) q curated stock h = ground arith
