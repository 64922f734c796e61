-- ===== src/Web/OrderForm.antt =====
-- packages/web/src/lib/order-quantity.ts: how much of a lot the order form lets a buyer ask for. A
-- quantity is a whole number here; the form refuses any other.
pub mod Laws
use trace_public.Common.{ℕ, Bool, Option, none, some, ltb, min, max, ◌or_else◌, ◌&&◌, if◌then◌else◌}

-- `LotAvailability`.
pub record LotAvailability : Type 0 where
  pub quantity_available : ℕ
  pub min_order_quantity : ℕ
  pub orderable_quantity : Option ℕ

-- What the form says is wrong with a quantity.
pub data Problem : Type 0 where
  at_least_one : Problem
  demo_keeps_last only_left below_minimum : ℕ → Problem

unfoldable pub orderable_of : LotAvailability → ℕ
orderable_of lot =
    min (lot.orderable_quantity or_else lot.quantity_available) lot.quantity_available

unfoldable pub keeps_last_unit : LotAvailability → Bool
unfolding orderable_of
keeps_last_unit lot = ltb (orderable_of lot) lot.quantity_available

unfoldable pub default_order_quantity : LotAvailability → ℕ
unfolding orderable_of
default_order_quantity lot = max 1 (min lot.min_order_quantity (orderable_of lot))

unfoldable pub order_quantity_problem : ℕ → LotAvailability → Option Problem
unfolding orderable_of keeps_last_unit
order_quantity_problem quantity lot =
    let orderable = orderable_of lot in
    if ltb quantity 1
    then some at_least_one
    else if ltb orderable quantity
    then some (
        if keeps_last_unit lot then demo_keeps_last orderable else only_left lot.quantity_available)
    else if ltb quantity lot.min_order_quantity && ltb quantity orderable
    then some (below_minimum lot.min_order_quantity)
    else none
