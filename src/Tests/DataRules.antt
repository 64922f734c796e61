-- ===== src/Tests/DataRules.antt =====
-- The checker of the marketplace's rows on the sample database.
use trace_public.Common.{
  not, ◌&&◌, ◌%◌, ◌≤◌, true, is_some, [], ◌∷◌, none, ◌≡◌, refl, All, false, Bool-cases, ◌==◌, inl,
  inr,
}
use trace_public.Config.{PassportStatus}
use trace_public.Table.{Table, modify, find, IsKeyed, put, insert}
use trace_public.Market.Lots.{orderable_quantity, settle_lot}
use trace_public.Market.Listings.{create_listing}
use trace_public.Market.Offers.{make_offer}
use trace_public.Market.Routes.{handle, dispatch}
use trace_public.Market.Invariant.{LotFits}
use trace_public.DataRules.{is_accepted, is_accepted, PassportRow, check_invariants, is_unexpected}
use trace_public.DataRules.Sound.{check_invariants-IsFaultless}
use trace_public.DataRules.Faults.{IsExcused}
use trace_public.DataRules.Rows.{SameStatuses}
use trace_public.DataRules.Complete.{check_invariants_orders, check_invariants_complete}
use trace_public.Market.Invariant.Reach.{Reaches-IsSound}
use trace_public.Tests.Market.{order_found, ordered, lot_found}
use trace_public.Tests.Samples.{order_placed, passports, users, db_ordered, lot_ordered}

abbrev rows : Table PassportRow
rows =
    (
      10,
      record {
        product_name = "Oak beam";
        status = PassportStatus.listed;
        stored_hash = none;
        computed_hash = "0x1";
        catalogue_key = none;
      },
    )
    ∷ []

one_lot : IsKeyed db_ordered.listings
unfolding IsKeyed find handle dispatch create_listing make_offer insert orderable_quantity
    settle_lot put
one_lot = (refl, tt)

same_statuses : SameStatuses rows db_ordered.passports
unfolding find handle dispatch create_listing make_offer insert orderable_quantity settle_lot put
    modify
same_statuses id = elim (Bool-cases (10 == id)) [
  | inl here ↦ rw here refl
  | inr there ↦ rw there refl
]

check_invariants-IsFaultless_example :
    All IsExcused (check_invariants db_ordered.listings db_ordered.transactions rows 3000)
check_invariants-IsFaultless_example =
    check_invariants-IsFaultless db_ordered rows 3000
      (Reaches-IsSound passports users db_ordered ordered) one_lot same_statuses

check_invariants_complete_example :
    LotFits 100 lot_ordered db_ordered.transactions
    × (is_unexpected lot_ordered.status (find lot_ordered.passport_id rows) ≡ false)
check_invariants_complete_example =
    check_invariants_complete db_ordered.listings db_ordered.transactions rows 3000 100 lot_ordered
      (check_invariants-IsFaultless db_ordered rows 3000
        (Reaches-IsSound passports users db_ordered ordered) one_lot same_statuses)
      lot_found

check_invariants_orders_example :
    (is_some (find order_placed.listing_id db_ordered.listings) ≡ true)
    × (1 ≤ order_placed.quantity)
    × (1 ≤ order_placed.amount_pence)
    × ((is_accepted order_placed.status && not (is_some order_placed.dispute_deadline)) ≡ false)
    × ((not order_placed.legacy_whole_lot
          && not (order_placed.amount_pence % order_placed.quantity == 0))
        ≡ false)
check_invariants_orders_example =
    check_invariants_orders db_ordered.listings db_ordered.transactions rows 3000 200 order_placed
      (check_invariants-IsFaultless db_ordered rows 3000
        (Reaches-IsSound passports users db_ordered ordered) one_lot same_statuses)
      order_found
