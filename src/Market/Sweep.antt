-- ===== src/Market/Sweep.antt =====
-- marketplace.service.ts: the sweep (`overdueAt`, `sweepOrderLifecycle`), which closes the orders
-- whose time limit has passed and expires the lots past their date.
use trace_public.Common.{
  ℕ, zero, suc, ◌+◌, ◌*◌, Bool, true, false, not, ◌&&◌, ◌||◌, Option, none, some, List, [], ◌∷◌,
  ltb, leb, ◌or_else◌, if◌then◌else◌,
}
use trace_public.Config.{
  ListingStatus, PassportStatus, is_active, is_pending, is_confirmed, order_response_hours,
}
use trace_public.Errors.{Result, ok, err}
use trace_public.Store.{Listing, Transaction, Db}
use trace_public.Table.{Table, find, put, modify}
use trace_public.Market.Lots.{has_passed, open_orders, set_passport_status}
use trace_public.Market.Offers.{hour_ms}
use trace_public.Market.Transitions.{TimedAction, lapse, auto_complete}
use trace_public.Market.Steps.{close_if_overdue}

-- `overdueAt`, the condition of the query.
unfoldable pub overdue_at : ℕ → Transaction → Bool
overdue_at now order =
    is_pending order.status
      && leb (order.response_deadline or_else order.created_at + order_response_hours * hour_ms) now
    || is_confirmed order.status && has_passed order.dispute_deadline now

-- The condition of the sweep's query for lots past their date.
unfoldable pub is_stale : ℕ → Listing → Bool
is_stale now listing = is_active listing.status && has_passed listing.expires_at now

-- `select id … where … limit n`: the rows in the table's order.
unfoldable pub select_ids {ℓ} : {A : Type ℓ} → ℕ → (A → Bool) → Table A → List ℕ
select_ids zero p t = []
select_ids (suc n) p [] = []
select_ids (suc n) p ((id, r) ∷ t) =
    let taken = id ∷ select_ids n p t in
    let passed = select_ids (suc n) p t in if p r then taken else passed

pub record Swept : Type 0 where
  pub lapsed : ℕ
  pub completed : ℕ
  pub expired_listings : ℕ

abbrev pub tally : Option TimedAction → Swept → Swept
tally none result = result
tally (some lapse) result = record result { lapsed = result.lapsed + 1 }
tally (some auto_complete) result = record result { completed = result.completed + 1 }

-- The first loop; an error ends the sweep, and the orders closed before it stay closed.
unfoldable pub close_all : List ℕ → ℕ → Swept → Db → Db × Result Swept
close_all [] now result db = (db, ok result)
close_all (id ∷ ids) now result db = elim (close_if_overdue id now db) [
  | err e ↦ (db, err e)
  | ok (db', taken) ↦ close_all ids now (tally taken result) db'
]

-- What the second loop's transaction writes.
unfoldable pub write_expired : ℕ → Listing → ℕ → Db → Db
write_expired id listing now db = record db {
  listings = put id (record listing { status = ListingStatus.expired }) db.listings;
  passports =
      modify listing.passport_id (set_passport_status (some PassportStatus.active) now)
        db.passports;
}

-- The second loop's transaction: the lot is read again under its lock.
unfoldable pub expire_listing : ℕ → ℕ → Db → Db × Bool
unfolding write_expired
expire_listing id now db = elim (find id db.listings) [
  | none ↦ (db, false)
  | some listing ↦
      if not (is_active listing.status)
        || not (has_passed listing.expires_at now)
        || ltb 0 (open_orders id db.transactions)
      then (db, false)
      else (write_expired id listing now db, true)
]

unfoldable pub expire_all : List ℕ → ℕ → Swept → Db → Db × Swept
expire_all [] now result db = (db, result)
expire_all (id ∷ ids) now result db =
    let (db', expired) = expire_listing id now db in
    expire_all ids now
      (if expired then record result { expired_listings = result.expired_listings + 1 } else result)
      db'

abbrev pub sweep_limit : ℕ
sweep_limit = 500

unfoldable pub sweep_order_lifecycle : ℕ → Db → Db × Result Swept
unfolding overdue_at is_stale select_ids close_all expire_all
sweep_order_lifecycle now db =
    let due = select_ids sweep_limit (overdue_at now) db.transactions in
    let (db1, closed) =
      close_all due now (record { lapsed = 0; completed = 0; expired_listings = 0 }) db in
    elim closed [
      | err e ↦ (db1, err e)
      | ok result ↦
          let stale = select_ids sweep_limit (is_stale now) db1.listings in
          let (db2, swept) = expire_all stale now result db1 in (db2, ok swept)
    ]
