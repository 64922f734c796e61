-- ===== src/Market/Effects.antt =====
-- packages/api/src/modules/marketplace/marketplace.service.ts: what `applyStep` leaves of the order's row
-- and of the two histories.
use trace_public.Common.{
  ℕ, true, some, ◌∷◌, ◌≡◌, ◌≢◌, ◌⊎◌, inl, inr, refl, ap, ◌∙◌, sym, Bool-cases, ◌==◌, ==_iff,
  true_is_false, if◌then◌else◌, arith,
}
use trace_public.Config.{OrderStatus}
use trace_public.Errors.{ok}
use trace_public.Store.{Listing, Transaction, OrderEvent, PassportEvent, EventData, Db}
use trace_public.Table.{find}
use trace_public.Table.Laws.{find-put_self, find-put_ne}
use trace_public.Market.Steps.{Step, moved, apply_step, is_sale, same_order_status}
use trace_public.Market.Timing.{apply_step-records, event_of, sale_of}

-- An order's row as a step leaves it: what was ordered, and of whom, stays.
abbrev pub SameTerms : Transaction → Transaction → Type 0
SameTerms old new =
    (new.listing_id ≡ old.listing_id)
    × (new.buyer_id ≡ old.buyer_id)
    × (new.quantity ≡ old.quantity)
    × (new.amount_pence ≡ old.amount_pence)

-- An event that says from where to where an order went.
abbrev pub SaysMove : ℕ → OrderStatus → Step → OrderEvent → Type 0
SaysMove id from step event =
    (event.transaction_id ≡ id)
    × (event.from_status ≡ some from)
    × (event.to_status ≡ step.to)
    × (event.actor_id ≡ step.actor_id)
    × (event.created_at ≡ step.now)

-- The material's history as a step to this status leaves it: a sale where the order is completed or its
-- problem resolved, and else what it was.
abbrev pub History : ℕ → Transaction → Listing → OrderStatus → Db → Db → Type 0
History id order listing to db db' =
    (((to ≡ OrderStatus.completed) ⊎ (to ≡ OrderStatus.resolved))
      × ((sale : PassportEvent) × (db'.passport_events ≡ sale ∷ db.passport_events)
          × (sale.passport_id ≡ listing.passport_id)
          × (sale.event_data ≡ EventData.sold id order.buyer_id order.quantity order.amount_pence)))
    ⊎ ((to ≢ OrderStatus.completed)
        × (to ≢ OrderStatus.resolved)
        × (db'.passport_events ≡ db.passport_events))

same_order_status-eq : (s t : OrderStatus) → same_order_status s t ≡ true → s ≡ t
same_order_status-eq s t h = ground arith

history :
    (id : ℕ) (order : Transaction) (listing : Listing) (step : Step) (to : OrderStatus)
    (db db' : Db)
    → db'.passport_events ≡ (
        if is_sale to
        then sale_of id order listing step ∷ db.passport_events
        else db.passport_events)
    → History id order listing to db db'
history id order listing step OrderStatus.completed db db' h = inl (inl refl, (_, h, refl, refl))
history id order listing step OrderStatus.resolved db db' h = inl (inr refl, (_, h, refl, refl))
history id order listing step OrderStatus.pending db db' h = inr ((λ e. cc), (λ e. cc), h)
history id order listing step OrderStatus.confirmed db db' h = inr ((λ e. cc), (λ e. cc), h)
history id order listing step OrderStatus.disputed db db' h = inr ((λ e. cc), (λ e. cc), h)
history id order listing step OrderStatus.cancelled db db' h = inr ((λ e. cc), (λ e. cc), h)

-- A step that is taken found the order in the status that its caller read. It leaves the order in the
-- step's target status with its terms as they were, every other order as it was, one more event, which
-- says this move, and in the material's history one more sale exactly when the target is completed or
-- resolved.
pub apply_step_keeps_books :
    (id : ℕ) (order : Transaction) (listing : Listing) (step : Step) (db : Db) (j : ℕ) {db' : Db}
    {updated : Transaction}
    → apply_step id order listing step db ≡ ok (db', updated)
    → (row : Transaction) × (event : OrderEvent) × (find id db.transactions ≡ some row)
      × (row.status ≡ order.status)
      × (find id db'.transactions ≡ some updated)
      × (updated.status ≡ step.to)
      × SameTerms row updated
      × ((id ≡ j) ⊎ (find j db'.transactions ≡ find j db.transactions))
      × (db'.order_events ≡ event ∷ db.order_events)
      × SaysMove id row.status step event
      × History id order listing step.to db db'
unfolding moved
apply_step_keeps_books id order listing step db j {db'} {updated} h =
    let (row, found, same, is_moved, rows, events, sales) =
      apply_step-records id order listing step db h in
    let same' = same_order_status-eq row.status order.status same in
    (
      row,
      event_of id order step,
      found,
      same',
      ap (find id) rows
          ∙ (find-put_self id (moved step row) db.transactions found ∙ ap some (sym is_moved)),
      ap (λ (t : Transaction). t.status) is_moved,
      rw is_moved (refl, refl, refl, refl),
      elim (Bool-cases (id == j)) [
        | inl here ↦ inl ((==_iff id j).0 here)
        | inr elsewhere ↦ inr (
            ap (find j) rows
            ∙ find-put_ne id j (moved step row) db.transactions
                (λ e. true_is_false (sym ((==_iff id j).1 e) ∙ elsewhere)))
      ],
      events,
      (refl, ap some (sym same'), refl, refl, refl),
      history id order listing step step.to db db' sales,
    )
