-- ===== src/Market/Progress.antt =====
-- Which steps an order takes: those that are offered to its parties succeed, no others are taken,
-- and a closed order takes none.
use trace_public.Common.{
  ℕ, Bool, true, false, not, ◌&&◌, Option, none, some, List, [], ◌∷◌, ◌≡◌, ◌⊎◌, ◌↔◌, inl, inr, refl,
  arith, keep, Bool-cases, eq_true_of_not,
}
use trace_public.Config.{OrderStatus}
use trace_public.Errors.{ok, err, Failure, Result-cases, require-eq-ok, refuse-eq-ok}
use trace_public.Store.{Listing, Transaction, Db}
use trace_public.Table.{find}
use trace_public.Market.Lots.{is_open}
use trace_public.Market.Offers.{Viewer}
use trace_public.Market.Transitions.{
  OrderAction, TimedAction, Sides, is_from, by_side, may_act, actions, allowed_actions, timed_step,
  sides_of,
}
use trace_public.Market.Steps.{
  UpdateTransaction, moved, asked_step, take_step, close_if_overdue, update_transaction,
}
use trace_public.Market.Sweep.{overdue_at}
use trace_public.Market.Invariant.{IsSound}
use trace_public.Market.Invariant.Steps.{apply_step_total}
use trace_public.Market.Invariant.Requests.{keeps_window_of_is_from, is_open_of_is_from}

abbrev pub Among : OrderAction → List OrderAction → Type 0
Among action [] = ⊥
Among action (x ∷ xs) = (action ≡ x) ⊎ Among action xs

Among-actions : (action : OrderAction) → Among action actions
Among-actions action = ground arith

Among-keep :
    (p : OrderAction → Bool) (action : OrderAction) (xs : List OrderAction)
    → Among action (keep p xs) ↔ (Among action xs × (p action ≡ true))
Among-keep p action [] = (λ h. absurd h, λ h. h.0)
Among-keep p action (x ∷ xs) = elim (Bool-cases (p x)) [
  | inl kept ↦ rw kept (
    (λ h. elim h [
      | inl e ↦ (inl e, rw e kept)
      | inr m ↦ let (there, holds) = (Among-keep p action xs).0 m in (inr there, holds)
    ]),
    (λ (m, holds). elim m [ inl e ↦ inl e | inr r ↦ inr ((Among-keep p action xs).1 (r, holds)) ]),
  )
  | inr dropped ↦ rw dropped (
    (λ m. let (there, holds) = (Among-keep p action xs).0 m in (inr there, holds)),
    (λ (m, holds). elim m [
      | inl e ↦ let holds' = rw e at holds in cc (holds', dropped)
      | inr r ↦ (Among-keep p action xs).1 (r, holds)
    ]),
  )
]

Among-allowed :
    (action : OrderAction) (status : OrderStatus) (on : Sides)
    → Among action (allowed_actions status on)
      ↔ ((is_from action status && may_act (by_side action) on) ≡ true)
unfolding allowed_actions
Among-allowed action status on =
    let keeps = Among-keep (λ a. is_from a status && may_act (by_side a) on) action actions in
    (λ h. (keeps.0 h).1, λ h. keeps.1 (Among-actions action, h))

module _ (id : ℕ) (input : UpdateTransaction) (viewer : Viewer) (timed_out : Option TimedAction)
    (now : ℕ) (db : Db) (order : Transaction) (listing : Listing) (sound : IsSound db)
    (found : find id db.transactions ≡ some order)
    (listed : find order.listing_id db.listings ≡ some listing) where
  abbrev on : Sides
  on = sides_of viewer order listing

  granted :
      (is_from input.action order.status && may_act (by_side input.action) on) ≡ true
      → (db' : Db) × (take_step id input viewer timed_out now db
          ≡ ok (db', moved (asked_step input viewer on now) order))
  unfolding take_step
  granted h =
      let from : is_from input.action order.status ≡ true = ground arith in
      let acts : may_act (by_side input.action) on ≡ true = ground arith in
      let (db', taken) =
        apply_step_total id order listing (asked_step input viewer on now) db found listed
          (is_open_of_is_from input.action order.status from)
          (keeps_window_of_is_from input.action order.status input.outcome from) sound in
      (db', rw (found, take_step) (rw listed (rw (acts, from) taken)))

  refused :
      {db' : Db} {updated : Transaction}
      → take_step id input viewer timed_out now db ≡ ok (db', updated)
      → (is_from input.action order.status && may_act (by_side input.action) on) ≡ true
  unfolding take_step
  refused h =
      let h1 = rw (found, take_step) at h in
      let h2 = rw listed at h1 in
      let (acts, h3) = refuse-eq-ok (not (may_act (by_side input.action) on)) _ _ h2 in
      let (from, h4) = refuse-eq-ok (not (is_from input.action order.status)) _ _ h3 in
      rw (eq_true_of_not _ from, eq_true_of_not _ acts)

close_if_overdue_early :
    (id now : ℕ) (db : Db) (order : Transaction)
    → find id db.transactions ≡ some order
    → timed_step order now ≡ none
    → close_if_overdue id now db ≡ ok (db, none)
unfolding close_if_overdue
close_if_overdue_early id now db order found early = rw (found, close_if_overdue) (rw early)

-- In a state that satisfies the invariant, and while no time limit has passed on an order whose lot is
-- there, the steps that a person may take of it are those that it shows them: an action is among them
-- exactly when asking for it succeeds, with the order moved to the step's target.
pub allowed_actions-iff-update :
    (id : ℕ) (input : UpdateTransaction) (viewer : Viewer) (now : ℕ) (db : Db) (order : Transaction)
    (listing : Listing)
    → IsSound db
    → find id db.transactions ≡ some order
    → find order.listing_id db.listings ≡ some listing
    → timed_step order now ≡ none
    → Among input.action (allowed_actions order.status (sides_of viewer order listing)) ↔ (
        (update_transaction id input viewer now db).1
        ≡ ok (moved (asked_step input viewer (sides_of viewer order listing) now) order))
unfolding update_transaction
allowed_actions-iff-update id input viewer now db order listing sound found listed early =
    let allowed = Among-allowed input.action order.status (sides_of viewer order listing) in
    (
      (λ h.
          let (db', taken) =
            granted id input viewer none now db order listing sound found listed (allowed.0 h) in
          rw (close_if_overdue_early id now db order found early, update_transaction) (rw taken)),
      (λ h. elim (Result-cases (take_step id input viewer none now db)) [
        | inl (e, failed) ↦
            let h1 =
              rw (close_if_overdue_early id now db order found early, update_transaction) at h in
            let h2 = rw failed at h1 in cc h2
        | inr ((db', updated), taken) ↦
            allowed.1 (refused id input viewer none now db order listing sound found listed taken)
      ]),
    )

-- The query finds an order overdue exactly when a time limit's step is due on it.
pub overdue_at-iff-timed_step :
    (now : ℕ) (order : Transaction) → (overdue_at now order ≡ false) ↔ (timed_step order now ≡ none)
unfolding overdue_at timed_step
overdue_at-iff-timed_step now order = (λ h. ground arith, λ h. ground arith)

timed_step_of_closed :
    (order : Transaction) (now : ℕ) → is_open order.status ≡ false → timed_step order now ≡ none
unfolding timed_step
timed_step_of_closed order now closed = ground arith

is_from_of_closed :
    (action : OrderAction) (s : OrderStatus) → is_open s ≡ false → is_from action s ≡ false
unfolding is_from
is_from_of_closed action s closed = ground arith

take_step-is_from :
    (id : ℕ) (input : UpdateTransaction) (viewer : Viewer) (timed_out : Option TimedAction)
    (now : ℕ) (db : Db) (order : Transaction) {db' : Db} {updated : Transaction}
    → find id db.transactions ≡ some order
    → take_step id input viewer timed_out now db ≡ ok (db', updated)
    → is_from input.action order.status ≡ true
unfolding take_step
take_step-is_from id input viewer timed_out now db order found h =
    let (listing, listed, h2) =
      require-eq-ok (find order.listing_id db.listings) _ _ (rw (found, take_step) at h) in
    let (_, h3) =
      refuse-eq-ok (not (may_act (by_side input.action) (sides_of viewer order listing))) _ _ h2 in
    let (from, _) = refuse-eq-ok (not (is_from input.action order.status)) _ _ h3 in
    eq_true_of_not _ from

-- An order that is closed (completed, resolved or cancelled) stays as it is: whoever asks for whatever
-- step of it is refused, and nothing in the database changes.
pub closed_orders_stay :
    (id : ℕ) (input : UpdateTransaction) (viewer : Viewer) (now : ℕ) (db : Db) (order : Transaction)
    → find id db.transactions ≡ some order
    → is_open order.status ≡ false
    → ((update_transaction id input viewer now db).0 ≡ db)
      × ((e : Failure) × ((update_transaction id input viewer now db).1 ≡ err e))
unfolding update_transaction
closed_orders_stay id input viewer now db order found closed =
    let early =
      close_if_overdue_early id now db order found (timed_step_of_closed order now closed) in
    elim (Result-cases (take_step id input viewer none now db)) [
      | inl (e, failed) ↦ rw (early, update_transaction) (rw failed (refl, (e, refl)))
      | inr ((db', updated), taken) ↦ cc (
        is_from_of_closed input.action order.status closed,
        take_step-is_from id input viewer none now db order found taken,
      )
    ]
