-- ===== src/Market/Invariant/History.antt =====
-- Every request and every sweep keeps the invariant, so it holds in every state that the marketplace
-- reaches, whatever the order of the requests.
use trace_public.Common.{
  and_left, utf16_length, ℕ, none, List, [], ◌∷◌, ◌≡◌, inl, inr, refl, not, eq_true_of_not, ◌&&◌,
  leb, ◌or_else◌,
}
use trace_public.Errors.{Result, ok, err, Result-cases, require-eq-ok, refuse-eq-ok, >>=-eq-ok}
use trace_public.Store.{Listing, Transaction, Db}
use trace_public.Table.{find}
use trace_public.Session.{Session, Profile, authorize, curated_browse_only}
use trace_public.Market.Listings.{
  CreateListing, UpdateListing, create_listing_schema, update_listing_schema,
}
use trace_public.Market.Offers.{Viewer, MakeOffer, make_offer_schema}
use trace_public.Market.Steps.{UpdateTransaction, close_if_overdue}
use trace_public.Market.Orders.{
  close_each, list_user_transactions, get_orders_summary, mark_orders_seen, overdue_of,
}
use trace_public.Market.Routes.{
  Request, post_listing, patch_listing, cancel, post_offer, patch_transaction, post_seen,
  get_transactions, get_summary, get_summary_handler, Reply, commit, parse, selling_roles,
  buying_roles, viewer_of, update_transaction_schema, post_listing_handler, patch_listing_handler,
  cancel_handler, post_offer_handler, patch_transaction_handler, get_transactions_handler, dispatch,
}
use trace_public.Market.Invariant.{taken, IsSound}
use trace_public.Market.Invariant.Requests.{close_if_overdue-keeps, update_transaction-IsSound}
use trace_public.Market.Invariant.Offers.{make_offer-keeps}
use trace_public.Market.Invariant.Listings.{create_listing-keeps, cancel_listing-keeps}
use trace_public.Market.Invariant.Edits.{update_listing-keeps}

-- The id of a new lot is one that no lot has.
abbrev pub IsFresh : Request → Db → Type 0
IsFresh (post_listing id input) db = find id db.listings ≡ none
IsFresh _ db = Unit

commit-IsSound {ℓ} :
    {A : Type ℓ} (db : Db) (reply : A → Reply) (r : Result (Db × A))
    → IsSound db
    → ((db' : Db) (x : A) → ◌≡◌ {A = Result (Db × A)} r (ok (db', x)) → IsSound db')
    → IsSound (commit db reply r).0
commit-IsSound db reply (err e) sound keeps = sound
commit-IsSound db reply (ok (db', x)) sound keeps = keeps db' x refl

close_each-IsSound :
    (ids : List ℕ) (now : ℕ) (db : Db) → IsSound db → IsSound (close_each ids now db).0
unfolding close_each
close_each-IsSound [] now db sound = sound
close_each-IsSound (id ∷ ids) now db sound = elim (Result-cases (close_if_overdue id now db)) [
  | inl (e, failed) ↦ rw (failed, close_each) sound
  | inr ((db1, closed), taken) ↦
      rw (taken, close_each)
        (close_each-IsSound ids now db1 (close_if_overdue-keeps id now db sound taken))
]

list_user_transactions-IsSound :
    (viewer : Viewer) (now : ℕ) (db : Db)
    → IsSound db
    → IsSound (list_user_transactions viewer now db).0
unfolding list_user_transactions
list_user_transactions-IsSound viewer now db sound =
    let ids = overdue_of viewer db now db.transactions in
    let sound1 = close_each-IsSound ids now db sound in
    elim (Result-cases (close_each ids now db).1) [
      | inl (e, failed) ↦ rw (failed, list_user_transactions) sound1
      | inr (u, closed) ↦ rw (closed, list_user_transactions) sound1
    ]

get_orders_summary-IsSound :
    (viewer : Viewer) (now : ℕ) (db : Db)
    → IsSound db
    → IsSound (get_orders_summary viewer now db).0
unfolding get_orders_summary
get_orders_summary-IsSound viewer now db sound =
    let sound1 = list_user_transactions-IsSound viewer now db sound in
    elim (Result-cases (list_user_transactions viewer now db).1) [
      | inl (e, failed) ↦ rw (failed, get_orders_summary) sound1
      | inr (listed, ready) ↦ rw (ready, get_orders_summary) sound1
    ]

mark_orders_seen-IsSound :
    (viewer : Viewer) (now : ℕ) (db : Db) → IsSound db → IsSound (mark_orders_seen viewer now db)
unfolding mark_orders_seen
mark_orders_seen-IsSound viewer now db sound = record {
  lots = sound.lots;
  terms = sound.terms;
  materials = sound.materials;
  single = sound.single;
  orders = sound.orders;
}

module _ (session : Session) (now : ℕ) (db : Db) (sound : IsSound db) where
  post_listing-keeps :
      (id : ℕ) (input : CreateListing) {db' : Db} {l : Listing}
      → find id db.listings ≡ none
      → post_listing_handler id input session now db ≡ ok (db', l)
      → IsSound db'
  unfolding post_listing_handler
  post_listing-keeps id input fresh h =
      let (_, _, h1) = >>=-eq-ok (authorize selling_roles session) _ h in
      let (valid, h2) = refuse-eq-ok (not (create_listing_schema input now)) _ _ h1 in
      let (organisation, _, h3) = require-eq-ok session.organisation_id _ _ h2 in
      create_listing-keeps id input session.sub organisation now db (eq_true_of_not _ valid) fresh
        sound h3

  patch_listing-keeps :
      (id : ℕ) (input : UpdateListing) {db' : Db} {l : Listing}
      → patch_listing_handler id input session now db ≡ ok (db', l)
      → IsSound db'
  unfolding patch_listing_handler
  patch_listing-keeps id input h =
      let (_, _, h1) = >>=-eq-ok (authorize selling_roles session) _ h in
      let (organisation, _, h2) = require-eq-ok session.organisation_id _ _ h1 in
      let (valid, h3) = refuse-eq-ok (not (update_listing_schema input now)) _ _ h2 in
      update_listing-keeps id input organisation now db (eq_true_of_not _ valid) sound h3

  cancel-keeps :
      (id : ℕ) {db' : Db} {l : Listing}
      → cancel_handler id session now db ≡ ok (db', l)
      → IsSound db'
  unfolding cancel_handler
  cancel-keeps id h =
      let (_, _, h1) = >>=-eq-ok (authorize selling_roles session) _ h in
      let (organisation, _, h2) = require-eq-ok session.organisation_id _ _ h1 in
      cancel_listing-keeps id organisation now db sound h2

  post_offer-keeps :
      (id : ℕ) (input : MakeOffer) (profile : Profile) {db' : Db} {o : Transaction}
      → post_offer_handler id input session profile now db ≡ ok (db', o)
      → IsSound db'
  unfolding post_offer_handler
  post_offer-keeps id input profile h =
      let (_, _, h1) = >>=-eq-ok (authorize buying_roles session) _ h in
      let (valid, h2) =
        refuse-eq-ok
          (not (make_offer_schema input && leb (utf16_length (input.notes or_else "")) 500)) _ _
          h1 in
      make_offer-keeps id input (viewer_of session) (curated_browse_only profile) now db
        (and_left (make_offer_schema input) _ (eq_true_of_not _ valid)) sound h2

  patch_transaction-IsSound :
      (id : ℕ) (input : UpdateTransaction)
      → IsSound (patch_transaction_handler id input session now db).0
  unfolding patch_transaction_handler
  patch_transaction-IsSound id input =
      elim (Result-cases (parse (update_transaction_schema input))) [
        | inl (e, failed) ↦ rw (failed, patch_transaction_handler) sound
        | inr (u, parsed) ↦
            rw (parsed, patch_transaction_handler)
              (update_transaction-IsSound id input (viewer_of session) now db sound)
      ]

  pub dispatch-IsSound :
      (request : Request) (profile : Profile)
      → IsFresh request db
      → IsSound (dispatch request session profile now db).0
  unfolding dispatch
  dispatch-IsSound (post_listing id input) profile fresh =
      commit-IsSound db _ _ sound (λ db' l h. post_listing-keeps id input fresh h)
  dispatch-IsSound (patch_listing id input) profile fresh =
      commit-IsSound db _ _ sound (λ db' l h. patch_listing-keeps id input h)
  dispatch-IsSound (cancel id) profile fresh =
      commit-IsSound db _ _ sound (λ db' l h. cancel-keeps id h)
  dispatch-IsSound (post_offer id input) profile fresh =
      commit-IsSound db _ _ sound (λ db' o h. post_offer-keeps id input profile h)
  dispatch-IsSound (patch_transaction id input) profile fresh = patch_transaction-IsSound id input
  dispatch-IsSound post_seen profile fresh =
      mark_orders_seen-IsSound (viewer_of session) now db sound
  dispatch-IsSound get_transactions profile fresh =
      unfold get_transactions_handler in
      list_user_transactions-IsSound (viewer_of session) now db sound
  dispatch-IsSound get_summary profile fresh =
      unfold get_summary_handler in get_orders_summary-IsSound (viewer_of session) now db sound
