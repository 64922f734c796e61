-- ===== src/Market/Routes.antt =====
-- packages/api/src/modules/marketplace/marketplace.routes.ts: the writes of the marketplace as
-- requests, from the session to the state that is left. The audit record of a success is not
-- modelled.
use trace_public.Common.{
  ℕ, Bool, true, false, not, ◌&&◌, ◌||◌, Option, List, [], ◌∷◌, utf16_length, leb, ◌or_else◌,
  is_some,
}
use trace_public.Config.{Role}
use trace_public.Errors.{
  Result, ok, err, ◌>>=◌, ◌>>◌, require, refuse, validation, forbidden, Reason,
}
use trace_public.Store.{Listing, Transaction, Db}
use trace_public.Session.{
  Claims, Session, load_session, authorize, Profile, Method, is_request_allowed,
  curated_browse_only,
}
use trace_public.Market.Listings.{
  CreateListing, UpdateListing, create_listing_schema, update_listing_schema, create_listing,
  update_listing, cancel_listing,
}
use trace_public.Market.Offers.{Viewer, MakeOffer, make_offer_schema, make_offer}
use trace_public.Market.Transitions.{OrderAction}
use trace_public.Market.Steps.{UpdateTransaction, update_transaction}
use trace_public.Market.Orders.{
  mark_orders_seen, OrderForViewer, OrdersSummary, get_orders_summary, list_user_transactions,
}

abbrev pub is_flag : OrderAction → Bool
is_flag OrderAction.flag_dispute = true
is_flag _ = false

abbrev pub is_resolve : OrderAction → Bool
is_resolve OrderAction.resolve_dispute = true
is_resolve _ = false

-- The rules of `UpdateTransactionSchema` on a typed body with its notes trimmed.
unfoldable pub update_transaction_schema : UpdateTransaction → Bool
update_transaction_schema input =
    let said = leb 5 (utf16_length (input.notes or_else "")) in
    leb (utf16_length (input.notes or_else "")) 1000
    && (not (is_flag input.action) || said)
    && (not (is_resolve input.action) || is_some input.outcome && said)

-- The requests that write, also those that only read but close overdue orders first; an id is that of the row in the path, or the one that the database gives
-- the new row.
pub data Request : Type 0 where
  post_listing : (new_id : ℕ) → CreateListing → Request
  patch_listing : (id : ℕ) → UpdateListing → Request
  cancel : (id : ℕ) → Request
  post_offer : (new_id : ℕ) → MakeOffer → Request
  patch_transaction : (id : ℕ) → UpdateTransaction → Request
  post_seen : Request
  get_transactions : Request
  get_summary : Request

pub data Reply : Type 0 where
  listing : Listing → Reply
  order : Transaction → Reply
  orders : List OrderForViewer → Reply
  summary : OrdersSummary → Reply
  nothing : Reply

abbrev pub selling_roles : List Role
selling_roles = Role.hub_staff ∷ Role.hub_admin ∷ Role.platform_admin ∷ Role.supplier ∷ []

abbrev pub buying_roles : List Role
buying_roles =
    Role.buyer ∷ Role.supplier ∷ Role.hub_staff ∷ Role.hub_admin ∷ Role.platform_admin ∷ []

abbrev pub viewer_of : Session → Viewer
viewer_of session = record {
  user_id = session.sub;
  role = session.role;
  organisation_id = session.organisation_id;
}

-- `schema.parse(body)`.
abbrev pub parse : Bool → Result (Unit {0})
parse valid = refuse (not valid) (validation Reason.invalid_body)

-- A handler that changes nothing when it fails.
abbrev pub commit {ℓ} : {A : Type ℓ} → Db → (A → Reply) → Result (Db × A) → Db × Result Reply
commit db reply (err e) = (db, err e)
commit db reply (ok (db', x)) = (db', ok (reply x))

-- `post('/listings')`: the body is checked before the organisation.
unfoldable pub post_listing_handler : ℕ → CreateListing → Session → ℕ → Db → Result (Db × Listing)
unfolding authorize
post_listing_handler id input session now db = do
  authorize selling_roles session
  parse (create_listing_schema input now)
  organisation ← require session.organisation_id (validation Reason.no_organisation)
  create_listing id input session.sub organisation now db

-- `patch('/listings/:id')`: the organisation is checked before the body.
unfoldable pub patch_listing_handler : ℕ → UpdateListing → Session → ℕ → Db → Result (Db × Listing)
unfolding authorize
patch_listing_handler id input session now db = do
  authorize selling_roles session
  organisation ← require session.organisation_id (validation Reason.no_organisation)
  parse (update_listing_schema input now)
  update_listing id input organisation now db

-- The same path with `{ action: 'cancel' }`.
unfoldable pub cancel_handler : ℕ → Session → ℕ → Db → Result (Db × Listing)
unfolding authorize
cancel_handler id session now db = do
  authorize selling_roles session
  organisation ← require session.organisation_id (validation Reason.no_organisation)
  cancel_listing id organisation now db

unfoldable pub post_offer_handler :
    ℕ → MakeOffer → Session → Profile → ℕ → Db → Result (Db × Transaction)
unfolding authorize curated_browse_only
post_offer_handler id input session profile now db = do
  authorize buying_roles session
  parse (make_offer_schema input && leb (utf16_length (input.notes or_else "")) 500)
  make_offer id input (viewer_of session) (curated_browse_only profile) now db

unfoldable pub patch_transaction_handler :
    ℕ → UpdateTransaction → Session → ℕ → Db → Db × Result Reply
unfolding update_transaction_schema
patch_transaction_handler id input session now db = elim (parse (update_transaction_schema input)) [
  | err e ↦ (db, err e)
  | ok _ ↦
      let (db', answer) = update_transaction id input (viewer_of session) now db in
      (db', answer >>= λ o. ok (order o))
]

unfoldable pub get_transactions_handler : Session → ℕ → Db → Db × Result Reply
get_transactions_handler session now db =
    let (db', answer) = list_user_transactions (viewer_of session) now db in
    (db', answer >>= λ l. ok (orders l))

unfoldable pub get_summary_handler : Session → ℕ → Db → Db × Result Reply
get_summary_handler session now db =
    let (db', answer) = get_orders_summary (viewer_of session) now db in
    (db', answer >>= λ s. ok (summary s))

-- The handler of each request, for a signed-in user.
unfoldable pub dispatch : Request → Session → Profile → ℕ → Db → Db × Result Reply
unfolding post_listing_handler patch_listing_handler cancel_handler post_offer_handler
    patch_transaction_handler get_transactions_handler get_summary_handler
dispatch (post_listing id input) session profile now db =
    commit db listing (post_listing_handler id input session now db)
dispatch (patch_listing id input) session profile now db =
    commit db listing (patch_listing_handler id input session now db)
dispatch (cancel id) session profile now db = commit db listing (cancel_handler id session now db)
dispatch (post_offer id input) session profile now db =
    commit db order (post_offer_handler id input session profile now db)
dispatch (patch_transaction id input) session profile now db =
    patch_transaction_handler id input session now db
dispatch post_seen session profile now db =
    (mark_orders_seen (viewer_of session) now db, ok nothing)
dispatch get_transactions session profile now db = get_transactions_handler session now db
dispatch get_summary session profile now db = get_summary_handler session now db

abbrev pub method_of : Request → Method
method_of (post_listing id input) = Method.post
method_of (patch_listing id input) = Method.patch
method_of (cancel id) = Method.patch
method_of (post_offer id input) = Method.post
method_of (patch_transaction id input) = Method.patch
method_of post_seen = Method.post
method_of get_transactions = Method.get
method_of get_summary = Method.get

-- The guards that stand before every handler, then the handler.
unfoldable pub handle : Profile → Option Claims → Request → ℕ → Db → Db × Result Reply
unfolding is_request_allowed load_session dispatch
handle profile verified request now db =
    elim (refuse (not (is_request_allowed profile (method_of request))) (forbidden Reason.read_only)
      >> load_session verified db) [
        | err e ↦ (db, err e)
        | ok session ↦ dispatch request session profile now db
      ]
