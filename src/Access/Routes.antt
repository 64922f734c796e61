-- ===== src/Access/Routes.antt =====
-- packages/api/src/modules/access-request/access-request.routes.ts: the requests to this module and the
-- guards before each handler. The list of organisations, in the order of their names, is left out.
use trace_public.Common.{ℕ, Bool, true, not, Option, List, [], ◌∷◌, String}
use trace_public.Config.{Role}
use trace_public.Errors.{Result, ok, err, ◌>>=◌, ◌>>◌, refuse, forbidden, Reason}
use trace_public.Session.{
  Claims, Session, Profile, Method, is_request_allowed, load_session, authorize,
}
use trace_public.Market.Routes.{parse}
use trace_public.Access.{
  Table, AccessStatus, AccessDb, AccessRequest, Organisation, CreateAccessRequest,
  UpdatePendingAccessRequest, ApproveAccessRequest, UpdateApprovedUserAccess, UpdateOrganisation,
  create_access_request_schema, update_pending_schema, approve_schema, update_approved_schema,
  update_organisation_schema, is_note,
}
use trace_public.Access.Views.{AccessView, list_my_access_requests, list_access_requests}
use trace_public.Access.Requests.{
  submit_access_request, update_pending_access_request, approve_access_request,
  update_approved_user_access, update_access_request_organisation, reject_access_request,
}

-- A request to the module; `new_id` is the id of a row that it may add.
pub data AccessCall : Type 0 where
  submit : (new_id : ℕ) → CreateAccessRequest → AccessCall
  get_mine : AccessCall
  get_all : Option AccessStatus → AccessCall
  patch_organisation : (id : ℕ) → UpdateOrganisation → AccessCall
  patch_pending : (id : ℕ) → UpdatePendingAccessRequest → AccessCall
  approve : (new_id id : ℕ) → ApproveAccessRequest → AccessCall
  patch_approved : (new_id id : ℕ) → UpdateApprovedUserAccess → AccessCall
  reject : (id : ℕ) → Option String → AccessCall

pub data AccessReply : Type 0 where
  request : AccessRequest → AccessReply
  requests : Table AccessRequest → AccessReply
  view : Option AccessView → AccessReply
  views : List AccessView → AccessReply
  organisation : Organisation → AccessReply

abbrev pub administrators : List Role
administrators = Role.platform_admin ∷ []

-- The answer of a service, as the reply that carries it.
abbrev pub answer {ℓ} :
    {A : Type ℓ} → (A → AccessReply) → Result (AccessDb × A) → Result (AccessDb × AccessReply)
answer reply m = m >>= λ r. ok (r.0, reply r.1)

-- What stands before a handler of an administrator: `authorize('platform_admin')`, then the body's check.
unfoldable pub as_administrator :
    Bool → Session → Result (AccessDb × AccessReply) → Result (AccessDb × AccessReply)
unfolding authorize
as_administrator valid session m = authorize administrators session >> (parse valid >> m)

-- The handlers, for a signed-in user.
unfoldable pub serve_access : AccessCall → Session → ℕ → AccessDb → Result (AccessDb × AccessReply)
unfolding as_administrator
serve_access (submit new_id input) session now db =
    parse (create_access_request_schema input)
    >> answer request (submit_access_request new_id session.sub session.role input now db)
serve_access get_mine session now db = ok (db, requests (list_my_access_requests session.sub db))
serve_access (get_all status) session now db =
    as_administrator true session (ok (db, views (list_access_requests status db)))
serve_access (patch_organisation id input) session now db =
    as_administrator (update_organisation_schema input) session
      (answer organisation (update_access_request_organisation id input now db))
serve_access (patch_pending id input) session now db =
    as_administrator (update_pending_schema input) session
      (answer view (update_pending_access_request id input now db))
serve_access (approve new_id id input) session now db =
    as_administrator (approve_schema input) session
      (answer view (approve_access_request new_id id session.sub input now db))
serve_access (patch_approved new_id id input) session now db =
    as_administrator (update_approved_schema input) session
      (answer view (update_approved_user_access new_id id session.sub input now db))
serve_access (reject id notes) session now db =
    as_administrator (is_note notes) session
      (answer request (reject_access_request id session.sub notes now db))

abbrev pub method_of_access : AccessCall → Method
method_of_access (submit new_id input) = Method.post
method_of_access get_mine = Method.get
method_of_access (get_all status) = Method.get
method_of_access (patch_organisation id input) = Method.patch
method_of_access (patch_pending id input) = Method.patch
method_of_access (approve new_id id input) = Method.post
method_of_access (patch_approved new_id id input) = Method.patch
method_of_access (reject id notes) = Method.post

-- The guards that stand before every handler, then the handler.
unfoldable pub answer_access :
    Profile → Option Claims → AccessCall → ℕ → AccessDb → Result (AccessDb × AccessReply)
unfolding is_request_allowed load_session serve_access
answer_access profile verified call now db =
    refuse (not (is_request_allowed profile (method_of_access call))) (forbidden Reason.read_only)
    >> load_session verified db.market
    >>= λ session. serve_access call session now db

-- A refused request writes nothing.
unfoldable pub handle_access :
    Profile → Option Claims → AccessCall → ℕ → AccessDb → AccessDb × Result AccessReply
unfolding answer_access
handle_access profile verified call now db = elim (answer_access profile verified call now db) [
  | err e ↦ (db, err e)
  | ok (db', reply) ↦ (db', ok reply)
]
