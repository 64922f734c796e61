-- ===== src/Access/Moves.antt =====
-- What a request to packages/api/src/modules/access-request writes, as one of a few moves.
pub mod Operations
pub mod Inversion
use text.Mathlib.Text.{◌==◌ as str_eq}
use trace_public.Common.{
  Bool-cases, refl, subst, sym, ap, eq_true_of_not, any, Option-cases, ℕ, Bool, true, false, not,
  Option, none, some, ◌≡◌, ◌⊎◌, inl, inr, String,
}
use trace_public.Config.{Role}
use trace_public.Errors.{>>=-eq-ok, ok-injective, refuse-eq-ok, require-eq-ok, Result, ok, err}
use trace_public.Session.{Claims, Session, Profile, same_role, load_session, authorize}
use trace_public.Store.{Db}
use trace_public.Table.{find, insert, modify, first_where}
use trace_public.Access.{
  OrganisationChoice, is_some, AccessDb, AccessRequest, AccessStatus, Organisation,
  CreateAccessRequest, UpdatePendingAccessRequest, ApproveAccessRequest, UpdateApprovedUserAccess,
  UpdateOrganisation, is_buyer,
}
use trace_public.Access.Views.{AccessView}
use trace_public.Table.Search.{is_some-find-first_where}
use trace_public.Access.Slugs.Free.{first_free_slug-is_free}
use trace_public.Access.Slugs.{Slug, is_taken}
use trace_public.Access.Requests.{
  next_organisation, asks, new_request, write_request, edited, approve_at, regrant_at, renamed,
  rejected_by, slugs_of, new_organisation, is_pending, is_approved, organisation_named,
  resolve_organisation_for_approval, submit_access_request, update_pending_access_request,
  approve_access_request, update_approved_user_access, update_access_request_organisation,
  reject_access_request,
}
use trace_public.Access.Routes.{
  administrators, AccessCall, AccessReply, answer_access, serve_access,
}

-- The organisation that an approval finds or makes.
pub data Resolves (db : AccessDb) (now new_id : ℕ) (db' : AccessDb) (id : ℕ) : Type 0 where
  existing : is_some (find id db.organisations) ≡ true → db' ≡ db → Resolves db now new_id db' id
  created :
      (name : String) (slug : Slug)
      → is_taken slug (slugs_of db.organisations) ≡ false
      → id ≡ new_id
      → db' ≡ record db {
        organisations = insert new_id (new_organisation name slug now) db.organisations;
      }
      → Resolves db now new_id db' id

-- What a signed-in user's request writes.
pub data Move (session : Session) (now : ℕ) (db db' : AccessDb) : Type 0 where
  reads : db' ≡ db → Move session now db db'
  submits :
      (new_id : ℕ) (input : CreateAccessRequest)
      → same_role session.role Role.buyer ≡ true
      → first_where (asks session.sub) db.access_requests ≡ none
      → db' ≡ record db {
        access_requests = insert new_id (new_request session.sub input now) db.access_requests;
      }
      → Move session now db db'
  edits :
      (id : ℕ) (input : UpdatePendingAccessRequest) {r : AccessRequest}
      → session.role ≡ Role.platform_admin
      → find id db.access_requests ≡ some r
      → r.status ≡ AccessStatus.pending
      → db' ≡ write_request id (edited input now) db
      → Move session now db db'
  approves :
      (new_id id organisation_id : ℕ) (input : ApproveAccessRequest) (r : AccessRequest)
      (mid : AccessDb)
      → session.role ≡ Role.platform_admin
      → find id db.access_requests ≡ some r
      → r.status ≡ AccessStatus.pending
      → Resolves db now new_id mid organisation_id
      → db' ≡ approve_at id session.sub input now r mid organisation_id
      → Move session now db db'
  regrants :
      (new_id id organisation_id : ℕ) (input : UpdateApprovedUserAccess) (r : AccessRequest)
      (mid : AccessDb)
      → session.role ≡ Role.platform_admin
      → find id db.access_requests ≡ some r
      → r.status ≡ AccessStatus.approved
      → is_buyer input.role ≡ false
      → Resolves db now new_id mid organisation_id
      → db' ≡ regrant_at id session.sub input now r mid (some organisation_id)
      → Move session now db db'
  demotes :
      (id : ℕ) (input : UpdateApprovedUserAccess) (r : AccessRequest)
      → session.role ≡ Role.platform_admin
      → find id db.access_requests ≡ some r
      → r.status ≡ AccessStatus.approved
      → is_buyer input.role ≡ true
      → db' ≡ regrant_at id session.sub input now r db none
      → Move session now db db'
  renames :
      (id : ℕ) (input : UpdateOrganisation) {organisation : Organisation}
      → session.role ≡ Role.platform_admin
      → find id db.organisations ≡ some organisation
      → db' ≡ record db { organisations = modify id (renamed input now) db.organisations }
      → Move session now db db'
  rejects :
      (id : ℕ) (notes : Option String) {r : AccessRequest}
      → session.role ≡ Role.platform_admin
      → find id db.access_requests ≡ some r
      → r.status ≡ AccessStatus.pending
      → db' ≡ write_request id (rejected_by session.sub notes now) db
      → Move session now db db'
