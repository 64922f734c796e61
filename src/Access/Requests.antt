-- ===== src/Access/Requests.antt =====
-- packages/api/src/modules/access-request/access-request.service.ts: the operations on requests for
-- access. A new row's id is the database's choice, here an argument.
use text.Mathlib.Text.{◌==◌ as str_eq}
use trace_public.Common.{
  ℕ, Bool, true, false, not, ◌&&◌, Option, none, some, List, [], ◌∷◌, String, ◌==◌, ◌or_else◌,
  is_some, if◌then◌else◌,
}
use trace_public.Config.{Role}
use trace_public.Errors.{
  Result, ok, ◌>>=◌, ◌>>◌, require, refuse, forbidden, conflict, not_found, unexpected, Reason,
  Resource,
}
use trace_public.Store.{User}
use trace_public.Table.{Table, find, insert, modify, first_where}
use trace_public.Session.{same_role}
use trace_public.Access.{
  AccessStatus, role_of_access, role_of_approved, Organisation, AccessRequest, AccessDb,
  CreateAccessRequest, UpdatePendingAccessRequest, OrganisationChoice, ApproveAccessRequest,
  UpdateApprovedUserAccess, UpdateOrganisation, is_buyer,
}
use trace_public.Access.Slugs.{Slug, trim, slugify_organisation_name, first_free_slug}
use trace_public.Access.Views.{AccessView, hydrate}

abbrev pub is_pending : AccessStatus → Bool
is_pending AccessStatus.pending = true
is_pending _ = false

abbrev pub is_approved : AccessStatus → Bool
is_approved AccessStatus.approved = true
is_approved _ = false

abbrev pub slugs_of : Table Organisation → List Slug
slugs_of [] = []
slugs_of ((id, organisation) ∷ t) = organisation.slug ∷ slugs_of t

-- `input.organisationName?.trim() || fallbackName?.trim()`; a missing name is the empty one.
unfoldable pub requested_name : Option String → Option String → String
unfolding trim
requested_name asked fallback = elim (trim (asked or_else "")) [
  | String.[] ↦ trim (fallback or_else "")
  | String.◌∷◌ c s ↦ String.◌∷◌ c s
]

abbrev pub new_organisation : String → Slug → ℕ → Organisation
new_organisation name slug now = record {
  name = name;
  kind = "hub";
  slug = slug;
  verified = false;
  blockchain_address = none;
  updated_at = now;
}

-- The organisation of this name, or a new one with a slug that is free.
unfoldable pub organisation_named : ℕ → String → ℕ → AccessDb → Result (AccessDb × ℕ)
unfolding first_where insert first_free_slug slugify_organisation_name
organisation_named new_id name now db =
    elim (first_where (λ o. str_eq o.name name) db.organisations) [
      | some (id, organisation) ↦ ok (db, id)
      | none ↦
          require (first_free_slug (slugify_organisation_name name) (slugs_of db.organisations))
            unexpected
          >>= λ slug. ok (
            record db {
              organisations = insert new_id (new_organisation name slug now) db.organisations;
            },
            new_id,
          )
    ]

unfoldable pub resolve_organisation_for_approval :
    ℕ → OrganisationChoice → Option String → ℕ → AccessDb → Result (AccessDb × ℕ)
unfolding requested_name organisation_named
resolve_organisation_for_approval new_id choice fallback now db = elim choice.organisation_id [
  | some id ↦
      require (find id db.organisations) (not_found Resource.organisation) >>= λ _. ok (db, id)
  | none ↦
      let name = requested_name choice.organisation_name fallback in
      refuse (str_eq name "") (not_found Resource.organisation)
      >> organisation_named new_id name now db
]

abbrev pub asks : ℕ → AccessRequest → Bool
asks user_id request = request.user_id == user_id && is_pending request.status

abbrev pub new_request : ℕ → CreateAccessRequest → ℕ → AccessRequest
new_request user_id input now = record {
  user_id = user_id;
  requested_role = input.requested_role;
  organisation_name = some input.organisation_name;
  target_organisation_id = none;
  notes = input.notes;
  review_notes = none;
  status = AccessStatus.pending;
  reviewed_by = none;
  reviewed_at = none;
  created_at = now;
  updated_at = now;
}

unfoldable pub submit_access_request :
    ℕ → ℕ → Role → CreateAccessRequest → ℕ → AccessDb → Result (AccessDb × AccessRequest)
unfolding first_where insert
submit_access_request new_id user_id user_role input now db = do
  refuse (not (same_role user_role Role.buyer)) (forbidden Reason.not_a_buyer)
  refuse (is_some (first_where (asks user_id) db.access_requests)) (conflict Reason.already_pending)
  let request = new_request user_id input now
  ok (record db { access_requests = insert new_id request db.access_requests }, request)

-- An `update … where id = requestId` of a request.
abbrev pub write_request : ℕ → (AccessRequest → AccessRequest) → AccessDb → AccessDb
write_request id f db = record db { access_requests = modify id f db.access_requests }

abbrev pub edited : UpdatePendingAccessRequest → ℕ → AccessRequest → AccessRequest
edited input now request = record request {
  requested_role = input.requested_role;
  organisation_name = some input.organisation_name;
  notes = input.notes;
  review_notes = input.review_notes;
  updated_at = now;
}

unfoldable pub update_pending_access_request :
    ℕ → UpdatePendingAccessRequest → ℕ → AccessDb → Result (AccessDb × Option AccessView)
unfolding find modify hydrate
update_pending_access_request id input now db = do
  request ← require (find id db.access_requests) (not_found Resource.access_request)
  refuse (not (is_pending request.status)) (conflict Reason.not_pending)
  let db' = write_request id (edited input now) db
  ok (db', hydrate id db')

-- `update users set role, organisation_id where id = userId`.
abbrev pub granted : Role → Option ℕ → User → User
granted role organisation_id user = record user { role = role; organisation_id = organisation_id }

abbrev pub grant : ℕ → Role → Option ℕ → AccessDb → AccessDb
grant user_id role organisation_id db = record db {
  market = record db.market {
    users = modify user_id (granted role organisation_id) db.market.users;
  };
}

abbrev pub approved_by : ℕ → ℕ → Option String → ℕ → AccessRequest → AccessRequest
approved_by reviewer_id organisation_id review_notes now request = record request {
  status = AccessStatus.approved;
  reviewed_by = some reviewer_id;
  reviewed_at = some now;
  target_organisation_id = some organisation_id;
  review_notes = review_notes;
  updated_at = now;
}

-- The transaction of an approval and the row read after it.
abbrev pub approve_at : ℕ → ℕ → ApproveAccessRequest → ℕ → AccessRequest → AccessDb → ℕ → AccessDb
approve_at id reviewer_id input now request db organisation_id =
    write_request id (approved_by reviewer_id organisation_id input.review_notes now)
      (grant request.user_id (role_of_access input.role) (some organisation_id) db)

unfoldable pub approve_access_request :
    ℕ → ℕ → ℕ → ApproveAccessRequest → ℕ → AccessDb → Result (AccessDb × Option AccessView)
unfolding find modify hydrate resolve_organisation_for_approval
approve_access_request new_id id reviewer_id input now db = do
  request ← require (find id db.access_requests) (not_found Resource.access_request)
  refuse (not (is_pending request.status)) (conflict Reason.not_pending)
  (db1, organisation_id) ←
      resolve_organisation_for_approval new_id input.organisation request.organisation_name now db
  let db2 = approve_at id reviewer_id input now request db1 organisation_id
  ok (db2, hydrate id db2)

-- The organisation that an approved user is moved to: none for a buyer.
unfoldable pub next_organisation :
    ℕ → UpdateApprovedUserAccess → Option String → ℕ → AccessDb → Result (AccessDb × Option ℕ)
unfolding resolve_organisation_for_approval
next_organisation new_id input fallback now db =
    let resolved =
      resolve_organisation_for_approval new_id input.organisation fallback now db >>= λ found.
      ok (found.0, some found.1) in
    if is_buyer input.role then ok (db, none) else resolved

abbrev pub reviewed_again : ℕ → Option ℕ → Option String → ℕ → AccessRequest → AccessRequest
reviewed_again reviewer_id organisation_id review_notes now request = record request {
  target_organisation_id = organisation_id;
  review_notes = elim review_notes [ none ↦ request.review_notes | some note ↦ some note ];
  reviewed_by = some reviewer_id;
  reviewed_at = some now;
  updated_at = now;
}

abbrev pub regrant_at :
    ℕ → ℕ → UpdateApprovedUserAccess → ℕ → AccessRequest → AccessDb → Option ℕ → AccessDb
regrant_at id reviewer_id input now request db organisation_id =
    write_request id (reviewed_again reviewer_id organisation_id input.review_notes now)
      (grant request.user_id (role_of_approved input.role) organisation_id db)

unfoldable pub update_approved_user_access :
    ℕ → ℕ → ℕ → UpdateApprovedUserAccess → ℕ → AccessDb → Result (AccessDb × Option AccessView)
unfolding find modify hydrate next_organisation
update_approved_user_access new_id id reviewer_id input now db = do
  request ← require (find id db.access_requests) (not_found Resource.access_request)
  refuse (not (is_approved request.status)) (conflict Reason.not_approved)
  (db1, organisation_id) ← next_organisation new_id input request.organisation_name now db
  let db2 = regrant_at id reviewer_id input now request db1 organisation_id
  ok (db2, hydrate id db2)

abbrev pub renamed : UpdateOrganisation → ℕ → Organisation → Organisation
renamed input now organisation = record organisation {
  name = input.name;
  verified = input.verified;
  updated_at = now;
}

unfoldable pub update_access_request_organisation :
    ℕ → UpdateOrganisation → ℕ → AccessDb → Result (AccessDb × Organisation)
unfolding find modify
update_access_request_organisation id input now db = do
  organisation ← require (find id db.organisations) (not_found Resource.organisation)
  ok (
    record db { organisations = modify id (renamed input now) db.organisations },
    renamed input now organisation,
  )

abbrev pub rejected_by : ℕ → Option String → ℕ → AccessRequest → AccessRequest
rejected_by reviewer_id review_notes now request = record request {
  status = AccessStatus.rejected;
  reviewed_by = some reviewer_id;
  reviewed_at = some now;
  review_notes = review_notes;
  updated_at = now;
}

unfoldable pub reject_access_request :
    ℕ → ℕ → Option String → ℕ → AccessDb → Result (AccessDb × AccessRequest)
unfolding find modify
reject_access_request id reviewer_id review_notes now db = do
  request ← require (find id db.access_requests) (not_found Resource.access_request)
  refuse (not (is_pending request.status)) (conflict Reason.not_pending)
  ok (
    write_request id (rejected_by reviewer_id review_notes now) db,
    rejected_by reviewer_id review_notes now request,
  )
