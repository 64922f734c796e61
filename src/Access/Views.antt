-- ===== src/Access/Views.antt =====
-- packages/api/src/modules/access-request/access-request.service.ts: what an administrator is shown of
-- a request, without the secrets of the users and organisations that it names.
use trace_public.Common.{
  ℕ, Bool, true, Option, none, some, List, String, map, ltb, ◌==◌, keep, sort_by,
}
use trace_public.Config.{Role}
use trace_public.Store.{User}
use trace_public.Table.{Table, find}
use trace_public.Access.{AccessRequest, AccessStatus, AccessDb, Organisation}
use trace_public.Access.Slugs.{Slug}

pub record UserView : Type 0 where
  pub id : ℕ
  pub email : String
  pub name : String
  pub role : Role
  pub organisation_id : Option ℕ

unfoldable pub sanitize_user : ℕ → User → UserView
sanitize_user id user = record {
  id = id;
  email = user.email;
  name = user.name;
  role = user.role;
  organisation_id = user.organisation_id;
}

pub record OrganisationView : Type 0 where
  pub id : ℕ
  pub name : String
  pub kind : String
  pub slug : Slug
  pub verified : Bool
  pub blockchain_address : Option String

unfoldable pub sanitize_organisation : ℕ → Organisation → OrganisationView
sanitize_organisation id organisation = record {
  id = id;
  name = organisation.name;
  kind = organisation.kind;
  slug = organisation.slug;
  verified = organisation.verified;
  blockchain_address = organisation.blockchain_address;
}

-- A row that a nullable id reads.
abbrev pub related {ℓ κ} : {A : Type ℓ} {B : Type κ} → (ℕ → A → B) → Table A → Option ℕ → Option B
related view t none = none
related view t (some id) = elim (find id t) [ none ↦ none | some row ↦ some (view id row) ]

pub record AccessView : Type 0 where
  pub id : ℕ
  pub request : AccessRequest
  pub user : Option UserView
  pub reviewer : Option UserView
  pub target_organisation : Option OrganisationView

unfoldable pub serialize_access_request : AccessDb → ℕ × AccessRequest → AccessView
unfolding sanitize_user sanitize_organisation
serialize_access_request db (id, request) = record {
  id = id;
  request = request;
  user = related sanitize_user db.market.users (some request.user_id);
  reviewer = related sanitize_user db.market.users request.reviewed_by;
  target_organisation =
      related sanitize_organisation db.organisations request.target_organisation_id;
}

-- The row read again with its relations.
unfoldable pub hydrate : ℕ → AccessDb → Option AccessView
unfolding serialize_access_request
hydrate id db = elim (find id db.access_requests) [
  | none ↦ none
  | some request ↦ some (serialize_access_request db (id, request))
]

-- `orderBy: [desc(createdAt)]`.
abbrev newest_first : Table AccessRequest → Table AccessRequest
newest_first requests =
    sort_by (λ (a b : ℕ × AccessRequest). ltb a.1.created_at b.1.created_at) requests

unfoldable pub list_my_access_requests : ℕ → AccessDb → Table AccessRequest
unfolding sort_by
list_my_access_requests user_id db =
    newest_first (keep (λ (row : ℕ × AccessRequest). row.1.user_id == user_id) db.access_requests)

abbrev same_status : AccessStatus → AccessStatus → Bool
same_status AccessStatus.pending AccessStatus.pending = true
same_status AccessStatus.approved AccessStatus.approved = true
same_status AccessStatus.rejected AccessStatus.rejected = true
same_status _ _ = Bool.false

abbrev wanted : Option AccessStatus → ℕ × AccessRequest → Bool
wanted none row = true
wanted (some status) row = same_status row.1.status status

unfoldable pub list_access_requests : Option AccessStatus → AccessDb → List AccessView
unfolding sort_by serialize_access_request
list_access_requests status db =
    map (serialize_access_request db) (newest_first (keep (wanted status) db.access_requests))
