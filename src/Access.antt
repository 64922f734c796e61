-- ===== src/Access.antt =====
-- packages/api/src/modules/access-request: how buyers ask for selling roles and an administrator
-- grants them, and packages/core/src/validators/access-request.schema.ts. The wallet that an approval
-- may open for an organisation and the records of the audit log are left out: neither is read here,
-- and the failures of the first are swallowed.
pub mod Slugs
pub mod Views
pub mod Requests
pub mod Routes
pub mod Moves
pub mod Orderly
pub mod Keeps
pub mod Reach
pub mod Closed
pub mod Roles
use trace_public.Common.{
  ℕ, Bool, true, false, Option, String, ◌&&◌, ◌||◌, leb, is_some, ◌or_else◌, utf16_length,
}
use trace_public.Config.{Role}
use trace_public.Store.{Db}
use trace_public.Table.{Table}
use trace_public.Access.Slugs.{Slug}

-- `AccessRequestStatusSchema`.
pub data AccessStatus : Type 0 where
  pending approved rejected : AccessStatus

-- `AccessRequestRoleSchema`.
pub data AccessRole : Type 0 where
  hub_staff hub_admin : AccessRole

-- `ApprovedAccessRoleSchema`.
pub data ApprovedRole : Type 0 where
  buyer hub_staff hub_admin : ApprovedRole

abbrev pub role_of_access : AccessRole → Role
role_of_access AccessRole.hub_staff = Role.hub_staff
role_of_access AccessRole.hub_admin = Role.hub_admin

abbrev pub role_of_approved : ApprovedRole → Role
role_of_approved ApprovedRole.buyer = Role.buyer
role_of_approved ApprovedRole.hub_staff = Role.hub_staff
role_of_approved ApprovedRole.hub_admin = Role.hub_admin

-- `organisations`.
pub record Organisation : Type 0 where
  pub name : String
  pub kind : String
  pub slug : Slug
  pub verified : Bool
  pub blockchain_address : Option String
  pub updated_at : ℕ

-- `beta_access_requests`.
pub record AccessRequest : Type 0 where
  pub user_id : ℕ
  pub requested_role : AccessRole
  pub organisation_name : Option String
  pub target_organisation_id : Option ℕ
  pub notes : Option String
  pub review_notes : Option String
  pub status : AccessStatus
  pub reviewed_by : Option ℕ
  pub reviewed_at : Option ℕ
  pub created_at : ℕ
  pub updated_at : ℕ

-- The marketplace's tables, the users' among them, and the two of this module.
pub record AccessDb : Type 0 where
  pub market : Db
  pub organisations : Table Organisation
  pub access_requests : Table AccessRequest

pub record CreateAccessRequest : Type 0 where
  pub requested_role : AccessRole
  pub organisation_name : String
  pub notes : Option String

pub record UpdatePendingAccessRequest : Type 0 where
  pub requested_role : AccessRole
  pub organisation_name : String
  pub notes : Option String
  pub review_notes : Option String

-- The organisation of an approval, by its id or by a name.
pub record OrganisationChoice : Type 0 where
  pub organisation_id : Option ℕ
  pub organisation_name : Option String

pub record ApproveAccessRequest : Type 0 where
  pub role : AccessRole
  pub organisation : OrganisationChoice
  pub review_notes : Option String

pub record UpdateApprovedUserAccess : Type 0 where
  pub role : ApprovedRole
  pub organisation : OrganisationChoice
  pub review_notes : Option String

pub record UpdateOrganisation : Type 0 where
  pub name : String
  pub verified : Bool

-- `z.string().min(1).max(255)` and `z.string().max(1000).optional()`.
abbrev pub is_name : String → Bool
is_name s = leb 1 (utf16_length s) && leb (utf16_length s) 255

abbrev pub is_note : Option String → Bool
is_note s = leb (utf16_length (s or_else "")) 1000

abbrev pub is_optional_name : Option String → Bool
is_optional_name Option.none = true
is_optional_name (Option.some s) = is_name s

unfoldable pub create_access_request_schema : CreateAccessRequest → Bool
create_access_request_schema input = is_name input.organisation_name && is_note input.notes

unfoldable pub update_pending_schema : UpdatePendingAccessRequest → Bool
update_pending_schema input =
    is_name input.organisation_name && is_note input.notes && is_note input.review_notes

-- `Boolean(value.organisationId || value.organisationName)`; the empty name fails its own check.
abbrev pub is_chosen : OrganisationChoice → Bool
is_chosen choice = is_some choice.organisation_id || is_some choice.organisation_name

unfoldable pub approve_schema : ApproveAccessRequest → Bool
approve_schema input =
    is_optional_name input.organisation.organisation_name
    && is_note input.review_notes
    && is_chosen input.organisation

abbrev pub is_buyer : ApprovedRole → Bool
is_buyer ApprovedRole.buyer = true
is_buyer _ = false

unfoldable pub update_approved_schema : UpdateApprovedUserAccess → Bool
update_approved_schema input =
    is_optional_name input.organisation.organisation_name
    && is_note input.review_notes
    && (is_buyer input.role || is_chosen input.organisation)

unfoldable pub update_organisation_schema : UpdateOrganisation → Bool
update_organisation_schema input = is_name input.name
