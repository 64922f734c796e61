-- ===== src/Tests/Access.antt =====
-- Requests for access, run: a buyer asks, an administrator approves.
use trace_public.Common.{◌≤◌, false, ℕ, [], ◌∷◌, none, some, ◌≡◌, ◌⊎◌, refl, List, length, arith}
use trace_public.Config.{Role}
use trace_public.Errors.{ok}
use trace_public.Session.{Profile, Session, load_session, load_user}
use trace_public.Table.{find, insert, first_where}
use trace_public.Market.Invariant.{IsSound}
use trace_public.Access.{
  approve_schema, create_access_request_schema, AccessDb, AccessRole, CreateAccessRequest,
  ApproveAccessRequest,
}
use trace_public.Access.Slugs.{
  trim_end, trim_start, Slug, slugify_organisation_name, first_free_slug, is_taken, trim, lowered,
  dash_runs, drop_dashes, drop_last_dashes, squeeze, take,
}
use trace_public.Access.Slugs.Free.{free_slug_ends}
use trace_public.Access.Requests.{
  submit_access_request, approve_access_request, new_request, approved_by,
}
use trace_public.Access.Views.{hydrate}
use trace_public.Access.Routes.{AccessCall, handle_access}
use trace_public.Access.Orderly.{IsOrderly}
use trace_public.Access.Reach.{
  ReachesAccess, PlatformStep, platform_opening, ReachesAccess-IsOrderly,
}
use trace_public.Access.Closed.{StillThere, requests_stay}
use trace_public.Access.Roles.{
  IsGranted, Unchanged, roles_change_by_review, approval_applies_at_once,
}
use trace_public.Tests.Samples.{passports}
use trace_public.Tests.People.{people, claims_of}

-- "cafe-sons".
cafe_slug :
    slugify_organisation_name " Cafe & Sons! "
    ≡ 99 ∷ 97 ∷ 102 ∷ 101 ∷ 45 ∷ 115 ∷ 111 ∷ 110 ∷ 115 ∷ []
unfolding slugify_organisation_name trim trim_start trim_end lowered dash_runs drop_dashes
    drop_last_dashes squeeze take
cafe_slug = refl

-- Its slug is taken, so the loop goes on to "cafe-sons-2".
abbrev taken_slugs : List Slug
taken_slugs = (99 ∷ 97 ∷ 102 ∷ 101 ∷ 45 ∷ 115 ∷ 111 ∷ 110 ∷ 115 ∷ []) ∷ []

free_slug_ends_example :
    (slug : Slug) × (first_free_slug (slugify_organisation_name " Cafe & Sons! ") taken_slugs
      ≡ some slug)
    × (is_taken slug taken_slugs ≡ false)
    × (length slug ≤ 63)
free_slug_ends_example = free_slug_ends " Cafe & Sons! " taken_slugs (omega arith)

abbrev please : CreateAccessRequest
please = record {
  requested_role = AccessRole.hub_staff;
  organisation_name = "Cafe & Sons";
  notes = none;
}

abbrev agreed : ApproveAccessRequest
agreed = record {
  role = AccessRole.hub_staff;
  organisation = record { organisation_id = none; organisation_name = some "Cafe & Sons" };
  review_notes = none;
}

abbrev ask : AccessCall
ask = AccessCall.submit 50 please

abbrev agree : AccessCall
agree = AccessCall.approve 7 50 agreed

abbrev db_start : AccessDb
db_start = platform_opening passports people

-- The buyer has asked, and then the administrator has agreed.
abbrev db_asked : AccessDb
db_asked = (handle_access Profile.self_hosted (claims_of 2) ask 1000 db_start).0

abbrev db_agreed : AccessDb
db_agreed = (handle_access Profile.self_hosted (claims_of 3) agree 2000 db_asked).0

asked_then_agreed : ReachesAccess db_start db_agreed
asked_then_agreed =
    ReachesAccess.next
      (ReachesAccess.next ReachesAccess.here
        (PlatformStep.access Profile.self_hosted (claims_of 2) ask 1000 refl))
      (PlatformStep.access Profile.self_hosted (claims_of 3) agree 2000 refl)

ReachesAccess-IsOrderly_example : IsOrderly db_agreed × IsSound db_agreed.market
ReachesAccess-IsOrderly_example =
    ReachesAccess-IsOrderly passports people db_agreed asked_then_agreed

the_request : find 50 db_asked.access_requests ≡ some (new_request 2 please 1000)
unfolding handle_access find insert first_where load_session load_user create_access_request_schema
    submit_access_request
the_request = refl

requests_stay_example : StillThere 50 (new_request 2 please 1000) db_agreed
requests_stay_example =
    requests_stay Profile.self_hosted (claims_of 3) agree 2000 db_asked 50
      (new_request 2 please 1000) the_request

roles_change_by_review_example :
    Unchanged 2 db_asked db_agreed
    ⊎ ((session : Session) × (load_session (claims_of 3) db_asked.market ≡ ok session)
        × IsGranted session 2 db_asked db_agreed)
roles_change_by_review_example =
    roles_change_by_review Profile.self_hosted (claims_of 3) agree 2000 db_asked 2

approval : approve_access_request 7 50 3 agreed 2000 db_asked ≡ ok (db_agreed, hydrate 50 db_agreed)
unfolding handle_access find insert first_where load_session load_user create_access_request_schema
    submit_access_request approve_access_request approve_schema
approval = refl

signed_in :
    load_session (claims_of 2) db_asked.market
    ≡ ok (record { sub = 2; role = Role.buyer; organisation_id = none })
unfolding handle_access find insert first_where load_session load_user create_access_request_schema
    submit_access_request
signed_in = refl

approval_applies_at_once_example :
    (place : ℕ) × ((find 50 db_agreed.access_requests
        ≡ some (approved_by 3 place none 2000 (new_request 2 please 1000)))
      × (load_session (claims_of 2) db_agreed.market
          ≡ ok (record { sub = 2; role = Role.hub_staff; organisation_id = some place })))
approval_applies_at_once_example =
    approval_applies_at_once 7 50 3 agreed 2000 db_asked db_agreed (hydrate 50 db_agreed)
      (new_request 2 please 1000) (record { sub = 2; tv = some 0 })
      (record { sub = 2; role = Role.buyer; organisation_id = none }) approval the_request refl
      signed_in
