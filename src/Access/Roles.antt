-- ===== src/Access/Roles.antt =====
-- packages/api/src/modules/access-request: whose requests change whose role, and what an approval does to
-- the user's next session.
use trace_public.Common.{ℕ, Option, none, some, ◌≡◌, ◌⊎◌, inl, inr, refl, sym, ◌∙◌, ap, not, ◌==◌}
use trace_public.Config.{Role}
use trace_public.Errors.{conflict, Reason, ok, require-eq-ok, refuse-eq-ok, >>=-eq-ok, ok-injective}
use trace_public.Session.{Session, Claims, Profile, load_session, load_user}
use trace_public.Store.{Db, User}
use trace_public.Table.{Table, find, modify}
use trace_public.Table.Search.{find-modify_self, find-modify_split, find-modify-updated, updated}
use trace_public.Access.{
  AccessDb, AccessRequest, AccessRole, ApprovedRole, AccessStatus, ApproveAccessRequest,
  role_of_access, role_of_approved,
}
use trace_public.Access.Requests.{
  is_pending, granted, approve_at, approved_by, approve_access_request,
  resolve_organisation_for_approval,
}
use trace_public.Access.Views.{AccessView}
use trace_public.Access.Routes.{AccessCall, handle_access}
use trace_public.Access.Moves.{Resolves, Move}
use trace_public.Access.Moves.Inversion.{handle_access-Move}
use trace_public.Access.Moves.Operations.{resolve-Resolves}
use trace_public.Access.Closed.{Resolves-requests}
use trace_public.Access.Reach.{Resolves-market}

-- An administrator set the user's role and organisation, by a request of that user that was pending or
-- approved.
abbrev pub IsGranted : Session → ℕ → (before after : AccessDb) → Type 0
IsGranted session user_id before after =
    (session.role ≡ Role.platform_admin)
    × ((id : ℕ) × (r : AccessRequest) × (find id before.access_requests ≡ some r)
        × (r.user_id ≡ user_id)
        × ((r.status ≡ AccessStatus.pending) ⊎ (r.status ≡ AccessStatus.approved)))
    × ((role : ApprovedRole) × (organisation_id : Option ℕ) × (find user_id after.market.users
          ≡ updated (granted (role_of_approved role) organisation_id)
              (find user_id before.market.users)))

abbrev pub Unchanged : ℕ → (before after : AccessDb) → Type 0
Unchanged user_id before after = find user_id after.market.users ≡ find user_id before.market.users

-- The users' table after a grant.
grant-cases :
    (session : Session) (before after : AccessDb) (id user_id : ℕ) (r : AccessRequest)
    (role : ApprovedRole) (organisation_id : Option ℕ)
    → session.role ≡ Role.platform_admin
    → find id before.access_requests ≡ some r
    → (r.status ≡ AccessStatus.pending) ⊎ (r.status ≡ AccessStatus.approved)
    → after.market.users
      ≡ modify r.user_id (granted (role_of_approved role) organisation_id) before.market.users
    → Unchanged user_id before after ⊎ IsGranted session user_id before after
grant-cases session before after id user_id r role organisation_id admin found standing same =
    let change = granted (role_of_approved role) organisation_id in
    elim (find-modify_split r.user_id user_id change before.market.users) [
      | inl his ↦ inr (
        admin,
        (id, r, found, his, standing),
        (
          role,
          organisation_id,
          rw same (
              ap (λ k. find user_id (modify k change before.market.users)) his
              ∙ find-modify-updated user_id change before.market.users),
        ),
      )
      | inr another ↦ inl (rw same another)
    ]

approved_role : AccessRole → ApprovedRole
approved_role AccessRole.hub_staff = ApprovedRole.hub_staff
approved_role AccessRole.hub_admin = ApprovedRole.hub_admin

role_of_approved_role :
    (role : AccessRole) → role_of_access role ≡ role_of_approved (approved_role role)
unfolding approved_role
role_of_approved_role AccessRole.hub_staff = refl
role_of_approved_role AccessRole.hub_admin = refl

users_of : AccessDb → Table User
users_of db = db.market.users

Move-grants :
    (session : Session) (now : ℕ) (db db' : AccessDb) (user_id : ℕ)
    → Move session now db db'
    → Unchanged user_id db db' ⊎ IsGranted session user_id db db'
Move-grants session now db db' user_id (Move.reads same) = inl (rw same refl)
Move-grants session now db db' user_id (Move.submits new_id input a_buyer none_open same) =
    inl (rw same refl)
Move-grants session now db db' user_id (Move.edits id input admin found open_still same) =
    inl (rw same refl)
Move-grants session now db db' user_id
      (Move.approves new_id id place input r mid admin found open_still resolved same) =
    let market = Resolves-market resolved in
    let role = role_of_approved_role input.role in
    grant-cases session db db' id user_id r (approved_role input.role) (some place) admin found
      (inl open_still) (rw (same, market, role) refl)
Move-grants session now db db' user_id
      (Move.regrants new_id id place input r mid admin found approved_still a_seller resolved
        same) =
    let market = Resolves-market resolved in
    grant-cases session db db' id user_id r input.role (some place) admin found (inr approved_still)
      (rw (same, market) refl)
Move-grants session now db db' user_id
      (Move.demotes id input r admin found approved_still buyer same) =
    grant-cases session db db' id user_id r input.role none admin found (inr approved_still)
      (rw same refl)
Move-grants session now db db' user_id (Move.renames id input admin found same) = inl (rw same refl)
Move-grants session now db db' user_id (Move.rejects id notes admin found open_still same) =
    inl (rw same refl)

-- Whoever makes a request to the module, a user's row stays as it was, or the request is of a signed-in
-- platform administrator, the user has a request for access that was pending or approved, and nothing
-- of the row changes but the organisation and the role, which becomes buyer, hub staff or hub
-- administrator.
pub roles_change_by_review :
    (profile : Profile) (verified : Option Claims) (call : AccessCall) (now : ℕ) (db : AccessDb)
    (user_id : ℕ)
    → Unchanged user_id db (handle_access profile verified call now db).0
      ⊎ ((session : Session) × (load_session verified db.market ≡ ok session)
          × IsGranted session user_id db (handle_access profile verified call now db).0)
roles_change_by_review profile verified call now db user_id =
    elim (handle_access-Move profile verified call now db) [
      | inl same ↦ inl (rw same refl)
      | inr (session, signed_in, move) ↦ elim (Move-grants session now db _ user_id move) [
        | inl same ↦ inl same
        | inr given ↦ inr (session, signed_in, given)
      ]
    ]

-- The session of a token that was valid before its user's row was given another role.
load_session-granted :
    (claims : Claims) (db : Db) (role : Role) (organisation_id : Option ℕ) (session : Session)
    → load_session (some claims) db ≡ ok session
    → load_session
        (some claims)
        (record db { users = modify claims.sub (granted role organisation_id) db.users })
      ≡ ok (record { sub = claims.sub; role = role; organisation_id = organisation_id })
unfolding load_session load_user
load_session-granted claims db role organisation_id session h =
    let (tv, has_tv, h1) = require-eq-ok claims.tv _ _ h in
    let (user, found, h2) = require-eq-ok (find claims.sub db.users) _ _ h1 in
    let (current, h3) = refuse-eq-ok (not (user.token_version == tv)) _ _ h2 in
    rw (has_tv, find-modify_self claims.sub (granted role organisation_id) db.users found, current)
      refl

-- What an answered approval did to the tables.
approve-places :
    (new_id id reviewer_id : ℕ) (input : ApproveAccessRequest) (now : ℕ) (db db' : AccessDb)
    (shown : Option AccessView) (r : AccessRequest)
    → approve_access_request new_id id reviewer_id input now db ≡ ok (db', shown)
    → find id db.access_requests ≡ some r
    → (target : AccessDb × ℕ) × Resolves db now new_id target.0 target.1
      × (db' ≡ approve_at id reviewer_id input now r target.0 target.1)
unfolding approve_access_request
approve-places new_id id reviewer_id input now db db' shown r h found =
    let (open_still, h1) =
      refuse-eq-ok (not (is_pending r.status)) (conflict Reason.not_pending) _
        (rw (found, approve_access_request) at h) in
    let (target, resolved, h2) =
      >>=-eq-ok
        (resolve_organisation_for_approval new_id input.organisation r.organisation_name now db) _
        h1 in
    (
      target,
      resolve-Resolves new_id now db input.organisation r.organisation_name target resolved,
      ap (λ p. p.0) (sym (ok-injective h2)),
    )

-- The tables after the writes of an approval.
approved_reads :
    (new_id id reviewer_id place : ℕ) (input : ApproveAccessRequest) (now : ℕ) (db mid : AccessDb)
    (r : AccessRequest) (claims : Claims) (session : Session)
    → Resolves db now new_id mid place
    → find id db.access_requests ≡ some r
    → claims.sub ≡ r.user_id
    → load_session (some claims) db.market ≡ ok session
    → (find id (approve_at id reviewer_id input now r mid place).access_requests
        ≡ some (approved_by reviewer_id place input.review_notes now r))
      × (load_session (some claims) (approve_at id reviewer_id input now r mid place).market
          ≡ ok (record {
            sub = claims.sub;
            role = role_of_access input.role;
            organisation_id = some place;
          }))
approved_reads new_id id reviewer_id place input now db mid r claims session places found his
      signed_in =
    (
      find-modify_self id (approved_by reviewer_id place input.review_notes now) mid.access_requests
          {r = r} (rw (Resolves-requests places) found),
      rw (Resolves-market places, sym his)
          (load_session-granted claims db.market (role_of_access input.role) (some place) session
            signed_in),
    )

-- Where an approval of a pending request is answered, the request is recorded as approved, by the
-- reviewer and for an organisation, and each valid session of its user is from then on one of the
-- role that the administrator chose, in that organisation.
pub approval_applies_at_once :
    (new_id id reviewer_id : ℕ) (input : ApproveAccessRequest) (now : ℕ) (db db' : AccessDb)
    (shown : Option AccessView) (r : AccessRequest) (claims : Claims) (session : Session)
    → approve_access_request new_id id reviewer_id input now db ≡ ok (db', shown)
    → find id db.access_requests ≡ some r
    → claims.sub ≡ r.user_id
    → load_session (some claims) db.market ≡ ok session
    → (place : ℕ) × ((find id db'.access_requests
          ≡ some (approved_by reviewer_id place input.review_notes now r))
        × (load_session (some claims) db'.market
            ≡ ok (record {
              sub = claims.sub;
              role = role_of_access input.role;
              organisation_id = some place;
            })))
approval_applies_at_once new_id id reviewer_id input now db db' shown r claims session h found his
      signed_in =
    let ((mid, place), places, result) =
      approve-places new_id id reviewer_id input now db db' shown r h found in
    (
      place,
      rw result (
          approved_reads new_id id reviewer_id place input now db mid r claims session places found
            his signed_in),
    )
