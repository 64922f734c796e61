-- ===== src/Access/Moves/Operations.antt =====
-- The moves of the operations of packages/api/src/modules/access-request/access-request.service.ts.
use text.Mathlib.Text.{◌==◌ as str_eq}
use trace_public.Common.{
  Bool-cases, refl, subst, sym, ap, eq_true_of_not, any, Option-cases, ℕ, true, false, not, Option,
  none, some, ◌≡◌, inl, inr, String,
}
use trace_public.Config.{Role}
use trace_public.Errors.{>>=-eq-ok, ok-injective, refuse-eq-ok, require-eq-ok, ok}
use trace_public.Session.{Session, same_role}
use trace_public.Table.{find, first_where}
use trace_public.Access.{
  OrganisationChoice, is_some, AccessDb, AccessRequest, AccessStatus, Organisation,
  CreateAccessRequest, UpdatePendingAccessRequest, ApproveAccessRequest, UpdateApprovedUserAccess,
  UpdateOrganisation, is_buyer,
}
use trace_public.Access.Views.{AccessView}
use trace_public.Table.Search.{is_some-find-first_where}
use trace_public.Access.Slugs.Free.{first_free_slug-is_free}
use trace_public.Access.Requests.{
  next_organisation, regrant_at, is_pending, is_approved, organisation_named,
  resolve_organisation_for_approval, submit_access_request, update_pending_access_request,
  approve_access_request, update_approved_user_access, update_access_request_organisation,
  reject_access_request,
}
use trace_public.Access.Routes.{administrators}
use trace_public.Access.Moves.{Resolves, Move}

pub none_of_not_some : {A : Type 0} (o : Option A) → is_some o ≡ false → o ≡ none
none_of_not_some none h = refl
none_of_not_some (some x) h = cc

pub is_pending-eq : (s : AccessStatus) → not (is_pending s) ≡ false → s ≡ AccessStatus.pending
is_pending-eq AccessStatus.pending h = refl
is_pending-eq AccessStatus.approved h = cc
is_pending-eq AccessStatus.rejected h = cc

pub is_approved-eq : (s : AccessStatus) → not (is_approved s) ≡ false → s ≡ AccessStatus.approved
is_approved-eq AccessStatus.pending h = cc
is_approved-eq AccessStatus.approved h = refl
is_approved-eq AccessStatus.rejected h = cc

pub administrator-eq :
    (role : Role) → not (any (same_role role) administrators) ≡ false → role ≡ Role.platform_admin
administrator-eq Role.platform_admin h = refl
administrator-eq Role.hub_admin h = cc
administrator-eq Role.hub_staff h = cc
administrator-eq Role.supplier h = cc
administrator-eq Role.buyer h = cc
administrator-eq Role.inspector h = cc

module _ (new_id now : ℕ) (db : AccessDb) where
  pub organisation_named-Resolves :
      (name : String) (found : AccessDb × ℕ)
      → organisation_named new_id name now db ≡ ok found
      → Resolves db now new_id found.0 found.1
  unfolding organisation_named
  organisation_named-Resolves name found h =
      elim (Option-cases
        (first_where (λ (o : Organisation). str_eq o.name name) db.organisations)) [
          | inl unnamed ↦
              let (slug, free, made) =
                require-eq-ok _ _ _ (rw (unnamed, organisation_named) at h) in
              let pair = ok-injective made in
              Resolves.created name slug (first_free_slug-is_free _ _ free)
                (ap (λ p. p.1) (sym pair)) (ap (λ p. p.0) (sym pair))
          | inr ((id, organisation), named) ↦
              let pair = ok-injective (rw (named, organisation_named) at h) in
              Resolves.existing
                (subst (λ (p : AccessDb × ℕ). is_some (find p.1 db.organisations) ≡ true) pair
                  (is_some-find-first_where _ db.organisations named))
                (ap (λ p. p.0) (sym pair))
        ]

  pub resolve-Resolves :
      (choice : OrganisationChoice) (fallback : Option String) (found : AccessDb × ℕ)
      → resolve_organisation_for_approval new_id choice fallback now db ≡ ok found
      → Resolves db now new_id found.0 found.1
  unfolding resolve_organisation_for_approval
  resolve-Resolves choice fallback found h = elim (Option-cases choice.organisation_id) [
    | inl unchosen ↦
        let (_, named) =
          refuse-eq-ok _ _ _ (rw (unchosen, resolve_organisation_for_approval) at h) in
        organisation_named-Resolves _ found named
    | inr (id, chosen) ↦
        let (organisation, there, made) =
          require-eq-ok (find id db.organisations) _ _
            (rw (chosen, resolve_organisation_for_approval) at h) in
        let pair = ok-injective made in
        let exists : is_some (find id db.organisations) ≡ true = rw there refl in
        Resolves.existing
          (subst (λ (p : AccessDb × ℕ). is_some (find p.1 db.organisations) ≡ true) pair exists)
          (ap (λ p. p.0) (sym pair))
  ]

module _ (session : Session) (now : ℕ) (db db' : AccessDb) where
  pub submit-Move :
      (new_id : ℕ) (input : CreateAccessRequest) (r : AccessRequest)
      → submit_access_request new_id session.sub session.role input now db ≡ ok (db', r)
      → Move session now db db'
  unfolding submit_access_request
  submit-Move new_id input r h =
      let (a_buyer, h1) = refuse-eq-ok _ _ _ h in
      let (none_open, h2) = refuse-eq-ok _ _ _ h1 in
      Move.submits new_id input (eq_true_of_not _ a_buyer) (none_of_not_some _ none_open)
        (ap (λ p. p.0) (sym (ok-injective h2)))

  module _ (admin : session.role ≡ Role.platform_admin) where
    pub edit-Move :
        (id : ℕ) (input : UpdatePendingAccessRequest) (v : Option AccessView)
        → update_pending_access_request id input now db ≡ ok (db', v)
        → Move session now db db'
    unfolding update_pending_access_request
    edit-Move id input v h =
        let (r, found, h1) = require-eq-ok _ _ _ h in
        let (open_still, h2) = refuse-eq-ok _ _ _ h1 in
        Move.edits id input admin found (is_pending-eq r.status open_still)
          (ap (λ p. p.0) (sym (ok-injective h2)))

    pub approve-Move :
        (new_id id : ℕ) (input : ApproveAccessRequest) (v : Option AccessView)
        → approve_access_request new_id id session.sub input now db ≡ ok (db', v)
        → Move session now db db'
    unfolding approve_access_request
    approve-Move new_id id input v h =
        let (r, found, h1) = require-eq-ok _ _ _ h in
        let (open_still, h2) = refuse-eq-ok _ _ _ h1 in
        let (target, resolved, h3) = >>=-eq-ok _ _ h2 in
        Move.approves new_id id target.1 input r target.0 admin found
          (is_pending-eq r.status open_still)
          (resolve-Resolves new_id now db input.organisation r.organisation_name target resolved)
          (ap (λ p. p.0) (sym (ok-injective h3)))

    pub reject-Move :
        (id : ℕ) (notes : Option String) (r' : AccessRequest)
        → reject_access_request id session.sub notes now db ≡ ok (db', r')
        → Move session now db db'
    unfolding reject_access_request
    reject-Move id notes r' h =
        let (r, found, h1) = require-eq-ok _ _ _ h in
        let (open_still, h2) = refuse-eq-ok _ _ _ h1 in
        Move.rejects id notes admin found (is_pending-eq r.status open_still)
          (ap (λ p. p.0) (sym (ok-injective h2)))

    pub rename-Move :
        (id : ℕ) (input : UpdateOrganisation) (o : Organisation)
        → update_access_request_organisation id input now db ≡ ok (db', o)
        → Move session now db db'
    unfolding update_access_request_organisation
    rename-Move id input o h =
        let (organisation, found, h1) = require-eq-ok _ _ _ h in
        Move.renames id input admin found (ap (λ p. p.0) (sym (ok-injective h1)))

    pub regrant-Move :
        (new_id id : ℕ) (input : UpdateApprovedUserAccess) (v : Option AccessView)
        → update_approved_user_access new_id id session.sub input now db ≡ ok (db', v)
        → Move session now db db'
    unfolding update_approved_user_access next_organisation
    regrant-Move new_id id input v h =
        let (r, found, h1) = require-eq-ok (find id db.access_requests) _ _ h in
        let (granted_before, h2) = refuse-eq-ok _ _ _ h1 in
        let (target, resolved, h3) =
          >>=-eq-ok (next_organisation new_id input r.organisation_name now db) _ h2 in
        let made = ap (λ p. p.0) (sym (ok-injective h3)) in
        let approved_still = is_approved-eq r.status granted_before in
        elim (Bool-cases (is_buyer input.role)) [
          | inl no_seller ↦
              let same = ok-injective (rw (no_seller, next_organisation) at resolved) in
              Move.demotes id input r admin found approved_still no_seller (
                subst
                  (λ (p : AccessDb × Option ℕ). db' ≡ regrant_at id session.sub input now r p.0 p.1)
                  (sym same) made)
          | inr a_seller ↦
              let (place, there, pair) =
                >>=-eq-ok _ _ (rw (a_seller, next_organisation) at resolved) in
              Move.regrants new_id id place.1 input r place.0 admin found approved_still a_seller
                (resolve-Resolves new_id now db input.organisation r.organisation_name place there)
                (subst
                  (λ (p : AccessDb × Option ℕ). db' ≡ regrant_at id session.sub input now r p.0 p.1)
                  (sym (ok-injective pair)) made)
        ]
