-- ===== src/Access/Moves/Inversion.antt =====
-- The moves of the handlers of packages/api/src/modules/access-request/access-request.routes.ts, behind
-- their guards.
use trace_public.Common.{refl, subst, sym, ap, ℕ, Bool, true, not, Option, ◌≡◌, ◌⊎◌, inl, inr}
use trace_public.Config.{Role}
use trace_public.Errors.{
  ◌>>◌, Reason, Reason, forbidden, refuse, Result-cases, >>=-eq-ok, ok-injective, refuse-eq-ok,
  Result, ok,
}
use trace_public.Session.{is_request_allowed, Claims, Session, Profile, load_session, authorize}
use trace_public.Access.{AccessDb}
use trace_public.Access.Views.{list_access_requests}
use trace_public.Access.Routes.{
  method_of_access, answer, as_administrator, handle_access, AccessCall, AccessReply, answer_access,
  serve_access,
}
use trace_public.Access.Moves.{Move}
use trace_public.Access.Moves.Operations.{
  administrator-eq, submit-Move, edit-Move, approve-Move, reject-Move, rename-Move, regrant-Move,
}

answer-eq-ok :
    {A : Type 0} (reply : A → AccessReply) (m : Result (AccessDb × A)) {db' : AccessDb}
    {said : AccessReply}
    → answer reply m ≡ ok (db', said)
    → (x : A) × (m ≡ ok (db', x))
answer-eq-ok reply m {db'} h =
    let (r, done, pair) = >>=-eq-ok m _ h in
    let same : r.0 ≡ db' = ap (λ p. p.0) (ok-injective pair) in
    (r.1, subst (λ d. m ≡ ok (d, r.1)) same done)

as_administrator-eq-ok :
    (valid : Bool) (session : Session) (m : Result (AccessDb × AccessReply))
    {found : AccessDb × AccessReply}
    → as_administrator valid session m ≡ ok found
    → (session.role ≡ Role.platform_admin) × (m ≡ ok found)
unfolding as_administrator authorize
as_administrator-eq-ok valid session m h =
    let (allowed, h1) = refuse-eq-ok _ _ _ h in
    let (parsed, h2) = refuse-eq-ok _ _ _ h1 in (administrator-eq session.role allowed, h2)

serve_access-Move :
    (call : AccessCall) (session : Session) (now : ℕ) (db db' : AccessDb) (said : AccessReply)
    → serve_access call session now db ≡ ok (db', said)
    → Move session now db db'
unfolding serve_access
serve_access-Move (AccessCall.submit new_id input) session now db db' said h =
    let (parsed, h1) = refuse-eq-ok _ _ _ h in
    let (r, done) = answer-eq-ok AccessReply.request _ h1 in
    submit-Move session now db db' new_id input r done
serve_access-Move AccessCall.get_mine session now db db' said h =
    Move.reads (ap (λ p. p.0) (sym (ok-injective h)))
serve_access-Move (AccessCall.get_all status) session now db db' said h =
    let (admin, h1) =
      as_administrator-eq-ok true session
        (ok (db, AccessReply.views (list_access_requests status db))) h in
    Move.reads (ap (λ p. p.0) (sym (ok-injective h1)))
serve_access-Move (AccessCall.patch_organisation id input) session now db db' said h =
    let (admin, h1) = as_administrator-eq-ok _ session _ h in
    let (o, done) = answer-eq-ok AccessReply.organisation _ h1 in
    rename-Move session now db db' admin id input o done
serve_access-Move (AccessCall.patch_pending id input) session now db db' said h =
    let (admin, h1) = as_administrator-eq-ok _ session _ h in
    let (v, done) = answer-eq-ok AccessReply.view _ h1 in
    edit-Move session now db db' admin id input v done
serve_access-Move (AccessCall.approve new_id id input) session now db db' said h =
    let (admin, h1) = as_administrator-eq-ok _ session _ h in
    let (v, done) = answer-eq-ok AccessReply.view _ h1 in
    approve-Move session now db db' admin new_id id input v done
serve_access-Move (AccessCall.patch_approved new_id id input) session now db db' said h =
    let (admin, h1) = as_administrator-eq-ok _ session _ h in
    let (v, done) = answer-eq-ok AccessReply.view _ h1 in
    regrant-Move session now db db' admin new_id id input v done
serve_access-Move (AccessCall.reject id notes) session now db db' said h =
    let (admin, h1) = as_administrator-eq-ok _ session _ h in
    let (r, done) = answer-eq-ok AccessReply.request _ h1 in
    reject-Move session now db db' admin id notes r done

-- An answered request was of a session that is signed in.
pub answer_access-eq-ok :
    (profile : Profile) (verified : Option Claims) (call : AccessCall) (now : ℕ) (db : AccessDb)
    (found : AccessDb × AccessReply)
    → answer_access profile verified call now db ≡ ok found
    → (session : Session) × (load_session verified db.market ≡ ok session)
      × (serve_access call session now db ≡ ok found)
unfolding answer_access
answer_access-eq-ok profile verified call now db found h =
    let (session, loaded, served) =
      >>=-eq-ok
        (refuse (not (is_request_allowed profile (method_of_access call)))
            (forbidden Reason.read_only)
          >> load_session verified db.market)
        (λ session. serve_access call session now db) h in
    let (allowed, signed_in) =
      refuse-eq-ok (not (is_request_allowed profile (method_of_access call)))
        (forbidden Reason.read_only) (load_session verified db.market) loaded in
    (session, signed_in, served)

-- The state after a request is the state before it, or what a move of a session that is signed in made
-- of it.
pub handle_access-Move :
    (profile : Profile) (verified : Option Claims) (call : AccessCall) (now : ℕ) (db : AccessDb)
    → ((handle_access profile verified call now db).0 ≡ db)
      ⊎ ((session : Session) × (load_session verified db.market ≡ ok session)
          × Move session now db (handle_access profile verified call now db).0)
unfolding handle_access answer_access
handle_access-Move profile verified call now db =
    elim (Result-cases (answer_access profile verified call now db)) [
      | inl (e, failed) ↦ inl (rw (failed, handle_access) refl)
      | inr ((db', said), done) ↦
          let (session, signed_in, served) =
            answer_access-eq-ok profile verified call now db (db', said) done in
          inr (
            session,
            signed_in,
            rw (done, handle_access) (serve_access-Move call session now db db' said served),
          )
    ]
