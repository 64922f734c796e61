-- ===== src/Session.antt =====
-- packages/api/src/middleware/auth.ts and deployment-profile.ts: the session behind a request, the
-- role check of a route, and what a deployment lets through.
use trace_public.Common.{ℕ, Bool, true, false, not, ◌||◌, Option, none, some, List, ◌==◌, any}
use trace_public.Config.{Role}
use trace_public.Errors.{
  Result, ok, err, ◌>>=◌, ◌>>◌, require, refuse, unauthorized, forbidden, Failure, Reason,
}
use trace_public.Store.{Db}
use trace_public.Table.{find}

-- The claims of a token that verified: `sub` and `tv`. A token that does not verify has none.
pub record Claims : Type 0 where
  pub sub : ℕ
  pub tv : Option ℕ

-- `JwtPayload`, as the handlers read it.
pub record Session : Type 0 where
  pub sub : ℕ
  pub role : Role
  pub organisation_id : Option ℕ

-- The row behind the claims, if it has not revoked them.
unfoldable pub load_user : Claims → ℕ → Db → Result Session
load_user claims tv db = do
  user ← require (find claims.sub db.users) unauthorized
  refuse (not (user.token_version == tv)) unauthorized
  ok (record { sub = claims.sub; role = user.role; organisation_id = user.organisation_id })

unfoldable pub load_session : Option Claims → Db → Result Session
unfolding load_user
load_session verified db = do
  claims ← require verified unauthorized
  tv ← require claims.tv unauthorized
  load_user claims tv db

-- `optionalUser`: only a missing session is swallowed.
unfoldable pub optional_user : Option Claims → Db → Result (Option Session)
unfolding load_session
optional_user verified db = elim (load_session verified db) [
  | ok session ↦ ok (some session)
  | err Failure.unauthorized ↦ ok none
  | err e ↦ err e
]

abbrev pub same_role : Role → Role → Bool
same_role Role.platform_admin Role.platform_admin = true
same_role Role.hub_admin Role.hub_admin = true
same_role Role.hub_staff Role.hub_staff = true
same_role Role.supplier Role.supplier = true
same_role Role.buyer Role.buyer = true
same_role Role.inspector Role.inspector = true
same_role _ _ = false

unfoldable pub authorize : List Role → Session → Result (Unit {0})
authorize roles session =
    refuse (not (any (same_role session.role) roles)) (forbidden Reason.role_not_permitted)

-- `TRACE_DEPLOYMENT_PROFILE`.
pub data Profile : Type 0 where
  self_hosted public_showcase public_sandbox public_buyer_demo : Profile

unfoldable pub is_read_only_profile : Profile → Bool
is_read_only_profile public_showcase = true
is_read_only_profile public_sandbox = true
is_read_only_profile _ = false

-- The methods of a request; `get`, `head` and `options` are `READ_ONLY_METHODS`.
pub data Method : Type 0 where
  get head options post patch delete : Method

abbrev pub is_read_only_method : Method → Bool
is_read_only_method get = true
is_read_only_method head = true
is_read_only_method options = true
is_read_only_method _ = false

unfoldable pub is_request_allowed : Profile → Method → Bool
unfolding is_read_only_profile
is_request_allowed profile method = not (is_read_only_profile profile) || is_read_only_method method

unfoldable pub curated_browse_only : Profile → Bool
curated_browse_only public_buyer_demo = true
curated_browse_only _ = false
