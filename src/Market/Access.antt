-- ===== src/Market/Access.antt =====
-- What stands before a handler, and who sees an order.
use trace_public.Common.{
  ℕ, true, false, not, Option, some, ◌≡◌, ◌⊎◌, ◌↔◌, inl, inr, refl, ◌==◌, ==_iff, ==_self,
  Bool-cases, eq_true_of_not,
}
use trace_public.Config.{is_platform_admin}
use trace_public.Errors.{ok, err, not_found, Resource, require-eq-ok, refuse-eq-ok, ok-injective}
use trace_public.Store.{User, Transaction, Db}
use trace_public.Table.{find}
use trace_public.Session.{Claims, Session, load_session, load_user}
use trace_public.Market.Offers.{Viewer}
use trace_public.Market.Orders.{sells_lot, get_transaction_by_id}

-- A session is loaded exactly for a verified token whose user exists and whose version is the user's
-- present one, so that it has not been revoked; and the session has the role and the organisation that
-- the user's row has now.
pub load_session_iff :
    (verified : Option Claims) (db : Db) (session : Session)
    → (load_session verified db ≡ ok session) ↔ (
        (claims : Claims) × (user : User) × (verified ≡ some claims)
        × (find claims.sub db.users ≡ some user)
        × (claims.tv ≡ some user.token_version)
        × (session ≡ record {
          sub = claims.sub;
          role = user.role;
          organisation_id = user.organisation_id;
        }))
unfolding load_session load_user
load_session_iff verified db session = (
  (λ h.
      let (claims, is_verified, h1) = require-eq-ok verified _ _ h in
      let (tv, has_tv, h2) = require-eq-ok claims.tv _ _ h1 in
      let (user, found, h3) = require-eq-ok (find claims.sub db.users) _ _ h2 in
      let (current, h4) = refuse-eq-ok (not (user.token_version == tv)) _ _ h3 in
      let same = (==_iff user.token_version tv).0 (eq_true_of_not _ current) in
      (claims, user, is_verified, found, cc (has_tv, same), cc (ok-injective h4))),
  (λ (claims, user, is_verified, found, has_tv, is_session).
      rw (is_verified, load_session)
        (rw (has_tv)
          (rw (found, load_user) (rw (==_self user.token_version) (rw is_session refl))))),
)

-- An order that exists is shown to its buyer, to those who sell its lot and to a platform admin; to
-- anyone else it is refused as not found.
pub get_transaction_by_id_sees :
    (id : ℕ) (viewer : Viewer) (db : Db) (order : Transaction)
    → find id db.transactions ≡ some order
    → (get_transaction_by_id id viewer db ≡ ok order)
        × ((order.buyer_id ≡ viewer.user_id)
            ⊎ ((sells_lot viewer order (find order.listing_id db.listings) ≡ true)
                ⊎ (is_platform_admin viewer.role ≡ true)))
      ⊎ (get_transaction_by_id id viewer db ≡ err (not_found Resource.order))
        × ((order.buyer_id == viewer.user_id) ≡ false)
        × (sells_lot viewer order (find order.listing_id db.listings) ≡ false)
        × (is_platform_admin viewer.role ≡ false)
unfolding get_transaction_by_id
get_transaction_by_id_sees id viewer db order found =
    elim (Bool-cases (order.buyer_id == viewer.user_id)) [
      | inl buys ↦ inl (rw (found, get_transaction_by_id) (rw buys refl), inl ((==_iff _ _).0 buys))
      | inr not_buyer ↦
          elim (Bool-cases (sells_lot viewer order (find order.listing_id db.listings))) [
            | inl sells ↦ inl (
              rw (found, get_transaction_by_id) (rw (not_buyer) (rw sells refl)),
              inr (inl sells),
            )
            | inr not_seller ↦ elim (Bool-cases (is_platform_admin viewer.role)) [
              | inl admin ↦ inl (
                rw (found, get_transaction_by_id) (rw not_buyer (rw not_seller (rw admin refl))),
                inr (inr admin),
              )
              | inr not_admin ↦ inr (
                rw (found, get_transaction_by_id)
                    (rw not_buyer (rw not_seller (rw not_admin refl))),
                not_buyer,
                not_seller,
                not_admin,
              )
            ]
          ]
    ]
