-- ===== src/Access/Keeps.antt =====
-- The moves of packages/api/src/modules/access-request, and the order of the requests and the
-- organisations.
use trace_public.Common.{ℕ, true, Option, none, some, ◌≡◌, inl, inr, refl, is_some, Option-cases}
use trace_public.Session.{Session}
use trace_public.Table.{first_where, Table, find, insert, modify}
use trace_public.Table.Laws.{
  find-insert_cases, find-insert-some, is_some-find-insert, find-insert_self,
}
use trace_public.Table.Search.{is_some-find-modify}
use trace_public.Access.{
  role_of_approved, role_of_access, ApproveAccessRequest, CreateAccessRequest, Role, String,
  UpdateApprovedUserAccess, UpdatePendingAccessRequest, AccessDb, AccessRequest, AccessStatus,
}
use trace_public.Access.Requests.{
  asks, regrant_at, approve_at, grant, write_request, new_request, edited, approved_by,
  reviewed_again, renamed, rejected_by, new_organisation,
}
use trace_public.Access.Moves.{Resolves, Move}
use trace_public.Access.Orderly.{
  TargetExists, TargetExists-grows, IsOrderly, RequestFits, OneAddress, Grows, OnePending-modify,
  OnePending-insert, OneAddress-insert, OneAddress-modify, fits-modify,
}

is_some-find-insert_self :
    {A : Type 0} (k : ℕ) (v : A) (t : Table A) → is_some (find k (insert k v t)) ≡ true
is_some-find-insert_self k v t = elim (Option-cases (find k t)) [
  | inl fresh ↦ rw (find-insert_self k v t fresh) refl
  | inr (r, old) ↦ rw (find-insert-some k k v t old) refl
]

-- Finding or making an organisation touches nothing else.
record Places (db mid : AccessDb) (id : ℕ) : Type 0 where
  market : mid.market ≡ db.market
  requests : mid.access_requests ≡ db.access_requests
  grows : Grows db.organisations mid.organisations
  addresses : OneAddress mid.organisations
  target : is_some (find id mid.organisations) ≡ true

Resolves-Places :
    {db mid : AccessDb} {now new_id id : ℕ}
    → OneAddress db.organisations
    → Resolves db now new_id mid id
    → Places db mid id
Resolves-Places {db} {mid} {now} {new_id} {id} one (Resolves.existing there same) =
    rw same
      (record { market = refl; requests = refl; grows = λ j h. h; addresses = one; target = there })
Resolves-Places {db} {mid} {now} {new_id} {id} one (Resolves.created name slug free is_new same) =
    let organisation = new_organisation name slug now in
    rw same (record {
      market = refl;
      requests = refl;
      grows = λ j h. is_some-find-insert new_id j organisation db.organisations h;
      addresses = OneAddress-insert new_id name slug now db.organisations free one;
      target = rw is_new (is_some-find-insert_self new_id organisation db.organisations);
    })

IsOrderly-Places : {db mid : AccessDb} {id : ℕ} → IsOrderly db → Places db mid id → IsOrderly mid
IsOrderly-Places {db} {mid} before places = record {
  single = rw places.requests before.single;
  fits = λ i q e.
      let old = before.fits i q (rw places.requests at e) in
      record {
        review = old.review;
        target =
            TargetExists-grows q.target_organisation_id db.organisations mid.organisations
              places.grows old.target;
      };
  addresses = places.addresses;
}

-- An update of one request that reopens none.
write_request-IsOrderly :
    (id : ℕ) (f : AccessRequest → AccessRequest) (db : AccessDb) (r : AccessRequest)
    → find id db.access_requests ≡ some r
    → (f r).user_id ≡ r.user_id
    → ((f r).status ≡ AccessStatus.pending → r.status ≡ AccessStatus.pending)
    → RequestFits (f r) db.organisations
    → IsOrderly db
    → IsOrderly (write_request id f db)
write_request-IsOrderly id f db r found same open_before new before = record {
  single = OnePending-modify id f db.access_requests r found same open_before before.single;
  fits =
      fits-modify id f db.access_requests r found db.organisations db.organisations (λ j h. h)
        before.fits new;
  addresses = before.addresses;
}

-- A user's new role is no concern of the requests.
grant-IsOrderly :
    (user_id : ℕ) (role : Role) (organisation_id : Option ℕ) (db : AccessDb)
    → IsOrderly db
    → IsOrderly (grant user_id role organisation_id db)
grant-IsOrderly user_id role organisation_id db before = record {
  single = before.single;
  fits = before.fits;
  addresses = before.addresses;
}

pending-is_open : {s : AccessStatus} → s ≡ AccessStatus.approved → s ≡ AccessStatus.pending → ⊥
pending-is_open h k = cc

submit-IsOrderly :
    (new_id user_id : ℕ) (input : CreateAccessRequest) (now : ℕ) (db : AccessDb)
    → first_where (asks user_id) db.access_requests ≡ none
    → IsOrderly db
    → IsOrderly (record db {
      access_requests = insert new_id (new_request user_id input now) db.access_requests;
    })
submit-IsOrderly new_id user_id input now db none_open before = record {
  single =
      OnePending-insert new_id user_id (new_request user_id input now) db.access_requests refl
        none_open before.single;
  fits = λ i q e.
      elim (find-insert_cases new_id i (new_request user_id input now) db.access_requests e) [
        | inl (here, made) ↦ rw made (record { review = (refl, refl, refl); target = tt })
        | inr old ↦ before.fits i q old
      ];
  addresses = before.addresses;
}

edit-IsOrderly :
    (id : ℕ) (input : UpdatePendingAccessRequest) (now : ℕ) (db : AccessDb) (r : AccessRequest)
    → find id db.access_requests ≡ some r
    → IsOrderly db
    → IsOrderly (write_request id (edited input now) db)
edit-IsOrderly id input now db r found before =
    let old = before.fits id r found in
    write_request-IsOrderly id (edited input now) db r found refl (λ p. p)
      (record { review = old.review; target = old.target }) before

reject-IsOrderly :
    (id reviewer_id : ℕ) (notes : Option String) (now : ℕ) (db : AccessDb) (r : AccessRequest)
    → find id db.access_requests ≡ some r
    → r.status ≡ AccessStatus.pending
    → IsOrderly db
    → IsOrderly (write_request id (rejected_by reviewer_id notes now) db)
reject-IsOrderly id reviewer_id notes now db r found open_still before =
    let old = before.fits id r found in
    let untargeted : r.target_organisation_id ≡ none = (rw open_still at old.review).2 in
    write_request-IsOrderly id (rejected_by reviewer_id notes now) db r found refl (λ p. open_still)
      (record { review = (refl, refl, untargeted); target = old.target }) before

approve-IsOrderly :
    (id reviewer_id organisation_id : ℕ) (input : ApproveAccessRequest) (now : ℕ)
    (r : AccessRequest) (mid : AccessDb)
    → find id mid.access_requests ≡ some r
    → r.status ≡ AccessStatus.pending
    → is_some (find organisation_id mid.organisations) ≡ true
    → IsOrderly mid
    → IsOrderly (approve_at id reviewer_id input now r mid organisation_id)
approve-IsOrderly id reviewer_id organisation_id input now r mid found open_still target before =
    let db = grant r.user_id (role_of_access input.role) (some organisation_id) mid in
    write_request-IsOrderly id (approved_by reviewer_id organisation_id input.review_notes now) db r
      found refl (λ p. open_still) (record { review = (refl, refl); target = target })
      (grant-IsOrderly r.user_id (role_of_access input.role) (some organisation_id) mid before)

regrant-IsOrderly :
    (id reviewer_id : ℕ) (organisation_id : Option ℕ) (input : UpdateApprovedUserAccess) (now : ℕ)
    (r : AccessRequest) (mid : AccessDb)
    → find id mid.access_requests ≡ some r
    → r.status ≡ AccessStatus.approved
    → TargetExists organisation_id mid.organisations
    → IsOrderly mid
    → IsOrderly (regrant_at id reviewer_id input now r mid organisation_id)
regrant-IsOrderly id reviewer_id organisation_id input now r mid found approved_still target
      before =
    let db = grant r.user_id (role_of_approved input.role) organisation_id mid in
    write_request-IsOrderly id (reviewed_again reviewer_id organisation_id input.review_notes now)
      db r found refl (λ p. p) (record { review = rw approved_still (refl, refl); target = target })
      (grant-IsOrderly r.user_id (role_of_approved input.role) organisation_id mid before)

-- Every move keeps the requests and the organisations in order.
pub Move-IsOrderly :
    (session : Session) (now : ℕ) (db db' : AccessDb)
    → Move session now db db'
    → IsOrderly db
    → IsOrderly db'
Move-IsOrderly session now db db' (Move.reads same) before = rw same before
Move-IsOrderly session now db db' (Move.submits new_id input a_buyer none_open same) before =
    rw same (submit-IsOrderly new_id session.sub input now db none_open before)
Move-IsOrderly session now db db' (Move.edits id input {r} admin found open_still same) before =
    rw same (edit-IsOrderly id input now db r found before)
Move-IsOrderly session now db db'
      (Move.approves new_id id place input r mid admin found open_still resolved same) before =
    let places = Resolves-Places before.addresses resolved in
    rw same (
      approve-IsOrderly id session.sub place input now r mid (rw places.requests found) open_still
        places.target (IsOrderly-Places before places))
Move-IsOrderly session now db db'
      (Move.regrants new_id id place input r mid admin found approved_still a_seller resolved same)
      before =
    let places = Resolves-Places before.addresses resolved in
    rw same (
      regrant-IsOrderly id session.sub (some place) input now r mid (rw places.requests found)
        approved_still places.target (IsOrderly-Places before places))
Move-IsOrderly session now db db' (Move.demotes id input r admin found approved_still buyer same)
      before =
    rw same (regrant-IsOrderly id session.sub none input now r db found approved_still tt before)
Move-IsOrderly session now db db' (Move.renames id input {organisation} admin found same) before =
    rw same (record {
      single = before.single;
      fits = λ i q e. record {
        review = (before.fits i q e).review;
        target =
            TargetExists-grows q.target_organisation_id db.organisations
              (modify id (renamed input now) db.organisations)
              (λ j h. is_some-find-modify id j (renamed input now) db.organisations h)
              (before.fits i q e).target;
      };
      addresses =
          OneAddress-modify id (renamed input now) db.organisations organisation found refl
            before.addresses;
    })
Move-IsOrderly session now db db' (Move.rejects id notes {r} admin found open_still same) before =
    rw same (reject-IsOrderly id session.sub notes now db r found open_still before)
