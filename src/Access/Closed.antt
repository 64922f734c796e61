-- ===== src/Access/Closed.antt =====
-- What becomes of a request for access that packages/api/src/modules/access-request has stored.
use trace_public.Common.{
  subst, some-injective, ℕ, Option, none, some, ◌≡◌, ◌⊎◌, inl, inr, refl, sym, ◌∙◌, ap,
}
use trace_public.Session.{Session, Claims, Profile}
use trace_public.Table.{Table, find, modify}
use trace_public.Table.Search.{find-modify_self, find-modify_split}
use trace_public.Table.Laws.{find-insert-some}
use trace_public.Access.{role_of_approved, AccessDb, AccessRequest, AccessStatus, role_of_access}
use trace_public.Access.Requests.{
  grant, write_request, new_request, edited, approved_by, reviewed_again, rejected_by,
}
use trace_public.Access.Routes.{AccessCall, handle_access}
use trace_public.Access.Moves.{Resolves, Move}
use trace_public.Access.Moves.Inversion.{handle_access-Move}

-- A request for access moves only from pending, and stays its user's.
abbrev pub Moved : AccessRequest → AccessRequest → Type 0
Moved r r' = (r'.user_id ≡ r.user_id) × ((r.status ≡ AccessStatus.pending) ⊎ (r'.status ≡ r.status))

abbrev pub StillThere : ℕ → AccessRequest → AccessDb → Type 0
StillThere id r db = (r' : AccessRequest) × (find id db.access_requests ≡ some r') × Moved r r'

untouched :
    (id : ℕ) (r : AccessRequest) (db : AccessDb)
    → find id db.access_requests ≡ some r
    → StillThere id r db
untouched id r db found = (r, found, (refl, inr refl))

-- An update of a request that is pending, or keeps its status.
written :
    (k : ℕ) (f : AccessRequest → AccessRequest) (db : AccessDb) (q : AccessRequest)
    → find k db.access_requests ≡ some q
    → Moved q (f q)
    → (id : ℕ) (r : AccessRequest) → find id db.access_requests ≡ some r
    → StillThere id r (write_request k f db)
written k f db q there fits id r found = elim (find-modify_split k id f db.access_requests) [
  | inl same ↦
      let q_is : q ≡ r =
        some-injective (sym there ∙ ap (λ i. find i db.access_requests) same ∙ found) in
      (
        f r,
        find-modify_at k id f db.access_requests same found,
        subst (λ x. Moved x (f x)) q_is fits,
      )
  | inr other ↦ (r, other ∙ found, (refl, inr refl))
]
  where
    find-modify_at :
        (k id : ℕ) (f : AccessRequest → AccessRequest) (t : Table AccessRequest) {r : AccessRequest}
        → k ≡ id
        → find id t ≡ some r
        → find id (modify k f t) ≡ some (f r)
    find-modify_at k id f t same found = rw same (find-modify_self id f t found)

pub Resolves-requests :
    {db mid : AccessDb} {now new_id id : ℕ}
    → Resolves db now new_id mid id
    → mid.access_requests ≡ db.access_requests
Resolves-requests (Resolves.existing there same) = ap (λ (d : AccessDb). d.access_requests) same
Resolves-requests (Resolves.created name slug free is_new same) =
    ap (λ (d : AccessDb). d.access_requests) same

Move-StillThere :
    (session : Session) (now : ℕ) (db db' : AccessDb) (id : ℕ) (r : AccessRequest)
    → find id db.access_requests ≡ some r
    → Move session now db db'
    → StillThere id r db'
Move-StillThere session now db db' id r found (Move.reads same) = rw same (untouched id r db found)
Move-StillThere session now db db' id r found (Move.submits new_id input a_buyer none_open same) =
    rw same (
      r,
      find-insert-some new_id id (new_request session.sub input now) db.access_requests found,
      (refl, inr refl),
    )
Move-StillThere session now db db' id r found
      (Move.edits k input {r = q} admin there open_still same) =
    rw same (written k (edited input now) db q there (refl, inr refl) id r found)
Move-StillThere session now db db' id r found
      (Move.approves new_id k place input q mid admin there open_still resolved same) =
    let kept = Resolves-requests resolved in
    let middle = grant q.user_id (role_of_access input.role) (some place) mid in
    rw same (
      written k (approved_by session.sub place input.review_notes now) middle q (rw kept there)
        (refl, inl open_still) id r (rw kept found))
Move-StillThere session now db db' id r found
      (Move.regrants new_id k place input q mid admin there approved_still a_seller resolved same) =
    let kept = Resolves-requests resolved in
    let middle = grant q.user_id (role_of_approved input.role) (some place) mid in
    rw same (
      written k (reviewed_again session.sub (some place) input.review_notes now) middle q
        (rw kept there) (refl, inr refl) id r (rw kept found))
Move-StillThere session now db db' id r found
      (Move.demotes k input q admin there approved_still buyer same) =
    let middle = grant q.user_id (role_of_approved input.role) none db in
    rw same (
      written k (reviewed_again session.sub none input.review_notes now) middle q there
        (refl, inr refl) id r found)
Move-StillThere session now db db' id r found (Move.renames k input admin there same) =
    rw same (untouched id r db found)
Move-StillThere session now db db' id r found
      (Move.rejects k notes {r = q} admin there open_still same) =
    rw same
      (written k (rejected_by session.sub notes now) db q there (refl, inl open_still) id r found)

-- A request for access that is there stays there through any request to the module, answered or
-- refused, and stays its user's; and its status changes only if it was pending.
pub requests_stay :
    (profile : Profile) (verified : Option Claims) (call : AccessCall) (now : ℕ) (db : AccessDb)
    (id : ℕ) (r : AccessRequest)
    → find id db.access_requests ≡ some r
    → StillThere id r (handle_access profile verified call now db).0
requests_stay profile verified call now db id r found =
    elim (handle_access-Move profile verified call now db) [
      | inl same ↦ rw same (untouched id r db found)
      | inr (session, signed_in, move) ↦ Move-StillThere session now db _ id r found move
    ]
