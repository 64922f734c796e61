-- ===== src/Access/Orderly.antt =====
-- What holds, between two requests to packages/api/src/modules/access-request, of the requests for access
-- and of the organisations, and what an insert or an update does to it.
use trace_public.Common.{
  or_false, true_is_false, [], ◌∷◌, ap, subst, ◌==◌, ==_self, some-injective, Bool-cases, ℕ, true,
  false, Option, none, some, ◌≡◌, inl, inr, refl, sym, ◌∙◌, is_some, String,
}
use trace_public.Table.{Table, find, insert, modify, first_where}
use trace_public.Table.Laws.{find-insert_cases}
use trace_public.Table.Search.{find-modify_cases, first_where-none}
use trace_public.Access.{AccessDb, AccessRequest, AccessStatus, Organisation}
use trace_public.Access.Slugs.{Slug, is_taken, same_slug}
use trace_public.Access.Slugs.Free.{same_slug_self}
use trace_public.Access.Requests.{slugs_of, asks, new_organisation}

-- A review has a reviewer and a time; only an approval has an organisation.
abbrev pub ReviewFits : AccessStatus → (by at target : Option ℕ) → Type 0
ReviewFits AccessStatus.pending by at target = (by ≡ none) × (at ≡ none) × (target ≡ none)
ReviewFits AccessStatus.approved by at target = (is_some by ≡ true) × (is_some at ≡ true)
ReviewFits AccessStatus.rejected by at target =
    (is_some by ≡ true) × (is_some at ≡ true) × (target ≡ none)

abbrev pub TargetExists : Option ℕ → Table Organisation → Type 0
TargetExists none organisations = Unit
TargetExists (some id) organisations = is_some (find id organisations) ≡ true

pub record RequestFits (r : AccessRequest) (organisations : Table Organisation) : Type 0 where
  pub review : ReviewFits r.status r.reviewed_by r.reviewed_at r.target_organisation_id
  pub target : TargetExists r.target_organisation_id organisations

-- A user has at most one pending request.
abbrev pub OnePending : Table AccessRequest → Type 0
OnePending requests =
    (i j : ℕ) (a b : AccessRequest)
    → find i requests ≡ some a
    → find j requests ≡ some b
    → a.status ≡ AccessStatus.pending
    → b.status ≡ AccessStatus.pending
    → a.user_id ≡ b.user_id
    → i ≡ j

-- No two organisations have the same address.
abbrev pub OneAddress : Table Organisation → Type 0
OneAddress organisations =
    (i j : ℕ) (a b : Organisation)
    → find i organisations ≡ some a
    → find j organisations ≡ some b
    → a.slug ≡ b.slug
    → i ≡ j

pub record IsOrderly (db : AccessDb) : Type 0 where
  pub single : OnePending db.access_requests
  pub fits :
      (id : ℕ) (r : AccessRequest)
      → find id db.access_requests ≡ some r
      → RequestFits r db.organisations
  pub addresses : OneAddress db.organisations

-- The organisations that were there still are.
abbrev pub Grows : Table Organisation → Table Organisation → Type 0
Grows before after = (id : ℕ) → is_some (find id before) ≡ true → is_some (find id after) ≡ true

pub TargetExists-grows :
    (target : Option ℕ) (before after : Table Organisation)
    → Grows before after
    → TargetExists target before
    → TargetExists target after
TargetExists-grows none before after grows h = tt
TargetExists-grows (some id) before after grows h = grows id h

-- An update of one request.
module _ (id : ℕ) (f : AccessRequest → AccessRequest) (t : Table AccessRequest) (r : AccessRequest)
    (found : find id t ≡ some r) where
  pub OnePending-modify :
      (f r).user_id ≡ r.user_id
      → ((f r).status ≡ AccessStatus.pending → r.status ≡ AccessStatus.pending)
      → OnePending t
      → OnePending (modify id f t)
  OnePending-modify same open_before one i j a b e e' p p' u =
      elim (find-modify_cases id i f t found e) [
        | inl (here, made) ↦ elim (find-modify_cases id j f t found e') [
          | inl (here', made') ↦ here ∙ sym here'
          | inr (there', old') ↦
              here
              ∙ one id j r b found old' (open_before (rw made at p)) p' (sym same ∙ (rw made at u))
        ]
        | inr (there, old) ↦ elim (find-modify_cases id j f t found e') [
          | inl (here', made') ↦
              one i id a r old found p (open_before (rw made' at p')) ((rw made' at u) ∙ same)
              ∙ sym here'
          | inr (there', old') ↦ one i j a b old old' p p' u
        ]
      ]

  pub fits-modify :
      (before after : Table Organisation)
      → Grows before after
      → ((i : ℕ) (q : AccessRequest) → find i t ≡ some q → RequestFits q before)
      → RequestFits (f r) after
      → (i : ℕ) (q : AccessRequest) → find i (modify id f t) ≡ some q
      → RequestFits q after
  fits-modify before after grows old new i q e = elim (find-modify_cases id i f t found e) [
    | inl (here, made) ↦ rw made new
    | inr (there, same) ↦ record {
      review = (old i q same).review;
      target = TargetExists-grows q.target_organisation_id before after grows (old i q same).target;
    }
  ]

-- A slug that is not taken is no organisation's.
not_taken :
    (slug : Slug) (t : Table Organisation) (k : ℕ) {o : Organisation}
    → is_taken slug (slugs_of t) ≡ false
    → find k t ≡ some o
    → o.slug ≡ slug
    → ⊥
unfolding find
not_taken slug [] k free e same = cc
not_taken slug ((j, q) ∷ t) k {o} free e same =
    let (here_free, rest_free) = or_false _ _ free in
    elim (Bool-cases (j == k)) [
      | inl here ↦
          let is_q : q ≡ o = some-injective (rw (here, find) at e) in
          let q_slug : q.slug ≡ slug = ap (λ (x : Organisation). x.slug) is_q ∙ same in
          let clash : same_slug slug slug ≡ false =
            subst (λ s. same_slug slug s ≡ false) q_slug here_free in
          true_is_false (sym (same_slug_self slug) ∙ clash)
      | inr there ↦ not_taken slug t k rest_free (rw (there, find) at e) same
    ]

pub OneAddress-insert :
    (id : ℕ) (name : String) (slug : Slug) (now : ℕ) (t : Table Organisation)
    → is_taken slug (slugs_of t) ≡ false
    → OneAddress t
    → OneAddress (insert id (new_organisation name slug now) t)
OneAddress-insert id name slug now t free one i j a b e e' same =
    elim (find-insert_cases id i (new_organisation name slug now) t e) [
      | inl (here, made) ↦ elim (find-insert_cases id j (new_organisation name slug now) t e') [
        | inl (here', made') ↦ here ∙ sym here'
        | inr old' ↦ absurd (not_taken slug t j free old' (sym (rw made at same)))
      ]
      | inr old ↦ elim (find-insert_cases id j (new_organisation name slug now) t e') [
        | inl (here', made') ↦ absurd (not_taken slug t i free old (rw made' at same))
        | inr old' ↦ one i j a b old old' same
      ]
    ]

pub OneAddress-modify :
    (id : ℕ) (f : Organisation → Organisation) (t : Table Organisation) (o : Organisation)
    → find id t ≡ some o
    → (f o).slug ≡ o.slug
    → OneAddress t
    → OneAddress (modify id f t)
OneAddress-modify id f t o found kept one i j a b e e' same =
    elim (find-modify_cases id i f t found e) [
      | inl (here, made) ↦ elim (find-modify_cases id j f t found e') [
        | inl (here', made') ↦ here ∙ sym here'
        | inr (there', old') ↦ here ∙ one id j o b found old' (sym kept ∙ (rw made at same))
      ]
      | inr (there, old) ↦ elim (find-modify_cases id j f t found e') [
        | inl (here', made') ↦ one i id a o old found ((rw made' at same) ∙ kept) ∙ sym here'
        | inr (there', old') ↦ one i j a b old old' same
      ]
    ]

not_asking :
    (user_id : ℕ) (a : AccessRequest) (t : Table AccessRequest) (k : ℕ)
    → first_where (asks user_id) t ≡ none
    → find k t ≡ some a
    → a.status ≡ AccessStatus.pending
    → a.user_id ≡ user_id
    → ⊥
not_asking user_id a t k none_open e p u =
    let quiet : asks user_id a ≡ false = first_where-none (asks user_id) k t none_open e in
    true_is_false (sym (rw (p, u, ==_self user_id) refl) ∙ quiet)

-- A request of a user with none pending.
pub OnePending-insert :
    (id user_id : ℕ) (r : AccessRequest) (t : Table AccessRequest)
    → r.user_id ≡ user_id
    → first_where (asks user_id) t ≡ none
    → OnePending t
    → OnePending (insert id r t)
OnePending-insert id user_id r t his none_open one i j a b e e' p p' u =
    elim (find-insert_cases id i r t e) [
      | inl (here, made) ↦ elim (find-insert_cases id j r t e') [
        | inl (here', made') ↦ here ∙ sym here'
        | inr old' ↦ absurd (not_asking user_id b t j none_open old' p' (sym u ∙ (rw made (his))))
      ]
      | inr old ↦ elim (find-insert_cases id j r t e') [
        | inl (here', made') ↦
            absurd (not_asking user_id a t i none_open old p (u ∙ (rw made' his)))
        | inr old' ↦ one i j a b old old' p p' u
      ]
    ]
