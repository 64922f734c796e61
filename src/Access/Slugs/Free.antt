-- ===== src/Access/Slugs/Free.antt =====
-- The loop of access-request.service.ts that looks for a free slug: its rounds and its result.
use trace_public.Common.{
  Option-cases, some-injective, subst, and_right, and_left, ==_iff, ==_self, ℕ, ◌+◌, ◌-◌, ◌^◌, ◌≤◌,
  ◌<◌, max, zero, suc, true, false, Option, none, some, List, [], ◌∷◌, ◌≡◌, ◌≢◌, refl, sym, ◌∙◌,
  if◌then◌else◌, arith, length, inl, inr, Bool-cases, is_some,
}
use trace_public.Access.Slugs.{
  String, first_free_slug, or_organisation, slugify_organisation_name, Slug, take, digits,
  candidate, same_slug, is_taken, free_slug,
}
use trace_public.Access.Slugs.Digits.{suffix-injective, length-digits, length-append}

pub same_slug-eq : (cs ds : Slug) → same_slug cs ds ≡ true → cs ≡ ds
same_slug-eq [] [] h = refl
same_slug-eq [] (d ∷ ds) h = cc
same_slug-eq (c ∷ cs) [] h = cc
same_slug-eq (c ∷ cs) (d ∷ ds) h =
    let heads : c ≡ d = (==_iff c d).0 (and_left _ _ h) in
    let tails : cs ≡ ds = same_slug-eq cs ds (and_right _ _ h) in rw (heads, tails) refl

pub same_slug_self : (cs : Slug) → same_slug cs cs ≡ true
same_slug_self [] = refl
same_slug_self (c ∷ cs) = rw (==_self c) (same_slug_self cs)

candidate-injective : (base : Slug) (m n : ℕ) → candidate base m ≡ candidate base n → m ≡ n
unfolding candidate
candidate-injective base m n h = suffix-injective _ _ m n h

-- A slug fewer in use: the first that equals a given one.
without : Slug → List Slug → List Slug
without slug [] = []
without slug (u ∷ used) =
    let rest = without slug used in if same_slug slug u then used else u ∷ rest

length-without :
    (slug : Slug) (used : List Slug)
    → is_taken slug used ≡ true
    → length (without slug used) + 1 ≡ length used
unfolding without
length-without slug [] h = cc
length-without slug (u ∷ used) h = elim (Bool-cases (same_slug slug u)) [
  | inl same ↦ rw same (omega arith)
  | inr other ↦ rw other (omega (arith, length-without slug used (rw other at h)))
]

-- Another slug is as free as before.
is_taken-without :
    (slug other : Slug) (used : List Slug)
    → slug ≢ other
    → is_taken other (without slug used) ≡ is_taken other used
unfolding without
is_taken-without slug other [] ne = refl
is_taken-without slug other (u ∷ used) ne = elim (Bool-cases (same_slug slug u)) [
  | inl same ↦ elim (Bool-cases (same_slug other u)) [
    | inl also ↦ absurd (ne (same_slug-eq slug u same ∙ sym (same_slug-eq other u also)))
    | inr not_also ↦ rw (same, not_also) refl
  ]
  | inr differ ↦ rw (differ, is_taken-without slug other used ne) refl
]

less_ne : {m n : ℕ} → m < n → m ≡ n → ⊥
less_ne h e = omega (arith, h, e)

some_is_none : {A : Type 0} {o : Option A} → is_some o ≡ true → o ≡ none → ⊥
some_is_none h e = cc

-- The later rounds do not look at the slug of an earlier one.
rounds-without :
    (rounds : ℕ) (base : Slug) (first suffix : ℕ) (used : List Slug)
    → first < suffix
    → free_slug rounds base
        (suffix + 1)
        (candidate base suffix)
        (without (candidate base first) used)
      ≡ free_slug rounds base (suffix + 1) (candidate base suffix) used
unfolding free_slug
rounds-without zero base first suffix used h = refl
rounds-without (suc rounds) base first suffix used h =
    let differ : candidate base first ≢ candidate base suffix =
      λ e. absurd (less_ne h (candidate-injective base first suffix e)) in
    rw
      (
        is_taken-without (candidate base first) (candidate base suffix) used differ,
        rounds-without rounds base first (suffix + 1) used (omega arith),
      )
      refl

-- Of more candidates than slugs in use, one is free.
rounds-enough :
    (rounds : ℕ) (base : Slug) (suffix : ℕ) (used : List Slug)
    → length used < rounds
    → is_some (free_slug rounds base (suffix + 1) (candidate base suffix) used) ≡ true
unfolding free_slug
rounds-enough zero base suffix used h = absurd (omega arith)
rounds-enough (suc rounds) base suffix used h =
    elim (Bool-cases (is_taken (candidate base suffix) used)) [
      | inl hit ↦
          let fewer : length (without (candidate base suffix) used) < rounds =
            omega (arith, length-without (candidate base suffix) used hit) in
          let rest =
            rounds-enough rounds base (suffix + 1) (without (candidate base suffix) used) fewer in
          rw hit (rw (rounds-without rounds base suffix (suffix + 1) used (omega arith)) at rest)
      | inr miss ↦ rw miss refl
    ]

last_round :
    (base : Slug) (used : List Slug)
    → is_some (free_slug (suc (length used + 1)) base 2 base used) ≡ true
unfolding free_slug
last_round base used = elim (Bool-cases (is_taken base used)) [
  | inl hit ↦ rw hit (rounds-enough (length used + 1) base 2 used (omega arith))
  | inr miss ↦ rw miss refl
]

pub first_free_slug-ends :
    (base : Slug) (used : List Slug) → is_some (first_free_slug base used) ≡ true
unfolding first_free_slug
first_free_slug-ends base used =
    let one_more : length used + 2 ≡ suc (length used + 1) = omega arith in
    rw one_more (last_round base used)

-- The slug that the loop returns is the one its last test found free.
free_slug-is_free :
    (rounds : ℕ) (base : Slug) (suffix : ℕ) (slug : Slug) (used : List Slug) {found : Slug}
    → free_slug rounds base suffix slug used ≡ some found
    → is_taken found used ≡ false
unfolding free_slug
free_slug-is_free zero base suffix slug used h = cc
free_slug-is_free (suc rounds) base suffix slug used {found} h =
    elim (Bool-cases (is_taken slug used)) [
      | inl hit ↦
          free_slug-is_free rounds base (suffix + 1) (candidate base suffix) used
            (rw (hit, free_slug) at h)
      | inr miss ↦
          subst (λ s. is_taken s used ≡ false) (some-injective (rw (miss, free_slug) at h)) miss
    ]

length-take_le : (n : ℕ) (cs : Slug) → length (take n cs) ≤ n
unfolding take
length-take_le zero cs = omega arith
length-take_le (suc n) [] = omega arith
length-take_le (suc n) (c ∷ cs) = omega (arith, length-take_le n cs)

length-candidate :
    (base : Slug) (suffix : ℕ) → suffix < 10 ^ 60 → length (candidate base suffix) ≤ 63
unfolding candidate
length-candidate base suffix h =
    let few : length (digits suffix) ≤ 60 = length-digits suffix 59 h in
    let cut = length-take_le (max 1 (63 - length (digits suffix) - 1)) base in
    rw (length-append (take (max 1 (63 - length (digits suffix) - 1)) base) (45 ∷ digits suffix))
      (omega (arith, few, cut))

free_slug-length :
    (rounds : ℕ) (base : Slug) (suffix : ℕ) (slug : Slug) (used : List Slug) {found : Slug}
    → suffix + rounds < 10 ^ 60
    → length slug ≤ 63
    → free_slug rounds base suffix slug used ≡ some found
    → length found ≤ 63
unfolding free_slug
free_slug-length zero base suffix slug used few short h = cc
free_slug-length (suc rounds) base suffix slug used {found} few short h =
    elim (Bool-cases (is_taken slug used)) [
      | inl hit ↦
          free_slug-length rounds base (suffix + 1) (candidate base suffix) used (omega arith)
            (length-candidate base suffix (omega arith)) (rw (hit, free_slug) at h)
      | inr miss ↦ subst (λ s. length s ≤ 63) (some-injective (rw (miss, free_slug) at h)) short
    ]

or_short : (cs : Slug) → length cs ≤ 63 → length (or_organisation cs) ≤ 63
or_short [] h = omega arith
or_short (c ∷ cs) h = h

length-slugify_organisation_name : (name : String) → length (slugify_organisation_name name) ≤ 63
unfolding slugify_organisation_name
length-slugify_organisation_name name = or_short _ (length-take_le 63 _)

pub first_free_slug-is_free :
    (base : Slug) (used : List Slug) {slug : Slug}
    → first_free_slug base used ≡ some slug
    → is_taken slug used ≡ false
unfolding first_free_slug
first_free_slug-is_free base used h = free_slug-is_free (length used + 2) base 2 base used h

-- For any name, where fewer than ten to the power of 59 slugs are in use, the loop of an approval that
-- makes an organisation ends within two rounds more than there are slugs, and the slug that it returns
-- is none of theirs and at most 63 characters long.
pub free_slug_ends :
    (name : String) (used : List Slug)
    → length used < 10 ^ 59
    → (slug : Slug) × (first_free_slug (slugify_organisation_name name) used ≡ some slug)
      × (is_taken slug used ≡ false)
      × (length slug ≤ 63)
unfolding first_free_slug
free_slug_ends name used few =
    let base = slugify_organisation_name name in
    elim (Option-cases (first_free_slug base used)) [
      | inl gone ↦ absurd (some_is_none (first_free_slug-ends base used) gone)
      | inr (slug, found) ↦ (
        slug,
        found,
        first_free_slug-is_free base used found,
        free_slug-length (length used + 2) base 2 base used (omega arith)
            (length-slugify_organisation_name name) found,
      )
    ]
