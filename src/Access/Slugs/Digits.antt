-- ===== src/Access/Slugs/Digits.antt =====
-- The decimal digits at the end of a slug that access-request.service.ts tries.
use trace_public.Common.{
  ℕ, ◌+◌, ◌-◌, ◌*◌, ◌/◌, ◌%◌, ◌^◌, ◌≤◌, ◌<◌, zero, suc, Bool, true, false, [], ◌∷◌, ◌++◌, ◌≡◌, refl,
  sym, ◌∙◌, ap, ltb, ◌==◌, if◌then◌else◌, any, arith, length, inl, inr, Bool-cases,
}
use trace_public.Access.Slugs.{any, Slug, digits, digits_in}

-- The number that digits stand for.
number_from : ℕ → Slug → ℕ
number_from n [] = n
number_from n (c ∷ cs) = number_from (n * 10 + (c - 48)) cs

number_from-append :
    (n : ℕ) (cs ds : Slug) → number_from n (cs ++ ds) ≡ number_from (number_from n cs) ds
unfolding number_from
number_from-append n [] ds = refl
number_from-append n (c ∷ cs) ds = number_from-append (n * 10 + (c - 48)) cs ds

number_from-digits_in : (rounds n : ℕ) → n < rounds → number_from 0 (digits_in rounds n) ≡ n
unfolding digits_in number_from
number_from-digits_in zero n h = absurd (omega arith)
number_from-digits_in (suc rounds) n h = elim (Bool-cases (ltb n 10)) [
  | inl small ↦ rw small (omega arith)
  | inr large ↦
      let ten : 10 ≤ n = ground arith in
      let front : number_from 0 (digits_in rounds (n / 10)) ≡ n / 10 =
        number_from-digits_in rounds (n / 10) (omega arith) in
      rw (large, number_from-append 0 (digits_in rounds (n / 10)) ((n % 10 + 48) ∷ []), front)
        (omega arith)
]

pub digits-injective : (m n : ℕ) → digits m ≡ digits n → m ≡ n
unfolding digits
digits-injective m n h =
    sym (number_from-digits_in (suc m) m (omega arith))
    ∙ ap (number_from 0) h
    ∙ number_from-digits_in (suc n) n (omega arith)

pub length-append : (cs ds : Slug) → length (cs ++ ds) ≡ length cs + length ds
length-append [] ds = omega arith
length-append (c ∷ cs) ds = omega (arith, length-append cs ds)

-- A number below a power of ten has at most as many digits as its exponent.
length-digits_in : (rounds n d : ℕ) → n < 10 ^ suc d → length (digits_in rounds n) ≤ suc d
unfolding digits_in
length-digits_in zero n d h = omega arith
length-digits_in (suc rounds) n zero h =
    let small : ltb n 10 ≡ true = ground arith in rw small (omega arith)
length-digits_in (suc rounds) n (suc d) h = elim (Bool-cases (ltb n 10)) [
  | inl small ↦ rw small (omega arith)
  | inr large ↦
      let less : n / 10 < 10 ^ suc d = omega arith in
      let front : length (digits_in rounds (n / 10)) ≤ suc d =
        length-digits_in rounds (n / 10) d less in
      rw (large, length-append (digits_in rounds (n / 10)) ((n % 10 + 48) ∷ [])) (omega arith)
]

pub length-digits : (n d : ℕ) → n < 10 ^ suc d → length (digits n) ≤ suc d
unfolding digits
length-digits n d h = length-digits_in (suc n) n d h

-- A digit is no dash.
has_dash : Slug → Bool
has_dash cs = any (λ c. c == 45) cs

any-append :
    (cs ds : Slug) → has_dash cs ≡ false → has_dash ds ≡ false → has_dash (cs ++ ds) ≡ false
unfolding has_dash
any-append [] ds h k = k
any-append (c ∷ cs) ds h k = ground (arith, any-append cs ds)

no_dash_in_digits : (rounds n : ℕ) → has_dash (digits_in rounds n) ≡ false
unfolding digits_in has_dash
no_dash_in_digits zero n = refl
no_dash_in_digits (suc rounds) n = elim (Bool-cases (ltb n 10)) [
  | inl small ↦ rw small (ground arith)
  | inr large ↦
      let last : (n % 10 + 48 == 45) ≡ false = ground arith in
      let tail : has_dash ((n % 10 + 48) ∷ []) ≡ false = rw last refl in
      rw large (
        any-append (digits_in rounds (n / 10)) ((n % 10 + 48) ∷ [])
          (no_dash_in_digits rounds (n / 10)) tail)
]

-- What comes after the last dash.
after_dash : Slug → Slug
unfolding has_dash
after_dash [] = []
after_dash (c ∷ cs) =
    let rest = after_dash cs in if has_dash cs then rest else if c == 45 then cs else c ∷ cs

has_dash-append : (cs ds : Slug) → has_dash (cs ++ (45 ∷ ds)) ≡ true
unfolding has_dash
has_dash-append [] ds = refl
has_dash-append (c ∷ cs) ds = rw (has_dash-append cs ds) (ground arith)

after_dash-append : (cs ds : Slug) → has_dash ds ≡ false → after_dash (cs ++ (45 ∷ ds)) ≡ ds
unfolding after_dash
after_dash-append [] ds h = rw h refl
after_dash-append (c ∷ cs) ds h = rw (has_dash-append cs ds) (after_dash-append cs ds h)

-- Two slugs that end in a dash and a number end in the same number, if they are the same.
pub suffix-injective :
    (cs ds : Slug) (m n : ℕ) → cs ++ (45 ∷ digits m) ≡ ds ++ (45 ∷ digits n) → m ≡ n
unfolding digits
suffix-injective cs ds m n h = digits-injective m n (
    sym (after_dash-append cs (digits m) (no_dash_in_digits (suc m) m))
    ∙ ap after_dash h
    ∙ after_dash-append ds (digits n) (no_dash_in_digits (suc n) n))
