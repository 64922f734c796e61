-- ===== src/DataRules/Faults.antt =====
-- The violations of packages/db/scripts/lib/invariants.ts: which are no fault of a state, and lists of
-- violations with no other.
use trace_public.Common.{Bool, false, List, [], ◌++◌, ◌≡◌, refl, All, All-append, All-only_if}
use trace_public.DataRules.{error_if, warning_if, Severity, Rule, Subject, Violation}

-- Not an error, or one of the two rules that are not about stock, orders and statuses: the minimum
-- order of a lot, and the fingerprint of a material.
abbrev pub Excused : Severity → Rule → Type 0
Excused Severity.warning rule = Unit
Excused Severity.error Rule.minimum_order = Unit
Excused Severity.error Rule.stale_fingerprint = Unit
Excused Severity.error rule = ⊥

abbrev pub IsExcused : Violation → Type 0
IsExcused v = Excused v.severity v.rule

unfoldable pub IsFaultless : List Violation → Type 0
IsFaultless vs = All IsExcused vs

pub IsFaultless-append :
    (xs ys : List Violation) → IsFaultless xs → IsFaultless ys → IsFaultless (xs ++ ys)
unfolding IsFaultless
IsFaultless-append xs ys h k = All-append IsExcused xs ys h k

-- An error whose condition fails is not there.
pub error_absent :
    (b : Bool) (rule : Rule) (subject : Subject) → b ≡ false → error_if b rule subject ≡ []
unfolding error_if
error_absent b rule subject never = rw never refl

pub absent_then :
    (b : Bool) (rule : Rule) (subject : Subject) (vs : List Violation)
    → b ≡ false
    → IsFaultless vs
    → IsFaultless (error_if b rule subject ++ vs)
absent_then b rule subject vs never h = rw (error_absent b rule subject never) h

pub absent :
    (b : Bool) (rule : Rule) (subject : Subject) → b ≡ false → IsFaultless (error_if b rule subject)
unfolding IsFaultless
absent b rule subject never = rw (error_absent b rule subject never) tt

pub Excused-error :
    (b : Bool) (rule : Rule) (subject : Subject)
    → Excused Severity.error rule
    → IsFaultless (error_if b rule subject)
unfolding IsFaultless error_if
Excused-error b rule subject e = All-only_if IsExcused b _ (λ _. e)

pub warned : (b : Bool) (rule : Rule) (subject : Subject) → IsFaultless (warning_if b rule subject)
unfolding IsFaultless warning_if
warned b rule subject = All-only_if IsExcused b _ (λ _. tt)

pub warned_then :
    (b : Bool) (rule : Rule) (subject : Subject) (vs : List Violation)
    → IsFaultless vs
    → IsFaultless (warning_if b rule subject ++ vs)
warned_then b rule subject vs h = IsFaultless-append _ _ (warned b rule subject) h
