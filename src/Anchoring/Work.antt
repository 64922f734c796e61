-- ===== src/Anchoring/Work.antt =====
-- A promise that reads and writes a state and may be rejected, as a function of the state. What was
-- written before a rejection stays.
use trace_public.Errors.{Result, ok, err, Failure, unexpected}

abbrev pub Work : Type 0 → Type 0 → Type 0
Work S A = S → S × Result A

module _ {S A B : Type 0} where
  abbrev pub after : (A → Work S B) → S × Result A → S × Result B
  after f (s, ok x) = f x s
  after f (s, err e) = (s, err e)

  infixl 5 ◌>>=◌
  unfoldable pub ◌>>=◌ : Work S A → (A → Work S B) → Work S B
  m >>= f = λ s. after f (m s)

module _ {S B : Type 0} where
  infixl 5 ◌>>◌
  unfoldable pub ◌>>◌ : Work S (Unit {0}) → Work S B → Work S B
  m >> k = λ s. after (λ _. k) (m s)

module _ {S A : Type 0} where
  unfoldable pub done : A → Work S A
  done x = λ s. (s, ok x)

  -- `throw new Error(…)`.
  unfoldable pub throw : Work S A
  throw = λ s. (s, err unexpected)

  -- `catch (err) { …; throw err; }`.
  abbrev pub rescue : (Failure → S → S) → S × Result A → S × Result A
  rescue handler (s, ok x) = (s, ok x)
  rescue handler (s, err e) = (handler e s, err e)

  unfoldable pub catching : (Failure → S → S) → Work S A → Work S A
  catching handler m = λ s. rescue handler (m s)

module _ {S : Type 0} where
  unfoldable pub writes : (S → S) → Work S (Unit {0})
  writes f = λ s. (f s, ok tt)
