-- ===== src/Anchoring/Ends.antt =====
-- What it takes for a run of a promise to end without a rejection.
use trace_public.Common.{◌≡◌, refl, ap, ◌∙◌}
use trace_public.Errors.{ok}
use trace_public.Anchoring.Work.{Work, ◌>>=◌, ◌>>◌, after, rescue, catching, writes, done}
use trace_public.Errors.{Failure}

-- `m`, run in `s`, ends with a state and a value of which `Q` holds.
pub record Ends {S A : Type 0} (m : Work S A) (s : S) (Q : S → A → Type 0) : Type 0 where
  pub final : S
  pub value : A
  pub runs : m s ≡ (final, ok value)
  pub holds : Q final value

module _ {S A : Type 0} where
  pub Ends-done : (x : A) (s : S) (Q : S → A → Type 0) → Q s x → Ends (done x) s Q
  unfolding done
  Ends-done x s Q q = record { final = s; value = x; runs = refl; holds = q }

  pub Ends-catching :
      (handler : Failure → S → S) (m : Work S A) (s : S) (Q : S → A → Type 0)
      → Ends m s Q
      → Ends (catching handler m) s Q
  unfolding catching
  Ends-catching handler m s Q e = record {
    final = e.final;
    value = e.value;
    runs = ap (rescue handler) e.runs;
    holds = e.holds;
  }

  pub Ends-weaker :
      (m : Work S A) (s : S) (P Q : S → A → Type 0)
      → Ends m s P
      → ((s' : S) (x : A) → P s' x → Q s' x)
      → Ends m s Q
  Ends-weaker m s P Q e weaker = record {
    final = e.final;
    value = e.value;
    runs = e.runs;
    holds = weaker e.final e.value e.holds;
  }

module _ {S : Type 0} where
  pub Ends-writes :
      (f : S → S) (s : S) (Q : S → Unit {0} → Type 0) → Q (f s) tt → Ends (writes f) s Q
  unfolding writes
  Ends-writes f s Q q = record { final = f s; value = tt; runs = refl; holds = q }

module _ {S A B : Type 0} where
  pub Ends-bind :
      (m : Work S A) (f : A → Work S B) (s : S) (P : S → A → Type 0) (Q : S → B → Type 0)
      → Ends m s P
      → ((s' : S) (x : A) → P s' x → Ends (f x) s' Q)
      → Ends (m >>= f) s Q
  unfolding ◌>>=◌
  Ends-bind m f s P Q e rest =
      let next = rest e.final e.value e.holds in
      record {
        final = next.final;
        value = next.value;
        runs = ap (after f) e.runs ∙ next.runs;
        holds = next.holds;
      }

module _ {S B : Type 0} where
  pub Ends-then :
      (m : Work S (Unit {0})) (k : Work S B) (s : S) (P : S → Unit {0} → Type 0)
      (Q : S → B → Type 0)
      → Ends m s P
      → ((s' : S) → P s' tt → Ends k s' Q)
      → Ends (m >> k) s Q
  unfolding ◌>>◌
  Ends-then m k s P Q e rest =
      let next = rest e.final e.holds in
      record {
        final = next.final;
        value = next.value;
        runs = ap (after (λ _. k)) e.runs ∙ next.runs;
        holds = next.holds;
      }
