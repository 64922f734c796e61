-- ===== src/Anchoring/Confirms.antt =====
-- packages/api/src/workers/anchor-passport.worker.ts: the reads and writes of an anchor job, and a
-- transaction that it waits for.
use trace_public.Common.{false, Option, some, String, ◌≡◌, refl}
use trace_public.Errors.{Result, ok}
use trace_public.Quality.{QualityDb}
use trace_public.Anchoring.{AnchoringDb}
use trace_public.Anchoring.Chain.{ChainAdapter, Submitted, ChainReceipt}
use trace_public.Anchoring.Registry.{Registry}
use trace_public.Anchoring.Node.{RunsRegistry, IsConfirmed}
use trace_public.Anchoring.Work.{done, writes}
use trace_public.Anchoring.Ends.{Ends}
use trace_public.Anchoring.Jobs.{need, confirmed, logs, reads, sends, wait_confirmed}
use trace_public.Anchoring.Ledger.{Setting, Run, WorkerState}

module _ {C : Type 0} (adapter : ChainAdapter C) (setting : Setting) (run : Run) (registry : String)
    (node : RunsRegistry adapter setting.to_lower registry) where
  -- Nothing of the materials is written yet, and `Also` holds of the registry.
  abbrev pub Keeps : QualityDb → (Registry → Type 0) → {A : Type 0} → WorkerState C → A → Type 0
  Keeps quality Also s x = (s.db.quality ≡ quality) × Also (node.view s.chain)

  -- And a transaction is under way that the chain confirms in time.
  abbrev pub Awaits : QualityDb → (Registry → Type 0) → WorkerState C → Submitted → Type 0
  Awaits quality Also s tx =
      ((s.db.quality ≡ quality) × Also (node.view s.chain))
      × (receipt : ChainReceipt) × (adapter.wait_for_receipt tx.tx_id s.chain ≡ some receipt)
      × (receipt.reverted ≡ false)

  pub reads-Ends :
      {A : Type 0} (f : C → Result A) (s : WorkerState C) (P : WorkerState C → Type 0)
      → ((x : A) × (f s.chain ≡ ok x))
      → P s
      → Ends (reads adapter setting run f) s (λ s' x. (f s'.chain ≡ ok x) × P s')
  unfolding reads
  reads-Ends f s P (x, answered) held = record {
    final = s;
    value = x;
    runs = rw answered refl;
    holds = (answered, held);
  }

  pub need-Ends :
      {A : Type 0} (o : Option A) (x : A) (s : WorkerState C) (Q : WorkerState C → A → Type 0)
      → o ≡ some x
      → Q s x
      → Ends (need adapter setting run o) s Q
  unfolding need done
  need-Ends o x s Q there q = rw there (record { final = s; value = x; runs = refl; holds = q })

  pub sends-Ends :
      (f : C → C × Result Submitted) (s : WorkerState C) (quality : QualityDb)
      (Also : Registry → Type 0)
      → IsConfirmed adapter node.view Also (f s.chain)
      → s.db.quality ≡ quality
      → Ends (sends adapter setting run f) s (Awaits quality Also)
  unfolding sends
  sends-Ends f s quality Also (c, tx, receipt, taken, mined, fine, also) same = record {
    final = record s { chain = c };
    value = tx;
    runs = rw taken refl;
    holds = ((same, also), receipt, mined, fine);
  }

  pub logs-Ends :
      (f : AnchoringDb → AnchoringDb) (s : WorkerState C) (Q : WorkerState C → Unit {0} → Type 0)
      → Q (record s { db = f s.db }) tt
      → Ends (logs adapter setting run f) s Q
  unfolding logs writes
  logs-Ends f s Q q = record {
    final = record s { db = f s.db };
    value = tt;
    runs = refl;
    holds = q;
  }

  pub wait_confirmed-Ends :
      (tx : Submitted) (s : WorkerState C) (quality : QualityDb) (Also : Registry → Type 0)
      → Awaits quality Also s tx
      → Ends (wait_confirmed adapter setting run tx.tx_id) s (Keeps quality Also)
  unfolding wait_confirmed confirmed done
  wait_confirmed-Ends tx s quality Also (kept, receipt, mined, fine) = record {
    final = s;
    value = receipt;
    runs = simp (mined, fine);
    holds = kept;
  }
