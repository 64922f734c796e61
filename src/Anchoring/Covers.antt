-- ===== src/Anchoring/Covers.antt =====
-- packages/api/src/workers/anchor-passport.worker.ts: what a sweep leaves.
use trace_public.Common.{
  ℕ, ◌≤◌, true, false, Option, none, some, ◌≡◌, ◌⊎◌, inl, inr, refl, sym, ◌∙◌, ap, String, is_some,
  length, take, Bool-cases,
}
use trace_public.Store.{Passport}
use trace_public.Table.{find}
use trace_public.Quality.{QualityDb, Anchor}
use trace_public.Quality.Anchors.{CanonicalDocument, compute_passport_hash}
use trace_public.Quality.Reports.{is_draft}
use trace_public.Passports.Edits.{Issuer}
use trace_public.Passports.Reading.{tx_of}
use trace_public.Anchoring.Sweep.{
  JobState, JobQueue, QueueLaws, is_finished, anchored, unanchored, process_sweep_job,
  backfill_passport_identifiers, reconcile_stale_anchors, find_unanchored_passports,
  sweep_batch_size, reconcile_batch_size,
}
use trace_public.Anchoring.Pending.{enqueue_each-IsPending}
use trace_public.Anchoring.Marked.{Mem-take, Mem-unanchored, reconciled-current}

module _ (digest : CanonicalDocument → String) where
  module _ {Q : Type 0} (queue : JobQueue Q) where
    -- A sweep on a live chain that reads all there is to check and to queue, at most 200 materials with
    -- a transaction and at most 50 without one: after it, each material that is not a draft either has
    -- a transaction and the fingerprint of its data as it is, or a job that waits or runs. The queue is
    -- one that adds a job whose id is free.
    pub sweep_covers :
        QueueLaws queue
        → (issuer : Issuer) (now : ℕ) (db : QualityDb) (q : Q) (id : ℕ) (passport : Passport)
        → length (anchored (backfill_passport_identifiers issuer sweep_batch_size now db).0)
          ≤ reconcile_batch_size
        → length (unanchored (process_sweep_job queue digest false issuer now db q).0)
          ≤ sweep_batch_size
        → find id (process_sweep_job queue digest false issuer now db q).0.market.passports
          ≡ some passport
        → is_draft passport.status ≡ false
        → ((a : Anchor) × (find id (process_sweep_job queue digest false issuer now db q).0.anchors
              ≡ some a)
            × (is_some a.tx_hash ≡ true)
            × (a.passport_hash ≡ some (compute_passport_hash digest id passport)))
          ⊎ ((state : JobState) × (queue.get_state id
                  (process_sweep_job queue digest false issuer now db q).1.0
                ≡ some state)
              × (is_finished state ≡ false))
    unfolding process_sweep_job reconcile_stale_anchors find_unanchored_passports
    sweep_covers laws issuer now db q id passport few_anchored few_unanchored found published =
        let ready = (backfill_passport_identifiers issuer sweep_batch_size now db).0 in
        let after = (reconcile_stale_anchors digest reconcile_batch_size ready).0 in
        elim (Bool-cases (is_some (tx_of (find id after.anchors)))) [
          | inl on ↦
              let (a, there) = is_some_tx (find id after.anchors) on in
              let has : is_some a.tx_hash ≡ true = sym (ap (λ o. is_some (tx_of o)) there) ∙ on in
              inl (
                a,
                there,
                has,
                reconciled-current digest reconcile_batch_size ready id passport a few_anchored
                    found there has,
              )
          | inr off ↦ inr (
              enqueue_each-IsPending queue laws (take sweep_batch_size (unanchored after)) q 0 (
                Mem-take sweep_batch_size (unanchored after)
                  (Mem-unanchored after id passport found (no_tx _ off) published) few_unanchored))
        ]
      where
        is_some_tx : (o : Option Anchor) → is_some (tx_of o) ≡ true → (a : Anchor) × (o ≡ some a)
        is_some_tx none h = cc
        is_some_tx (some a) h = (a, refl)

        no_tx : (o : Option String) → is_some o ≡ false → o ≡ none
        no_tx none h = refl
        no_tx (some x) h = cc
