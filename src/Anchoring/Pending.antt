-- ===== src/Anchoring/Pending.antt =====
-- packages/api/src/workers/anchor-passport.worker.ts: the jobs that a sweep leaves in the queue.
use mathlib.Core.List.{Memᴰ}
use trace_public.Common.{
  ℕ, false, some, List, [], ◌∷◌, ◌≡◌, ◌≢◌, inl, inr, refl, sym, ◌∙◌, subst, ◌==◌, ==_iff,
  Bool-cases, Option-cases, true_is_false,
}
use trace_public.Anchoring.Sweep.{
  JobState, JobQueue, QueueLaws, Row, is_finished, enqueue_sweep_anchor, enqueue_each,
}

module _ {Q : Type 0} (queue : JobQueue Q) (laws : QueueLaws queue) where
  -- A job of this material waits or runs.
  abbrev pub IsPending : ℕ → Q → Type 0
  IsPending id q =
      (state : JobState) × (queue.get_state id q ≡ some state) × (is_finished state ≡ false)

  enqueue-IsPending :
      (id organisation_id : ℕ) (q : Q)
      → IsPending id (enqueue_sweep_anchor queue id organisation_id q).0
  unfolding enqueue_sweep_anchor
  enqueue-IsPending id organisation_id q = elim (Option-cases (queue.get_state id q)) [
    | inl absent ↦
        rw (absent, enqueue_sweep_anchor)
          (JobState.waiting, laws.state-add_self id organisation_id q absent, refl)
    | inr (state, there) ↦ elim (Bool-cases (is_finished state)) [
      | inl finished ↦
          rw (there, finished, enqueue_sweep_anchor)
            (
              JobState.waiting,
              laws.state-add_self id organisation_id (queue.remove id q)
                  (laws.state-remove_self id q),
              refl,
            )
      | inr running ↦ rw (there, running, enqueue_sweep_anchor) (state, there, running)
    ]
  ]

  enqueue-keeps :
      (id j organisation_id : ℕ) (q : Q)
      → IsPending j q
      → IsPending j (enqueue_sweep_anchor queue id organisation_id q).0
  unfolding enqueue_sweep_anchor
  enqueue-keeps id j organisation_id q (state, there, running) = elim (Bool-cases (id == j)) [
    | inl same ↦
        subst (λ k. IsPending k (enqueue_sweep_anchor queue id organisation_id q).0)
          ((==_iff id j).0 same) (enqueue-IsPending id organisation_id q)
    | inr other ↦
        let ne : id ≢ j = λ e. true_is_false (sym ((==_iff id j).1 e) ∙ other) in
        elim (Option-cases (queue.get_state id q)) [
          | inl absent ↦
              rw (absent, enqueue_sweep_anchor)
                (state, laws.state-add_ne id j organisation_id q ne ∙ there, running)
          | inr (his, found) ↦ elim (Bool-cases (is_finished his)) [
            | inl finished ↦
                rw (found, finished, enqueue_sweep_anchor)
                  (
                    state,
                    laws.state-add_ne id j organisation_id (queue.remove id q) ne
                        ∙ (laws.state-remove_ne id j q ne ∙ there),
                    running,
                  )
            | inr busy ↦ rw (found, busy, enqueue_sweep_anchor) (state, there, running)
          ]
        ]
  ]

  enqueue_each-keeps :
      (rows : List Row) (q : Q) (queued j : ℕ)
      → IsPending j q
      → IsPending j (enqueue_each queue rows q queued).0
  unfolding enqueue_each
  enqueue_each-keeps [] q queued j h = h
  enqueue_each-keeps (row ∷ rows) q queued j h =
      enqueue_each-keeps rows _ _ j (enqueue-keeps row.0 j row.1.0.organisation_id q h)

  pub enqueue_each-IsPending :
      (rows : List Row) (q : Q) (queued : ℕ) {row : Row}
      → Memᴰ row rows
      → IsPending row.0 (enqueue_each queue rows q queued).0
  unfolding enqueue_each
  enqueue_each-IsPending [] q queued m = elim m [ ]
  enqueue_each-IsPending (first ∷ rows) q queued {row} (Memᴰ.head e) =
      enqueue_each-keeps rows _ _ row.0 (
        subst
          (λ (r : Row).
            IsPending r.0 (enqueue_sweep_anchor queue first.0 first.1.0.organisation_id q).0)
          (sym e) (enqueue-IsPending first.0 first.1.0.organisation_id q))
  enqueue_each-IsPending (first ∷ rows) q queued (Memᴰ.tail m) = enqueue_each-IsPending rows _ _ m
