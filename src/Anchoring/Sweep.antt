-- ===== src/Anchoring/Sweep.antt =====
-- packages/api/src/workers/anchor-passport.worker.ts: the sweep, which gives materials their identifiers,
-- marks stale fingerprints and queues the materials that are not on the chain. The queue is the
-- interface `JobQueue`, with what BullMQ documents of it.
use text.Mathlib.Text.{◌==◌ as str_eq}
use trace_public.Common.{
  ℕ, suc, Bool, true, false, not, ◌&&◌, ◌||◌, Option, none, some, List, [], ◌∷◌, ◌≡◌, ◌≢◌, String,
  ltb, is_some, if◌then◌else◌, keep, map, sort_by, take,
}
use trace_public.Errors.{ok, err}
use trace_public.Store.{Passport}
use trace_public.Table.{Table, find, modify}
use trace_public.Quality.{QualityDb, Anchor}
use trace_public.Quality.Anchors.{CanonicalDocument, compute_passport_hash, no_anchor}
use trace_public.Quality.Reports.{is_draft}
use trace_public.Passports.Edits.{Issuer, identified}
use trace_public.Passports.Reading.{tx_of}

abbrev pub sweep_batch_size : ℕ
sweep_batch_size = 50

abbrev pub reconcile_batch_size : ℕ
reconcile_batch_size = 200

pub data JobState : Type 0 where
  waiting delayed active completed failed : JobState

abbrev pub is_finished : JobState → Bool
is_finished completed = true
is_finished failed = true
is_finished _ = false

-- `getJob(…).getState()`, `add` and `remove` of a queue, by the material whose stable id a job has.
pub record JobQueue (Q : Type 0) : Type 0 where
  pub get_state : ℕ → Q → Option JobState
  pub add : (id organisation_id : ℕ) → Q → Q
  pub remove : ℕ → Q → Q

-- What the sweep relies on: a job whose id is free is added and waits, a job that is removed is gone,
-- and neither concerns a job of another id.
pub record QueueLaws {Q : Type 0} (queue : JobQueue Q) : Type 0 where
  pub state-add_self :
      (id organisation_id : ℕ) (q : Q)
      → queue.get_state id q ≡ none
      → queue.get_state id (queue.add id organisation_id q) ≡ some JobState.waiting
  pub state-add_ne :
      (id j organisation_id : ℕ) (q : Q)
      → id ≢ j
      → queue.get_state j (queue.add id organisation_id q) ≡ queue.get_state j q
  pub state-remove_self : (id : ℕ) (q : Q) → queue.get_state id (queue.remove id q) ≡ none
  pub state-remove_ne :
      (id j : ℕ) (q : Q) → id ≢ j → queue.get_state j (queue.remove id q) ≡ queue.get_state j q

-- Rows of materials, with the columns of their fingerprints.
abbrev pub Row : Type 0
Row = ℕ × (Passport × Option Anchor)

abbrev pub with_anchor : QualityDb → ℕ × Passport → Row
with_anchor db (id, passport) = (id, (passport, find id db.anchors))

abbrev pub oldest_first : Row → Row → Bool
oldest_first a b = ltb b.1.0.created_at a.1.0.created_at

abbrev pub latest_update_first : Row → Row → Bool
latest_update_first a b = ltb a.1.0.updated_at b.1.0.updated_at

abbrev pub is_unanchored : Row → Bool
is_unanchored row = not (is_some (tx_of row.1.1)) && not (is_draft row.1.0.status)

-- The query of `findUnanchoredPassports` before its limit.
unfoldable pub unanchored : QualityDb → List Row
unfolding sort_by find
unanchored db = sort_by oldest_first (keep is_unanchored (map (with_anchor db) db.market.passports))

unfoldable pub find_unanchored_passports : ℕ → QualityDb → List Row
unfolding unanchored
find_unanchored_passports limit db = take limit (unanchored db)

abbrev pub is_anchored : Row → Bool
is_anchored row = is_some (tx_of row.1.1)

-- The query of `reconcileStaleAnchors` before its limit.
unfoldable pub anchored : QualityDb → List Row
unfolding sort_by find
anchored db =
    sort_by latest_update_first (keep is_anchored (map (with_anchor db) db.market.passports))

abbrev pub is_hash : Option Anchor → String → Bool
is_hash none hash = false
is_hash (some anchor) hash = elim anchor.passport_hash [
  | none ↦ false
  | some stored ↦ str_eq hash stored
]

abbrev pub is_stale : (CanonicalDocument → String) → Row → Bool
is_stale digest (id, (passport, anchor)) =
    not (is_hash anchor (compute_passport_hash digest id passport))

-- The loop over the materials that were read.
unfoldable pub mark_stale :
    (CanonicalDocument → String) → List Row → Table Anchor → ℕ → Table Anchor × ℕ
unfolding modify compute_passport_hash
mark_stale digest [] anchors marked = (anchors, marked)
mark_stale digest (row ∷ rows) anchors marked =
    mark_stale digest rows
      (if is_stale digest row then modify row.0 (λ _. no_anchor) anchors else anchors)
      (if is_stale digest row then suc marked else marked)

unfoldable pub reconcile_stale_anchors :
    (CanonicalDocument → String) → ℕ → QualityDb → QualityDb × ℕ
unfolding anchored mark_stale
reconcile_stale_anchors digest limit db =
    let (anchors, marked) = mark_stale digest (take limit (anchored db)) db.anchors 0 in
    (record db { anchors = anchors }, marked)

-- `findPassportsMissingIdentifiers`, outside tests.
abbrev pub is_unidentified : Row → Bool
is_unidentified row = not (is_some row.1.0.digital_link_uri) || not (is_some row.1.0.qr_code_url)

unfoldable pub find_passports_missing_identifiers : ℕ → QualityDb → List Row
unfolding sort_by find
find_passports_missing_identifiers limit db =
    take limit
      (sort_by oldest_first (keep is_unidentified (map (with_anchor db) db.market.passports)))

-- `issuePassportIdentifiers`, of a material that is there.
abbrev pub issue_passport_identifiers : Issuer → ℕ → ℕ → QualityDb → QualityDb × Bool
issue_passport_identifiers issuer id now db = elim (issuer.qr_code_of id) [
  | err e ↦ (db, false)
  | ok qr ↦ (
    record db {
      market = record db.market {
        passports =
            modify id (identified (issuer.passport_public_url id) qr now) db.market.passports;
      };
    },
    true,
  )
]

unfoldable pub issue_each : Issuer → List Row → ℕ → QualityDb → ℕ → QualityDb × ℕ
unfolding modify
issue_each issuer [] now db issued = (db, issued)
issue_each issuer (row ∷ rows) now db issued =
    let done = issue_passport_identifiers issuer row.0 now db in
    issue_each issuer rows now done.0 (if done.1 then suc issued else issued)

unfoldable pub backfill_passport_identifiers : Issuer → ℕ → ℕ → QualityDb → QualityDb × ℕ
unfolding find_passports_missing_identifiers issue_each
backfill_passport_identifiers issuer limit now db =
    issue_each issuer (find_passports_missing_identifiers limit db) now db 0

module _ {Q : Type 0} (queue : JobQueue Q) where
  unfoldable pub enqueue_sweep_anchor : (id organisation_id : ℕ) → Q → Q × Bool
  enqueue_sweep_anchor id organisation_id q = elim (queue.get_state id q) [
    | none ↦ (queue.add id organisation_id q, true)
    | some state ↦
        if not (is_finished state)
        then (q, false)
        else (queue.add id organisation_id (queue.remove id q), true)
  ]

  unfoldable pub enqueue_each : List Row → Q → ℕ → Q × ℕ
  unfolding enqueue_sweep_anchor
  enqueue_each [] q queued = (q, queued)
  enqueue_each (row ∷ rows) q queued =
      let done = enqueue_sweep_anchor row.0 row.1.0.organisation_id q in
      enqueue_each rows done.0 (if done.1 then suc queued else queued)

  -- The state that is left, and how many jobs were queued.
  unfoldable pub process_sweep_job :
      (CanonicalDocument → String) → Bool → Issuer → ℕ → QualityDb → Q → QualityDb × (Q × ℕ)
  unfolding backfill_passport_identifiers reconcile_stale_anchors find_unanchored_passports
      enqueue_each
  process_sweep_job digest simulate issuer now db q =
      let identified_db = (backfill_passport_identifiers issuer sweep_batch_size now db).0 in
      let reconciled = (reconcile_stale_anchors digest reconcile_batch_size identified_db).0 in
      if simulate
      then (identified_db, (q, 0))
      else (reconciled, enqueue_each (find_unanchored_passports sweep_batch_size reconciled) q 0)
