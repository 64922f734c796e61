-- ===== src/Quality.antt =====
-- packages/api/src/modules/quality and packages/api/src/lib/anchor.ts: the reports of inspections, and
-- the fingerprint of a material that a new grade makes stale. A fingerprint's columns are a row of a
-- table beside the materials, by the material's id.
pub mod Anchors
pub mod Reports
pub mod Routes
pub mod Filing
pub mod Queue
pub mod Counts
pub mod Grades
pub mod Seals
use trace_public.Common.{ℕ, Bool, Option, List, String}
use trace_public.Config.{Role, Grade}
use trace_public.Store.{Db}
use trace_public.Table.{Table}

-- `quality_reports`.
pub record QualityReport : Type 0 where
  pub passport_id : ℕ
  pub inspector_id : ℕ
  pub inspector_role : Option Role
  pub structural_score : Option ℕ
  pub aesthetic_score : Option ℕ
  pub environmental_score : Option ℕ
  pub overall_grade : Option Grade
  pub report_notes : Option String
  pub photo_urls : List String
  pub blockchain_tx_hash : Option String
  pub disputed : Bool
  pub created_at : ℕ

-- `blockchain_passport_hash`, `blockchain_tx_hash` and `blockchain_anchored_at` of a material.
pub record Anchor : Type 0 where
  pub passport_hash : Option String
  pub tx_hash : Option String
  pub anchored_at : Option ℕ

-- A job of `anchorQueue`: its id has the material's, and a time unless the material is new.
pub record AnchorJob : Type 0 where
  pub passport_id : ℕ
  pub organisation_id : ℕ
  pub queued_at : Option ℕ

-- The marketplace's tables, the users' and the materials' among them, and those of this module.
pub record QualityDb : Type 0 where
  pub market : Db
  pub anchors : Table Anchor
  pub reports : Table QualityReport
  pub jobs : List AnchorJob

pub record CreateQualityReport : Type 0 where
  pub passport_id : ℕ
  pub structural_score : Option ℕ
  pub aesthetic_score : Option ℕ
  pub environmental_score : Option ℕ
  pub overall_grade : Grade
  pub report_notes : Option String
  pub photo_urls : List String

-- `Reporter`.
pub record Reporter : Type 0 where
  pub id : ℕ
  pub role : Role
  pub organisation_id : Option ℕ
