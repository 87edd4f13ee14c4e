-- ===== src/Store/Rows.antt =====
-- The tables of apps/api/src/app/persistence/store.py: one record for each row class.
-- A `payload_json` column holds the decoded JSON value, `json.loads` of `json.dumps` being the
-- identity on it: the keys that the store itself reads or writes are fields, and the rest of the
-- document is a value of the parameter `B`. An instant is a number of microseconds.
use intelliq.Prelude.{
  ℕ, ◌*◌, String, ◌≡◌, ◌↔◌, Bool, ◌&&◌, Option, List, [], arith, Eq, string_eq, true, ◌==◌, ==_iff,
}

abbrev pub Instant : Type 0
Instant = ℕ

-- `timedelta(seconds=n)`
abbrev pub timedelta : ℕ → ℕ
timedelta seconds = seconds * 1000000

-- The primary key of `workflow_records`.
pub record Key : Type 0 where
  pub organization_id : String
  pub kind : String
  pub id : String

abbrev pub key_beq : Key → Key → Bool
key_beq a b = (a.organization_id == b.organization_id) && (a.kind == b.kind) && (a.id == b.id)

pub key_beq_iff : (a b : Key) → (key_beq a b ≡ true) ↔ (a ≡ b)
key_beq_iff a b =
    ground
      (arith, ==_iff a.organization_id b.organization_id, ==_iff a.kind b.kind, ==_iff a.id b.id)

instance abbrev pub key_eq : Eq Key
key_eq = record { beq = key_beq; beq_iff = key_beq_iff }

-- A document as `save_records` stores it: the caller's `payload` with four keys overwritten.
pub record Document (B : Type 0) : Type 0 where
  pub id : String
  pub organization_id : String
  pub created_at : Instant
  pub updated_at : Instant
  pub body : B

-- `{**payload, "id": ..., "version": ...}`
pub record CalibrationPayload (B : Type 0) : Type 0 where
  pub id : String
  pub version : ℕ
  pub body : B

-- `{**observation, "id": ..., "calibration": ..., "updatedAt": ...}`
pub record Outcome (B : Type 0) : Type 0 where
  pub id : String
  pub calibration : CalibrationPayload B
  pub updated_at : Instant
  pub body : B

-- What the store writes into `ExtensionRow.payload_json`: a lease's token, the analysis id of a
-- run, a frozen input with its own `createdAt` if it has one, an outcome, or a workflow document.
pub data Payload (B : Type 0) : Type 0 where
  lease_token : String → Payload B
  analysis_run : String → Payload B
  frozen_input : Option Instant → B → Payload B
  outcome : Outcome B → Payload B
  document : Document B → Payload B

pub record ExtensionRow (B : Type 0) : Type 0 where
  pub organization_id : String
  pub kind : String
  pub id : String
  pub payload_json : Payload B
  pub updated_at : Instant

abbrev pub extension_key : {B : Type 0} → ExtensionRow B → Key
extension_key r = record { organization_id = r.organization_id; kind = r.kind; id = r.id }

-- `{**payload, "version": n}`
pub record PlanningPayload (B : Type 0) : Type 0 where
  pub version : ℕ
  pub body : B

pub record PlanningRow (B : Type 0) : Type 0 where
  pub organization_id : String
  pub version : ℕ
  pub payload_json : PlanningPayload B
  pub updated_at : Instant

pub record SnapshotRow (B : Type 0) : Type 0 where
  pub id : String
  pub organization_id : String
  pub source_revision : String
  pub payload_json : B
  pub fetched_at : Instant

-- `{**payload, "id": ..., "status": ...}`; `run_key` is `payload.get("runKey")`.
pub record AnalysisPayload (B : Type 0) : Type 0 where
  pub id : String
  pub status : String
  pub run_key : Option String
  pub body : B

pub record AnalysisRow (B : Type 0) : Type 0 where
  pub id : String
  pub organization_id : String
  pub user_id : String
  pub status : String
  pub payload_json : AnalysisPayload B
  pub created_at : Instant

-- `none` is a missing key.
pub record SignalPayload (B : Type 0) : Type 0 where
  pub source_id : Option String
  pub source_revision : Option String
  pub status : Option String
  pub superseded_by : Option String
  pub body : B

pub record SignalRow (B : Type 0) : Type 0 where
  pub id : String
  pub organization_id : String
  pub project_id : Option String
  pub status : String
  pub payload_json : SignalPayload B
  pub updated_at : Instant

pub record DecisionPayload (B : Type 0) : Type 0 where
  pub id : String
  pub analysis_id : String
  pub strategy_id : String
  pub idempotency_key : String
  pub body : B

pub record DecisionRow (B : Type 0) : Type 0 where
  pub id : String
  pub organization_id : String
  pub user_id : String
  pub analysis_id : String
  pub strategy_id : String
  pub idempotency_key : String
  pub payload_json : DecisionPayload B
  pub created_at : Instant

pub record CalibrationRow (B : Type 0) : Type 0 where
  pub id : String
  pub organization_id : String
  pub source_mode : String
  pub version : ℕ
  pub payload_json : CalibrationPayload B
  pub created_at : Instant

-- The tables that the modelled methods read and write.
pub record Store (B : Type 0) : Type 0 where
  pub planning_inputs : List (PlanningRow B)
  pub snapshots : List (SnapshotRow B)
  pub analyses : List (AnalysisRow B)
  pub signals : List (SignalRow B)
  pub decision_contracts : List (DecisionRow B)
  pub calibration_versions : List (CalibrationRow B)
  pub workflow_records : List (ExtensionRow B)

abbrev pub empty_store : {B : Type 0} → Store B
empty_store = record {
  planning_inputs = [];
  snapshots = [];
  analyses = [];
  signals = [];
  decision_contracts = [];
  calibration_versions = [];
  workflow_records = [];
}

-- What a method raises: a unique constraint, one of its own errors, or `json.loads` of a token.
pub data StoreError : Type 0 where
  integrity_error snapshot_tenant_conflict decode_error index_error key_error : StoreError
  planning_version_conflict : ℕ → StoreError
