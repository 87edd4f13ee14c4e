-- ===== src/Store/Calibrations.antt =====
-- The calibration versions of apps/api/src/app/persistence/store.py: `get_calibration`,
-- `create_calibration`, `record_calibrated_outcome`. The table has the constraint
-- uq_calibration_version on (organization_id, source_mode, version).
pub mod Laws
use intelliq.Prelude.{
  ℕ, ◌≡◌, String, string_eq, nat_eq, Bool, true, false, ◌&&◌, ◌||◌, Option, none, some, List, [],
  ◌∷◌, ltb, ◌==◌, if◌then◌else◌, is_some, find?, Result, ok, err, ◌>>=◌,
}
use intelliq.Prelude.Table
use intelliq.Store.Rows.{
  Instant, Key, key_eq, Payload, outcome, Outcome, ExtensionRow, extension_key, CalibrationPayload,
  CalibrationRow, Store, StoreError, integrity_error,
}
use intelliq.Store.Records.{record_key, loads}

abbrev pub calibration_key : {B : Type 0} → CalibrationRow B → String
calibration_key r = r.id

-- The call's arguments, the id that `uuid4` draws and the time of the transaction.
pub record Measurement (B : Type 0) : Type 0 where
  pub organization_id : String
  pub source_mode : String
  pub version : ℕ
  pub calibration : B
  pub observation_id : String
  pub observation : B
  pub calibration_id : String
  pub now : Instant

module _ {B : Type 0} where
  abbrev pub of_source : String → String → CalibrationRow B → Bool
  of_source org mode r = (r.organization_id == org) && (r.source_mode == mode)

  abbrev pub has_version : String → String → ℕ → CalibrationRow B → Bool
  has_version org mode version r = of_source org mode r && (r.version == version)

  abbrev pub newer : CalibrationRow B → Option (CalibrationRow B) → CalibrationRow B
  newer r none = r
  newer r (some best) = if ltb r.version best.version then best else r

  -- `order_by(version.desc()).first()` of the rows of one tenant and source mode.
  unfoldable pub latest : String → String → List (CalibrationRow B) → Option (CalibrationRow B)
  latest org mode [] = none
  latest org mode (r ∷ rs) =
      let best = latest org mode rs in if of_source org mode r then some (newer r best) else best

  abbrev pub payload_of : Option (CalibrationRow B) → Option (CalibrationPayload B)
  payload_of none = none
  payload_of (some r) = some r.payload_json

  unfoldable pub get_calibration : Store B → String → String → Option (CalibrationPayload B)
  get_calibration s org mode = payload_of (latest org mode s.calibration_versions)

  abbrev pub calibration_payload : String → ℕ → B → CalibrationPayload B
  calibration_payload id version body = record { id = id; version = version; body = body }

  abbrev pub calibration_row : String → String → ℕ → B → String → Instant → CalibrationRow B
  calibration_row org mode version body id now = record {
    id = id;
    organization_id = org;
    source_mode = mode;
    version = version;
    payload_json = calibration_payload id version body;
    created_at = now;
  }

  -- The primary key and the unique constraint, as the database checks them.
  unfoldable pub violates : Store B → String → String → ℕ → String → Bool
  violates s org mode version id =
      is_some (Table.get calibration_key id s.calibration_versions)
      || is_some (find? (has_version org mode version) s.calibration_versions)

  unfoldable pub create_calibration :
      Store B
      → String
      → String
      → ℕ
      → B
      → String
      → Instant
      → Result StoreError (Store B × CalibrationPayload B)
  unfolding violates
  create_calibration s org mode version body id now =
      if violates s org mode version id
      then err integrity_error
      else ok (
        record s {
          calibration_versions =
              Table.put calibration_key (calibration_row org mode version body id now)
                s.calibration_versions;
        },
        calibration_payload id version body,
      )

  abbrev pub outcome_of : String → CalibrationPayload B → B → Instant → Outcome B
  outcome_of observation_id calibration observation now = record {
    id = observation_id;
    calibration = calibration;
    updated_at = now;
    body = observation;
  }

  abbrev pub outcome_row : String → String → Outcome B → Instant → ExtensionRow B
  outcome_row org observation_id value now = record {
    organization_id = org;
    kind = "outcome";
    id = observation_id;
    payload_json = outcome value;
    updated_at = now;
  }

  abbrev pub measured : Measurement B → Outcome B
  measured m =
      outcome_of m.observation_id (calibration_payload m.calibration_id m.version m.calibration)
        m.observation m.now

  -- The transaction of an observation that is not stored yet: both rows or none.
  unfoldable pub record_new : Store B → Measurement B → Result StoreError (Store B × Payload B)
  unfolding violates
  record_new s m =
      if violates s m.organization_id m.source_mode m.version m.calibration_id
      then err integrity_error
      else ok (
        record s {
          calibration_versions =
              Table.put calibration_key
                (calibration_row m.organization_id m.source_mode m.version m.calibration
                  m.calibration_id m.now)
                s.calibration_versions;
          workflow_records =
              Table.put extension_key
                (outcome_row m.organization_id m.observation_id (measured m) m.now)
                s.workflow_records;
        },
        outcome (measured m),
      )

  unfoldable pub record_calibrated_outcome :
      Store B → Measurement B → Result StoreError (Store B × Payload B)
  unfolding record_new
  record_calibrated_outcome s m =
      elim (Table.get extension_key (record_key m.organization_id "outcome" m.observation_id)
        s.workflow_records) [
          | some existing ↦ loads existing.payload_json >>= λ value. ok (s, value)
          | none ↦ record_new s m
        ]
