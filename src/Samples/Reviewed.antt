-- ===== src/Samples/Reviewed.antt =====
-- Signals, decisions and calibrations of apps/api/src/app/persistence/store.py.
use intelliq.Store.Calibrations.Laws.{next_version, get_calibration-record, record-record}
use intelliq.Store.Calibrations.{
  calibration_key, Measurement, latest, get_calibration, calibration_payload, outcome_row, measured,
  record_calibrated_outcome, calibration_row,
}
use intelliq.Store.Decisions.{NewDecision, decision_payload, decision_row, create_decision}
use intelliq.Store.Signals.Laws.{IsClosed, save_signal-IsClosed}
use intelliq.Store.Signals.{signal_key, signal_row, is_reviewed, save_signal}
use intelliq.Store.Records.{record_key}
use intelliq.Prelude.{
  string_eq, nat_eq, option_eq, ℕ, String, ◌≡◌, refl, false, none, some, ◌∷◌, [], find?, ok,
}
use intelliq.Prelude.Table
use intelliq.Store.Rows.{
  key_eq, extension_key, SignalPayload, SignalRow, Store, empty_store, outcome,
}

abbrev nothing : Store ℕ
nothing = empty_store

abbrev revision : String → SignalPayload ℕ
revision r = record {
  source_id = some "doc";
  source_revision = some r;
  status = some "open";
  superseded_by = none;
  body = 1;
}

abbrev open_signal : SignalRow ℕ
open_signal = signal_row "a" "s1" none "open" (revision "1") 10

abbrev confirmed_signal : SignalRow ℕ
confirmed_signal = signal_row "a" "s2" none "confirmed" (revision "1") 10

abbrev with_signals : Store ℕ
with_signals = record nothing { signals = open_signal ∷ confirmed_signal ∷ [] }

found_open : Table.get signal_key "s1" with_signals.signals ≡ some open_signal
unfolding Table.get
found_open = refl

found_confirmed : Table.get signal_key "s2" with_signals.signals ≡ some confirmed_signal
unfolding Table.get
found_confirmed = refl

new_signal : is_reviewed (Table.get signal_key "s3" with_signals.signals) ≡ false
unfolding Table.get
new_signal = refl

confirmed-IsClosed : IsClosed (Table.get signal_key "s2" with_signals.signals)
unfolding Table.get
confirmed-IsClosed = refl

abbrev saved_signals : Store ℕ
saved_signals = save_signal with_signals "a" "s3" none "open" (revision "2") 20

save_signal-IsClosed_example : IsClosed (Table.get signal_key "s2" saved_signals.signals)
save_signal-IsClosed_example =
    save_signal-IsClosed with_signals "a" "s3" none "open" (revision "2") 20 "s2" confirmed-IsClosed

abbrev choice : NewDecision ℕ
choice = record { analysis_id = "an1"; strategy_id = "st1"; idempotency_key = "k"; body = 4 }

abbrev decided_store : Store ℕ
decided_store = record nothing { decision_contracts = decision_row "a" "u" choice "d1" 10 ∷ [] }

decided :
    create_decision nothing "a" "u" choice "d1" 10
    ≡ ok (decided_store, decision_payload choice "d1")
unfolding create_decision Table.get Table.put find?
decided = refl

abbrev measurement : Measurement ℕ
measurement = record {
  organization_id = "a";
  source_mode = "timecue";
  version = 1;
  calibration = 3;
  observation_id = "o1";
  observation = 4;
  calibration_id = "c1";
  now = 10;
}

no_outcome : Table.get extension_key (record_key "a" "outcome" "o1") nothing.workflow_records ≡ none
unfolding Table.get
no_outcome = refl

no_calibration : Table.get calibration_key "c1" nothing.calibration_versions ≡ none
unfolding Table.get
no_calibration = refl

first_version : 1 ≡ next_version (latest "a" "timecue" nothing.calibration_versions)
unfolding latest
first_version = refl

get_calibration-record_example :
    (s' : Store ℕ) × (record_calibrated_outcome nothing measurement
      ≡ ok (s', outcome (measured measurement)))
    × (get_calibration s' "a" "timecue" ≡ some (calibration_payload "c1" 1 3))
    × (Table.get extension_key (record_key "a" "outcome" "o1") s'.workflow_records
        ≡ some (outcome_row "a" "o1" (measured measurement) 10))
get_calibration-record_example =
    get_calibration-record nothing measurement no_outcome no_calibration first_version

abbrev measured_store : Store ℕ
measured_store = record nothing {
  calibration_versions = calibration_row "a" "timecue" 1 3 "c1" 10 ∷ [];
  workflow_records = outcome_row "a" "o1" (measured measurement) 10 ∷ [];
}

measured_first :
    record_calibrated_outcome nothing measurement
    ≡ ok (measured_store, outcome (measured measurement))
unfolding record_calibrated_outcome Table.get Table.put find?
measured_first = refl

record-record_example :
    record_calibrated_outcome measured_store
      (record measurement { version = 2; calibration_id = "c2" })
    ≡ ok (measured_store, outcome (measured measurement))
record-record_example =
    record-record nothing measurement (record measurement { version = 2; calibration_id = "c2" })
      measured_first refl refl
