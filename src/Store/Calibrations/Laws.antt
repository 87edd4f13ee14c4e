-- ===== src/Store/Calibrations/Laws.antt =====
-- An observation calibrates once, and versions count up.
use intelliq.Prelude.{
  ℕ, ◌+◌, ◌≤◌, ◌≡◌, refl, sym, ap, ◌∙◌, String, string_eq, nat_eq, true, Option, none, some, inl,
  inr, List, [], ◌∷◌, arith, ◌==◌, Result, ok, err, >>=-eq-ok, ok-injective, Bool-cases,
  Option-cases, find?, false, ==_refl,
}
use intelliq.Prelude.Table
use intelliq.Store.Rows.{
  key_eq, Payload, ExtensionRow, extension_key, CalibrationRow, Store, StoreError,
}
use intelliq.Store.Records.{record_key, loads}
use intelliq.Store.Calibrations.{
  calibration_key, of_source, newer, latest, violates, Measurement, measured, outcome_row,
  record_new, record_calibrated_outcome, get_calibration, has_version, outcome, calibration_payload,
  calibration_row, payload_of,
}

module _ {B : Type 0} where
  loads-idempotent : (p : Payload B) {v : Payload B} → loads p ≡ ok v → loads v ≡ ok v
  loads-idempotent p h = ground arith

  -- The observation's row is there, and reads as `v`.
  record Measured (s : Store B) (org id : String) (v : Payload B) : Type 0 where
    row : ExtensionRow B
    found : Table.get extension_key (record_key org "outcome" id) s.workflow_records ≡ some row
    reads : loads row.payload_json ≡ ok v

  record_new-Measured :
      (s : Store B) (m : Measurement B) {s' : Store B} {v : Payload B}
      → record_new s m ≡ ok (s', v)
      → Measured s' m.organization_id m.observation_id v
  unfolding record_new
  record_new-Measured s m h =
      elim (Bool-cases (violates s m.organization_id m.source_mode m.version m.calibration_id)) [
        | inl bad ↦ absurd (refused (rw bad at h))
        | inr good ↦
            let both = ok-injective (rw good at h) in
            record {
              row = outcome_row m.organization_id m.observation_id (measured m) m.now;
              found =
                  ap
                    (λ (x : Store B × Payload B).
                      Table.get extension_key
                        (record_key m.organization_id "outcome" m.observation_id)
                        x.0.workflow_records)
                    (sym both)
                  ∙ Table.get-put_self extension_key _ _ s.workflow_records refl;
              reads = ap (λ (x : Store B × Payload B). ok x.1) both;
            }
      ]
    where
      refused :
          {e : StoreError} {r : Store B × Payload B}
          → ◌≡◌ {A = Result StoreError (Store B × Payload B)} (err e) (ok r)
          → ⊥
      refused e = cc

  record-Measured :
      (s : Store B) (m : Measurement B) {s' : Store B} {v : Payload B}
      → record_calibrated_outcome s m ≡ ok (s', v)
      → Measured s' m.organization_id m.observation_id v
  unfolding record_calibrated_outcome
  record-Measured s m h =
      elim (Option-cases (
        Table.get extension_key (record_key m.organization_id "outcome" m.observation_id)
          s.workflow_records)) [
            | inl new ↦ record_new-Measured s m (rw (new, record_calibrated_outcome) at h)
            | inr (row, old) ↦
                let (value, read, h₁) =
                  >>=-eq-ok (loads row.payload_json) _ (rw (old, record_calibrated_outcome) at h) in
                let both = ok-injective h₁ in
                record {
                  row = row;
                  found =
                      ap
                        (λ (x : Store B × Payload B).
                          Table.get extension_key
                            (record_key m.organization_id "outcome" m.observation_id)
                            x.0.workflow_records)
                        (sym both)
                      ∙ old;
                  reads = read ∙ ap (λ (x : Store B × Payload B). ok x.1) both;
                }
          ]

  -- Recording an observation again returns what the first call returned and changes nothing: the
  -- observation is not counted twice, whatever calibration the second call brings.
  pub record-record :
      (s : Store B) (m m' : Measurement B) {s' : Store B} {v : Payload B}
      → record_calibrated_outcome s m ≡ ok (s', v)
      → m'.organization_id ≡ m.organization_id
      → m'.observation_id ≡ m.observation_id
      → record_calibrated_outcome s' m' ≡ ok (s', v)
  unfolding record_calibrated_outcome
  record-record s m m' {s'} {v} h same_org same_id =
      let there = record-Measured s m h in
      rw (same_org, same_id) (rw (there.found, record_calibrated_outcome) (rw there.reads))

  -- The version that the next calibration of the source takes: `prior["version"] + 1`, the prior
  -- version being 0 where there is none.
  abbrev pub next_version : Option (CalibrationRow B) → ℕ
  next_version none = 1
  next_version (some row) = row.version + 1

  latest-put :
      (org mode : String) (r : CalibrationRow B) (rows : List (CalibrationRow B))
      → Table.get calibration_key r.id rows ≡ none
      → of_source org mode r ≡ true
      → next_version (latest org mode rows) ≤ r.version
      → latest org mode (Table.put calibration_key r rows) ≡ some r
  unfolding latest Table.put Table.get
  latest-put org mode r [] fresh mine above = rw mine
  latest-put org mode r (x ∷ xs) fresh mine above = elim (Bool-cases (x.id == r.id)) [
    | inl same ↦ absurd (taken (rw same at fresh))
    | inr other ↦ rw other (elim (Bool-cases (of_source org mode x)) [
      | inl hit ↦
          let above' = rw hit at above in
          rw hit (
            ap (λ (o : Option (CalibrationRow B)). some (newer x o))
              (latest-put org mode r xs (rw other at fresh) mine
                (below_newer x (latest org mode xs) above'))
            ∙ newer_wins x (latest org mode xs) above')
      | inr miss ↦ rw miss (latest-put org mode r xs (rw other at fresh) mine (rw miss at above))
    ])
  ]
    where
      taken : {y : CalibrationRow B} → ◌≡◌ {A = Option (CalibrationRow B)} (some y) none → ⊥
      taken e = cc

      below_newer :
          (y : CalibrationRow B) (o : Option (CalibrationRow B))
          → next_version (some (newer y o)) ≤ r.version
          → next_version o ≤ r.version
      below_newer y none h = omega arith
      below_newer y (some b) h = ground arith

      newer_wins :
          (y : CalibrationRow B) (o : Option (CalibrationRow B))
          → next_version (some (newer y o)) ≤ r.version
          → ◌≡◌ {A = Option (CalibrationRow B)} (some (newer y (some r))) (some r)
      newer_wins y none h = ground arith
      newer_wins y (some b) h = ground arith

  unused_version :
      (org mode : String) (version : ℕ) (rows : List (CalibrationRow B))
      → next_version (latest org mode rows) ≤ version
      → find? (has_version org mode version) rows ≡ none
  unfolding latest find?
  unused_version org mode version [] h = refl
  unused_version org mode version (x ∷ xs) h = elim (Bool-cases (of_source org mode x)) [
    | inl hit ↦
        let h' = rw hit at h in
        rw hit (
          rw (older x (latest org mode xs) h')
            (unused_version org mode version xs (rest x (latest org mode xs) h')))
    | inr miss ↦ rw miss (unused_version org mode version xs (rw miss at h))
  ]
    where
      older :
          (y : CalibrationRow B) (o : Option (CalibrationRow B))
          → next_version (some (newer y o)) ≤ version
          → (y.version == version) ≡ false
      older y none h = ground arith
      older y (some b) h = ground arith

      rest :
          (y : CalibrationRow B) (o : Option (CalibrationRow B))
          → next_version (some (newer y o)) ≤ version
          → next_version o ≤ version
      rest y none h = omega arith
      rest y (some b) h = ground arith

  -- A new observation whose calibration has the version that comes next is stored together with
  -- that calibration: the call succeeds, the source's current calibration is the new one, and the
  -- observation reads back with it.
  pub get_calibration-record :
      (s : Store B) (m : Measurement B)
      → Table.get extension_key
          (record_key m.organization_id "outcome" m.observation_id)
          s.workflow_records
        ≡ none
      → Table.get calibration_key m.calibration_id s.calibration_versions ≡ none
      → m.version ≡ next_version (latest m.organization_id m.source_mode s.calibration_versions)
      → (s' : Store B) × (record_calibrated_outcome s m ≡ ok (s', outcome (measured m)))
        × (get_calibration s' m.organization_id m.source_mode
            ≡ some (calibration_payload m.calibration_id m.version m.calibration))
        × (Table.get extension_key
              (record_key m.organization_id "outcome" m.observation_id)
              s'.workflow_records
            ≡ some (outcome_row m.organization_id m.observation_id (measured m) m.now))
  unfolding record_calibrated_outcome record_new violates get_calibration
  get_calibration-record s m new fresh next =
      let row =
        calibration_row m.organization_id m.source_mode m.version m.calibration m.calibration_id
          m.now in
      let above : next_version (latest m.organization_id m.source_mode s.calibration_versions)
          ≤ m.version =
        omega arith in
      let unused =
        unused_version m.organization_id m.source_mode m.version s.calibration_versions above in
      (
        record s {
          calibration_versions = Table.put calibration_key row s.calibration_versions;
          workflow_records =
              Table.put extension_key
                (outcome_row m.organization_id m.observation_id (measured m) m.now)
                s.workflow_records;
        },
        rw (new, record_calibrated_outcome) (rw (fresh, unused)),
        ap payload_of (
            latest-put m.organization_id m.source_mode row s.calibration_versions fresh
              (rw (==_refl m.organization_id, ==_refl m.source_mode)) above),
        Table.get-put_self extension_key _ _ s.workflow_records refl,
      )
