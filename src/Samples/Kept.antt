-- ===== src/Samples/Kept.antt =====
-- Two tenants that use the typed rows of apps/api/src/app/persistence/store.py.
use intelliq.Store.Analyses.Laws.{create_analysis-create_analysis}
use intelliq.Store.Analyses.{Request, run_row, input_row, analysis_row, create_analysis}
use intelliq.Store.Planning.{
  snapshot_key, next_payload, planning_saved, save_planning, save_planning-save_planning,
}
use intelliq.Prelude.{string_eq, nat_eq, option_eq, ℕ, ◌+◌, ◌≡◌, refl, none, some, ◌∷◌, [], err, ok}
use intelliq.Prelude.Table
use intelliq.Store.Rows.{key_eq, SnapshotRow, Store, empty_store, planning_version_conflict}

abbrev nothing : Store ℕ
nothing = empty_store

abbrev planned : Store ℕ
planned = planning_saved nothing "a" 7 0 10

saved : save_planning nothing "a" 7 (some 0) 10 ≡ ok (planned, next_payload 7 0)
unfolding save_planning Table.get Table.put
saved = refl

save_planning-save_planning_example :
    (1 ≡ 0 + 1)
    × (save_planning planned "a" 9 (some 0) 30 ≡ err (planning_version_conflict (0 + 1)))
save_planning-save_planning_example = save_planning-save_planning nothing "a" 7 9 0 10 30 saved

abbrev foreign_snapshot : SnapshotRow ℕ
foreign_snapshot = record {
  id = "s1";
  organization_id = "b";
  source_revision = "r1";
  payload_json = 5;
  fetched_at = 3;
}

abbrev with_snapshot : Store ℕ
with_snapshot = record nothing { snapshots = foreign_snapshot ∷ [] }

found_snapshot : Table.get snapshot_key "s1" with_snapshot.snapshots ≡ some foreign_snapshot
unfolding Table.get
found_snapshot = refl

abbrev keyed : Request ℕ
keyed = record {
  organization_id = "a";
  user_id = "u";
  run_key = some "k";
  payload = 1;
  status = "queued";
  frozen = some (record { created_at = none; body = 2 });
  analysis_id = "an1";
  now = 10;
}

abbrev again : Request ℕ
again = record keyed { payload = 3; analysis_id = "an2"; now = 20 }

abbrev unkeyed : Request ℕ
unkeyed = record keyed { run_key = none }

abbrev with_run : Store ℕ
with_run = record nothing {
  analyses = analysis_row keyed ∷ [];
  workflow_records =
      run_row keyed "k" ∷ input_row keyed (record { created_at = none; body = 2 }) ∷ [];
}

abbrev with_analysis : Store ℕ
with_analysis = record nothing {
  analyses = analysis_row unkeyed ∷ [];
  workflow_records = input_row unkeyed (record { created_at = none; body = 2 }) ∷ [];
}

created_keyed : create_analysis nothing keyed ≡ ok (with_run, "an1")
unfolding create_analysis Table.get Table.put Table.add
created_keyed = refl

created_unkeyed : create_analysis nothing unkeyed ≡ ok (with_analysis, "an1")
unfolding create_analysis Table.get Table.put Table.add
created_unkeyed = refl

create_analysis-create_analysis_example : create_analysis with_run again ≡ ok (with_run, "an1")
create_analysis-create_analysis_example =
    create_analysis-create_analysis nothing keyed again "k" created_keyed refl refl refl
