-- ===== src/Store/Analyses.antt =====
-- The analyses of apps/api/src/app/persistence/store.py: `create_analysis`, `get_analysis`.
-- The id that `uuid4` draws and the clock are arguments. A transaction that meets a unique
-- constraint leaves the store as it was.
pub mod Laws
use intelliq.Prelude.{
  ◌≡◌, ◌≢◌, refl, sym, ap, ◌∙◌, String, string_eq, Bool, true, false, not, ◌&&◌, Option, none, some,
  List, ◌==◌, ==_refl, ==_ne, if◌then◌else◌, is_some, Result, ok, err, ◌>>=◌,
}
use intelliq.Prelude.Table
use intelliq.Store.Rows.{
  Instant, Key, key_eq, Payload, lease_token, analysis_run, frozen_input, outcome, document,
  ExtensionRow, extension_key, AnalysisPayload, AnalysisRow, Store, StoreError, integrity_error,
  decode_error, key_error,
}
use intelliq.Store.Records.{record_key}

abbrev pub analysis_key : {B : Type 0} → AnalysisRow B → String
analysis_key r = r.id

-- A frozen input: its own `createdAt`, if it has one, and its content.
pub record FrozenInput (B : Type 0) : Type 0 where
  pub created_at : Option Instant
  pub body : B

-- The call's arguments, with the id and the time that it draws.
pub record Request (B : Type 0) : Type 0 where
  pub organization_id : String
  pub user_id : String
  pub run_key : Option String
  pub payload : B
  pub status : String
  pub frozen : Option (FrozenInput B)
  pub analysis_id : String
  pub now : Instant

-- `payload.get("runKey")` in a condition: a missing key and an empty text are both false.
abbrev pub truthy : Option String → Option String
truthy none = none
truthy (some k) = if k == "" then none else some k

-- `db.add`, an IntegrityError if the key is taken.
abbrev pub added : {R : Type 0} → Option (List R) → Result StoreError (List R)
added none = err integrity_error
added (some rows) = ok rows

module _ {B : Type 0} where
  abbrev pub stored_payload : Request B → AnalysisPayload B
  stored_payload q = record {
    id = q.analysis_id;
    status = q.status;
    run_key = q.run_key;
    body = q.payload;
  }

  abbrev pub extension_row : Request B → String → String → Payload B → ExtensionRow B
  extension_row q kind id payload = record {
    organization_id = q.organization_id;
    kind = kind;
    id = id;
    payload_json = payload;
    updated_at = q.now;
  }

  abbrev pub run_row : Request B → String → ExtensionRow B
  run_row q key = extension_row q "analysis_run" key (analysis_run q.analysis_id)

  abbrev pub input_row : Request B → FrozenInput B → ExtensionRow B
  input_row q f = extension_row q "analysis_input" q.analysis_id (frozen_input f.created_at f.body)

  abbrev pub analysis_row : Request B → AnalysisRow B
  analysis_row q = record {
    id = q.analysis_id;
    organization_id = q.organization_id;
    user_id = q.user_id;
    status = q.status;
    payload_json = stored_payload q;
    created_at = q.now;
  }

  -- `json.loads(existing.payload_json)["analysisId"]`
  abbrev pub run_analysis : Payload B → Result StoreError String
  run_analysis (analysis_run a) = ok a
  run_analysis (lease_token _) = err decode_error
  run_analysis _ = err key_error

  abbrev pub add_input :
      Request B
      → Option (FrozenInput B)
      → List (ExtensionRow B)
      → Result StoreError (List (ExtensionRow B))
  add_input q none rows = ok rows
  add_input q (some f) rows = added (Table.add extension_key (input_row q f) rows)

  -- What is left of the transaction once the run key is registered.
  add_analysis : Store B → Request B → List (ExtensionRow B) → Result StoreError (Store B × String)
  add_analysis s q rows = add_input q q.frozen rows >>= λ records.
      added (Table.add analysis_key (analysis_row q) s.analyses) >>= λ analyses.
      ok (record s { analyses = analyses; workflow_records = records }, q.analysis_id)

  create_run :
      Store B → Request B → String → Option (ExtensionRow B) → Result StoreError (Store B × String)
  unfolding add_analysis
  create_run s q key (some existing) = run_analysis existing.payload_json >>= λ found. ok (s, found)
  create_run s q key none =
      added (Table.add extension_key (run_row q key) s.workflow_records) >>= add_analysis s q

  create_keyed : Store B → Request B → Option String → Result StoreError (Store B × String)
  unfolding add_analysis create_run
  create_keyed s q none = add_analysis s q s.workflow_records
  create_keyed s q (some key) =
      create_run s q key (
        Table.get extension_key (record_key q.organization_id "analysis_run" key)
          s.workflow_records)

  unfoldable pub create_analysis : Store B → Request B → Result StoreError (Store B × String)
  unfolding create_keyed create_run add_analysis
  create_analysis s q = create_keyed s q (truthy q.run_key)

  -- `None` for a missing row and for a row of another tenant alike.
  abbrev pub visible : Option (AnalysisRow B) → String → Option (AnalysisPayload B)
  visible none org = none
  visible (some row) org = if row.organization_id == org then some row.payload_json else none

  unfoldable pub get_analysis : Store B → String → String → Option (AnalysisPayload B)
  get_analysis s org id = visible (Table.get analysis_key id s.analyses) org
