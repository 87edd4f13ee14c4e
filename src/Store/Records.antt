-- ===== src/Store/Records.antt =====
-- The workflow records of apps/api/src/app/persistence/store.py: `get_record`, `list_records`,
-- `save_record` and `save_records`. Each method is one transaction: an exception leaves the store
-- as it was. Every entry of a batch comes with the instant that `_now()` gives for it.
pub mod Laws
pub mod Order
pub mod Listings
use intelliq.Prelude.{
  String, string_eq, ◌&&◌, Option, none, some, List, [], ◌∷◌, ltb, ◌==◌, if◌then◌else◌, filter,
  Result, ok, err, ◌>>=◌,
}
use intelliq.Prelude.Table
use intelliq.Store.Rows.{
  Instant, Key, key_eq, Document, Payload, lease_token, analysis_run, frozen_input, outcome,
  document, ExtensionRow, extension_key, Store, StoreError, decode_error, index_error,
}

abbrev pub record_key : String → String → String → Key
record_key org kind id = record { organization_id = org; kind = kind; id = id }

-- One entry of the argument of `save_records`, with the clock's reading.
pub record Entry (B : Type 0) : Type 0 where
  pub kind : String
  pub id : String
  pub payload : B
  pub now : Instant

module _ {B : Type 0} where
  -- `json.loads(row.payload_json)`: a bare token is no JSON text.
  abbrev pub loads : Payload B → Result StoreError (Payload B)
  loads (lease_token t) = err decode_error
  loads (analysis_run a) = ok (analysis_run a)
  loads (frozen_input c b) = ok (frozen_input c b)
  loads (outcome o) = ok (outcome o)
  loads (document d) = ok (document d)

  -- `json.loads(row.payload_json) if row else None`
  abbrev pub read_row : Option (ExtensionRow B) → Result StoreError (Option (Payload B))
  read_row none = ok none
  read_row (some row) = loads row.payload_json >>= λ value. ok (some value)

  unfoldable pub get_record :
      Store B → String → String → String → Result StoreError (Option (Payload B))
  get_record s org kind id =
      read_row (Table.get extension_key (record_key org kind id) s.workflow_records)

  -- `previous.get("createdAt", now)`
  abbrev pub created_at : Payload B → Instant → Instant
  created_at (document d) now = d.created_at
  created_at (frozen_input (some c) b) now = c
  created_at _ now = now

  abbrev pub stamped : String → Entry B → Instant → Document B
  stamped org e created = record {
    id = e.id;
    organization_id = org;
    created_at = created;
    updated_at = e.now;
    body = e.payload;
  }

  abbrev pub document_row : String → Entry B → Document B → ExtensionRow B
  document_row org e value = record {
    organization_id = org;
    kind = e.kind;
    id = e.id;
    payload_json = document value;
    updated_at = e.now;
  }

  abbrev pub created_before : Option (ExtensionRow B) → Instant → Result StoreError Instant
  created_before none now = ok now
  created_before (some row) now =
      loads row.payload_json >>= λ previous. ok (created_at previous now)

  -- `previous`, and with it the creation time, of the entry's row.
  unfoldable pub previous_created : Store B → String → Entry B → Result StoreError Instant
  previous_created s org e =
      created_before (Table.get extension_key (record_key org e.kind e.id) s.workflow_records) e.now

  -- One round of the loop of `save_records`.
  unfoldable pub save_entry : Store B → String → Entry B → Result StoreError (Store B × Document B)
  unfolding previous_created
  save_entry s org e = do
    created ← previous_created s org e
    ok (
      record s {
        workflow_records =
            Table.put extension_key (document_row org e (stamped org e created)) s.workflow_records;
      },
      stamped org e created,
    )

  unfoldable pub save_records :
      Store B → String → List (Entry B) → Result StoreError (Store B × List (Document B))
  save_records s org [] = ok (s, [])
  save_records s org (e ∷ es) = save_entry s org e >>= λ saved.
      save_records saved.0 org es >>= λ rest. ok (rest.0, saved.1 ∷ rest.1)

  -- `save_records(organization_id, [(kind, record_id, payload)])[0]`
  first_saved : Store B × List (Document B) → Result StoreError (Store B × Document B)
  first_saved (s, []) = err index_error
  first_saved (s, d ∷ ds) = ok (s, d)

  unfoldable pub save_record : Store B → String → Entry B → Result StoreError (Store B × Document B)
  unfolding save_records first_saved
  save_record s org e = save_records s org (e ∷ []) >>= first_saved

  -- `order_by(updated_at.desc())`
  unfoldable pub insert_newest : ExtensionRow B → List (ExtensionRow B) → List (ExtensionRow B)
  insert_newest r [] = r ∷ []
  insert_newest r (x ∷ xs) =
      let rest = insert_newest r xs in
      if ltb x.updated_at r.updated_at then r ∷ x ∷ xs else x ∷ rest

  unfoldable pub newest_first : List (ExtensionRow B) → List (ExtensionRow B)
  newest_first [] = []
  newest_first (r ∷ rs) = insert_newest r (newest_first rs)

  unfoldable pub load_all : List (ExtensionRow B) → Result StoreError (List (Payload B))
  load_all [] = ok []
  load_all (r ∷ rs) = loads r.payload_json >>= λ v. load_all rs >>= λ vs. ok (v ∷ vs)

  unfoldable pub list_records : Store B → String → String → Result StoreError (List (Payload B))
  unfolding newest_first insert_newest load_all
  list_records s org kind = load_all (
      newest_first
        (filter (λ r. (r.organization_id == org) && (r.kind == kind)) s.workflow_records))
