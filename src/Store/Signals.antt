-- ===== src/Store/Signals.antt =====
-- The signals of apps/api/src/app/persistence/store.py: `save_signal`, `review_signal`,
-- `list_signals`. A signal is evidence that a manager reviews; a newer revision of its source
-- supersedes it.
pub mod Laws
use intelliq.Prelude.{
  ◌≡◌, refl, String, string_eq, option_eq, Bool, true, false, not, ◌&&◌, ◌||◌, Option, none, some,
  List, [], ◌∷◌, map, ◌==◌, if◌then◌else◌, get_or, filter,
}
use intelliq.Prelude.Table
use intelliq.Store.Rows.{Instant, SignalPayload, SignalRow, Store}

abbrev pub signal_key : {B : Type 0} → SignalRow B → String
signal_key r = r.id

-- `status in {"confirmed", "rejected", "superseded"}`
abbrev pub is_final : String → Bool
is_final status = (status == "confirmed") || (status == "rejected") || (status == "superseded")

module _ {B : Type 0} where
  -- `str(payload.get("sourceId", ""))`
  abbrev pub source_id : SignalPayload B → String
  source_id p = get_or p.source_id ""

  abbrev pub source_revision : SignalPayload B → String
  source_revision p = get_or p.source_revision ""

  abbrev pub superseded_row : SignalRow B → String → Instant → SignalRow B
  superseded_row prior signal_id now = record prior {
    status = "superseded";
    payload_json = record prior.payload_json {
      status = some "superseded";
      superseded_by = some signal_id;
    };
    updated_at = now;
  }

  -- A row that the loop of `save_signal` visits and supersedes.
  abbrev pub is_prior : String → String → SignalPayload B → SignalRow B → Bool
  is_prior org signal_id payload prior =
      (prior.organization_id == org)
      && not (prior.id == signal_id)
      && (source_id prior.payload_json == source_id payload)
      && not (source_revision prior.payload_json == source_revision payload)

  unfoldable pub supersede : String → String → SignalPayload B → Instant → SignalRow B → SignalRow B
  supersede org signal_id payload now prior =
      if is_prior org signal_id payload prior then superseded_row prior signal_id now else prior

  -- `if source_id and source_revision`
  abbrev pub has_source : SignalPayload B → Bool
  has_source payload = not (source_id payload == "") && not (source_revision payload == "")

  abbrev pub signal_row :
      String → String → Option String → String → SignalPayload B → Instant → SignalRow B
  signal_row org signal_id project status payload now = record {
    id = signal_id;
    organization_id = org;
    project_id = project;
    status = status;
    payload_json = payload;
    updated_at = now;
  }

  -- `current is not None and current.status in {...}`
  abbrev pub is_reviewed : Option (SignalRow B) → Bool
  is_reviewed none = false
  is_reviewed (some current) = is_final current.status

  superseded : List (SignalRow B) → String → String → SignalPayload B → Instant → List (SignalRow B)
  superseded rows org signal_id payload now =
      if has_source payload then map (supersede org signal_id payload now) rows else rows

  unfoldable pub save_signal :
      Store B → String → String → Option String → String → SignalPayload B → Instant → Store B
  unfolding superseded
  save_signal s org signal_id project status payload now =
      if is_reviewed (Table.get signal_key signal_id s.signals) then s else record s {
        signals =
            Table.put signal_key (signal_row org signal_id project status payload now)
              (superseded s.signals org signal_id payload now);
      }

  -- What `review_signal` does with the row that it finds.
  abbrev pub reviewed :
      Store B
      → String
      → String
      → SignalPayload B
      → Instant
      → Option (SignalRow B)
      → Store B × Option (SignalPayload B)
  reviewed s org status payload now none = (s, none)
  reviewed s org status payload now (some row) =
      if row.organization_id == org
      then (
        record s {
          signals =
              Table.put signal_key
                (record row { status = status; payload_json = payload; updated_at = now })
                s.signals;
        },
        some payload,
      )
      else (s, none)

  unfoldable pub review_signal :
      Store B
      → String
      → String
      → String
      → SignalPayload B
      → Instant
      → Store B × Option (SignalPayload B)
  review_signal s org signal_id status payload now =
      reviewed s org status payload now (Table.get signal_key signal_id s.signals)

  abbrev pub in_project : Option String → SignalRow B → Bool
  in_project none row = true
  in_project (some p) row = row.project_id == some p

  unfoldable pub list_signals : Store B → String → Option String → List (SignalPayload B)
  list_signals s org project =
      map (λ r. r.payload_json)
        (filter (λ r. (r.organization_id == org) && in_project project r) s.signals)
