-- ===== src/Store/Planning.antt =====
-- The planning overlay and the snapshots of apps/api/src/app/persistence/store.py:
-- `get_planning`, `save_planning` and `save_snapshot`.
use intelliq.Prelude.{
  ℕ, ◌+◌, ◌≡◌, ◌≢◌, refl, sym, ap, ◌∙◌, String, string_eq, nat_eq, Bool, true, false, not, Option,
  none, some, arith, ◌==◌, ==_ne, if◌then◌else◌, Result, ok, err, ok-injective, Bool-cases,
  eq-cases, inl, inr,
}
use intelliq.Prelude.Table
use intelliq.Store.Rows.{
  Instant, PlanningPayload, PlanningRow, SnapshotRow, Store, StoreError, snapshot_tenant_conflict,
  planning_version_conflict,
}

abbrev pub planning_key : {B : Type 0} → PlanningRow B → String
planning_key r = r.organization_id

abbrev pub snapshot_key : {B : Type 0} → SnapshotRow B → String
snapshot_key r = r.id

-- `expected_version is not None and current_version != expected_version`
abbrev pub version_conflict : Option ℕ → ℕ → Bool
version_conflict none current = false
version_conflict (some expected) current = not (current == expected)

version_fits : (current version : ℕ) → current ≡ version → not (current == version) ≡ false
version_fits current version h = ground arith

version_differs : (current version : ℕ) → current ≢ version → not (current == version) ≡ true
version_differs current version h = ground arith

version_moved : (version : ℕ) → not ((version + 1) == version) ≡ true
version_moved version = ground arith

module _ {B : Type 0} where
  -- `row.version if row else 0`
  abbrev pub current_version : Option (PlanningRow B) → ℕ
  current_version none = 0
  current_version (some row) = row.version

  abbrev pub planning_payload : Option (PlanningRow B) → Option (PlanningPayload B)
  planning_payload none = none
  planning_payload (some row) = some row.payload_json

  unfoldable pub get_planning : Store B → String → Option (PlanningPayload B)
  get_planning s org = planning_payload (Table.get planning_key org s.planning_inputs)

  abbrev pub next_payload : B → ℕ → PlanningPayload B
  next_payload body current = record { version = current + 1; body = body }

  abbrev pub planning_row : String → B → ℕ → Instant → PlanningRow B
  planning_row org body current now = record {
    organization_id = org;
    version = current + 1;
    payload_json = next_payload body current;
    updated_at = now;
  }

  abbrev pub planning_saved : Store B → String → B → ℕ → Instant → Store B
  planning_saved s org body current now = record s {
    planning_inputs = Table.put planning_key (planning_row org body current now) s.planning_inputs;
  }

  unfoldable pub save_planning :
      Store B → String → B → Option ℕ → Instant → Result StoreError (Store B × PlanningPayload B)
  save_planning s org body expected now =
      let current = current_version (Table.get planning_key org s.planning_inputs) in
      if version_conflict expected current
      then err (planning_version_conflict current)
      else ok (planning_saved s org body current now, next_payload body current)

  -- `existing and existing.organization_id != organization_id`
  abbrev pub other_tenant : Option (SnapshotRow B) → String → Bool
  other_tenant none org = false
  other_tenant (some row) org = not (row.organization_id == org)

  unfoldable pub save_snapshot :
      Store B → String → String → String → B → Instant → Result StoreError (Store B)
  save_snapshot s snapshot_id org source_revision payload now =
      if other_tenant (Table.get snapshot_key snapshot_id s.snapshots) org
      then err snapshot_tenant_conflict
      else ok (record s {
        snapshots =
            Table.put snapshot_key
              (record {
                id = snapshot_id;
                organization_id = org;
                source_revision = source_revision;
                payload_json = payload;
                fetched_at = now;
              })
              s.snapshots;
      })

  not_saved :
      {e : StoreError} {r : Store B × PlanningPayload B}
      → ◌≡◌ {A = Result StoreError (Store B × PlanningPayload B)} (err e) (ok r)
      → ⊥
  not_saved h = cc

  -- A save that names no version, or the current one, succeeds: it stores the document under the
  -- next version, returns it, and leaves the planning of every other tenant as it was.
  pub get_planning-save_planning :
      (s : Store B) (org : String) (body : B) (expected : Option ℕ) (now : Instant)
      → let current = current_version (Table.get planning_key org s.planning_inputs) in
        version_conflict expected current ≡ false
        → (s' : Store B) × (save_planning s org body expected now
            ≡ ok (s', next_payload body current))
          × ((o : String)
              → get_planning s' o
                ≡ (if org == o then some (next_payload body current) else get_planning s o))
  unfolding save_planning get_planning
  get_planning-save_planning s org body expected now fits =
      let current = current_version (Table.get planning_key org s.planning_inputs) in
      (
        planning_saved s org body current now,
        rw fits,
        λ o.
            ap planning_payload
              (Table.get-put planning_key o (planning_row org body current now) s.planning_inputs)
            ∙ elim (Bool-cases (org == o)) [ inl same ↦ rw same | inr other ↦ rw other ],
      )

  -- Of two saves that both name the version that was current, the second one fails with the
  -- version that the first one stored: no update is lost.
  pub save_planning-save_planning :
      (s : Store B) (org : String) (body body' : B) (version : ℕ) (now now' : Instant)
      {s' : Store B} {p : PlanningPayload B}
      → save_planning s org body (some version) now ≡ ok (s', p)
      → (p.version ≡ version + 1)
        × (save_planning s' org body' (some version) now'
            ≡ err (planning_version_conflict (version + 1)))
  unfolding save_planning
  save_planning-save_planning s org body body' version now now' {s'} {p} h =
      let current = current_version (Table.get planning_key org s.planning_inputs) in
      elim (eq-cases current version) [
        | inl same ↦
            let stored = ok-injective (rw (version_fits current version same) at h) in
            let found : current_version (Table.get planning_key org s'.planning_inputs)
                ≡ version + 1 =
              ap
                (λ (x : Store B × PlanningPayload B).
                  current_version (Table.get planning_key org x.0.planning_inputs))
                (sym stored)
              ∙ ap current_version (
                  Table.get-put_self planning_key org (planning_row org body current now)
                    s.planning_inputs refl)
              ∙ ap (λ (n : ℕ). n + 1) same in
            (
              ap (λ (x : Store B × PlanningPayload B). x.1.version) (sym stored)
                  ∙ ap (λ (n : ℕ). n + 1) same,
              rw (found, version_moved version),
            )
        | inr other ↦ absurd (not_saved (rw (version_differs current version other) at h))
      ]

  -- A snapshot's id never moves from one tenant to another.
  pub save_snapshot-tenant :
      (s : Store B) (id org revision : String) (payload : B) (now : Instant) (row : SnapshotRow B)
      → Table.get snapshot_key id s.snapshots ≡ some row
      → row.organization_id ≢ org
      → save_snapshot s id org revision payload now ≡ err snapshot_tenant_conflict
  unfolding save_snapshot
  save_snapshot-tenant s id org revision payload now row found other =
      rw (found, save_snapshot) (rw (==_ne row.organization_id org other))
