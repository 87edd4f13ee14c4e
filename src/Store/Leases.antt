-- ===== src/Store/Leases.antt =====
-- The leases of apps/api/src/app/persistence/store.py: `acquire_lease`, `renew_lease` and
-- `release_lease`, rows of `workflow_records` with the kind "lease" and the token as payload.
-- Each method is one transaction but `acquire_lease`, whose second one only runs when the insert
-- met the unique constraint. The clock and `secrets.token_urlsafe` are arguments.
pub mod Calls
pub mod Exclusion
use intelliq.Prelude.{
  ℕ, ◌+◌, String, Bool, true, false, Option, none, some, string_eq, ltb, ◌==◌, if◌then◌else◌,
}
use intelliq.Prelude.Table
use intelliq.Store.Rows.{
  Instant, timedelta, Key, key_eq, Payload, lease_token, analysis_run, frozen_input, outcome,
  document, ExtensionRow, extension_key, Store,
}

abbrev pub lease_key : String → String → Key
lease_key org name = record { organization_id = org; kind = "lease"; id = name }

module _ {B : Type 0} where
  abbrev pub lease_row : String → String → String → Instant → ExtensionRow B
  lease_row org name token now = record {
    organization_id = org;
    kind = "lease";
    id = name;
    payload_json = lease_token token;
    updated_at = now;
  }

  -- `payload_json == token`
  abbrev pub has_token : Payload B → String → Bool
  has_token (lease_token t) token = t == token
  has_token (analysis_run _) token = false
  has_token (frozen_input _ _) token = false
  has_token (outcome _) token = false
  has_token (document _) token = false

  -- The `UPDATE ... WHERE key AND updated_at < now - seconds` of the second transaction.
  take_over : Store B → ExtensionRow B → Instant → String → ℕ → Store B × Option String
  take_over s r now token seconds =
      if ltb (r.updated_at + timedelta seconds) now
      then (
        record s {
          workflow_records =
              Table.put extension_key
                (record r { payload_json = lease_token token; updated_at = now })
                s.workflow_records;
        },
        some token,
      )
      else (s, none)

  unfoldable pub acquire_lease :
      Store B → String → String → ℕ → Instant → String → Store B × Option String
  unfolding take_over
  acquire_lease s org name seconds now token =
      elim (Table.get extension_key (lease_key org name) s.workflow_records) [
        | none ↦ (
          record s {
            workflow_records =
                Table.put extension_key (lease_row org name token now) s.workflow_records;
          },
          some token,
        )
        | some r ↦ take_over s r now token seconds
      ]

  unfoldable pub renew_lease : Store B → String → String → String → Instant → Store B × Bool
  renew_lease s org name token now =
      elim (Table.get extension_key (lease_key org name) s.workflow_records) [
        | none ↦ (s, false)
        | some r ↦
            if has_token r.payload_json token
            then (
              record s {
                workflow_records =
                    Table.put extension_key (record r { updated_at = now }) s.workflow_records;
              },
              true,
            )
            else (s, false)
      ]

  unfoldable pub release_lease : Store B → String → String → String → Store B
  release_lease s org name token =
      elim (Table.get extension_key (lease_key org name) s.workflow_records) [
        | none ↦ s
        | some r ↦
            if has_token r.payload_json token
            then record s {
              workflow_records = Table.remove extension_key (lease_key org name) s.workflow_records;
            }
            else s
      ]
