-- ===== src/Samples/Persisted.antt =====
-- Two tenants that use the store of apps/api/src/app/persistence/store.py.
use mathlib.Core.List.{Perm}
use intelliq.Store.Records.Order.{IsNewestFirst, list_records-perm}
use intelliq.Store.Records.Laws.{get_record-save_record}
use intelliq.Store.Records.{
  record_key, Entry, get_record, stamped, document_row, previous_created, save_entry, save_records,
  save_record, load_all, list_records,
}
use intelliq.Store.Leases.Exclusion.{acquire-acquire}
use intelliq.Store.Leases.Calls.{Call, run, IsHeld, IsForeign, acquires, renews, releases}
use intelliq.Prelude.{
  distinct, ◌≡◌, refl, string_eq, ℕ, All, List, String, some, ◌==◌, ◌∷◌, [], ◌&&◌, none, arith,
  if◌then◌else◌, ok, filter,
}
use intelliq.Prelude.Table
use intelliq.Store.Rows.{Store, empty_store, key_eq, Document, ExtensionRow, document}
use intelliq.Store.Leases.{acquire_lease, lease_row}

abbrev nothing : Store ℕ
nothing = empty_store

abbrev leased : Store ℕ
leased = record nothing { workflow_records = lease_row "a" "sync" "t1" 5000000 ∷ [] }

abbrev calls : List Call
calls =
    acquires "a" "sync" 300 6000000 "t2"
    ∷ acquires "b" "sync" 300 6000000 "t3"
    ∷ renews "a" "sync" "t4" 6000000
    ∷ releases "a" "sync" "t4"
    ∷ []

calls-IsForeign : All (IsForeign "a" "sync" "t1" 5000000) calls
calls-IsForeign = (
  (distinct "t2" "t1" refl, λ p. omega arith),
  (
    (distinct "t3" "t1" refl, λ p. omega arith),
    (distinct "t4" "t1" refl, (distinct "t4" "t1" refl, tt)),
  ),
)

acquired : acquire_lease nothing "a" "sync" 300 5000000 "t1" ≡ (leased, some "t1")
unfolding acquire_lease Table.get Table.put
acquired = refl

acquire-acquire_example :
    acquire_lease (run leased calls) "a" "sync" 300 200000000 "t5" ≡ (run leased calls, none)
acquire-acquire_example =
    acquire-acquire nothing leased "a" "sync" "t1" 300 5000000 calls 300 200000000 "t5" acquired
      calls-IsForeign (omega arith)

leased-IsHeld : IsHeld leased "a" "sync" "t1" 5000000
unfolding Table.get
leased-IsHeld = refl

abbrev entry : Entry ℕ
entry = record { kind = "case"; id = "c1"; payload = 7; now = 10 }

abbrev entry_again : Entry ℕ
entry_again = record { kind = "case"; id = "c1"; payload = 8; now = 20 }

abbrev first_document : Document ℕ
first_document = record {
  id = "c1";
  organization_id = "a";
  created_at = 10;
  updated_at = 10;
  body = 7;
}

abbrev second_document : Document ℕ
second_document = record {
  id = "c1";
  organization_id = "a";
  created_at = 10;
  updated_at = 20;
  body = 8;
}

abbrev with_first : Store ℕ
with_first = record nothing { workflow_records = document_row "a" entry first_document ∷ [] }

abbrev with_second : Store ℕ
with_second = record nothing {
  workflow_records = document_row "a" entry_again second_document ∷ [];
}

saved_first : save_record nothing "a" entry ≡ ok (with_first, first_document)
unfolding save_record save_records save_entry previous_created Table.get Table.put
saved_first = refl

saved_second : save_record with_first "a" entry_again ≡ ok (with_second, second_document)
unfolding save_record save_records save_entry previous_created Table.get Table.put
saved_second = refl

get_record-save_record_example :
    (first_document.id ≡ "c1")
    × (first_document.organization_id ≡ "a")
    × (first_document.updated_at ≡ 10)
    × (first_document.body ≡ 7)
    × ((o k i : String)
        → get_record with_first o k i ≡ (
            if record_key "a" "case" "c1" == record_key o k i
            then ok (some (document first_document))
            else get_record nothing o k i))
get_record-save_record_example = get_record-save_record nothing "a" entry saved_first

saved_batch :
    save_records with_first "b" (entry ∷ [])
    ≡ ok (
      record nothing {
        workflow_records =
            document_row "a" entry first_document
            ∷ document_row "b" entry (stamped "b" entry 10)
            ∷ [];
      },
      stamped "b" entry 10 ∷ [],
    )
unfolding save_records save_entry previous_created Table.get Table.put
saved_batch = refl

list_records-perm_example :
    (rows : List (ExtensionRow ℕ)) × (list_records with_first "a" "case" ≡ load_all rows)
    × Perm rows
        (filter (λ r. (r.organization_id == "a") && (r.kind == "case")) with_first.workflow_records)
    × IsNewestFirst rows
list_records-perm_example = list_records-perm with_first "a" "case"
