-- ===== src/Store/Records/Laws.antt =====
-- What the workflow records of a tenant keep.

use intelliq.Prelude.{
  ◌≡◌, ◌≢◌, sym, ap, ◌∙◌, String, string_eq, Option, some, List, [], ◌∷◌, ◌==◌, ==_ne,
  if◌then◌else◌, ok, Bool-cases, inl, inr, >>=-eq-ok, ok-injective, Result-cases,
}
use intelliq.Prelude.Table
use intelliq.Store.Rows.{
  Instant, Key, key_eq, Document, document, ExtensionRow, extension_key, Store,
}
use intelliq.Store.Records.{
  record_key, Entry, stamped, document_row, previous_created, save_entry, save_records, save_record,
  get_record, read_row, first_saved, created_before,
}

module _ {B : Type 0} where
  -- What a save that returns has done.
  pub record Saved (s : Store B) (org : String) (e : Entry B) (s' : Store B) (d : Document B)
      : Type 0 where
    pub created : Instant
    pub previous : previous_created s org e ≡ ok created
    pub value : d ≡ stamped org e created
    pub rows :
        s'.workflow_records
        ≡ Table.put extension_key (document_row org e (stamped org e created)) s.workflow_records

  pub save_entry-Saved :
      (s : Store B) (org : String) (e : Entry B) {s' : Store B} {d : Document B}
      → save_entry s org e ≡ ok (s', d)
      → Saved s org e s' d
  unfolding save_entry
  save_entry-Saved s org e {s'} {d} h =
      let (created, previous, stored) = >>=-eq-ok (previous_created s org e) _ h in
      let both = ok-injective stored in
      record {
        created = created;
        previous = previous;
        value = sym (ap (λ (r : Store B × Document B). r.1) both);
        rows = sym (ap (λ (r : Store B × Document B). r.0.workflow_records) both);
      }

  -- A save that returns has stored the caller's document under the tenant's key, stamped with the
  -- key's id, the tenant and the clock, and returns it; every other record reads as before.
  pub get_record-save_entry :
      (s : Store B) (org : String) (e : Entry B) {s' : Store B} {d : Document B}
      → save_entry s org e ≡ ok (s', d)
      → (o k i : String)
      → get_record s' o k i ≡ (
          if record_key org e.kind e.id == record_key o k i
          then ok (some (document d))
          else get_record s o k i)
  unfolding get_record
  get_record-save_entry s org e {s'} {d} h o k i =
      let saved = save_entry-Saved s org e h in
      let at =
        Table.get-put extension_key (record_key o k i)
          (document_row org e (stamped org e saved.created)) s.workflow_records in
      ap
        (λ (rows : List (ExtensionRow B)).
          read_row (Table.get extension_key (record_key o k i) rows))
        saved.rows
      ∙ ap read_row at
      ∙ elim (Bool-cases (record_key org e.kind e.id == record_key o k i)) [
        | inl same ↦ rw (same, saved.value)
        | inr other ↦ rw other
      ]

  save_record_lem :
      (s : Store B) (org : String) (e : Entry B) → save_record s org e ≡ save_entry s org e
  unfolding save_record save_records first_saved
  save_record_lem s org e = elim (Result-cases (save_entry s org e)) [
    | inl (r, p) ↦ rw p
    | inr (x, p) ↦ rw p
  ]

  pub save_record-Saved :
      (s : Store B) (org : String) (e : Entry B) {s' : Store B} {d : Document B}
      → save_record s org e ≡ ok (s', d)
      → Saved s org e s' d
  save_record-Saved s org e h = save_entry-Saved s org e (sym (save_record_lem s org e) ∙ h)

  -- `save_record` stores the caller's document under the tenant's key and returns what it stored,
  -- stamped with that key and the clock; every other record of every tenant reads as before.
  pub get_record-save_record :
      (s : Store B) (org : String) (e : Entry B) {s' : Store B} {d : Document B}
      → save_record s org e ≡ ok (s', d)
      → (d.id ≡ e.id)
        × (d.organization_id ≡ org)
        × (d.updated_at ≡ e.now)
        × (d.body ≡ e.payload)
        × ((o k i : String)
            → get_record s' o k i ≡ (
                if record_key org e.kind e.id == record_key o k i
                then ok (some (document d))
                else get_record s o k i))
  get_record-save_record s org e {s'} {d} h =
      let h' = sym (save_record_lem s org e) ∙ h in
      let saved = save_entry-Saved s org e h' in
      (
        ap (λ (x : Document B). x.id) saved.value,
        ap (λ (x : Document B). x.organization_id) saved.value,
        ap (λ (x : Document B). x.updated_at) saved.value,
        ap (λ (x : Document B). x.body) saved.value,
        get_record-save_entry s org e h',
      )

  -- A batch of one tenant changes no record of another tenant.
  pub get_record-save_records :
      (es : List (Entry B)) (s : Store B) (org : String) {s' : Store B} {ds : List (Document B)}
      → save_records s org es ≡ ok (s', ds)
      → (o k i : String) → org ≢ o
      → get_record s' o k i ≡ get_record s o k i
  unfolding save_records
  get_record-save_records [] s org h o k i other =
      ap (λ (r : Store B × List (Document B)). get_record r.0 o k i) (sym (ok-injective h))
  get_record-save_records (e ∷ es) s org {s'} {ds} h o k i other =
      let ((s₁, d), first, h') = >>=-eq-ok (save_entry s org e) _ h in
      let ((s₂, ds₁), rest, h'') = >>=-eq-ok (save_records s₁ org es) _ h' in
      ap (λ (r : Store B × List (Document B)). get_record r.0 o k i) (sym (ok-injective h''))
      ∙ get_record-save_records es s₁ org rest o k i other
      ∙ get_record-save_entry s org e first o k i
      ∙ rw (
          ==_ne (record_key org e.kind e.id) (record_key o k i)
            (λ p. other (ap (λ (x : Key). x.organization_id) p)))

  -- A document keeps the creation time of its first save, however often it is saved again.
  pub save_record-save_record :
      (s : Store B) (org : String) (e e' : Entry B) {s₁ s₂ : Store B} {d₁ d₂ : Document B}
      → save_record s org e ≡ ok (s₁, d₁)
      → save_record s₁ org e' ≡ ok (s₂, d₂)
      → e.kind ≡ e'.kind
      → e.id ≡ e'.id
      → d₂.created_at ≡ d₁.created_at
  unfolding previous_created
  save_record-save_record s org e e' {s₁} {s₂} {d₁} {d₂} h₁ h₂ same_kind same_id =
      let first = save_entry-Saved s org e (sym (save_record_lem s org e) ∙ h₁) in
      let second = save_entry-Saved s₁ org e' (sym (save_record_lem s₁ org e') ∙ h₂) in
      let found : Table.get extension_key (record_key org e'.kind e'.id) s₁.workflow_records
          ≡ some (document_row org e (stamped org e first.created)) =
        ap (Table.get extension_key (record_key org e'.kind e'.id)) first.rows
        ∙ Table.get-put_self extension_key (record_key org e'.kind e'.id) _ s.workflow_records
            (λ i. record_key org (same_kind i) (same_id i)) in
      let kept =
        ap (λ (r : Option (ExtensionRow B)). created_before r e'.now) (sym found)
        ∙ second.previous in
      ap (λ (x : Document B). x.created_at) second.value
      ∙ sym (ok-injective kept)
      ∙ sym (ap (λ (x : Document B). x.created_at) first.value)
