-- ===== src/Store/Records/Listings.antt =====
-- What `list_records` of apps/api/src/app/persistence/store.py says after a change of rows of another
-- kind.
use intelliq.Store.Records.{Entry, save_record, list_records, stamped, document_row}
use intelliq.Store.Records.Laws.{save_record-Saved}
use intelliq.Store.Leases.{lease_key, has_token, acquire_lease, release_lease}
use intelliq.Store.Rows.{
  key_eq, timedelta, Instant, Document, Key, ExtensionRow, extension_key, Store,
}
use intelliq.Prelude.Table
use intelliq.Prelude.{
  string_eq, [], ℕ, String, ◌≡◌, refl, ap, ◌∙◌, sym, Bool, false, ◌&&◌, List, ◌∷◌, ltb, ◌+◌, ◌==◌,
  ==_iff, filter, arith, Bool-cases, Option-cases, inl, inr, ok,
}

module _ {B : Type 0} (org kind : String) where
  abbrev pub is_listed : ExtensionRow B → Bool
  is_listed r = (r.organization_id == org) && (r.kind == kind)

  unlisted : (r : ExtensionRow B) → (r.kind == kind) ≡ false → is_listed r ≡ false
  unlisted r h = rw h (and_false (r.organization_id == org))
    where
      and_false : (b : Bool) → (b && false) ≡ false
      and_false b = ground arith

  filter-unlisted :
      (r : ExtensionRow B) (rows : List (ExtensionRow B))
      → (r.kind == kind) ≡ false
      → filter is_listed (r ∷ rows) ≡ filter is_listed rows
  unfolding filter
  filter-unlisted r rows h = rw (unlisted r h) refl

  filter-under :
      (r : ExtensionRow B) (xs ys : List (ExtensionRow B))
      → filter is_listed xs ≡ filter is_listed ys
      → filter is_listed (r ∷ xs) ≡ filter is_listed (r ∷ ys)
  unfolding filter
  filter-under r xs ys h = rw h refl

  filter-put :
      (r : ExtensionRow B) (rows : List (ExtensionRow B))
      → (r.kind == kind) ≡ false
      → filter is_listed (Table.put extension_key r rows) ≡ filter is_listed rows
  unfolding Table.put
  filter-put r [] h = filter-unlisted r [] h
  filter-put r (x ∷ xs) h = elim (Bool-cases (extension_key x == extension_key r)) [
    | inl same ↦ rw same (
        filter-unlisted r xs h
        ∙ sym (
            filter-unlisted x xs (
              ap (λ (k : Key). k.kind == kind) ((==_iff (extension_key x) (extension_key r)).0 same)
              ∙ h)))
    | inr other ↦ rw other (filter-under x _ xs (filter-put r xs h))
  ]

  filter-remove :
      (k : Key) (rows : List (ExtensionRow B))
      → (k.kind == kind) ≡ false
      → filter is_listed (Table.remove extension_key k rows) ≡ filter is_listed rows
  unfolding Table.remove
  filter-remove k [] h = refl
  filter-remove k (x ∷ xs) h = elim (Bool-cases (extension_key x == k)) [
    | inl same ↦ rw same (
        filter-remove k xs h
        ∙ sym (
            filter-unlisted x xs
              (ap (λ (k' : Key). k'.kind == kind) ((==_iff (extension_key x) k).0 same) ∙ h)))
    | inr other ↦ rw other (filter-under x _ xs (filter-remove k xs h))
  ]

  list_records-rows :
      (s s' : Store B)
      → filter is_listed s'.workflow_records ≡ filter is_listed s.workflow_records
      → list_records s' org kind ≡ list_records s org kind
  unfolding list_records
  list_records-rows s s' h = rw h refl

  -- A save of another kind.
  pub list_records-save_record :
      (s s' : Store B) (e : Entry B) (d : Document B) (o : String)
      → (e.kind == kind) ≡ false
      → save_record s o e ≡ ok (s', d)
      → list_records s' org kind ≡ list_records s org kind
  list_records-save_record s s' e d o h saved =
      let done = save_record-Saved s o e saved in
      list_records-rows s s' (
        ap (filter is_listed) done.rows
        ∙ filter-put (document_row o e (stamped o e done.created)) s.workflow_records h)

  -- A lease.
  pub list_records-acquire_lease :
      (s : Store B) (o name token : String) (seconds : ℕ) (now : Instant)
      → (◌==◌ {K = String} "lease" kind) ≡ false
      → list_records (acquire_lease s o name seconds now token).0 org kind ≡ list_records s org kind
  unfolding acquire_lease
  list_records-acquire_lease s o name token seconds now h =
      elim (Option-cases (Table.get extension_key (lease_key o name) s.workflow_records)) [
        | inl e ↦ rw (e, acquire_lease) (list_records-rows s _ (filter-put _ s.workflow_records h))
        | inr (r, e) ↦
            let same = Table.get-key_eq extension_key (lease_key o name) s.workflow_records e in
            rw (e, acquire_lease)
              (elim (Bool-cases (ltb (r.updated_at + timedelta seconds) now)) [
                | inl late ↦ rw late (
                    list_records-rows s _
                      (filter-put _ s.workflow_records (ap (λ (k : Key). k.kind == kind) same ∙ h)))
                | inr early ↦ rw early refl
              ])
      ]

  pub list_records-release_lease :
      (s : Store B) (o name token : String)
      → (◌==◌ {K = String} "lease" kind) ≡ false
      → list_records (release_lease s o name token) org kind ≡ list_records s org kind
  unfolding release_lease
  list_records-release_lease s o name token h =
      elim (Option-cases (Table.get extension_key (lease_key o name) s.workflow_records)) [
        | inl e ↦ rw (e, release_lease) refl
        | inr (r, e) ↦
            rw (e, release_lease)
              (elim (Bool-cases (has_token r.payload_json token)) [
                | inl mine ↦
                    rw mine (
                      list_records-rows s _ (filter-remove (lease_key o name) s.workflow_records h))
                | inr theirs ↦ rw theirs refl
              ])
      ]
