-- ===== src/Store/Signals/Laws.antt =====
-- What a save of a signal does to the signals that are there.
use intelliq.Prelude.{
  ◌≡◌, ◌≢◌, ◌∙◌, String, string_eq, true, false, Option, none, some, inl, inr, ◌==◌, ==_ne,
  if◌then◌else◌, Bool-cases, option_map, subst, sym, eq-cases, tests_differ,
}
use intelliq.Prelude.Table
use intelliq.Store.Rows.{Instant, SignalPayload, SignalRow, Store}
use intelliq.Store.Signals.{
  signal_key, is_final, superseded_row, is_prior, supersede, has_source, signal_row, is_reviewed,
  superseded, save_signal,
}

module _ {B : Type 0} where
  supersede-id :
      (org id : String) (payload : SignalPayload B) (now : Instant) (r : SignalRow B)
      → signal_key (supersede org id payload now r) ≡ signal_key r
  unfolding supersede
  supersede-id org id payload now r = elim (Bool-cases (is_prior org id payload r)) [
    | inl p ↦ rw p
    | inr p ↦ rw p
  ]

  -- The status of the row that `get` finds is final.
  abbrev pub IsClosed : Option (SignalRow B) → Type 0
  IsClosed none = ⊥
  IsClosed (some row) = is_final row.status ≡ true

  IsClosed-reviewed : (o : Option (SignalRow B)) → IsClosed o → is_reviewed o ≡ true
  IsClosed-reviewed none h = absurd h
  IsClosed-reviewed (some r) h = h

  module _ (s : Store B) (org id : String) (project : Option String) (status : String)
      (payload : SignalPayload B) (now : Instant) where
    abbrev after : Store B
    after = save_signal s org id project status payload now

    -- A signal that was reviewed or superseded is not written again by a save under its id.
    pub save_signal-reviewed :
        (row : SignalRow B)
        → Table.get signal_key id s.signals ≡ some row
        → is_final row.status ≡ true
        → after ≡ s
    unfolding save_signal
    save_signal-reviewed row found final = rw (found, save_signal) (rw final)

    get-superseded :
        (j : String)
        → Table.get signal_key j (superseded s.signals org id payload now) ≡ (
            if has_source payload
            then option_map (supersede org id payload now) (Table.get signal_key j s.signals)
            else Table.get signal_key j s.signals)
    unfolding superseded
    get-superseded j = elim (Bool-cases (has_source payload)) [
      | inl p ↦ rw p (
          Table.get-map signal_key (supersede org id payload now) (supersede-id org id payload now)
            j s.signals)
      | inr p ↦ rw p
    ]

    -- What a save that writes leaves under every id: the signal itself, and the other signals,
    -- superseded where the payload names a source and a revision.
    pub get-save_signal :
        is_reviewed (Table.get signal_key id s.signals) ≡ false
        → (j : String)
        → Table.get signal_key j after.signals ≡ (
            if id == j
            then some (signal_row org id project status payload now)
            else if has_source payload
            then option_map (supersede org id payload now) (Table.get signal_key j s.signals)
            else Table.get signal_key j s.signals)
    unfolding save_signal
    get-save_signal unread j =
        rw (unread, save_signal)
          (Table.get-put signal_key j (signal_row org id project status payload now)
              (superseded s.signals org id payload now)
            ∙ elim (Bool-cases (id == j)) [ inl p ↦ rw p | inr p ↦ rw p (get-superseded j) ])

    -- A save that writes, of a signal with a source and a revision, leaves every other signal of
    -- the tenant that has the same source and another revision superseded by this one, whatever
    -- its status was; and every other signal, of this tenant or another, as it was.
    pub save_signal-supersedes :
        is_reviewed (Table.get signal_key id s.signals) ≡ false
        → has_source payload ≡ true
        → (j : String) (prior : SignalRow B) → id ≢ j
        → Table.get signal_key j s.signals ≡ some prior
        → Table.get signal_key j after.signals
          ≡ some (if is_prior org id payload prior then superseded_row prior id now else prior)
    unfolding supersede
    save_signal-supersedes unread source j prior other found =
        get-save_signal unread j ∙ rw (==_ne id j other, source, found)

    supersede-is_final :
        (r : SignalRow B)
        → is_final r.status ≡ true
        → is_final (supersede org id payload now r).status ≡ true
    unfolding supersede
    supersede-is_final r final = elim (Bool-cases (is_prior org id payload r)) [
      | inl p ↦ rw p
      | inr p ↦ rw p final
    ]

    IsClosed-supersede :
        (o : Option (SignalRow B))
        → IsClosed o
        → IsClosed (option_map (supersede org id payload now) o)
    IsClosed-supersede none h = absurd h
    IsClosed-supersede (some r) h = supersede-is_final r h

    -- A signal whose review is over never becomes open again by a save, of whichever tenant and
    -- under whichever id: confirmed, rejected and superseded signals stay one of these three.
    pub save_signal-IsClosed :
        (j : String)
        → IsClosed (Table.get signal_key j s.signals)
        → IsClosed (Table.get signal_key j after.signals)
    unfolding save_signal
    save_signal-IsClosed j closed =
        elim (Bool-cases (is_reviewed (Table.get signal_key id s.signals))) [
          | inl read ↦ rw (read, save_signal) closed
          | inr unread ↦ subst IsClosed (sym (get-save_signal unread j)) (elim (eq-cases id j) [
            | inl same ↦ absurd (
                tests_differ unread (
                  IsClosed-reviewed _ (
                    subst (λ (k : String). IsClosed (Table.get signal_key k s.signals)) (sym same)
                      closed)))
            | inr other ↦ rw (==_ne id j other) (elim (Bool-cases (has_source payload)) [
              | inl p ↦ rw p (IsClosed-supersede _ closed)
              | inr p ↦ rw p closed
            ])
          ])
        ]
