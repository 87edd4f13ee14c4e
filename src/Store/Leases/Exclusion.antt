-- ===== src/Store/Leases/Exclusion.antt =====
-- Leases exclude one another.
use intelliq.Prelude.Table.{get-key}
use intelliq.Prelude.{
  ℕ, ◌+◌, ◌≤◌, ◌≡◌, ◌≢◌, refl, sym, ap, String, Bool, true, false, Option, none, some, List, [],
  ◌∷◌, string_eq, ltb, le→ltb, ==_refl, ==_ne, Option-cases, All, inl, inr, Bool-cases, ◌∙◌,
  eq-cases,
}
use intelliq.Prelude.Table
use intelliq.Store.Rows.{
  Instant, timedelta, Key, key_eq, lease_token, ExtensionRow, extension_key, Store,
}
use intelliq.Store.Leases.{
  lease_key, lease_row, has_token, acquire_lease, renew_lease, release_lease,
}
use intelliq.Store.Leases.Calls.{
  Call, acquires, renews, releases, step, run, lease_at, IsHeld, IsForeign,
}

abbrev Outcome : Type 0 → Type 0
Outcome B = Store B × Option String

module _ {B : Type 0} where
  pub acquire-other :
      (s : Store B) (k : Key) (o n : String) (seconds : ℕ) (now : Instant) (t : String)
      → lease_key o n ≢ k
      → Table.get extension_key k (acquire_lease s o n seconds now t).0.workflow_records
        ≡ Table.get extension_key k s.workflow_records
  unfolding acquire_lease
  acquire-other s k o n seconds now t h =
      elim (Option-cases (Table.get extension_key (lease_key o n) s.workflow_records)) [
        | inl e ↦ rw (e, acquire_lease) (Table.get-put_other extension_key k _ s.workflow_records h)
        | inr (r, e) ↦
            let same = Table.get-key_eq extension_key (lease_key o n) s.workflow_records e in
            rw (e, acquire_lease)
              (elim (Bool-cases (ltb (r.updated_at + timedelta seconds) now)) [
                | inl late ↦ rw late (
                    Table.get-put_other extension_key k _ s.workflow_records
                      (λ p. h (sym same ∙ p)))
                | inr early ↦ rw early
              ])
      ]

  renew-other :
      (s : Store B) (k : Key) (o n t : String) (now : Instant)
      → lease_key o n ≢ k
      → Table.get extension_key k (renew_lease s o n t now).0.workflow_records
        ≡ Table.get extension_key k s.workflow_records
  unfolding renew_lease
  renew-other s k o n t now h =
      elim (Option-cases (Table.get extension_key (lease_key o n) s.workflow_records)) [
        | inl e ↦ rw (e, renew_lease)
        | inr (r, e) ↦
            let same = Table.get-key_eq extension_key (lease_key o n) s.workflow_records e in
            rw (e, renew_lease)
              (elim (Bool-cases (has_token r.payload_json t)) [
                | inl mine ↦ rw mine (
                    Table.get-put_other extension_key k _ s.workflow_records
                      (λ p. h (sym same ∙ p)))
                | inr theirs ↦ rw theirs
              ])
      ]

  pub release-other :
      (s : Store B) (k : Key) (o n t : String)
      → lease_key o n ≢ k
      → Table.get extension_key k (release_lease s o n t).workflow_records
        ≡ Table.get extension_key k s.workflow_records
  unfolding release_lease
  release-other s k o n t h =
      elim (Option-cases (Table.get extension_key (lease_key o n) s.workflow_records)) [
        | inl e ↦ rw (e, release_lease)
        | inr (r, e) ↦
            rw (e, release_lease)
              (elim (Bool-cases (has_token r.payload_json t)) [
                | inl mine ↦ rw mine (Table.get-remove_other extension_key k _ s.workflow_records h)
                | inr theirs ↦ rw theirs
              ])
      ]

  module _ (s : Store B) (org name token : String) (since : Instant)
      (held : IsHeld s org name token since) where
    -- A lease that is held cannot be acquired within its term, and the attempt changes nothing.
    pub acquire-held :
        (seconds : ℕ) (now : Instant) (t : String)
        → now ≤ since + timedelta seconds
        → acquire_lease s org name seconds now t ≡ (s, none)
    unfolding acquire_lease
    acquire-held seconds now t early =
        rw (held, acquire_lease) (rw (le→ltb (since + timedelta seconds) now early))

    -- Another token neither renews nor releases a lease that is held.
    pub renew-foreign :
        (t : String) (now : Instant) → t ≢ token → renew_lease s org name t now ≡ (s, false)
    unfolding renew_lease
    renew-foreign t now other = rw (held, renew_lease) (rw (==_ne token t (λ p. other (sym p))))

    pub release-foreign : (t : String) → t ≢ token → release_lease s org name t ≡ s
    unfolding release_lease
    release-foreign t other = rw (held, release_lease) (rw (==_ne token t (λ p. other (sym p))))

    step-IsHeld :
        (c : Call) → IsForeign org name token since c → IsHeld (step s c) org name token since
    unfolding step
    step-IsHeld (acquires o n seconds now t) (other, early) =
        elim (eq-cases (lease_key o n) (lease_key org name)) [
          | inl p ↦
              rw (ap (λ (k : Key). k.organization_id) p, ap (λ (k : Key). k.id) p)
                (ap (λ (r : Store B × Option String). lease_at r.0 org name)
                    (acquire-held seconds now t (early p))
                  ∙ held)
          | inr p ↦ acquire-other s _ o n seconds now t p ∙ held
        ]
    step-IsHeld (renews o n t now) other = elim (eq-cases (lease_key o n) (lease_key org name)) [
      | inl p ↦
          rw (ap (λ (k : Key). k.organization_id) p, ap (λ (k : Key). k.id) p)
            (ap (λ (r : Store B × Bool). lease_at r.0 org name) (renew-foreign t now other) ∙ held)
      | inr p ↦ renew-other s _ o n t now p ∙ held
    ]
    step-IsHeld (releases o n t) other = elim (eq-cases (lease_key o n) (lease_key org name)) [
      | inl p ↦
          rw (ap (λ (k : Key). k.organization_id) p, ap (λ (k : Key). k.id) p)
            (ap (λ (r : Store B). lease_at r org name) (release-foreign t other) ∙ held)
      | inr p ↦ release-other s _ o n t p ∙ held
    ]

  run-IsHeld :
      (calls : List Call) (s : Store B) (org name token : String) (since : Instant)
      → IsHeld s org name token since
      → All (IsForeign org name token since) calls
      → IsHeld (run s calls) org name token since
  unfolding run
  run-IsHeld [] s org name token since held h = held
  run-IsHeld (c ∷ cs) s org name token since held h =
      run-IsHeld cs (step s c) org name token since (step-IsHeld s org name token since held c h.0)
        h.1

  taken_row :
      (r : ExtensionRow B) (org name token : String) (now : Instant)
      → extension_key r ≡ lease_key org name
      → record r { payload_json = lease_token token; updated_at = now }
        ≡ lease_row org name token now
  taken_row r org name token now p = λ i. record {
    organization_id = (p i).organization_id;
    kind = (p i).kind;
    id = (p i).id;
    payload_json = lease_token token;
    updated_at = now;
  }

  taken : {x y : Store B} {t u : String} → ◌≡◌ {A = Outcome B} (x, some u) (y, some t) → t ≡ u
  taken e = cc

  refused : {x y : Store B} {t : String} → ◌≡◌ {A = Outcome B} (x, none) (y, some t) → ⊥
  refused e = cc

  IsHeld-step :
      {x y : Store B} {t u : Option String} {org name token : String} {now : Instant}
      → ◌≡◌ {A = Outcome B} (x, u) (y, t)
      → IsHeld x org name token now
      → IsHeld y org name token now
  IsHeld-step {org = org} {name = name} e h =
      ap (λ (o : Outcome B). lease_at o.0 org name) (sym e) ∙ h

  -- A successful `acquire_lease` returns its own token and leaves the lease held by it.
  acquire-IsHeld :
      (s : Store B) (org name token : String) (seconds : ℕ) (now : Instant) {s' : Store B}
      {t : String}
      → acquire_lease s org name seconds now token ≡ (s', some t)
      → (t ≡ token) × IsHeld s' org name token now
  unfolding acquire_lease
  acquire-IsHeld s org name token seconds now {s'} {t} e =
      elim (Option-cases (lease_at s org name)) [
        | inl free ↦
            let e' = rw (free, acquire_lease) at e in
            (
              taken e',
              IsHeld-step e' (Table.get-put_self extension_key _ _ s.workflow_records refl),
            )
        | inr (r, found) ↦
            let same =
              Table.get-key_eq extension_key (lease_key org name) s.workflow_records found in
            let e' = rw (found, acquire_lease) at e in
            elim (Bool-cases (ltb (r.updated_at + timedelta seconds) now)) [
              | inl late ↦
                  let e'' = rw late at e' in
                  (
                    taken e'',
                    IsHeld-step e'' (
                        Table.get-put_self extension_key (lease_key org name) _ s.workflow_records
                          same
                        ∙ ap some (taken_row r org name token now same)),
                  )
              | inr early ↦ absurd (refused (rw early at e'))
            ]
      ]

  -- After one process has acquired a lease, and whatever calls other processes make that do not
  -- know its token, no process acquires the lease again while the term of its own request, counted
  -- from the first acquisition, has not passed; and the attempt changes nothing.
  pub acquire-acquire :
      (s s' : Store B) (org name token : String) (seconds : ℕ) (now : Instant) (calls : List Call)
      (seconds' : ℕ) (now' : Instant) (token' : String)
      → acquire_lease s org name seconds now token ≡ (s', some token)
      → All (IsForeign org name token now) calls
      → now' ≤ now + timedelta seconds'
      → acquire_lease (run s' calls) org name seconds' now' token' ≡ (run s' calls, none)
  acquire-acquire s s' org name token seconds now calls seconds' now' token' e foreign early =
      acquire-held (run s' calls) org name token now
        (run-IsHeld calls s' org name token now (acquire-IsHeld s org name token seconds now e).1
          foreign)
        seconds' now' token' early

  -- After another process has taken over a lease that ran out, its first holder can neither renew
  -- nor release it, whatever calls are made that do not know the new token.
  pub renew-take_over :
      (s s' : Store B) (org name token : String) (seconds : ℕ) (now : Instant) (calls : List Call)
      (old : String) (now' : Instant)
      → acquire_lease s org name seconds now token ≡ (s', some token)
      → All (IsForeign org name token now) calls
      → old ≢ token
      → (renew_lease (run s' calls) org name old now' ≡ (run s' calls, false))
        × (release_lease (run s' calls) org name old ≡ run s' calls)
  renew-take_over s s' org name token seconds now calls old now' e foreign other =
      let held =
        run-IsHeld calls s' org name token now (acquire-IsHeld s org name token seconds now e).1
          foreign in
      (
        renew-foreign _ org name token now held old now' other,
        release-foreign _ org name token now held old other,
      )

  -- The holder itself renews its lease, with the new time, and releases it; then it is free.
  pub renew-IsHeld :
      (s : Store B) (org name token : String) (since now : Instant)
      → IsHeld s org name token since
      → IsHeld (renew_lease s org name token now).0 org name token now
        × ((renew_lease s org name token now).1 ≡ true)
        × (lease_at (release_lease s org name token) org name ≡ none)
  unfolding renew_lease release_lease
  renew-IsHeld s org name token since now held =
      rw (held, renew_lease, release_lease)
        (rw (==_refl token) (
          Table.get-put_self extension_key _ _ s.workflow_records refl,
          refl,
          Table.get-remove_self extension_key _ s.workflow_records,
        ))
