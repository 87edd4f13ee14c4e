-- ===== src/Store/Leases/Calls.antt =====
-- Any process of any tenant calling the three lease methods, one transaction after the other.
use intelliq.Prelude.{ℕ, ◌+◌, ◌≤◌, ◌≡◌, ◌≢◌, String, Option, some, List, [], ◌∷◌, string_eq}
use intelliq.Prelude.Table
use intelliq.Store.Rows.{Instant, timedelta, key_eq, ExtensionRow, extension_key, Store}
use intelliq.Store.Leases.{lease_key, lease_row, acquire_lease, renew_lease, release_lease}

pub data Call : Type 0 where
  acquires : (org name : String) (seconds : ℕ) (now : Instant) (token : String) → Call
  renews : (org name token : String) (now : Instant) → Call
  releases : (org name token : String) → Call

module _ {B : Type 0} where
  unfoldable pub step : Store B → Call → Store B
  step s (acquires org name seconds now token) = (acquire_lease s org name seconds now token).0
  step s (renews org name token now) = (renew_lease s org name token now).0
  step s (releases org name token) = release_lease s org name token

  unfoldable pub run : Store B → List Call → Store B
  run s [] = s
  run s (c ∷ cs) = run (step s c) cs

  -- The row that stands for the lease `name` of a tenant.
  abbrev pub lease_at : Store B → String → String → Option (ExtensionRow B)
  lease_at s org name = Table.get extension_key (lease_key org name) s.workflow_records

  -- The lease is held by whoever has `token`, and was last acquired or renewed at `since`.
  abbrev pub IsHeld : Store B → String → String → String → Instant → Type 0
  IsHeld s org name token since = lease_at s org name ≡ some (lease_row org name token since)

-- A call by a process that does not know `token`; one that asks for the same lease stands within
-- the term that it asks for, counted from `since`.
abbrev pub IsForeign : String → String → String → Instant → Call → Type 0
IsForeign org name token since (acquires o n seconds now t) =
    (t ≢ token) × (lease_key o n ≡ lease_key org name → now ≤ since + timedelta seconds)
IsForeign org name token since (renews o n t now) = t ≢ token
IsForeign org name token since (releases o n t) = t ≢ token
