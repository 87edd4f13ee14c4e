-- ===== src/Store/Sessions.antt =====
-- The sessions of apps/api/src/app/persistence/store.py: `create_session`, `get_session`,
-- `update_session_identity` and `delete_session`, on the table of sessions. The permissions are a
-- value of the parameter `P`.
use intelliq.Store.Rows.{Instant}
use intelliq.Prelude.{
  nat_eq, string_eq, ℕ, String, ◌≡◌, refl, sym, ap, ◌∙◌, inl, inr, Bool, true, false, not, Option,
  none, some, List, if◌then◌else◌, Bool-cases, option_map, ◌==◌,
}
use intelliq.Prelude.Table

pub record SessionRecord (P : Type 0) : Type 0 where
  pub session_id : String
  pub user_id : String
  pub email : String
  pub verified : Bool
  pub organization_ids : List String
  pub permissions : P
  pub source_mode : String
  pub csrf_token : String

-- `verified` is stored as 0 or 1.
pub record SessionRow (P : Type 0) : Type 0 where
  pub id : String
  pub user_id : String
  pub email : String
  pub verified : ℕ
  pub organizations_json : List String
  pub permissions_json : P
  pub source_mode : String
  pub csrf_token : String
  pub created_at : Instant

-- The arguments of `update_session_identity`.
pub record Identity (P : Type 0) : Type 0 where
  pub user_id : String
  pub email : String
  pub verified : Bool
  pub organization_ids : List String
  pub permissions : P

-- `int(flag)`
abbrev pub int : Bool → ℕ
int true = 1
int false = 0

nonzero : (b : Bool) → not (int b == 0) ≡ b
nonzero true = refl
nonzero false = refl

module _ {P : Type 0} where
  abbrev pub session_key : SessionRow P → String
  session_key r = r.id

  -- `_session_record`
  abbrev pub session_record : SessionRow P → SessionRecord P
  session_record row = record {
    session_id = row.id;
    user_id = row.user_id;
    email = row.email;
    verified = not (row.verified == 0);
    organization_ids = row.organizations_json;
    permissions = row.permissions_json;
    source_mode = row.source_mode;
    csrf_token = row.csrf_token;
  }

  abbrev pub session_row : SessionRecord P → Instant → SessionRow P
  session_row r now = record {
    id = r.session_id;
    user_id = r.user_id;
    email = r.email;
    verified = int r.verified;
    organizations_json = r.organization_ids;
    permissions_json = r.permissions;
    source_mode = r.source_mode;
    csrf_token = r.csrf_token;
    created_at = now;
  }

  unfoldable pub create_session :
      List (SessionRow P) → SessionRecord P → Instant → Option (List (SessionRow P))
  create_session rows r now = Table.add session_key (session_row r now) rows

  unfoldable pub get_session : List (SessionRow P) → String → Option (SessionRecord P)
  get_session rows id = option_map session_record (Table.get session_key id rows)

  abbrev pub with_identity : SessionRow P → Identity P → SessionRow P
  with_identity row i = record row {
    user_id = i.user_id;
    email = i.email;
    verified = int i.verified;
    organizations_json = i.organization_ids;
    permissions_json = i.permissions;
  }

  unfoldable pub update_session_identity :
      List (SessionRow P) → String → Identity P → List (SessionRow P) × Option (SessionRecord P)
  update_session_identity rows id i = elim (Table.get session_key id rows) [
    | none ↦ (rows, none)
    | some row ↦ (
      Table.put session_key (with_identity row i) rows,
      some (session_record (with_identity row i)),
    )
  ]

  unfoldable pub delete_session : List (SessionRow P) → String → List (SessionRow P)
  delete_session rows id = Table.remove session_key id rows

  session_record-session_row :
      (r : SessionRecord P) (now : Instant) → session_record (session_row r now) ≡ r
  session_record-session_row r now = λ i. record {
    session_id = r.session_id;
    user_id = r.user_id;
    email = r.email;
    verified = nonzero r.verified i;
    organization_ids = r.organization_ids;
    permissions = r.permissions;
    source_mode = r.source_mode;
    csrf_token = r.csrf_token;
  }

  -- A created session reads back as the record that was passed, and every other session as before.
  pub get_session-create_session :
      (rows : List (SessionRow P)) (r : SessionRecord P) (now : Instant)
      {rows' : List (SessionRow P)}
      → create_session rows r now ≡ some rows'
      → (id : String)
      → get_session rows' id ≡ (if r.session_id == id then some r else get_session rows id)
  unfolding create_session get_session
  get_session-create_session rows r now {rows'} h id =
      let (_, kept) = Table.add-some session_key (session_row r now) rows h in
      ap (λ (x : List (SessionRow P)). option_map session_record (Table.get session_key id x))
        (sym kept)
      ∙ ap (option_map session_record) (Table.get-put session_key id (session_row r now) rows)
      ∙ elim (Bool-cases (r.session_id == id)) [
        | inl p ↦ rw p (ap some (session_record-session_row r now))
        | inr p ↦ rw p
      ]

  -- An update of a session's identity returns the session with its id, its CSRF token and its source
  -- mode as they were, and a deletion removes that session and no other.
  pub get_session-update_session_identity :
      (rows : List (SessionRow P)) (id : String) (i : Identity P) (r : SessionRecord P)
      → get_session rows id ≡ some r
      → ((update_session_identity rows id i).1
          ≡ some (record r {
            user_id = i.user_id;
            email = i.email;
            verified = i.verified;
            organization_ids = i.organization_ids;
            permissions = i.permissions;
          }))
        × ((j : String)
            → get_session (delete_session rows id) j
              ≡ (if id == j then none else get_session rows j))
  unfolding update_session_identity get_session delete_session
  get_session-update_session_identity rows id i r h = (
    updated (Table.get session_key id rows) h,
    λ j.
        ap (option_map session_record) (Table.get-remove session_key j id rows)
        ∙ elim (Bool-cases (id == j)) [ inl p ↦ rw p | inr p ↦ rw p ],
  )
    where
      same : {x y : SessionRecord P} → ◌≡◌ {A = Option (SessionRecord P)} (some x) (some y) → x ≡ y
      same p = cc

      none_found : ◌≡◌ {A = Option (SessionRecord P)} none (some r) → ⊥
      none_found p = cc

      updated :
          (o : Option (SessionRow P))
          → option_map session_record o ≡ some r
          → (elim o as (λ o'. List (SessionRow P) × Option (SessionRecord P)) [
            | none ↦ (rows, none)
            | some row ↦ (
              Table.put session_key (with_identity row i) rows,
              some (session_record (with_identity row i)),
            )
          ]).1
            ≡ some (record r {
              user_id = i.user_id;
              email = i.email;
              verified = i.verified;
              organization_ids = i.organization_ids;
              permissions = i.permissions;
            })
      updated none p = absurd (none_found p)
      updated (some row) p = λ k. some (record (same p k) {
        user_id = i.user_id;
        email = i.email;
        verified = nonzero i.verified k;
        organization_ids = i.organization_ids;
        permissions = i.permissions;
      })
