-- ===== src/Store/Decisions.antt =====
-- The decision contracts of apps/api/src/app/persistence/store.py: `create_decision`,
-- `get_decision`, `get_decision_by_idempotency`. The table has the constraint
-- uq_decision_idempotency on (organization_id, idempotency_key).
use intelliq.Prelude.{
  ◌≡◌, refl, sym, ap, ◌∙◌, String, string_eq, Bool, true, false, ◌&&◌, ◌||◌, Option, none, some,
  List, [], ◌∷◌, ◌==◌, ==_refl, if◌then◌else◌, is_some, find?, Result, ok, err, inl, inr, arith,
  Bool-cases, ok-injective,
}
use intelliq.Prelude.Table
use intelliq.Store.Rows.{Instant, DecisionPayload, DecisionRow, Store, StoreError, integrity_error}

abbrev pub decision_key : {B : Type 0} → DecisionRow B → String
decision_key r = r.id

-- `payload` without its id, which the call draws.
pub record NewDecision (B : Type 0) : Type 0 where
  pub analysis_id : String
  pub strategy_id : String
  pub idempotency_key : String
  pub body : B

or_true : (b : Bool) → (b || true) ≡ true
or_true b = ground arith

or_false : (a b : Bool) → (a || b) ≡ false → (a ≡ false) × (b ≡ false)
or_false a b h = ground arith

module _ {B : Type 0} where
  abbrev pub has_idempotency : String → String → DecisionRow B → Bool
  has_idempotency org key r = (r.organization_id == org) && (r.idempotency_key == key)

  abbrev pub decision_payload : NewDecision B → String → DecisionPayload B
  decision_payload d id = record {
    id = id;
    analysis_id = d.analysis_id;
    strategy_id = d.strategy_id;
    idempotency_key = d.idempotency_key;
    body = d.body;
  }

  abbrev pub decision_row : String → String → NewDecision B → String → Instant → DecisionRow B
  decision_row org user d id now = record {
    id = id;
    organization_id = org;
    user_id = user;
    analysis_id = d.analysis_id;
    strategy_id = d.strategy_id;
    idempotency_key = d.idempotency_key;
    payload_json = decision_payload d id;
    created_at = now;
  }

  abbrev pub payload_of : Option (DecisionRow B) → Option (DecisionPayload B)
  payload_of none = none
  payload_of (some row) = some row.payload_json

  unfoldable pub get_decision_by_idempotency :
      Store B → String → String → Option (DecisionPayload B)
  get_decision_by_idempotency s org key =
      payload_of (find? (has_idempotency org key) s.decision_contracts)

  -- The primary key and the unique constraint, as the database checks them.
  violates : Store B → String → String → String → Bool
  violates s org key id =
      is_some (Table.get decision_key id s.decision_contracts)
      || is_some (find? (has_idempotency org key) s.decision_contracts)

  unfoldable pub create_decision :
      Store B
      → String
      → String
      → NewDecision B
      → String
      → Instant
      → Result StoreError (Store B × DecisionPayload B)
  unfolding violates
  create_decision s org user d id now =
      if violates s org d.idempotency_key id
      then err integrity_error
      else ok (
        record s {
          decision_contracts =
              Table.put decision_key (decision_row org user d id now) s.decision_contracts;
        },
        decision_payload d id,
      )

  abbrev pub visible : Option (DecisionRow B) → String → Option (DecisionPayload B)
  visible none org = none
  visible (some row) org = if row.organization_id == org then some row.payload_json else none

  unfoldable pub get_decision : Store B → String → String → Option (DecisionPayload B)
  get_decision s org id = visible (Table.get decision_key id s.decision_contracts) org

  -- A new row is appended, so the search goes through the old ones first.
  find?-put :
      (p : DecisionRow B → Bool) (r : DecisionRow B) (rows : List (DecisionRow B))
      → Table.get decision_key r.id rows ≡ none
      → find? p rows ≡ none
      → find? p (Table.put decision_key r rows) ≡ (if p r then some r else none)
  unfolding find? Table.put Table.get
  find?-put p r [] fresh h = refl
  find?-put p r (x ∷ xs) fresh h = elim (Bool-cases (x.id == r.id)) [
    | inl same ↦ absurd (taken (rw same at fresh))
    | inr other ↦ rw other (elim (Bool-cases (p x)) [
      | inl hit ↦ absurd (taken (rw hit at h))
      | inr miss ↦ rw miss (find?-put p r xs (rw other at fresh) (rw miss at h))
    ])
  ]
    where
      taken : {y : DecisionRow B} → ◌≡◌ {A = Option (DecisionRow B)} (some y) none → ⊥
      taken e = cc

  is_some-none : (o : Option (DecisionRow B)) → is_some o ≡ false → o ≡ none
  is_some-none none h = refl
  is_some-none (some r) h = cc

  -- What `create_decision` did if it returned.
  record Created (s : Store B) (org user : String) (d : NewDecision B) (id : String) (now : Instant)
      (s' : Store B) (p : DecisionPayload B) : Type 0 where
    rows :
        Table.put decision_key (decision_row org user d id now) s.decision_contracts
        ≡ s'.decision_contracts
    value : decision_payload d id ≡ p
    fresh : Table.get decision_key id s.decision_contracts ≡ none
    unused : find? (has_idempotency org d.idempotency_key) s.decision_contracts ≡ none

  create_decision-Created :
      (s : Store B) (org user : String) (d : NewDecision B) (id : String) (now : Instant)
      {s' : Store B} {p : DecisionPayload B}
      → create_decision s org user d id now ≡ ok (s', p)
      → Created s org user d id now s' p
  unfolding create_decision
  create_decision-Created s org user d id now {s'} {p} h =
      elim (Bool-cases (violates s org d.idempotency_key id)) [
        | inl bad ↦ absurd (refused (rw bad at h))
        | inr good ↦
            let both = ok-injective (rw good at h) in
            let (a, b) = or_false _ _ good in
            record {
              rows = ap (λ (x : Store B × DecisionPayload B). x.0.decision_contracts) both;
              value = ap (λ (x : Store B × DecisionPayload B). x.1) both;
              fresh = is_some-none _ a;
              unused = is_some-none _ b;
            }
      ]
    where
      refused :
          {e : StoreError} {r : Store B × DecisionPayload B}
          → ◌≡◌ {A = Result StoreError (Store B × DecisionPayload B)} (err e) (ok r)
          → ⊥
      refused e = cc

  -- A decision that is created is the one that its idempotency key names, and a second decision
  -- of the tenant under that key is refused, whatever else it says.
  pub create_decision-create_decision :
      (s : Store B) (org user user' : String) (d d' : NewDecision B) (id id' : String)
      (now now' : Instant) {s' : Store B} {p : DecisionPayload B}
      → create_decision s org user d id now ≡ ok (s', p)
      → d'.idempotency_key ≡ d.idempotency_key
      → (get_decision_by_idempotency s' org d.idempotency_key ≡ some p)
        × (create_decision s' org user' d' id' now' ≡ err integrity_error)
  unfolding create_decision get_decision_by_idempotency
  create_decision-create_decision s org user user' d d' id id' now now' {s'} {p} h same =
      let made = create_decision-Created s org user d id now h in
      let found : find? (has_idempotency org d.idempotency_key) s'.decision_contracts
          ≡ some (decision_row org user d id now) =
        ap (find? (has_idempotency org d.idempotency_key)) (sym made.rows)
        ∙ find?-put (has_idempotency org d.idempotency_key) (decision_row org user d id now)
            s.decision_contracts made.fresh made.unused
        ∙ rw (==_refl org, ==_refl d.idempotency_key) in
      (rw found (ap some made.value), rw (same, found, or_true))
