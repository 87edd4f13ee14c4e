-- ===== src/Execution/Readback.antt =====
-- apps/api/src/app/services/execution.py: the comparison of an upstream readback with what was
-- expected. A document is a dictionary of JSON values, whose texts may be timestamps; what is no
-- text is a value of the parameter `V`, on which `==` between values of one type is an instance.
pub mod Laws
use intelliq.Prelude.{
  ℕ, ◌≡◌, ◌↔◌, String, string_eq, nat_eq, Bool, true, false, not, ◌&&◌, ◌||◌, Option, none, some,
  List, [], ◌∷◌, ◌++◌, map, arith, Eq, ◌==◌, ==_iff, mem, if◌then◌else◌,
}
use intelliq.Prelude.Text.{codes, codes_beq, strip, lower, drop_code, ends_with}

-- A `datetime`: its wall time, and for an aware one the same instant in UTC, in microseconds.
pub data DateTime : Type 0 where
  naive : ℕ → DateTime
  aware : (wall utc : ℕ) → DateTime

-- The parser and the printer of Python's `datetime`, over code points: `datetime.fromisoformat`
-- with `none` for a ValueError, and `isoformat(timespec="microseconds")` of a time with no zone
-- and of one in UTC.
pub record Iso : Type 0 where
  pub fromisoformat : List ℕ → Option DateTime
  pub naive_isoformat : ℕ → List ℕ
  pub utc_isoformat : ℕ → List ℕ

-- A value of a document.
pub data Value (V : Type 0) : Type 0 where
  text : List ℕ → Value V
  other : V → Value V

abbrev pub value_beq : {V : Type 0} ⦃e : Eq V⦄ → Value V → Value V → Bool
value_beq (text s) (text t) = codes_beq s t
value_beq (text s) (other w) = false
value_beq (other v) (text t) = false
value_beq ⦃e⦄ (other v) (other w) = e.beq v w

abbrev pub Fields : Type 0 → Type 0
Fields V = List (String × Value V)

module _ {V : Type 0} where
  -- `fields.get(key)`, and `key in fields`
  unfoldable pub lookup : String → Fields V → Option (Value V)
  lookup k [] = none
  lookup k ((j, v) ∷ fs) = let rest = lookup k fs in if j == k then some v else rest

abbrev pub is_empty : List String → Bool
is_empty [] = true
is_empty (x ∷ xs) = false

-- `_timestamp_field`
unfoldable pub timestamp_field : String → Bool
timestamp_field field =
    let name = lower (drop_code b'_' (codes field)) in
    ends_with name (codes "at")
    || ends_with name (codes "date")
    || ends_with name (codes "timestamp")

-- A trailing "Z" or "z" becomes "+00:00".
unfoldable pub with_offset : List ℕ → List ℕ
with_offset [] = []
with_offset (c ∷ []) = if c == b'Z' || c == b'z' then codes "+00:00" else c ∷ []
with_offset (c ∷ d ∷ cs) = c ∷ with_offset (d ∷ cs)

module _ (iso : Iso) {V : Type 0} where
  -- `_parse_timestamp`
  unfoldable pub parse_timestamp : Value V → Option DateTime
  parse_timestamp (text s) = iso.fromisoformat (with_offset (strip s))
  parse_timestamp (other v) = none

  abbrev pub normalized : Value V → Option DateTime → Value V
  normalized value none = value
  normalized value (some (naive wall)) = text (codes "naive:" ++ iso.naive_isoformat wall)
  normalized value (some (aware wall utc)) = text (codes "aware:" ++ iso.utc_isoformat utc)

  unfoldable pub normalize_timestamp : Value V → Value V
  unfolding parse_timestamp
  normalize_timestamp value = normalized value (parse_timestamp value)

  -- The two sides that `readback_field_mismatches` compares.
  unfoldable pub comparable : String → Value V → Value V
  comparable field value = if timestamp_field field then normalize_timestamp value else value

-- `dict.fromkeys(fields)`: the first of each.
unfoldable pub fromkeys : List String → List String → List String
fromkeys seen [] = []
fromkeys seen (f ∷ fs) = elim (mem f seen) [
  | true ↦ fromkeys seen fs
  | false ↦ f ∷ fromkeys (f ∷ seen) fs
]

abbrev pub keys : {V : Type 0} → Fields V → List String
keys [] = []
keys ((k, v) ∷ fs) = k ∷ keys fs

abbrev pub requested : {V : Type 0} → Option (List String) → Fields V → List String
requested none expected = fromkeys [] (keys expected)
requested (some fields) expected = fromkeys [] fields

module _ (iso : Iso) {V : Type 0} ⦃e : Eq V⦄ where
  -- The test of one field.
  abbrev pub agrees : String → Option (Value V) → Option (Value V) → Bool
  agrees field none actual = false
  agrees field (some x) none = false
  agrees field (some x) (some y) = value_beq (comparable iso field x) (comparable iso field y)

  unfoldable pub mismatches : Fields V → Fields V → List String → List String
  mismatches expected actual [] = []
  mismatches expected actual (f ∷ fs) =
      let rest = mismatches expected actual fs in
      if agrees f (lookup f expected) (lookup f actual) then rest else f ∷ rest

  unfoldable pub readback_field_mismatches :
      Fields V → Fields V → Option (List String) → List String
  unfolding mismatches
  readback_field_mismatches expected actual fields =
      mismatches expected actual (requested fields expected)

  unfoldable pub compare_readback_fields : Fields V → Fields V → Option (List String) → Bool
  unfolding readback_field_mismatches
  compare_readback_fields expected actual fields =
      is_empty (readback_field_mismatches expected actual fields)

pub data ReconciliationStatus : Type 0 where
  applied unchanged conflict : ReconciliationStatus

module _ (iso : Iso) {V : Type 0} ⦃e : Eq V⦄ where
  abbrev pub classify : Fields V → Fields V → Fields V → List String → ReconciliationStatus
  classify before desired readback [] = conflict
  classify before desired readback (f ∷ fs) =
      if compare_readback_fields iso before readback (some (f ∷ fs))
      then unchanged
      else if compare_readback_fields iso desired readback (some (f ∷ fs))
      then applied
      else conflict

  unfoldable pub classify_reconciliation :
      Fields V → Fields V → Fields V → Option (List String) → ReconciliationStatus
  classify_reconciliation before desired readback fields =
      classify before desired readback (requested fields desired)
