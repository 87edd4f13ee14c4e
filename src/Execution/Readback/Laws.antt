-- ===== src/Execution/Readback/Laws.antt =====
-- What a comparison of a readback says.
use intelliq.Prelude.{
  ◌≡◌, ◌↔◌, refl, sym, ◌∙◌, String, string_eq, Bool, true, false, not, ◌&&◌, ◌||◌, some, none,
  Option, List, ℕ, ap, ◌⊎◌, ◌++◌, [], ◌∷◌, inl, inr, arith, Eq, ◌==◌, ==_refl, ==_ne, eq-cases, mem,
  Bool-cases, tests_differ,
}
use intelliq.Prelude.Text.{codes, codes_beq_iff}
use intelliq.Execution.Readback.{
  DateTime, naive, aware, Value, text, other, value_beq, timestamp_field, parse_timestamp,
  normalized, normalize_timestamp, comparable, Iso, Fields, lookup, agrees, mismatches, requested,
  fromkeys, is_empty, compare_readback_fields, readback_field_mismatches, classify,
  classify_reconciliation, applied,
}

and_false : (b : Bool) → (b && false) ≡ false
and_false b = ground arith

and_true_right : (b : Bool) → (b && true) ≡ b
and_true_right b = ground arith

-- `dict.fromkeys` keeps the members of its argument.
mem-fromkeys :
    (a : String) (seen fs : List String) → mem a (fromkeys seen fs) ≡ (mem a fs && not (mem a seen))
unfolding mem fromkeys
mem-fromkeys a seen [] = refl
mem-fromkeys a seen (f ∷ fs) = elim (Bool-cases (mem f seen)) [
  | inl old ↦
      rw (old, fromkeys)
        (mem-fromkeys a seen fs ∙ elim (eq-cases a f) [
          | inl same ↦ rw (same, old, ==_refl f) (and_false (mem f fs))
          | inr apart ↦ rw (==_ne a f apart)
        ])
  | inr new ↦
      rw (new, fromkeys)
        (rw (mem-fromkeys a (f ∷ seen) fs) (elim (eq-cases a f) [
          | inl same ↦ rw (same, new, ==_refl f)
          | inr apart ↦ rw (==_ne a f apart)
        ]))
]

module _ (iso : Iso) {V : Type 0} ⦃e : Eq V⦄ (expected actual : Fields V) where
  abbrev pub Agrees : String → Type 0
  Agrees f = agrees iso f (lookup f expected) (lookup f actual) ≡ true

  mismatches-none :
      (fs : List String)
      → is_empty (mismatches iso expected actual fs) ≡ true
      → (f : String) → mem f fs ≡ true
      → Agrees f
  unfolding mismatches mem
  mismatches-none [] h f m = cc
  mismatches-none (x ∷ fs) h f m =
      elim (Bool-cases (agrees iso x (lookup x expected) (lookup x actual))) [
        | inl good ↦ elim (eq-cases f x) [
          | inl same ↦ rw same good
          | inr apart ↦ mismatches-none fs (rw good at h) f (rw (==_ne f x apart) at m)
        ]
        | inr bad ↦ absurd (tests_differ refl (rw bad at h))
      ]

  none-mismatches :
      (fs : List String)
      → ((f : String) → mem f fs ≡ true → Agrees f)
      → is_empty (mismatches iso expected actual fs) ≡ true
  unfolding mismatches mem
  none-mismatches [] h = refl
  none-mismatches (x ∷ fs) h =
      rw (h x (rw (==_refl x))) (none-mismatches fs (λ f m. h f (later f x (mem f fs) m)))
    where
      later : (f y : String) (b : Bool) → b ≡ true → ((f == y) || b) ≡ true
      later f y b p = ground arith

mem-requested :
    {V : Type 0} (f : String) (fields : List String) (expected : Fields V)
    → mem f (requested (some fields) expected) ≡ mem f fields
unfolding mem
mem-requested f fields expected = mem-fromkeys f [] fields ∙ and_true_right (mem f fields)

module _ (iso : Iso) {V : Type 0} ⦃e : Eq V⦄ where
  -- The comparison is the test of every requested field.
  pub compare_readback_fields-agrees :
      (expected actual : Fields V) (fields : List String)
      → (compare_readback_fields iso expected actual (some fields) ≡ true) ↔ (
          (f : String)
          → mem f fields ≡ true
          → agrees iso f (lookup f expected) (lookup f actual) ≡ true)
  unfolding compare_readback_fields readback_field_mismatches
  compare_readback_fields-agrees expected actual fields = (
    λ h f m. mismatches-none iso expected actual _ h f (mem-requested f fields expected ∙ m),
    λ h.
        none-mismatches iso expected actual _
          (λ f m. h f (sym (mem-requested f fields expected) ∙ m)),
  )

  classified :
      (before desired readback : Fields V) (fs : List String)
      → classify iso before desired readback fs ≡ applied
      → (compare_readback_fields iso desired readback (some fs) ≡ true)
        × (compare_readback_fields iso before readback (some fs) ≡ false)
  classified before desired readback [] h = cc
  classified before desired readback (f ∷ fs) h = ground arith

  -- A write is classified as applied only if every requested field reads back as desired and the
  -- readback differs from what was there before the write.
  pub classify_reconciliation-applied :
      (before desired readback : Fields V) (fields : List String)
      → classify_reconciliation iso before desired readback (some fields) ≡ applied
      → ((f : String)
          → mem f fields ≡ true
          → agrees iso f (lookup f desired) (lookup f readback) ≡ true)
        × ¬ (
            (f : String)
            → mem f fields ≡ true
            → agrees iso f (lookup f before) (lookup f readback) ≡ true)
  unfolding classify_reconciliation
  classify_reconciliation-applied before desired readback fields h =
      let (met, moved) = classified before desired readback (requested (some fields) desired) h in
      (
        λ f m.
            (compare_readback_fields-agrees desired readback _).0 met f
              (mem-requested f fields desired ∙ m),
        λ same. tests_differ moved (
            (compare_readback_fields-agrees before readback _).1
              (λ f m. same f (sym (mem-requested f fields desired) ∙ m))),
      )

nothing : {A : Type 0} {x : A} → ◌≡◌ {A = Option A} none (some x) → ⊥
nothing p = cc

some-value : {A : Type 0} {x y : A} → ◌≡◌ {A = Option A} (some x) (some y) → x ≡ y
some-value p = cc

text-codes : {V : Type 0} {s t : List ℕ} → ◌≡◌ {A = Value V} (text s) (text t) → s ≡ t
text-codes p = cc

value_beq_iff : {V : Type 0} ⦃e : Eq V⦄ (x y : Value V) → (value_beq x y ≡ true) ↔ (x ≡ y)
value_beq_iff (text s) (text t) =
    (λ h. ap text ((codes_beq_iff s t).0 h), λ p. (codes_beq_iff s t).1 (text-codes p))
value_beq_iff (text s) (other w) = (λ h. cc, λ p. cc)
value_beq_iff (other v) (text t) = (λ h. cc, λ p. cc)
value_beq_iff ⦃e⦄ (other v) (other w) = ground (arith, e.beq_iff v w)

-- `isoformat` tells instants apart.
pub record IsPrinter (iso : Iso) : Type 0 where
  pub naive_apart : (a b : ℕ) → iso.naive_isoformat a ≡ iso.naive_isoformat b → a ≡ b
  pub utc_apart : (a b : ℕ) → iso.utc_isoformat a ≡ iso.utc_isoformat b → a ≡ b

-- The same wall time with no zone, or the same instant.
abbrev pub SameMoment : DateTime → DateTime → Type 0
SameMoment (naive a) (naive b) = a ≡ b
SameMoment (aware wall utc) (aware wall' utc') = utc ≡ utc'
SameMoment (naive a) (aware wall utc) = ⊥
SameMoment (aware wall utc) (naive a) = ⊥

module _ (iso : Iso) (printer : IsPrinter iso) {V : Type 0} where
  -- Two values with what they stand for as timestamps. A value that is no timestamp is compared as
  -- it is, also with the normal form of one.
  abbrev pub SameTime : Value V → Value V → Option DateTime → Option DateTime → Type 0
  SameTime x y (some d) (some d') = SameMoment d d'
  SameTime x y (some d) none = normalized iso x (some d) ≡ y
  SameTime x y none (some d') = x ≡ normalized iso y (some d')
  SameTime x y none none = x ≡ y

  moments :
      (x y : Value V) (d d' : DateTime)
      → (normalized iso x (some d) ≡ normalized iso y (some d')) ↔ SameMoment d d'
  moments x y (naive a) (naive b) = (
    λ p. printer.naive_apart a b (drop_seven (text-codes p)),
    λ p. ap (λ n. text (codes "naive:" ++ iso.naive_isoformat n)) p,
  )
    where
      drop_seven :
          {s t : List ℕ} → ◌≡◌ {A = List ℕ} (codes "naive:" ++ s) (codes "naive:" ++ t) → s ≡ t
      drop_seven p = cc
  moments x y (naive a) (aware wall utc) = (λ p. absurd (differ (text-codes p)), λ p. absurd p)
    where
      differ : {s t : List ℕ} → ◌≡◌ {A = List ℕ} (codes "naive:" ++ s) (codes "aware:" ++ t) → ⊥
      differ p = ground arith
  moments x y (aware wall utc) (naive a) = (λ p. absurd (differ (text-codes p)), λ p. absurd p)
    where
      differ : {s t : List ℕ} → ◌≡◌ {A = List ℕ} (codes "aware:" ++ s) (codes "naive:" ++ t) → ⊥
      differ p = ground arith
  moments x y (aware wall utc) (aware wall' utc') = (
    λ p. printer.utc_apart utc utc' (drop_seven (text-codes p)),
    λ p. ap (λ n. text (codes "aware:" ++ iso.utc_isoformat n)) p,
  )
    where
      drop_seven :
          {s t : List ℕ} → ◌≡◌ {A = List ℕ} (codes "aware:" ++ s) (codes "aware:" ++ t) → s ≡ t
      drop_seven p = cc

  normalized_iff :
      (x y : Value V) (d d' : Option DateTime)
      → (normalized iso x d ≡ normalized iso y d') ↔ SameTime x y d d'
  normalized_iff x y (some d) (some d') = moments x y d d'
  normalized_iff x y (some d) none = (λ p. p, λ p. p)
  normalized_iff x y none (some d') = (λ p. p, λ p. p)
  normalized_iff x y none none = (λ p. p, λ p. p)

  -- Two values of a field: the same, or for a field of timestamps the same moment.
  abbrev pub SameValue : String → Value V → Value V → Type 0
  SameValue field x y =
      ((timestamp_field field ≡ false) × (x ≡ y))
      ⊎ ((timestamp_field field ≡ true)
          × SameTime x y (parse_timestamp iso x) (parse_timestamp iso y))

  comparable_iff :
      (field : String) (x y : Value V)
      → (comparable iso field x ≡ comparable iso field y) ↔ SameValue field x y
  unfolding comparable normalize_timestamp
  comparable_iff field x y =
      let times = normalized_iff x y (parse_timestamp iso x) (parse_timestamp iso y) in
      elim (Bool-cases (timestamp_field field)) [
        | inl timed ↦ rw timed (
          λ p. inr (refl, times.0 p),
          λ h. elim h [ inl bad ↦ absurd (tests_differ bad.0 refl) | inr same ↦ times.1 same.1 ],
        )
        | inr plain ↦ rw plain (
          λ p. inl (refl, p),
          λ h. elim h [ inl same ↦ same.1 | inr bad ↦ absurd (tests_differ refl bad.0) ],
        )
      ]

  module _ ⦃e : Eq V⦄ where
    agrees_iff :
        (field : String) (a b : Option (Value V))
        → (agrees iso field a b ≡ true)
          ↔ ((x : Value V) × (y : Value V) × (a ≡ some x) × (b ≡ some y) × SameValue field x y)
    agrees_iff field none b = (λ p. cc, λ h. absurd (nothing h.2))
    agrees_iff field (some x) none = (λ p. cc, λ h. absurd (nothing h.3))
    agrees_iff field (some x) (some y) = (
      λ p. (x, y, refl, refl, (comparable_iff field x y).0 ((value_beq_iff _ _).0 p)),
      λ h.
          let (x', y', p, q, same) = h in
          (value_beq_iff (comparable iso field x) (comparable iso field y)).1
            (rw (some-value p, some-value q) ((comparable_iff field x' y').1 same)),
    )

    -- The comparison holds exactly when every requested field is present on both sides with the same
    -- value, timestamps being compared by the instant or the wall time that they stand for; a value
    -- that is no timestamp is compared as it is. `isoformat` gives different texts for different
    -- instants and for different wall times.
    pub compare_readback_fields_iff :
        (expected actual : Fields V) (fields : List String)
        → (compare_readback_fields iso expected actual (some fields) ≡ true) ↔ (
            (f : String)
            → mem f fields ≡ true
            → (x : Value V) × (y : Value V) × (lookup f expected ≡ some x)
              × (lookup f actual ≡ some y)
              × SameValue f x y)
    compare_readback_fields_iff expected actual fields =
        let tests = compare_readback_fields-agrees iso expected actual fields in
        (
          λ h f m. (agrees_iff f (lookup f expected) (lookup f actual)).0 (tests.0 h f m),
          λ h. tests.1 (λ f m. (agrees_iff f (lookup f expected) (lookup f actual)).1 (h f m)),
        )
