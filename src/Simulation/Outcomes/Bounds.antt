-- ===== src/Simulation/Outcomes/Bounds.antt =====
-- Where a quantile of the finishes lies.
use intelliq.Simulation.Sample.{sorted}
use intelliq.Simulation.Ranking.Order.Weak.{IsWeak}
use intelliq.Simulation.Ranking.Order.Ascending.{
  IsAscending, All-sorted, length-sorted, sorted-IsAscending,
}
use intelliq.Simulation.Outcomes.{
  item, present, Quantile, between, at_position, quantile_of, quantile_datetime,
}
use intelliq.Prelude.{
  some-injective, nat_eq, string_eq, [], ℕ, zero, suc, ◌≤◌, ◌<◌, ◌≡◌, refl, sym, ◌∙◌, subst, Option,
  some, List, ◌∷◌, arith, ltb, Bool-cases, length, All, ◌==◌, ◌+◌, ◌-◌, inl, inr, Bool, false,
}

abbrev less : ℕ → ℕ → Bool
less a b = ltb a b

ltb-IsWeak : IsWeak less
ltb-IsWeak = record { asym = λ a b h. ground arith; trans = λ a b c h k. ground arith }

-- An index in range finds an item, and a later index a later one.
item-IsFound : (n : ℕ) (xs : List ℕ) → n < length xs → (x : ℕ) × (item n xs ≡ some x)
unfolding item
item-IsFound n [] h = absurd (omega (arith, h))
item-IsFound zero (x ∷ xs) h = (x, refl)
item-IsFound (suc n) (x ∷ xs) h = item-IsFound n xs (omega (arith, h))

item-All : (P : ℕ → Type 0) (n : ℕ) (xs : List ℕ) {x : ℕ} → item n xs ≡ some x → All P xs → P x
unfolding item
item-All P n [] h a = cc
item-All P zero (x ∷ xs) h a = subst P (some-injective h) a.0
item-All P (suc n) (x ∷ xs) h a = item-All P n xs h a.1

below : {z y : ℕ} → less y z ≡ false → z ≤ y
below h = ground arith

item-le :
    (m n : ℕ) (xs : List ℕ) {x y : ℕ}
    → IsAscending less xs
    → m ≤ n
    → item m xs ≡ some x
    → item n xs ≡ some y
    → x ≤ y
unfolding item
item-le m n [] asc le h k = cc
item-le zero zero (z ∷ zs) asc le h k = omega (arith, some-injective (sym h ∙ k))
item-le zero (suc n) (z ∷ zs) {x} {y} asc le h k =
    subst (λ w. w ≤ y) (some-injective h) (below (item-All (λ w. less w z ≡ false) n zs k asc.0))
item-le (suc m) zero (z ∷ zs) asc le h k = absurd (omega (arith, le))
item-le (suc m) (suc n) (z ∷ zs) asc le h k = item-le m n zs asc.1 (omega (arith, le)) h k

-- What rounding a fraction of the gaps down and up gives.
pub record IsFraction (q : Quantile) : Type 0 where
  pub lower_le : (gaps : ℕ) → q.lower gaps ≤ q.upper gaps
  pub upper_le : (gaps : ℕ) → q.upper gaps ≤ gaps
  pub part_le : (gaps n : ℕ) → q.part gaps n ≤ n

-- A time between two bounds.
abbrev pub LiesWithin : ℕ → ℕ → Option ℕ → Type 0
LiesWithin lo hi found = (t : ℕ) × (found ≡ some t) × (lo ≤ t) × (t ≤ hi)

between-LiesWithin :
    (q : Quantile) (w : IsFraction q) (lo hi gaps : ℕ) {a b : ℕ} {found later : Option ℕ}
    → found ≡ some a
    → later ≡ some b
    → lo ≤ a
    → a ≤ b
    → b ≤ hi
    → LiesWithin lo hi (between q gaps found later)
between-LiesWithin q w lo hi gaps {a} {b} e k low le high =
    rw (e, k)
      (
        a + q.part gaps (b - a),
        refl,
        omega (arith, low),
        omega (arith, le, high, w.part_le gaps (b - a)),
      )

at_position-LiesWithin :
    (q : Quantile) (w : IsFraction q) (lo hi gaps : ℕ) (xs : List ℕ)
    → IsAscending less xs
    → gaps < length xs
    → All (λ t. lo ≤ t) xs
    → All (λ t. t ≤ hi) xs
    → LiesWithin lo hi (at_position q gaps xs)
at_position-LiesWithin q w lo hi gaps xs asc inside low high =
    let first =
      item-IsFound (q.lower gaps) xs (omega (arith, inside, w.lower_le gaps, w.upper_le gaps)) in
    let second = item-IsFound (q.upper gaps) xs (omega (arith, inside, w.upper_le gaps)) in
    elim (Bool-cases (q.lower gaps == q.upper gaps)) [
      | inl same ↦ rw same (
        first.0,
        first.1,
        item-All (λ t. lo ≤ t) _ xs first.1 low,
        item-All (λ t. t ≤ hi) _ xs first.1 high,
      )
      | inr apart ↦ rw apart (
          between-LiesWithin q w lo hi gaps first.1 second.1
            (item-All (λ t. lo ≤ t) _ xs first.1 low)
            (item-le (q.lower gaps) (q.upper gaps) xs asc (w.lower_le gaps) first.1 second.1)
            (item-All (λ t. t ≤ hi) _ xs second.1 high))
    ]

quantile_of-LiesWithin :
    (q : Quantile) (w : IsFraction q) (lo hi : ℕ) (xs : List ℕ)
    → IsAscending less xs
    → 0 < length xs
    → All (λ t. lo ≤ t) xs
    → All (λ t. t ≤ hi) xs
    → LiesWithin lo hi (quantile_of q xs)
unfolding quantile_of
quantile_of-LiesWithin q w lo hi [] asc some_left low high = absurd (omega (arith, some_left))
quantile_of-LiesWithin q w lo hi (x ∷ []) asc some_left low high = (x, refl, low.0, high.0)
quantile_of-LiesWithin q w lo hi (x ∷ y ∷ xs) asc some_left low high =
    at_position-LiesWithin q w lo hi (suc (length xs)) (x ∷ y ∷ xs) asc (omega arith) low high

-- A quantile of finishes of which one is known exists and lies between any bounds of the known
-- finishes, when `floor` and `ceil` round a position among the gaps and a part of a length of time
-- is no longer than it.
pub quantile_datetime-LiesWithin :
    (q : Quantile) (w : IsFraction q) (lo hi : ℕ) (finishes : List (Option ℕ))
    → 0 < length (present finishes)
    → All (λ t. lo ≤ t) (present finishes)
    → All (λ t. t ≤ hi) (present finishes)
    → LiesWithin lo hi (quantile_datetime q finishes)
unfolding quantile_datetime
quantile_datetime-LiesWithin q w lo hi finishes known low high =
    quantile_of-LiesWithin q w lo hi (sorted less (present finishes))
      (sorted-IsAscending less ltb-IsWeak (present finishes))
      (omega (arith, known, length-sorted less (present finishes)))
      (All-sorted less (λ t. lo ≤ t) (present finishes) low)
      (All-sorted less (λ t. t ≤ hi) (present finishes) high)
