-- ===== src/Prelude/Equality.antt =====
-- Python's `==` on the types that the program compares, as an instance argument.
use Prim.Native.Nat.{ℕ}
use Prim.Native.String.{String}
use mathlib.Core.Path.{◌≡◌, refl}
use mathlib.Core.Logic.{◌≢◌, ◌↔◌, ◌⊎◌, inl, inr}
use mathlib.Core.Bool.{Bool, true, false, ◌||◌}
use mathlib.Core.Option.{Option, none, some}
use mathlib.Core.List.{List, [], ◌∷◌, ◌++◌}
use native.Mathlib.Omega.{arith}
use text.Mathlib.Text.{◌==◌ as str_eq}
use text.Mathlib.TextEquality.{eq_iff}
use intelliq.Prelude.Lists.{all, All}
use intelliq.Prelude.Tests.{and_true, nat_beq, nat_beq_iff, Bool-cases}

pub record Eq {ℓ} (K : Type ℓ) : Type ℓ where
  pub beq : K → K → Bool
  pub beq_iff : (x y : K) → (beq x y ≡ true) ↔ (x ≡ y)

pub tests_differ : {b : Bool} → b ≡ false → b ≡ true → ⊥
tests_differ p q = cc

abbrev pub ◌==◌ {ℓ} : {K : Type ℓ} ⦃e : Eq K⦄ → K → K → Bool
◌==◌ ⦃e⦄ x y = e.beq x y

infix 50 ◌==◌
pub ==_iff {ℓ} : {A : Type ℓ} ⦃e : Eq A⦄ (a b : A) → ((a == b) ≡ true) ↔ (a ≡ b)
==_iff ⦃e⦄ = e.beq_iff

pub ==_refl {ℓ} : {A : Type ℓ} ⦃e : Eq A⦄ (a : A) → (a == a) ≡ true
==_refl ⦃e⦄ a = (e.beq_iff a a).1 refl

pub ==_ne {ℓ} : {A : Type ℓ} ⦃e : Eq A⦄ (a b : A) → a ≢ b → (a == b) ≡ false
==_ne ⦃e⦄ a b h = elim (Bool-cases (e.beq a b)) [
  | inl same ↦ absurd (h ((e.beq_iff a b).0 same))
  | inr other ↦ other
]

pub distinct {ℓ} : {A : Type ℓ} ⦃e : Eq A⦄ (a b : A) → (a == b) ≡ false → a ≢ b
distinct ⦃e⦄ a b h p = tests_differ h ((e.beq_iff a b).1 p)

-- A split on a comparison.
pub eq-cases {ℓ} : {A : Type ℓ} ⦃e : Eq A⦄ (a b : A) → (a ≡ b) ⊎ (a ≢ b)
eq-cases ⦃e⦄ a b = elim (Bool-cases (e.beq a b)) [
  | inl same ↦ inl ((e.beq_iff a b).0 same)
  | inr other ↦ inr (λ p. tests_differ other ((e.beq_iff a b).1 p))
]

instance abbrev pub string_eq : Eq String
string_eq = record { beq = str_eq; beq_iff = eq_iff }

instance abbrev pub nat_eq : Eq ℕ
nat_eq = record { beq = nat_beq; beq_iff = nat_beq_iff }

abbrev pub option_beq {ℓ} : {A : Type ℓ} → (A → A → Bool) → Option A → Option A → Bool
option_beq f none none = true
option_beq f none (some b) = false
option_beq f (some a) none = false
option_beq f (some a) (some b) = f a b

pub option_beq_iff {ℓ} :
    {A : Type ℓ} (e : Eq A) (a b : Option A) → (option_beq e.beq a b ≡ true) ↔ (a ≡ b)
option_beq_iff e none none = ground arith
option_beq_iff e none (some b) = ground arith
option_beq_iff e (some a) none = ground arith
option_beq_iff e (some a) (some b) = ground (arith, e.beq_iff a b)

instance abbrev pub option_eq {ℓ} : {A : Type ℓ} ⦃e : Eq A⦄ → Eq (Option A)
option_eq ⦃e⦄ = record { beq = option_beq e.beq; beq_iff = option_beq_iff e }

pub or_true : (b : Bool) → (b || true) ≡ true
or_true b = ground arith

module _ {ℓ} {A : Type ℓ} ⦃e : Eq A⦄ where
  -- `a in xs`
  unfoldable pub mem : A → List A → Bool
  mem a [] = false
  mem a (x ∷ xs) = (a == x) || mem a xs

  pub mem-append : (a : A) (xs ys : List A) → mem a (xs ++ ys) ≡ (mem a xs || mem a ys)
  unfolding mem
  mem-append a [] ys = refl
  mem-append a (x ∷ xs) ys = ground (arith, mem-append a xs ys)

  -- A test that holds of every item of a list holds of each member.
  pub all-mem :
      (p : A → Bool) (xs : List A) (a : A) → all p xs ≡ true → mem a xs ≡ true → p a ≡ true
  unfolding mem all
  all-mem p [] a h m = cc
  all-mem p (x ∷ xs) a h m = elim (eq-cases a x) [
    | inl same ↦ rw same (and_true (p x) (all p xs) h).0
    | inr other ↦ all-mem p xs a (and_true (p x) (all p xs) h).1 (rw (==_ne a x other) at m)
  ]

  pub mem-All {κ} : {P : A → Type κ} (xs : List A) → ((a : A) → mem a xs ≡ true → P a) → All P xs
  unfolding mem
  mem-All [] h = tt
  mem-All (x ∷ xs) h = (h x (rw (==_refl x)), mem-All xs (λ a m. h a (rw m (or_true (a == x)))))

-- A list without repeats.
abbrev pub NoRepeats : List String → Type 0
NoRepeats [] = Unit
NoRepeats (x ∷ xs) = (mem x xs ≡ false) × NoRepeats xs
