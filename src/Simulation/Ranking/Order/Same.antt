-- ===== src/Simulation/Ranking/Order/Same.antt =====
-- Lists whose items are compared by a test of sameness, and the members of a list.
use intelliq.Simulation.Ranking.Order.{same_items}
use intelliq.Simulation.Ranking.Order.Distinct.{IsDistinct}
use intelliq.Prelude.{
  [], string_eq, nat_eq, ◌≡◌, refl, sym, ap, ◌∙◌, inl, inr, Bool, true, false, List, ◌∷◌, ◌++◌, map,
  arith, Bool-cases, any, Member, All-at, Eq, tests_differ, ◌==◌, ==_iff, ==_ne,
}

pub Member-append : {A : Type 0} (a : A) (xs ys : List A) → Member a xs → Member a (xs ++ ys)
Member-append a [] ys m = absurd m
Member-append a (x ∷ xs) ys (inl here) = inl here
Member-append a (x ∷ xs) ys (inr later) = inr (Member-append a xs ys later)

pub Member-last : {A : Type 0} (xs : List A) (a : A) → Member a (xs ++ a ∷ [])
Member-last [] a = inl refl
Member-last (x ∷ xs) a = inr (Member-last xs a)

pub Member-map :
    {A B : Type 0} (g : A → B) (a : A) (xs : List A) → Member a xs → Member (g a) (map g xs)
Member-map g a [] m = absurd m
Member-map g a (x ∷ xs) (inl here) = inl (ap g here)
Member-map g a (x ∷ xs) (inr later) = inr (Member-map g a xs later)

pub any-Member :
    {A : Type 0} (p : A → Bool) (xs : List A)
    → any p xs ≡ true
    → (a : A) × Member a xs × (p a ≡ true)
unfolding any
any-Member p [] h = cc
any-Member p (x ∷ xs) h = elim (Bool-cases (p x)) [
  | inl holds ↦ (x, inl refl, holds)
  | inr fails ↦ let rest = any-Member p xs (ground (arith, fails)) in (rest.0, inr rest.1, rest.2)
]

-- Two members of a list without repeats that are the same are one.
pub distinct_same :
    {A : Type 0} (same : A → A → Bool) (xs : List A) {a b : A}
    → ((x y : A) → same x y ≡ same y x)
    → IsDistinct same xs
    → Member a xs
    → Member b xs
    → same a b ≡ true
    → a ≡ b
distinct_same same [] sym_same d m n h = absurd m
distinct_same same (x ∷ xs) sym_same d (inl p) (inl q) h = p ∙ sym q
distinct_same same (x ∷ xs) {a} {b} sym_same d (inl p) (inr n) h = absurd (
    differ (All-at (λ y. same y x ≡ false) xs d.0 n)
      (sym_same b x ∙ ap (λ y. same y b) (sym p) ∙ h))
  where
    differ : {t : Bool} → t ≡ false → t ≡ true → ⊥
    differ p q = cc
distinct_same same (x ∷ xs) {a} {b} sym_same d (inr m) (inl q) h =
    absurd (differ (All-at (λ y. same y x ≡ false) xs d.0 m) (ap (λ y. same a y) (sym q) ∙ h))
  where
    differ : {t : Bool} → t ≡ false → t ≡ true → ⊥
    differ p q = cc
distinct_same same (x ∷ xs) sym_same d (inr m) (inr n) h = distinct_same same xs sym_same d.1 m n h

pub same_items-symmetric :
    {A : Type 0} (same : A → A → Bool)
    → ((a b : A) → same a b ≡ same b a)
    → (xs ys : List A) → same_items same xs ys ≡ same_items same ys xs
unfolding same_items
same_items-symmetric same s [] [] = refl
same_items-symmetric same s [] (y ∷ ys) = refl
same_items-symmetric same s (x ∷ xs) [] = refl
same_items-symmetric same s (x ∷ xs) (y ∷ ys) = rw (s x y, same_items-symmetric same s xs ys) refl

pub ==-symmetric : {K : Type 0} ⦃e : Eq K⦄ (a b : K) → (a == b) ≡ (b == a)
==-symmetric a b = elim (Bool-cases (a == b)) [
  | inl same ↦ same ∙ sym ((==_iff b a).1 (sym ((==_iff a b).0 same)))
  | inr other ↦ other ∙ sym (==_ne b a (λ q. tests_differ other ((==_iff a b).1 (sym q))))
]
