-- ===== src/Simulation/Ranking/Order/Distinct.antt =====
-- What the loop that skips what was seen keeps.
use intelliq.Simulation.Ranking.Order.Ascending.{IsAscending}
use intelliq.Simulation.Ranking.Order.{keep_distinct}
use intelliq.Prelude.{
  [], ◌≡◌, refl, ◌⊎◌, inl, inr, Bool, true, false, ◌||◌, List, ◌∷◌, arith, Bool-cases, any, All,
  All-map, Member, subst, sym,
}

module _ {A : Type 0} (same : A → A → Bool) where
  keep-old :
      (seen : List A) (x : A) (xs : List A)
      → any (same x) seen ≡ true
      → keep_distinct same seen (x ∷ xs) ≡ keep_distinct same seen xs
  unfolding keep_distinct
  keep-old seen x xs h = rw (h, keep_distinct) refl

  keep-fresh :
      (seen : List A) (x : A) (xs : List A)
      → any (same x) seen ≡ false
      → keep_distinct same seen (x ∷ xs) ≡ x ∷ keep_distinct same (x ∷ seen) xs
  unfolding keep_distinct
  keep-fresh seen x xs h = rw (h, keep_distinct) refl

  pub keep_distinct-All :
      (P : A → Type 0) (seen xs : List A) → All P xs → All P (keep_distinct same seen xs)
  unfolding keep_distinct
  keep_distinct-All P seen [] h = tt
  keep_distinct-All P seen (x ∷ xs) h = elim (Bool-cases (any (same x) seen)) [
    | inl old ↦ rw (keep-old seen x xs old) (keep_distinct-All P seen xs h.1)
    | inr fresh ↦ rw (keep-fresh seen x xs fresh) (h.0, keep_distinct-All P (x ∷ seen) xs h.1)
  ]

  -- No later item is the same as an earlier one.
  abbrev pub IsDistinct : List A → Type 0
  IsDistinct [] = Unit
  IsDistinct (x ∷ xs) = All (λ y. same y x ≡ false) xs × IsDistinct xs

  keep_distinct-seen :
      (seen xs : List A) → All (λ y. any (same y) seen ≡ false) (keep_distinct same seen xs)
  unfolding keep_distinct any
  keep_distinct-seen seen [] = tt
  keep_distinct-seen seen (x ∷ xs) = elim (Bool-cases (any (same x) seen)) [
    | inl old ↦ rw (keep-old seen x xs old) (keep_distinct-seen seen xs)
    | inr fresh ↦ rw (keep-fresh seen x xs fresh) (
      fresh,
      All-map (λ y h. or_false (same y x) (any (same y) seen) h) (keep_distinct same (x ∷ seen) xs)
          (keep_distinct-seen (x ∷ seen) xs),
    )
  ]
    where
      or_false : (a b : Bool) → (a || b) ≡ false → b ≡ false
      or_false a b h = ground arith

  pub keep_distinct-IsDistinct : (seen xs : List A) → IsDistinct (keep_distinct same seen xs)
  unfolding keep_distinct any
  keep_distinct-IsDistinct seen [] = tt
  keep_distinct-IsDistinct seen (x ∷ xs) = elim (Bool-cases (any (same x) seen)) [
    | inl old ↦ rw (keep-old seen x xs old) (keep_distinct-IsDistinct seen xs)
    | inr fresh ↦ rw (keep-fresh seen x xs fresh) (
      All-map (λ y h. or_false (same y x) (any (same y) seen) h) (keep_distinct same (x ∷ seen) xs)
          (keep_distinct-seen (x ∷ seen) xs),
      keep_distinct-IsDistinct (x ∷ seen) xs,
    )
  ]
    where
      or_false : (a b : Bool) → (a || b) ≡ false → a ≡ false
      or_false a b h = ground arith

  pub keep_distinct-IsAscending :
      (lt : A → A → Bool) (seen xs : List A)
      → IsAscending lt xs
      → IsAscending lt (keep_distinct same seen xs)
  unfolding keep_distinct
  keep_distinct-IsAscending lt seen [] h = tt
  keep_distinct-IsAscending lt seen (x ∷ xs) h = elim (Bool-cases (any (same x) seen)) [
    | inl old ↦ rw (keep-old seen x xs old) (keep_distinct-IsAscending lt seen xs h.1)
    | inr fresh ↦ rw (keep-fresh seen x xs fresh) (
      keep_distinct-All (λ y. lt y x ≡ false) (x ∷ seen) xs h.0,
      keep_distinct-IsAscending lt (x ∷ seen) xs h.1,
    )
  ]

  -- An item is the same as one that was seen or is kept, or is kept.
  abbrev pub IsCovered : List A → List A → A → Type 0
  IsCovered seen kept x = (any (same x) seen ≡ true) ⊎ Member x kept ⊎ (any (same x) kept ≡ true)

  covered :
      (x y : A) (seen kept : List A) → IsCovered (x ∷ seen) kept y → IsCovered seen (x ∷ kept) y
  unfolding any
  covered x y seen kept h = ground arith

  pub keep_distinct-IsCovered :
      (seen xs : List A) → All (IsCovered seen (keep_distinct same seen xs)) xs
  unfolding any
  keep_distinct-IsCovered seen [] = tt
  keep_distinct-IsCovered seen (x ∷ xs) = elim (Bool-cases (any (same x) seen)) [
    | inl old ↦
        subst (λ kept. All (IsCovered seen kept) (x ∷ xs)) (sym (keep-old seen x xs old))
          (inl old, keep_distinct-IsCovered seen xs)
    | inr fresh ↦
        subst (λ kept. All (IsCovered seen kept) (x ∷ xs)) (sym (keep-fresh seen x xs fresh))
          (
            inr (inl (inl refl)),
            All-map (λ y h. covered x y seen (keep_distinct same (x ∷ seen) xs) h) xs
                (keep_distinct-IsCovered (x ∷ seen) xs),
          )
  ]
