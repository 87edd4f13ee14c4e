-- ===== src/Simulation/Ranking/Order/Ascending.antt =====
-- `sorted` keeps the items, and puts them in the order of a Boolean `<`.
use intelliq.Simulation.Ranking.Order.Weak.{IsWeak}
use intelliq.Simulation.Sample.{insert_sorted, sorted}
use intelliq.Prelude.{
  [], suc, ◌≡◌, refl, inl, inr, Bool, false, List, ◌∷◌, arith, Bool-cases, length, All, All-map,
}

module _ {A : Type 0} (lt : A → A → Bool) where
  -- In the order of `sorted`: no later item is less.
  abbrev pub IsAscending : List A → Type 0
  IsAscending [] = Unit
  IsAscending (x ∷ xs) = All (λ y. lt y x ≡ false) xs × IsAscending xs

  All-insert_sorted :
      (P : A → Type 0) (x : A) (xs : List A) → P x → All P xs → All P (insert_sorted lt x xs)
  unfolding insert_sorted
  All-insert_sorted P x [] p h = (p, tt)
  All-insert_sorted P x (y ∷ ys) p h = elim (Bool-cases (lt y x)) [
    | inl after ↦ rw after (h.0, All-insert_sorted P x ys p h.1)
    | inr here ↦ rw here (p, h)
  ]

  pub All-sorted : (P : A → Type 0) (xs : List A) → All P xs → All P (sorted lt xs)
  unfolding sorted
  All-sorted P [] h = tt
  All-sorted P (x ∷ xs) h = All-insert_sorted P x (sorted lt xs) h.0 (All-sorted P xs h.1)

  insert_sorted-member :
      (P : A → Type 0) (x : A) (xs : List A) → All P (insert_sorted lt x xs) → P x × All P xs
  unfolding insert_sorted
  insert_sorted-member P x [] h = h
  insert_sorted-member P x (y ∷ ys) h = elim (Bool-cases (lt y x)) [
    | inl after ↦
        let k = rw after at h in
        let rest = insert_sorted-member P x ys k.1 in (rest.0, (k.0, rest.1))
    | inr here ↦ rw here at h
  ]

  pub sorted-All : (P : A → Type 0) (xs : List A) → All P (sorted lt xs) → All P xs
  unfolding sorted
  sorted-All P [] h = tt
  sorted-All P (x ∷ xs) h =
      let k = insert_sorted-member P x (sorted lt xs) h in (k.0, sorted-All P xs k.1)

  length-insert_sorted : (x : A) (xs : List A) → length (insert_sorted lt x xs) ≡ suc (length xs)
  unfolding insert_sorted
  length-insert_sorted x [] = refl
  length-insert_sorted x (y ∷ ys) = ground (arith, length-insert_sorted x ys)

  pub length-sorted : (xs : List A) → length (sorted lt xs) ≡ length xs
  unfolding sorted
  length-sorted [] = refl
  length-sorted (x ∷ xs) = omega (arith, length-insert_sorted x (sorted lt xs), length-sorted xs)

  module _ (w : IsWeak lt) where
    insert_sorted-IsAscending :
        (x : A) (xs : List A) → IsAscending xs → IsAscending (insert_sorted lt x xs)
    unfolding insert_sorted
    insert_sorted-IsAscending x [] h = (tt, tt)
    insert_sorted-IsAscending x (y ∷ ys) h = elim (Bool-cases (lt y x)) [
      | inl after ↦ rw after (
        All-insert_sorted (λ z. lt z y ≡ false) x ys (w.asym y x after) h.0,
        insert_sorted-IsAscending x ys h.1,
      )
      | inr here ↦ rw here ((here, All-map (λ z q. w.trans x y z here q) ys h.0), h)
    ]

    pub sorted-IsAscending : (xs : List A) → IsAscending (sorted lt xs)
    unfolding sorted
    sorted-IsAscending [] = tt
    sorted-IsAscending (x ∷ xs) = insert_sorted-IsAscending x (sorted lt xs) (sorted-IsAscending xs)
