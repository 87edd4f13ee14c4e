-- ===== src/Simulation/Sample/Rosters.antt =====
-- Lists of workers in which no worker stands twice.
use intelliq.Simulation.Sample.{insert_sorted, sorted}
use intelliq.Prelude.{
  NoRepeats, string_eq, nat_eq, option_eq, [], ℕ, zero, suc, ◌≤◌, String, ◌≡◌, refl, sym, ap, ◌∙◌,
  inl, inr, Bool, false, ◌||◌, List, ◌∷◌, ◌++◌, map, arith, Bool-cases, length, take, filter, All,
  tests_differ, ◌==◌, ==_iff, ==_ne, mem, mem-append,
}

or_none : (a b : Bool) → (a || b) ≡ false → (a ≡ false) × (b ≡ false)
or_none a b h = ground arith

both_false : (a b : Bool) → a ≡ false → b ≡ false → (a || b) ≡ false
both_false a b h k = ground arith

module _ {A : Type 0} (key : A → String) where
  mem-filter :
      (p : A → Bool) (x : String) (xs : List A)
      → mem x (map key xs) ≡ false
      → mem x (map key (filter p xs)) ≡ false
  unfolding filter mem
  mem-filter p x [] h = h
  mem-filter p x (y ∷ ys) h =
      let (a, b) = or_none (x == key y) _ h in
      elim (Bool-cases (p y)) [
        | inl kept ↦ rw kept (both_false (x == key y) _ a (mem-filter p x ys b))
        | inr gone ↦ rw gone (mem-filter p x ys b)
      ]

  pub NoRepeats-filter :
      (p : A → Bool) (xs : List A) → NoRepeats (map key xs) → NoRepeats (map key (filter p xs))
  unfolding filter
  NoRepeats-filter p [] h = tt
  NoRepeats-filter p (y ∷ ys) h = elim (Bool-cases (p y)) [
    | inl kept ↦ rw kept (mem-filter p (key y) ys h.0, NoRepeats-filter p ys h.1)
    | inr gone ↦ rw gone (NoRepeats-filter p ys h.1)
  ]

  mem-take :
      (n : ℕ) (x : String) (xs : List A)
      → mem x (map key xs) ≡ false
      → mem x (map key (take n xs)) ≡ false
  unfolding mem
  mem-take zero x xs h = refl
  mem-take (suc n) x [] h = h
  mem-take (suc n) x (y ∷ ys) h =
      let (a, b) = or_none (x == key y) _ h in both_false (x == key y) _ a (mem-take n x ys b)

  pub NoRepeats-take :
      (n : ℕ) (xs : List A) → NoRepeats (map key xs) → NoRepeats (map key (take n xs))
  NoRepeats-take zero xs h = tt
  NoRepeats-take (suc n) [] h = tt
  NoRepeats-take (suc n) (y ∷ ys) h = (mem-take n (key y) ys h.0, NoRepeats-take n ys h.1)

  mem-insert_sorted :
      (lt : A → A → Bool) (x : String) (a : A) (xs : List A)
      → mem x (map key (insert_sorted lt a xs)) ≡ ((x == key a) || mem x (map key xs))
  unfolding insert_sorted mem
  mem-insert_sorted lt x a [] = refl
  mem-insert_sorted lt x a (y ∷ ys) = elim (Bool-cases (lt y a)) [
    | inl p ↦ rw p (
        ap (λ b. (x == key y) || b) (mem-insert_sorted lt x a ys)
        ∙ swap (x == key y) (x == key a) (mem x (map key ys)))
    | inr p ↦ rw p
  ]
    where
      swap : (b c d : Bool) → (b || (c || d)) ≡ (c || (b || d))
      swap b c d = ground arith

  NoRepeats-insert_sorted :
      (lt : A → A → Bool) (a : A) (xs : List A)
      → mem (key a) (map key xs) ≡ false
      → NoRepeats (map key xs)
      → NoRepeats (map key (insert_sorted lt a xs))
  unfolding insert_sorted mem
  NoRepeats-insert_sorted lt a [] h k = (refl, tt)
  NoRepeats-insert_sorted lt a (y ∷ ys) h k =
      let (differs, rest) = or_none (key a == key y) _ h in
      elim (Bool-cases (lt y a)) [
        | inl p ↦ rw p (
          mem-insert_sorted lt (key y) a ys
              ∙ both_false (key y == key a) _
                  (==_ne (key y) (key a)
                    (λ q. tests_differ differs ((==_iff (key a) (key y)).1 (sym q))))
                  k.0,
          NoRepeats-insert_sorted lt a ys rest k.1,
        )
        | inr p ↦ rw p (h, k)
      ]

  pub mem-sorted :
      (lt : A → A → Bool) (x : String) (xs : List A)
      → mem x (map key (sorted lt xs)) ≡ mem x (map key xs)
  unfolding sorted mem
  mem-sorted lt x [] = refl
  mem-sorted lt x (y ∷ ys) =
      mem-insert_sorted lt x y (sorted lt ys) ∙ ap (λ b. (x == key y) || b) (mem-sorted lt x ys)

  pub NoRepeats-sorted :
      (lt : A → A → Bool) (xs : List A)
      → NoRepeats (map key xs)
      → NoRepeats (map key (sorted lt xs))
  unfolding sorted
  NoRepeats-sorted lt [] h = tt
  NoRepeats-sorted lt (y ∷ ys) h =
      NoRepeats-insert_sorted lt y (sorted lt ys) (mem-sorted lt (key y) ys ∙ h.0)
        (NoRepeats-sorted lt ys h.1)

-- Two rosters of which the first avoids the second.
pub NoRepeats-append :
    (xs ys : List String)
    → NoRepeats xs
    → NoRepeats ys
    → All (λ x. mem x ys ≡ false) xs
    → NoRepeats (xs ++ ys)
NoRepeats-append [] ys h k d = k
NoRepeats-append (x ∷ xs) ys h k d = (
  mem-append x xs ys ∙ both_false (mem x xs) (mem x ys) h.0 d.0,
  NoRepeats-append xs ys h.1 k d.1,
)

pub length-take-ge :
    {A : Type 0} (m n : ℕ) (xs : List A) → m ≤ n → m ≤ length xs → m ≤ length (take n xs)
length-take-ge m zero xs h k = omega arith
length-take-ge m (suc n) [] h k = k
length-take-ge zero (suc n) (x ∷ xs) h k = omega arith
length-take-ge (suc m) (suc n) (x ∷ xs) h k =
    omega (arith, length-take-ge m n xs (lower_le m n h) (lower_le m (length xs) k))
  where
    lower_le : (a b : ℕ) → suc a ≤ suc b → a ≤ b
    lower_le a b p = omega arith
