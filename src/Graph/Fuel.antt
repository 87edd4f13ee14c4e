-- ===== src/Graph/Fuel.antt =====
-- The search returns with as much fuel as there are nodes: every nested call visits another node.
use intelliq.Graph.Paths.{Search-cases}
use intelliq.Graph.{Search, each, finished, visit, search, done, cycle, out_of_fuel}
use intelliq.Prelude.{
  NoRepeats, ℕ, zero, suc, string_eq, [], ◌+◌, ◌≤◌, ◌<◌, String, ◌≡◌, refl, sym, ap, ◌∙◌, ◌≢◌, inl,
  inr, true, List, ◌∷◌, arith, if◌then◌else◌, Bool-cases, length, tests_differ, ◌==◌, ==_refl,
  ==_ne, eq-cases, or_true, mem,
}

without : String → List String → List String
without x [] = []
without x (y ∷ ys) = let rest = without x ys in if x == y then ys else y ∷ rest

length-without :
    (x : String) (ys : List String) → mem x ys ≡ true → length ys ≡ suc (length (without x ys))
unfolding without mem
length-without x [] m = absurd (tests_differ refl m)
length-without x (y ∷ ys) m = elim (Bool-cases (x == y)) [
  | inl p ↦ rw p
  | inr p ↦ rw p (ap suc (length-without x ys (rw p at m)))
]

mem-without :
    (x z : String) (ys : List String) → mem z ys ≡ true → z ≢ x → mem z (without x ys) ≡ true
unfolding without mem
mem-without x z [] m other = m
mem-without x z (y ∷ ys) m other = elim (eq-cases x y) [
  | inl same ↦ rw (same, ==_refl y) (rw (==_ne z y (λ p. other (p ∙ sym same))) at m)
  | inr differs ↦ rw (==_ne x y differs) (elim (Bool-cases (z == y)) [
    | inl p ↦ rw p
    | inr p ↦ rw p (mem-without x z ys (rw p at m) other)
  ])
]

-- A list without repeats inside another one is no longer.
pub length-le_of_NoRepeats :
    (xs ys : List String)
    → NoRepeats xs
    → ((x : String) → mem x xs ≡ true → mem x ys ≡ true)
    → length xs ≤ length ys
unfolding mem
length-le_of_NoRepeats [] ys u inside = omega arith
length-le_of_NoRepeats (x ∷ xs) ys (new, u) inside =
    let shorter = length-le_of_NoRepeats xs (without x ys) u (λ z m.
      mem-without x z ys (inside z (rw (m, or_true (z == x))))
        (λ p. tests_differ new (rw p at m))) in
    omega (arith, length-without x ys (inside x (rw (==_refl x))))

module _ (edges : String → List String) (nodes : List String)
    (closed : (a b : String) → mem b (edges a) ≡ true → mem b nodes ≡ true) where
  each-returns :
      (f : String → List String → Search) (ps visited : List String)
      → ((p : String) (v : List String) → mem p ps ≡ true → f p v ≢ out_of_fuel)
      → each f ps visited ≢ out_of_fuel
  unfolding each mem
  each-returns f [] visited ok h = cc
  each-returns f (p ∷ ps) visited ok h = elim (Search-cases (f p visited)) [
    | inl (v, e) ↦
        each-returns f ps v (λ q w m. ok q w (rw (m, or_true (q == p)))) (rw (e, each) at h)
    | inr (inl e) ↦ differ (rw (e, each) at h)
    | inr (inr e) ↦ ok p visited (rw (==_refl p)) e
  ]
    where
      differ : cycle ≡ out_of_fuel → ⊥
      differ q = cc

  visit-returns :
      (n : ℕ) (visiting : List String) (id : String) (visited : List String)
      → NoRepeats visiting
      → ((x : String) → mem x visiting ≡ true → mem x nodes ≡ true)
      → mem id nodes ≡ true
      → length nodes < length visiting + n
      → visit edges n visiting id visited ≢ out_of_fuel
  unfolding visit mem
  visit-returns zero visiting id visited u inside m fuel h =
      too_many (length visiting) (length nodes) fuel
        (length-le_of_NoRepeats visiting nodes u inside)
    where
      too_many : (a b : ℕ) → b < a + 0 → a ≤ b → ⊥
      too_many a b p q = omega arith
  visit-returns (suc n) visiting id visited u inside m fuel h =
      elim (Bool-cases (mem id visiting)) [
        | inl back ↦ no_cycle (rw (back, visit) at h)
        | inr new ↦ elim (Bool-cases (mem id visited)) [
          | inl old ↦ no_done (rw (old, visit) at (rw (new, visit) at h))
          | inr fresh ↦
              each-returns (visit edges n (id ∷ visiting)) (edges id) visited
                (λ p v k.
                  visit-returns n (id ∷ visiting) p v (new, u)
                    (λ x j. elim (eq-cases x id) [
                      | inl same ↦ rw same m
                      | inr other ↦ inside x (rw (==_ne x id other) at j)
                    ])
                    (closed id p k) (omega arith))
                (unfinished _ (rw (fresh, visit) at (rw (new, visit) at h)))
        ]
      ]
    where
      no_cycle : cycle ≡ out_of_fuel → ⊥
      no_cycle q = cc

      no_done : {v : List String} → done v ≡ out_of_fuel → ⊥
      no_done q = cc

      unfinished : (r : Search) → finished id r ≡ out_of_fuel → r ≡ out_of_fuel
      unfinished (done v) q = cc
      unfinished cycle q = cc
      unfinished out_of_fuel q = refl

  -- One more than the number of nodes is enough fuel.
  pub search-returns : search edges (suc (length nodes)) nodes ≢ out_of_fuel
  unfolding search mem
  search-returns = each-returns (visit edges (suc (length nodes)) []) nodes [] (λ p v m.
      visit-returns (suc (length nodes)) [] p v tt (λ x k. absurd (tests_differ refl k)) m
        (omega arith))
