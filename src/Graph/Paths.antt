-- ===== src/Graph/Paths.antt =====
-- A search that reports a cycle has met one.
use intelliq.Graph.{Search, each, finished, visit, search, done, cycle, out_of_fuel}
use intelliq.Prelude.{
  ℕ, zero, suc, string_eq, [], String, ◌≡◌, refl, ◌⊎◌, inl, inr, true, List, ◌∷◌, Bool-cases,
  tests_differ, ◌==◌, ==_refl, ==_ne, eq-cases, mem, or_true,
}

pub Search-cases :
    (r : Search) → ((v : List String) × (r ≡ done v)) ⊎ ((r ≡ cycle) ⊎ (r ≡ out_of_fuel))
Search-cases (done v) = inl (v, refl)
Search-cases cycle = inr (inl refl)
Search-cases out_of_fuel = inr (inr refl)

module _ (edges : String → List String) where
  -- A walk of at least one edge.
  pub data Walk : String → String → Type 0 where
    edge : {a b : String} → mem b (edges a) ≡ true → Walk a b
    extend : {a b c : String} → Walk a b → mem c (edges b) ≡ true → Walk a c

  each-cycle :
      (f : String → List String → Search) (P : Type 0) (ps visited : List String)
      → ((p : String) (v : List String) → mem p ps ≡ true → f p v ≡ cycle → P)
      → each f ps visited ≡ cycle
      → P
  unfolding each mem
  each-cycle f P [] visited found h = cc
  each-cycle f P (p ∷ ps) visited found h = elim (Search-cases (f p visited)) [
    | inl (v, e) ↦
        each-cycle f P ps v (λ q w m. found q w (rw (m, or_true (q == p)))) (rw (e, each) at h)
    | inr (inl e) ↦ found p visited (rw (==_refl p)) e
    | inr (inr e) ↦ absurd (differ (rw (e, each) at h))
  ]
    where
      differ : out_of_fuel ≡ cycle → ⊥
      differ q = cc

  -- The nodes that are being visited lead to the one that is visited next.
  visit-cycle :
      (n : ℕ) (visiting : List String) (id : String) (visited : List String)
      → ((x : String) → mem x visiting ≡ true → Walk x id)
      → visit edges n visiting id visited ≡ cycle
      → (a : String) × Walk a a
  unfolding visit mem
  visit-cycle zero visiting id visited leads h = cc
  visit-cycle (suc n) visiting id visited leads h = elim (Bool-cases (mem id visiting)) [
    | inl back ↦ (id, leads id back)
    | inr new ↦ elim (Bool-cases (mem id visited)) [
      | inl old ↦ absurd (differ (rw (old, visit) at (rw (new, visit) at h)))
      | inr fresh ↦
          each-cycle (visit edges n (id ∷ visiting)) ((a : String) × Walk a a) (edges id) visited
            (λ p v m e.
              visit-cycle n (id ∷ visiting) p v
                (λ x k. elim (eq-cases x id) [
                  | inl same ↦ rw same (edge m)
                  | inr other ↦ extend (leads x (rw (==_ne x id other) at k)) m
                ])
                e)
            (unfinished _ (rw (fresh, visit) at (rw (new, visit) at h)))
    ]
  ]
    where
      differ : {v : List String} → done v ≡ cycle → ⊥
      differ q = cc

      unfinished : (r : Search) → finished id r ≡ cycle → r ≡ cycle
      unfinished (done v) q = cc
      unfinished cycle q = refl
      unfinished out_of_fuel q = cc

  pub search-cycle :
      (n : ℕ) (nodes : List String) → search edges n nodes ≡ cycle → (a : String) × Walk a a
  unfolding search mem
  search-cycle n nodes h =
      each-cycle (visit edges n []) ((a : String) × Walk a a) nodes []
        (λ p v m e. visit-cycle n [] p v (λ x k. absurd (tests_differ refl k)) e) h
