-- ===== src/Graph/Order.antt =====
-- A search that ends without a cycle leaves the nodes in the order of their predecessors.
use intelliq.Graph.Paths.{Search-cases, Walk, edge, extend}
use intelliq.Graph.{Search, each, finished, visit, done, cycle, out_of_fuel, search}
use intelliq.Prelude.{
  ℕ, zero, suc, string_eq, [], String, ◌≡◌, refl, sym, ◌≢◌, inl, inr, true, false, List, ◌∷◌,
  Bool-cases, tests_differ, ◌==◌, ==_refl, ==_ne, eq-cases, or_true, mem, ◌≤◌, ◌<◌, arith,
  if◌then◌else◌, length,
}

done-injective : {a b : List String} → done a ≡ done b → a ≡ b
done-injective h = cc

finished-done :
    (id : String) (r : Search) (v : List String)
    → finished id r ≡ done v
    → (w : List String) × (r ≡ done w) × (v ≡ id ∷ w)
finished-done id (done w) v h = (w, refl, sym (done-injective h))
finished-done id cycle v h = cc
finished-done id out_of_fuel v h = cc

module _ (edges : String → List String) where
  -- Every node stands before its predecessors, and once.
  abbrev pub IsSorted : List String → Type 0
  IsSorted [] = Unit
  IsSorted (x ∷ xs) =
      (mem x xs ≡ false) × ((p : String) → mem p (edges x) ≡ true → mem p xs ≡ true) × IsSorted xs

  -- What a call adds to the visited nodes: they stay sorted and apart from the visiting ones, and
  -- none is lost.
  record Extends (visiting before after' : List String) : Type 0 where
    sorted : IsSorted after'
    apart : (x : String) → mem x visiting ≡ true → mem x after' ≡ false
    kept : (x : String) → mem x before ≡ true → mem x after' ≡ true

  each-Extends :
      (f : String → List String → Search) (visiting ps visited : List String)
      → ((p : String) (before v : List String)
          → IsSorted before
          → ((x : String) → mem x visiting ≡ true → mem x before ≡ false)
          → f p before ≡ done v
          → Extends visiting before v × (mem p v ≡ true))
      → IsSorted visited
      → ((x : String) → mem x visiting ≡ true → mem x visited ≡ false)
      → (v : List String) → each f ps visited ≡ done v
      → Extends visiting visited v × ((p : String) → mem p ps ≡ true → mem p v ≡ true)
  unfolding each mem
  each-Extends f visiting [] visited step sorted apart v h =
      let same = done-injective h in
      (
        rw (← same) (record { sorted = sorted; apart = apart; kept = λ x k. k }),
        λ p m. absurd (tests_differ refl m),
      )
  each-Extends f visiting (p ∷ ps) visited step sorted apart v h =
      elim (Search-cases (f p visited)) [
        | inl (w, e) ↦
            let (first, here) = step p visited w sorted apart e in
            let (rest, all_in) =
              each-Extends f visiting ps w step first.sorted first.apart v (rw (e, each) at h) in
            (
              record {
                sorted = rest.sorted;
                apart = rest.apart;
                kept = λ x k. rest.kept x (first.kept x k);
              },
              λ q m. elim (eq-cases q p) [
                | inl same ↦ rw same (rest.kept p here)
                | inr other ↦ all_in q (rw (==_ne q p other) at m)
              ],
            )
        | inr (inl e) ↦ absurd (no_cycle (rw (e, each) at h))
        | inr (inr e) ↦ absurd (no_fuel (rw (e, each) at h))
      ]
    where
      no_cycle : cycle ≡ done v → ⊥
      no_cycle q = cc

      no_fuel : out_of_fuel ≡ done v → ⊥
      no_fuel q = cc

  visit-Extends :
      (n : ℕ) (visiting : List String) (id : String) (before v : List String)
      → IsSorted before
      → ((x : String) → mem x visiting ≡ true → mem x before ≡ false)
      → visit edges n visiting id before ≡ done v
      → Extends visiting before v × (mem id v ≡ true)
  unfolding visit mem
  visit-Extends zero visiting id before v sorted apart h = cc
  visit-Extends (suc n) visiting id before v sorted apart h = elim (Bool-cases (mem id visiting)) [
    | inl back ↦ absurd (no_cycle (rw (back, visit) at h))
    | inr new ↦ elim (Bool-cases (mem id before)) [
      | inl old ↦
          let same = done-injective (rw (old, visit) at (rw (new, visit) at h)) in
          rw (← same) (record { sorted = sorted; apart = apart; kept = λ x k. k }, old)
      | inr fresh ↦
          let (w, e, split) = finished-done id _ v (rw (fresh, visit) at (rw (new, visit) at h)) in
          let (inner, preds) =
            each-Extends (visit edges n (id ∷ visiting)) (id ∷ visiting) (edges id) before
              (visit-Extends n (id ∷ visiting)) sorted
              (λ x k. elim (eq-cases x id) [
                | inl same ↦ rw same fresh
                | inr other ↦ apart x (rw (==_ne x id other) at k)
              ])
              w e in
          rw split (
            record {
              sorted = (inner.apart id (rw (==_refl id)), preds, inner.sorted);
              apart = λ x k.
                  let other : x ≢ id = λ p. tests_differ new (rw p at k) in
                  rw (==_ne x id other) (inner.apart x (rw (k, or_true (x == id))));
              kept = λ x k. rw (inner.kept x k, or_true (x == id));
            },
            rw (==_refl id),
          )
    ]
  ]
    where
      no_cycle : cycle ≡ done v → ⊥
      no_cycle q = cc

  -- How many visited nodes were visited before a node, and itself.
  rank : String → List String → ℕ
  rank x [] = 0
  rank x (y ∷ ys) = let below = rank x ys in if x == y then suc (length ys) else below

  rank-le : (x : String) (ys : List String) → rank x ys ≤ length ys
  unfolding rank
  rank-le x [] = omega arith
  rank-le x (y ∷ ys) = elim (Bool-cases (x == y)) [
    | inl p ↦ rw p (omega arith)
    | inr p ↦ rw p (omega (arith, rank-le x ys))
  ]

  edge-rank :
      (v : List String) (a b : String)
      → IsSorted v
      → mem a v ≡ true
      → mem b (edges a) ≡ true
      → (mem b v ≡ true) × (rank b v < rank a v)
  unfolding rank mem
  edge-rank [] a b sorted m e = absurd (tests_differ refl m)
  edge-rank (y ∷ ys) a b (new, preds, sorted) m e = elim (eq-cases a y) [
    | inl same ↦
        let there = preds b (rw same at e) in
        let other : b ≢ y = λ p. tests_differ new (rw p at there) in
        (
          rw (there, or_true (b == y)),
          rw (same, ==_refl y, ==_ne b y other) (omega (arith, rank-le b ys)),
        )
    | inr differs ↦
        let (there, less) = edge-rank ys a b sorted (rw (==_ne a y differs) at m) e in
        let other : b ≢ y = λ p. tests_differ new (rw p at there) in
        (rw (there, or_true (b == y)), rw (==_ne a y differs, ==_ne b y other) less)
  ]

  Walk-rank :
      (v : List String) {a b : String}
      → IsSorted v
      → mem a v ≡ true
      → Walk edges a b
      → (mem b v ≡ true) × (rank b v < rank a v)
  Walk-rank v {a} {b} sorted m (edge e) = edge-rank v a b sorted m e
  Walk-rank v sorted m (extend {a} {b} {c} w e) =
      let (there, less) = Walk-rank v sorted m w in
      let (there', less') = edge-rank v b c sorted there e in (there', omega arith)

  -- What a search that ends without a cycle says: no node has a walk to itself.
  pub search-done :
      (n : ℕ) (nodes v : List String)
      → search edges n nodes ≡ done v
      → (a : String) → mem a nodes ≡ true
      → Walk edges a a
      → ⊥
  unfolding search mem
  search-done n nodes v h a m w =
      let (order, all_in) =
        each-Extends (visit edges n []) [] nodes [] (visit-Extends n []) tt
          (λ x k. absurd (tests_differ refl k)) v h in
      let (_, less) = Walk-rank v order.sorted (all_in a m) w in below (rank a v) less
    where
      below : (k : ℕ) → k < k → ⊥
      below k p = omega arith
