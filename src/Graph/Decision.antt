-- ===== src/Graph/Decision.antt =====
-- The search decides whether some node has a walk to itself.
use intelliq.Graph.Order.{search-done}
use intelliq.Graph.Fuel.{search-returns}
use intelliq.Graph.Paths.{Search-cases, Walk, edge, extend}
use intelliq.Graph.{search, done, cycle}
use intelliq.Prelude.{suc, string_eq, String, ◌≡◌, ◌⊎◌, inl, inr, true, List, length, mem}

module _ (edges : String → List String) (nodes : List String)
    (closed : (a b : String) → mem b (edges a) ≡ true → mem b nodes ≡ true)
    (from_nodes : (a b : String) → mem b (edges a) ≡ true → mem a nodes ≡ true) where
  Walk-mem : {a b : String} → Walk edges a b → mem a nodes ≡ true
  Walk-mem (edge {a} {b} e) = from_nodes a b e
  Walk-mem (extend w e) = Walk-mem w

  pub search-decides :
      (search edges (suc (length nodes)) nodes ≡ cycle)
      ⊎ ((v : List String) × (search edges (suc (length nodes)) nodes ≡ done v)
          × ((a : String) → Walk edges a a → ⊥))
  search-decides = elim (Search-cases (search edges (suc (length nodes)) nodes)) [
    | inl (v, e) ↦
        inr (v, e, λ a w. search-done edges (suc (length nodes)) nodes v e a (Walk-mem w) w)
    | inr (inl e) ↦ inl e
    | inr (inr e) ↦ absurd (search-returns edges nodes closed e)
  ]
