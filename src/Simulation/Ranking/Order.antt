-- ===== src/Simulation/Ranking/Order.antt =====
-- Python's comparisons of tuples, `min` with a key, and the loops of
-- apps/api/src/app/simulation/engine.py that skip what was seen.
pub mod Weak
pub mod Distinct
pub mod Same
pub mod Ascending
use intelliq.Simulation.Ranking.{fold_left}
use intelliq.Prelude.{[], Bool, true, false, not, ◌&&◌, List, ◌∷◌, if◌then◌else◌, any}

module _ {A : Type 0} (test : A → A → Bool) where
  -- `<` of two tuples whose items are in the order `test`, and `tie` for equal ones.
  unfoldable pub lex : List A → List A → Bool → Bool
  lex [] [] tie = tie
  lex [] (y ∷ ys) tie = true
  lex (x ∷ xs) [] tie = false
  lex (x ∷ xs) (y ∷ ys) tie =
      let rest = lex xs ys tie in if test x y then true else (if test y x then false else rest)

  -- `==` of two tuples whose items are compared by `test`.
  unfoldable pub same_items : List A → List A → Bool
  same_items [] [] = true
  same_items [] (y ∷ ys) = false
  same_items (x ∷ xs) [] = false
  same_items (x ∷ xs) (y ∷ ys) = test x y && same_items xs ys

  -- The loop that skips what was seen.
  unfoldable pub keep_distinct : List A → List A → List A
  unfolding any
  keep_distinct seen [] = []
  keep_distinct seen (x ∷ xs) = elim (any (test x) seen) [
    | true ↦ keep_distinct seen xs
    | false ↦ x ∷ keep_distinct (x ∷ seen) xs
  ]

  -- `min` of a list that is not empty: the first of the least items.
  unfoldable pub least : A → List A → A
  least x xs = fold_left (λ m y. if test y m then y else m) x xs
