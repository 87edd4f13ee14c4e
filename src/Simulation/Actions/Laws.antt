-- ===== src/Simulation/Actions/Laws.antt =====
-- What a composed action contains.
use intelliq.Simulation.Actions.{
  Items, CandidateAction, keep_first, combine, dedupe_strings, conflict_reason, has_order,
  order_conflict, compose_reasons, ordering, compose_actions,
}
use intelliq.Prelude.{
  string_eq, nat_eq, option_eq, [], String, ◌≡◌, refl, sym, ◌∙◌, inl, inr, Bool, true, false, not,
  ◌&&◌, ◌||◌, List, ◌∷◌, ◌++◌, arith, if◌then◌else◌, Bool-cases, Eq, tests_differ, ◌==◌, ==_iff,
  ==_ne, eq-cases, mem, mem-append,
}

or_nothing : (b : Bool) → b ≡ (b || false)
or_nothing b = ground arith

or_same : (a b c : Bool) → a ≡ true → (a || c) ≡ (a || (b || c))
or_same a b c h = ground arith

module _ {A : Type 0} ⦃e : Eq A⦄ where
  keep_first-mem :
      (y : A) (result xs : List A) → mem y (keep_first result xs) ≡ (mem y result || mem y xs)
  unfolding keep_first mem
  keep_first-mem y result [] = or_nothing (mem y result)
  keep_first-mem y result (x ∷ xs) = elim (Bool-cases (mem x result)) [
    | inl old ↦
        rw (old, keep_first)
          (keep_first-mem y result xs ∙ elim (eq-cases y x) [
            | inl same ↦ or_same (mem y result) (y == x) (mem y xs) (rw same old)
            | inr other ↦ rw (==_ne y x other)
          ])
    | inr new ↦
        rw (new, keep_first)
          (keep_first-mem y (result ++ x ∷ []) xs
            ∙ rw (mem-append y result (x ∷ [])) (regroup (mem y result) (y == x) (mem y xs)))
  ]
    where
      regroup : (a b c : Bool) → ((a || (b || false)) || c) ≡ (a || (b || c))
      regroup a b c = ground arith

  -- An item is in the combination exactly if it is on one of the two sides.
  pub combine-mem :
      (y : A) (left right : List A) → mem y (combine left right) ≡ (mem y left || mem y right)
  unfolding combine mem
  combine-mem y left right = keep_first-mem y [] (left ++ right) ∙ mem-append y left right

  -- No item stands twice.
  abbrev pub IsUnique : List A → Type 0
  IsUnique [] = Unit
  IsUnique (x ∷ xs) = (mem x xs ≡ false) × IsUnique xs

  IsUnique-snoc : (xs : List A) (x : A) → IsUnique xs → mem x xs ≡ false → IsUnique (xs ++ x ∷ [])
  unfolding mem
  IsUnique-snoc [] x u h = (refl, tt)
  IsUnique-snoc (y ∷ ys) x u h = (
    mem-append y ys (x ∷ [])
        ∙ apart (mem y ys) (y == x) u.0
            (==_ne y x (λ p. tests_differ (first (x == y) (mem x ys) h) ((==_iff x y).1 (sym p)))),
    IsUnique-snoc ys x u.1 (rest (x == y) (mem x ys) h),
  )
    where
      apart : (a b : Bool) → a ≡ false → b ≡ false → (a || (b || false)) ≡ false
      apart a b p q = ground arith

      first : (a b : Bool) → (a || b) ≡ false → a ≡ false
      first a b p = ground arith

      rest : (a b : Bool) → (a || b) ≡ false → b ≡ false
      rest a b p = ground arith

  keep_first-IsUnique : (result xs : List A) → IsUnique result → IsUnique (keep_first result xs)
  unfolding keep_first
  keep_first-IsUnique result [] u = u
  keep_first-IsUnique result (x ∷ xs) u = elim (Bool-cases (mem x result)) [
    | inl old ↦ rw (old, keep_first) (keep_first-IsUnique result xs u)
    | inr new ↦
        rw (new, keep_first)
          (keep_first-IsUnique (result ++ x ∷ []) xs (IsUnique-snoc result x u new))
  ]

  pub combine-IsUnique : (left right : List A) → IsUnique (combine left right)
  unfolding combine
  combine-IsUnique left right = keep_first-IsUnique [] (left ++ right) tt

-- `_dedupe_strings` keeps every text, and each once.
pub dedupe_strings-IsUnique :
    (values : List String)
    → IsUnique (dedupe_strings values)
      × ((y : String) → mem y (dedupe_strings values) ≡ mem y values)
unfolding dedupe_strings mem
dedupe_strings-IsUnique values = (keep_first-IsUnique [] values tt, λ y. keep_first-mem y [] values)

module _ {I : Items} (baseline candidate : CandidateAction I) where
  -- The composed action has each transfer of the baseline and of the candidate once, and no other;
  -- it adds the conflict to the candidate's errors exactly when both have a priority order and the
  -- orders differ, and then keeps the baseline's order.
  pub compose_actions-IsUnique :
      IsUnique ⦃e = I.transfer_eq⦄ (compose_actions baseline candidate).0.transfers
      × ((t : I.Transfer)
          → mem ⦃e = I.transfer_eq⦄ t (compose_actions baseline candidate).0.transfers ≡ (
              mem ⦃e = I.transfer_eq⦄ t baseline.transfers
              || mem ⦃e = I.transfer_eq⦄ t candidate.transfers))
      × ((compose_actions baseline candidate).1 ≡ (
          if order_conflict baseline candidate
          then candidate.validation_errors ++ conflict_reason ∷ []
          else candidate.validation_errors))
      × ((compose_actions baseline candidate).0.task_order ≡ (
          if has_order candidate && not (order_conflict baseline candidate)
          then candidate.task_order
          else baseline.task_order))
  unfolding compose_actions compose_reasons ordering
  compose_actions-IsUnique = (
    combine-IsUnique ⦃e = I.transfer_eq⦄ baseline.transfers candidate.transfers,
    λ t. combine-mem ⦃e = I.transfer_eq⦄ t baseline.transfers candidate.transfers,
    refl,
    chosen (has_order candidate && not (order_conflict baseline candidate)),
  )
    where
      chosen :
          (b : Bool)
          → (if b then candidate else baseline).task_order
            ≡ (if b then candidate.task_order else baseline.task_order)
      chosen true = refl
      chosen false = refl
