-- ===== src/Simulation/Ranking/Selection/Roles.antt =====
-- One policy of `_select_strategies` in apps/api/src/app/simulation/engine.py: its winner gets its
-- role, and the winners before keep theirs.
use intelliq.Simulation.Ranking.Order.Same.{
  Member-append, Member-last, Member-map, any-Member, distinct_same, same_items-symmetric,
  ==-symmetric,
}
use intelliq.Simulation.Ranking.Order.Distinct.{IsDistinct}
use intelliq.Simulation.Ranking.Order.Weak.{IsWeak, least-Member, least-le}
use intelliq.Simulation.Ranking.Selection.{
  Ranked, Selected, Policy, append_new, same_number, same_outcome, same_signature, key_lt, add_role,
  first_choice, add_policy,
}
use intelliq.Simulation.Ranking.Order.{least}
use intelliq.Simulation.Sample.{sorted}
use intelliq.Simulation.Outcomes.{Outcome}
use intelliq.Simulation.Ranking.{Scores, Decision}
use intelliq.Prelude.{
  [], string_eq, nat_eq, option_eq, String, ◌≡◌, refl, sym, ap, ◌∙◌, subst, inl, inr, true, false,
  ◌||◌, Option, none, some, List, ◌∷◌, map, arith, if◌then◌else◌, Bool-cases, if-true, any, All,
  Member, All-at, ==_refl, mem, mem-append,
}

mem-append_new :
    (x y : String) (xs : List String) → mem x xs ≡ true → mem x (append_new y xs) ≡ true
unfolding append_new
mem-append_new x y xs h = elim (Bool-cases (mem y xs)) [
  | inl old ↦ rw old h
  | inr new ↦ rw new (mem-append x xs (y ∷ []) ∙ ap (λ b. b || mem x (y ∷ [])) h)
]

append_new-mem : (y : String) (xs : List String) → mem y (append_new y xs) ≡ true
unfolding append_new mem
append_new-mem y xs = elim (Bool-cases (mem y xs)) [
  | inl old ↦ rw old old
  | inr new ↦ rw new (mem-append y xs (y ∷ []) ∙ ground (arith, ==_refl y))
]

module _ {N : Type 0} (f : Scores N) where
  -- A strategy has the policy's role, and no material candidate has a lesser key.
  abbrev pub IsServed : Decision N → List (Ranked N) → List (Selected N) → Policy N → Type 0
  IsServed d material ss policy =
      (s : Selected N) × Member s ss
      × (mem policy.role s.strategy_roles ≡ true)
      × All (λ m. key_lt f policy.key d m s.chosen ≡ false) material

  same_number-symmetric :
      ((a b : N) → f.same a b ≡ f.same b a)
      → (a b : Option N) → same_number f a b ≡ same_number f b a
  same_number-symmetric s none none = refl
  same_number-symmetric s none (some b) = refl
  same_number-symmetric s (some a) none = refl
  same_number-symmetric s (some a) (some b) = s a b

  same_signature-symmetric :
      ((a b : N) → f.same a b ≡ f.same b a)
      → (d : Decision N) (a b : Ranked N) → same_signature f d a b ≡ same_signature f d b a
  unfolding same_signature
  same_signature-symmetric s d a b =
      same_items-symmetric (same_outcome f) (λ p q. outcomes_symmetric p q)
        (sorted (λ o p. d.id_lt o.0 p.0) a.candidate.outcomes_by_project)
        (sorted (λ o p. d.id_lt o.0 p.0) b.candidate.outcomes_by_project)
    where
      outcomes_symmetric : (p q : String × Outcome N) → same_outcome f p q ≡ same_outcome f q p
      outcomes_symmetric (i, p) (j, q) =
          rw
            (
              ==-symmetric i j,
              ==-symmetric p.finish_p50 q.finish_p50,
              same_number-symmetric s p.delay_probability q.delay_probability,
              same_number-symmetric s p.expected_positive_delay_days q.expected_positive_delay_days,
              ==-symmetric p.unfinished_count q.unfinished_count,
            )
            refl

  pub add_policy-IsServed :
      (d : Decision N) (m : Ranked N) (ms : List (Ranked N)) (ss : List (Selected N))
      (policy done : Policy N)
      → IsServed d (m ∷ ms) ss done
      → IsServed d (m ∷ ms) (add_policy f d m ms ss policy) done
  unfolding add_policy
  add_policy-IsServed d m ms ss policy done (s, inside, role, least_key) =
      let best = least (key_lt f policy.key d) m ms in
      elim (Bool-cases (any (λ s. same_signature f d s.chosen best) ss)) [
        | inl old ↦ rw old (
          kept_row d best policy s,
          Member-map (kept_row d best policy) s ss inside,
          kept_role d best policy done.role s role,
          kept_key d best policy done (m ∷ ms) s least_key,
        )
        | inr new ↦ rw new (s, Member-append s ss _ inside, role, least_key)
      ]
    where
      kept_row : Decision N → Ranked N → Policy N → Selected N → Selected N
      kept_row d best policy s = if same_signature f d s.chosen best then add_role f policy s else s

      kept_role :
          (d : Decision N) (best : Ranked N) (policy : Policy N) (role : String) (s : Selected N)
          → mem role s.strategy_roles ≡ true
          → mem role (kept_row d best policy s).strategy_roles ≡ true
      kept_role d best policy role s h = elim (Bool-cases (same_signature f d s.chosen best)) [
        | inl on ↦ rw on (mem-append_new role policy.role s.strategy_roles h)
        | inr off ↦ rw off h
      ]

      kept_key :
          (d : Decision N) (best : Ranked N) (policy done : Policy N) (material : List (Ranked N))
          (s : Selected N)
          → All (λ m. key_lt f done.key d m s.chosen ≡ false) material
          → All (λ m. key_lt f done.key d m (kept_row d best policy s).chosen ≡ false) material
      kept_key d best policy done material s h =
          elim (Bool-cases (same_signature f d s.chosen best)) [
            | inl on ↦ rw on h
            | inr off ↦ rw off h
          ]

  pub serve :
      (d : Decision N) (m : Ranked N) (ms : List (Ranked N)) (ss : List (Selected N))
      (policy : Policy N)
      → ((a b : N) → f.same a b ≡ f.same b a)
      → IsWeak (key_lt f policy.key d)
      → IsDistinct (same_signature f d) (m ∷ ms)
      → All (λ s. Member s.chosen (m ∷ ms)) ss
      → IsServed d (m ∷ ms) (add_policy f d m ms ss policy) policy
  unfolding add_policy
  serve d m ms ss policy same_sym w unlike inside =
      let best = least (key_lt f policy.key d) m ms in
      let below = least-le (key_lt f policy.key d) w m ms in
      elim (Bool-cases (any (λ s. same_signature f d s.chosen best) ss)) [
        | inl old ↦
            let found = any-Member (λ s. same_signature f d s.chosen best) ss old in
            let row = λ (s : Selected N).
              if same_signature f d s.chosen best then add_role f policy s else s in
            let one : found.0.chosen ≡ best =
              distinct_same (same_signature f d) (m ∷ ms) (same_signature-symmetric same_sym d)
                unlike (All-at (λ s. Member s.chosen (m ∷ ms)) ss inside found.1)
                (least-Member (key_lt f policy.key d) m ms) found.2 in
            rw old (
              add_role f policy found.0,
              subst (λ r. Member r (map row ss))
                  (if-true (add_role f policy found.0) found.0 found.2)
                  (Member-map row found.0 ss found.1),
              append_new-mem policy.role found.0.strategy_roles,
              subst (λ c. All (λ x. key_lt f policy.key d x c ≡ false) (m ∷ ms)) (sym one) below,
            )
        | inr new ↦ rw new (
          first_choice f policy best,
          Member-last ss (first_choice f policy best),
          only_role policy.role,
          below,
        )
      ]
    where
      only_role : (role : String) → mem role (role ∷ []) ≡ true
      only_role role = ground (arith, ==_refl role)
