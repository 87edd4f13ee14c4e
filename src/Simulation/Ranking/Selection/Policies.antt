-- ===== src/Simulation/Ranking/Selection/Policies.antt =====
-- The strategies that `_select_strategies` of apps/api/src/app/simulation/engine.py returns for one
-- project: the winners of the three policies.
use intelliq.Simulation.Ranking.Order.Distinct.{IsDistinct, keep_distinct-IsDistinct}
use intelliq.Simulation.Ranking.Order.Weak.{IsWeak, lex-IsWeak}
use intelliq.Simulation.Ranking.Selection.{
  Ranked, Selected, Policy, same_signature, materials, key_lt, policies, add_role, first_choice,
  add_policy, select_policies, choose, select_strategies,
}
use intelliq.Simulation.Ranking.Order.{keep_distinct, least}
use intelliq.Simulation.Outcomes.{Outcome}
use intelliq.Simulation.Ranking.Keys.{Components}
use intelliq.Simulation.Ranking.{Scores, Candidate, Decision, fold_left}
use intelliq.Simulation.Ranking.Selection.Roles.{IsServed, add_policy-IsServed, serve}
use intelliq.Simulation.Ranking.Selection.Materials.{add_policy-All}
use intelliq.Simulation.Ranking.Keys.{fast_ranking_key, balanced_ranking_key, safe_ranking_key}
use intelliq.Prelude.{
  [], string_eq, nat_eq, ℕ, zero, suc, ◌+◌, ◌≤◌, String, ◌≡◌, refl, sym, ap, ◌∙◌, subst, false,
  some, List, ◌∷◌, map, arith, if◌then◌else◌, option_map, if-false, length, take, any, All,
  length-append, length-take-le, Member, All-Member,
}

module _ {N : Type 0} (f : Scores N) where
  keep-IsServed :
      (d : Decision N) (m : Ranked N) (ms : List (Ranked N)) (ss : List (Selected N))
      (ps : List (Policy N)) (done : Policy N)
      → IsServed f d (m ∷ ms) ss done
      → IsServed f d (m ∷ ms) (fold_left (add_policy f d m ms) ss ps) done
  keep-IsServed d m ms ss [] done h = h
  keep-IsServed d m ms ss (p ∷ ps) done h =
      keep-IsServed d m ms (add_policy f d m ms ss p) ps done
        (add_policy-IsServed f d m ms ss p done h)

  serve_all :
      (d : Decision N) (m : Ranked N) (ms : List (Ranked N)) (ss : List (Selected N))
      (ps : List (Policy N))
      → ((a b : N) → f.same a b ≡ f.same b a)
      → All (λ p. IsWeak (key_lt f p.key d)) ps
      → IsDistinct (same_signature f d) (m ∷ ms)
      → All (λ s. Member s.chosen (m ∷ ms)) ss
      → All (IsServed f d (m ∷ ms) (fold_left (add_policy f d m ms) ss ps)) ps
  serve_all d m ms ss [] same_sym w unlike inside = tt
  serve_all d m ms ss (p ∷ ps) same_sym w unlike inside =
      let next = add_policy f d m ms ss p in
      (
        keep-IsServed d m ms next ps p (serve f d m ms ss p same_sym w.0 unlike inside),
        serve_all d m ms next ps same_sym w.1 unlike
            (add_policy-All f (λ r. Member r (m ∷ ms)) d m ms ss p (All-Member (m ∷ ms)) inside),
      )

  length-add_policy :
      (d : Decision N) (m : Ranked N) (ms : List (Ranked N)) (ss : List (Selected N))
      (policy : Policy N)
      → length (add_policy f d m ms ss policy) ≤ suc (length ss)
  unfolding add_policy
  length-add_policy d m ms ss policy =
      let best = least (key_lt f policy.key d) m ms in
      ground (
        arith,
        length_map (λ s. if same_signature f d s.chosen best then add_role f policy s else s) ss,
        length-append ss (first_choice f policy best ∷ []),
      )
    where
      length_map : {A B : Type 0} (g : A → B) (xs : List A) → length (map g xs) ≡ length xs
      length_map g [] = refl
      length_map g (x ∷ xs) = ap suc (length_map g xs)

  few_policies :
      (d : Decision N) (m : Ranked N) (ms : List (Ranked N)) (ss : List (Selected N))
      (ps : List (Policy N))
      → length (fold_left (add_policy f d m ms) ss ps) ≤ length ss + length ps
  few_policies d m ms ss [] = omega arith
  few_policies d m ms ss (p ∷ ps) =
      omega
        (arith, length-add_policy d m ms ss p, few_policies d m ms (add_policy f d m ms ss p) ps)

  take_all : {A : Type 0} (n : ℕ) (xs : List A) → length xs ≤ n → take n xs ≡ xs
  take_all zero [] h = refl
  take_all zero (x ∷ xs) h = absurd (omega (arith, h))
  take_all (suc n) [] h = refl
  take_all (suc n) (x ∷ xs) h = ap (λ ys. x ∷ ys) (take_all n xs (omega (arith, h)))

  pub record IsPolicies (d : Decision N) (material : List (Ranked N)) (ss : List (Selected N))
      : Type 0 where
    pub few : length ss ≤ 3
    pub served : All (IsServed f d material ss) (policies f)

  key_lt-IsWeak :
      (d : Decision N) (key : Decision N → Candidate N → Components N → List N)
      → IsWeak f.lt
      → IsWeak d.id_lt
      → IsWeak (key_lt f key d)
  key_lt-IsWeak d key wn wi =
      lex-IsWeak f.lt wn (λ r. key d r.candidate r.components)
        (λ a b. d.id_lt a.candidate.id b.candidate.id)
        (record { asym = λ a b. wi.asym _ _; trans = λ a b c. wi.trans _ _ _ })

  select_policies-IsPolicies :
      (d : Decision N) (m : Ranked N) (ms : List (Ranked N))
      → IsWeak f.lt
      → IsWeak d.id_lt
      → ((a b : N) → f.same a b ≡ f.same b a)
      → IsDistinct (same_signature f d) (m ∷ ms)
      → IsPolicies d (m ∷ ms) (select_policies f d m ms)
  unfolding select_policies
  select_policies-IsPolicies d m ms wn wi same_sym unlike = record {
    few = length-take-le 3 (fold_left (add_policy f d m ms) [] (policies f));
    served =
        subst (λ ss. All (IsServed f d (m ∷ ms) ss) (policies f))
          (sym (take_all 3 _ (few_policies d m ms [] (policies f))))
          (serve_all d m ms [] (policies f) same_sym
            (
              key_lt-IsWeak d (fast_ranking_key f) wn wi,
              (
                key_lt-IsWeak d (balanced_ranking_key f) wn wi,
                (key_lt-IsWeak d (safe_ranking_key f) wn wi, tt),
              ),
            )
            unlike tt);
  }

  -- If a candidate is materially better, then for one project at most three strategies are
  -- returned, and each of the policies fast, balanced and safe has its role in one of them, than
  -- which no material candidate has a lesser key of that policy. Of the candidates with the same
  -- outcomes only the first counts; `<` is a weak order of the numbers and of the ids, and `==` of
  -- the numbers is symmetric.
  pub select_strategies-IsPolicies :
      (d : Decision N) (baseline : List (String × Outcome N)) (candidates : List (Candidate N))
      (m : Ranked N) (ms : List (Ranked N))
      → IsWeak f.lt
      → IsWeak d.id_lt
      → ((a b : N) → f.same a b ≡ f.same b a)
      → d.is_portfolio ≡ false
      → materials f d baseline candidates ≡ some (m ∷ ms)
      → (ss : List (Selected N)) × (select_strategies f d baseline candidates ≡ some ss)
        × IsPolicies d (keep_distinct (same_signature f d) [] (m ∷ ms)) ss
  unfolding select_strategies keep_distinct any
  select_strategies-IsPolicies d baseline candidates m ms wn wi same_sym project found =
      let rest = keep_distinct (same_signature f d) (m ∷ []) ms in
      (
        select_policies f d m rest,
        ap (option_map (λ rs. choose f d (keep_distinct (same_signature f d) [] rs))) found
            ∙ ap some (if-false _ _ project),
        select_policies-IsPolicies d m rest wn wi same_sym
            (keep_distinct-IsDistinct (same_signature f d) [] (m ∷ ms)),
      )
