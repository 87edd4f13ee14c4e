-- ===== src/Simulation/Actions/Evaluated.antt =====
-- `_action_count` and `_unique_evaluation_candidates` of apps/api/src/app/simulation/engine.py: the
-- candidates that are kept, of which `evaluate_portfolio` samples the first `MAX_CANDIDATES`.
use intelliq.Simulation.Ranking.Approach.{same_texts}
use intelliq.Simulation.Ranking.Order.{same_items, keep_distinct}
use intelliq.Simulation.Actions.{Items, CandidateAction, has_order}
use intelliq.Simulation.Ranking.Order.Distinct.{
  IsDistinct, IsCovered, keep_distinct-All, keep_distinct-IsDistinct, keep_distinct-IsCovered,
}
use intelliq.Prelude.{
  String, [], string_eq, nat_eq, ℕ, ◌+◌, Bool, ◌&&◌, List, if◌then◌else◌, length, All, Member,
  All-Member, ◌==◌, ◌≡◌, ◌↔◌, refl, Eq, ==_iff, true, any, inl, inr, Bool-cases, tests_differ,
  All-map, ◌∷◌, arith,
}

-- A candidate action with its id.
pub record Proposal (I : Items) : Type 0 where
  pub id : String
  pub action : CandidateAction I

same_items_iff :
    {A : Type 0} (e : Eq A) (xs ys : List A) → (same_items e.beq xs ys ≡ true) ↔ (xs ≡ ys)
unfolding same_items
same_items_iff e [] [] = ground arith
same_items_iff e [] (y ∷ ys) = ground arith
same_items_iff e (x ∷ xs) [] = ground arith
same_items_iff e (x ∷ xs) (y ∷ ys) = ground (arith, same_items_iff e xs ys, e.beq_iff x y)

any-Member :
    {A : Type 0} (p : A → Bool) (xs : List A)
    → any p xs ≡ true
    → (x : A) × Member x xs × (p x ≡ true)
unfolding any
any-Member p [] h = cc
any-Member p (x ∷ xs) h = elim (Bool-cases (p x)) [
  | inl here ↦ (x, inl refl, here)
  | inr gone ↦ let (y, m, k) = any-Member p xs (rw gone at h) in (y, inr m, k)
]

all_nine :
    (a b c d e f g h i : Bool)
    → (a && b && c && d && e && f && g && h && i) ≡ true
    → (a ≡ true)
      × (b ≡ true)
      × (c ≡ true)
      × (d ≡ true)
      × (e ≡ true)
      × (f ≡ true)
      × (g ≡ true)
      × (h ≡ true)
      × (i ≡ true)
all_nine a b c d e f g h i k = ground arith

module _ {I : Items} where
  unfoldable pub action_count : CandidateAction I → ℕ
  action_count a =
      length a.transfers
      + length a.overtime
      + length a.date_shifts
      + length a.materials
      + length a.weather
      + (if has_order a then 1 else 0)

  -- `==` of two values of `_evaluation_signature`.
  unfoldable pub same_evaluation : CandidateAction I → CandidateAction I → Bool
  unfolding same_items
  same_evaluation a b =
      same_items I.transfer_eq.beq a.transfers b.transfers
      && same_items I.overtime_eq.beq a.overtime b.overtime
      && same_items I.shift_eq.beq a.date_shifts b.date_shifts
      && same_items I.material_eq.beq a.materials b.materials
      && same_items I.weather_eq.beq a.weather b.weather
      && same_texts a.project_order b.project_order
      && same_texts a.task_order b.task_order
      && (a.priority_action_type == b.priority_action_type)
      && same_texts a.validation_errors b.validation_errors

  -- The signature leaves out the id.
  abbrev pub same_proposal : Proposal I → Proposal I → Bool
  same_proposal a b = same_evaluation a.action b.action

  unfoldable pub unique_evaluation_candidates : List (Proposal I) → List (Proposal I)
  unfolding keep_distinct same_evaluation
  unique_evaluation_candidates candidates = keep_distinct same_proposal [] candidates

  -- The same parameters: all that an action has, and nothing of its id.
  pub record SameParameters (a b : CandidateAction I) : Type 0 where
    pub transfers : a.transfers ≡ b.transfers
    pub overtime : a.overtime ≡ b.overtime
    pub date_shifts : a.date_shifts ≡ b.date_shifts
    pub materials : a.materials ≡ b.materials
    pub weather : a.weather ≡ b.weather
    pub project_order : a.project_order ≡ b.project_order
    pub task_order : a.task_order ≡ b.task_order
    pub priority_action_type : a.priority_action_type ≡ b.priority_action_type
    pub validation_errors : a.validation_errors ≡ b.validation_errors

  same_evaluation-SameParameters :
      (a b : CandidateAction I) → same_evaluation a b ≡ true → SameParameters a b
  unfolding same_evaluation
  same_evaluation-SameParameters a b h =
      let (h₁, h₂, h₃, h₄, h₅, h₆, h₇, h₈, h₉) =
        all_nine (same_items I.transfer_eq.beq a.transfers b.transfers) _ _ _ _ _ _ _ _ h in
      record {
        transfers = (same_items_iff I.transfer_eq _ _).0 h₁;
        overtime = (same_items_iff I.overtime_eq _ _).0 h₂;
        date_shifts = (same_items_iff I.shift_eq _ _).0 h₃;
        materials = (same_items_iff I.material_eq _ _).0 h₄;
        weather = (same_items_iff I.weather_eq _ _).0 h₅;
        project_order = (same_items_iff string_eq _ _).0 h₆;
        task_order = (same_items_iff string_eq _ _).0 h₇;
        priority_action_type = (==_iff a.priority_action_type b.priority_action_type).0 h₈;
        validation_errors = (same_items_iff string_eq _ _).0 h₉;
      }

  SameParameters-same_evaluation :
      (a b : CandidateAction I) → SameParameters a b → same_evaluation a b ≡ true
  unfolding same_evaluation
  SameParameters-same_evaluation a b p =
      rw
        (
          (same_items_iff I.transfer_eq _ _).1 p.transfers,
          (same_items_iff I.overtime_eq _ _).1 p.overtime,
          (same_items_iff I.shift_eq _ _).1 p.date_shifts,
          (same_items_iff I.material_eq _ _).1 p.materials,
          (same_items_iff I.weather_eq _ _).1 p.weather,
          (same_items_iff string_eq _ _).1 p.project_order,
          (same_items_iff string_eq _ _).1 p.task_order,
          (==_iff a.priority_action_type b.priority_action_type).1 p.priority_action_type,
          (same_items_iff string_eq _ _).1 p.validation_errors,
        )
        refl

  -- No later proposal has the parameters of an earlier one.
  abbrev pub AllDiffer : List (Proposal I) → Type 0
  AllDiffer [] = Unit
  AllDiffer (p ∷ ps) = All (λ q. ¬ SameParameters q.action p.action) ps × AllDiffer ps

  IsDistinct-AllDiffer : (ps : List (Proposal I)) → IsDistinct same_proposal ps → AllDiffer ps
  IsDistinct-AllDiffer [] h = tt
  IsDistinct-AllDiffer (p ∷ ps) h = (
    All-map
        (λ q differ same.
          tests_differ differ (SameParameters-same_evaluation q.action p.action same))
        ps h.0,
    IsDistinct-AllDiffer ps h.1,
  )

  -- A candidate whose parameters one of the proposals has.
  abbrev pub IsKept : List (Proposal I) → Proposal I → Type 0
  IsKept kept p = (q : Proposal I) × Member q kept × SameParameters p.action q.action

  IsCovered-IsKept :
      (kept : List (Proposal I)) (p : Proposal I)
      → IsCovered same_proposal [] kept p
      → IsKept kept p
  unfolding any
  IsCovered-IsKept kept p (inl h) = cc
  IsCovered-IsKept kept p (inr (inl m)) = (
    p,
    m,
    record {
      transfers = refl;
      overtime = refl;
      date_shifts = refl;
      materials = refl;
      weather = refl;
      project_order = refl;
      task_order = refl;
      priority_action_type = refl;
      validation_errors = refl;
    },
  )
  IsCovered-IsKept kept p (inr (inr h)) =
      let (q, m, same) = any-Member (same_proposal p) kept h in
      (q, m, same_evaluation-SameParameters p.action q.action same)

  -- No two of the candidates that are kept have the same parameters, each is one of the candidates,
  -- with its id, and every candidate has the parameters of one that is kept: the same transfers,
  -- overtime, date shifts, materials, weather responses, orders, type and errors.
  pub unique_evaluation_candidates-IsKept :
      (candidates : List (Proposal I))
      → AllDiffer (unique_evaluation_candidates candidates)
        × All (λ a. Member a candidates) (unique_evaluation_candidates candidates)
        × All (IsKept (unique_evaluation_candidates candidates)) candidates
  unfolding unique_evaluation_candidates
  unique_evaluation_candidates-IsKept candidates = (
    IsDistinct-AllDiffer _ (keep_distinct-IsDistinct same_proposal [] candidates),
    keep_distinct-All same_proposal (λ a. Member a candidates) [] candidates
        (All-Member candidates),
    All-map (IsCovered-IsKept _) candidates (keep_distinct-IsCovered same_proposal [] candidates),
  )
