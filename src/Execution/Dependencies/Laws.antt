-- ===== src/Execution/Dependencies/Laws.antt =====
-- Dependencies are one level deep.
use intelliq.Prelude.{
  ◌≡◌, refl, sym, ap, ◌∙◌, String, string_eq, Bool, true, false, not, ◌&&◌, ◌||◌, Option, some,
  List, [], ◌∷◌, ◌⊎◌, inl, inr, arith, ◌==◌, ==_refl, ==_ne, eq-cases, mem, all, all-mem,
  Bool-cases, Option-cases, tests_differ, Result, ok, err, >>=-eq-ok, ok-injective,
}
use intelliq.Prelude.Text.{codes_eq}
use intelliq.Execution.Dependencies.{
  Step, DependencyError, date_shift_types, manual_prerequisite_types, manual_prerequisite,
  is_date_shift, action_type, collect, collect_id, prerequisites, dependencies, step_dependencies,
  depends_on,
}

types_disjoint : all (λ t. not (mem t manual_prerequisite_types)) date_shift_types ≡ true
unfolding all mem
types_disjoint = refl

-- No step is both a date shift and a manual prerequisite.
prerequisite_no_shift : (s : Step) → manual_prerequisite s ≡ true → is_date_shift s ≡ false
unfolding manual_prerequisite is_date_shift
prerequisite_no_shift s h = elim (Bool-cases (mem (action_type s) date_shift_types)) [
  | inl shift ↦ absurd (
      apart _ _
        (all-mem (λ t. not (mem t manual_prerequisite_types)) date_shift_types (action_type s)
          types_disjoint shift)
        h)
  | inr other ↦ other
]
  where
    apart : (a b : Bool) → not a ≡ true → (a && b) ≡ true → ⊥
    apart a b p q = ground arith

-- What the first loop did with a step.
record Collected (seen : List String) (s : Step) (steps : List Step) (ids : List String)
    : Type 0 where
  id : String
  rest : List String
  split : ids ≡ id ∷ rest
  new : mem id seen ≡ false
  after : collect (id ∷ seen) steps ≡ ok rest

collect-Collected :
    (seen : List String) (s : Step) (steps : List Step) {ids : List String}
    → collect seen (s ∷ steps) ≡ ok ids
    → Collected seen s steps ids
unfolding collect collect_id
collect-Collected seen s steps {ids} h = elim (Option-cases s.id) [
  | inl missing ↦ absurd (fails (rw (missing, collect) at h))
  | inr (i, e) ↦
      let h₁ = rw (e, collect) at h in
      elim (Bool-cases (i == "")) [
        | inl empty ↦ absurd (fails (rw empty at h₁))
        | inr named ↦
            let h₂ = rw named at h₁ in
            elim (Bool-cases (mem i seen)) [
              | inl twice ↦ absurd (fails (rw twice at h₂))
              | inr new ↦
                  let (rest, more, h₃) = >>=-eq-ok (collect (i ∷ seen) steps) _ (rw new at h₂) in
                  record {
                    id = i;
                    rest = rest;
                    split = sym (ok-injective h₃);
                    new = new;
                    after = more;
                  }
            ]
      ]
]
  where
    fails :
        {x : DependencyError} {l : List String}
        → ◌≡◌ {A = Result DependencyError (List String)} (err x) (ok l)
        → ⊥
    fails p = cc

-- An id that was seen before is not collected again.
collect-new :
    (steps : List Step) (seen : List String) {ids : List String} (x : String)
    → collect seen steps ≡ ok ids
    → mem x seen ≡ true
    → mem x ids ≡ false
unfolding collect mem
collect-new [] seen x h m = ap (mem x) (sym (ok-injective h))
collect-new (s ∷ steps) seen {ids} x h m =
    let c = collect-Collected seen s steps h in
    rw (c.split, mem)
      (elim (eq-cases x c.id) [
        | inl same ↦ absurd (tests_differ c.new (rw same at m))
        | inr other ↦
            rw (==_ne x c.id other)
              (collect-new steps (c.id ∷ seen) x c.after (or_right (x == c.id) (mem x seen) m))
      ])
  where
    or_right : (a b : Bool) → b ≡ true → (a || b) ≡ true
    or_right a b p = ground arith

prerequisites-mem :
    (steps : List Step) (ids : List String) (x : String)
    → mem x ids ≡ false
    → mem x (prerequisites steps ids) ≡ false
unfolding prerequisites mem
prerequisites-mem [] ids x h = refl
prerequisites-mem (s ∷ steps) [] x h = refl
prerequisites-mem (s ∷ steps) (i ∷ ids) x h =
    let (differ, rest) = or_false (x == i) (mem x ids) h in
    elim (Bool-cases (manual_prerequisite s)) [
      | inl manual ↦ rw manual (rw differ (prerequisites-mem steps ids x rest))
      | inr plain ↦ rw plain (prerequisites-mem steps ids x rest)
    ]
  where
    or_false : (a b : Bool) → (a || b) ≡ false → (a ≡ false) × (b ≡ false)
    or_false a b p = ground arith

prerequisite-independent :
    (manual : List String) (steps : List Step) (seen : List String) {ids : List String} (b : String)
    → collect seen steps ≡ ok ids
    → mem b (prerequisites steps ids) ≡ true
    → depends_on b (dependencies manual steps ids) ≡ some []
unfolding mem prerequisites dependencies depends_on
prerequisite-independent manual [] seen b h m = absurd (tests_differ refl m)
prerequisite-independent manual (s ∷ steps) seen {ids} b h m =
    let c = collect-Collected seen s steps h in
    let m' = rw (c.split, prerequisites) at m in
    rw (c.split, dependencies, depends_on)
      (elim (eq-cases c.id b) [
        | inl same ↦ elim (Bool-cases (manual_prerequisite s)) [
          | inl manual_s ↦ rw (prerequisite_no_shift s manual_s) (rw (same, ==_refl b))
          | inr plain ↦ absurd (
              tests_differ
                (prerequisites-mem steps c.rest c.id
                  (collect-new steps (c.id ∷ seen) c.id c.after (rw (==_refl c.id))))
                (rw (← same) at (rw plain at m')))
        ]
        | inr other ↦ rw (==_ne c.id b other) (
            prerequisite-independent manual steps (c.id ∷ seen) b c.after
              (elim (Bool-cases (manual_prerequisite s)) [
                | inl manual_s ↦ rw (==_ne b c.id (λ p. other (sym p))) at (rw manual_s at m')
                | inr plain ↦ rw plain at m'
              ]))
      ])

-- What a step may depend on: all of the manual prerequisites, or nothing.
depends_on-cases :
    (manual : List String) (steps : List Step) (ids : List String) (a : String) {ds : List String}
    → depends_on a (dependencies manual steps ids) ≡ some ds
    → (ds ≡ manual) ⊎ (ds ≡ [])
unfolding depends_on dependencies
depends_on-cases manual [] ids a h = cc
depends_on-cases manual (s ∷ steps) [] a h = cc
depends_on-cases manual (s ∷ steps) (i ∷ ids) a {ds} h = elim (Bool-cases (i == a)) [
  | inl hit ↦ elim (Bool-cases (is_date_shift s)) [
    | inl shift ↦ inl (same (rw shift at (rw hit at h)))
    | inr other ↦ inr (same (rw other at (rw hit at h)))
  ]
  | inr miss ↦ depends_on-cases manual steps ids a (rw miss at h)
]
  where
    same : {x y : List String} → ◌≡◌ {A = Option (List String)} (some x) (some y) → y ≡ x
    same p = cc

-- Where `step_dependencies` returns, what a step depends on depends on nothing: dependencies are
-- one level deep, so no two steps wait for one another.
pub step_dependencies-depth :
    (steps : List Step) (a b : String) {deps : List (String × List String)} {ds : List String}
    → step_dependencies steps ≡ ok deps
    → depends_on a deps ≡ some ds
    → mem b ds ≡ true
    → depends_on b deps ≡ some []
unfolding step_dependencies mem
step_dependencies-depth steps a b {deps} {ds} h on m =
    let (ids, collected, h₁) = >>=-eq-ok (collect [] steps) _ h in
    let manual = prerequisites steps ids in
    let made = ok-injective h₁ in
    elim (depends_on-cases manual steps ids a (rw (← made) at on)) [
      | inl all_manual ↦
          ap (depends_on b) (sym made)
          ∙ prerequisite-independent manual steps [] b collected (rw all_manual at m)
      | inr nothing ↦ absurd (tests_differ refl (rw nothing at m))
    ]
