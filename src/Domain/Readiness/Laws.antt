-- ===== src/Domain/Readiness/Laws.antt =====
-- What planning inputs without an issue are, of `readiness_issues` of
-- apps/api/src/app/domain/readiness.py.
use intelliq.Domain.Readiness.{
  Task, Code, Issue, is_estimated, issue_if, ids_of, is_empty, target_issues, predecessor_issues,
  task_issues, dedupe, found_issues, readiness_issues, IsReady, missing_projects,
  missing_target_finish, missing_remaining_effort, unknown_predecessor, incomplete_snapshot,
}
use intelliq.Domain.Status.{Project, truthy, active_projects, active_rows}
use intelliq.Prelude.{
  string_eq, [], String, ◌≡◌, refl, ap, ◌↔◌, Bool, true, false, not, List, ◌∷◌, ◌++◌, arith, get_or,
  any, All, mem,
}

nothing_before : {A : Type 0} (xs ys : List A) → (xs ++ ys) ≡ [] → (xs ≡ []) × (ys ≡ [])
nothing_before [] ys h = (refl, h)
nothing_before (x ∷ xs) ys h = cc

issue_if-none : (bad : Bool) (code : Code) (a b : String) → issue_if bad code a b ≡ [] → bad ≡ false
issue_if-none true code a b h = cc
issue_if-none false code a b h = refl

whole-not : (b : Bool) → not b ≡ false → b ≡ true
whole-not b h = ground arith

target_issues-none :
    (ps : List Project) → target_issues ps ≡ [] → All (λ p. truthy p.target_finish_at ≡ true) ps
unfolding target_issues
target_issues-none [] h = tt
target_issues-none (p ∷ ps) h =
    let (first, rest) = nothing_before _ (target_issues ps) h in
    (whole-not _ (issue_if-none _ _ _ _ first), target_issues-none ps rest)

predecessor_issues-none :
    (known : List String) (task : String) (ps : List String)
    → predecessor_issues known task ps ≡ []
    → All (λ p. mem p known ≡ true) ps
unfolding predecessor_issues
predecessor_issues-none known task [] h = tt
predecessor_issues-none known task (p ∷ ps) h =
    let (first, rest) = nothing_before _ (predecessor_issues known task ps) h in
    (whole-not _ (issue_if-none _ _ _ _ first), predecessor_issues-none known task ps rest)

task_issues-none :
    (known : List String) (ts : List Task)
    → task_issues known ts ≡ []
    → All (λ t. is_estimated t.remaining_person_hours ≡ true) ts
      × All (λ t. All (λ p. mem p known ≡ true) t.predecessor_ids) ts
unfolding task_issues
task_issues-none known [] h = (tt, tt)
task_issues-none known (t ∷ ts) h =
    let (first, rest) = nothing_before _ (task_issues known ts) h in
    let (effort, preds) = nothing_before _ (predecessor_issues known _ t.predecessor_ids) first in
    let (efforts, all_preds) = task_issues-none known ts rest in
    (
      (whole-not _ (issue_if-none _ _ _ _ effort), efforts),
      (predecessor_issues-none known _ t.predecessor_ids preds, all_preds),
    )

dedupe-none : (is : List Issue) → dedupe [] is ≡ [] → is ≡ []
unfolding dedupe any
dedupe-none [] h = refl
dedupe-none (i ∷ is) h = cc

nothing_after : {A : Type 0} {xs ys : List A} → xs ≡ [] → ys ≡ [] → (xs ++ ys) ≡ []
nothing_after p q = rw (p, q)

no_issue : {bad : Bool} (code : Code) (a b : String) → bad ≡ false → issue_if bad code a b ≡ []
no_issue code a b h = rw h

negated : (b : Bool) → b ≡ true → not b ≡ false
negated b h = ground arith

target_issues-All :
    (ps : List Project) → All (λ p. truthy p.target_finish_at ≡ true) ps → target_issues ps ≡ []
unfolding target_issues
target_issues-All [] h = refl
target_issues-All (p ∷ ps) h =
    nothing_after (no_issue missing_target_finish _ "" (negated _ h.0)) (target_issues-All ps h.1)

predecessor_issues-All :
    (known : List String) (task : String) (ps : List String)
    → All (λ p. mem p known ≡ true) ps
    → predecessor_issues known task ps ≡ []
unfolding predecessor_issues
predecessor_issues-All known task [] h = refl
predecessor_issues-All known task (p ∷ ps) h =
    nothing_after (no_issue unknown_predecessor task p (negated _ h.0))
      (predecessor_issues-All known task ps h.1)

task_issues-All :
    (known : List String) (ts : List Task)
    → All (λ t. is_estimated t.remaining_person_hours ≡ true) ts
    → All (λ t. All (λ p. mem p known ≡ true) t.predecessor_ids) ts
    → task_issues known ts ≡ []
unfolding task_issues
task_issues-All known [] h k = refl
task_issues-All known (t ∷ ts) h k =
    nothing_after
      (nothing_after (no_issue missing_remaining_effort (get_or t.id "?") "" (negated _ h.0))
        (predecessor_issues-All known (get_or t.id "?") t.predecessor_ids k.0))
      (task_issues-All known ts h.1 k.1)

only-IsReady :
    (complete : Bool) (projects : List Project) (tasks : List Task)
    → readiness_issues complete projects tasks ≡ []
    → IsReady complete projects tasks
unfolding readiness_issues found_issues
only-IsReady complete projects tasks h =
    let active = active_projects projects in
    let active_tasks = active_rows (λ (t : Task). t.project_id) projects tasks in
    let known = ids_of (λ (t : Task). t.id) active_tasks in
    let unnamed = is_empty (ids_of (λ (p : Project). p.id) active) in
    let found = dedupe-none (found_issues complete projects tasks) h in
    let (some_project, r₁) = nothing_before (issue_if unnamed missing_projects "" "") _ found in
    let (targets, r₂) = nothing_before (target_issues active) _ r₁ in
    let (of_tasks, of_snapshot) = nothing_before (task_issues known active_tasks) _ r₂ in
    let (estimated, predecessors) = task_issues-none known active_tasks of_tasks in
    record {
      whole =
          whole-not complete (issue_if-none (not complete) incomplete_snapshot "" "" of_snapshot);
      some_project = issue_if-none unnamed missing_projects "" "" some_project;
      targets = target_issues-none active targets;
      estimated = estimated;
      predecessors = predecessors;
    }

-- No issue is reported if and only if the planning inputs are complete: the snapshot is whole, there
-- is an active project with an id, every active project has a target, and every active task has
-- its three efforts and only predecessors that are active tasks.
pub readiness_issues-IsReady :
    (complete : Bool) (projects : List Project) (tasks : List Task)
    → (readiness_issues complete projects tasks ≡ []) ↔ IsReady complete projects tasks
unfolding readiness_issues found_issues dedupe
readiness_issues-IsReady complete projects tasks = (
  only-IsReady complete projects tasks,
  λ ready. ap (dedupe []) (
      nothing_after (no_issue missing_projects "" "" ready.some_project) (
        nothing_after (target_issues-All (active_projects projects) ready.targets) (
          nothing_after (task_issues-All _ _ ready.estimated ready.predecessors)
            (no_issue incomplete_snapshot "" "" (negated complete ready.whole))))),
)
