-- ===== src/Domain/Readiness.antt =====
-- `readiness_issues` of apps/api/src/app/domain/readiness.py. An issue keeps its code and the names
-- that its message is formatted from.
pub mod Laws
use intelliq.Domain.Status.{Project, truthy, text_of, active_projects, active_rows}
use intelliq.Prelude.{
  string_eq, [], ℕ, String, ◌≡◌, refl, Bool, true, false, not, ◌&&◌, Option, none, some, List, ◌∷◌,
  ◌++◌, map, arith, nat_beq, if◌then◌else◌, get_or, any, filter, All, ◌==◌, mem, ap, ◌↔◌,
}

-- `remainingPersonHours`: which of its three keys have a value.
pub record Effort : Type 0 where
  pub optimistic : Bool
  pub most_likely : Bool
  pub pessimistic : Bool

pub record Task : Type 0 where
  pub id : Option String
  pub project_id : Option String
  pub remaining_person_hours : Option Effort
  pub predecessor_ids : List String

pub data Code : Type 0 where
  missing_projects missing_target_finish missing_remaining_effort unknown_predecessor : Code
  incomplete_snapshot : Code

pub record Issue : Type 0 where
  pub code : Code
  pub subject : String
  pub other : String

abbrev pub code_number : Code → ℕ
code_number missing_projects = 0
code_number missing_target_finish = 1
code_number missing_remaining_effort = 2
code_number unknown_predecessor = 3
code_number incomplete_snapshot = 4

abbrev pub issue_beq : Issue → Issue → Bool
issue_beq a b =
    nat_beq (code_number a.code) (code_number b.code)
    && (a.subject == b.subject)
    && (a.other == b.other)

abbrev pub is_estimated : Option Effort → Bool
is_estimated none = false
is_estimated (some e) = e.optimistic && e.most_likely && e.pessimistic

abbrev pub issue_if : Bool → Code → String → String → List Issue
issue_if bad code subject other =
    if bad then record { code = code; subject = subject; other = other } ∷ [] else []

-- `{str(item["id"]) for item in items if item.get("id")}`
unfoldable pub ids_of : {R : Type 0} → (R → Option String) → List R → List String
ids_of id rows = map (λ r. text_of (id r)) (filter (λ r. truthy (id r)) rows)

abbrev pub is_empty : {A : Type 0} → List A → Bool
is_empty [] = true
is_empty (x ∷ xs) = false

unfoldable pub target_issues : List Project → List Issue
target_issues [] = []
target_issues (p ∷ ps) =
    issue_if (not (truthy p.target_finish_at)) missing_target_finish
      (if truthy p.name then text_of p.name else get_or p.id "Project") ""
    ++ target_issues ps

unfoldable pub predecessor_issues : List String → String → List String → List Issue
predecessor_issues known task [] = []
predecessor_issues known task (p ∷ ps) =
    issue_if (not (mem p known)) unknown_predecessor task p ++ predecessor_issues known task ps

unfoldable pub task_issues : List String → List Task → List Issue
unfolding predecessor_issues
task_issues known [] = []
task_issues known (t ∷ ts) =
    (issue_if (not (is_estimated t.remaining_person_hours)) missing_remaining_effort
        (get_or t.id "?") ""
      ++ predecessor_issues known (get_or t.id "?") t.predecessor_ids)
    ++ task_issues known ts

-- `_dedupe`
unfoldable pub dedupe : List Issue → List Issue → List Issue
dedupe seen [] = []
dedupe seen (i ∷ is) = elim (any (issue_beq i) seen) [
  | true ↦ dedupe seen is
  | false ↦ i ∷ dedupe (i ∷ seen) is
]

-- The issues before the deduplication.
unfoldable pub found_issues : Bool → List Project → List Task → List Issue
unfolding target_issues task_issues
found_issues complete projects tasks =
    let active = active_projects projects in
    let active_tasks = active_rows (λ (t : Task). t.project_id) projects tasks in
    issue_if (is_empty (ids_of (λ (p : Project). p.id) active)) missing_projects "" ""
    ++ (target_issues active
        ++ (task_issues (ids_of (λ (t : Task). t.id) active_tasks) active_tasks
            ++ issue_if (not complete) incomplete_snapshot "" ""))

-- `readiness_issues`, from `snapshot.complete` and the planning inputs.
unfoldable pub readiness_issues : Bool → List Project → List Task → List Issue
unfolding dedupe found_issues
readiness_issues complete projects tasks = dedupe [] (found_issues complete projects tasks)

-- What planning inputs without an issue are.
pub record IsReady (complete : Bool) (projects : List Project) (tasks : List Task) : Type 0 where
  pub whole : complete ≡ true
  pub some_project : is_empty (ids_of (λ (p : Project). p.id) (active_projects projects)) ≡ false
  pub targets : All (λ p. truthy p.target_finish_at ≡ true) (active_projects projects)
  pub estimated :
      All
        (λ t. is_estimated t.remaining_person_hours ≡ true)
        (active_rows (λ (t : Task). t.project_id) projects tasks)
  pub predecessors :
      All
        (λ t.
          All
            (λ p.
              mem p (
                ids_of
                  (λ (t : Task). t.id)
                  (active_rows (λ (t : Task). t.project_id) projects tasks))
              ≡ true)
            t.predecessor_ids)
        (active_rows (λ (t : Task). t.project_id) projects tasks)
