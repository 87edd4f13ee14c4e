-- ===== src/Domain/Status.antt =====
-- apps/api/src/app/domain/status.py, over the keys that it reads. A text id is a `String`, and
-- `none` a missing one; no letter outside ASCII case-folds to a letter of "archived".
use intelliq.Prelude.{
  string_eq, [], ℕ, String, ◌≡◌, refl, sym, ap, Bool, false, not, ◌&&◌, Option, none, some, List,
  ◌∷◌, map, get_or, filter, ◌==◌, mem,
}
use intelliq.Prelude.Text.{codes, codes_eq, strip, lower}

pub record Project : Type 0 where
  pub id : Option String
  pub name : Option String
  pub status : Option (List ℕ)
  pub target_finish_at : Option String

-- `value and str(value)`: a missing value and an empty text are both false.
abbrev pub truthy : Option String → Bool
truthy none = false
truthy (some text) = not (text == "")

-- `str(value or "")`
abbrev pub text_of : Option String → String
text_of value = get_or value ""

-- `is_archived_project`
unfoldable pub is_archived_project : Project → Bool
is_archived_project project = lower (strip (get_or project.status [])) == codes "archived"

-- `archived_project_ids`
unfoldable pub archived_project_ids : List Project → List String
archived_project_ids projects =
    map (λ p. text_of p.id) (filter (λ p. truthy p.id && is_archived_project p) projects)

-- The projects that are left, and the rows whose project is.
unfoldable pub active_projects : List Project → List Project
active_projects projects =
    filter (λ p. not (mem (text_of p.id) (archived_project_ids projects))) projects

unfoldable pub active_rows : {R : Type 0} → (R → Option String) → List Project → List R → List R
active_rows project_id projects rows =
    filter (λ r. not (mem (text_of (project_id r)) (archived_project_ids projects))) rows

-- `without_archived_projects` with two collections; it passes its arguments on as they are if
-- nothing is archived.
unfoldable pub without_archived_projects :
    {R : Type 0} → (R → Option String) → List Project → List R → List Project × List R
unfolding active_projects active_rows
without_archived_projects project_id projects rows = elim (archived_project_ids projects) [
  | [] ↦ (projects, rows)
  | id ∷ ids ↦ (active_projects projects, active_rows project_id projects rows)
]

-- With nothing archived the filters keep every row, so that the shortcut changes nothing.
pub without_archived_projects_lem :
    {R : Type 0} (project_id : R → Option String) (projects : List Project) (rows : List R)
    → without_archived_projects project_id projects rows
      ≡ (active_projects projects, active_rows project_id projects rows)
unfolding without_archived_projects active_projects active_rows mem filter
without_archived_projects_lem {R} project_id projects rows =
    by_cases (archived_project_ids projects)
  where
    all_kept :
        {A : Type 0} (key : A → String) (xs : List A) → filter (λ x. not (mem (key x) [])) xs ≡ xs
    all_kept key [] = refl
    all_kept key (x ∷ xs) = ap (λ ys. x ∷ ys) (all_kept key xs)

    by_cases :
        (ids : List String)
        → (elim ids as (λ z. List Project × List R) [
          | [] ↦ (projects, rows)
          | id ∷ rest ↦ (
            filter (λ p. not (mem (text_of p.id) ids)) projects,
            filter (λ r. not (mem (text_of (project_id r)) ids)) rows,
          )
        ])
          ≡ (
            filter (λ p. not (mem (text_of p.id) ids)) projects,
            filter (λ r. not (mem (text_of (project_id r)) ids)) rows,
          )
    by_cases [] = λ i. (
      sym (all_kept (λ (p : Project). text_of p.id) projects) i,
      sym (all_kept (λ (r : R). text_of (project_id r)) rows) i,
    )
    by_cases (id ∷ rest) = refl
