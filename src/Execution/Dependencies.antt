-- ===== src/Execution/Dependencies.antt =====
-- apps/api/src/app/services/execution.py: `step_dependencies`, the manual prerequisites of the
-- date-shift steps of one bundle. Texts are lists of code points where the code normalises them.
pub mod Laws
use intelliq.Prelude.{
  ℕ, ◌≡◌, String, string_eq, Bool, true, false, not, ◌&&◌, ◌||◌, Option, none, some, List, [], ◌∷◌,
  ◌==◌, mem, if◌then◌else◌, Result, ok, err, ◌>>=◌,
}
use intelliq.Prelude.Text.{codes, codes_eq, strip, lower, replace_code}

-- The value of a key: a text, or anything else.
pub data Attribute : Type 0 where
  text : List ℕ → Attribute
  other : Attribute

-- The keys of `step["action"]` that are read, if it is a mapping.
pub record Action : Type 0 where
  pub type : Option Attribute
  pub kind : Option Attribute
  pub capability : Option Attribute

-- `id` is `none` where the step's id is no text.
pub record Step : Type 0 where
  pub id : Option String
  pub action : Option Action
  pub action_type : Option Attribute
  pub kind : Option Attribute

pub data DependencyError : Type 0 where
  missing_id : DependencyError
  duplicate_id : String → DependencyError

abbrev pub date_shift_types : List (List ℕ)
date_shift_types =
    codes "date_shift"
    ∷ codes "planned_date_shift"
    ∷ codes "planned_dates"
    ∷ codes "schedule_change"
    ∷ codes "schedule_shift"
    ∷ []

abbrev pub manual_prerequisite_types : List (List ℕ)
manual_prerequisite_types =
    codes "material"
    ∷ codes "material_ready"
    ∷ codes "material_response"
    ∷ codes "material_shift"
    ∷ codes "move_worker"
    ∷ codes "transfer"
    ∷ codes "weather"
    ∷ codes "weather_reschedule"
    ∷ codes "weather_response"
    ∷ codes "weather_shift"
    ∷ codes "worker_transfer"
    ∷ []

-- `action.get("type", action.get("kind"))`
abbrev pub type_or_kind : Option Action → Option Attribute
type_or_kind none = none
type_or_kind (some a) = elim a.type [ none ↦ a.kind | some t ↦ some t ]

abbrev pub is_text : Option Attribute → Option (List ℕ)
is_text none = none
is_text (some other) = none
is_text (some (text t)) = some t

-- `value.strip().lower().replace("-", "_").replace(" ", "_")`
unfoldable pub canonical : List ℕ → List ℕ
canonical t = replace_code b' ' b'_' (replace_code b'-' b'_' (lower (strip t)))

abbrev pub canonical_or : Option (List ℕ) → Option (List ℕ) → List ℕ
canonical_or (some t) fallback = canonical t
canonical_or none (some t) = canonical t
canonical_or none none = []

-- `_action_type`
unfoldable pub action_type : Step → List ℕ
action_type step = canonical_or (is_text (type_or_kind step.action)) (is_text step.action_type)

abbrev pub is_manual : Option Attribute → Bool
is_manual none = false
is_manual (some other) = false
is_manual (some (text t)) = t == codes "manual"

abbrev pub capability : Option Action → Option Attribute
capability none = none
capability (some a) = a.capability

-- `_manual_prerequisite`
unfoldable pub manual_prerequisite : Step → Bool
manual_prerequisite step =
    mem (action_type step) manual_prerequisite_types
    && (is_manual step.kind || is_manual (capability step.action))

unfoldable pub is_date_shift : Step → Bool
is_date_shift step = mem (action_type step) date_shift_types

-- The first loop: the ids, in order, each a text that is not empty and stands once.
collect_id :
    List String
    → String
    → Result DependencyError (List String)
    → Result DependencyError (List String)
collect_id seen id rest =
    if id == ""
    then err missing_id
    else if mem id seen
    then err (duplicate_id id)
    else rest >>= λ ids. ok (id ∷ ids)

unfoldable pub collect : List String → List Step → Result DependencyError (List String)
unfolding collect_id
collect seen [] = ok []
collect seen (step ∷ steps) = elim step.id [
  | none ↦ err missing_id
  | some id ↦ collect_id seen id (collect (id ∷ seen) steps)
]

-- `zip(steps, ids, strict=True)` filtered by `_manual_prerequisite`.
unfoldable pub prerequisites : List Step → List String → List String
prerequisites [] ids = []
prerequisites (step ∷ steps) [] = []
prerequisites (step ∷ steps) (id ∷ ids) =
    let rest = prerequisites steps ids in if manual_prerequisite step then id ∷ rest else rest

unfoldable pub dependencies : List String → List Step → List String → List (String × List String)
dependencies manual [] ids = []
dependencies manual (step ∷ steps) [] = []
dependencies manual (step ∷ steps) (id ∷ ids) =
    (id, if is_date_shift step then manual else []) ∷ dependencies manual steps ids

unfoldable pub step_dependencies : List Step → Result DependencyError (List (String × List String))
unfolding collect
step_dependencies steps =
    collect [] steps >>= λ ids. ok (dependencies (prerequisites steps ids) steps ids)

-- `dependencies[id]`
unfoldable pub depends_on : String → List (String × List String) → Option (List String)
depends_on id [] = none
depends_on id ((j, ds) ∷ rest) =
    let later = depends_on id rest in if j == id then some ds else later
