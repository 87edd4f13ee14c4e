-- ===== src/Simulation/Ranking/Approach.antt =====
-- The approach of a candidate of `_select_strategies` in apps/api/src/app/simulation/engine.py, and
-- the title that names it.
use Prim.Native.String.{◌++◌ as push_str}
use intelliq.Simulation.Sample.{sorted}
use intelliq.Simulation.Ranking.Order.{lex, same_items, keep_distinct}
use intelliq.Simulation.Ranking.{Action}
use intelliq.Prelude.{
  string_eq, [], String, Bool, false, Option, none, some, List, ◌∷◌, map, if◌then◌else◌, ◌==◌,
}

-- `str(action.get(key, ""))`
abbrev pub text_at : Option (Option String) → String
text_at none = ""
text_at (some none) = "None"
text_at (some (some text)) = text

abbrev pub action_key : Action → List String
action_key a =
    a.type
    ∷ text_at a.worker_id
    ∷ text_at a.from_project_id
    ∷ text_at a.to_project_id
    ∷ text_at a.task_id
    ∷ []

abbrev pub same_texts : List String → List String → Bool
same_texts = same_items (λ s t. s == t)

-- The sorted set of the keys of the actions.
unfoldable pub approach_of : (String → String → Bool) → List Action → List (List String)
unfolding keep_distinct sorted lex same_items
approach_of id_lt actions =
    sorted (λ s t. lex id_lt s t false) (keep_distinct same_texts [] (map action_key actions))

abbrev pub same_approach : List (List String) → List (List String) → Bool
same_approach = same_items same_texts

abbrev pub name_of : String → String
name_of kind =
    if kind == "transfer"
    then "Move workers"
    else (if kind == "overtime"
        then "Add overtime"
        else (if kind == "priority"
            then "Change work order"
            else (if kind == "date_shift"
                then "Reschedule work"
                else (if kind == "material"
                    then "Change delivery timing"
                    else (if kind == "weather"
                        then "Reschedule weather-sensitive work"
                        else "Adjust the schedule")))))

-- `action[0]`
abbrev pub kind_of : List String → String
kind_of [] = ""
kind_of (kind ∷ key) = kind

abbrev pub join : String → List String → String
join separator [] = ""
join separator (s ∷ []) = s
join separator (s ∷ t ∷ texts) = push_str s (push_str separator (join separator (t ∷ texts)))
