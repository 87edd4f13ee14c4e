-- ===== src/Samples/Composed.antt =====
-- Candidate actions of apps/api/src/app/simulation/engine.py whose items are numbers.
use intelliq.Simulation.Sample.Slots.{gathered}
use intelliq.Simulation.Calendar.{overlaps}
use intelliq.Simulation.Actions.Bundles.{
  IsCompatible, compatible_action_parts, bundle_actions, bundle_actions-IsCompatible, clashing,
}
use intelliq.Simulation.Actions.{Items, CandidateAction}
use intelliq.Simulation.Input.{Interval}
use intelliq.Prelude.{
  string_eq, nat_eq, [], ℕ, ◌+◌, ◌*◌, String, ◌≡◌, refl, true, false, none, List, ◌∷◌, any, filter,
  ◌↔◌,
}

abbrev pub window : ℕ → Interval
window n = record { start = 10 * n; end = 10 * n + 5 }

abbrev pub numbered : Items
numbered = record {
  Transfer = ℕ;
  Overtime = ℕ;
  DateShift = ℕ;
  Material = ℕ;
  Weather = ℕ;
  transfer_worker = λ n. "a";
  transfer_interval = window;
  overtime_worker = λ n. "a";
  overtime_interval = window;
  shift_task = λ n. "dig";
  material_task = λ n. "dig";
  weather_scope = λ n. (none, none);
  weather_interval = window;
  transfer_eq = nat_eq;
  overtime_eq = nat_eq;
  shift_eq = nat_eq;
  material_eq = nat_eq;
  weather_eq = nat_eq;
}

abbrev pub moving : List ℕ → List ℕ → List String → CandidateAction numbered
moving transfers overtime tasks = record {
  transfers = transfers;
  overtime = overtime;
  date_shifts = [];
  materials = [];
  weather = [];
  project_order = [];
  task_order = tasks;
  priority_action_type = "priority";
  validation_errors = [];
}

abbrev implemented : CandidateAction numbered
implemented = moving (1 ∷ 2 ∷ []) [] ("dig" ∷ [])

abbrev proposed : CandidateAction numbered
proposed = moving (2 ∷ 3 ∷ []) [] ("pour" ∷ [])

abbrev parts : List (CandidateAction numbered)
parts = moving (1 ∷ []) (3 ∷ []) [] ∷ moving (2 ∷ []) [] [] ∷ []

bundle_actions-IsCompatible_example :
    (compatible_action_parts parts ≡ true) ↔ IsCompatible parts (bundle_actions parts)
bundle_actions-IsCompatible_example = bundle_actions-IsCompatible parts

-- The parts are compatible, and would not be with a transfer during the overtime.
compatible_parts :
    (compatible_action_parts parts ≡ true)
    × (compatible_action_parts (moving (3 ∷ []) [] [] ∷ parts) ≡ false)
unfolding compatible_action_parts clashing gathered any overlaps filter
compatible_parts = (refl, refl)
