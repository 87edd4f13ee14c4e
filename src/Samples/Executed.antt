-- ===== src/Samples/Executed.antt =====
-- An execution of apps/api/src/app/api/v4_routes.py and readbacks of
-- apps/api/src/app/services/execution.py.
use intelliq.Execution.Cancel.{
  AllSettled, cancel_execution, cancel_execution-AllSettled,
  reconcile_uncertain_writes_before_cancelling,
}
use intelliq.Execution.Dependencies.{
  canonical, action_type, manual_prerequisite, is_date_shift, prerequisites, dependencies,
  step_dependencies, depends_on,
}
use intelliq.Execution.Continue.Journal.{
  IsJournaled, writes, Approves, continue_execution-IsJournaled, continue_execution-read_only,
  continue_execution-Approves,
}
use intelliq.Execution.Continue.{Environment, Run, User, continue_execution}
use intelliq.Execution.Readback.Laws.{IsPrinter, SameValue, compare_readback_fields_iff}
use intelliq.Execution.Steps.{Step, Execution, api, pending, in_progress, is_uncertain}
use intelliq.Prelude.Text.{ends_with, lower, drop_code, strip, replace_code, codes}
use intelliq.Prelude.{
  filter, string_eq, nat_eq, ℕ, String, ◌≡◌, refl, ◌↔◌, true, false, Option, none, some, List, ◌∷◌,
  ◌++◌, [], All, mem, ok, ◌⊎◌, any, err,
}
use intelliq.Execution.Dependencies
use intelliq.Execution.Readback.{
  other, Iso, Fields, lookup, timestamp_field, comparable, fromkeys, DateTime, aware, Value, text,
  normalize_timestamp, parse_timestamp, with_offset, readback_field_mismatches,
  compare_readback_fields, classify_reconciliation, applied,
}

abbrev iso : Iso
iso = record { fromisoformat = λ s. none; naive_isoformat = λ n. []; utc_isoformat = λ n. [] }

abbrev document : ℕ → Fields ℕ
document n = ("name", other n) ∷ []

-- An upstream service with one document, whose state is what the document holds.
abbrev service : Environment ℕ ℕ
service = record {
  get = λ w path. (w, some (document w));
  patch = λ w path body. (2, true);
  renew_lease = λ w. (w, true);
  save_record = λ w x. w;
}

abbrev change : Step ℕ
change = record {
  id = "s1";
  kind = api;
  status = pending;
  worker_id = none;
  permission = some "write";
  depends_on = [];
  path = "/items/1";
  body = document 2;
  before = document 1;
  receipt = none;
  error = none;
  verified_unchanged = false;
  note = none;
  actor = none;
}

abbrev execution : Execution ℕ
execution = record {
  approval = record {
    analysis_id = "an1";
    strategy_id = "st1";
    review_hash = "h";
    source_revision = "r";
    assumptions_version = "1";
    source_invariant = "i";
  };
  status = in_progress;
  steps = change ∷ [];
}

abbrev user : User
user = record { app_admin = false; granted = "write" ∷ [] }

abbrev start : Run ℕ ℕ
start = record { world = 1; log = [] }

continue_execution-IsJournaled_example :
    IsJournaled (continue_execution iso service user true execution start).0.log
continue_execution-IsJournaled_example =
    continue_execution-IsJournaled iso service user execution start true tt

continue_execution-read_only_example :
    writes (continue_execution iso service user false execution start).0.log ≡ []
continue_execution-read_only_example = continue_execution-read_only iso service user execution start

continue_execution-Approves_example :
    (new : List (String × Fields ℕ)) × (writes
        (continue_execution iso service user true execution start).0.log
      ≡ new ++ [])
    × All (λ w. Approves user (change ∷ []) w.0 w.1) new
continue_execution-Approves_example =
    continue_execution-Approves iso service user execution start true

-- A parser of texts of two numbers, and a printer that writes one.
abbrev two_numbers : List ℕ → Option DateTime
two_numbers (wall ∷ utc ∷ []) = some (aware wall utc)
two_numbers codes = none

abbrev clock : Iso
clock = record {
  fromisoformat = two_numbers;
  naive_isoformat = λ n. n ∷ [];
  utc_isoformat = λ n. n ∷ [];
}

clock-IsPrinter : IsPrinter clock
clock-IsPrinter = record { naive_apart = λ a b p. cc; utc_apart = λ a b p. cc }

abbrev starting : ℕ → Fields ℕ
starting wall = ("startAt", text (wall ∷ 70 ∷ [])) ∷ []

compare_readback_fields_iff_example :
    (compare_readback_fields clock (starting 80) (starting 90) (some ("startAt" ∷ [])) ≡ true) ↔ (
      (f : String)
      → mem f ("startAt" ∷ []) ≡ true
      → (x : Value ℕ) × (y : Value ℕ) × (lookup f (starting 80) ≡ some x)
        × (lookup f (starting 90) ≡ some y)
        × SameValue clock clock-IsPrinter f x y)
compare_readback_fields_iff_example =
    compare_readback_fields_iff clock clock-IsPrinter (starting 80) (starting 90) ("startAt" ∷ [])

same_instant :
    compare_readback_fields clock (starting 80) (starting 90) (some ("startAt" ∷ [])) ≡ true
unfolding compare_readback_fields readback_field_mismatches fromkeys lookup comparable
    timestamp_field mem ends_with lower drop_code filter normalize_timestamp parse_timestamp
    with_offset strip
same_instant = refl

moved :
    classify_reconciliation iso (document 1) (document 2) (document 2) (some ("name" ∷ []))
    ≡ applied
unfolding classify_reconciliation compare_readback_fields readback_field_mismatches fromkeys lookup
    comparable timestamp_field mem ends_with lower drop_code filter
moved = refl

abbrev bundle : List Dependencies.Step
bundle =
    record {
      id = some "wait";
      action = none;
      action_type = some (Dependencies.text (codes "material-ready"));
      kind = some (Dependencies.text (codes "manual"));
    }
    ∷ record {
      id = some "shift";
      action = none;
      action_type = some (Dependencies.text (codes "Date Shift"));
      kind = none;
    }
    ∷ []

bundle_dependencies : step_dependencies bundle ≡ ok (("wait", []) ∷ ("shift", "wait" ∷ []) ∷ [])
unfolding step_dependencies prerequisites dependencies manual_prerequisite is_date_shift action_type
    canonical mem replace_code lower strip
bundle_dependencies = refl

shift_waits : depends_on "shift" (("wait", []) ∷ ("shift", "wait" ∷ []) ∷ []) ≡ some ("wait" ∷ [])
unfolding depends_on
shift_waits = refl

waited_for : mem {A = String} "wait" ("wait" ∷ []) ≡ true
unfolding mem
waited_for = refl

cancel_execution-AllSettled_example :
    ((cancel_execution "u" "rain" execution ≡ err reconcile_uncertain_writes_before_cancelling)
      × (any (λ s. is_uncertain s.status) execution.steps ≡ true))
    ⊎ ((y : Execution ℕ) × (cancel_execution "u" "rain" execution ≡ ok y)
        × (y.approval ≡ execution.approval)
        × AllSettled execution.steps y.steps)
cancel_execution-AllSettled_example = cancel_execution-AllSettled "u" "rain" execution
