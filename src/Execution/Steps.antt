-- ===== src/Execution/Steps.antt =====
-- The record of an approved execution, as apps/api/src/app/api/v4_routes.py builds it in `_review`
-- and `apply`: the keys that the code reads or writes are fields.
use intelliq.Prelude.{String, Bool, true, false, Option, List}
use intelliq.Execution.Readback.{Fields, Value}

pub data Kind : Type 0 where
  manual api : Kind

pub data Status : Type 0 where
  pending blocked applying applied confirmed failed needs_reconciliation cancelled : Status

abbrev pub is_api : Kind → Bool
is_api api = true
is_api manual = false

abbrev pub is_pending : Status → Bool
is_pending pending = true
is_pending _ = false

abbrev pub is_applied : Status → Bool
is_applied applied = true
is_applied _ = false

abbrev pub is_cancelled : Status → Bool
is_cancelled cancelled = true
is_cancelled _ = false

-- `status in {"applied", "cancelled", "failed"}`
abbrev pub is_closed : Status → Bool
is_closed applied = true
is_closed cancelled = true
is_closed failed = true
is_closed _ = false

-- `status in {"applied", "confirmed"}`
abbrev pub is_done : Status → Bool
is_done applied = true
is_done confirmed = true
is_done _ = false

-- `status in {"needs_reconciliation", "applying"}`
abbrev pub is_uncertain : Status → Bool
is_uncertain needs_reconciliation = true
is_uncertain applying = true
is_uncertain _ = false

-- `status in {"pending", "blocked"}`
abbrev pub is_open : Status → Bool
is_open pending = true
is_open blocked = true
is_open _ = false

-- `status in {"pending", "blocked", "failed", "cancelled"}`
abbrev pub is_unfinished : Status → Bool
is_unfinished pending = true
is_unfinished blocked = true
is_unfinished failed = true
is_unfinished cancelled = true
is_unfinished _ = false

-- The texts that the code stores under `step["error"]`.
pub data StepError : Type 0 where
  upstream_precondition_changed readback_mismatch upstream_result_uncertain : StepError

pub record Step (V : Type 0) : Type 0 where
  pub id : String
  pub kind : Kind
  pub status : Status
  pub worker_id : Option String  -- step["action"].get("workerId")
  pub permission : Option String
  pub depends_on : List String
  pub path : String
  pub body : Fields V
  pub before : Fields V
  pub receipt : Option (List (String × Option (Value V)))
  pub error : Option StepError
  pub verified_unchanged : Bool  -- reconciliation == "verified_unchanged"
  pub note : Option String  -- the note of a confirmation, or the reason of a cancellation
  pub actor : Option String  -- confirmedBy or cancelledBy

-- The status of the whole execution.
pub data Progress : Type 0 where
  in_progress all_applied partially_applied uncertain all_cancelled : Progress

pub record Approval : Type 0 where
  pub analysis_id : String
  pub strategy_id : String
  pub review_hash : String
  pub source_revision : String
  pub assumptions_version : String
  pub source_invariant : String

pub record Execution (V : Type 0) : Type 0 where
  pub approval : Approval
  pub status : Progress
  pub steps : List (Step V)
