-- ===== src/Simulation/Input.antt =====
-- The inputs of apps/api/src/app/simulation/engine.py that the schedule of one sample reads.
-- An instant is a number of microseconds, a float is a value of the parameter `N`.
use intelliq.Prelude.{ℕ, String, Bool, Option, List}

-- The float operations that the schedule uses. `hours` is `total_seconds() / 3600.0` of a length
-- of time, and `leb` is `<=`.
pub record Floats (N : Type 0) : Type 0 where
  pub nought : N
  pub one : N
  pub epsilon : N
  pub plus : N → N → N
  pub minus : N → N → N
  pub times : N → N → N
  pub leb : N → N → Bool
  pub min : N → N → N
  pub max : N → N → N
  pub hours : ℕ → N

-- What the schedule asks a `ZoneInfo`: the local day, as an ordinal, and time of an instant, and
-- the instant of a local day and time.
pub record Zone : Type 0 where
  pub local_date : ℕ → ℕ
  pub local_time : ℕ → ℕ
  pub combine : ℕ → ℕ → ℕ

pub record Interval : Type 0 where
  pub start : ℕ
  pub end : ℕ

pub data TaskStatus : Type 0 where
  open_task done canceled : TaskStatus

pub record Task (N : Type 0) : Type 0 where
  pub id : String
  pub project_id : String
  pub status : TaskStatus
  pub predecessor_ids : List String
  pub required_specialty_id : Option String
  pub min_crew : ℕ
  pub max_crew : ℕ
  pub earliest_start_at : ℕ
  pub planned_start_at : Option ℕ
  pub material_ready_at : Option ℕ
  pub assigned_worker_ids : List String
  pub priority : N
  pub completed_at : Option ℕ

pub record Worker : Type 0 where
  pub id : String
  pub specialties : List String
  pub home_project_id : Option String
  pub project_ids : List String
  pub working_weekdays : List ℕ
  pub shift_start : ℕ
  pub shift_end : ℕ
  pub timezone : Zone
  pub active : Bool

pub record Reservation : Type 0 where
  pub worker_id : Option String
  pub project_id : Option String
  pub task_id : Option String
  pub interval : Interval

pub record TransferSpec : Type 0 where
  pub worker_id : String
  pub from_project_id : String
  pub to_project_id : String
  pub starts_at : ℕ
  pub ends_at : ℕ
  pub eligible_target_task_ids : List String

pub record OvertimeSpec : Type 0 where
  pub worker_id : String
  pub starts_at : ℕ
  pub ends_at : ℕ

pub record DateShiftSpec : Type 0 where
  pub task_id : String
  pub starts_at : ℕ
  pub ends_at : ℕ

pub record MaterialSpec : Type 0 where
  pub task_id : String
  pub available_at : Option ℕ
  pub confirmed : Bool

pub record PreparedTransfer : Type 0 where
  pub spec : TransferSpec
  pub productive_start : ℕ
  pub productive_end : ℕ

-- The prepared action, with the explicit orders of the action that it was prepared from.
pub record PreparedAction : Type 0 where
  pub project_order : List String
  pub task_order : List String
  pub transfers : List PreparedTransfer
  pub overtime : List OvertimeSpec
  pub date_shifts : List DateShiftSpec
  pub materials : List MaterialSpec
