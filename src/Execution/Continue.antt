-- ===== src/Execution/Continue.antt =====
-- `_continue_execution` of apps/api/src/app/api/v4_routes.py: the loop that reads back and
-- performs the approved API steps of one execution. The upstream service, the lease and the
-- storage are the operations of an environment with a state of its own; every effect is also
-- written to a log, which the code does not have and which it never reads.
pub mod Effects
pub mod Journal
use intelliq.Prelude.{
  String, string_eq, Bool, true, false, not, ◌||◌, Option, none, some, List, [], ◌∷◌, ◌++◌, map,
  filter, any, all, Eq, mem, if◌then◌else◌,
}
use intelliq.Execution.Readback.{Iso, Value, Fields, lookup, keys, compare_readback_fields}
use intelliq.Execution.Steps.{
  is_api, Status, pending, blocked, applying, applied, failed, needs_reconciliation, is_closed,
  is_done, is_uncertain, is_unfinished, is_cancelled, StepError, upstream_precondition_changed,
  readback_mismatch, upstream_result_uncertain, Step, Progress, all_applied, partially_applied,
  uncertain, all_cancelled, Execution,
}

-- What the loop calls: `adapter._get` and `adapter._request`, which raise an
-- UpstreamIntegrationError (`none`, `false`), `store.renew_lease` and `store.save_record`.
pub record Environment (V W : Type 0) : Type 0 where
  pub get : W → String → W × Option (Fields V)
  pub patch : W → String → Fields V → W × Bool
  pub renew_lease : W → W × Bool
  pub save_record : W → Execution V → W

pub data Event (V : Type 0) : Type 0 where
  saved : Execution V → Event V
  patched : String → Fields V → Event V
  read : String → Fields V → Event V

-- The state of the loop: the environment's, and the effects so far, latest first.
pub record Run (V W : Type 0) : Type 0 where
  pub world : W
  pub log : List (Event V)

pub record User : Type 0 where
  pub app_admin : Bool
  pub granted : List String

pub data Failure : Type 0 where
  missing_execution_permission execution_lease_lost : Failure

-- How one round ends: by going on, by `break`, or by an exception.
pub data Control : Type 0 where
  next stop : Control
  raised : Failure → Control

-- `step.get("permission") not in granted`, for a user who is no administrator.
abbrev pub may_write : User → Option String → Bool
may_write user none = user.app_admin
may_write user (some p) = user.app_admin || mem p user.granted

module _ {V : Type 0} where
  -- `set(depends_on).issubset(complete_ids)`
  abbrev pub complete_ids : List (Step V) → List String
  complete_ids steps = map (λ s. s.id) (filter (λ s. is_done s.status) steps)

  unfoldable pub is_ready : Step V → List (Step V) → Bool
  is_ready step steps = all (λ d. mem d (complete_ids steps)) step.depends_on

  -- `{k: current.get(k) for k in ("id", "updatedAt", *step["body"])}`
  abbrev pub receipt_of : Fields V → Fields V → List (String × Option (Value V))
  receipt_of body current = map (λ k. (k, lookup k current)) ("id" ∷ "updatedAt" ∷ keys body)

  abbrev pub with_receipt : Step V → Fields V → Step V
  with_receipt step current = record step {
    status = applied;
    receipt = some (receipt_of step.body current);
    error = none;
  }

  abbrev pub with_error : Step V → Status → StepError → Step V
  with_error step status error = record step { status = status; error = some error }

-- The steps before the current one, the current one, and those after it.
abbrev pub placed :
    {V : Type 0} → Execution V → List (Step V) → List (Step V) → Step V → Execution V
placed x before after step = record x { steps = before ++ step ∷ after }

-- What the loop leaves: the run, the steps, and the exception if one was raised.
abbrev pub Loop : Type 0 → Type 0 → Type 0
Loop V W = Run V W × List (Step V) × Option Failure

-- How the loop goes on after a round that left `step`: with the rest, or by ending here.
abbrev pub resume :
    {V W : Type 0}
    → Loop V W
    → List (Step V)
    → List (Step V)
    → Run V W
    → Step V
    → Control
    → Loop V W
resume rest before after run step next = rest
resume rest before after run step stop = (run, before ++ step ∷ after, none)
resume rest before after run step (raised f) = (run, before ++ step ∷ after, some f)

module _ {V W : Type 0} ⦃e : Eq V⦄ (iso : Iso) (env : Environment V W) where
  abbrev pub matches : Fields V → Fields V → Bool
  matches expected actual = compare_readback_fields iso expected actual none

  -- The result of one round: the run, the step as it is now, and how the round ends. The
  -- `finally` clause saves the execution with that step, except before the `try`.
  abbrev pub Round : Type 0
  Round = Run V W × Step V × Control

  unfoldable pub save : (Step V → Execution V) → Run V W → Step V → Run V W
  save with_step run step = record {
    world = env.save_record run.world (with_step step);
    log = saved (with_step step) ∷ run.log;
  }

  abbrev pub ended : (Step V → Execution V) → Run V W → Step V → Control → Round
  ended with_step run step control = (save with_step run step, step, control)

  abbrev pub uncertain_round : (Step V → Execution V) → Run V W → Step V → Round
  uncertain_round with_step run step =
      ended with_step run (with_error step needs_reconciliation upstream_result_uncertain) stop

  abbrev pub log_read : Run V W → String → Fields V → Run V W
  log_read run path current = record run { log = read path current ∷ run.log }

  -- The readback after the write.
  abbrev pub verified : (Step V → Execution V) → Step V → Run V W → Option (Fields V) → Round
  verified with_step step run none = uncertain_round with_step run step
  verified with_step step run (some readback) =
      let run' = log_read run step.path readback in
      if matches step.body readback
      then ended with_step run' (with_receipt step readback) next
      else ended with_step run' (with_error step needs_reconciliation readback_mismatch) stop

  abbrev pub after_patch : (Step V → Execution V) → Step V → Run V W × Bool → Round
  after_patch with_step step (run, false) = uncertain_round with_step run step
  after_patch with_step step (run, true) =
      let (world, answer) = env.get run.world step.path in
      verified with_step step (record run { world = world }) answer

  -- The write, after the execution is saved with the step marked as applying.
  unfoldable pub perform : (Step V → Execution V) → Step V → Run V W → Round
  perform with_step step run =
      let (world, done) = env.patch run.world step.path step.body in
      after_patch with_step step
        (record run { world = world; log = patched step.path step.body ∷ run.log }, done)

  abbrev pub after_renewal : (Step V → Execution V) → Step V → Run V W × Bool → Round
  after_renewal with_step step (run, false) = ended with_step run step (raised execution_lease_lost)
  after_renewal with_step step (run, true) =
      let step' = record step { status = applying } in
      perform with_step step' (save with_step run step')

  -- The step's current upstream state decides.
  abbrev pub decided : Bool → (Step V → Execution V) → Step V → Run V W → Option (Fields V) → Round
  decided write with_step step run none = uncertain_round with_step run step
  decided write with_step step run (some current) =
      let run' = log_read run step.path current in
      if matches step.body current
      then ended with_step run' (with_receipt step current) next
      else if not (matches step.before current)
      then ended with_step run' (with_error step failed upstream_precondition_changed) stop
      else if not write
      then ended with_step run' (record step { status = pending; verified_unchanged = true }) next
      else (let (world, renewed) = env.renew_lease run'.world in
          after_renewal with_step step (record run' { world = world }, renewed))

  -- The body of the `try`.
  unfoldable pub attempt : Bool → (Step V → Execution V) → Step V → Run V W → Round
  unfolding perform
  attempt write with_step step run =
      let (world, answer) = env.get run.world step.path in
      decided write with_step step (record run { world = world }) answer

  -- One round of the loop, over the steps of the execution as they are now.
  unfoldable pub round :
      User → Bool → (Step V → Execution V) → List (Step V) → Step V → Run V W → Round
  unfolding attempt is_ready
  round user write with_step steps step run =
      if not (is_api step.kind) || is_closed step.status
      then (run, step, next)
      else if not (may_write user step.permission)
      then (run, step, raised missing_execution_permission)
      else if not (is_ready step steps)
      then (run, record step { status = blocked }, next)
      else attempt write with_step step run

  unfoldable pub loop :
      User → Bool → Execution V → List (Step V) → List (Step V) → Run V W → Loop V W
  loop user write x before [] run = (run, before, none)
  loop user write x before (step ∷ after) run =
      let r = round user write (placed x before after) (before ++ step ∷ after) step run in
      resume (loop user write x (before ++ r.1 ∷ []) after r.0) before after r.0 r.1 r.2

-- The status of the execution, from those of its steps.
unfoldable pub progress : {V : Type 0} → List (Step V) → Progress
progress [] = all_applied
progress (s ∷ steps) =
    let all_steps = s ∷ steps in
    if all (λ t. is_cancelled t.status) all_steps
    then all_cancelled
    else if any (λ t. is_uncertain t.status) all_steps
    then uncertain
    else if any (λ t. is_unfinished t.status) all_steps
    then partially_applied
    else all_applied

module _ {V W : Type 0} ⦃e : Eq V⦄ (iso : Iso) (env : Environment V W) where
  -- The end of the function: an exception passes on, and otherwise the execution is saved once
  -- more with its status.
  abbrev pub finished : Execution V → Loop V W → Run V W × Execution V × Option Failure
  finished x (run, steps, some f) = (run, record x { steps = steps }, some f)
  finished x (run, steps, none) =
      let x' = record x { steps = steps; status = progress steps } in
      (record { world = env.save_record run.world x'; log = saved x' ∷ run.log }, x', none)

  unfoldable pub continue_execution :
      User → Bool → Execution V → Run V W → Run V W × Execution V × Option Failure
  unfolding loop progress
  continue_execution user write x run = finished x (loop iso env user write x [] x.steps run)
