-- ===== src/Execution/Cancel.antt =====
-- `cancel_execution` of apps/api/src/app/api/v4_routes.py, between the lease's acquisition and the
-- save: what it does to the execution that it found. The time of the cancellation is not kept.
use intelliq.Execution.Steps.{
  Status, is_done, is_uncertain, is_open, Step, Progress, Execution, cancelled, partially_applied,
  all_cancelled,
}
use intelliq.Prelude.{
  [], String, ◌≡◌, refl, ◌⊎◌, inl, inr, Bool, true, false, ◌||◌, some, List, ◌∷◌, map, arith,
  if◌then◌else◌, Bool-cases, any, Result, ok, err,
}

pub data CancelError : Type 0 where
  reconcile_uncertain_writes_before_cancelling : CancelError

neither : (a b : Bool) → (a || b) ≡ false → (a ≡ false) × (b ≡ false)
neither a b h = ground arith

open_undone : (t : Status) → is_open t ≡ true → false ≡ is_done t
open_undone t h = ground arith

module _ {V : Type 0} where
  abbrev pub status_of : List (Step V) → Progress
  status_of steps = if any (λ s. is_done s.status) steps then partially_applied else all_cancelled

  -- What a cancelled execution has of each step.
  abbrev pub IsSettled : Step V → Step V → Type 0
  IsSettled s s' =
      (is_open s'.status ≡ false)
      × (is_uncertain s'.status ≡ false)
      × (is_done s'.status ≡ is_done s.status)
      × (s'.receipt ≡ s.receipt)
      × ((s' ≡ s) ⊎ ((is_open s.status ≡ true) × (s'.status ≡ cancelled)))

  abbrev pub AllSettled : List (Step V) → List (Step V) → Type 0
  AllSettled [] [] = Unit
  AllSettled [] (s' ∷ ss') = ⊥
  AllSettled (s ∷ ss) [] = ⊥
  AllSettled (s ∷ ss) (s' ∷ ss') = IsSettled s s' × AllSettled ss ss'

module _ {V : Type 0} (user note : String) where
  unfoldable pub cancel_step : Step V → Step V
  cancel_step step =
      if is_open step.status
      then record step { status = cancelled; actor = some user; note = some note }
      else step

  unfoldable pub cancelled_steps : List (Step V) → List (Step V)
  cancelled_steps steps = map cancel_step steps

  unfoldable pub cancel_execution : Execution V → Result CancelError (Execution V)
  unfolding cancelled_steps cancel_step
  cancel_execution x =
      if any (λ s. is_uncertain s.status) x.steps
      then err reconcile_uncertain_writes_before_cancelling
      else (let steps = cancelled_steps x.steps in
          ok (record x { steps = steps; status = status_of steps }))

  cancel_step-IsSettled : (s : Step V) → is_uncertain s.status ≡ false → IsSettled s (cancel_step s)
  unfolding cancel_step
  cancel_step-IsSettled s sure = elim (Bool-cases (is_open s.status)) [
    | inl unperformed ↦
        rw unperformed (refl, refl, open_undone s.status unperformed, refl, inr (refl, refl))
    | inr performed ↦ rw performed (performed, sure, refl, refl, inl refl)
  ]

  cancelled_steps-AllSettled :
      (ss : List (Step V))
      → any (λ s. is_uncertain s.status) ss ≡ false
      → AllSettled ss (cancelled_steps ss)
  unfolding cancelled_steps any
  cancelled_steps-AllSettled [] h = tt
  cancelled_steps-AllSettled (s ∷ ss) h =
      let (sure, rest) = neither (is_uncertain s.status) _ h in
      (cancel_step-IsSettled s sure, cancelled_steps-AllSettled ss rest)

  -- A cancellation is refused exactly while the result of a write is uncertain. Otherwise it settles
  -- every step: no step stays open, performed steps and receipts are as they were, and only open
  -- steps are cancelled.
  pub cancel_execution-AllSettled :
      (x : Execution V)
      → ((cancel_execution x ≡ err reconcile_uncertain_writes_before_cancelling)
          × (any (λ s. is_uncertain s.status) x.steps ≡ true))
        ⊎ ((y : Execution V) × (cancel_execution x ≡ ok y)
            × (y.approval ≡ x.approval)
            × AllSettled x.steps y.steps)
  unfolding cancel_execution
  cancel_execution-AllSettled x = elim (Bool-cases (any (λ s. is_uncertain s.status) x.steps)) [
    | inl unsure ↦ inl (rw unsure, unsure)
    | inr sure ↦ inr (
      record x { steps = cancelled_steps x.steps; status = status_of (cancelled_steps x.steps) },
      rw sure,
      refl,
      cancelled_steps-AllSettled x.steps sure,
    )
  ]
