-- ===== src/Execution/Continue/Effects.antt =====
-- One rule for what the loop writes to its log: an invariant of logs is kept if reads and saves
-- keep it, and if it is kept by the pair of a save with the step as applying and the write of that
-- step, for a step on which the code decides to write.
use mathlib.Core.List.{append_assoc}
use intelliq.Prelude.{
  sym, ◌∙◌, ◌≡◌, refl, String, Bool, true, false, not, ◌||◌, Option, none, some, List, [], ◌∷◌,
  ◌++◌, arith, Eq, Bool-cases, inl, inr,
}
use intelliq.Execution.Readback.{Iso, Fields}
use intelliq.Execution.Steps.{is_api, applying, is_closed, Step, Execution}
use intelliq.Execution.Continue.{
  Environment, Event, saved, patched, read, Run, User, Control, next, stop, raised, may_write,
  is_ready, save, verified, after_patch, perform, after_renewal, decided, attempt, round, loop,
  placed, matches, finished, continue_execution, Loop, resume,
}

-- On such a step the code writes upstream.
pub record IsWritable {V : Type 0} (user : User) (write : Bool) (steps : List (Step V)) (s : Step V)
    : Type 0 where
  pub writes : write ≡ true
  pub api_kind : is_api s.kind ≡ true
  pub not_closed : is_closed s.status ≡ false
  pub permitted : may_write user s.permission ≡ true
  pub ready : is_ready s steps ≡ true

pub record Rule {V : Type 0} (Inv : List (Event V) → Type 0) : Type 0 where
  pub on_saved : (x : Execution V) (l : List (Event V)) → Inv l → Inv (saved x ∷ l)
  pub on_read : (p : String) (f : Fields V) (l : List (Event V)) → Inv l → Inv (read p f ∷ l)

-- What a write must keep: the write stands directly above the save that announces it.
abbrev pub OnWrite :
    {V : Type 0} → (List (Event V) → Type 0) → (Step V → Execution V) → Step V → Type 0
OnWrite {V} Inv with_step s =
    (l : List (Event V))
    → Inv l
    → Inv (patched s.path s.body ∷ saved (with_step (record s { status = applying })) ∷ l)

-- The same of any step of the given execution at any point of the loop: the steps before it may
-- have changed, it and those after it have not.
abbrev pub OnWrites : {V : Type 0} → (List (Event V) → Type 0) → User → Bool → Execution V → Type 0
OnWrites {V} Inv user write x =
    (given before after : List (Step V)) (s : Step V)
    → x.steps ≡ given ++ s ∷ after
    → IsWritable user write (before ++ s ∷ after) s
    → OnWrite Inv (placed x before after) s

module _ {V W : Type 0} ⦃e : Eq V⦄ (iso : Iso) (env : Environment V W)
    (Inv : List (Event V) → Type 0) (rule : Rule Inv) where
  open rule use {on_saved, on_read}

  module _ (with_step : Step V → Execution V) where
    verified-Inv :
        (s : Step V) (run : Run V W) (answer : Option (Fields V))
        → Inv run.log
        → Inv (verified iso env with_step s run answer).0.log
    unfolding save
    verified-Inv s run none h = on_saved _ _ h
    verified-Inv s run (some readback) h = elim (Bool-cases (matches iso env s.body readback)) [
      | inl good ↦ rw good (on_saved _ _ (on_read _ _ _ h))
      | inr bad ↦ rw bad (on_saved _ _ (on_read _ _ _ h))
    ]

    after_patch-Inv :
        (s : Step V) (run : Run V W) (done : Bool)
        → Inv run.log
        → Inv (after_patch iso env with_step s (run, done)).0.log
    unfolding save
    after_patch-Inv s run false h = on_saved _ _ h
    after_patch-Inv s run true h = verified-Inv s _ _ h

    after_renewal-Inv :
        (s : Step V) (run : Run V W) (renewed : Bool)
        → OnWrite Inv with_step s
        → Inv run.log
        → Inv (after_renewal iso env with_step s (run, renewed)).0.log
    unfolding perform save
    after_renewal-Inv s run false on_write h = on_saved _ _ h
    after_renewal-Inv s run true on_write h =
        after_patch-Inv (record s { status = applying }) _ _ (on_write run.log h)

    decided-Inv :
        (write : Bool) (s : Step V) (run : Run V W) (answer : Option (Fields V))
        → (write ≡ true → OnWrite Inv with_step s)
        → Inv run.log
        → Inv (decided iso env write with_step s run answer).0.log
    unfolding save
    decided-Inv write s run none on_write h = on_saved _ _ h
    decided-Inv write s run (some current) on_write h =
        let h' = on_read s.path current run.log h in
        elim (Bool-cases (matches iso env s.body current)) [
          | inl done ↦ rw done (on_saved _ _ h')
          | inr open_step ↦ rw open_step (elim (Bool-cases (matches iso env s.before current)) [
            | inr moved ↦ rw moved (on_saved _ _ h')
            | inl same ↦ rw same (elim (Bool-cases write) [
              | inr no_write ↦ rw no_write (on_saved _ _ h')
              | inl writes ↦ rw writes (after_renewal-Inv s _ _ (on_write writes) h')
            ])
          ])
        ]

    -- One round keeps the invariant, if a write on this step does.
    round-Inv :
        (user : User) (write : Bool) (steps : List (Step V)) (s : Step V) (run : Run V W)
        → (IsWritable user write steps s → OnWrite Inv with_step s)
        → Inv run.log
        → Inv (round iso env user write with_step steps s run).0.log
    unfolding round attempt
    round-Inv user write steps s run on_write h =
        elim (Bool-cases (not (is_api s.kind) || is_closed s.status)) [
          | inl skip ↦ rw skip h
          | inr work ↦ rw work (elim (Bool-cases (may_write user s.permission)) [
            | inr refused ↦ rw refused h
            | inl allowed ↦ rw allowed (elim (Bool-cases (is_ready s steps)) [
              | inr waits ↦ rw waits h
              | inl ready ↦ rw ready (
                  decided-Inv write s _ _
                    (λ writes. on_write (record {
                      writes = writes;
                      api_kind = (split (is_api s.kind) (is_closed s.status) work).0;
                      not_closed = (split (is_api s.kind) (is_closed s.status) work).1;
                      permitted = allowed;
                      ready = ready;
                    }))
                    h)
            ])
          ])
        ]
      where
        split : (a b : Bool) → (not a || b) ≡ false → (a ≡ true) × (b ≡ false)
        split a b p = ground arith

  loop-Inv :
      (user : User) (write : Bool) (x : Execution V) (given before after : List (Step V))
      (run : Run V W)
      → OnWrites Inv user write x
      → x.steps ≡ given ++ after
      → Inv run.log
      → Inv (loop iso env user write x before after run).0.log
  unfolding loop
  loop-Inv user write x given before [] run on_writes split h = h
  loop-Inv user write x given before (s ∷ after) run on_writes split h =
      let r = round iso env user write (placed x before after) (before ++ s ∷ after) s run in
      let h' =
        round-Inv (placed x before after) user write (before ++ s ∷ after) s run
          (on_writes given before after s split) h in
      resumed (loop iso env user write x (before ++ r.1 ∷ []) after r.0) r.0 r.1 r.2 h' (
        loop-Inv user write x (given ++ s ∷ []) (before ++ r.1 ∷ []) after r.0 on_writes
          (split ∙ sym (append_assoc given (s ∷ []) after)) h')
    where
      resumed :
          (rest : Loop V W) (run' : Run V W) (s' : Step V) (c : Control)
          → Inv run'.log
          → Inv rest.0.log
          → Inv (resume rest before after run' s' c).0.log
      resumed rest run' s' next p q = q
      resumed rest run' s' stop p q = p
      resumed rest run' s' (raised f) p q = p

  -- So does the whole call.
  pub continue-Inv :
      (user : User) (write : Bool) (x : Execution V) (run : Run V W)
      → OnWrites Inv user write x
      → Inv run.log
      → Inv (continue_execution iso env user write x run).0.log
  unfolding continue_execution
  continue-Inv user write x run on_writes h =
      ended_lem (loop iso env user write x [] x.steps run)
        (loop-Inv user write x [] [] x.steps run on_writes refl h)
    where
      ended_lem : (l : Loop V W) → Inv l.0.log → Inv (finished iso env x l).0.log
      ended_lem (run', steps, none) p = on_saved _ _ p
      ended_lem (run', steps, some f) p = p
