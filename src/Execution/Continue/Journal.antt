-- ===== src/Execution/Continue/Journal.antt =====
-- What the loop writes upstream.
use intelliq.Prelude.{
  ◌≡◌, refl, String, Bool, true, false, List, [], ◌∷◌, ◌++◌, Eq, tests_differ, All, ap,
}
use intelliq.Execution.Readback.{Iso, Fields}
use intelliq.Execution.Steps.{is_api, is_closed, applying, Step, Execution}
use intelliq.Execution.Continue.{
  Environment, Event, saved, patched, read, Run, User, may_write, continue_execution,
}
use intelliq.Execution.Continue.Effects.{continue-Inv}

module _ {V : Type 0} where
  -- The saved execution names the write: it has a step with this path and body, as applying.
  pub record Announces (x : Execution V) (path : String) (body : Fields V) : Type 0 where
    pub earlier : List (Step V)
    pub later : List (Step V)
    pub step : Step V
    pub split : x.steps ≡ earlier ++ step ∷ later
    pub same_path : step.path ≡ path
    pub same_body : step.body ≡ body
    pub as_applying : step.status ≡ applying

  abbrev Announced : String → Fields V → List (Event V) → Type 0
  Announced path body [] = ⊥
  Announced path body (saved x ∷ l) = Announces x path body
  Announced path body (patched p b ∷ l) = ⊥
  Announced path body (read p f ∷ l) = ⊥

  -- Every write comes directly after a save that names it.
  abbrev pub IsJournaled : List (Event V) → Type 0
  IsJournaled [] = Unit
  IsJournaled (saved x ∷ l) = IsJournaled l
  IsJournaled (read p f ∷ l) = IsJournaled l
  IsJournaled (patched p b ∷ l) = Announced p b l × IsJournaled l

  -- The writes of a log, latest first.
  abbrev pub writes : List (Event V) → List (String × Fields V)
  writes [] = []
  writes (saved x ∷ l) = writes l
  writes (read p f ∷ l) = writes l
  writes (patched p b ∷ l) = (p, b) ∷ writes l

  -- A step of the approved execution on which the user may write, whose path and body these are.
  pub record Approves (user : User) (steps : List (Step V)) (path : String) (body : Fields V)
      : Type 0 where
    pub earlier : List (Step V)
    pub later : List (Step V)
    pub step : Step V
    pub split : steps ≡ earlier ++ step ∷ later
    pub same_path : step.path ≡ path
    pub same_body : step.body ≡ body
    pub permitted : may_write user step.permission ≡ true
    pub api_kind : is_api step.kind ≡ true
    pub not_closed : is_closed step.status ≡ false

module _ {V W : Type 0} ⦃e : Eq V⦄ (iso : Iso) (env : Environment V W) (user : User)
    (x : Execution V) (run : Run V W) where
  -- Every upstream write is preceded, with nothing between, by a save of the execution in which
  -- the step with this path and body is marked as applying, whatever the upstream service, the
  -- lease and the storage answer: a crash after the write finds the step in the stored record.
  pub continue_execution-IsJournaled :
      (write : Bool)
      → IsJournaled run.log
      → IsJournaled (continue_execution iso env user write x run).0.log
  continue_execution-IsJournaled write h =
      continue-Inv iso env IsJournaled (record { on_saved = λ y l j. j; on_read = λ p f l j. j })
        user write x run
        (λ given before after s split w l j. (
          record {
            earlier = before;
            later = after;
            step = record s { status = applying };
            split = refl;
            same_path = refl;
            same_body = refl;
            as_applying = refl;
          },
          j,
        ))
        h

  -- Without the write flag the call writes nothing upstream. So it is called by an approval that
  -- finds an uncertain write in the stored execution, and by the first pass of a reconciliation,
  -- whose second pass has the flag.
  pub continue_execution-read_only :
      writes (continue_execution iso env user false x run).0.log ≡ writes run.log
  continue_execution-read_only =
      continue-Inv iso env (λ l. writes l ≡ writes run.log)
        (record { on_saved = λ y l j. j; on_read = λ p f l j. j }) user false x run
        (λ given before after s split w. absurd (tests_differ refl w.writes)) refl

  -- Whatever is written upstream beyond what the log has already is the body of an API step of
  -- the execution that was passed in, at that step's path: a step that was not closed, and for
  -- which the user has the permission.
  pub continue_execution-Approves :
      (write : Bool)
      → (new : List (String × Fields V)) × (writes
            (continue_execution iso env user write x run).0.log
          ≡ new ++ writes run.log)
        × All (λ w. Approves user x.steps w.0 w.1) new
  continue_execution-Approves write =
      continue-Inv iso env Grown (record { on_saved = λ y l g. g; on_read = λ p f l g. g }) user
        write x run
        (λ given before after s split w l g. (
          (s.path, s.body) ∷ g.0,
          ap (λ (ws : List (String × Fields V)). (s.path, s.body) ∷ ws) g.1,
          (
            record {
              earlier = given;
              later = after;
              step = s;
              split = split;
              same_path = refl;
              same_body = refl;
              permitted = w.permitted;
              api_kind = w.api_kind;
              not_closed = w.not_closed;
            },
            g.2,
          ),
        ))
        ([], refl, tt)
    where
      Grown : List (Event V) → Type 0
      Grown l =
          (new : List (String × Fields V)) × (writes l ≡ new ++ writes run.log)
          × All (λ w. Approves user x.steps w.0 w.1) new
