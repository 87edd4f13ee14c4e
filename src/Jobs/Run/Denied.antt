-- ===== src/Jobs/Run/Denied.antt =====
-- A job of a user who lost the access to its organization.
use intelliq.Store.Leases.{release_lease}
use intelliq.Store.Sessions.{SessionRecord, get_session}
use intelliq.Store.Rows.{Store}
use intelliq.Jobs.Run.Deliveries.{get_job-release_lease, Claims, claimed_job}
use intelliq.Jobs.Run.Keeps.{save-IsStored}
use intelliq.Jobs.Run.{
  lease_name, authorize, authenticated, authenticate, use_session, attempt, handled,
  run_analysis_job, returned,
}
use intelliq.Jobs.Stages.{Pipeline, Delivery, nonempty, as_running, at_stage, as_failed}
use intelliq.Jobs.Access.{User, IsDenied, IsDenied-require_job_access}
use intelliq.Jobs.Records.{is_terminal, Job, Work, IsStored}
use intelliq.Prelude.{string_eq, suc, String, ◌≡◌, ◌∙◌, false, Option, some, ok}

module _ {P R : Type 0} (org id : String) (d : Delivery P R) where
  -- The delivery with other pipelines.
  abbrev pub with_pipelines : Pipeline R → Pipeline R → Delivery P R
  with_pipelines p q = record d { run_analysis = p; run_knowledge_import = q }

  abbrev pub denied_job : String → Job R → Job R
  denied_job code j = as_failed code (at_stage "authorizing" 10 (as_running (suc j.attempts) j))

  -- When the session has no user, or its user is no administrator and is no member of the
  -- organization, or lacks one of the four read permissions there, the job fails with
  -- `organization_access_denied` or, in the last case, `missing_permissions`, and neither pipeline
  -- has any part in the outcome.
  pub run_analysis_job-IsDenied :
      (s s' : Store (Work R)) (j : Job R) (session_id code : String) (session : SessionRecord P)
      (user : Option User)
      → IsStored s org id j
      → is_terminal j.status ≡ false
      → Claims org id d s s'
      → nonempty j.session_id ≡ some session_id
      → get_session d.sessions session_id ≡ some session
      → d.current session ≡ ok user
      → IsDenied user org code
      → (s'' : Store (Work R)) × IsStored s'' org id (denied_job code j)
        × ((p q : Pipeline R)
            → run_analysis_job org id (with_pipelines p q) s
              ≡ (s'', returned (some (denied_job code j))))
  unfolding run_analysis_job attempt use_session authenticate authenticated authorize handled
  run_analysis_job-IsDenied s s' j session_id code session user stored active claims has_session
        found answered denied =
      let refused = IsDenied-require_job_access user org code denied in
      let n = suc j.attempts in
      let at_claim = claimed_job org id d s s' j claims stored in
      let (s₁, begun, stored₁) = save-IsStored org id n (as_running n) d.started s' j j at_claim in
      let j₁ = as_running n j in
      let (s₂, checked, stored₂) =
        save-IsStored org id n (at_stage "authorizing" 10) d.authorized s₁ j₁ j₁ stored₁ in
      let j₂ = at_stage "authorizing" 10 j₁ in
      let (s₃, failed_now, stored₃) =
        save-IsStored org id n (as_failed code) d.finished s₂ j₂ j₂ stored₂ in
      (
        release_lease s₃ org (lease_name id) d.token,
        get_job-release_lease org id s₃ (lease_name id) d.token ∙ stored₃,
        λ p q. rw stored (
            rw (active, claims)
              (rw at_claim (
                rw active (
                  rw begun (
                    rw has_session
                      (rw found (rw answered (rw checked (rw refused (rw failed_now)))))))))),
      )
