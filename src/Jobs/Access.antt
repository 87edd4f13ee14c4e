-- ===== src/Jobs/Access.antt =====
-- `_require_job_access` of apps/api/src/app/workers/worker.py: what the signed-in user must hold
-- before a job runs for an organization. The result is the failure's code, if there is one.
use intelliq.Prelude.{
  all-All, string_eq, String, ◌≡◌, ◌⊎◌, Bool, true, Option, none, some, List, ◌∷◌, if◌then◌else◌,
  all, All, ◌==◌, mem, [], refl, ◌↔◌, inl, inr, arith, false, tests_differ, ap, sym, ◌&&◌,
}

-- The user of an authenticated session; a missing organization has no permissions.
pub record User : Type 0 where
  pub app_admin : Bool
  pub organization_ids : List String
  pub organization_permissions : List (String × List String)

-- `ANALYSIS_READ_PERMISSIONS`
abbrev pub analysis_read_permissions : List String
analysis_read_permissions = "projects.read" ∷ "tasks.read" ∷ "workers.read" ∷ "worklogs.read" ∷ []

-- `permissions.get(organization_id, ())`
unfoldable pub permissions_of : List (String × List String) → String → List String
permissions_of [] org = []
permissions_of ((o, granted) ∷ rest) org =
    let others = permissions_of rest org in if o == org then granted else others

-- `not ANALYSIS_READ_PERMISSIONS.difference(granted)`
abbrev pub may_read : List String → Bool
may_read granted = all (λ p. mem p granted) analysis_read_permissions

-- `_require_job_access`
unfoldable pub require_job_access : Option User → String → Option String
require_job_access none org = some "organization_access_denied"
require_job_access (some user) org =
    if user.app_admin
    then none
    else (if mem org user.organization_ids
        then (if may_read (permissions_of user.organization_permissions org)
            then none
            else some "missing_permissions")
        else some "organization_access_denied")

-- Who may run a job: an administrator, or a member of the organization that holds each of the four
-- read permissions in it.
abbrev pub HasAccess : Option User → String → Type 0
HasAccess none org = ⊥
HasAccess (some user) org =
    (user.app_admin ≡ true)
    ⊎ ((mem org user.organization_ids ≡ true)
        × All (λ p. mem p (permissions_of user.organization_permissions org) ≡ true)
            analysis_read_permissions)

some-none : {c : String} → some c ≡ none → ⊥
some-none h = cc

-- The three tests in their order.
tests :
    (admin member granted : Bool) (Granted : Type 0) (c c' : String)
    → (granted ≡ true) ↔ Granted
    → ((if admin then none else (if member then (if granted then none else some c) else some c'))
        ≡ none)
      ↔ ((admin ≡ true) ⊎ ((member ≡ true) × Granted))
tests true member granted Granted c c' h = (λ p. inl refl, λ p. refl)
tests false true true Granted c c' h = (λ p. inr (refl, h.0 refl), λ p. refl)
tests false true false Granted c c' h = (
  λ p. absurd (some-none p),
  λ p. elim p [
    | inl admin ↦ absurd (tests_differ refl admin)
    | inr (member, granted) ↦ absurd (tests_differ refl (h.1 granted))
  ],
)
tests false false granted Granted c c' h = (
  λ p. absurd (some-none p),
  λ p. elim p [
    | inl admin ↦ absurd (tests_differ refl admin)
    | inr (member, _) ↦ absurd (tests_differ refl member)
  ],
)

-- A user has access to a job's organization if and only if it is an administrator, or a member that
-- holds each of the four read permissions there.
pub require_job_access-HasAccess :
    (user : Option User) (org : String) → (require_job_access user org ≡ none) ↔ HasAccess user org
unfolding require_job_access
require_job_access-HasAccess none org = ground arith
require_job_access-HasAccess (some user) org =
    let granted = permissions_of user.organization_permissions org in
    tests user.app_admin (mem org user.organization_ids) (may_read granted) _ _ _
      (all-All (λ p. mem p granted) analysis_read_permissions)

-- Some item fails.
abbrev pub AnyLacks : List String → List String → Type 0
AnyLacks granted [] = ⊥
AnyLacks granted (p ∷ ps) = (mem p granted ≡ false) ⊎ AnyLacks granted ps

-- Who may not run a job, and the code that it fails with: no user, or a user that is no administrator
-- and is no member of the organization, or lacks one of the four read permissions there.
abbrev pub IsDenied : Option User → String → String → Type 0
IsDenied none org code = code ≡ "organization_access_denied"
IsDenied (some user) org code =
    ((code ≡ "organization_access_denied")
      × (user.app_admin ≡ false)
      × (mem org user.organization_ids ≡ false))
    ⊎ ((code ≡ "missing_permissions")
        × (user.app_admin ≡ false)
        × (mem org user.organization_ids ≡ true)
        × AnyLacks (permissions_of user.organization_permissions org) analysis_read_permissions)

AnyLacks-may_read :
    (granted ps : List String) → AnyLacks granted ps → all (λ p. mem p granted) ps ≡ false
unfolding all
AnyLacks-may_read granted [] h = absurd h
AnyLacks-may_read granted (p ∷ ps) (inl h) = rw h
AnyLacks-may_read granted (p ∷ ps) (inr h) =
    rw (AnyLacks-may_read granted ps h) (and_false (mem p granted))
  where
    and_false : (b : Bool) → (b && false) ≡ false
    and_false b = ground arith

pub IsDenied-require_job_access :
    (user : Option User) (org code : String)
    → IsDenied user org code
    → require_job_access user org ≡ some code
unfolding require_job_access
IsDenied-require_job_access none org code same = ap some (sym same)
IsDenied-require_job_access (some user) org code (inl (same, admin, member)) =
    rw (admin, member) (ap some (sym same))
IsDenied-require_job_access (some user) org code (inr (same, admin, member, lacks)) =
    rw
      (
        admin,
        member,
        AnyLacks-may_read (permissions_of user.organization_permissions org)
            analysis_read_permissions lacks,
      )
      (ap some (sym same))
