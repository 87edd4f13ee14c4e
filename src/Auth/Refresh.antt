-- ===== src/Auth/Refresh.antt =====
-- The functions of `AuthService` in apps/api/src/app/api/auth_service.py that read and rotate the
-- tokens of one session: `refresh`, `_refresh_unlocked`, `current`, `_current_live`, `logout`,
-- `_acquire_refresh_lease`, `_token_rotated` and `_safe_tokens`. The lock of the threads of one
-- process is left out: it only orders whole calls of `refresh`. The status of an
-- `AuthenticationFailure` is part of it.
pub mod Quiet
pub mod Acquire
pub mod Leases
pub mod Failures
use intelliq.Auth.Calls.{
  Services, Raised, Tokens, State, Code, give, raise, and_then, bind, attempt, call, read, note,
  act, upstream, vault, cut_off, failure, acquired, released, checked, rotated, stored, identified,
  updated, cleared, deleted, waited, signed_out, store_down,
}
use intelliq.Prelude.{
  string_eq, nat_eq, [], ℕ, zero, suc, ◌+◌, String, Bool, true, false, not, Option, none, some, ◌∷◌,
  ltb, leb, if◌then◌else◌, get_or, ◌==◌, Result, ok,
}

-- `REFRESH_LEASE_WAIT_SECONDS`, in milliseconds.
abbrev pub refresh_lease_wait : ℕ
refresh_lease_wait = 15000

-- `_token_rotated`
unfoldable pub token_rotated : Option Tokens → Option String → Option Tokens → Bool
token_rotated none failed_access before = false
token_rotated (some current) (some access) before = not (current.access == access)
token_rotated (some current) none none = false
token_rotated (some current) none (some before) =
    ltb before.refresh_generation current.refresh_generation

-- The errors that `_refresh_unlocked` catches, and what it raises then.
abbrev pub is_caught : Raised → Bool
is_caught store_down = false
is_caught cut_off = false
is_caught e = true

abbrev pub refresh_failure : Raised → Raised
refresh_failure (failure code status) = failure code status
refresh_failure vault = failure "session_storage_unavailable" 503
refresh_failure e = failure "refresh_failed" 401

-- The handler of `_safe_tokens`.
abbrev pub vault_failure : Raised → Raised
vault_failure vault = failure "session_storage_unavailable" 503
vault_failure e = e

abbrev pub is_unauthorized : ℕ → Bool
is_unauthorized status = status == 401

abbrev pub waiting_failure : Raised → Raised
waiting_failure (upstream status) =
    if is_unauthorized status
    then failure "upstream_refresh_unavailable" 503
    else failure "upstream_identity_unavailable" 502
waiting_failure e = e

module _ {W U S : Type 0} (v : Services W U S) where
  unfoldable pub safe_tokens : Code W (Option Tokens)
  safe_tokens = attempt (read v.vault_get) (λ e. raise (vault_failure e))

  abbrev pub require_verified : U → Code W Bool
  require_verified user =
      if v.is_verified user then give true else raise (failure "email_not_verified" 403)

  abbrev pub give_option : {A : Type 0} → W × Option A → W × Result Raised (Option A)
  give_option (w, found) = (w, ok found)

  -- The identity is stored for the session, if it is still there.
  abbrev pub identify : S → U → Code W (S × U)
  identify session user =
      bind (call updated (λ w. give_option (v.update_session_identity user w)))
        (λ found. give (get_or found session, user))

  -- `_current_live`
  unfoldable pub current_live : S → Code W (S × U)
  current_live session =
      bind (call identified (v.me session))
        (λ user. bind (require_verified user) (λ done. identify session user))

  abbrev pub found_or : Option S → Code W S
  found_or none = raise (failure "session_not_found" 401)
  found_or (some session) = give session

  -- What `_refresh_unlocked` tries.
  unfoldable pub rotate : S → Code W (S × U)
  rotate session = bind (call rotated (v.upstream_refresh session)) (λ tokens.
      bind (call stored (v.vault_put session tokens.0 tokens.1)) (λ done.
        bind (read (λ w. give_option (v.get_session w))) (λ found. bind (found_or found) (λ renewed.
          bind (call identified (v.me renewed))
            (λ user. bind (require_verified user) (λ done. identify renewed user))))))

  -- The session ends: the vault is cleared and the session deleted.
  unfoldable pub end_session : Code W Bool
  end_session = bind (call cleared v.vault_clear) (λ done. call deleted v.delete_session)

  abbrev pub give_up : Raised → Code W (S × U)
  give_up e = if is_caught e then bind end_session (λ done. raise (refresh_failure e)) else raise e

  unfoldable pub refresh_unlocked : S → Code W (S × U)
  unfolding rotate end_session
  refresh_unlocked session = attempt (rotate session) give_up

  abbrev pub has_lease : Option String → Code W (Option String) → Code W (Option String)
  has_lease none wait = wait
  has_lease (some lease) wait = bind (note (acquired lease)) (λ done. give (some lease))

  -- The loop of `_acquire_refresh_lease`, for at most so many rounds.
  unfoldable pub acquire_refresh_lease :
      ℕ → ℕ → Option Tokens → Option String → Code W (Option String)
  unfolding safe_tokens token_rotated
  acquire_refresh_lease zero deadline before failed_access = raise cut_off
  acquire_refresh_lease (suc n) deadline before failed_access =
      let again = acquire_refresh_lease n deadline before failed_access in
      bind (attempt (read v.acquire_lease) (λ e. raise (failure "refresh_lock_unavailable" 503)))
        (λ lease. has_lease lease (
          bind safe_tokens (λ latest s.
            if token_rotated latest failed_access before
            then give none s
            else (if leb deadline (v.monotonic s.world)
                then raise (failure "refresh_lock_timeout" 503) s
                else bind (act waited v.sleep) (λ done. again) s))))

  -- The handler of the first look at the tokens: an expired token goes on to the rotation.
  abbrev pub unless_unauthorized : Code W (S × U) → Raised → Code W (S × U)
  unless_unauthorized next (upstream status) =
      if is_unauthorized status then next else raise (failure "upstream_identity_unavailable" 502)
  unless_unauthorized next e = raise e

  -- Under the lease.
  unfoldable pub refresh_held : S → Option Tokens → Option String → Code W (S × U)
  unfolding safe_tokens token_rotated current_live refresh_unlocked
  refresh_held session before failed_access = bind safe_tokens (λ latest.
      let is_rotated = token_rotated latest failed_access before in
      bind (note (checked is_rotated))
        (λ done. if is_rotated then current_live session else refresh_unlocked session))

  -- `finally`: the lease is released, and the outcome stays.
  abbrev pub release : String → State W × Result Raised (S × U) → State W × Result Raised (S × U)
  release lease (s, r) =
      (record { world = v.release_lease lease s.world; journal = released lease ∷ s.journal }, r)

  abbrev pub with_lease : S → Option Tokens → Option String → Option String → Code W (S × U)
  with_lease session before failed_access none s =
      attempt (current_live session) (λ e. raise (waiting_failure e)) s
  with_lease session before failed_access (some lease) s =
      release lease (refresh_held session before failed_access s)

  unfoldable pub refresh_locked : ℕ → S → Option Tokens → Option String → Code W (S × U)
  unfolding acquire_refresh_lease refresh_held current_live
  refresh_locked rounds session before failed_access s =
      bind
        (acquire_refresh_lease rounds (v.monotonic s.world + refresh_lease_wait) before
          failed_access)
        (with_lease session before failed_access) s

  -- `refresh` of a live session.
  unfoldable pub refresh : ℕ → S → Option String → Code W (S × U)
  unfolding safe_tokens token_rotated current_live refresh_locked
  refresh rounds session failed_access = bind safe_tokens (λ before.
      let next = refresh_locked rounds session before failed_access in
      if token_rotated before failed_access none
      then attempt (current_live session) (unless_unauthorized next)
      else next)

  abbrev pub ending_session : {A : Type 0} → Raised → Code W A
  ending_session (failure code status) = bind end_session (λ done. raise (failure code status))
  ending_session e = raise e

  abbrev pub access_of : Option Tokens → Option String
  access_of none = none
  access_of (some tokens) = some tokens.access

  -- `current` of a live session.
  unfoldable pub current : ℕ → S → Code W (S × U)
  unfolding safe_tokens current_live refresh end_session
  current rounds session = bind safe_tokens (λ tokens.
      attempt (current_live session)
        (unless_unauthorized (attempt (refresh rounds session (access_of tokens)) ending_session)))

  -- `finally`: an error of the clean-up takes the place of the outcome.
  abbrev pub after_logout : State W × Result Raised Bool → State W × Result Raised Bool
  after_logout (s, r) = and_then (λ done t. (t, r)) (end_session s)

  -- `logout` of a live session.
  unfoldable pub logout : S → Code W Bool
  unfolding end_session
  logout session s = after_logout (call signed_out (v.upstream_logout session) s)
