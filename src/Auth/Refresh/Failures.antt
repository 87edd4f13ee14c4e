-- ===== src/Auth/Refresh/Failures.antt =====
-- How the functions of apps/api/src/app/api/auth_service.py end when a call fails, and that the wait
-- for a lease ends.
use intelliq.Auth.Refresh.Acquire.{late_or, decide, wait}
use intelliq.Auth.Refresh.{
  token_rotated, rotate, end_session, refresh_unlocked, logout, refresh_lease_wait, vault_failure,
  safe_tokens, has_lease, acquire_refresh_lease, give_up,
}
use intelliq.Auth.Calls.{
  Raised, Event, Tokens, Services, State, Code, give, raise, bind, or_else, upstream, vault,
  cut_off, failure, cleared, deleted, waited, signed_out, and_then, act, call, call_then,
  store_down,
}
use intelliq.Prelude.{
  string_eq, nat_eq, ℕ, ◌+◌, ◌≤◌, ◌<◌, String, ◌≡◌, refl, ◌≢◌, ◌⊎◌, inl, inr, Option, none, List,
  ◌∷◌, Result, ok, err, zero, suc, ◌*◌, some, arith, Bool, leb, if-holds, if-cases,
}

module _ {W U S : Type 0} (v : Services W U S) where
  -- The row was deleted last, and `r` is the outcome; an error of the call takes its place.
  abbrev pub Deleted :
      {A : Type 0}
      → List Event
      → Result Raised A
      → W × Result Raised Bool
      → State W × Result Raised A
      → Type 0
  Deleted j r (w, ok done) x = x ≡ (record { world = w; journal = deleted ∷ j }, r)
  Deleted j r (w, err e) x = x ≡ (record { world = w; journal = deleted ∷ j }, err e)

  -- The vault was cleared, and then the row deleted; after an error of the vault the row is left.
  abbrev pub Cleared :
      {A : Type 0}
      → List Event
      → Result Raised A
      → W × Result Raised Bool
      → State W × Result Raised A
      → Type 0
  Cleared j r (w, ok done) x = Deleted (cleared ∷ j) r (v.delete_session w) x
  Cleared j r (w, err e) x = x ≡ (record { world = w; journal = cleared ∷ j }, err e)

  -- The session that was left in the state `t` was ended, with the outcome `r`.
  abbrev pub IsOver : {A : Type 0} → State W → Result Raised A → State W × Result Raised A → Type 0
  IsOver t r x = Cleared t.journal r (v.vault_clear t.world) x

  end_session-IsOver :
      {A : Type 0} (r : Result Raised A) (t : State W)
      → IsOver t r (and_then (λ done u. (u, r)) (end_session v t))
  unfolding end_session
  end_session-IsOver {A} r t = after_clear (v.vault_clear t.world)
    where
      after_delete :
          (x : W × Result Raised Bool)
          → Deleted
              (cleared ∷ t.journal)
              r
              x
              (and_then (λ done u. (u, r)) (call_then deleted (cleared ∷ t.journal) x))
      after_delete (w, ok gone) = refl
      after_delete (w, err e) = refl

      after_clear :
          (x : W × Result Raised Bool)
          → Cleared t.journal r x (
              and_then
                (λ done u. (u, r))
                (and_then (λ done. call deleted v.delete_session) (call_then cleared t.journal x)))
      after_clear (w, err e) = refl
      after_clear (w, ok done) = after_delete (v.delete_session w)

  -- How a rotation ended that had raised an error in the state `t`.
  abbrev pub IsGivenUp : Raised → State W → State W × Result Raised (S × U) → Type 0
  IsGivenUp (failure code status) t x = IsOver t (err (failure code status)) x
  IsGivenUp (upstream status) t x = IsOver t (err (failure "refresh_failed" 401)) x
  IsGivenUp vault t x = IsOver t (err (failure "session_storage_unavailable" 503)) x
  IsGivenUp store_down t x = x ≡ (t, err store_down)
  IsGivenUp cut_off t x = x ≡ (t, err cut_off)

  -- An error of a rotation ends the session, if it is of the upstream service, the vault or the check
  -- of the user: the vault is cleared and then the row deleted, and the failure of the check is raised
  -- as it is, an upstream error as `refresh_failed` with 401 and a vault error as
  -- `session_storage_unavailable` with 503; an error of the two last calls is raised in their place.
  -- An error of the store ends no session and is raised as it is. Without an error the rotation's
  -- session and user are returned, and nothing else is called.
  pub refresh_unlocked-IsGivenUp :
      (session : S) (s : State W)
      → ((a : S × U) × (rotate v session s ≡ ((rotate v session s).0, ok a))
          × (refresh_unlocked v session s ≡ ((rotate v session s).0, ok a)))
        ⊎ ((e : Raised) × ((rotate v session s).1 ≡ err e)
            × IsGivenUp e (rotate v session s).0 (refresh_unlocked v session s))
  unfolding refresh_unlocked
  refresh_unlocked-IsGivenUp session s = rescued (rotate v session s)
    where
      rescued :
          (x : State W × Result Raised (S × U))
          → ((a : S × U) × (x ≡ (x.0, ok a)) × (or_else (give_up v) x ≡ (x.0, ok a)))
            ⊎ ((e : Raised) × (x.1 ≡ err e) × IsGivenUp e x.0 (or_else (give_up v) x))
      rescued (t, ok a) = inl (a, refl, refl)
      rescued (t, err (failure code status)) =
          inr (failure code status, refl, end_session-IsOver (err (failure code status)) t)
      rescued (t, err (upstream status)) =
          inr (upstream status, refl, end_session-IsOver (err (failure "refresh_failed" 401)) t)
      rescued (t, err vault) =
          inr (vault, refl, end_session-IsOver (err (failure "session_storage_unavailable" 503)) t)
      rescued (t, err store_down) = inr (store_down, refl, refl)
      rescued (t, err cut_off) = inr (cut_off, refl, refl)

  -- A logout ends the session even if the upstream service fails, and returns or raises what the
  -- upstream service did.
  pub logout-IsOver :
      (session : S) (s : State W)
      → IsOver
          (record {
            world = (v.upstream_logout session s.world).0;
            journal = signed_out ∷ s.journal;
          })
          (v.upstream_logout session s.world).1
          (logout v session s)
  unfolding logout
  logout-IsOver session s = end_session-IsOver (v.upstream_logout session s.world).1 _

  -- The clock of the process: a call takes time, the sleep of the loop 50 milliseconds at least, and
  -- the vault does not raise the model's own cut.
  pub record IsClock : Type 0 where
    pub lease_time : (w : W) → v.monotonic w ≤ v.monotonic (v.acquire_lease w).0
    pub vault_time : (w : W) → v.monotonic w ≤ v.monotonic (v.vault_get w).0
    pub sleep_time : (w : W) → v.monotonic w + 50 ≤ v.monotonic (v.sleep w)
    pub vault_known : (w : W) → (v.vault_get w).1 ≢ err cut_off

  abbrev pub Returns : {A : Type 0} → State W × Result Raised A → Type 0
  Returns x = x.1 ≢ err cut_off

  decide-Returns :
      (deadline : ℕ) (before : Option Tokens) (failed_access : Option String)
      (again : Code W (Option String)) (latest : Option Tokens) (u : State W)
      → (v.monotonic u.world < deadline
          → Returns (again (record { world = v.sleep u.world; journal = waited ∷ u.journal })))
      → Returns (decide v deadline before failed_access again latest u)
  decide-Returns deadline before failed_access again latest u h =
      if-holds Returns (token_rotated latest failed_access before) (give none u)
        (late_or v deadline again u) (λ p. cc)
        (if-cases Returns (leb deadline (v.monotonic u.world))
          (raise (failure "refresh_lock_timeout" 503) u)
          (bind (act waited v.sleep) (λ done. again) u) (λ late p. cc) (λ early. h (ground arith)))

  safe_tokens-Returns :
      (c : IsClock) (k : Option Tokens → Code W (Option String)) (s : State W)
      → ((latest : Option Tokens) (u : State W)
          → v.monotonic s.world ≤ v.monotonic u.world
          → Returns (k latest u))
      → Returns (bind (safe_tokens v) k s)
  unfolding safe_tokens
  safe_tokens-Returns c k s h =
      got (record s { world = (v.vault_get s.world).0 }) (v.vault_get s.world).1
        (c.vault_known s.world) (λ latest. h latest _ (c.vault_time s.world))
    where
      got :
          (t : State W) (r : Result Raised (Option Tokens))
          → r ≢ err cut_off
          → ((latest : Option Tokens) → Returns (k latest t))
          → Returns (and_then k (or_else (λ e. raise (vault_failure e)) (t, r)))
      got t (ok latest) known next = next latest
      got t (err (upstream status)) known next = λ p. cc
      got t (err vault) known next = λ p. cc
      got t (err store_down) known next = λ p. cc
      got t (err cut_off) known next = λ p. known refl
      got t (err (failure code status)) known next = λ p. cc

  asked-Returns :
      (next : Code W (Option String)) (t : State W) (r : Result Raised (Option String))
      → Returns (next t)
      → Returns (
          and_then
            (λ lease. has_lease v lease next)
            (or_else (λ e. raise (failure "refresh_lock_unavailable" 503)) (t, r)))
  asked-Returns next t (ok (some lease)) h = λ p. cc
  asked-Returns next t (ok none) h = h
  asked-Returns next t (err e) h = λ p. cc

  -- A round before the code `again`, which goes on only before the deadline.
  round-Returns :
      (c : IsClock) (n deadline : ℕ) (before : Option Tokens) (failed_access : Option String)
      (s : State W)
      → ((u : State W)
          → v.monotonic s.world + 50 ≤ v.monotonic u.world
          → v.monotonic s.world < deadline
          → Returns (acquire_refresh_lease v n deadline before failed_access u))
      → Returns (acquire_refresh_lease v (suc n) deadline before failed_access s)
  unfolding acquire_refresh_lease
  round-Returns c n deadline before failed_access s h =
      let again = acquire_refresh_lease v n deadline before failed_access in
      let asked = record s { world = (v.acquire_lease s.world).0 } in
      asked-Returns (wait v deadline before failed_access again) asked (v.acquire_lease s.world).1 (
        safe_tokens-Returns c (decide v deadline before failed_access again) asked
          (λ latest u later. decide-Returns deadline before failed_access again latest u (λ early.
            h (record { world = v.sleep u.world; journal = waited ∷ u.journal })
              (omega (arith, later, c.lease_time s.world, c.sleep_time u.world))
              (omega (arith, later, early, c.lease_time s.world)))))

  rounds-Returns :
      (c : IsClock) (n deadline : ℕ) (before : Option Tokens) (failed_access : Option String)
      (s : State W)
      → deadline ≤ v.monotonic s.world + n * 50
      → Returns (acquire_refresh_lease v (suc n) deadline before failed_access s)
  rounds-Returns c zero deadline before failed_access s h =
      round-Returns c zero deadline before failed_access s
        (λ u later early. absurd (omega (arith, h, early)))
  rounds-Returns c (suc n) deadline before failed_access s h =
      round-Returns c (suc n) deadline before failed_access s (λ u later early.
        rounds-Returns c n deadline before failed_access u (omega (arith, h, later)))

  -- The loop that waits for a lease for fifteen seconds ends within 301 rounds: it returns a lease,
  -- returns none, or raises an error that the source raises. The clock does not go back, and a sleep
  -- takes at least 50 milliseconds.
  pub acquire_refresh_lease-Returns :
      (c : IsClock) (before : Option Tokens) (failed_access : Option String) (s : State W)
      → (acquire_refresh_lease v 301
          (v.monotonic s.world + refresh_lease_wait)
          before
          failed_access
          s).1
        ≢ err cut_off
  acquire_refresh_lease-Returns c before failed_access s =
      rounds-Returns c 300 (v.monotonic s.world + refresh_lease_wait) before failed_access s
        (omega arith)
