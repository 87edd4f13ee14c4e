-- ===== src/Samples/Refreshed.antt =====
-- A session of apps/api/src/app/api/auth_service.py whose tokens expired. The surroundings are the
-- access token in the vault and how often it was renewed, the time, and whether the session is
-- still stored.
use intelliq.Auth.Login.{Entry, open_record, login}
use intelliq.Auth.Refresh.{
  refresh_lease_wait, token_rotated, safe_tokens, current_live, rotate, end_session,
  refresh_unlocked, acquire_refresh_lease, refresh_held, refresh_locked, refresh, current,
}
use intelliq.Auth.Calls.{
  Raised, Services, State, upstream, cut_off, acquired, released, checked, rotated, stored,
  identified, updated, store_down, cleared, signed_in, created,
}
use intelliq.Auth.Refresh.Leases.{IsTurn, refresh-IsTurn}
use intelliq.Auth.Refresh.Failures.{
  IsGivenUp, IsClock, refresh_unlocked-IsGivenUp, acquire_refresh_lease-Returns,
}
use intelliq.Auth.Refresh.Quiet.{Ran}
use intelliq.Prelude.{
  [], string_eq, nat_eq, ℕ, ◌+◌, String, ◌≡◌, refl, ◌≢◌, ◌⊎◌, Bool, true, false, none, some, ◌∷◌,
  arith, if◌then◌else◌, ◌==◌, Result, ok, err,
}

record Surroundings : Type 0 where
  access : String
  generation : ℕ
  time : ℕ
  is_stored : Bool

-- The upstream service knows one access token, and `answer` is what it says of others.
abbrev known : String → ℕ → Surroundings → Surroundings × Result Raised String
known valid answer w = (w, if w.access == valid then ok "user" else err (upstream answer))

abbrev services : String → ℕ → Services Surroundings String String
services valid answer = record {
  vault_get = λ w. (w, ok (some (record { access = w.access; refresh_generation = w.generation })));
  vault_put = λ session access fresh w.
      (record w { access = access; generation = w.generation + 1 }, ok true);
  vault_clear = λ w. (record w { access = "" }, ok true);
  me = λ session. known valid answer;
  upstream_refresh = λ session w. (w, ok ("new", "fresh"));
  upstream_logout = λ session w. (w, err (upstream 500));
  acquire_lease = λ w. (w, ok (some "lease"));
  release_lease = λ lease w. w;
  get_session = λ w. (w, if w.is_stored then some "session" else none);
  update_session_identity = λ user w. (w, if w.is_stored then some "session" else none);
  delete_session = λ w. (record w { is_stored = false }, ok true);
  is_verified = λ user. true;
  monotonic = λ w. w.time;
  sleep = λ w. record w { time = w.time + 50 };
}

abbrev expired : State Surroundings
expired = record {
  world = record { access = "old"; generation = 1; time = 0; is_stored = true };
  journal = [];
}

refreshed : current (services "new" 401) 301 "session" expired ≡ (
  record {
    world = record { access = "new"; generation = 2; time = 0; is_stored = true };
    journal =
        released "lease"
        ∷ updated
        ∷ identified
        ∷ stored
        ∷ rotated
        ∷ checked false
        ∷ acquired "lease"
        ∷ identified
        ∷ [];
  },
  ok ("session", "user"),
)
unfolding current safe_tokens current_live refresh token_rotated refresh_locked
    acquire_refresh_lease refresh_held refresh_unlocked rotate end_session
refreshed = refl

refresh-IsTurn_example :
    Ran IsTurn [] (refresh (services "new" 401) 301 "session" (some "old") expired)
refresh-IsTurn_example = refresh-IsTurn (services "new" 401) 301 "session" (some "old") expired

-- The new tokens are not known either.
refresh_unlocked-IsGivenUp_example :
    ((a : String × String) × (rotate (services "other" 401) "session" expired
        ≡ ((rotate (services "other" 401) "session" expired).0, ok a))
      × (refresh_unlocked (services "other" 401) "session" expired
          ≡ ((rotate (services "other" 401) "session" expired).0, ok a)))
    ⊎ ((e : Raised) × ((rotate (services "other" 401) "session" expired).1 ≡ err e)
        × IsGivenUp
            (services "other" 401)
            e
            (rotate (services "other" 401) "session" expired).0
            (refresh_unlocked (services "other" 401) "session" expired))
refresh_unlocked-IsGivenUp_example =
    refresh_unlocked-IsGivenUp (services "other" 401) "session" expired

clock : IsClock (services "new" 401)
clock = record {
  lease_time = λ w. omega arith;
  vault_time = λ w. omega arith;
  sleep_time = λ w. omega arith;
  vault_known = λ w p. cc;
}

acquire_refresh_lease-Returns_example :
    (acquire_refresh_lease
      (services "new" 401)
      301
      (0 + refresh_lease_wait)
      none
      (some "old")
      expired).1
    ≢ err cut_off
acquire_refresh_lease-Returns_example =
    acquire_refresh_lease-Returns (services "new" 401) clock none (some "old") expired

-- Another process renews the tokens between the two looks, and the upstream service is down when it
-- is asked who the user is.
abbrev renewed_elsewhere : Services Surroundings String String
renewed_elsewhere = record (services "new" 401) {
  acquire_lease = λ w. (record w { access = "new" }, ok (some "lease"));
  me = λ session w. (w, if w.access == "old" then err (upstream 401) else err (upstream 503));
}

unconverted : (current renewed_elsewhere 301 "session" expired).1 ≡ err (upstream 503)
unfolding current safe_tokens current_live refresh token_rotated refresh_locked
    acquire_refresh_lease refresh_held refresh_unlocked rotate end_session
unconverted = refl

-- The store refuses a second session.
abbrev entry : Entry Surroundings String String
entry = record {
  upstream_login = λ email password w.
      (w, if password == "secret" then ok (email, "new", "fresh") else err (upstream 403));
  create_session = λ session w.
      if w.is_stored then (w, err store_down) else (record w { is_stored = true }, ok true);
  session_of = λ user. "session";
  strip = λ text. text;
  message = λ status. "upstream_error";
}

refused_twice : login (services "new" 401) entry "user" "secret" expired ≡ (
  record {
    world = record { access = ""; generation = 2; time = 0; is_stored = true };
    journal = cleared ∷ created ∷ stored ∷ signed_in ∷ [];
  },
  err store_down,
)
unfolding login open_record
refused_twice = refl
