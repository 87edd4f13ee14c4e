-- ===== src/Auth/Login.antt =====
-- `AuthService.login` of apps/api/src/app/api/auth_service.py in the live mode. The record of the
-- new session, with the id and the token that are drawn, is a function of the user.
use intelliq.Auth.Calls.{
  Raised, Event, Services, State, Code, give, raise, bind, attempt, call, upstream, failure, stored,
  cleared, signed_in, created,
}
use intelliq.Auth.Refresh.{require_verified}
use intelliq.Prelude.{
  nat_eq, string_eq, ℕ, String, ◌≡◌, ◌⊎◌, Bool, true, ◌||◌, List, ◌∷◌, if◌then◌else◌, ◌==◌, Result,
  ok, err,
}

-- The calls of a login: the upstream service's with the text and the password, and the store's.
-- `message` is the text of an `UpstreamIntegrationError`.
pub record Entry (W U S : Type 0) : Type 0 where
  pub upstream_login : String → String → W → W × Result Raised (U × String × String)
  pub create_session : S → W → W × Result Raised Bool
  pub session_of : U → S
  pub strip : String → String
  pub message : ℕ → String

-- The status that a login answers for one of the upstream service.
abbrev pub login_status : ℕ → ℕ
login_status status =
    if (status == 401) || (status == 403) then 401 else (if status == 422 then 422 else 502)

abbrev pub login_failure : (ℕ → String) → Raised → Raised
login_failure message (upstream status) = failure (message status) (login_status status)
login_failure message e = e

module _ {W U S : Type 0} (v : Services W U S) (entry : Entry W U S) where
  -- A session that cannot be created leaves no tokens.
  unfoldable pub open_record : S → U → Code W (S × U)
  open_record session user =
      bind
        (attempt (call created (entry.create_session session))
          (λ e. bind (call cleared v.vault_clear) (λ done. raise e)))
        (λ done. give (session, user))

  abbrev pub admit : U → String → String → Code W (S × U)
  admit user access fresh = bind (require_verified v user) (λ done.
      bind (call stored (v.vault_put (entry.session_of user) access fresh))
        (λ done. open_record (entry.session_of user) user))

  unfoldable pub login : String → String → Code W (S × U)
  unfolding open_record
  login email password =
      bind
        (attempt (call signed_in (entry.upstream_login (entry.strip email) password))
          (λ e. raise (login_failure entry.message e)))
        (λ answer. admit answer.0 answer.1 answer.2)

  -- How a login ended that began with the journal `j`: with a session for a user whose email is
  -- verified and whose tokens were stored before it; with nothing stored; with tokens that the vault
  -- refused; or with a session that the store refused, after which the vault was cleared.
  abbrev pub IsLogin : List Event → State W × Result Raised (S × U) → Type 0
  IsLogin j (s, ok (session, user)) =
      (v.is_verified user ≡ true)
      × (session ≡ entry.session_of user)
      × (s.journal ≡ created ∷ stored ∷ signed_in ∷ j)
  IsLogin j (s, err e) =
      (s.journal ≡ signed_in ∷ j)
      ⊎ (s.journal ≡ stored ∷ signed_in ∷ j)
      ⊎ ((w : W) × (s.world ≡ (v.vault_clear w).0)
          × (s.journal ≡ cleared ∷ created ∷ stored ∷ signed_in ∷ j))
