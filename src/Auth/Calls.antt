-- ===== src/Auth/Calls.antt =====
-- The calls that apps/api/src/app/api/auth_service.py makes to the store, the vault of tokens, the
-- upstream service and the clock, as a parameter, and the code around them that may raise: a state
-- of the surroundings `W` and the journal of the calls, newest first. Between two calls other
-- requests and processes act, which is part of what a call does to `W`.
use intelliq.Prelude.{ℕ, String, Bool, true, Option, List, ◌∷◌, Result, ok, err}

-- `UpstreamIntegrationError` with its status, `TokenVaultError`, `AuthenticationFailure`, and an
-- error of the store. A loop that is cut off is none of them.
pub data Raised : Type 0 where
  upstream : (status : ℕ) → Raised
  vault store_down cut_off : Raised
  failure : (code : String) (status : ℕ) → Raised

pub data Event : Type 0 where
  acquired released : (lease : String) → Event
  checked : (is_rotated : Bool) → Event
  rotated stored identified updated cleared deleted waited signed_in created signed_out : Event

pub record Tokens : Type 0 where
  pub access : String
  pub refresh_generation : ℕ

-- What the service calls for one session. `U` is a user, `S` a session record.
pub record Services (W U S : Type 0) : Type 0 where
  pub vault_get : W → W × Result Raised (Option Tokens)
  pub vault_put : S → String → String → W → W × Result Raised Bool
  pub vault_clear : W → W × Result Raised Bool
  pub me : S → W → W × Result Raised U
  pub upstream_refresh : S → W → W × Result Raised (String × String)
  pub upstream_logout : S → W → W × Result Raised Bool
  pub acquire_lease : W → W × Result Raised (Option String)
  pub release_lease : String → W → W
  pub get_session : W → W × Option S
  pub update_session_identity : U → W → W × Option S
  pub delete_session : W → W × Result Raised Bool
  pub is_verified : U → Bool
  pub monotonic : W → ℕ
  pub sleep : W → W

pub record State (W : Type 0) : Type 0 where
  pub world : W
  pub journal : List Event

-- Code that may raise.
abbrev pub Code : Type 0 → Type 0 → Type 0
Code W A = State W → State W × Result Raised A

module _ {W : Type 0} where
  abbrev pub give : {A : Type 0} → A → Code W A
  give a s = (s, ok a)

  abbrev pub raise : {A : Type 0} → Raised → Code W A
  raise e s = (s, err e)

  abbrev pub and_then :
      {A B : Type 0} → (A → Code W B) → State W × Result Raised A → State W × Result Raised B
  and_then k (s, ok a) = k a s
  and_then k (s, err e) = (s, err e)

  abbrev pub bind : {A B : Type 0} → Code W A → (A → Code W B) → Code W B
  bind m k s = and_then k (m s)

  abbrev pub or_else :
      {A : Type 0} → (Raised → Code W A) → State W × Result Raised A → State W × Result Raised A
  or_else h (s, ok a) = (s, ok a)
  or_else h (s, err e) = h e s

  -- `try` with its handler.
  abbrev pub attempt : {A : Type 0} → Code W A → (Raised → Code W A) → Code W A
  attempt m h s = or_else h (m s)

  abbrev pub call_then :
      {A : Type 0} → Event → List Event → W × Result Raised A → State W × Result Raised A
  call_then event journal (w, r) = (record { world = w; journal = event ∷ journal }, r)

  -- A call that is written to the journal, whether it raises or not.
  abbrev pub call : {A : Type 0} → Event → (W → W × Result Raised A) → Code W A
  call event f s = call_then event s.journal (f s.world)

  abbrev pub read : {A : Type 0} → (W → W × Result Raised A) → Code W A
  read f s = (record s { world = (f s.world).0 }, (f s.world).1)

  abbrev pub note : Event → Code W Bool
  note event s = (record s { journal = event ∷ s.journal }, ok true)

  abbrev pub act : Event → (W → W) → Code W Bool
  act event f s = (record { world = f s.world; journal = event ∷ s.journal }, ok true)
