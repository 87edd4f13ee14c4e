-- ===== src/Auth/Refresh/Quiet.antt =====
-- What the functions of apps/api/src/app/api/auth_service.py write to the journal of calls: most of
-- them neither take nor give a lease, nor rotate tokens.
use intelliq.Auth.Refresh.{
  safe_tokens, require_verified, identify, current_live, end_session, vault_failure, give_option,
  found_or, rotate, refresh_failure, refresh_unlocked, is_caught, give_up,
}
use intelliq.Auth.Calls.{
  Raised, Event, Services, State, Code, and_then, bind, or_else, attempt, read, acquired, released,
  checked, rotated, identified, updated, cleared, deleted, give, raise, call, failure, stored,
}
use mathlib.Core.List.{append_assoc}
use intelliq.Prelude.{
  if-holds, [], string_eq, nat_eq, ◌≡◌, refl, sym, ap, ◌∙◌, Bool, true, false, List, ◌∷◌, ◌++◌,
  if◌then◌else◌, All, All-append, Result, ok, err, String, Option, none, some, get_or,
}

abbrev pub is_quiet : Event → Bool
is_quiet (acquired lease) = false
is_quiet (released lease) = false
is_quiet (checked is_rotated) = false
is_quiet rotated = false
is_quiet event = true

abbrev pub IsQuiet : List Event → Type 0
IsQuiet l = All (λ e. is_quiet e ≡ true) l

-- The journal grew by events of which `R` holds.
abbrev pub Ran :
    {W A : Type 0} → (List Event → Type 0) → List Event → State W × Result Raised A → Type 0
Ran R j x = (l : List Event) × (x.0.journal ≡ l ++ j) × R l

abbrev pub Runs : {W A : Type 0} → (List Event → Type 0) → Code W A → Type 0
Runs {W} R m = (s : State W) → Ran R s.journal (m s)

-- `R` allows quiet events before.
abbrev pub AllowsQuiet : (List Event → Type 0) → Type 0
AllowsQuiet R = (late early : List Event) → R late → IsQuiet early → R (late ++ early)

pub IsQuiet-AllowsQuiet : AllowsQuiet IsQuiet
IsQuiet-AllowsQuiet late early h k = All-append _ late early h k

module _ {W : Type 0} where
  -- Quiet code comes first.
  pub after_quiet :
      {A : Type 0} {R : List Event → Type 0} (allows : AllowsQuiet R) (j : List Event)
      (middle : List Event) (x : State W × Result Raised A)
      → (l : List Event) × (middle ≡ l ++ j) × IsQuiet l
      → Ran R middle x
      → Ran R j x
  after_quiet allows j middle x (early, e, q) (late, f, r) = (
    late ++ early,
    f ∙ ap (λ t. late ++ t) e ∙ sym (append_assoc late early j),
    allows late early r q,
  )

  pub and_then-Ran :
      {A B : Type 0} {R : List Event → Type 0} (allows : AllowsQuiet R)
      (base : (l : List Event) → IsQuiet l → R l) (j : List Event) (k : A → Code W B)
      (x : State W × Result Raised A)
      → Ran IsQuiet j x
      → ((a : A) → Runs R (k a))
      → Ran R j (and_then k x)
  and_then-Ran allows base j k (s, ok a) h runs =
      after_quiet allows j s.journal (k a s) h (runs a s)
  and_then-Ran allows base j k (s, err e) h runs = (h.0, h.1, base h.0 h.2)

  pub or_else-Ran :
      {A : Type 0} {R : List Event → Type 0} (allows : AllowsQuiet R)
      (base : (l : List Event) → IsQuiet l → R l) (j : List Event) (k : Raised → Code W A)
      (x : State W × Result Raised A)
      → Ran IsQuiet j x
      → ((e : Raised) → Runs R (k e))
      → Ran R j (or_else k x)
  or_else-Ran allows base j k (s, ok a) h runs = (h.0, h.1, base h.0 h.2)
  or_else-Ran allows base j k (s, err e) h runs =
      after_quiet allows j s.journal (k e s) h (runs e s)

  pub bind-Quiet :
      {A B : Type 0} (m : Code W A) (k : A → Code W B)
      → Runs IsQuiet m
      → ((a : A) → Runs IsQuiet (k a))
      → Runs IsQuiet (bind m k)
  bind-Quiet m k h runs s = and_then-Ran IsQuiet-AllowsQuiet (λ l q. q) s.journal k (m s) (h s) runs

  pub attempt-Quiet :
      {A : Type 0} (m : Code W A) (k : Raised → Code W A)
      → Runs IsQuiet m
      → ((e : Raised) → Runs IsQuiet (k e))
      → Runs IsQuiet (attempt m k)
  attempt-Quiet m k h runs s =
      or_else-Ran IsQuiet-AllowsQuiet (λ l q. q) s.journal k (m s) (h s) runs

  pub if-Runs :
      {A : Type 0} {R : List Event → Type 0} (b : Bool) (m n : Code W A)
      → Runs R m
      → Runs R n
      → Runs R (if b then m else n)
  if-Runs true m n h k = h
  if-Runs false m n h k = k

module _ {W U S : Type 0} (v : Services W U S) where
  pub safe_tokens-Quiet : Runs IsQuiet (safe_tokens v)
  unfolding safe_tokens
  safe_tokens-Quiet =
      attempt-Quiet (read v.vault_get) (λ e. raise (vault_failure e)) (λ s. ([], refl, tt))
        (λ e s. ([], refl, tt))

  require_verified-Quiet : (user : U) → Runs IsQuiet (require_verified v user)
  require_verified-Quiet user =
      if-Runs (v.is_verified user) (give true) (raise (failure "email_not_verified" 403))
        (λ s. ([], refl, tt)) (λ s. ([], refl, tt))

  identify-Quiet : (session : S) (user : U) → Runs IsQuiet (identify v session user)
  identify-Quiet session user =
      bind-Quiet {B = S × U} (call updated (λ w. give_option v (v.update_session_identity user w)))
        (λ found. give (get_or found session, user)) (λ s. (updated ∷ [], refl, (refl, tt)))
        (λ found s. ([], refl, tt))

  verified-Quiet :
      (session : S) (user : U)
      → Runs IsQuiet (bind (require_verified v user) (λ done. identify v session user))
  verified-Quiet session user =
      bind-Quiet (require_verified v user) (λ done. identify v session user)
        (require_verified-Quiet user) (λ done. identify-Quiet session user)

  known-Quiet :
      (session : S)
      → Runs IsQuiet (
          bind
            (call identified (v.me session))
            (λ user. bind (require_verified v user) (λ done. identify v session user)))
  known-Quiet session =
      bind-Quiet (call identified (v.me session))
        (λ user. bind (require_verified v user) (λ done. identify v session user))
        (λ s. (identified ∷ [], refl, (refl, tt))) (λ user. verified-Quiet session user)

  pub current_live-Quiet : (session : S) → Runs IsQuiet (current_live v session)
  unfolding current_live
  current_live-Quiet session = known-Quiet session

  pub end_session-Quiet : Runs IsQuiet (end_session v)
  unfolding end_session
  end_session-Quiet =
      bind-Quiet (call cleared v.vault_clear) (λ done. call deleted v.delete_session)
        (λ s. (cleared ∷ [], refl, (refl, tt))) (λ done s. (deleted ∷ [], refl, (refl, tt)))

  given_up-Quiet :
      (e : Raised)
      → Runs IsQuiet (bind {B = S × U} (end_session v) (λ done. raise (refresh_failure e)))
  given_up-Quiet e =
      bind-Quiet {B = S × U} (end_session v) (λ done. raise (refresh_failure e)) end_session-Quiet
        (λ done s. ([], refl, tt))

  found_or-Quiet : (found : Option S) → Runs IsQuiet (found_or v found)
  found_or-Quiet none s = ([], refl, tt)
  found_or-Quiet (some session) s = ([], refl, tt)

  -- What follows the rotation.
  abbrev pub keep : S → String × String → Code W (S × U)
  keep session tokens = bind (call stored (v.vault_put session tokens.0 tokens.1)) (λ done.
      bind (read (λ w. give_option v (v.get_session w))) (λ found.
        bind (found_or v found) (λ renewed.
          bind (call identified (v.me renewed))
            (λ user. bind (require_verified v user) (λ done. identify v renewed user)))))

  renewed-Quiet :
      (found : Option S)
      → Runs IsQuiet (
          bind (found_or v found) (λ renewed.
            bind
              (call identified (v.me renewed))
              (λ user. bind (require_verified v user) (λ done. identify v renewed user))))
  renewed-Quiet found =
      bind-Quiet (found_or v found)
        (λ renewed.
          bind (call identified (v.me renewed))
            (λ user. bind (require_verified v user) (λ done. identify v renewed user)))
        (found_or-Quiet found) known-Quiet

  keep-Quiet : (session : S) (tokens : String × String) → Runs IsQuiet (keep session tokens)
  keep-Quiet session tokens =
      bind-Quiet (call stored (v.vault_put session tokens.0 tokens.1))
        (λ done. bind (read (λ w. give_option v (v.get_session w))) (λ found.
          bind (found_or v found) (λ renewed.
            bind (call identified (v.me renewed))
              (λ user. bind (require_verified v user) (λ done. identify v renewed user)))))
        (λ s. (stored ∷ [], refl, (refl, tt)))
        (λ done.
          bind-Quiet (read (λ w. give_option v (v.get_session w)))
            (λ found. bind (found_or v found) (λ renewed.
              bind (call identified (v.me renewed))
                (λ user. bind (require_verified v user) (λ done. identify v renewed user))))
            (λ s. ([], refl, tt)) renewed-Quiet)

  -- One rotation, and nothing else that is not quiet.
  abbrev pub IsRotation : List Event → Type 0
  IsRotation l = (late : List Event) × (l ≡ late ++ rotated ∷ []) × IsQuiet late

  rotate-IsRotation : (session : S) → Runs IsRotation (rotate v session)
  unfolding rotate
  rotate-IsRotation session s =
      let x = call rotated (v.upstream_refresh session) s in
      let grown =
        and_then-Ran IsQuiet-AllowsQuiet (λ l q. q) (rotated ∷ s.journal) (keep session) x
          ([], refl, tt) (keep-Quiet session) in
      (
        grown.0 ++ rotated ∷ [],
        grown.1 ∙ sym (append_assoc grown.0 (rotated ∷ []) s.journal),
        (grown.0, refl, grown.2),
      )

  pub refresh_unlocked-IsRotation : (session : S) → Runs IsRotation (refresh_unlocked v session)
  unfolding refresh_unlocked
  refresh_unlocked-IsRotation session s = rescued (rotate v session s) (rotate-IsRotation session s)
    where
      rescued :
          (x : State W × Result Raised (S × U))
          → Ran IsRotation s.journal x
          → Ran IsRotation s.journal (or_else (give_up v) x)
      rescued (t, ok a) h = h
      rescued (t, err e) (l, grew, (late, split, q)) =
          if-holds (λ m. Ran IsRotation s.journal (m t)) (is_caught e)
            (bind (end_session v) (λ done. raise (refresh_failure e))) (raise e)
            (let (ended, further, still) = given_up-Quiet e t in
              (
                ended ++ l,
                further ∙ ap (λ x. ended ++ x) grew ∙ sym (append_assoc ended l s.journal),
                (
                  ended ++ late,
                  ap (λ x. ended ++ x) split ∙ sym (append_assoc ended late (rotated ∷ [])),
                  All-append _ ended late still q,
                ),
              ))
            (l, grew, (late, split, q))
