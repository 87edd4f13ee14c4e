-- ===== src/Auth/Refresh/Leases.antt =====
-- The leases that a refresh of apps/api/src/app/api/auth_service.py takes and gives back, and the
-- rotation of the tokens under them.
use intelliq.Auth.Refresh.Quiet.{
  IsQuiet, Ran, AllowsQuiet, safe_tokens-Quiet, Runs, and_then-Ran, current_live-Quiet,
  refresh_unlocked-IsRotation, after_quiet, or_else-Ran, if-Runs,
}
use intelliq.Auth.Refresh.{
  token_rotated, safe_tokens, current_live, refresh_unlocked, refresh_held, refresh_lease_wait,
  is_unauthorized, waiting_failure, unless_unauthorized, with_lease, refresh_locked, refresh,
}
use intelliq.Auth.Calls.{
  Raised, Event, Tokens, Services, State, Code, raise, and_then, bind, failure, acquired, released,
  checked, rotated, note, attempt, upstream, vault, store_down, cut_off,
}
use mathlib.Core.List.{append_assoc}
use intelliq.Auth.Refresh.Acquire.{Acquires, acquire_refresh_lease-Acquires}
use intelliq.Prelude.{
  [], string_eq, nat_eq, ℕ, String, ◌≡◌, refl, sym, ap, ◌∙◌, ◌⊎◌, inl, inr, Bool, true, false,
  Option, none, some, List, ◌∷◌, ◌++◌, if◌then◌else◌, All-append, Result, ok, err, ◌+◌,
}

-- The calls under a lease: at most one rotation, directly after a look at the tokens that found them
-- as they were.
abbrev pub IsHeld : List Event → Type 0
IsHeld l =
    IsQuiet l
    ⊎ ((late : List Event) × (early : List Event) × IsQuiet late
        × IsQuiet early
        × ((l ≡ late ++ checked true ∷ early) ⊎ (l ≡ late ++ rotated ∷ checked false ∷ early)))

-- The calls of a refresh: no lease and no rotation, or one lease, which is given back last.
abbrev pub IsTurn : List Event → Type 0
IsTurn l =
    IsQuiet l
    ⊎ ((lease : String) × (held : List Event) × (before : List Event) × (l
          ≡ released lease ∷ held ++ acquired lease ∷ before)
        × IsHeld held
        × IsQuiet before)

IsTurn-AllowsQuiet : AllowsQuiet IsTurn
IsTurn-AllowsQuiet late early (inl q) k = inl (All-append _ late early q k)
IsTurn-AllowsQuiet late early (inr (lease, held, before, e, h, q)) k = inr (
  lease,
  held,
  before ++ early,
  ap (λ l. l ++ early) e
      ∙ ap (λ l. released lease ∷ l) (append_assoc held (acquired lease ∷ before) early),
  h,
  All-append _ before early q k,
)

IsHeld-AllowsQuiet : AllowsQuiet IsHeld
IsHeld-AllowsQuiet late early (inl q) k = inl (All-append _ late early q k)
IsHeld-AllowsQuiet late early (inr (l, e, q, r, inl at)) k = inr (
  l,
  e ++ early,
  q,
  All-append _ e early r k,
  inl (ap (λ x. x ++ early) at ∙ append_assoc l (checked true ∷ e) early),
)
IsHeld-AllowsQuiet late early (inr (l, e, q, r, inr at)) k = inr (
  l,
  e ++ early,
  q,
  All-append _ e early r k,
  inr (ap (λ x. x ++ early) at ∙ append_assoc l (rotated ∷ checked false ∷ e) early),
)

module _ {W U S : Type 0} (v : Services W U S) where
  abbrev look : S → Option Tokens → Option String → Option Tokens → Code W (S × U)
  look session before failed_access latest =
      let is_rotated = token_rotated latest failed_access before in
      bind (note (checked is_rotated))
        (λ done. if is_rotated then current_live v session else refresh_unlocked v session)

  -- What a refresh does under its lease.
  refresh_held-IsHeld :
      (session : S) (before : Option Tokens) (failed_access : Option String)
      → Runs IsHeld (refresh_held v session before failed_access)
  unfolding refresh_held
  refresh_held-IsHeld session before failed_access s =
      and_then-Ran IsHeld-AllowsQuiet (λ l q. inl q) s.journal (look session before failed_access)
        (safe_tokens v s) (safe_tokens-Quiet v s)
        (λ latest t. looked t (token_rotated latest failed_access before))
    where
      looked :
          (t : State W) (is_rotated : Bool)
          → Ran IsHeld t.journal (
              (if is_rotated then current_live v session else refresh_unlocked v session)
                (record t { journal = checked is_rotated ∷ t.journal }))
      looked t true =
          let (l, grew, q) =
            current_live-Quiet v session (record t { journal = checked true ∷ t.journal }) in
          (
            l ++ checked true ∷ [],
            grew ∙ sym (append_assoc l (checked true ∷ []) t.journal),
            inr (l, [], q, tt, inl refl),
          )
      looked t false =
          let (l, grew, (late, split, q)) =
            refresh_unlocked-IsRotation v session
              (record t { journal = checked false ∷ t.journal }) in
          (
            l ++ checked false ∷ [],
            grew ∙ sym (append_assoc l (checked false ∷ []) t.journal),
            inr (
              late,
              [],
              q,
              tt,
              inr (
                  ap (λ x. x ++ checked false ∷ []) split
                  ∙ append_assoc late (rotated ∷ []) (checked false ∷ [])),
            ),
          )

  with_lease-IsTurn :
      (session : S) (before : Option Tokens) (failed_access : Option String) (j : List Event)
      (x : State W × Result Raised (Option String))
      → Acquires j x
      → Ran IsTurn j (and_then (with_lease v session before failed_access) x)
  with_lease-IsTurn session before failed_access j (t, err e) h = (h.0, h.1, inl h.2)
  with_lease-IsTurn session before failed_access j (t, ok none) h =
      let x = attempt (current_live v session) (λ e. raise (waiting_failure e)) t in
      after_quiet IsTurn-AllowsQuiet j t.journal x h (
        or_else-Ran IsTurn-AllowsQuiet (λ l q. inl q) t.journal (λ e. raise (waiting_failure e))
          (current_live v session t) (current_live-Quiet v session t) (λ e s. ([], refl, inl tt)))
  with_lease-IsTurn session before failed_access j (t, ok (some lease)) (early, e, q) =
      let (held, grew, h) = refresh_held-IsHeld session before failed_access t in
      (
        released lease ∷ held ++ acquired lease ∷ early,
        ap (λ l. released lease ∷ l)
            (grew ∙ ap (λ l. held ++ l) e ∙ sym (append_assoc held (acquired lease ∷ early) j)),
        inr (lease, held, early, refl, h, q),
      )

  refresh_locked-IsTurn :
      (rounds : ℕ) (session : S) (before : Option Tokens) (failed_access : Option String)
      → Runs IsTurn (refresh_locked v rounds session before failed_access)
  unfolding refresh_locked
  refresh_locked-IsTurn rounds session before failed_access s =
      with_lease-IsTurn session before failed_access s.journal _ (
        acquire_refresh_lease-Acquires v rounds (v.monotonic s.world + refresh_lease_wait) before
          failed_access s)

  unless_unauthorized-IsTurn :
      (next : Code W (S × U))
      → Runs IsTurn next
      → (e : Raised) → Runs IsTurn (unless_unauthorized v next e)
  unless_unauthorized-IsTurn next h (upstream status) s =
      if-Runs (is_unauthorized status) next (raise (failure "upstream_identity_unavailable" 502)) h
        (λ t. ([], refl, inl tt)) s
  unless_unauthorized-IsTurn next h vault s = ([], refl, inl tt)
  unless_unauthorized-IsTurn next h store_down s = ([], refl, inl tt)
  unless_unauthorized-IsTurn next h cut_off s = ([], refl, inl tt)
  unless_unauthorized-IsTurn next h (failure code status) s = ([], refl, inl tt)

  -- A refresh of a live session takes at most one lease, gives it back as its last call, whatever it
  -- returns or raises, and rotates the tokens at most once: under the lease, directly after a look at
  -- the tokens that found them not rotated.
  pub refresh-IsTurn :
      (rounds : ℕ) (session : S) (failed_access : Option String) (s : State W)
      → Ran IsTurn s.journal (refresh v rounds session failed_access s)
  unfolding refresh
  refresh-IsTurn rounds session failed_access s =
      and_then-Ran IsTurn-AllowsQuiet (λ l q. inl q) s.journal first (safe_tokens v s)
        (safe_tokens-Quiet v s)
        (λ before.
          let next = refresh_locked v rounds session before failed_access in
          if-Runs (token_rotated before failed_access none)
            (attempt (current_live v session) (unless_unauthorized v next)) next
            (λ t.
              or_else-Ran IsTurn-AllowsQuiet (λ l q. inl q) t.journal (unless_unauthorized v next)
                (current_live v session t) (current_live-Quiet v session t)
                (unless_unauthorized-IsTurn next
                  (refresh_locked-IsTurn rounds session before failed_access)))
            (refresh_locked-IsTurn rounds session before failed_access))
    where
      first : Option Tokens → Code W (S × U)
      first before =
          let next = refresh_locked v rounds session before failed_access in
          if token_rotated before failed_access none
          then attempt (current_live v session) (unless_unauthorized v next)
          else next
