-- ===== src/Auth/Refresh/Acquire.antt =====
-- The leases that the loop of `_acquire_refresh_lease` in apps/api/src/app/api/auth_service.py takes.
use intelliq.Auth.Refresh.Quiet.{IsQuiet, Ran, safe_tokens-Quiet}
use intelliq.Auth.Refresh.{token_rotated, safe_tokens, has_lease, acquire_refresh_lease}
use intelliq.Auth.Calls.{
  Raised, Event, Tokens, Services, State, Code, give, raise, and_then, bind, or_else, act, failure,
  acquired, waited,
}
use mathlib.Core.List.{append_assoc}
use intelliq.Prelude.{
  [], string_eq, nat_eq, ℕ, zero, suc, String, ◌≡◌, refl, sym, ap, ◌∙◌, Option, none, some, List,
  ◌∷◌, ◌++◌, leb, if◌then◌else◌, if-holds, All-append, Result, ok, err,
}

abbrev pub Grown : List Event → List Event → Type 0
Grown j new = (l : List Event) × (new ≡ l ++ j) × IsQuiet l

Grown-after : (j middle new : List Event) → Grown j middle → Grown middle new → Grown j new
Grown-after j middle new (early, e, q) (late, f, r) = (
  late ++ early,
  f ∙ ap (λ t. late ++ t) e ∙ sym (append_assoc late early j),
  All-append _ late early r q,
)

module _ {W : Type 0} where
  -- A lease that is returned was acquired last.
  abbrev pub Acquires : List Event → State W × Result Raised (Option String) → Type 0
  Acquires j (s, ok (some lease)) =
      (before : List Event) × (s.journal ≡ acquired lease ∷ before ++ j) × IsQuiet before
  Acquires j (s, ok none) = Grown j s.journal
  Acquires j (s, err e) = Grown j s.journal

  Acquires-after :
      (j middle : List Event) (x : State W × Result Raised (Option String))
      → Grown j middle
      → Acquires middle x
      → Acquires j x
  Acquires-after j middle (s, ok (some lease)) (early, e, q) (before, f, r) = (
    before ++ early,
    f
        ∙ ap (λ t. acquired lease ∷ before ++ t) e
        ∙ ap (λ t. acquired lease ∷ t) (sym (append_assoc before early j)),
    All-append _ before early r q,
  )
  Acquires-after j middle (s, ok none) g h = Grown-after j middle s.journal g h
  Acquires-after j middle (s, err e) g h = Grown-after j middle s.journal g h

  and_then-Acquires :
      {A : Type 0} (j : List Event) (k : A → Code W (Option String)) (x : State W × Result Raised A)
      → Ran IsQuiet j x
      → ((a : A) (s : State W) → Acquires s.journal (k a s))
      → Acquires j (and_then k x)
  and_then-Acquires j k (s, ok a) h runs = Acquires-after j s.journal (k a s) h (runs a s)
  and_then-Acquires j k (s, err e) h runs = h

module _ {W U S : Type 0} (v : Services W U S) where
  -- One round that did not get the lease, before the code `again`.
  abbrev pub late_or : ℕ → Code W (Option String) → Code W (Option String)
  late_or deadline again t =
      if leb deadline (v.monotonic t.world)
      then raise (failure "refresh_lock_timeout" 503) t
      else bind (act waited v.sleep) (λ done. again) t

  abbrev pub decide :
      ℕ
      → Option Tokens
      → Option String
      → Code W (Option String)
      → Option Tokens
      → Code W (Option String)
  decide deadline before failed_access again latest t =
      if token_rotated latest failed_access before then give none t else late_or deadline again t

  abbrev pub wait :
      ℕ → Option Tokens → Option String → Code W (Option String) → Code W (Option String)
  wait deadline before failed_access again =
      bind (safe_tokens v) (decide deadline before failed_access again)

  wait-Acquires :
      (deadline : ℕ) (before : Option Tokens) (failed_access : Option String)
      (again : Code W (Option String))
      → ((s : State W) → Acquires s.journal (again s))
      → (t : State W) → Acquires t.journal (wait deadline before failed_access again t)
  wait-Acquires deadline before failed_access again h t =
      and_then-Acquires t.journal (decide deadline before failed_access again) (safe_tokens v t)
        (safe_tokens-Quiet v t)
        (λ latest u.
          if-holds (Acquires u.journal) (token_rotated latest failed_access before) (give none u)
            (late_or deadline again u) ([], refl, tt)
            (if-holds (Acquires u.journal) (leb deadline (v.monotonic u.world))
              (raise (failure "refresh_lock_timeout" 503) u)
              (bind (act waited v.sleep) (λ done. again) u) ([], refl, tt)
              (Acquires-after u.journal (waited ∷ u.journal)
                (bind (act waited v.sleep) (λ done. again) u) (waited ∷ [], refl, (refl, tt))
                (h (record { world = v.sleep u.world; journal = waited ∷ u.journal })))))

  asked-Acquires :
      (next : Code W (Option String)) (h : (s : State W) → Acquires s.journal (next s))
      (t : State W) (r : Result Raised (Option String))
      → Acquires t.journal (
          and_then
            (λ lease. has_lease v lease next)
            (or_else (λ e. raise (failure "refresh_lock_unavailable" 503)) (t, r)))
  asked-Acquires next h t (ok (some lease)) = ([], refl, tt)
  asked-Acquires next h t (ok none) = h t
  asked-Acquires next h t (err e) = ([], refl, tt)

  pub acquire_refresh_lease-Acquires :
      (n deadline : ℕ) (before : Option Tokens) (failed_access : Option String) (s : State W)
      → Acquires s.journal (acquire_refresh_lease v n deadline before failed_access s)
  unfolding acquire_refresh_lease
  acquire_refresh_lease-Acquires zero deadline before failed_access s = ([], refl, tt)
  acquire_refresh_lease-Acquires (suc n) deadline before failed_access s =
      let again = acquire_refresh_lease v n deadline before failed_access in
      asked-Acquires (wait deadline before failed_access again)
        (wait-Acquires deadline before failed_access again
          (acquire_refresh_lease-Acquires n deadline before failed_access))
        (record s { world = (v.acquire_lease s.world).0 }) (v.acquire_lease s.world).1
