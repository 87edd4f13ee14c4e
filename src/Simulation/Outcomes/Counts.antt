-- ===== src/Simulation/Outcomes/Counts.antt =====
-- How the samples are counted: every finish once, and unknown outcomes never as known ones.
use intelliq.Simulation.Outcomes.{
  Ratios, Bucket, Outcome, Frame, present, missing, late, tally, day_counts, finish_histogram,
  Quantiles, is_none_left, when, quantile_datetime, summarize_outcome,
}
use intelliq.Prelude.{
  nat_eq, string_eq, [], ℕ, suc, ◌+◌, ◌≤◌, ◌<◌, ◌≡◌, refl, ap, ◌↔◌, Option, none, some, List, ◌∷◌,
  ◌++◌, map, arith, length, zero, ◌⊎◌, inl, inr, true, false, if◌then◌else◌, ltb, leb,
}

-- The counts of the rows together.
abbrev pub total_count {ℓ} : {A : Type ℓ} → (A → ℕ) → List A → ℕ
total_count f [] = 0
total_count f (x ∷ xs) = f x + total_count f xs

total_count-append {ℓ} :
    {A : Type ℓ} (f : A → ℕ) (xs ys : List A)
    → total_count f (xs ++ ys) ≡ total_count f xs + total_count f ys
total_count-append f [] ys = omega arith
total_count-append f (x ∷ xs) ys = omega (arith, total_count-append f xs ys)

total_count-map {ℓ κ} :
    {A : Type ℓ} {B : Type κ} (f : B → ℕ) (g : A → B) (xs : List A)
    → total_count f (map g xs) ≡ total_count (λ x. f (g x)) xs
total_count-map f g [] = refl
total_count-map f g (x ∷ xs) = ap (λ n. f (g x) + n) (total_count-map f g xs)

abbrev number : ℕ × ℕ → ℕ
number c = c.1

tally-total_count :
    (day : ℕ) (counts : List (ℕ × ℕ))
    → total_count number (tally day counts) ≡ suc (total_count number counts)
unfolding tally
tally-total_count day [] = omega arith
tally-total_count day ((d, n) ∷ rest) = ground (arith, tally-total_count day rest)

day_counts-total_count :
    (local_day : ℕ → ℕ) (fs : List ℕ) → total_count number (day_counts local_day fs) ≡ length fs
unfolding day_counts
day_counts-total_count local_day [] = refl
day_counts-total_count local_day (f ∷ fs) = omega (
  arith,
  tally-total_count (local_day f) (day_counts local_day fs),
  day_counts-total_count local_day fs,
)

present-missing :
    (finishes : List (Option ℕ)) → length (present finishes) + missing finishes ≡ length finishes
unfolding present missing
present-missing [] = omega arith
present-missing (none ∷ fs) = omega (arith, present-missing fs)
present-missing (some f ∷ fs) = omega (arith, present-missing fs)

late-le : (target : ℕ) (fs : List ℕ) → late target fs ≤ length fs
unfolding late
late-le target [] = omega arith
late-le target (f ∷ fs) = ground (arith, late-le target fs)

-- What one sample adds to each of the counts: an unfinished one is late if the horizon reaches the
-- target, and unknown otherwise.
abbrev pub one_unfinished : Option ℕ → ℕ
one_unfinished none = 1
one_unfinished (some f) = 0

abbrev pub one_late : Frame → Option ℕ → ℕ
one_late frame none = if leb frame.target_finish_at frame.horizon_end then 1 else 0
one_late frame (some f) = if ltb frame.target_finish_at f then 1 else 0

abbrev pub one_unknown : Frame → Option ℕ → ℕ
one_unknown frame none = if ltb frame.horizon_end frame.target_finish_at then 1 else 0
one_unknown frame (some f) = 0

-- What the counts of an outcome are.
pub record IsCounted {N : Type 0} (r : Ratios N) (q : Quantiles) (frame : Frame) (samples : ℕ)
    (finishes : List (Option ℕ)) (o : Outcome N) : Type 0 where
  pub histogram : total_count (λ (b : Bucket N). b.count) o.finish_histogram ≡ length finishes
  pub unfinished : o.unfinished_count ≡ total_count one_unfinished finishes
  pub unknown : o.unknown_censored_count ≡ total_count (one_unknown frame) finishes
  pub known_late : o.known_late_count ≡ total_count (one_late frame) finishes
  pub late_unfinished :
      o.unknown_censored_count + o.known_late_unfinished_count ≡ o.unfinished_count
  pub within : o.known_late_count + o.unknown_censored_count ≤ length finishes
  pub no_guess : (o.delay_probability ≡ none) ↔ (0 < o.unknown_censored_count)
  pub probability :
      o.unknown_censored_count ≡ 0
      → o.delay_probability ≡ some (r.ratio (total_count (one_late frame) finishes) samples)
  pub complete :
      ((0 < o.unfinished_count)
        × (o.finish_p10 ≡ none)
        × (o.finish_p50 ≡ none)
        × (o.finish_p90 ≡ none)
        × (o.expected_positive_delay_days ≡ none))
      ⊎ ((o.unfinished_count ≡ 0)
          × (o.finish_p10 ≡ quantile_datetime q.p10 finishes)
          × (o.finish_p50 ≡ quantile_datetime q.p50 finishes)
          × (o.finish_p90 ≡ quantile_datetime q.p90 finishes))

missing-total_count :
    (finishes : List (Option ℕ)) → missing finishes ≡ total_count one_unfinished finishes
unfolding missing
missing-total_count [] = refl
missing-total_count (none ∷ fs) = omega (arith, missing-total_count fs)
missing-total_count (some f ∷ fs) = omega (arith, missing-total_count fs)

late-total_count :
    (frame : Frame) (finishes : List (Option ℕ))
    → late frame.target_finish_at (present finishes)
        + (if leb frame.target_finish_at frame.horizon_end then missing finishes else 0)
      ≡ total_count (one_late frame) finishes
unfolding late present missing
late-total_count frame [] = ground arith
late-total_count frame (none ∷ fs) = ground (arith, late-total_count frame fs)
late-total_count frame (some f ∷ fs) = ground (arith, late-total_count frame fs)

unknown-total_count :
    (frame : Frame) (finishes : List (Option ℕ))
    → (if leb frame.target_finish_at frame.horizon_end then 0 else missing finishes)
      ≡ total_count (one_unknown frame) finishes
unfolding missing
unknown-total_count frame [] = ground arith
unknown-total_count frame (none ∷ fs) = ground (arith, unknown-total_count frame fs)
unknown-total_count frame (some f ∷ fs) = ground (arith, unknown-total_count frame fs)

some-none : {A : Type 0} {a : A} → ◌≡◌ {A = Option A} (some a) none → ⊥
some-none p = cc

guess : {A : Type 0} (u : ℕ) (p : A) → (when (is_none_left u) (some p) ≡ none) ↔ (0 < u)
guess zero p = (λ e. absurd (some-none e), λ h. absurd (omega (arith, h)))
guess (suc u) p = (λ e. omega arith, λ h. refl)

sure : {A : Type 0} (u : ℕ) (p p' : A) → p ≡ p' → u ≡ 0 → when (is_none_left u) (some p) ≡ some p'
sure zero p p' same h = ap some same
sure (suc u) p p' same h = absurd (omega (arith, h))

values :
    {A B : Type 0} (u : ℕ) (a b c : Option A) (d : Option B)
    → ((0 < u)
        × (when (is_none_left u) a ≡ none)
        × (when (is_none_left u) b ≡ none)
        × (when (is_none_left u) c ≡ none)
        × (when (is_none_left u) d ≡ none))
      ⊎ ((u ≡ 0)
          × (when (is_none_left u) a ≡ a)
          × (when (is_none_left u) b ≡ b)
          × (when (is_none_left u) c ≡ c))
values zero a b c d = inr (refl, refl, refl, refl)
values (suc u) a b c d = inl (omega arith, refl, refl, refl, refl)

module _ {N : Type 0} (r : Ratios N) where
  finish_histogram-total_count :
      (local_day : ℕ → ℕ) (finishes : List (Option ℕ))
      → total_count (λ (b : Bucket N). b.count) (finish_histogram r local_day finishes)
        ≡ length finishes
  unfolding finish_histogram
  finish_histogram-total_count local_day finishes =
      let rows = day_counts local_day (present finishes) in
      omega (
        arith,
        total_count-append (λ (b : Bucket N). b.count) (map (row finishes) rows)
            (last_row finishes ∷ []),
        total_count-map (λ (b : Bucket N). b.count) (row finishes) rows,
        day_counts-total_count local_day (present finishes),
        present-missing finishes,
      )
    where
      row : List (Option ℕ) → ℕ × ℕ → Bucket N
      row fs c = record {
        day = some c.0;
        count = c.1;
        probability = r.ratio c.1 (length fs);
        censored = false;
      }

      last_row : List (Option ℕ) → Bucket N
      last_row fs = record {
        day = none;
        count = missing fs;
        probability = r.ratio (missing fs) (length fs);
        censored = true;
      }

  -- Every sample of a project is counted once, in one row of the histogram. The unfinished, the
  -- late and the unknown samples are each counted exactly: an unfinished sample is unknown if the
  -- horizon lies before the target, and late otherwise, and a finished one is late after the target.
  -- The delay probability is missing exactly if a sample is unknown, and is otherwise the ratio of
  -- the late ones; an unfinished sample leaves no quantile and no mean delay, and without one the
  -- quantiles are those of the finishes.
  pub summarize_outcome-IsCounted :
      (q : Quantiles) (frame : Frame) (samples : ℕ) (finishes : List (Option ℕ))
      → IsCounted r q frame samples finishes (summarize_outcome r q frame samples finishes)
  unfolding summarize_outcome
  summarize_outcome-IsCounted q frame samples finishes = record {
    histogram = finish_histogram-total_count frame.local_day finishes;
    unfinished = missing-total_count finishes;
    unknown = unknown-total_count frame finishes;
    known_late = late-total_count frame finishes;
    late_unfinished = ground arith;
    within =
        ground (arith, present-missing finishes, late-le frame.target_finish_at (present finishes));
    no_guess = guess _ _;
    probability = sure _ _ _ (ap (λ n. r.ratio n samples) (late-total_count frame finishes));
    complete = values _ _ _ _ _;
  }
