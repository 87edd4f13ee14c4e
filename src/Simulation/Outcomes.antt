-- ===== src/Simulation/Outcomes.antt =====
-- The outcomes of a project over the samples, in apps/api/src/app/simulation/engine.py:
-- `_summarize_outcomes` for one project, `_finish_histogram` and `_quantile_datetime`. A finish that
-- is missing lies beyond the horizon. The ratios, the days of a delay, their mean and the position
-- of a quantile are floats, whose operations are a parameter; texts, traces and capacity rows are
-- left out.
pub mod Counts
pub mod Bounds
use intelliq.Simulation.Sample.{sorted}
use intelliq.Prelude.{
  nat_eq, string_eq, [], ℕ, zero, suc, ◌+◌, ◌-◌, ◌/◌, Bool, true, false, Option, none, some, List,
  ◌∷◌, ◌++◌, map, ltb, leb, if◌then◌else◌, length, ◌==◌,
}

-- `ratio a b` is `round(a / b, 6)`, `days_late` the days of a length of time, `mean` the rounded
-- mean.
pub record Ratios (N : Type 0) : Type 0 where
  pub ratio : ℕ → ℕ → N
  pub days_late : ℕ → N
  pub mean : List N → N

-- A quantile: `floor` and `ceil` of the position among the gaps of the sorted finishes, and the part
-- of a length of time that the fraction of the position takes.
pub record Quantile : Type 0 where
  pub lower : ℕ → ℕ
  pub upper : ℕ → ℕ
  pub part : ℕ → ℕ → ℕ

pub record Quantiles : Type 0 where
  pub p10 : Quantile
  pub p50 : Quantile
  pub p90 : Quantile

-- One row of the histogram; the last one has no day.
pub record Bucket (N : Type 0) : Type 0 where
  pub day : Option ℕ
  pub count : ℕ
  pub probability : N
  pub censored : Bool

pub record Outcome (N : Type 0) : Type 0 where
  pub delay_probability : Option N
  pub expected_positive_delay_days : Option N
  pub finish_p10 : Option ℕ
  pub finish_p50 : Option ℕ
  pub finish_p90 : Option ℕ
  pub unfinished_count : ℕ
  pub censored : Bool
  pub known_late_count : ℕ
  pub unknown_censored_count : ℕ
  pub known_late_unfinished_count : ℕ
  pub finish_histogram : List (Bucket N)

-- `data.horizon_end`, the project's target, and the day of an instant in its time zone.
pub record Frame : Type 0 where
  pub horizon_end : ℕ
  pub target_finish_at : ℕ
  pub local_day : ℕ → ℕ

-- The finishes that are known.
unfoldable pub present : List (Option ℕ) → List ℕ
present [] = []
present (none ∷ fs) = present fs
present (some f ∷ fs) = f ∷ present fs

-- `sum(finish is None for finish in finishes)`
unfoldable pub missing : List (Option ℕ) → ℕ
missing [] = 0
missing (none ∷ fs) = suc (missing fs)
missing (some f ∷ fs) = missing fs

unfoldable pub late : ℕ → List ℕ → ℕ
late target [] = 0
late target (f ∷ fs) = let rest = late target fs in if ltb target f then suc rest else rest

-- `counts[day] += 1`, in a dictionary that is kept in the order of its days.
unfoldable pub tally : ℕ → List (ℕ × ℕ) → List (ℕ × ℕ)
tally day [] = (day, 1) ∷ []
tally day ((d, n) ∷ rest) =
    let later = tally day rest in
    if d == day
    then (d, suc n) ∷ rest
    else (if ltb day d then (day, 1) ∷ (d, n) ∷ rest else (d, n) ∷ later)

unfoldable pub day_counts : (ℕ → ℕ) → List ℕ → List (ℕ × ℕ)
unfolding tally
day_counts local_day [] = []
day_counts local_day (f ∷ fs) = tally (local_day f) (day_counts local_day fs)

-- `present[index]`
unfoldable pub item : ℕ → List ℕ → Option ℕ
item n [] = none
item zero (x ∷ xs) = some x
item (suc n) (x ∷ xs) = item n xs

-- The instant between two neighbours.
abbrev pub between : Quantile → ℕ → Option ℕ → Option ℕ → Option ℕ
between q gaps none b = none
between q gaps (some a) none = none
between q gaps (some a) (some b) = some (a + q.part gaps (b - a))

abbrev pub at_position : Quantile → ℕ → List ℕ → Option ℕ
at_position q gaps xs =
    if q.lower gaps == q.upper gaps
    then item (q.lower gaps) xs
    else between q gaps (item (q.lower gaps) xs) (item (q.upper gaps) xs)

-- `_quantile_datetime` on the sorted finishes; `none` is an exception.
unfoldable pub quantile_of : Quantile → List ℕ → Option ℕ
unfolding item
quantile_of q [] = none
quantile_of q (x ∷ []) = some x
quantile_of q (x ∷ y ∷ xs) = at_position q (suc (length xs)) (x ∷ y ∷ xs)

unfoldable pub quantile_datetime : Quantile → List (Option ℕ) → Option ℕ
quantile_datetime q finishes = quantile_of q (sorted (λ a b. ltb a b) (present finishes))

abbrev pub is_none_left : ℕ → Bool
is_none_left zero = true
is_none_left (suc n) = false

abbrev pub when : {A : Type 0} → Bool → Option A → Option A
when complete value = if complete then value else none

module _ {N : Type 0} (r : Ratios N) where
  -- `_finish_histogram`
  unfoldable pub finish_histogram : (ℕ → ℕ) → List (Option ℕ) → List (Bucket N)
  unfolding day_counts
  finish_histogram local_day finishes =
      map
        (λ c. record {
          day = some c.0;
          count = c.1;
          probability = r.ratio c.1 (length finishes);
          censored = false;
        })
        (day_counts local_day (present finishes))
      ++ (record {
        day = none;
        count = missing finishes;
        probability = r.ratio (missing finishes) (length finishes);
        censored = true;
      }
          ∷ [])

  -- `max(0.0, (finish - target).total_seconds() / 86400.0)`
  abbrev pub positive_delay : ℕ → ℕ → N
  positive_delay target f = r.days_late (f - target)

  abbrev pub mean_delay : List N → Option N
  mean_delay [] = none
  mean_delay (d ∷ ds) = some (r.mean (d ∷ ds))

  -- `_summarize_outcomes` for one project. `samples` is `data.samples`.
  unfoldable pub summarize_outcome : Quantiles → Frame → ℕ → List (Option ℕ) → Outcome N
  unfolding present missing late finish_histogram quantile_datetime
  summarize_outcome q frame samples finishes =
      let unfinished = missing finishes in
      let known = leb frame.target_finish_at frame.horizon_end in
      let unknown = if known then 0 else unfinished in
      let known_late =
        late frame.target_finish_at (present finishes) + (if known then unfinished else 0) in
      let complete = is_none_left unfinished in
      record {
        delay_probability = when (is_none_left unknown) (some (r.ratio known_late samples));
        expected_positive_delay_days =
            when complete
              (mean_delay (map (λ f. positive_delay frame.target_finish_at f) (present finishes)));
        finish_p10 = when complete (quantile_datetime q.p10 finishes);
        finish_p50 = when complete (quantile_datetime q.p50 finishes);
        finish_p90 = when complete (quantile_datetime q.p90 finishes);
        unfinished_count = unfinished;
        censored = ltb 0 unfinished;
        known_late_count = known_late;
        unknown_censored_count = unknown;
        known_late_unfinished_count = unfinished - unknown;
        finish_histogram = finish_histogram frame.local_day finishes;
      }
