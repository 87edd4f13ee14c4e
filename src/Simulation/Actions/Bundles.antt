-- ===== src/Simulation/Actions/Bundles.antt =====
-- Bundles of elementary actions in apps/api/src/app/simulation/engine.py:
-- `_compatible_action_parts` and `_bundle_actions`.
use intelliq.Simulation.Sample.Slots.{gathered}
use intelliq.Simulation.Actions.{Items, CandidateAction, has_order, same_order, texts_beq}
use intelliq.Simulation.Calendar.{overlaps}
use intelliq.Simulation.Input.{Interval}
use intelliq.Prelude.{
  string_eq, nat_eq, option_eq, [], String, ◌≡◌, Bool, true, false, not, ◌&&◌, ◌||◌, List, ◌∷◌, map,
  arith, if◌then◌else◌, any, filter, All, ◌==◌, ◌≤◌, ◌↔◌, ◌⊎◌, inl, inr, refl, Eq, eq-cases,
  ==_refl, ==_iff, ==_ne, Bool-cases, tests_differ,
}

-- Two intervals with no common instant.
abbrev pub Apart : Interval → Interval → Type 0
Apart a b = (a.end ≤ b.start) ⊎ (b.end ≤ a.start)

overlaps-Apart : (a b : Interval) → (overlaps a b ≡ false) ↔ Apart a b
unfolding overlaps
overlaps-Apart a b = ground arith

or_false_iff :
    (a b : Bool) {P Q : Type 0} → (a ≡ false) ↔ P → (b ≡ false) ↔ Q → ((a || b) ≡ false) ↔ (P × Q)
or_false_iff false false h k = (λ p. (h.0 refl, k.0 refl), λ p. refl)
or_false_iff false true h k = (λ p. cc, λ p. k.1 p.1)
or_false_iff true b h k = (λ p. cc, λ p. h.1 p.0)

none_of :
    (a b c d e f g : Bool)
    → not (a || b || c || d || e || f || g) ≡ true
    → (a ≡ false)
      × (b ≡ false)
      × (c ≡ false)
      × (d ≡ false)
      × (e ≡ false)
      × (f ≡ false)
      × (g ≡ false)
none_of a b c d e f g h = ground arith

seven_false :
    (a b c d e f g : Bool) {P Q R S T U V : Type 0}
    → (a ≡ false) ↔ P
    → (b ≡ false) ↔ Q
    → (c ≡ false) ↔ R
    → (d ≡ false) ↔ S
    → (e ≡ false) ↔ T
    → (f ≡ false) ↔ U
    → (g ≡ false) ↔ V
    → (not (a || b || c || d || e || f || g) ≡ true) ↔ (P × Q × R × S × T × U × V)
seven_false a b c d e f g ha hb hc hd he hf hg = (
  λ p.
      let (x, y, z, w, u, v, t) = none_of a b c d e f g p in
      (ha.0 x, hb.0 y, hc.0 z, hd.0 w, he.0 u, hf.0 v, hg.0 t),
  λ p. rw (ha.1 p.0, hb.1 p.1, hc.1 p.2, hd.1 p.3, he.1 p.4, hf.1 p.5, hg.1 p.6) refl,
)

-- A test under a comparison fails exactly if it fails for equal keys.
under :
    {A : Type 0} ⦃e : Eq A⦄ (x y : A) (b : Bool) {P : Type 0}
    → (b ≡ false) ↔ P
    → (((x == y) && b) ≡ false) ↔ (x ≡ y → P)
under x y b h = elim (eq-cases x y) [
  | inl same ↦ rw (same, ==_refl y) (λ p q. h.0 p, λ k. h.1 (k refl))
  | inr other ↦ rw (==_ne x y other) (λ p same. absurd (other same), λ k. refl)
]

under_two :
    {A B : Type 0} ⦃e : Eq A⦄ ⦃f : Eq B⦄ (x y : A) (u v : B) (b : Bool) {P : Type 0}
    → (b ≡ false) ↔ P
    → (((x == y) && (u == v) && b) ≡ false) ↔ (x ≡ y → u ≡ v → P)
under_two x y u v b h = elim (eq-cases x y) [
  | inl same ↦ elim (eq-cases u v) [
    | inl too ↦ rw (same, ==_refl y, too, ==_refl v) (λ p q r. h.0 p, λ k. h.1 (k refl refl))
    | inr other ↦ rw (same, ==_refl y, ==_ne u v other) (λ p q r. absurd (other r), λ k. refl)
  ]
  | inr other ↦ rw (==_ne x y other) (λ p same r. absurd (other same), λ k. refl)
]

texts_beq_iff : (xs ys : List String) → (texts_beq xs ys ≡ true) ↔ (xs ≡ ys)
texts_beq_iff [] [] = ground arith
texts_beq_iff [] (y ∷ ys) = ground arith
texts_beq_iff (x ∷ xs) [] = ground arith
texts_beq_iff (x ∷ xs) (y ∷ ys) = ground (arith, texts_beq_iff xs ys, ==_iff x y)

unlike : {A : Type 0} (e : Eq A) (x y : A) → (not (e.beq x y) ≡ false) ↔ (x ≡ y)
unlike e x y = elim (Bool-cases (e.beq x y)) [
  | inl same ↦ rw same (λ p. (e.beq_iff x y).0 same, λ p. refl)
  | inr other ↦ rw other (λ p. cc, λ p. absurd (tests_differ other ((e.beq_iff x y).1 p)))
]

-- `next((order for order in orders if order), ())`
unfoldable pub first_order : List (List String) → List String
first_order [] = []
first_order ([] ∷ orders) = first_order orders
first_order ((x ∷ xs) ∷ orders) = x ∷ xs

module _ {A : Type 0} where
  -- `any(bad(left, right) for left, right in combinations(items, 2))`
  unfoldable pub clashing : (A → A → Bool) → List A → Bool
  clashing bad [] = false
  clashing bad (x ∷ xs) = any (bad x) xs || clashing bad xs

  abbrev pub Pairwise : (A → A → Type 0) → List A → Type 0
  Pairwise R [] = Unit
  Pairwise R (x ∷ xs) = All (R x) xs × Pairwise R xs

  any-All :
      (p : A → Bool) (P : A → Type 0) (xs : List A)
      → ((x : A) → (p x ≡ false) ↔ P x)
      → (any p xs ≡ false) ↔ All P xs
  unfolding any
  any-All p P [] h = (λ q. tt, λ q. refl)
  any-All p P (x ∷ xs) h = or_false_iff (p x) (any p xs) (h x) (any-All p P xs h)

  clashing-Pairwise :
      (bad : A → A → Bool) (R : A → A → Type 0) (xs : List A)
      → ((x y : A) → (bad x y ≡ false) ↔ R x y)
      → (clashing bad xs ≡ false) ↔ Pairwise R xs
  unfolding clashing
  clashing-Pairwise bad R [] h = (λ q. tt, λ q. refl)
  clashing-Pairwise bad R (x ∷ xs) h =
      or_false_iff (any (bad x) xs) (clashing bad xs) (any-All (bad x) (R x) xs (h x))
        (clashing-Pairwise bad R xs h)

module _ (I : Items) where
  abbrev pub transfers_clash : I.Transfer → I.Transfer → Bool
  transfers_clash a b =
      (I.transfer_worker a == I.transfer_worker b)
      && overlaps (I.transfer_interval a) (I.transfer_interval b)

  abbrev pub overtime_clash : I.Overtime → I.Overtime → Bool
  overtime_clash a b =
      (I.overtime_worker a == I.overtime_worker b)
      && overlaps (I.overtime_interval a) (I.overtime_interval b)

  -- A transfer of a worker during the worker's overtime.
  abbrev pub transfer_in_overtime : I.Transfer → I.Overtime → Bool
  transfer_in_overtime t o =
      (I.transfer_worker t == I.overtime_worker o)
      && overlaps (I.transfer_interval t) (I.overtime_interval o)

  abbrev pub shifts_clash : I.DateShift → I.DateShift → Bool
  shifts_clash a b = (I.shift_task a == I.shift_task b) && not (I.shift_eq.beq a b)

  abbrev pub materials_clash : I.Material → I.Material → Bool
  materials_clash a b = (I.material_task a == I.material_task b) && not (I.material_eq.beq a b)

  abbrev pub weather_clash : I.Weather → I.Weather → Bool
  weather_clash a b =
      ((I.weather_scope a).0 == (I.weather_scope b).0)
      && ((I.weather_scope a).1 == (I.weather_scope b).1)
      && overlaps (I.weather_interval a) (I.weather_interval b)

module _ {I : Items} where
  -- `_compatible_action_parts`
  unfoldable pub compatible_action_parts : List (CandidateAction I) → Bool
  compatible_action_parts parts =
      let transfers = gathered (λ (p : CandidateAction I). p.transfers) parts in
      let overtime = gathered (λ (p : CandidateAction I). p.overtime) parts in
      not (
        clashing (transfers_clash I) transfers
        || any (λ t. any (transfer_in_overtime I t) overtime) transfers
        || clashing (overtime_clash I) overtime
        || clashing (λ a b. not (same_order a b)) (filter has_order parts)
        || clashing (shifts_clash I) (gathered (λ (p : CandidateAction I). p.date_shifts) parts)
        || clashing (materials_clash I) (gathered (λ (p : CandidateAction I). p.materials) parts)
        || clashing (weather_clash I) (gathered (λ (p : CandidateAction I). p.weather) parts))

  -- The type of the first part with an order, or "priority".
  unfoldable pub first_priority_type : List (CandidateAction I) → String
  first_priority_type [] = "priority"
  first_priority_type (p ∷ ps) =
      let rest = first_priority_type ps in if has_order p then p.priority_action_type else rest

  -- `_bundle_actions`
  unfoldable pub bundle_actions : List (CandidateAction I) → CandidateAction I
  bundle_actions parts = record {
    transfers = gathered (λ (p : CandidateAction I). p.transfers) parts;
    overtime = gathered (λ (p : CandidateAction I). p.overtime) parts;
    date_shifts = gathered (λ (p : CandidateAction I). p.date_shifts) parts;
    materials = gathered (λ (p : CandidateAction I). p.materials) parts;
    weather = gathered (λ (p : CandidateAction I). p.weather) parts;
    project_order = first_order (map (λ (p : CandidateAction I). p.project_order) parts);
    task_order = first_order (map (λ (p : CandidateAction I). p.task_order) parts);
    priority_action_type = first_priority_type parts;
    validation_errors = [];
  }

  -- What parts must be to be compatible, said of the bundle that they make and of their orders.
  abbrev pub IsCompatible : List (CandidateAction I) → CandidateAction I → Type 0
  IsCompatible parts bundle =
      Pairwise
        (λ a b.
          I.transfer_worker a ≡ I.transfer_worker b
          → Apart (I.transfer_interval a) (I.transfer_interval b))
        bundle.transfers
      × All
          (λ t.
            All
              (λ o.
                I.transfer_worker t ≡ I.overtime_worker o
                → Apart (I.transfer_interval t) (I.overtime_interval o))
              bundle.overtime)
          bundle.transfers
      × Pairwise
          (λ a b.
            I.overtime_worker a ≡ I.overtime_worker b
            → Apart (I.overtime_interval a) (I.overtime_interval b))
          bundle.overtime
      × Pairwise (λ a b. (a.project_order ≡ b.project_order) × (a.task_order ≡ b.task_order))
          (filter has_order parts)
      × Pairwise (λ a b. I.shift_task a ≡ I.shift_task b → a ≡ b) bundle.date_shifts
      × Pairwise (λ a b. I.material_task a ≡ I.material_task b → a ≡ b) bundle.materials
      × Pairwise
          (λ a b.
            (I.weather_scope a).0 ≡ (I.weather_scope b).0
            → (I.weather_scope a).1 ≡ (I.weather_scope b).1
            → Apart (I.weather_interval a) (I.weather_interval b))
          bundle.weather

  same_order_iff :
      (a b : CandidateAction I)
      → (not (same_order a b) ≡ false)
        ↔ ((a.project_order ≡ b.project_order) × (a.task_order ≡ b.task_order))
  same_order_iff a b = ground (
    arith,
    texts_beq_iff a.project_order b.project_order,
    texts_beq_iff a.task_order b.task_order,
  )

  -- Parts are compatible exactly if in the bundle that they make no worker has two transfers or two
  -- overtime windows that overlap, or a transfer during overtime; two date shifts or two materials of
  -- one task are equal; two weather responses of one scope are apart; and all parts with an order of
  -- projects or tasks have the same orders.
  pub bundle_actions-IsCompatible :
      (parts : List (CandidateAction I))
      → (compatible_action_parts parts ≡ true) ↔ IsCompatible parts (bundle_actions parts)
  unfolding compatible_action_parts bundle_actions
  bundle_actions-IsCompatible parts =
      let transfers = gathered (λ (p : CandidateAction I). p.transfers) parts in
      let overtime = gathered (λ (p : CandidateAction I). p.overtime) parts in
      seven_false _ _ _ _ _ _ _
        (clashing-Pairwise (transfers_clash I) _ transfers (λ a b.
          under (I.transfer_worker a) (I.transfer_worker b) _
            (overlaps-Apart (I.transfer_interval a) (I.transfer_interval b))))
        (any-All (λ t. any (transfer_in_overtime I t) overtime) _ transfers
          (λ t. any-All (transfer_in_overtime I t) _ overtime (λ o.
            under (I.transfer_worker t) (I.overtime_worker o) _
              (overlaps-Apart (I.transfer_interval t) (I.overtime_interval o)))))
        (clashing-Pairwise (overtime_clash I) _ overtime (λ a b.
          under (I.overtime_worker a) (I.overtime_worker b) _
            (overlaps-Apart (I.overtime_interval a) (I.overtime_interval b))))
        (clashing-Pairwise (λ a b. not (same_order a b)) _ (filter has_order parts) same_order_iff)
        (clashing-Pairwise (shifts_clash I) _ _
          (λ a b. under (I.shift_task a) (I.shift_task b) _ (unlike I.shift_eq a b)))
        (clashing-Pairwise (materials_clash I) _ _
          (λ a b. under (I.material_task a) (I.material_task b) _ (unlike I.material_eq a b)))
        (clashing-Pairwise (weather_clash I) _ _ (λ a b.
          under_two (I.weather_scope a).0 (I.weather_scope b).0 (I.weather_scope a).1
            (I.weather_scope b).1 _ (overlaps-Apart (I.weather_interval a) (I.weather_interval b))))
