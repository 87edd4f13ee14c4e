-- ===== src/Prelude/Table.antt =====
-- A database table with a primary key: a list of rows in which `put` keeps one row for each key.
use intelliq.Prelude.{
  ◌≡◌, refl, Option, none, some, List, [], ◌∷◌, arith, Eq, ◌==◌, if◌then◌else◌, true, is_some,
  ==_refl, ◌≢◌, ==_ne, map, option_map, Bool-cases, inl, inr, Option-cases,
}

module _ {R K : Type 0} ⦃e : Eq K⦄ (key : R → K) where
  -- `db.get(Row, key)`
  unfoldable pub get : K → List R → Option R
  get k [] = none
  get k (r ∷ rs) = let rest = get k rs in if key r == k then some r else rest

  -- `db.merge(row)`, and `db.add(row)` where the key is new
  unfoldable pub put : R → List R → List R
  put r [] = r ∷ []
  put r (x ∷ xs) = let rest = put r xs in if key x == key r then r ∷ xs else x ∷ rest

  -- `delete(Row).where(key)`
  unfoldable pub remove : K → List R → List R
  remove k [] = []
  remove k (r ∷ rs) = let rest = remove k rs in if key r == k then rest else r ∷ rest

  pub get-put :
      (k : K) (r : R) (rs : List R) → get k (put r rs) ≡ (if key r == k then some r else get k rs)
  unfolding get put
  get-put k r [] = refl
  get-put k r (x ∷ xs) =
      ground
        (arith, get-put k r xs, e.beq_iff (key x) (key r), e.beq_iff (key x) k, e.beq_iff (key r) k)

  pub get-remove :
      (k j : K) (rs : List R) → get k (remove j rs) ≡ (if j == k then none else get k rs)
  unfolding get remove
  get-remove k j [] = ground arith
  get-remove k j (x ∷ xs) =
      ground (arith, get-remove k j xs, e.beq_iff (key x) j, e.beq_iff (key x) k, e.beq_iff j k)

  pub get-key : (k : K) (rs : List R) {r : R} → get k rs ≡ some r → (key r == k) ≡ true
  unfolding get
  get-key k [] h = ground arith
  get-key k (x ∷ xs) {r} h = ground (arith, get-key k xs {r = r})

  -- `db.add(row)`: an IntegrityError, here `none`, if the key is taken
  unfoldable pub add : R → List R → Option (List R)
  add r rs = if is_some (get (key r) rs) then none else some (put r rs)

  pub get-key_eq : (k : K) (rs : List R) {r : R} → get k rs ≡ some r → key r ≡ k
  get-key_eq k rs {r} h = (e.beq_iff (key r) k).0 (get-key k rs h)

  pub get-put_self : (k : K) (r : R) (rs : List R) → key r ≡ k → get k (put r rs) ≡ some r
  get-put_self k r rs h = rw (get-put, (e.beq_iff (key r) k).1 h)

  pub get-put_other : (k : K) (r : R) (rs : List R) → key r ≢ k → get k (put r rs) ≡ get k rs
  get-put_other k r rs h = rw (get-put, ==_ne (key r) k h)

  pub get-remove_self : (k : K) (rs : List R) → get k (remove k rs) ≡ none
  get-remove_self k rs = rw (get-remove, ==_refl k)

  pub get-remove_other : (k j : K) (rs : List R) → j ≢ k → get k (remove j rs) ≡ get k rs
  get-remove_other k j rs h = rw (get-remove, ==_ne j k h)

  -- A change of every row that keeps the keys is a change of the row that is read.
  pub get-map :
      (f : R → R)
      → ((r : R) → key (f r) ≡ key r)
      → (k : K) (rs : List R) → get k (map f rs) ≡ option_map f (get k rs)
  unfolding get
  get-map f keeps k [] = refl
  get-map f keeps k (r ∷ rs) = rw (keeps r) (elim (Bool-cases (key r == k)) [
    | inl same ↦ rw same
    | inr other ↦ rw other (get-map f keeps k rs)
  ])

  -- What a successful `add` did.
  pub add-some :
      (r : R) (rs : List R) {rs' : List R}
      → add r rs ≡ some rs'
      → (get (key r) rs ≡ none) × (put r rs ≡ rs')
  unfolding add
  add-some r rs {rs'} h = elim (Option-cases (get (key r) rs)) [
    | inl free ↦ (free, stored (rw free at h))
    | inr (x, taken) ↦ absurd (refused (rw taken at h))
  ]
    where
      stored : some (put r rs) ≡ some rs' → put r rs ≡ rs'
      stored e = cc

      refused : none ≡ some rs' → ⊥
      refused e = cc
