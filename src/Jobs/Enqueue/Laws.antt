-- ===== src/Jobs/Enqueue/Laws.antt =====
-- The idempotency of a submission.
use intelliq.Store.Records.{loads, insert_newest, newest_first, load_all}
use intelliq.Store.Rows.{Payload, ExtensionRow}
use intelliq.Jobs.Enqueue.{keyed, or_else, find_prior}
use intelliq.Jobs.Records.{Job, Work, as_job}
use intelliq.Prelude.Table
use intelliq.Prelude.{
  string_eq, [], String, ◌≡◌, refl, ap, ◌∙◌, subst, ◌⊎◌, inl, inr, Bool, true, Option, none, some,
  List, ◌∷◌, ltb, Bool-cases, all, filter, All, Eq, tests_differ, ◌==◌, >>=-eq-ok, ok-injective, ok,
}

module _ {B : Type 0} (P : ExtensionRow B → Type 0) where
  All-insert_newest :
      (r : ExtensionRow B) (rs : List (ExtensionRow B))
      → P r × All P rs
      → All P (insert_newest r rs)
  unfolding insert_newest
  All-insert_newest r [] h = (h.0, tt)
  All-insert_newest r (x ∷ xs) (p, (q, h)) = elim (Bool-cases (ltb x.updated_at r.updated_at)) [
    | inl newer ↦ rw newer (p, (q, h))
    | inr older ↦ rw older (q, All-insert_newest r xs (p, h))
  ]

  insert_newest-All :
      (r : ExtensionRow B) (rs : List (ExtensionRow B))
      → All P (insert_newest r rs)
      → P r × All P rs
  unfolding insert_newest
  insert_newest-All r [] h = h
  insert_newest-All r (x ∷ xs) h = elim (Bool-cases (ltb x.updated_at r.updated_at)) [
    | inl newer ↦ rw newer at h
    | inr older ↦
        let (q, rest) = (rw older at h) in
        let (p, others) = insert_newest-All r xs rest in (p, (q, others))
  ]

  -- The order of a listing does not matter to a property of all of its rows.
  pub All-newest_first : (rs : List (ExtensionRow B)) → All P rs → All P (newest_first rs)
  unfolding newest_first
  All-newest_first [] h = tt
  All-newest_first (r ∷ rs) h = All-insert_newest r (newest_first rs) (h.0, All-newest_first rs h.1)

  pub newest_first-All : (rs : List (ExtensionRow B)) → All P (newest_first rs) → All P rs
  unfolding newest_first
  newest_first-All [] h = tt
  newest_first-All (r ∷ rs) h =
      let (p, rest) = insert_newest-All r (newest_first rs) h in (p, newest_first-All rs rest)

module _ {B : Type 0} (P : ExtensionRow B → Type 0) (q : ExtensionRow B → Bool) where
  pub filter-All :
      (rs : List (ExtensionRow B)) → All P (filter q rs) → All (λ r. q r ≡ true → P r) rs
  unfolding filter
  filter-All [] h = tt
  filter-All (r ∷ rs) h = elim (Bool-cases (q r)) [
    | inl kept ↦ let (p, rest) = (rw kept at h) in (λ k. p, filter-All rs rest)
    | inr gone ↦ (λ k. absurd (tests_differ gone k), filter-All rs (rw gone at h))
  ]

  pub All-filter_if :
      (rs : List (ExtensionRow B)) → All (λ r. q r ≡ true → P r) rs → All P (filter q rs)
  unfolding filter
  All-filter_if [] h = tt
  All-filter_if (r ∷ rs) h = elim (Bool-cases (q r)) [
    | inl kept ↦ rw kept (h.0 kept, All-filter_if rs h.1)
    | inr gone ↦ rw gone (All-filter_if rs h.1)
  ]

module _ {R K : Type 0} ⦃e : Eq K⦄ (key : R → K) (P : R → Type 0) where
  pub All-put : (r : R) (rs : List R) → P r → All P rs → All P (Table.put key r rs)
  unfolding Table.put
  All-put r [] p h = (p, tt)
  All-put r (x ∷ xs) p h = elim (Bool-cases (key x == key r)) [
    | inl same ↦ rw same (p, h.1)
    | inr differs ↦ rw differs (h.0, All-put r xs p h.1)
  ]

  pub All-get : (k : K) (rs : List R) {r : R} → Table.get key k rs ≡ some r → All P rs → P r
  unfolding Table.get
  All-get k [] h all = cc
  All-get k (x ∷ xs) {r} h all = elim (Bool-cases (key x == k)) [
    | inl hit ↦ subst P (same (rw hit at h)) all.0
    | inr miss ↦ All-get k xs (rw miss at h) all.1
  ]
    where
      same : {a b : R} → ◌≡◌ {A = Option R} (some a) (some b) → a ≡ b
      same q = cc

module _ {R : Type 0} (type key : String) where
  -- A row that decodes to a job with the key, or to none.
  abbrev pub Gives : Option (String × Job R) → ExtensionRow (Work R) → Type 0
  Gives o r =
      (v : Payload (Work R)) × (loads r.payload_json ≡ ok v)
      × (keyed type key (as_job (some v)) ≡ o)

  pub none_found :
      (rs : List (ExtensionRow (Work R))) {vs : List (Payload (Work R))}
      → load_all rs ≡ ok vs
      → find_prior type key vs ≡ none
      → All (Gives none) rs
  unfolding load_all find_prior
  none_found [] h free = tt
  none_found (r ∷ rs) {vs} h free =
      let (v, first, h₁) = >>=-eq-ok (loads r.payload_json) _ h in
      let (vs₁, rest, h₂) = >>=-eq-ok (load_all rs) _ h₁ in
      let (here, there) =
        neither (keyed type key (as_job (some v))) (find_prior type key vs₁)
          (ap (find_prior type key) (ok-injective h₂) ∙ free) in
      ((v, first, here), none_found rs rest there)
    where
      neither : (a b : Option (String × Job R)) → or_else a b ≡ none → (a ≡ none) × (b ≡ none)
      neither none b p = (refl, p)
      neither (some a) b p = cc

  -- Where every row is new or gives no such job, the loop finds the new one, if there is one.
  pub found :
      (new : String × Job R) (rs : List (ExtensionRow (Work R)))
      → All (λ r. Gives none r ⊎ Gives (some new) r) rs
      → (vs : List (Payload (Work R))) × (load_all rs ≡ ok vs)
        × (All (Gives none) rs ⊎ (find_prior type key vs ≡ some new))
  unfolding load_all find_prior
  found new [] h = ([], refl, inl tt)
  found new (r ∷ rs) (inl (v, e, k), h) =
      let (vs, loaded, rest) = found new rs h in
      (
        v ∷ vs,
        rw (e, loaded),
        elim rest [ inl none_left ↦ inl ((v, e, k), none_left) | inr p ↦ inr (rw (k, p)) ],
      )
  found new (r ∷ rs) (inr (v, e, k), h) =
      let (vs, loaded, rest) = found new rs h in (v ∷ vs, rw (e, loaded), inr (rw k))
