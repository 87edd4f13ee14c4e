-- ===== src/Store/Records/Order.antt =====
-- `list_records` sorts by the time of the last save.
use mathlib.Core.List.{Perm}
use mathlib.Core.List.Perm
use intelliq.Prelude.{
  ◌≤◌, ◌≡◌, refl, String, string_eq, ◌&&◌, List, [], ◌∷◌, arith, ltb, ◌==◌, Bool-cases, inl, inr,
  All, All-map, filter,
}
use intelliq.Store.Rows.{Instant, ExtensionRow, Store}
use intelliq.Store.Records.{insert_newest, newest_first, load_all, list_records}

module _ {B : Type 0} where
  -- Newest first, as the rows' times say.
  abbrev pub IsNewestFirst : List (ExtensionRow B) → Type 0
  IsNewestFirst [] = Unit
  IsNewestFirst (r ∷ rs) = All (λ x. x.updated_at ≤ r.updated_at) rs × IsNewestFirst rs

  insert_newest-perm :
      (r : ExtensionRow B) (rs : List (ExtensionRow B)) → Perm (insert_newest r rs) (r ∷ rs)
  unfolding insert_newest
  insert_newest-perm r [] = Perm.refl _
  insert_newest-perm r (x ∷ xs) = elim (Bool-cases (ltb x.updated_at r.updated_at)) [
    | inl newer ↦ rw newer (Perm.refl _)
    | inr older ↦ rw older (Perm.trans (Perm.cons x (insert_newest-perm r xs)) (Perm.swap r x xs))
  ]

  pub newest_first-perm : (rs : List (ExtensionRow B)) → Perm (newest_first rs) rs
  unfolding newest_first
  newest_first-perm [] = Perm.refl _
  newest_first-perm (r ∷ rs) =
      Perm.trans (insert_newest-perm r (newest_first rs)) (Perm.cons r (newest_first-perm rs))

  All-insert_newest :
      (n : Instant) (r : ExtensionRow B) (rs : List (ExtensionRow B))
      → r.updated_at ≤ n
      → All (λ x. x.updated_at ≤ n) rs
      → All (λ x. x.updated_at ≤ n) (insert_newest r rs)
  unfolding insert_newest
  All-insert_newest n r [] h a = (h, tt)
  All-insert_newest n r (x ∷ xs) h a = ground (arith, All-insert_newest n r xs h a.1)

  insert_newest-IsNewestFirst :
      (r : ExtensionRow B) (rs : List (ExtensionRow B))
      → IsNewestFirst rs
      → IsNewestFirst (insert_newest r rs)
  unfolding insert_newest
  insert_newest-IsNewestFirst r [] h = (tt, tt)
  insert_newest-IsNewestFirst r (x ∷ xs) h = elim (Bool-cases (ltb x.updated_at r.updated_at)) [
    | inl newer ↦
        let below : x.updated_at ≤ r.updated_at = ground arith in
        rw newer ((below, All-map (λ y q. omega arith) xs h.0), h)
    | inr older ↦
        let above : r.updated_at ≤ x.updated_at = ground arith in
        rw older
          (All-insert_newest x.updated_at r xs above h.0, insert_newest-IsNewestFirst r xs h.1)
  ]

  pub newest_first-IsNewestFirst : (rs : List (ExtensionRow B)) → IsNewestFirst (newest_first rs)
  unfolding newest_first
  newest_first-IsNewestFirst [] = tt
  newest_first-IsNewestFirst (r ∷ rs) =
      insert_newest-IsNewestFirst r (newest_first rs) (newest_first-IsNewestFirst rs)

  -- `list_records` decodes exactly the tenant's rows of the kind, each once, newest save first.
  pub list_records-perm :
      (s : Store B) (org kind : String)
      → (rows : List (ExtensionRow B)) × (list_records s org kind ≡ load_all rows)
        × Perm rows
            (filter (λ r. (r.organization_id == org) && (r.kind == kind)) s.workflow_records)
        × IsNewestFirst rows
  unfolding list_records
  list_records-perm s org kind =
      let rows =
        filter (λ (r : ExtensionRow B). (r.organization_id == org) && (r.kind == kind))
          s.workflow_records in
      (newest_first rows, refl, newest_first-perm rows, newest_first-IsNewestFirst rows)
