-- ===== src/Jobs/Enqueue/Repeated.antt =====
-- A submission that is sent again.
use intelliq.Store.Records.Laws.{save_entry-Saved}
use intelliq.Store.Records.{
  Entry, stamped, document_row, save_entry, save_records, record_key, newest_first, list_records,
}
use intelliq.Store.Rows.{
  key_eq, Instant, Document, ExtensionRow, extension_key, Store, document, Key, Payload,
}
use intelliq.Jobs.Enqueue.Laws.{
  Gives, newest_first-All, filter-All, All-put, All-get, All-newest_first, All-filter_if,
  none_found, found,
}
use intelliq.Jobs.Enqueue.{
  Submission, submission_key, new_job, new_outbox, new_entries, keyed, find_prior, enqueue_new,
  enqueue_analysis,
}
use intelliq.Jobs.Records.{Job, Work, job_entry, outbox, as_job}
use Prim.Native.String.{◌++◌ as push_str}
use intelliq.Prelude.Table
use intelliq.Prelude.{
  string_eq, [], String, ◌≡◌, refl, sym, ap, ◌∙◌, Bool, ◌&&◌, some, List, ◌∷◌, ◌==◌, ==_refl,
  >>=-eq-ok, ok-injective, ok, ◌⊎◌, inl, inr, true, Option, none, and_true, filter, All, All-map,
  tests_differ, ==_iff, subst, Option-cases, ◌>>=◌,
}

module _ {R : Type 0} (org : String) where
  -- The rows that a listing of the jobs takes.
  abbrev is_job : ExtensionRow (Work R) → Bool
  is_job r = (r.organization_id == org) && (r.kind == "job")

  abbrev job_row : Submission R → Instant → ExtensionRow (Work R)
  job_row a created =
      let e = job_entry a.job_id (new_job a) a.now in document_row org e (stamped org e created)

  abbrev outbox_entry : Submission R → Entry (Work R)
  outbox_entry a = record {
    kind = "outbox";
    id = push_str "job:" a.job_id;
    payload = outbox (new_outbox a);
    now = a.now;
  }

  abbrev outbox_row : Submission R → Instant → ExtensionRow (Work R)
  outbox_row a created = document_row org (outbox_entry a) (stamped org (outbox_entry a) created)

  abbrev rows_of : Store (Work R) × List (Document (Work R)) → List (ExtensionRow (Work R))
  rows_of saved = saved.0.workflow_records

  -- What the two saves leave.
  saved_rows :
      (s s' : Store (Work R)) (a : Submission R) (ds : List (Document (Work R)))
      → save_records s org (new_entries a) ≡ ok (s', ds)
      → (created created' : Instant) × (s'.workflow_records
          ≡ Table.put extension_key
              (outbox_row a created')
              (Table.put extension_key (job_row a created) s.workflow_records))
  unfolding save_records
  saved_rows s s' a ds h =
      let ((s₁, d₁), first, h₁) =
        >>=-eq-ok (save_entry s org (job_entry a.job_id (new_job a) a.now)) _ h in
      let ((s₃, ds₁), rest, h₂) = >>=-eq-ok (save_records s₁ org (outbox_entry a ∷ [])) _ h₁ in
      let ((s₂, d₂), second, h₃) = >>=-eq-ok (save_entry s₁ org (outbox_entry a)) _ rest in
      let one = save_entry-Saved s org (job_entry a.job_id (new_job a) a.now) first in
      let two = save_entry-Saved s₁ org (outbox_entry a) second in
      (
        one.created,
        two.created,
        ap rows_of (sym (ok-injective h₂))
            ∙ ap rows_of (sym (ok-injective h₃))
            ∙ two.rows
            ∙ ap (Table.put extension_key (outbox_row a two.created)) one.rows,
      )

  abbrev new : Submission R → String × Job R
  new a = (a.job_id, new_job a)

  module _ (a : Submission R) where
    Gives-new_job :
        (created : Instant) → Gives a.job_type (submission_key a) (some (new a)) (job_row a created)
    Gives-new_job created = (
      document (stamped org (job_entry a.job_id (new_job a) a.now) created),
      refl,
      rw (==_refl a.job_type, ==_refl (submission_key a)),
    )

    Gives-Gives :
        (created : Instant) → Gives a.job_type (submission_key a) none (job_row a created) → ⊥
    Gives-Gives created (v, e, free) = differ (
        rw (==_refl a.job_type, ==_refl (submission_key a)) at
          (ap (λ w. keyed a.job_type (submission_key a) (as_job (some w))) (ok-injective e) ∙ free))
      where
        differ : ◌≡◌ {A = Option (String × Job R)} (some (new a)) none → ⊥
        differ p = cc

    -- A row of the listing, after the two saves.
    abbrev Listed : ExtensionRow (Work R) → Type 0
    Listed r =
        Gives a.job_type (submission_key a) none r
        ⊎ Gives a.job_type (submission_key a) (some (new a)) r

    Listed-put :
        (rows : List (ExtensionRow (Work R))) (created created' : Instant)
        → All (Gives a.job_type (submission_key a) none) (newest_first (filter is_job rows))
        → All
            (λ r. is_job r ≡ true → Listed r)
            (Table.put extension_key
              (outbox_row a created')
              (Table.put extension_key (job_row a created) rows))
    Listed-put rows created created' free =
        All-put extension_key (λ (r : ExtensionRow (Work R)). is_job r ≡ true → Listed r)
          (outbox_row a created') (Table.put extension_key (job_row a created) rows)
          (λ k. absurd (tests_differ refl (and_true (org == org) _ k).1))
          (All-put extension_key (λ (r : ExtensionRow (Work R)). is_job r ≡ true → Listed r)
            (job_row a created) rows (λ k. inr (Gives-new_job created))
            (All-map (λ r h k. inl (h k)) rows
              (filter-All (Gives a.job_type (submission_key a) none) is_job rows (
                newest_first-All (Gives a.job_type (submission_key a) none) (filter is_job rows)
                  free))))

    -- The new job's row is there.
    put-Gives :
        (rows : List (ExtensionRow (Work R))) (created created' : Instant)
        → All (Gives a.job_type (submission_key a) none) (
            newest_first (
              filter is_job (
                Table.put extension_key
                  (outbox_row a created')
                  (Table.put extension_key (job_row a created) rows))))
        → ⊥
    put-Gives rows created created' free = Gives-Gives created (
        All-get extension_key
          (λ (r : ExtensionRow (Work R)).
            is_job r ≡ true → Gives a.job_type (submission_key a) none r)
          (record_key org "job" a.job_id) _
          (Table.get-put_other extension_key (record_key org "job" a.job_id) (outbox_row a created')
              _
              (λ p.
                tests_differ refl
                  ((==_iff {A = String} "outbox" "job").1 (ap (λ (k : Key). k.kind) p)))
            ∙ Table.get-put_self extension_key (record_key org "job" a.job_id) (job_row a created)
                rows refl)
          (filter-All (Gives a.job_type (submission_key a) none) is_job _
            (newest_first-All (Gives a.job_type (submission_key a) none) (filter is_job _) free))
          (rw (==_refl org)))

  -- The listing after a new job was stored.
  listing_finds :
      (s s' : Store (Work R)) (a : Submission R) (ds : List (Document (Work R)))
      {priors : List (Payload (Work R))}
      → list_records s org "job" ≡ ok priors
      → find_prior a.job_type (submission_key a) priors ≡ none
      → save_records s org (new_entries a) ≡ ok (s', ds)
      → (vs : List (Payload (Work R))) × (list_records s' org "job" ≡ ok vs)
        × (find_prior a.job_type (submission_key a) vs ≡ some (new a))
  unfolding list_records
  listing_finds s s' a ds listed free saved =
      let (created, created', rows) = saved_rows s s' a ds saved in
      let none_before = none_found a.job_type (submission_key a) _ listed free in
      let (vs, loaded, either) =
        found a.job_type (submission_key a) (new a)
          (newest_first (filter is_job (both created created')))
          (All-newest_first (Listed a) (filter is_job (both created created')) (
            All-filter_if (Listed a) is_job (both created created')
              (Listed-put a s.workflow_records created created' none_before))) in
      (
        vs,
        rw rows loaded,
        elim either [
          | inl gone ↦ absurd (put-Gives a s.workflow_records created created' gone)
          | inr p ↦ p
        ],
      )
    where
      both : Instant → Instant → List (ExtensionRow (Work R))
      both created created' =
          Table.put extension_key (outbox_row a created')
            (Table.put extension_key (job_row a created) s.workflow_records)

  -- After a submission the listing of the jobs has its job.
  pub enqueue_analysis-find_prior :
      (s : Store (Work R)) (a : Submission R) {s' : Store (Work R)} {j : String × Job R}
      → enqueue_analysis s org a ≡ ok (s', j)
      → (vs : List (Payload (Work R))) × (list_records s' org "job" ≡ ok vs)
        × (find_prior a.job_type (submission_key a) vs ≡ some j)
  unfolding enqueue_analysis
  enqueue_analysis-find_prior s a {s'} {j} h =
      let (priors, listed, h₁) = >>=-eq-ok (list_records s org "job") _ h in
      elim (Option-cases (find_prior a.job_type (submission_key a) priors)) [
        | inr (prior, p) ↦
            let same = ok-injective (rw p at h₁) in
            (
              priors,
              ap (λ (r : Store (Work R) × (String × Job R)). list_records r.0 org "job") (sym same)
                  ∙ listed,
              p ∙ ap (λ (r : Store (Work R) × (String × Job R)). some r.1) same,
            )
        | inl free ↦
            let ((s₁, ds), saved, h₂) =
              >>=-eq-ok (save_records s org (new_entries a)) _ (rw free at h₁) in
            let (vs, found_all, finds) = listing_finds s s₁ a ds listed free saved in
            let same = ok-injective h₂ in
            (
              vs,
              ap (λ (r : Store (Work R) × (String × Job R)). list_records r.0 org "job") (sym same)
                  ∙ found_all,
              finds ∙ ap (λ (r : Store (Work R) × (String × Job R)). some r.1) same,
            )
      ]

  -- A submission whose job the listing has.
  pub find_prior-enqueue_analysis :
      (s : Store (Work R)) (b : Submission R) (vs : List (Payload (Work R))) {j : String × Job R}
      → list_records s org "job" ≡ ok vs
      → find_prior b.job_type (submission_key b) vs ≡ some j
      → enqueue_analysis s org b ≡ ok (s, j)
  unfolding enqueue_analysis
  find_prior-enqueue_analysis s b vs listed finds = rw (listed, finds) refl

  -- A submission with the type and the idempotency key of an earlier one returns that one's job and
  -- stores nothing, whatever session, body and ids it comes with.
  pub enqueue_analysis-enqueue_analysis :
      (s : Store (Work R)) (a b : Submission R) {s' : Store (Work R)} {j : String × Job R}
      → enqueue_analysis s org a ≡ ok (s', j)
      → b.job_type ≡ a.job_type
      → submission_key b ≡ submission_key a
      → enqueue_analysis s' org b ≡ ok (s', j)
  unfolding enqueue_analysis
  enqueue_analysis-enqueue_analysis s a b {s'} {j} h same_type same_key =
      let (priors, listed, h₁) = >>=-eq-ok (list_records s org "job") _ h in
      elim (Option-cases (find_prior a.job_type (submission_key a) priors)) [
        | inr (prior, p) ↦
            subst
              (λ (r : Store (Work R) × (String × Job R)).
                (list_records r.0 org "job" >>= λ vs.
                enqueue_new r.0 org b (find_prior b.job_type (submission_key b) vs))
                ≡ ok r)
              (ok-injective (rw p at h₁)) (rw (listed, same_type, same_key, p))
        | inl free ↦
            let ((s₁, ds), saved, h₂) =
              >>=-eq-ok (save_records s org (new_entries a)) _ (rw free at h₁) in
            let (vs, found_all, finds) = listing_finds s s₁ a ds listed free saved in
            subst
              (λ (r : Store (Work R) × (String × Job R)).
                (list_records r.0 org "job" >>= λ vs.
                enqueue_new r.0 org b (find_prior b.job_type (submission_key b) vs))
                ≡ ok r)
              (ok-injective h₂) (rw (found_all, same_type, same_key, finds))
      ]
