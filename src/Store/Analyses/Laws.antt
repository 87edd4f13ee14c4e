-- ===== src/Store/Analyses/Laws.antt =====
-- Analyses are created once for a run key and are visible to their tenant only.
use intelliq.Prelude.{
  ◌≡◌, refl, sym, ap, ◌∙◌, String, string_eq, Option, none, some, inl, inr, List, ◌==◌, ==_iff,
  tests_differ, ==_iff, tests_differ, if◌then◌else◌, ok, >>=-eq-ok, ok-injective, Option-cases,
  Bool-cases,
}
use intelliq.Prelude.Table
use intelliq.Store.Rows.{Key, key_eq, ExtensionRow, extension_key, AnalysisRow, Store}
use intelliq.Store.Records.{record_key}
use intelliq.Store.Analyses.{
  Request, FrozenInput, truthy, stored_payload, run_row, input_row, analysis_key, analysis_row,
  run_analysis, added, add_input, add_analysis, create_run, create_keyed, create_analysis, visible,
  get_analysis,
}

module _ {R : Type 0} where
  added-ok : (o : Option (List R)) {rows : List R} → added o ≡ ok rows → o ≡ some rows
  added-ok none h = cc
  added-ok (some r) h = cc

kinds_differ : ¬ ◌≡◌ {A = String} "analysis_input" "analysis_run"
kinds_differ p = tests_differ refl ((==_iff "analysis_input" "analysis_run").1 p)

module _ {B : Type 0} where
  -- The run key is registered for the analysis `a`.
  record HasRun (rows : List (ExtensionRow B)) (org key a : String) : Type 0 where
    row : ExtensionRow B
    found : Table.get extension_key (record_key org "analysis_run" key) rows ≡ some row
    names : run_analysis row.payload_json ≡ ok a

  -- Freezing the input leaves every run key as it was.
  get-add_input :
      (q : Request B) (f : Option (FrozenInput B)) (rows : List (ExtensionRow B))
      {rows' : List (ExtensionRow B)} (key : String)
      → add_input q f rows ≡ ok rows'
      → Table.get extension_key (record_key q.organization_id "analysis_run" key) rows'
        ≡ Table.get extension_key (record_key q.organization_id "analysis_run" key) rows
  get-add_input q none rows key h =
      ap (Table.get extension_key (record_key q.organization_id "analysis_run" key))
        (sym (ok-injective h))
  get-add_input q (some f) rows key h =
      let (free, stored) = Table.add-some extension_key (input_row q f) rows (added-ok _ h) in
      ap (Table.get extension_key (record_key q.organization_id "analysis_run" key)) (sym stored)
      ∙ Table.get-put_other extension_key _ (input_row q f) rows
          (λ p. kinds_differ (ap (λ (k : Key). k.kind) p))

  -- What `add_analysis` leaves behind.
  record Added (s : Store B) (q : Request B) (rows : List (ExtensionRow B)) (s' : Store B)
      (a : String) : Type 0 where
    id : a ≡ q.analysis_id
    free : Table.get analysis_key q.analysis_id s.analyses ≡ none
    analyses : s'.analyses ≡ Table.put analysis_key (analysis_row q) s.analyses
    records : add_input q q.frozen rows ≡ ok s'.workflow_records

  add_analysis-Added :
      (s : Store B) (q : Request B) (rows : List (ExtensionRow B)) {s' : Store B} {a : String}
      → add_analysis s q rows ≡ ok (s', a)
      → Added s q rows s' a
  unfolding add_analysis
  add_analysis-Added s q rows {s'} {a} h =
      let (records, frozen, h₁) = >>=-eq-ok (add_input q q.frozen rows) _ h in
      let (analyses, stored, h₂) =
        >>=-eq-ok (added (Table.add analysis_key (analysis_row q) s.analyses)) _ h₁ in
      let (free, kept) =
        Table.add-some analysis_key (analysis_row q) s.analyses (added-ok _ stored) in
      let both = ok-injective h₂ in
      record {
        id = sym (ap (λ (x : Store B × String). x.1) both);
        free = free;
        analyses = sym (ap (λ (x : Store B × String). x.0.analyses) both) ∙ sym kept;
        records = frozen ∙ ap (λ (x : Store B × String). ok x.0.workflow_records) both;
      }

  Added-HasRun :
      (s : Store B) (q : Request B) (key a : String) {s' : Store B} {b : String}
      (rows : List (ExtensionRow B))
      → Added s q rows s' b
      → HasRun rows q.organization_id key a
      → HasRun s'.workflow_records q.organization_id key a
  Added-HasRun s q key a rows added h = record {
    row = h.row;
    found = get-add_input q q.frozen rows key added.records ∙ h.found;
    names = h.names;
  }

  create_run-HasRun :
      (s : Store B) (q : Request B) (key : String) {s' : Store B} {a : String}
      → create_run s q key (
          Table.get extension_key
            (record_key q.organization_id "analysis_run" key)
            s.workflow_records)
        ≡ ok (s', a)
      → HasRun s'.workflow_records q.organization_id key a
  unfolding create_run
  create_run-HasRun s q key {s'} {a} h =
      elim (Option-cases (
        Table.get extension_key (record_key q.organization_id "analysis_run" key)
          s.workflow_records)) [
            | inl free ↦
                let (rows, stored, h₁) = >>=-eq-ok _ _ (rw (free, create_run) at h) in
                let (_, kept) =
                  Table.add-some extension_key (run_row q key) s.workflow_records
                    (added-ok _ stored) in
                let new = add_analysis-Added s q rows h₁ in
                Added-HasRun s q key a rows new (record {
                  row = run_row q key;
                  found =
                      ap (Table.get extension_key (record_key q.organization_id "analysis_run" key))
                        (sym kept)
                      ∙ Table.get-put_self extension_key _ (run_row q key) s.workflow_records refl;
                  names = ap ok (sym new.id);
                })
            | inr (row, taken) ↦
                let (found, named, h₁) =
                  >>=-eq-ok (run_analysis row.payload_json) _ (rw (taken, create_run) at h) in
                let both = ok-injective h₁ in
                record {
                  row = row;
                  found =
                      ap
                        (λ (x : Store B × String).
                          Table.get extension_key (record_key q.organization_id "analysis_run" key)
                            x.0.workflow_records)
                        (sym both)
                      ∙ taken;
                  names = named ∙ ap (λ (x : Store B × String). ok x.1) both;
                }
          ]

  -- Creating an analysis again under a run key that the tenant has used returns the first
  -- analysis and changes nothing, whatever else the second request says.
  pub create_analysis-create_analysis :
      (s : Store B) (q q' : Request B) (key : String) {s' : Store B} {a : String}
      → create_analysis s q ≡ ok (s', a)
      → truthy q.run_key ≡ some key
      → truthy q'.run_key ≡ some key
      → q'.organization_id ≡ q.organization_id
      → create_analysis s' q' ≡ ok (s', a)
  unfolding create_analysis create_keyed
  create_analysis-create_analysis s q q' key {s'} {a} h keyed keyed' same =
      let run = create_run-HasRun s q key (rw keyed at h) in
      rw (keyed', create_keyed, same) (rw (run.found, create_run) (rw run.names))

  -- An analysis that is created under an id of its own can be read by its tenant, as it was
  -- stored, and by no other; every other analysis reads as before.
  pub get_analysis-create_analysis :
      (s : Store B) (q : Request B) {s' : Store B} {a : String}
      → truthy q.run_key ≡ none
      → create_analysis s q ≡ ok (s', a)
      → (a ≡ q.analysis_id)
        × ((o i : String)
            → get_analysis s' o i ≡ (
                if q.analysis_id == i
                then (if q.organization_id == o then some (stored_payload q) else none)
                else get_analysis s o i))
  unfolding create_analysis create_keyed get_analysis
  get_analysis-create_analysis s q {s'} {a} unkeyed h =
      let new = add_analysis-Added s q s.workflow_records (rw unkeyed at h) in
      (
        new.id,
        λ o i.
            ap (λ (rows : List (AnalysisRow B)). visible (Table.get analysis_key i rows) o)
              new.analyses
            ∙ ap (λ (r : Option (AnalysisRow B)). visible r o)
                (Table.get-put analysis_key i (analysis_row q) s.analyses)
            ∙ elim (Bool-cases (q.analysis_id == i)) [ inl p ↦ rw p | inr p ↦ rw p ],
      )
