-- ===== src/Simulation/Validation.antt =====
-- `_validate_task_graph` of apps/api/src/app/simulation/engine.py. The tasks have different ids, as
-- the parser has checked before.
use intelliq.Graph.Decision.{search-decides}
use intelliq.Graph.Paths.{Walk, search-cycle}
use intelliq.Graph.{done, Search, search, cycle, out_of_fuel}
use intelliq.Simulation.Sample.Rosters.{mem-sorted}
use intelliq.Simulation.Sample.{sorted}
use intelliq.Simulation.Readiness.{task_by_id}
use intelliq.Simulation.Input.{Task}
use intelliq.Prelude.{
  some-injective, string_eq, [], suc, String, ◌≡◌, refl, ap, ◌∙◌, subst, ◌⊎◌, inl, inr, Bool, true,
  not, Option, none, some, List, ◌∷◌, map, if◌then◌else◌, Bool-cases, is_some, length, find?, All,
  All-map, tests_differ, ◌==◌, ==_refl, ==_ne, eq-cases, or_true, mem, mem-All, Result, ◌>>=◌,
  >>=-eq-ok, Result-cases, ok, err,
}

pub data GraphError : Type 0 where
  unknown_predecessor self_loop : (task_id predecessor_id : String) → GraphError
  predecessor_cycle unfinished_search : GraphError

abbrev pub verdict : Search → Result GraphError Unit
verdict (done v) = ok tt
verdict cycle = err predecessor_cycle
verdict out_of_fuel = err unfinished_search

module _ {N : Type 0} where
  abbrev pub predecessors_of_task : Option (Task N) → List String
  predecessors_of_task none = []
  predecessors_of_task (some task) = task.predecessor_ids

  -- `task_by_id[task_id].predecessor_ids`
  unfoldable pub edges_of : List (Task N) → String → List String
  edges_of tasks id = predecessors_of_task (task_by_id tasks id)

  -- The first loop, for one task.
  unfoldable pub check_predecessors : List (Task N) → String → List String → Result GraphError Unit
  check_predecessors tasks id [] = ok tt
  check_predecessors tasks id (p ∷ ps) =
      let rest = check_predecessors tasks id ps in
      if not (is_some (task_by_id tasks p))
      then err (unknown_predecessor id p)
      else if p == id
      then err (self_loop id p)
      else rest

  unfoldable pub check_tasks : List (Task N) → List (Task N) → Result GraphError Unit
  unfolding check_predecessors
  check_tasks tasks [] = ok tt
  check_tasks tasks (t ∷ ts) =
      check_predecessors tasks t.id t.predecessor_ids >>= λ passed. check_tasks tasks ts

  -- The ids in the order of the second loop.
  abbrev pub visit_order : (String → String → Bool) → List (Task N) → List String
  visit_order id_lt tasks = map (λ t. t.id) (sorted (λ t u. id_lt t.id u.id) tasks)

  unfoldable pub validate_task_graph :
      (String → String → Bool) → List (Task N) → Result GraphError Unit
  unfolding check_tasks
  validate_task_graph id_lt tasks = check_tasks tasks tasks >>= λ passed.
      verdict
        (search (edges_of tasks) (suc (length (visit_order id_lt tasks))) (visit_order id_lt tasks))

  known_predecessor :
      (tasks : List (Task N)) (id : String) (ps : List String) {u : Unit} (p : String)
      → check_predecessors tasks id ps ≡ ok u
      → mem p ps ≡ true
      → is_some (task_by_id tasks p) ≡ true
  unfolding check_predecessors mem
  known_predecessor tasks id [] p h m = absurd (tests_differ refl m)
  known_predecessor tasks id (q ∷ qs) {u} p h m = elim (Bool-cases (is_some (task_by_id tasks q))) [
    | inr unknown ↦ absurd (refused (rw unknown at h))
    | inl known ↦ elim (Bool-cases (q == id)) [
      | inl loop ↦ absurd (refused (rw loop at (rw known at h)))
      | inr other ↦ elim (eq-cases p q) [
        | inl same ↦ rw same known
        | inr differs ↦
            known_predecessor tasks id qs p (rw other at (rw known at h))
              (rw (==_ne p q differs) at m)
      ]
    ]
  ]
    where
      refused : {e : GraphError} → ◌≡◌ {A = Result GraphError Unit} (err e) (ok u) → ⊥
      refused q = cc

  known_tasks :
      (tasks ts : List (Task N)) {u : Unit}
      → check_tasks tasks ts ≡ ok u
      → All
          (λ t. (p : String) → mem p t.predecessor_ids ≡ true → is_some (task_by_id tasks p) ≡ true)
          ts
  unfolding check_tasks
  known_tasks tasks [] h = tt
  known_tasks tasks (t ∷ ts) h =
      let (_, first, rest) = >>=-eq-ok (check_predecessors tasks t.id t.predecessor_ids) _ h in
      (λ p m. known_predecessor tasks t.id t.predecessor_ids p first m, known_tasks tasks ts rest)

  found-mem :
      (tasks : List (Task N)) (id : String)
      → is_some (task_by_id tasks id) ≡ true
      → mem id (map (λ t. t.id) tasks) ≡ true
  unfolding task_by_id find? mem
  found-mem [] id h = h
  found-mem (t ∷ ts) id h = elim (eq-cases t.id id) [
    | inl same ↦ rw (same, ==_refl id)
    | inr other ↦ rw (found-mem ts id (rw (==_ne t.id id other) at h), or_true (id == t.id))
  ]

  found-holds :
      (P : Task N → Type 0) (tasks : List (Task N)) (id : String) {t : Task N}
      → All P tasks
      → task_by_id tasks id ≡ some t
      → P t
  unfolding task_by_id find?
  found-holds P [] id a h = cc
  found-holds P (u ∷ us) id {t} a h = elim (Bool-cases (u.id == id)) [
    | inl hit ↦ subst P (some-injective (rw hit at h)) a.0
    | inr miss ↦ found-holds P us id a.1 (rw miss at h)
  ]

  -- Tasks that pass the validation have only predecessors that are tasks, and no task waits for
  -- itself over any chain of predecessors; tasks that are refused for a cycle have one; and the
  -- search always ends.
  pub validate_task_graph-Walk :
      (id_lt : String → String → Bool) (tasks : List (Task N))
      → ((validate_task_graph id_lt tasks ≡ ok tt)
          × All (λ t. All (λ p. is_some (task_by_id tasks p) ≡ true) t.predecessor_ids) tasks
          × ((a : String) → Walk (edges_of tasks) a a → ⊥))
        ⊎ ((validate_task_graph id_lt tasks ≡ err predecessor_cycle)
            × (a : String) × Walk (edges_of tasks) a a)
        ⊎ ((e : GraphError) × (check_tasks tasks tasks ≡ err e)
            × (validate_task_graph id_lt tasks ≡ err e))
  unfolding validate_task_graph edges_of mem
  validate_task_graph-Walk id_lt tasks = elim (Result-cases (check_tasks tasks tasks)) [
    | inr (e, refused) ↦ inr (inr (e, refused, rw refused))
    | inl (u, passed) ↦
        let nodes = visit_order id_lt tasks in
        let known = known_tasks tasks tasks passed in
        let in_order : (x : String) → is_some (task_by_id tasks x) ≡ true → mem x nodes ≡ true =
          λ x h. mem-sorted (λ (t : Task N). t.id) _ x tasks ∙ found-mem tasks x h in
        let decided =
          search-decides (edges_of tasks) nodes
            (λ a b m. in_order b (edge_known tasks known a b (task_by_id tasks a) refl m))
            (λ a b m. in_order a (edge_from a b (task_by_id tasks a) m)) in
        elim decided [
          | inl e ↦
              let (a, walk) = search-cycle (edges_of tasks) (suc (length nodes)) nodes e in
              inr (inl (rw passed (ap verdict e), a, walk))
          | inr (v, e, none_left) ↦ inl (
            rw passed (ap verdict e),
            All-map (λ t known_t. mem-All t.predecessor_ids known_t) tasks known,
            none_left,
          )
        ]
  ]
    where
      edge_from :
          (a b : String) (o : Option (Task N))
          → mem b (predecessors_of_task o) ≡ true
          → is_some o ≡ true
      edge_from a b none m = m
      edge_from a b (some t) m = refl

      nothing : (b : String) → mem b [] ≡ true → ⊥
      nothing b m = cc

      edge_known :
          (tasks' : List (Task N))
          → All
              (λ t.
                (p : String)
                → mem p t.predecessor_ids ≡ true
                → is_some (task_by_id tasks' p) ≡ true)
              tasks'
          → (a b : String) (o : Option (Task N)) → task_by_id tasks' a ≡ o
          → mem b (predecessors_of_task o) ≡ true
          → is_some (task_by_id tasks' b) ≡ true
      edge_known tasks' known a b none e m = absurd (nothing b m)
      edge_known tasks' known a b (some t) e m =
          found-holds
            (λ t.
              (p : String) → mem p t.predecessor_ids ≡ true → is_some (task_by_id tasks' p) ≡ true)
            tasks' a known e b m
