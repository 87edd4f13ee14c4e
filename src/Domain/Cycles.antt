-- ===== src/Domain/Cycles.antt =====
-- `has_cycle` of apps/api/src/app/domain/readiness.py. The graph is a dictionary: of two tasks with
-- one id the later one's predecessors count.
use intelliq.Graph.Decision.{search-decides}
use intelliq.Graph.Paths.{Walk, search-cycle}
use intelliq.Graph.{Search, search, done, cycle, out_of_fuel}
use intelliq.Domain.Readiness.{Task, ids_of}
use intelliq.Domain.Status.{truthy, text_of}
use intelliq.Prelude.{
  string_eq, [], suc, String, ◌≡◌, refl, ap, inl, inr, Bool, true, false, ◌&&◌, List, ◌∷◌,
  if◌then◌else◌, Bool-cases, length, any, filter, tests_differ, ◌==◌, ==_refl, ==_ne, eq-cases,
  or_true, mem,
}

-- The keys of the graph.
unfoldable pub graph_nodes : List Task → List String
graph_nodes tasks = ids_of (λ (t : Task). t.id) tasks

abbrev pub has_id : String → Task → Bool
has_id id task = truthy task.id && (text_of task.id == id)

-- `graph.get(task_id, set())`
unfoldable pub predecessors_of : List Task → String → List String
predecessors_of [] id = []
predecessors_of (t ∷ ts) id =
    let later = predecessors_of ts id in
    if any (has_id id) ts then later else if has_id id t then t.predecessor_ids else []

-- The predecessors that are visited: those in the graph.
unfoldable pub graph_edges : List Task → String → List String
graph_edges tasks id = filter (λ p. mem p (graph_nodes tasks)) (predecessors_of tasks id)

abbrev pub is_cycle : Search → Bool
is_cycle cycle = true
is_cycle (done v) = false
is_cycle out_of_fuel = false

-- `has_cycle`
unfoldable pub has_cycle : List Task → Bool
has_cycle tasks =
    is_cycle (search (graph_edges tasks) (suc (length (graph_nodes tasks))) (graph_nodes tasks))

mem-filter :
    (p : String → Bool) (x : String) (xs : List String)
    → mem x (filter p xs) ≡ true
    → (p x ≡ true) × (mem x xs ≡ true)
unfolding mem filter
mem-filter p x [] h = absurd (tests_differ refl h)
mem-filter p x (y ∷ ys) h = elim (Bool-cases (p y)) [
  | inl kept ↦ elim (eq-cases x y) [
    | inl same ↦ (rw same kept, rw (same, ==_refl y))
    | inr other ↦
        let (a, b) = mem-filter p x ys (rw (==_ne x y other) at (rw kept at h)) in
        (a, rw (b, or_true (x == y)))
  ]
  | inr gone ↦ let (a, b) = mem-filter p x ys (rw gone at h) in (a, rw (b, or_true (x == y)))
]

has_id-node :
    (id : String) (ts : List Task) → any (has_id id) ts ≡ true → mem id (graph_nodes ts) ≡ true
unfolding any graph_nodes ids_of filter mem
has_id-node id [] h = absurd (tests_differ refl h)
has_id-node id (t ∷ ts) h = elim (Bool-cases (truthy t.id)) [
  | inl named ↦ elim (eq-cases (text_of t.id) id) [
    | inl same ↦ rw named (rw (same, ==_refl id))
    | inr other ↦ rw named (
        rw (
          has_id-node id ts (rw (==_ne (text_of t.id) id other) at (rw named at h)),
          or_true (id == text_of t.id),
        ))
  ]
  | inr unnamed ↦ rw unnamed (has_id-node id ts (rw unnamed at h))
]

predecessors-node :
    (id p : String) (ts : List Task)
    → mem p (predecessors_of ts id) ≡ true
    → any (has_id id) ts ≡ true
unfolding predecessors_of any mem
predecessors-node id p [] h = absurd (tests_differ refl h)
predecessors-node id p (t ∷ ts) h = elim (Bool-cases (any (has_id id) ts)) [
  | inl later ↦ rw (later, or_true (has_id id t))
  | inr last ↦ elim (Bool-cases (has_id id t)) [
    | inl this ↦ rw this
    | inr neither ↦ absurd (tests_differ refl (rw neither at (rw last at h)))
  ]
]

-- The test is exact: it holds if and only if some task waits, over one or more predecessors that
-- are tasks, for itself.
pub has_cycle_iff :
    (tasks : List Task)
    → ((has_cycle tasks ≡ true) → (a : String) × Walk (graph_edges tasks) a a)
      × ((a : String) → Walk (graph_edges tasks) a a → has_cycle tasks ≡ true)
unfolding has_cycle graph_edges
has_cycle_iff tasks =
    let nodes = graph_nodes tasks in
    let edges = graph_edges tasks in
    let decided =
      search-decides edges nodes
        (λ a b m. (mem-filter (λ p. mem p nodes) b (predecessors_of tasks a) m).0)
        (λ a b m. has_id-node a tasks (
          predecessors-node a b tasks
            (mem-filter (λ p. mem p nodes) b (predecessors_of tasks a) m).1)) in
    elim decided [
      | inl e ↦ (λ h. search-cycle edges (suc (length nodes)) nodes e, λ a w. ap is_cycle e)
      | inr (v, e, none_left) ↦
          (λ h. absurd (tests_differ (ap is_cycle e) h), λ a w. absurd (none_left a w))
    ]
