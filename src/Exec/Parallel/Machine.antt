-- ===== src/Exec/Parallel/Machine.antt =====
-- The invariant of the parallel scheduler, between any two actions: every needed node is at one
-- place, where a node in a worker's hands or on its way there is busy, and `in_flight` counts the
-- tasks of the pool.
use rust_dag_executor.Prelude.{
  total, true, ℕ, ◌+◌, ◌<◌, ◌≤◌, ◌≡◌, refl, sym, [], Option, none, some, arith, bit, ◌==◌, length,
  length-replicate, get_or-replicate, replicate,
}
use rust_dag_executor.Graph.{NodeId, ExecutorConfig, source, task, Node, Dag}
use rust_dag_executor.Graph.Semantics.{NodeAt, Dep, EvalAll}
use rust_dag_executor.Exec.Common.{NodeValues, NeededMask}
use rust_dag_executor.Exec.Common.Needed.{marked}
use rust_dag_executor.Exec.Scheduling.{Frontier}
use rust_dag_executor.Exec.Scheduling.Waiting.{IsFrontier}
use rust_dag_executor.Exec.Scheduling.Moving.{finished, finished-replicate, HoldsValues}
use rust_dag_executor.Exec.Pool.{Task, WorkerPool, spawn}
use rust_dag_executor.Exec.Pool.Load.{load, in_hand, load-spawn}
use rust_dag_executor.Exec.Pool.Jobs.{IsPool, spawn-IsPool}
use rust_dag_executor.Exec.Parallel.{
  Phase, outer, inner, sending, checking, receiving, Scheduler, effective_cap, initial,
}

module _ {K O E : Type 0} (dag : Dag K O E) (needed : NeededMask) {R : Type 0} where
  -- The same hands, named otherwise.
  pub regrip :
      {vals : NodeValues O} {a b : NodeId → ℕ} {f : Frontier R}
      → ((i : NodeId) → a i ≡ b i)
      → IsFrontier dag needed vals a [] f
      → IsFrontier dag needed vals b [] f
  regrip same h = record {
    counters = h.counters;
    waits = h.waits;
    places = λ i. omega (arith, h.places i, same i);
  }

-- The weights of the pool's tasks that count those of node `i`, and all of them.
abbrev pub is : NodeId → NodeId → ℕ
is i j = bit (j == i)

abbrev pub each_one : NodeId → ℕ
each_one j = 1

-- A configuration that passes the tests of `run_with_observer`.
pub record IsConfig (cfg : ExecutorConfig) : Type 0 where
  pub max_workers : 0 < cfg.max_workers
  pub max_in_flight : 0 < cfg.max_in_flight
  pub worker_queue_cap : 0 < cfg.worker_queue_cap

module _ {K O E : Type 0} (dag : Dag K O E) where
  -- A task as it is dispatched: the function of its node, and the values of the dependencies.
  pub record IsJob (t : Task O E) : Type 0 where
    pub node : Node K O E
    pub at : NodeAt dag t.id node
    pub is_task : node.kind ≡ task t.func
    pub args : EvalAll dag node.deps t.args

module _ {O E : Type 0} where
  abbrev pub sent_away : NodeId → Phase O E → ℕ
  sent_away i outer = 0
  sent_away i inner = 0
  sent_away i (sending rounds t) = is i t.id
  sent_away i checking = 0
  sent_away i receiving = 0

  -- How often a node is in the scheduler's or the pool's hands.
  abbrev pub busy : Phase O E → Option (Task O E) → WorkerPool O E → NodeId → ℕ
  busy phase pending pool i = sent_away i phase + in_hand (is i) pending + load (is i) pool

module _ {K O E : Type 0} (dag : Dag K O E) (needed : NeededMask) where
  -- Every needed source is a dependency of a needed node.
  abbrev pub SourcesFeed : Type 0
  SourcesFeed =
      (i : NodeId) (node : Node K O E) (v : O)
      → NodeAt dag i node
      → node.kind ≡ source v
      → marked needed i ≡ true
      → (j : NodeId) × (marked needed j ≡ true) × Dep dag i j

  -- Some needed node has no value yet, if the last of them cannot be a source.
  abbrev pub IsUnfinished : NodeValues O → Type 0
  IsUnfinished vals =
      SourcesFeed
      → finished (length dag.nodes) vals < total (length dag.nodes) (λ i. bit (marked needed i))

module _ {K O E : Type 0} (dag : Dag K O E) (cfg : ExecutorConfig) where
  -- The pool and what the scheduler keeps about it.
  pub record IsPooled (pool : WorkerPool O E) (in_flight : ℕ) (pending : Option (Task O E))
      : Type 0 where
    pub jobs : IsPool (IsJob dag) pool
    pub queue_cap : pool.per_worker_cap ≡ cfg.worker_queue_cap
    pub n_workers : length pool.workers ≡ cfg.max_workers
    pub counted : in_flight ≡ load each_one pool
    pub within : in_flight ≤ effective_cap cfg
    pub waiting : (t : Task O E) → pending ≡ some t → IsJob dag t

module _ {K O E : Type 0} (dag : Dag K O E) (cfg : ExecutorConfig) (needed : NeededMask)
    {R : Type 0} where
  -- What is known where the scheduler is.
  abbrev pub AtPhase : Scheduler O E R → Phase O E → Type 0
  AtPhase s outer = Unit
  AtPhase s inner = IsUnfinished dag needed s.vals
  AtPhase s (sending rounds t) =
      IsJob dag t
      × (s.in_flight < effective_cap cfg)
      × (s.pending ≡ none)
      × (s.in_flight ≡ 0 → 0 < rounds)
      × IsUnfinished dag needed s.vals
  AtPhase s checking =
      (s.in_flight ≡ 0 → (s.pending ≡ none) × (s.ready ≡ [])) × IsUnfinished dag needed s.vals
  AtPhase s receiving = 0 < s.in_flight

  pub record IsMachine (s : Scheduler O E R) : Type 0 where
    pub frontier : IsFrontier dag needed s.vals (busy s.phase s.pending s.pool) [] s.frontier
    pub values : HoldsValues dag s.vals
    pub processed : s.processed ≡ finished (length dag.nodes) s.vals
    pub pooled : IsPooled dag cfg s.pool s.in_flight s.pending
    pub at_phase : AtPhase s s.phase

  pub initial-IsMachine :
      (f : Frontier R)
      → IsFrontier dag needed (replicate (length dag.nodes) none) (λ _. 0) [] f
      → IsMachine (initial dag cfg f)
  unfolding spawn
  initial-IsMachine f h = record {
    frontier = record {
      counters = h.counters;
      waits = h.waits;
      places = λ i.
          omega (arith, h.places i, load-spawn O E (is i) cfg.max_workers cfg.worker_queue_cap);
    };
    values = record {
      size = length-replicate _ _;
      sound = λ i v e. cc (get_or-replicate {A = Option O} (length dag.nodes) none i);
    };
    processed = sym (finished-replicate O (length dag.nodes));
    pooled = record {
      jobs = spawn-IsPool (IsJob dag) cfg.max_workers cfg.worker_queue_cap;
      queue_cap = refl;
      n_workers = length-replicate _ _;
      counted = sym (load-spawn O E each_one cfg.max_workers cfg.worker_queue_cap);
      within = omega arith;
      waiting = λ t e. cc;
    };
    at_phase = tt;
  }
