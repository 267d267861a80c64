-- ===== src/Exec/Parallel/Closing/Joined.antt =====
-- Dropping a pool returns under every fair schedule, and no task that is in the pool is lost.
use mathlib.Core.List.{Memᴰ}
use mathlib.Core.List.Memᴰ
use rust_dag_executor.Prelude.{
  ℕ, suc, ◌+◌, ◌-◌, ◌<◌, ◌≤◌, ◌≡◌, refl, sym, ap, ◌∙◌, subst, ◌⊎◌, inl, inr, List, [], ◌∷◌, ◌++◌,
  none, some, true, false, arith, length, get_elem?, get_elem?-exists, get_elem?-eq-some,
  get_elem?-set_cases, set, ℕ_discrete, flatten, ◌==◌, Option-cases, Bool-cases, List-cases, dec_lt,
}
use rust_dag_executor.Prelude.Outcome.{done}
use rust_dag_executor.Prelude.Each.{Each, nil, cons}
use rust_dag_executor.Graph.{NodeId, ExecutorConfig}
use rust_dag_executor.Exec.Pool.{Worker, WorkerPool, advance, work}
use rust_dag_executor.Exec.Pool.Load.{
  worker_load, workers, results, load, load-advance, advance-size, tasks, in_hand,
}
use rust_dag_executor.Exec.Pool.Effort.{effort, effort-advance}
use rust_dag_executor.Exec.Parallel.{Actor, scheduler, worker}
use rust_dag_executor.Exec.Parallel.Fair.{IsFair}
use rust_dag_executor.Exec.Parallel.Closing.{
  Closing, has_ended, join_next, close_act, close_all, drop_pool,
}

module _ {O E : Type 0} where
  abbrev held : Worker O E → ℕ
  held w = worker_load (λ _. 1) w

  -- A worker that holds no task has ended, and the other way round.
  held-has_ended : (w : Worker O E) → held w ≡ 0 → has_ended w ≡ true
  held-has_ended w e = elim (List-cases w.queue) [
    | inl q ↦ elim (Option-cases w.running) [
      | inl r ↦ rw (q, r) refl
      | inr (t, r) ↦ absurd (omega (arith, e, ap (in_hand (λ _. 1)) r))
    ]
    | inr (t, ts, q) ↦ absurd (omega (arith, e, ap (tasks (λ _. 1)) q))
  ]

  abbrev n_workers : Closing O E → ℕ
  n_workers s = length s.pool.workers

  -- The workers that are joined have ended.
  record IsClosing (s : Closing O E) : Type 0 where
    bounded : s.joined ≤ n_workers s
    ended :
        (i : ℕ) (w : Worker O E)
        → i < s.joined
        → get_elem? s.pool.workers i ≡ some w
        → has_ended w ≡ true

  has_ended-parts : (w : Worker O E) → has_ended w ≡ true → (w.queue ≡ []) × (w.running ≡ none)
  has_ended-parts w e = elim (List-cases w.queue) [
    | inl q ↦ elim (Option-cases w.running) [
      | inl r ↦ (q, r)
      | inr (t, r) ↦ absurd (ground (arith, e, q, r))
    ]
    | inr (t, ts, q) ↦ absurd (ground (arith, e, q))
  ]

  work-has_ended : (w : Worker O E) → has_ended w ≡ true → has_ended (work w).0 ≡ true
  unfolding work
  work-has_ended w e = let (q, r) = has_ended-parts w e in rw (r, q, work) e

  advance-has_ended :
      (pool : WorkerPool O E) (v i : ℕ)
      → ((w : Worker O E) → get_elem? pool.workers i ≡ some w → has_ended w ≡ true)
      → (w : Worker O E) → get_elem? (advance pool v).workers i ≡ some w
      → has_ended w ≡ true
  unfolding advance
  advance-has_ended pool v i ended w at = elim (Option-cases (get_elem? pool.workers v)) [
    | inl e ↦ ended w (rw (e, advance) at at)
    | inr (old, e) ↦
        let at' : get_elem? (set pool.workers v (work old).0) i ≡ some w = rw (e, advance) at at in
        elim (get_elem?-set_cases pool.workers v (work old).0 i at') [
          | inl (here, same) ↦
              subst (λ w. has_ended w ≡ true) (sym same)
                (work-has_ended old (ended old (ap (get_elem? pool.workers) here ∙ e)))
          | inr before ↦ ended w before
        ]
  ]

  close_act-IsClosing :
      (s : Closing O E) (actor : Actor) → IsClosing s → IsClosing (close_act s actor)
  unfolding join_next
  close_act-IsClosing s (worker v) h = record {
    bounded = omega (arith, h.bounded, (advance-size s.pool v).1);
    ended = λ i w lt at. advance-has_ended s.pool v i (λ w at. h.ended i w lt at) w at;
  }
  close_act-IsClosing s scheduler h = elim (Option-cases (get_elem? s.pool.workers s.joined)) [
    | inl e ↦ rw (e, join_next) h
    | inr (w, e) ↦ elim (Bool-cases (has_ended w)) [
      | inr not_yet ↦ rw (e, join_next, not_yet) h
      | inl over ↦
          rw (e, join_next, over)
            (record {
              bounded = get_elem?-eq-some s.pool.workers s.joined e;
              ended = λ i v lt at. elim (ℕ_discrete i s.joined) [
                | yes here ↦ let same : v ≡ w = cc in ap has_ended same ∙ over
                | no other ↦ h.ended i v (omega (arith, lt, other)) at
              ];
            })
    ]
  ]

  abbrev measure : Closing O E → ℕ
  measure s = effort s.pool + (n_workers s - s.joined)

  abbrev IsIdle : Closing O E → Actor → Type 0
  IsIdle s scheduler =
      (w : Worker O E) → get_elem? s.pool.workers s.joined ≡ some w → has_ended w ≡ false
  IsIdle s (worker v) = (w : Worker O E) → get_elem? s.pool.workers v ≡ some w → held w ≡ 0

  close_act_lem :
      (s : Closing O E) (actor : Actor)
      → (measure (close_act s actor) < measure s) ⊎ ((close_act s actor ≡ s) × IsIdle s actor)
  unfolding join_next
  close_act_lem s (worker v) = elim (effort-advance s.pool v) [
    | inl less ↦ inl (omega (arith, less, (advance-size s.pool v).1))
    | inr (same, idle) ↦ inr (ap (λ pool. record s { pool = pool }) same, idle)
  ]
  close_act_lem s scheduler = elim (Option-cases (get_elem? s.pool.workers s.joined)) [
    | inl e ↦ inr (rw (e, join_next) refl, λ w at. cc)
    | inr (w, e) ↦ elim (Bool-cases (has_ended w)) [
      | inr not_yet ↦ inr (
        rw (e, join_next, not_yet) refl,
        λ v at. let same : v ≡ w = cc in ap has_ended same ∙ not_yet,
      )
      | inl over ↦
          let room = get_elem?-eq-some s.pool.workers s.joined e in
          inl (rw (e, join_next, over) (omega (arith, room)))
    ]
  ]

  -- After a part of a schedule: the measure fell, or all who acted were idle.
  After : List Actor → Closing O E → Type 0
  After schedule s =
      (measure (close_all schedule s) < measure s)
      ⊎ ((close_all schedule s ≡ s) × ((actor : Actor) → Memᴰ actor schedule → IsIdle s actor))

  After-close_all : (schedule : List Actor) (s : Closing O E) → After schedule s
  unfolding After
  After-close_all [] s = inr (refl, λ actor m. absurd (Memᴰ.not-nil m))
  After-close_all (actor ∷ schedule) s =
      let rest = After-close_all schedule (close_act s actor) in
      elim (close_act_lem s actor) [
        | inl less ↦ elim rest [
          | inl lower ↦ inl (omega (arith, less, lower))
          | inr (same, _) ↦ inl (omega (arith, less, ap measure same))
        ]
        | inr (same, idle) ↦ elim rest [
          | inl lower ↦ inl (omega (arith, lower, ap measure same))
          | inr (same', all) ↦ inr (
            same' ∙ same,
            λ other m. elim (Memᴰ.cases_cons m) [
              | inl here ↦ subst (IsIdle s) (sym here) idle
              | inr below ↦ subst (λ s. IsIdle s other) same (all other below)
            ],
          )
        ]
      ]

  close_all-IsClosing :
      (schedule : List Actor) (s : Closing O E) → IsClosing s → IsClosing (close_all schedule s)
  close_all-IsClosing [] s h = h
  close_all-IsClosing (actor ∷ schedule) s h =
      close_all-IsClosing schedule (close_act s actor) (close_act-IsClosing s actor h)

  -- The pool keeps its size, its tasks and the workers that are joined.
  abbrev Keeps : Closing O E → Closing O E → Type 0
  Keeps s t =
      (n_workers t ≡ n_workers s)
      × (s.joined ≤ t.joined)
      × ((weigh : NodeId → ℕ) → load weigh t.pool ≡ load weigh s.pool)

  close_act-Keeps : (s : Closing O E) (actor : Actor) → Keeps s (close_act s actor)
  unfolding join_next
  close_act-Keeps s (worker v) =
      ((advance-size s.pool v).1, omega arith, λ weigh. load-advance weigh s.pool v)
  close_act-Keeps s scheduler = elim (Option-cases (get_elem? s.pool.workers s.joined)) [
    | inl e ↦ rw (e, join_next) (refl, omega arith, λ weigh. refl)
    | inr (w, e) ↦ elim (Bool-cases (has_ended w)) [
      | inr not_yet ↦ rw (e, join_next, not_yet) (refl, omega arith, λ weigh. refl)
      | inl over ↦ rw (e, join_next, over) (refl, omega arith, λ weigh. refl)
    ]
  ]

  close_all-Keeps : (schedule : List Actor) (s : Closing O E) → Keeps s (close_all schedule s)
  close_all-Keeps [] s = (refl, omega arith, λ weigh. refl)
  close_all-Keeps (actor ∷ schedule) s =
      let (size, on, same) = close_act-Keeps s actor in
      let (size', on', same') = close_all-Keeps schedule (close_act s actor) in
      (size' ∙ size, omega (arith, on, on'), λ weigh. same' weigh ∙ same weigh)

  close_all-append :
      (xs ys : List Actor) (s : Closing O E)
      → close_all (xs ++ ys) s ≡ close_all ys (close_all xs s)
  close_all-append [] ys s = refl
  close_all-append (actor ∷ xs) ys s = close_all-append xs ys (close_act s actor)

  module _ (cfg : ExecutorConfig) where
    -- A fair round lowers the measure while a worker is not joined.
    close_round :
        (round : List Actor) (s : Closing O E)
        → IsFair cfg round
        → n_workers s ≡ cfg.max_workers
        → s.joined < n_workers s
        → measure (close_all round s) < measure s
    unfolding After
    close_round round s fair size open_worker = elim (After-close_all round s) [
      | inl less ↦ less
      | inr (_, idle) ↦
          let (w, at) = get_elem?-exists s.pool.workers s.joined open_worker in
          let over = held-has_ended w (
            idle (worker s.joined) (fair (worker s.joined) (omega (arith, size, open_worker))) w
              at) in
          let waits = idle scheduler (fair scheduler tt) w at in
          absurd (ground (arith, over, waits))
    ]

    close_rounds :
        (rounds : List (List Actor)) (s : Closing O E)
        → Each (IsFair cfg) rounds
        → n_workers s ≡ cfg.max_workers
        → IsClosing s
        → measure s ≤ length rounds
        → (close_all (flatten rounds) s).joined ≡ n_workers s
    unfolding flatten
    close_rounds [] s nil size h enough = omega (arith, h.bounded, enough)
    close_rounds (round ∷ rounds) s (cons fair fairs) size h enough =
        let t = close_all round s in
        let (size', on, _) = close_all-Keeps round s in
        let further = close_all-append round (flatten rounds) s in
        let end = close_all-IsClosing round s h in
        ap (λ s. s.joined) further ∙ elim (dec_lt s.joined (n_workers s)) [
          | yes open_worker ↦
              close_rounds rounds t fairs (size' ∙ size) end
                (omega (arith, enough, close_round round s fair size open_worker))
              ∙ size'
          | no over ↦
              let (size'', on', _) = close_all-Keeps (flatten rounds) t in
              let last = close_all-IsClosing (flatten rounds) t end in
              omega (arith, size', size'', on, on', over, last.bounded)
        ]

  all_ended :
      (weigh : NodeId → ℕ) (ws : List (Worker O E))
      → ((i : ℕ) (w : Worker O E) → get_elem? ws i ≡ some w → has_ended w ≡ true)
      → workers weigh ws ≡ 0
  all_ended weigh [] ended = refl
  all_ended weigh (w ∷ ws) ended =
      let (q, r) = has_ended-parts w (ended 0 w refl) in
      omega (
        arith,
        ap (tasks weigh) q,
        ap (in_hand weigh) r,
        all_ended weigh ws (λ i v at. ended (suc i) v at),
      )

  -- The actions of a pool that is dropped: those of its workers, and a join of each.
  unfoldable pub closing_rounds : WorkerPool O E → ℕ
  closing_rounds pool = effort pool + length pool.workers

  -- Under every schedule of enough rounds in each of which the scheduler and every worker has a turn,
  -- dropping a pool returns, with every worker at its end, and every task that the pool held has become
  -- one result: for every weight of nodes, the results weigh what the whole pool did.
  pub drop_pool_returns :
      (cfg : ExecutorConfig) (pool : WorkerPool O E)
      → length pool.workers ≡ cfg.max_workers
      → (rounds : List (List Actor)) → Each (IsFair cfg) rounds
      → closing_rounds pool ≤ length rounds
      → (pool' : WorkerPool O E) × (drop_pool (flatten rounds) pool ≡ done pool')
        × ((i : ℕ) (w : Worker O E) → get_elem? pool'.workers i ≡ some w → has_ended w ≡ true)
        × ((weigh : NodeId → ℕ) → results weigh pool'.results ≡ load weigh pool)
  unfolding drop_pool closing_rounds
  drop_pool_returns cfg pool size rounds fair enough =
      let s : Closing O E = record { pool = pool; joined = 0 } in
      let start : IsClosing s = record {
        bounded = omega arith;
        ended = λ i w lt at. absurd (omega (arith, lt));
      } in
      let t = close_all (flatten rounds) s in
      let all = close_rounds cfg rounds s fair size start (omega (arith, enough)) in
      let over = close_all-IsClosing (flatten rounds) s start in
      let (kept, _, same) = close_all-Keeps (flatten rounds) s in
      let ended : (i : ℕ) (w : Worker O E)
          → get_elem? t.pool.workers i ≡ some w
          → has_ended w ≡ true =
        λ i w at.
          over.ended i w (omega (arith, all, kept, get_elem?-eq-some t.pool.workers i at)) at in
      let joined : (t.joined == length pool.workers) ≡ true = ground (arith, all) in
      (
        t.pool,
        rw joined refl,
        ended,
        λ weigh. omega (arith, same weigh, all_ended weigh t.pool.workers ended),
      )
