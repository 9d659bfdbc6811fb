-- ===== src/Schematic/Rcg/Budget.antt =====
-- The edges that the loops of `createReachableCheckpointGraph` make, and what `solve` chooses.
use mathlib.Core.Path.{subst}
use mathlib.Core.List.Memᴰ
use bao.Prelude.{
  ℕ, zero, suc, ◌+◌, ◌-◌, ◌*◌, ◌≤◌, ◌<◌, ◌≡◌, refl, sym, ◌∙◌, ap, inl, inr, Bool, true, false, none,
  some, List, [], ◌∷◌, ◌++◌, Memᴰ, length-append, All, ◌==◌, Bool-cases, if◌then◌else◌, leb, length,
  arith,
}
use bao.Schematic.Types.{RegionAllocation, RcgEdge, RcgResult}
use bao.Schematic.Rcg.Shortest.{IsLeast, get_shortest_path-IsLeast}
use bao.Schematic.Rcg.{
  Trace, SolverState, EdgeRule, indices, candidates, get_checkpoints_from_trace,
  get_interval_blocks, start_alloc, end_alloc, compute_interval_cost, energy_left, energy_to_leave,
  try_edge, between, from_start, to_end, whole, edges_from, edges_between, edges_to, backward,
  first_state, create_reachable_checkpoint_graph, solve,
}

module _ {Tracker : Type 0} (t : Trace Tracker) where
  abbrev pub end_index : ℕ
  end_index = length (get_checkpoints_from_trace t) - 1

  -- What is there to spend from a node on, and what has to be left at a node.
  abbrev pub budget_at : ℕ → ℕ
  budget_at i = if i == 0 then energy_left t else t.params.capacity

  abbrev pub due_at : ℕ → ℕ
  due_at i = if i == end_index then energy_to_leave t else 0

  -- The checkpoints at the ends of an interval, but at the ends of the trace: a restore before it,
  -- and a save after it.
  abbrev pub boundary_energy : ℕ → ℕ → ℕ
  boundary_energy i j =
      (if i == 0 then 0 else t.params.e_pro + t.params.n_reg * t.params.reg_restore_energy)
      + (if j == end_index then 0 else t.params.e_epi + t.params.n_reg * t.params.reg_store_energy)

  -- The energy and the placement of the blocks of an interval, from some state of the tracker, under
  -- the placements that the ends of the trace have.
  abbrev pub IsPriced : RcgEdge → Type 0
  IsPriced e =
      (tracker after : Tracker) × (alloc : RegionAllocation) × (energy : ℕ) × (compute_interval_cost
          t tracker e.blocks (if e.source == 0 then start_alloc t else none)
          (if e.target == end_index then end_alloc t else none)
        ≡ (after, alloc, energy))
      × (e.weight ≡ energy + boundary_energy e.source e.target)
      × (e.allocation ≡ record alloc { interval_energy = e.weight })

  -- The edge is an interval of the trace that its budget pays.
  pub record IsPaid (e : RcgEdge) : Type 0 where
    pub forward : e.source < e.target
    pub in_graph : e.target ≤ end_index
    pub covers : e.blocks ≡ get_interval_blocks t e.source e.target
    pub priced : IsPriced e
    pub fits : e.weight + due_at e.target < budget_at e.source

  abbrev pub AllPaid : List RcgEdge → Type 0
  AllPaid adj = (e : RcgEdge) → Memᴰ e adj → IsPaid e

  AllPaid-snoc :
      (accepted : Bool) (adj : List RcgEdge) (e : RcgEdge)
      → AllPaid adj
      → (accepted ≡ true → IsPaid e)
      → AllPaid (if accepted then adj ++ e ∷ [] else adj)
  AllPaid-snoc true adj e h paid x m = elim (Memᴰ.append_cases adj m) [
    | inl old ↦ h x old
    | inr new ↦ subst IsPaid (sym (Memᴰ.eq_of_singleton new)) (paid refl)
  ]
  AllPaid-snoc false adj e h paid x m = h x m

  -- When a rule is safe between two nodes.
  record IsRule (rule : EdgeRule t) (from to : ℕ) : Type 0 where
    forward : from < to
    in_graph : to ≤ end_index
    budget : rule.budget ≤ budget_at from
    margin : due_at to ≤ rule.margin
    overhead : rule.overhead ≡ boundary_energy from to
    starts : rule.sa ≡ (if from == 0 then start_alloc t else none)
    ends : rule.ea ≡ (if to == end_index then end_alloc t else none)

  try_edge-AllPaid :
      (rule : EdgeRule t) (from to : ℕ) (s : SolverState Tracker)
      → IsRule rule from to
      → AllPaid s.adj
      → AllPaid (try_edge t rule from to s).0.adj
  unfolding try_edge
  try_edge-AllPaid rule from to s r h =
      let (_, _, base) =
        compute_interval_cost t s.tracker (get_interval_blocks t from to) rule.sa rule.ea in
      AllPaid-snoc _ s.adj _ h (λ fits. record {
        forward = r.forward;
        in_graph = r.in_graph;
        covers = refl;
        priced = (
          s.tracker,
          _,
          _,
          _,
          ap
                (λ a.
                  compute_interval_cost t s.tracker (get_interval_blocks t from to) a
                    (if to == end_index then end_alloc t else none))
                (sym r.starts)
              ∙ ap (compute_interval_cost t s.tracker (get_interval_blocks t from to) rule.sa)
                  (sym r.ends),
          ap (λ o. base + o) r.overhead,
          refl,
        );
        fits = ground (arith, r.budget, r.margin);
      })

  edges_from-AllPaid :
      (rule : EdgeRule t) (i j count prev : ℕ) (s : SolverState Tracker)
      → ((to : ℕ) → j ≤ to → to < j + count → IsRule rule i to)
      → AllPaid s.adj
      → AllPaid (edges_from t rule i (indices j count) prev s).adj
  unfolding edges_from
  edges_from-AllPaid rule i j zero prev s r h = h
  edges_from-AllPaid rule i j (suc count) prev s r h = elim (Bool-cases (leb rule.budget prev)) [
    | inl stop ↦ rw (stop, edges_from) h
    | inr go ↦
        rw (go, edges_from)
          (edges_from-AllPaid rule i (suc j) count _ _
            (λ to le lt. r to (omega arith) (omega arith))
            (try_edge-AllPaid rule i j s (r j (omega arith) (omega arith)) h))
  ]

  between-IsRule : (i j : ℕ) → 1 ≤ i → i < j → j < end_index → IsRule (between t) i j
  between-IsRule i j le lt in_graph = record {
    forward = lt;
    in_graph = omega arith;
    budget = ground arith;
    margin = ground arith;
    overhead = ground arith;
    starts = ground arith;
    ends = ground arith;
  }

  from_start-IsRule : (j : ℕ) → 1 ≤ j → j < end_index → IsRule (from_start t) 0 j
  from_start-IsRule j lt in_graph = record {
    forward = omega arith;
    in_graph = omega arith;
    budget = ground arith;
    margin = ground arith;
    overhead = ground arith;
    starts = ground arith;
    ends = ground arith;
  }

  to_end-IsRule : (i : ℕ) → 1 ≤ i → i < end_index → IsRule (to_end t) i end_index
  to_end-IsRule i le lt = record {
    forward = lt;
    in_graph = omega arith;
    budget = ground arith;
    margin = ground arith;
    overhead = ground arith;
    starts = ground arith;
    ends = ground arith;
  }

  whole-IsRule : 0 < end_index → IsRule (whole t) 0 end_index
  whole-IsRule lt = record {
    forward = lt;
    in_graph = omega arith;
    budget = ground arith;
    margin = ground arith;
    overhead = ground arith;
    starts = ground arith;
    ends = ground arith;
  }

  edges_between-AllPaid :
      (i count : ℕ) (s : SolverState Tracker)
      → 1 ≤ i
      → i + count ≤ end_index
      → AllPaid s.adj
      → AllPaid (edges_between t (indices i count) s).adj
  unfolding edges_between
  edges_between-AllPaid i zero s le in_graph h = h
  edges_between-AllPaid i (suc count) s le in_graph h =
      edges_between-AllPaid (suc i) count _ (omega arith) (omega arith) (
        edges_from-AllPaid (between t) i (suc i) count 0 s
          (λ to ge lt. between-IsRule i to le (omega arith) (omega arith)) h)

  abbrev Inner : ℕ → Type 0
  Inner i = (1 ≤ i) × (i < end_index)

  edges_to-AllPaid :
      (is : List ℕ) (prev : ℕ) (s : SolverState Tracker)
      → All Inner is
      → AllPaid s.adj
      → AllPaid (edges_to t end_index is prev s).adj
  unfolding edges_to
  edges_to-AllPaid [] prev s inner h = h
  edges_to-AllPaid (i ∷ is) prev s inner h =
      elim (Bool-cases (leb t.params.capacity (prev + energy_to_leave t))) [
        | inl stop ↦ rw (stop, edges_to) h
        | inr go ↦
            rw (go, edges_to)
              (edges_to-AllPaid is _ _ inner.1
                (try_edge-AllPaid (to_end t) i end_index s (to_end-IsRule i inner.0.0 inner.0.1) h))
      ]

  All-snoc : (is : List ℕ) (i : ℕ) → All Inner is → Inner i → All Inner (is ++ i ∷ [])
  All-snoc [] i h k = (k, tt)
  All-snoc (j ∷ js) i h k = (h.0, All-snoc js i h.1 k)

  backward-Inner :
      (i count : ℕ) → 1 ≤ i → i + count ≤ end_index → All Inner (backward (indices i count))
  backward-Inner i zero le in_graph = tt
  backward-Inner i (suc count) le in_graph =
      All-snoc (backward (indices (suc i) count)) i
        (backward-Inner (suc i) count (omega arith) (omega arith)) (le, omega arith)

  length-get_checkpoints_from_trace : 2 ≤ length (get_checkpoints_from_trace t)
  unfolding get_checkpoints_from_trace
  length-get_checkpoints_from_trace =
      omega (arith, length-append (candidates t.is_call_block 0 t.path_blocks) (_ ∷ []))

  -- Every edge of the graph leads forward, covers the blocks between its nodes, and costs less than
  -- the budget at its first node, with what has to be left at its last node.
  pub graph-AllPaid :
      (tracker : Tracker) → AllPaid (create_reachable_checkpoint_graph t tracker).adj
  unfolding create_reachable_checkpoint_graph
  graph-AllPaid tracker =
      let long = length-get_checkpoints_from_trace in
      let inner = length (get_checkpoints_from_trace t) - 2 in
      let s1 = edges_between t (indices 1 inner) (first_state t tracker) in
      let s2 = edges_from t (from_start t) 0 (indices 1 inner) 0 s1 in
      let s3 = edges_to t end_index (backward (indices 1 inner)) 0 s2 in
      let paid1 : AllPaid s1.adj =
        edges_between-AllPaid 1 inner (first_state t tracker) (omega arith) (omega arith)
          (λ e m. absurd (Memᴰ.not-nil m)) in
      let paid2 : AllPaid s2.adj =
        edges_from-AllPaid (from_start t) 0 1 inner 0 s1
          (λ to ge (lt : to < 1 + inner). from_start-IsRule to ge (omega arith)) paid1 in
      let paid3 : AllPaid s3.adj =
        edges_to-AllPaid (backward (indices 1 inner)) 0 s2
          (backward-Inner 1 inner (omega arith) (omega arith)) paid2 in
      try_edge-AllPaid (whole t) 0 end_index s3 (whole-IsRule (omega arith)) paid3

  -- On a trace of at least three blocks `solve` returns a result. It is read off a path of least
  -- weight in the graph, with the blocks and placements of its edges and the checkpoints of its nodes,
  -- or it is infeasible and there is no path. Every edge of the graph leads forward and covers the
  -- blocks between its nodes; its weight is the cost of those blocks from some state of the address
  -- tracker, a restore before them but at the start of the trace, and a save after them but at its
  -- end, and it stays below the budget at the first node with what has to be left at the last.
  pub solve_finds-IsLeast :
      (tracker : Tracker)
      → 3 ≤ length t.path_blocks
      → (r : RcgResult) × (solve t tracker ≡ some r)
        × IsLeast
            (get_checkpoints_from_trace t)
            (create_reachable_checkpoint_graph t tracker).adj
            end_index
            r
        × AllPaid (create_reachable_checkpoint_graph t tracker).adj
  unfolding solve
  solve_finds-IsLeast tracker long =
      let paid = graph-AllPaid tracker in
      let nodes = length-get_checkpoints_from_trace in
      (
        _,
        ground arith,
        get_shortest_path-IsLeast (get_checkpoints_from_trace t)
            (create_reachable_checkpoint_graph t tracker).adj
            (λ e m. let p = paid e m in (p.forward, omega (arith, p.in_graph))),
        paid,
      )
