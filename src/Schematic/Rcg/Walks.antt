-- ===== src/Schematic/Rcg/Walks.antt =====
-- The labels that `getShortestPathInRCG`, passes/src/schematic/RCGSolver.cpp, ends with, and the way
-- back along them.
use mathlib.Core.Path.{subst}
use mathlib.Core.List.Memᴰ
use mathlib.Core.List.{append_assoc}
use mathlib.Core.Option.{some-injective, none-ne-some}
use bao.Prelude.{
  ℕ, zero, suc, ◌+◌, ◌≤◌, ◌<◌, ◌≡◌, refl, sym, ◌∙◌, ap, inl, inr, none, some, List, [], ◌∷◌, ◌++◌,
  Memᴰ, ◌==◌, ==_iff, Bool-cases, get_elem?, sum_map, sum_map-append, arith,
}
use bao.Schematic.Types.{RcgEdge}
use bao.Schematic.Rcg.Labels.{
  out_edges, Labels, relax_edges, relax_nodes, first_labels, backtrack, edge_into, path_edges,
}
use bao.Schematic.Rcg.Relax.{AtMost, AtMost-closer, Back, IsBacked, relax_edges-Relaxed}

mem-out_edges : (es : List RcgEdge) (e : RcgEdge) → Memᴰ e es → Memᴰ e (out_edges es e.source)
unfolding out_edges
mem-out_edges [] e m = elim m [ ]
mem-out_edges (x ∷ xs) e (Memᴰ.head q) =
    rw ((==_iff x.source e.source).1 (ap (λ y. y.source) (sym q))) (Memᴰ.head q)
mem-out_edges (x ∷ xs) e (Memᴰ.tail m) = elim (Bool-cases (x.source == e.source)) [
  | inl t ↦ rw t (Memᴰ.tail (mem-out_edges xs e m))
  | inr f ↦ rw f (mem-out_edges xs e m)
]

mem-of_out_edges :
    (es : List RcgEdge) (i : ℕ) (e : RcgEdge) → Memᴰ e (out_edges es i) → Memᴰ e es × (e.source ≡ i)
unfolding out_edges
mem-of_out_edges [] i e m = elim m [ ]
mem-of_out_edges (x ∷ xs) i e m = elim (Bool-cases (x.source == i)) [
  | inl t ↦ elim (Memᴰ.cases_cons (rw t at m)) [
    | inl q ↦ (Memᴰ.head q, ap (λ y. y.source) q ∙ (==_iff x.source i).0 t)
    | inr k ↦ let (k', s) = mem-of_out_edges xs i e k in (Memᴰ.tail k', s)
  ]
  | inr f ↦ let (k', s) = mem-of_out_edges xs i e (rw f at m) in (Memᴰ.tail k', s)
]

mem-get_elem? : (es : List RcgEdge) (k : ℕ) (e : RcgEdge) → get_elem? es k ≡ some e → Memᴰ e es
mem-get_elem? [] k e h = absurd (none-ne-some e h)
mem-get_elem? (x ∷ xs) zero e h = Memᴰ.head (sym (some-injective x e h))
mem-get_elem? (x ∷ xs) (suc k) e h = Memᴰ.tail (mem-get_elem? xs k e h)

-- Every edge leads from a node to a later one.
abbrev pub IsForward : ℕ → List RcgEdge → Type 0
IsForward count adj = (e : RcgEdge) → Memᴰ e adj → (e.source < e.target) × (e.target < count)

-- A path of the graph, with the nodes that it joins.
abbrev pub IsWalk : List RcgEdge → ℕ → List RcgEdge → ℕ → Type 0
IsWalk adj a [] b = a ≡ b
IsWalk adj a (e ∷ es) b = Memᴰ e adj × (e.source ≡ a) × IsWalk adj e.target es b

abbrev pub walk_weight : List RcgEdge → ℕ
walk_weight es = sum_map (λ e. e.weight) es

-- The nodes before `i` are done.
pub record IsDone (adj : List RcgEdge) (i : ℕ) (l : Labels) : Type 0 where
  pub zero_dist : l.dist 0 ≡ some 0
  pub zero_pred : l.pred 0 ≡ none
  pub backed : IsBacked adj i l
  pub settled :
      (e : RcgEdge) (d : ℕ)
      → Memᴰ e adj
      → e.source < i
      → l.dist e.source ≡ some d
      → AtMost (l.dist e.target) (d + e.weight)

IsBacked-suc : (adj : List RcgEdge) (i : ℕ) (l : Labels) → IsBacked adj i l → IsBacked adj (suc i) l
IsBacked-suc adj i l h n d at = elim (h n d at) [
  | inl z ↦ inl z
  | inr b ↦ inr record {
    p = b.p;
    dp = b.dp;
    idx = b.idx;
    e = b.e;
    is_pred = b.is_pred;
    is_idx = b.is_idx;
    is_edge = b.is_edge;
    is_target = b.is_target;
    is_dist = b.is_dist;
    before = omega (arith, b.before);
    sums = b.sums;
  }
]

module _ (adj : List RcgEdge) (count : ℕ) (forward : IsForward count adj) where
  pub first-IsDone : IsDone adj 0 first_labels
  first-IsDone = record {
    zero_dist = refl;
    zero_pred = refl;
    backed = λ n d h. inl (ground arith);
    settled = λ e d m lt. absurd (omega arith);
  }

  relax_edges-IsDone :
      (i : ℕ) (l : Labels)
      → IsDone adj i l
      → IsDone adj (suc i) (relax_edges i 0 (out_edges adj i) l)
  relax_edges-IsDone i l h =
      let step =
        relax_edges-Relaxed adj i 0 (out_edges adj i) l
          (λ k. ap (get_elem? (out_edges adj i)) (omega arith))
          (λ e m. let (m', s) = mem-of_out_edges adj i e m in omega (arith, s, (forward e m').0)) in
      record {
        zero_dist = step.same_dist 0 (omega arith) ∙ h.zero_dist;
        zero_pred = step.same_pred 0 (omega arith) ∙ h.zero_pred;
        backed = step.backed (IsBacked-suc adj i l h.backed);
        settled = λ e d m lt at. elim (Bool-cases (e.source == i)) [
          | inl t ↦
              let same = (==_iff e.source i).0 t in
              step.reaches e d (subst (λ k. Memᴰ e (out_edges adj k)) same (mem-out_edges adj e m))
                (ap l.dist (sym same) ∙ sym (step.same_dist e.source (omega arith)) ∙ at)
          | inr f ↦
              AtMost-closer l.dist _ e.target (d + e.weight) step.closer
                (h.settled e d m (ground arith) (sym (step.same_dist e.source (omega arith)) ∙ at))
        ];
      }

  pub relax_nodes-IsDone :
      (left i n : ℕ) (l : Labels)
      → i + left ≡ n
      → IsDone adj i l
      → IsDone adj n (relax_nodes adj i left l)
  unfolding relax_nodes
  relax_nodes-IsDone zero i n l e h = subst (λ k. IsDone adj k l) (omega arith) h
  relax_nodes-IsDone (suc left) i n l e h =
      relax_nodes-IsDone left (suc i) n _ (omega arith) (relax_edges-IsDone i l h)

  -- No path is shorter than the distance.
  pub dist_le_walk :
      (l : Labels)
      → IsDone adj count l
      → (es : List RcgEdge) (a b d : ℕ) → IsWalk adj a es b
      → l.dist a ≡ some d
      → AtMost (l.dist b) (d + walk_weight es)
  dist_le_walk l h [] a b d w at = (d, ap l.dist (sym w) ∙ at, omega arith)
  dist_le_walk l h (e ∷ es) a b d (m, s, w) at =
      let (c, at', le) = h.settled e d m (omega (arith, forward e m)) (ap l.dist s ∙ at) in
      let (c', at'', le') = dist_le_walk l h es e.target b c w at' in (c', at'', omega arith)

  IsWalk-append :
      (es : List RcgEdge) (e : RcgEdge) (a : ℕ)
      → IsWalk adj a es e.source
      → Memᴰ e adj
      → IsWalk adj a (es ++ e ∷ []) e.target
  IsWalk-append [] e a w m = (m, sym w, refl)
  IsWalk-append (x ∷ xs) e a (m', s, w) m = (m', s, IsWalk-append xs e x.target w m)

  walk_weight-append :
      (es : List RcgEdge) (e : RcgEdge) → walk_weight (es ++ e ∷ []) ≡ walk_weight es + e.weight
  walk_weight-append es e = omega (arith, sum_map-append (λ x. x.weight) es (e ∷ []))

  pub record WayBack (l : Labels) (n d : ℕ) (later : List ℕ) (nodes : List ℕ) : Type 0 where
    pub walk : List RcgEdge
    pub edges : path_edges adj l nodes ≡ walk ++ path_edges adj l (n ∷ later)
    pub joins : IsWalk adj 0 walk n
    pub weighs : walk_weight walk ≡ d

  stop-WayBack :
      (l : Labels) (n d : ℕ) (later : List ℕ)
      → IsDone adj count l
      → n ≡ 0
      → l.dist n ≡ some d
      → WayBack l n d later (n ∷ later)
  stop-WayBack l n d later h z at = record {
    walk = [];
    edges = refl;
    joins = sym z;
    weighs = some-injective 0 d (sym h.zero_dist ∙ ap l.dist (sym z) ∙ at);
  }

  path_edges-cons :
      (l : Labels) (p n : ℕ) (e : RcgEdge) (later : List ℕ)
      → edge_into adj l p n ≡ some e
      → path_edges adj l (p ∷ n ∷ later) ≡ e ∷ path_edges adj l (n ∷ later)
  unfolding path_edges
  path_edges-cons l p n e later h = rw (h, path_edges) refl

  edge_into_lem :
      (l : Labels) (n d : ℕ) (b : Back adj count l n d) → edge_into adj l b.p n ≡ some b.e
  unfolding edge_into
  edge_into_lem l n d b = rw (b.is_idx, edge_into) b.is_edge

  -- The way back from a node is a path of the weight that its label says.
  pub backtrack-WayBack :
      (l : Labels)
      → IsDone adj count l
      → (fuel n d : ℕ) (later : List ℕ) → l.dist n ≡ some d
      → n ≤ fuel
      → WayBack l n d later (backtrack l fuel n later)
  unfolding backtrack
  backtrack-WayBack l h zero n d later at le = stop-WayBack l n d later h (omega arith) at
  backtrack-WayBack l h (suc fuel) n d later at le = elim (h.backed n d at) [
    | inl z ↦ rw (ap l.pred z ∙ h.zero_pred, backtrack) (stop-WayBack l n d later h z at)
    | inr b ↦
        rw (b.is_pred, backtrack)
          (let (m, from) =
              mem-of_out_edges adj b.p b.e
                (mem-get_elem? (out_edges adj b.p) b.idx b.e b.is_edge) in
            let ih =
              backtrack-WayBack l h fuel b.p b.dp (n ∷ later) b.is_dist
                (omega (arith, (forward b.e m).0, from, b.is_target)) in
            record {
              walk = ih.walk ++ b.e ∷ [];
              edges =
                  ih.edges
                  ∙ ap (λ x. ih.walk ++ x)
                      (path_edges-cons l b.p n b.e later (edge_into_lem l n d b))
                  ∙ sym (append_assoc ih.walk (b.e ∷ []) _);
              joins =
                  subst (λ k. IsWalk adj 0 (ih.walk ++ b.e ∷ []) k) b.is_target
                    (IsWalk-append ih.walk b.e 0 (subst (IsWalk adj 0 ih.walk) (sym from) ih.joins)
                      m);
              weighs = omega (arith, walk_weight-append ih.walk b.e, ih.weighs, b.sums);
            })
  ]
