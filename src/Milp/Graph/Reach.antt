-- ===== src/Milp/Graph/Reach.antt =====
-- `computeReachableDefs` of passes/src/milp/CheckpointOptimizer.cpp against reachability.
use mathlib.Core.Path.{subst}
use mathlib.Core.Bool.{false≢true}
use bao.Prelude.{
  ℕ, zero, suc, ◌+◌, ◌≡◌, refl, ◌↔◌, sym, true, inl, inr, List, [], ◌∷◌, Memᴰ, ◌==◌, ==_iff,
  ==_refl, Bool-cases, length, contains, arith,
}
use bao.Milp.Views.{NodeId, Value, MilpInput}
use bao.Milp.Graph.{build_successor_map, is_def, seed, push_new, search, compute_reachable_defs}
use bao.Milp.Graph.Closed.{
  mem-of_build_successor_map, mem-compute_reachable_defs, compute_reachable_defs-edge,
}

module _ (inp : MilpInput) (v : Value) where
  -- Some definition of the value reaches the block: it is made there, or it reaches a predecessor.
  pub data IsReached : NodeId → Type 0 where
    here : (b : NodeId) → Memᴰ b inp.blocks → is_def inp b v ≡ true → IsReached b
    along : (a b : NodeId) → IsReached a → Memᴰ (a, b) inp.edges → IsReached b

  reached_in : (b : NodeId) → IsReached b → contains (compute_reachable_defs inp v) b ≡ true
  reached_in b (here _ h k) = mem-compute_reachable_defs inp v b h k
  reached_in b (along a _ r e) = compute_reachable_defs-edge inp v a b (reached_in a r) e

  abbrev AllReached : List NodeId → Type 0
  AllReached bs = (b : NodeId) → contains bs b ≡ true → IsReached b

  abbrev BothReached : List NodeId × List NodeId → Type 0
  BothReached found = AllReached found.0 × AllReached found.1

  AllReached-cons :
      (b : NodeId) (bs : List NodeId) → IsReached b → AllReached bs → AllReached (b ∷ bs)
  unfolding contains
  AllReached-cons b bs r all c h = elim (Bool-cases (c == b)) [
    | inl t ↦ subst IsReached (sym ((==_iff c b).0 t)) r
    | inr f ↦ all c (rw f at h)
  ]

  seed-AllReached :
      (bs reached work : List NodeId)
      → ((b : NodeId) → Memᴰ b bs → Memᴰ b inp.blocks)
      → AllReached reached
      → AllReached work
      → BothReached (seed (λ b. is_def inp b v) bs (reached, work))
  unfolding seed
  seed-AllReached [] reached work t r w = (r, w)
  seed-AllReached (b ∷ bs) reached work t r w = elim (Bool-cases (is_def inp b v)) [
    | inr other ↦ rw (other, seed) (seed-AllReached bs reached work (λ c h. t c (Memᴰ.tail h)) r w)
    | inl site ↦
        let reached_b = here b (t b (Memᴰ.head refl)) site in
        let w' = AllReached-cons b work reached_b w in
        elim (Bool-cases (contains reached b)) [
          | inl old ↦
              rw (site, old, seed)
                (seed-AllReached bs reached (b ∷ work) (λ c h. t c (Memᴰ.tail h)) r w')
          | inr new ↦
              rw (site, new, seed)
                (seed-AllReached bs (b ∷ reached) (b ∷ work) (λ c h. t c (Memᴰ.tail h))
                  (AllReached-cons b reached reached_b r) w')
        ]
  ]

  push_new-AllReached :
      (bs reached work : List NodeId)
      → ((b : NodeId) → Memᴰ b bs → IsReached b)
      → AllReached reached
      → AllReached work
      → BothReached (push_new bs (reached, work))
  unfolding push_new
  push_new-AllReached [] reached work t r w = (r, w)
  push_new-AllReached (b ∷ bs) reached work t r w = elim (Bool-cases (contains reached b)) [
    | inl old ↦
        rw (old, push_new) (push_new-AllReached bs reached work (λ c h. t c (Memᴰ.tail h)) r w)
    | inr new ↦
        let reached_b = t b (Memᴰ.head refl) in
        rw (new, push_new)
          (push_new-AllReached bs (b ∷ reached) (b ∷ work) (λ c h. t c (Memᴰ.tail h))
            (AllReached-cons b reached reached_b r) (AllReached-cons b work reached_b w))
  ]

  search-AllReached :
      (fuel : ℕ) (reached work : List NodeId)
      → AllReached reached
      → AllReached work
      → AllReached (search (build_successor_map inp.edges) fuel (reached, work))
  unfolding search contains
  search-AllReached zero reached work r w = r
  search-AllReached (suc fuel) reached [] r w = r
  search-AllReached (suc fuel) reached (cur ∷ work) r w =
      let next =
        push_new-AllReached (build_successor_map inp.edges cur) reached work
          (λ b h.
            along cur b (w cur (ground (arith, ==_refl cur)))
              (mem-of_build_successor_map inp.edges cur b h))
          r (λ b h. w b (ground arith)) in
      search-AllReached fuel _ _ next.0 next.1

  -- The blocks of `compute_reachable_defs` are exactly those that some definition of the value
  -- reaches along the edges of the graph; the worklist never runs out of fuel.
  pub compute_reachable_defs_iff :
      (b : NodeId) → (contains (compute_reachable_defs inp v) b ≡ true) ↔ IsReached b
  unfolding compute_reachable_defs contains
  compute_reachable_defs_iff b =
      let start =
        seed-AllReached inp.blocks [] [] (λ c h. h) (λ c h. absurd (false≢true h))
          (λ c h. absurd (false≢true h)) in
      (
        search-AllReached (length inp.blocks + length inp.edges + 1) _ _ start.0 start.1 b,
        reached_in b,
      )
