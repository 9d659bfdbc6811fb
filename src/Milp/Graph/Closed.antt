-- ===== src/Milp/Graph/Closed.antt =====
-- The set that `computeReachableDefs` returns: its seed, and the steps of the worklist.
use mathlib.Core.List.Memᴰ
use bao.Prelude.{
  ℕ, zero, suc, ◌+◌, ◌≤◌, ◌<◌, ◌≡◌, refl, sym, ap, Bool, true, false, ◌⊎◌, inl, inr, List, [], ◌∷◌,
  Memᴰ, ◌==◌, ==_iff, Bool-cases, if◌then◌else◌, length, contains, mem→contains, arith,
}
use bao.Milp.Views.{NodeId, Value, MilpInput}
use bao.Milp.Graph.{
  Edges, build_predecessor_map, build_successor_map, is_def, seed, push_new, search,
  compute_reachable_defs,
}

pub mem-build_successor_map :
    (es : Edges) (a b : NodeId) → Memᴰ (a, b) es → Memᴰ b (build_successor_map es a)
unfolding build_successor_map
mem-build_successor_map [] a b h = elim h [ ]
mem-build_successor_map ((x, y) ∷ es) a b (Memᴰ.head e) =
    rw ((==_iff x a).1 (sym (ap (λ p. p.0) e))) (Memᴰ.head (ap (λ p. p.1) e))
mem-build_successor_map ((x, y) ∷ es) a b (Memᴰ.tail h) = elim (Bool-cases (x == a)) [
  | inl t ↦ rw t (Memᴰ.tail (mem-build_successor_map es a b h))
  | inr f ↦ rw f (mem-build_successor_map es a b h)
]

pub mem-build_predecessor_map :
    (es : Edges) (a b : NodeId) → Memᴰ (a, b) es → Memᴰ a (build_predecessor_map es b)
unfolding build_predecessor_map
mem-build_predecessor_map [] a b h = elim h [ ]
mem-build_predecessor_map ((x, y) ∷ es) a b (Memᴰ.head e) =
    rw ((==_iff y b).1 (sym (ap (λ p. p.1) e))) (Memᴰ.head (ap (λ p. p.0) e))
mem-build_predecessor_map ((x, y) ∷ es) a b (Memᴰ.tail h) = elim (Bool-cases (y == b)) [
  | inl t ↦ rw t (Memᴰ.tail (mem-build_predecessor_map es a b h))
  | inr f ↦ rw f (mem-build_predecessor_map es a b h)
]

-- The edges whose target is not in the set yet.
abbrev uncovered : Edges → List NodeId → ℕ
uncovered [] reached = 0
uncovered ((x, y) ∷ es) reached = (if contains reached y then 0 else 1) + uncovered es reached

uncovered-cons :
    (es : Edges) (b : NodeId) (reached : List NodeId)
    → uncovered es (b ∷ reached) ≤ uncovered es reached
unfolding contains
uncovered-cons [] b reached = omega arith
uncovered-cons ((x, y) ∷ es) b reached = ground (arith, uncovered-cons es b reached)

-- A new target covers an edge.
abbrev IsTarget : Edges → NodeId → Type 0
IsTarget es b = (a : NodeId) × Memᴰ (a, b) es

covers :
    (es : Edges) (a b : NodeId) (reached : List NodeId)
    → Memᴰ (a, b) es
    → contains reached b ≡ false
    → suc (uncovered es (b ∷ reached)) ≤ uncovered es reached
unfolding contains
covers [] a b reached h f = elim h [ ]
covers ((x, y) ∷ es) a b reached (Memᴰ.head e) f =
    let target : b ≡ y = ap (λ p. p.1) e in ground (arith, uncovered-cons es b reached)
covers ((x, y) ∷ es) a b reached (Memᴰ.tail h) f = ground (arith, covers es a b reached h f)

-- What `push_new bs` makes of a search state.
record Pushed (es : Edges) (bs reached work reached' work' : List NodeId) : Type 0 where
  keeps : (x : NodeId) → contains reached x ≡ true → contains reached' x ≡ true
  waits : (x : NodeId) → contains work x ≡ true → contains work' x ≡ true
  adds : (x : NodeId) → contains bs x ≡ true → contains reached' x ≡ true
  fresh :
      (x : NodeId)
      → contains reached' x ≡ true
      → (contains reached x ≡ true) ⊎ (contains work' x ≡ true)
  cost : length work' + uncovered es reached' ≤ length work + uncovered es reached

push_new-Pushed :
    (es : Edges) (bs reached work : List NodeId)
    → ((b : NodeId) → Memᴰ b bs → IsTarget es b)
    → Pushed es bs reached work (push_new bs (reached, work)).0 (push_new bs (reached, work)).1
unfolding push_new contains
push_new-Pushed es [] reached work t = record {
  keeps = λ x h. h;
  waits = λ x h. h;
  adds = λ x h. cc;
  fresh = λ x h. inl h;
  cost = omega arith;
}
push_new-Pushed es (b ∷ bs) reached work t = elim (Bool-cases (contains reached b)) [
  | inl old ↦
      rw (old, push_new)
        (let p = push_new-Pushed es bs reached work (λ x h. t x (Memᴰ.tail h)) in
          record {
            keeps = p.keeps;
            waits = p.waits;
            adds = λ x h. ground (arith, p.adds x, p.keeps x, ==_iff x b);
            fresh = p.fresh;
            cost = p.cost;
          })
  | inr new ↦
      rw (new, push_new)
        (let p = push_new-Pushed es bs (b ∷ reached) (b ∷ work) (λ x h. t x (Memᴰ.tail h)) in
          let (a, edge) = t b (Memᴰ.head refl) in
          record {
            keeps = λ x h. ground (arith, p.keeps x);
            waits = λ x h. ground (arith, p.waits x);
            adds = λ x h. ground (arith, p.adds x, p.keeps x);
            fresh = λ x h. ground (arith, p.fresh x, p.waits x);
            cost = omega (arith, p.cost, covers es a b reached edge new);
          })
]

pub mem-of_build_successor_map :
    (es : Edges) (x b : NodeId) → Memᴰ b (build_successor_map es x) → Memᴰ (x, b) es
unfolding build_successor_map
mem-of_build_successor_map [] x b h = elim h [ ]
mem-of_build_successor_map ((u, v) ∷ es) x b h = elim (Bool-cases (u == x)) [
  | inl t ↦ elim (Memᴰ.cases_cons (rw t at h)) [
    | inl e ↦ let same = sym ((==_iff u x).0 t) in Memᴰ.head (λ i. (same i, e i))
    | inr k ↦ Memᴰ.tail (mem-of_build_successor_map es x b k)
  ]
  | inr f ↦ Memᴰ.tail (mem-of_build_successor_map es x b (rw f at h))
]

succ-IsTarget : (es : Edges) (x b : NodeId) → Memᴰ b (build_successor_map es x) → IsTarget es b
succ-IsTarget es x b h = (x, mem-of_build_successor_map es x b h)

-- Every reached block waits, or its successors are reached.
abbrev pub IsClosedUpTo : (NodeId → List NodeId) → List NodeId → List NodeId → Type 0
IsClosedUpTo succs reached work =
    (x y : NodeId)
    → contains reached x ≡ true
    → Memᴰ y (succs x)
    → (contains work x ≡ true) ⊎ (contains reached y ≡ true)

pub record IsClosedOver (succs : NodeId → List NodeId) (reached result : List NodeId) : Type 0 where
  pub keeps : (x : NodeId) → contains reached x ≡ true → contains result x ≡ true
  pub closed :
      (x y : NodeId) → contains result x ≡ true → Memᴰ y (succs x) → contains result y ≡ true

module _ (es : Edges) where
  abbrev succs : NodeId → List NodeId
  succs = build_successor_map es

  pub search-IsClosedOver :
      (fuel : ℕ) (reached work : List NodeId)
      → length work + uncovered es reached < fuel
      → IsClosedUpTo succs reached work
      → IsClosedOver succs reached (search succs fuel (reached, work))
  unfolding search contains
  search-IsClosedOver zero reached work enough c = absurd (omega arith)
  search-IsClosedOver (suc fuel) reached [] enough c = record {
    keeps = λ x h. h;
    closed = λ x y h k. ground (arith, c x y h k);
  }
  search-IsClosedOver (suc fuel) reached (cur ∷ work) enough c =
      let p = push_new-Pushed es (succs cur) reached work (succ-IsTarget es cur) in
      let rest =
        search-IsClosedOver fuel (push_new (succs cur) (reached, work)).0
          (push_new (succs cur) (reached, work)).1 (omega (arith, p.cost))
          (λ x y h k. ground (
            arith,
            p.fresh x h,
            c x y,
            p.keeps y,
            p.waits x,
            p.adds y,
            mem→contains (succs x) y k,
            ==_iff x cur,
          )) in
      record { keeps = λ x h. rest.keeps x (p.keeps x h); closed = rest.closed }

-- The seed of the search: every definition site is in the set, and all of the set waits.
record Seeded (is_site : NodeId → Bool) (bs reached work reached' work' : List NodeId)
    : Type 0 where
  keeps : (x : NodeId) → contains reached x ≡ true → contains reached' x ≡ true
  waits : (x : NodeId) → contains work x ≡ true → contains work' x ≡ true
  sites : (x : NodeId) → contains bs x ≡ true → is_site x ≡ true → contains reached' x ≡ true
  fresh :
      (x : NodeId)
      → contains reached' x ≡ true
      → (contains reached x ≡ true) ⊎ (contains work' x ≡ true)
  cost : length work' ≤ length work + length bs

seed-Seeded :
    (is_site : NodeId → Bool) (bs reached work : List NodeId)
    → Seeded is_site bs reached work
        (seed is_site bs (reached, work)).0
        (seed is_site bs (reached, work)).1
unfolding seed contains
seed-Seeded is_site [] reached work = record {
  keeps = λ x h. h;
  waits = λ x h. h;
  sites = λ x h k. cc;
  fresh = λ x h. inl h;
  cost = omega arith;
}
seed-Seeded is_site (b ∷ bs) reached work = elim (Bool-cases (is_site b)) [
  | inr other ↦
      rw (other, seed)
        (let p = seed-Seeded is_site bs reached work in
          record {
            keeps = p.keeps;
            waits = p.waits;
            fresh = p.fresh;
            cost = omega (arith, p.cost);
            sites = λ x h k. ground (arith, p.sites x, ap is_site, ==_iff x b);
          })
  | inl site ↦ elim (Bool-cases (contains reached b)) [
    | inl old ↦
        rw (site, old, seed)
          (let p = seed-Seeded is_site bs reached (b ∷ work) in
            record {
              keeps = p.keeps;
              cost = omega (arith, p.cost);
              fresh = p.fresh;
              waits = λ x h. ground (arith, p.waits x);
              sites = λ x h k. ground (arith, p.sites x, p.keeps x, ==_iff x b);
            })
    | inr new ↦
        rw (site, new, seed)
          (let p = seed-Seeded is_site bs (b ∷ reached) (b ∷ work) in
            record {
              keeps = λ x h. ground (arith, p.keeps x);
              cost = omega (arith, p.cost);
              waits = λ x h. ground (arith, p.waits x);
              sites = λ x h k. ground (arith, p.sites x, p.keeps x);
              fresh = λ x h. ground (arith, p.fresh x, p.waits x);
            })
  ]
]

pub uncovered-le-length : (es : Edges) (reached : List NodeId) → uncovered es reached ≤ length es
uncovered-le-length [] reached = omega arith
uncovered-le-length ((x, y) ∷ es) reached = ground (arith, uncovered-le-length es reached)

module _ (inp : MilpInput) (v : Value) where
  abbrev seeded : List NodeId × List NodeId
  seeded = seed (λ b. is_def inp b v) inp.blocks ([], [])

  reachable_defs_closed :
      IsClosedOver (build_successor_map inp.edges) seeded.0 (compute_reachable_defs inp v)
  unfolding compute_reachable_defs contains
  reachable_defs_closed =
      let p = seed-Seeded (λ b. is_def inp b v) inp.blocks [] [] in
      search-IsClosedOver inp.edges (length inp.blocks + length inp.edges + 1) seeded.0 seeded.1
        (omega (arith, p.cost, uncovered-le-length inp.edges seeded.0))
        (λ x y h k. ground (arith, p.fresh x h))

  -- Every block that defines the value is in its reachable set.
  pub mem-compute_reachable_defs :
      (b : NodeId)
      → Memᴰ b inp.blocks
      → is_def inp b v ≡ true
      → contains (compute_reachable_defs inp v) b ≡ true
  mem-compute_reachable_defs b h k =
      let p = seed-Seeded (λ b. is_def inp b v) inp.blocks [] [] in
      reachable_defs_closed.keeps b (p.sites b (mem→contains inp.blocks b h) k)

  -- The set is closed under the edges of the graph.
  pub compute_reachable_defs-edge :
      (a b : NodeId)
      → contains (compute_reachable_defs inp v) a ≡ true
      → Memᴰ (a, b) inp.edges
      → contains (compute_reachable_defs inp v) b ≡ true
  compute_reachable_defs-edge a b h e =
      reachable_defs_closed.closed a b h (mem-build_successor_map inp.edges a b e)
