-- ===== src/RockClimb/Partition/Segments.antt =====
-- The loop of `partitionRegions` of passes/rockclimb-backend/RockClimbMachineOptimizer.cpp: what one
-- block does to the state, and what holds of every path when the loop ends.
use mathlib.Core.Bool.{false≢true}
use mathlib.Core.List.Memᴰ
use bao.Prelude.{
  ℕ, ◌+◌, ◌≤◌, ◌<◌, max, ◌≡◌, refl, sym, ◌∙◌, ap, inl, inr, Bool, true, false, not, ◌&&◌, List, [],
  ◌∷◌, ◌==◌, ==_iff, if◌then◌else◌, leb, Bool-cases, contains, contains-insert_self,
  contains-insert_old, All, Memᴰ, sum_map, arith,
}
use bao.RockClimb.Machine.{BlockId, MachineFunction}
use bao.RockClimb.Partition.{
  is_mandatory, PartitionState, propagate, Partitioning, infeasible_at, partitioned, with_mandatory,
  accumulate, partition_blocks,
}
use bao.RockClimb.Partition.Orders.{InOrder, InOrder-nil, InOrder-cons}

-- The blocks come one after the other along the edges, after the first.
abbrev pub Follows : (BlockId → List BlockId) → BlockId → List BlockId → Type 0
Follows succs b [] = Unit
Follows succs b (c ∷ p) = Memᴰ c (succs b) × Follows succs c p

abbrev pub Avoids : List BlockId → List BlockId → Type 0
Avoids boundaries p = All (λ c. contains boundaries c ≡ false) p

propagate-at_least :
    (accum : ℕ) (succs : List BlockId) (income : BlockId → ℕ) (b : BlockId)
    → income b ≤ propagate accum succs income b
propagate-at_least accum [] income b = omega arith
propagate-at_least accum (s ∷ ss) income b =
    ground (
      arith,
      propagate-at_least accum ss (λ x. if x == s then max (income x) accum else income x) b,
    )

propagate-reaches :
    (accum : ℕ) (succs : List BlockId) (income : BlockId → ℕ) (b : BlockId)
    → Memᴰ b succs
    → accum ≤ propagate accum succs income b
propagate-reaches accum [] income b m = elim m [ ]
propagate-reaches accum (s ∷ ss) income b (Memᴰ.head e) = ground (
  arith,
  ==_iff b s,
  propagate-at_least accum ss (λ x. if x == s then max (income x) accum else income x) b,
)
propagate-reaches accum (s ∷ ss) income b (Memᴰ.tail m) = propagate-reaches accum ss _ b m

module _ (f : MachineFunction) (cost : BlockId → ℕ) (e_safe : ℕ) where
  -- What one block does.
  pub record Stepped (entry b : BlockId) (s : PartitionState) : Type 0 where
    keeps :
        (x : BlockId)
        → contains s.boundaries x ≡ true
        → contains (accumulate f cost e_safe entry b s).0 x ≡ true
    adds :
        (not (b == entry) && is_mandatory f b) ≡ true
        → contains (accumulate f cost e_safe entry b s).0 b ≡ true
    spends : cost b ≤ (accumulate f cost e_safe entry b s).1
    carries :
        contains (accumulate f cost e_safe entry b s).0 b ≡ false
        → cost b + s.income b ≤ (accumulate f cost e_safe entry b s).1
    pub refuses : leb e_safe (accumulate f cost e_safe entry b s).1 ≡ leb e_safe (cost b)

  with_mandatory-keeps :
      (entry b x : BlockId) (bs : List BlockId)
      → contains bs x ≡ true
      → contains (with_mandatory f cost e_safe entry b bs) x ≡ true
  unfolding with_mandatory
  with_mandatory-keeps entry b x bs h = elim (Bool-cases (not (b == entry) && is_mandatory f b)) [
    | inl t ↦ rw (t, with_mandatory) (contains-insert_old b x bs h)
    | inr e ↦ rw (e, with_mandatory) h
  ]

  with_mandatory-adds :
      (entry b : BlockId) (bs : List BlockId)
      → (not (b == entry) && is_mandatory f b) ≡ true
      → contains (with_mandatory f cost e_safe entry b bs) b ≡ true
  unfolding with_mandatory
  with_mandatory-adds entry b bs h = rw (h, with_mandatory) (contains-insert_self b bs)

  pub accumulate-Stepped : (entry b : BlockId) (s : PartitionState) → Stepped entry b s
  unfolding accumulate
  accumulate-Stepped entry b s =
      let marked : List BlockId = with_mandatory f cost e_safe entry b s.boundaries in
      elim (Bool-cases (contains (with_mandatory f cost e_safe entry b s.boundaries) b)) [
        | inl t ↦ record {
          keeps = λ x h. rw (t, accumulate) (with_mandatory-keeps entry b x s.boundaries h);
          adds = λ h. rw (t, accumulate) t;
          spends = rw (t, accumulate) (omega arith);
          carries = λ h. absurd (false≢true (sym (rw (t, accumulate) at h) ∙ t));
          refuses = rw (t, accumulate) refl;
        }
        | inr n ↦ elim (Bool-cases (leb e_safe (cost b + s.income b))) [
          | inl over ↦ record {
            keeps = λ x h.
                rw (n, over, accumulate)
                  (contains-insert_old b x _ (with_mandatory-keeps entry b x s.boundaries h));
            adds = λ h. rw (n, over, accumulate) (contains-insert_self b _);
            spends = rw (n, over, accumulate) (omega arith);
            carries = λ h.
                absurd
                  (false≢true (sym (rw (n, over, accumulate) at h) ∙ contains-insert_self b _));
            refuses = rw (n, over, accumulate) refl;
          }
          | inr fits ↦ record {
            keeps = λ x h. rw (n, fits, accumulate) (with_mandatory-keeps entry b x s.boundaries h);
            adds = λ h. absurd (false≢true (sym n ∙ with_mandatory-adds entry b s.boundaries h));
            spends = rw (n, fits, accumulate) (omega arith);
            carries = λ h. rw (n, fits, accumulate) (omega arith);
            refuses = rw (n, fits, accumulate) (ground arith);
          }
        ]
      ]

  abbrev pub after : BlockId → BlockId → PartitionState → PartitionState
  after entry b s = record {
    boundaries = (accumulate f cost e_safe entry b s).0;
    income = propagate (accumulate f cost e_safe entry b s).1 (f.successors b) s.income;
  }

  -- What the loop leaves when it ends. A path that meets no boundary after its first block fits, and
  -- what comes in at that block fits with it, unless it is a boundary.
  pub record Ran (entry : BlockId) (bs : List BlockId) (s s' : PartitionState) : Type 0 where
    pub keeps : (x : BlockId) → contains s.boundaries x ≡ true → contains s'.boundaries x ≡ true
    pub adds :
        (b : BlockId)
        → Memᴰ b bs
        → (not (b == entry) && is_mandatory f b) ≡ true
        → contains s'.boundaries b ≡ true
    pub fits :
        (b : BlockId) (p : List BlockId)
        → InOrder (b ∷ p) bs
        → Follows f.successors b p
        → Avoids s'.boundaries p
        → sum_map cost (b ∷ p) < e_safe
    pub fits_in :
        (b : BlockId) (p : List BlockId)
        → InOrder (b ∷ p) bs
        → Follows f.successors b p
        → Avoids s'.boundaries p
        → contains s'.boundaries b ≡ false
        → s.income b + sum_map cost (b ∷ p) < e_safe

  state_of : PartitionState → Partitioning → PartitionState
  state_of s (infeasible_at b) = s
  state_of s (partitioned s') = s'

  is_partitioned : Partitioning → Bool
  is_partitioned (infeasible_at b) = false
  is_partitioned (partitioned s) = true

  -- The path that starts with the block just looked at.
  starts_here :
      (entry b : BlockId) (bs p : List BlockId) (s s' : PartitionState)
      → (accumulate f cost e_safe entry b s).1 < e_safe
      → Ran entry bs (after entry b s) s'
      → InOrder p bs
      → Follows f.successors b p
      → Avoids s'.boundaries p
      → (accumulate f cost e_safe entry b s).1 + sum_map cost p < e_safe
  starts_here entry b bs [] s s' small r o w a = omega arith
  starts_here entry b bs (c ∷ p) s s' small r o w a = omega (
    arith,
    propagate-reaches (accumulate f cost e_safe entry b s).1 (f.successors b) s.income c w.0,
    r.fits_in c p o w.1 a.1 a.0,
  )

  pub partition_blocks-Ran :
      (entry : BlockId) (bs : List BlockId) (s s' : PartitionState)
      → partition_blocks f cost e_safe entry bs s ≡ partitioned s'
      → Ran entry bs s s'
  unfolding partition_blocks state_of is_partitioned
  partition_blocks-Ran entry [] s s' h =
      let same : s ≡ s' = ap (state_of s) h in
      record {
        keeps = λ x k. ap (λ t. contains t.boundaries x) (sym same) ∙ k;
        adds = λ b m. elim m [ ];
        fits = λ b p o. absurd (InOrder-nil b p o);
        fits_in = λ b p o. absurd (InOrder-nil b p o);
      }
  partition_blocks-Ran entry (b ∷ bs) s s' h =
      elim (Bool-cases (leb e_safe (accumulate f cost e_safe entry b s).1)) [
        | inl t ↦ absurd (false≢true (ap is_partitioned (rw (t, partition_blocks) at h)))
        | inr small ↦
            let one = accumulate-Stepped entry b s in
            let r =
              partition_blocks-Ran entry bs (after entry b s) s'
                (rw (small, partition_blocks) at h) in
            step_Ran entry b bs s s' (ground arith) one r
      ]
    where
      step_Ran :
          (entry b : BlockId) (bs : List BlockId) (s s' : PartitionState)
          → (accumulate f cost e_safe entry b s).1 < e_safe
          → Stepped entry b s
          → Ran entry bs (after entry b s) s'
          → Ran entry (b ∷ bs) s s'
      step_Ran entry b bs s s' small one r = record {
        keeps = λ x k. r.keeps x (one.keeps x k);
        adds = λ c m k. elim (Memᴰ.cases_cons m) [
          | inl e ↦ rw e (r.keeps b (one.adds (rw e at k)))
          | inr m' ↦ r.adds c m' k
        ];
        fits = λ c p o w a. elim (InOrder-cons c p b bs o) [
          | inl (e, o') ↦
              let q = starts_here entry b bs p s s' small r o' (rw e at w) a in
              omega (arith, one.spends, ap cost e)
          | inr o' ↦ r.fits c p o' w a
        ];
        fits_in = λ c p o w a out. elim (InOrder-cons c p b bs o) [
          | inl (e, o') ↦
              let q = starts_here entry b bs p s s' small r o' (rw e at w) a in
              let first = one.carries (not_before b (rw e at out)) in
              omega (arith, ap cost e, ap s.income e)
          | inr o' ↦ omega (
            arith,
            r.fits_in c p o' w a out,
            propagate-at_least (accumulate f cost e_safe entry b s).1 (f.successors b) s.income c,
          )
        ];
      }
        where
          not_before :
              (x : BlockId)
              → contains s'.boundaries x ≡ false
              → contains (accumulate f cost e_safe entry b s).0 x ≡ false
          not_before x out = elim (Bool-cases (contains (accumulate f cost e_safe entry b s).0 x)) [
            | inl t ↦ absurd (false≢true (sym out ∙ r.keeps x t))
            | inr n ↦ n
          ]
