-- ===== src/RockClimb/Liveness/Walk.antt =====
-- The walk of `isRegLiveFromBlock`, passes/rockclimb-backend/MachineLivenessAnalysis.cpp, by what the
-- scans of the blocks answer.
use mathlib.Core.Bool.{false≢true}
use mathlib.Core.List.Memᴰ
use mathlib.Core.Path.{subst}
use bao.Prelude.{
  ℕ, zero, suc, ◌+◌, ◌≤◌, ◌<◌, ◌≡◌, ◌≢◌, ◌↔◌, refl, sym, ◌∙◌, ap, ◌⊎◌, inl, inr, Bool, true, false,
  List, [], ◌∷◌, length, ◌==◌, ==_iff, ==_refl, if◌then◌else◌, Bool-cases, contains, Memᴰ, sum_map,
  arith,
}
use bao.RockClimb.Machine.{BlockId, Reg, MachineFunction, HasSuccessors, Target}
use bao.RockClimb.Liveness.{
  RegScanResult, used_first, defined_first, neither, scan_block_for_reg, push_succs, live_walk,
  is_reg_live_from_block,
}

RegScanResult-cases : (s : RegScanResult) → (s ≡ used_first) ⊎ (s ≡ defined_first) ⊎ (s ≡ neither)
RegScanResult-cases used_first = inl refl
RegScanResult-cases defined_first = inr (inl refl)
RegScanResult-cases neither = inr (inr refl)

is_used : RegScanResult → Bool
is_used used_first = true
is_used _ = false

is_neither : RegScanResult → Bool
is_neither neither = true
is_neither _ = false

module _ (t : Target) (f : MachineFunction) (reg : Reg) where
  abbrev scan : BlockId → RegScanResult
  scan b = scan_block_for_reg t reg (f.instrs b)

  -- By the scans of the blocks, some path from the start of the block reads the register first.
  pub data IsScanLive : BlockId → Type 0 where
    used : (b : BlockId) → scan b ≡ used_first → IsScanLive b
    passes :
        (b c : BlockId) → scan b ≡ neither → Memᴰ c (f.successors b) → IsScanLive c → IsScanLive b

  mem-push_succs :
      (ss work : List BlockId) (x : BlockId)
      → Memᴰ x (push_succs t f ss work) ↔ Memᴰ x ss ⊎ Memᴰ x work
  unfolding push_succs
  mem-push_succs [] work x =
      (λ m. inr m, λ o. elim o [ inl m ↦ absurd (Memᴰ.not-nil m) | inr m ↦ m ])
  mem-push_succs (s ∷ ss) work x =
      let rest = mem-push_succs ss (s ∷ work) x in
      (
        λ m. elim (rest.0 m) [
          | inl k ↦ inl (Memᴰ.tail k)
          | inr k ↦ elim (Memᴰ.cases_cons k) [ inl e ↦ inl (Memᴰ.head e) | inr j ↦ inr j ]
        ],
        λ o. rest.1 (elim o [
          | inl k ↦ elim (Memᴰ.cases_cons k) [ inl e ↦ inr (Memᴰ.head e) | inr j ↦ inl j ]
          | inr k ↦ inr (Memᴰ.tail k)
        ]),
      )

  length-push_succs :
      (ss work : List BlockId) → length (push_succs t f ss work) ≡ length ss + length work
  unfolding push_succs
  length-push_succs [] work = omega arith
  length-push_succs (s ∷ ss) work = omega (arith, length-push_succs ss (s ∷ work))

  abbrev SomeLive : List BlockId → Type 0
  SomeLive work = (b : BlockId) × Memᴰ b work × IsScanLive b

  live_walk-SomeLive :
      (fuel : ℕ) (visited work : List BlockId)
      → live_walk t f reg fuel visited work ≡ true
      → SomeLive work
  unfolding live_walk
  live_walk-SomeLive zero visited work h = absurd (false≢true h)
  live_walk-SomeLive (suc fuel) visited [] h = absurd (false≢true h)
  live_walk-SomeLive (suc fuel) visited (b ∷ work) h = elim (Bool-cases (contains visited b)) [
    | inl old ↦
        let (c, m, l) = live_walk-SomeLive fuel visited work (rw (old, live_walk) at h) in
        (c, Memᴰ.tail m, l)
    | inr new ↦ elim (RegScanResult-cases (scan b)) [
      | inl u ↦ (b, Memᴰ.head refl, used b u)
      | inr (inl d) ↦
          let (c, m, l) =
            live_walk-SomeLive fuel (b ∷ visited) work (rw (new, d, live_walk) at h) in
          (c, Memᴰ.tail m, l)
      | inr (inr n) ↦
          let (c, m, l) =
            live_walk-SomeLive fuel (b ∷ visited) (push_succs t f (f.successors b) work)
              (rw (new, n, live_walk) at h) in
          elim ((mem-push_succs (f.successors b) work c).0 m) [
            | inl k ↦ (b, Memᴰ.head refl, passes b c n k l)
            | inr k ↦ (c, Memᴰ.tail k, l)
          ]
    ]
  ]

  -- What the walk knows of the visited blocks.
  abbrev IsExplored : List BlockId → List BlockId → Type 0
  IsExplored visited work =
      (b : BlockId)
      → contains visited b ≡ true
      → (scan b ≢ used_first)
        × (scan b ≡ neither
            → (c : BlockId) → Memᴰ c (f.successors b)
            → (contains visited c ≡ true) ⊎ Memᴰ c work)

  explored_not_live :
      (visited : List BlockId)
      → IsExplored visited []
      → (b : BlockId) → contains visited b ≡ true
      → ¬ IsScanLive b
  explored_not_live visited ex b v (used _ u) = (ex b v).0 u
  explored_not_live visited ex b v (passes _ c n k l) = elim ((ex b v).1 n c k) [
    | inl vc ↦ explored_not_live visited ex c vc l
    | inr m ↦ Memᴰ.not-nil m
  ]

  -- The successors of the blocks that are still to be visited.
  abbrev pending : List BlockId → List BlockId → ℕ
  pending [] visited = 0
  pending (b ∷ bs) visited =
      (if contains visited b then 0 else length (f.successors b)) + pending bs visited

  pending_visit_le :
      (bs visited : List BlockId) (b : BlockId) → pending bs (b ∷ visited) ≤ pending bs visited
  unfolding contains
  pending_visit_le [] visited b = omega arith
  pending_visit_le (c ∷ cs) visited b = ground (arith, pending_visit_le cs visited b)

  pending_visit :
      (bs visited : List BlockId) (b : BlockId)
      → Memᴰ b bs
      → contains visited b ≡ false
      → length (f.successors b) + pending bs (b ∷ visited) ≤ pending bs visited
  unfolding contains
  pending_visit [] visited b m n = elim m [ ]
  pending_visit (c ∷ cs) visited b (Memᴰ.head e) n =
      rw (sym e, n, ==_refl b) (omega (arith, pending_visit_le cs visited b))
  pending_visit (c ∷ cs) visited b (Memᴰ.tail m) n = ground (arith, pending_visit cs visited b m n)

  pending_all : (bs : List BlockId) → pending bs [] ≡ sum_map (λ b. length (f.successors b)) bs
  unfolding contains
  pending_all [] = refl
  pending_all (b ∷ bs) = omega (arith, pending_all bs)

  module _ (within : HasSuccessors f) where
    -- The blocks of the state are not live, if the walk finds nothing.
    abbrev FindsNothing : ℕ → List BlockId → List BlockId → Type 0
    FindsNothing fuel visited work =
        live_walk t f reg fuel visited work ≡ false
        → length work + pending f.blocks visited < fuel
        → ((b : BlockId) → Memᴰ b work → Memᴰ b f.blocks)
        → IsExplored visited work
        → (b : BlockId) → (contains visited b ≡ true) ⊎ Memᴰ b work
        → ¬ IsScanLive b

    IsExplored-visit :
        (visited work work' : List BlockId) (b : BlockId)
        → scan b ≢ used_first
        → ((c : BlockId) → Memᴰ c work → Memᴰ c work')
        → (scan b ≡ neither → (c : BlockId) → Memᴰ c (f.successors b) → Memᴰ c work')
        → IsExplored visited (b ∷ work)
        → IsExplored (b ∷ visited) work'
    unfolding contains
    IsExplored-visit visited work work' b unused keep all ex x v = elim (Bool-cases (x == b)) [
      | inl e ↦
          subst
            (λ y.
              (scan y ≢ used_first)
              × (scan y ≡ neither
                  → (c : BlockId) → Memᴰ c (f.successors y)
                  → (contains (b ∷ visited) c ≡ true) ⊎ Memᴰ c work'))
            (sym ((==_iff x b).0 e)) (unused, λ n c k. inr (all n c k))
      | inr n ↦
          let old = ex x (rw n at v) in
          (
            old.0,
            λ q c k. elim (old.1 q c k) [
              | inl vc ↦ inl (ground (arith, vc))
              | inr m ↦ elim (Memᴰ.cases_cons m) [
                | inl e ↦ inl (ground (arith, ==_iff c b, e))
                | inr j ↦ inr (keep c j)
              ]
            ],
          )
    ]

    live_walk-FindsNothing :
        (fuel : ℕ) (visited work : List BlockId) → FindsNothing fuel visited work
    unfolding live_walk contains is_used is_neither
    live_walk-FindsNothing zero visited work h enough ins ex x where_x = absurd (omega arith)
    live_walk-FindsNothing (suc fuel) visited [] h enough ins ex b (inl v) =
        explored_not_live visited ex b v
    live_walk-FindsNothing (suc fuel) visited [] h enough ins ex b (inr m) = absurd (Memᴰ.not-nil m)
    live_walk-FindsNothing (suc fuel) visited (b ∷ work) h enough ins ex x where_x =
        elim (Bool-cases (contains visited b)) [
          | inl old ↦
              live_walk-FindsNothing fuel visited work (rw (old, live_walk) at h) (omega arith)
                (λ c m. ins c (Memᴰ.tail m))
                (λ c v. ((ex c v).0, λ n d k. drop_head old ((ex c v).1 n d k))) x
                (drop_head old where_x)
          | inr new ↦
              let less = pending_visit f.blocks visited b (ins b (Memᴰ.head refl)) new in
              elim (RegScanResult-cases (scan b)) [
                | inl u ↦ absurd (false≢true (sym (rw (new, u, live_walk) at h)))
                | inr (inl d) ↦
                    live_walk-FindsNothing fuel (b ∷ visited) work (rw (new, d, live_walk) at h)
                      (omega arith) (λ c m. ins c (Memᴰ.tail m))
                      (IsExplored-visit visited work work b
                        (λ u. false≢true (ap is_used (sym d ∙ u))) (λ c m. m)
                        (λ n. absurd (false≢true (ap is_neither (sym d ∙ n)))) ex)
                      x (head_to_visited (λ m. m) where_x)
                | inr (inr n) ↦
                    let into = mem-push_succs (f.successors b) work in
                    live_walk-FindsNothing fuel (b ∷ visited) (push_succs t f (f.successors b) work)
                      (rw (new, n, live_walk) at h)
                      (omega (arith, length-push_succs (f.successors b) work))
                      (λ c m. elim ((into c).0 m) [
                        | inl k ↦ within b c (ins b (Memᴰ.head refl)) k
                        | inr k ↦ ins c (Memᴰ.tail k)
                      ])
                      (IsExplored-visit visited work (push_succs t f (f.successors b) work) b
                        (λ u. false≢true (ap is_used (sym n ∙ u))) (λ c m. (into c).1 (inr m))
                        (λ q c k. (into c).1 (inl k)) ex)
                      x (head_to_visited (λ m. (into x).1 (inr m)) where_x)
              ]
        ]
      where
        drop_head :
            contains visited b ≡ true
            → {c : BlockId} → (contains visited c ≡ true) ⊎ Memᴰ c (b ∷ work)
            → (contains visited c ≡ true) ⊎ Memᴰ c work
        drop_head old (inl v) = inl v
        drop_head old {c} (inr m) = elim (Memᴰ.cases_cons m) [
          | inl e ↦ inl (ap (contains visited) e ∙ old)
          | inr k ↦ inr k
        ]

        head_to_visited :
            {work' : List BlockId}
            → (Memᴰ x work → Memᴰ x work')
            → (contains visited x ≡ true) ⊎ Memᴰ x (b ∷ work)
            → (contains (b ∷ visited) x ≡ true) ⊎ Memᴰ x work'
        head_to_visited k (inl v) = inl (ground (arith, v))
        head_to_visited k (inr m) = elim (Memᴰ.cases_cons m) [
          | inl e ↦ inl (ground (arith, ==_iff x b, e))
          | inr j ↦ inr (k j)
        ]

    pub is_reg_live_from_block-IsScanLive :
        (b : BlockId) → Memᴰ b f.blocks → (is_reg_live_from_block t f b reg ≡ true) ↔ IsScanLive b
    unfolding is_reg_live_from_block contains
    is_reg_live_from_block-IsScanLive b m = (
      λ h.
          let (c, k, l) = live_walk-SomeLive _ [] (b ∷ []) h in
          subst IsScanLive (Memᴰ.eq_of_singleton k) l,
      λ l. elim (Bool-cases (is_reg_live_from_block t f b reg)) [
        | inl found ↦ found
        | inr none_found ↦ absurd (
            live_walk-FindsNothing _ [] (b ∷ []) none_found (omega (arith, pending_all f.blocks))
              (λ c k. subst (λ y. Memᴰ y f.blocks) (sym (Memᴰ.eq_of_singleton k)) m)
              (λ c v. absurd (false≢true v)) b (inr (Memᴰ.head refl)) l)
      ],
    )
