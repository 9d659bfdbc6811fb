-- ===== src/RockClimb/Distributed/Backward.antt =====
-- The backward walk of `analyze`, passes/rockclimb-backend/MachineDistributedCheckpointing.cpp, against
-- the paths to the start of the region.
use mathlib.Core.Bool.{false≢true}
use mathlib.Core.List.Memᴰ
use mathlib.Core.Path.{subst}
use bao.Prelude.{
  ℕ, zero, suc, ◌+◌, ◌≤◌, ◌≡◌, ◌↔◌, refl, sym, ◌∙◌, ap, ◌⊎◌, inl, inr, true, false, List, [], ◌∷◌,
  length, ◌==◌, ==_iff, ==_refl, if◌then◌else◌, Bool-cases, contains, Memᴰ, sum_map, arith,
}
use bao.RockClimb.Machine.{BlockId, MachineFunction, Target}
use bao.RockClimb.Distributed.{push_preds, pred_walk, pred_block_set}

-- The predecessors of a block of the function are blocks of the function.
abbrev pub HasPredecessors : MachineFunction → Type 0
HasPredecessors f = (b c : BlockId) → Memᴰ b f.blocks → Memᴰ c (f.predecessors b) → Memᴰ c f.blocks

module _ (t : Target) (f : MachineFunction) (boundaries : List BlockId) (start : BlockId) where
  -- An edge or a path leads from the block to the region's start, without a boundary in between.
  pub data Precedes : BlockId → Type 0 where
    direct : (b : BlockId) → Memᴰ b (f.predecessors start) → Precedes b
    farther :
        (b c : BlockId)
        → Memᴰ b (f.predecessors c)
        → contains boundaries c ≡ false
        → Precedes c
        → Precedes b

  mem-push_preds :
      (ps work : List BlockId) (x : BlockId)
      → Memᴰ x (push_preds t f ps work) ↔ Memᴰ x ps ⊎ Memᴰ x work
  unfolding push_preds
  mem-push_preds [] work x =
      (λ m. inr m, λ o. elim o [ inl m ↦ absurd (Memᴰ.not-nil m) | inr m ↦ m ])
  mem-push_preds (p ∷ ps) work x =
      let rest = mem-push_preds ps (p ∷ work) x in
      (
        λ m. elim (rest.0 m) [
          | inl k ↦ inl (Memᴰ.tail k)
          | inr k ↦ elim (Memᴰ.cases_cons k) [ inl e ↦ inl (Memᴰ.head e) | inr j ↦ inr j ]
        ],
        λ o. rest.1 (elim o [
          | inl k ↦ elim (Memᴰ.cases_cons k) [ inl e ↦ inr (Memᴰ.head e) | inr j ↦ inl j ]
          | inr k ↦ inr (Memᴰ.tail k)
        ]),
      )

  length-push_preds :
      (ps work : List BlockId) → length (push_preds t f ps work) ≡ length ps + length work
  unfolding push_preds
  length-push_preds [] work = omega arith
  length-push_preds (p ∷ ps) work = omega (arith, length-push_preds ps (p ∷ work))

  -- The predecessors of the blocks that are still to be found.
  abbrev pending : List BlockId → List BlockId → ℕ
  pending [] found = 0
  pending (b ∷ bs) found =
      (if contains found b then 0 else length (f.predecessors b)) + pending bs found

  pending_find_le :
      (bs found : List BlockId) (b : BlockId) → pending bs (b ∷ found) ≤ pending bs found
  unfolding contains
  pending_find_le [] found b = omega arith
  pending_find_le (c ∷ cs) found b = ground (arith, pending_find_le cs found b)

  pending_find :
      (bs found : List BlockId) (b : BlockId)
      → Memᴰ b bs
      → contains found b ≡ false
      → length (f.predecessors b) + pending bs (b ∷ found) ≤ pending bs found
  unfolding contains
  pending_find [] found b m n = elim m [ ]
  pending_find (c ∷ cs) found b (Memᴰ.head e) n =
      rw (sym e, n, ==_refl b) (omega (arith, pending_find_le cs found b))
  pending_find (c ∷ cs) found b (Memᴰ.tail m) n = ground (arith, pending_find cs found b m n)

  pending-le :
      (bs found : List BlockId) → pending bs found ≤ sum_map (λ b. length (f.predecessors b)) bs
  pending-le [] found = omega arith
  pending-le (b ∷ bs) found = ground (arith, pending-le bs found)

  -- What the walk keeps: the found and the waiting blocks come before the start, the waiting blocks
  -- are blocks of the function, and the predecessors of a found block wait or are found.
  record Walking (found work : List BlockId) : Type 0 where
    begun : contains found start ≡ true
    within : (b : BlockId) → Memᴰ b work → Memᴰ b f.blocks
    waits : (b : BlockId) → Memᴰ b work → Precedes b
    founds : (b : BlockId) → contains found b ≡ true → (b ≡ start) ⊎ Precedes b
    first : (b : BlockId) → Memᴰ b (f.predecessors start) → (contains found b ≡ true) ⊎ Memᴰ b work
    closed :
        (b c : BlockId)
        → contains found c ≡ true
        → contains boundaries c ≡ false
        → Memᴰ b (f.predecessors c)
        → (contains found b ≡ true) ⊎ Memᴰ b work

  module _ (inside : HasPredecessors f) (bounded : contains boundaries start ≡ true) where
    Walking-pop :
        (found work : List BlockId) (b : BlockId)
        → contains found b ≡ true
        → Walking found (b ∷ work)
        → Walking found work
    Walking-pop found work b old w = record {
      begun = w.begun;
      within = λ c m. w.within c (Memᴰ.tail m);
      waits = λ c m. w.waits c (Memᴰ.tail m);
      founds = w.founds;
      first = λ c m. drop_head c (w.first c m);
      closed = λ x c h n m. drop_head x (w.closed x c h n m);
    }
      where
        drop_head :
            (c : BlockId)
            → (contains found c ≡ true) ⊎ Memᴰ c (b ∷ work)
            → (contains found c ≡ true) ⊎ Memᴰ c work
        drop_head c (inl h) = inl h
        drop_head c (inr m) = elim (Memᴰ.cases_cons m) [
          | inl e ↦ inl (ap (contains found) e ∙ old)
          | inr k ↦ inr k
        ]

    -- A new block: `more` are its predecessors, or none where it is a boundary.
    Walking-find :
        (found work more : List BlockId) (b : BlockId)
        → ((c : BlockId)
            → Memᴰ c more
              ↔ Memᴰ c work ⊎ (contains boundaries b ≡ false) × Memᴰ c (f.predecessors b))
        → Walking found (b ∷ work)
        → Walking (b ∷ found) more
    unfolding contains
    Walking-find found work more b added w = record {
      begun = ground (arith, w.begun);
      within = λ c m. elim ((added c).0 m) [
        | inl k ↦ w.within c (Memᴰ.tail k)
        | inr (n, k) ↦ inside b c (w.within b (Memᴰ.head refl)) k
      ];
      waits = λ c m. elim ((added c).0 m) [
        | inl k ↦ w.waits c (Memᴰ.tail k)
        | inr (n, k) ↦ farther c b k n (w.waits b (Memᴰ.head refl))
      ];
      founds = λ c h. elim (Bool-cases (c == b)) [
        | inl e ↦ inr (subst Precedes (sym ((==_iff c b).0 e)) (w.waits b (Memᴰ.head refl)))
        | inr n ↦ w.founds c (rw n at h)
      ];
      first = λ c m. move c (w.first c m);
      closed = λ x c h n m. elim (Bool-cases (c == b)) [
        | inl e ↦
            let same = (==_iff c b).0 e in
            inr (
              (added x).1 (
                inr (
                  ap (contains boundaries) (sym same) ∙ n,
                  subst (λ y. Memᴰ x (f.predecessors y)) same m,
                )))
        | inr o ↦ move x (w.closed x c (rw o at h) n m)
      ];
    }
      where
        move :
            (c : BlockId)
            → (contains found c ≡ true) ⊎ Memᴰ c (b ∷ work)
            → (contains (b ∷ found) c ≡ true) ⊎ Memᴰ c more
        move c (inl h) = inl (ground (arith, h))
        move c (inr m) = elim (Memᴰ.cases_cons m) [
          | inl e ↦ inl (ground (arith, ==_iff c b, e))
          | inr k ↦ inr ((added c).1 (inl k))
        ]

    pred_walk-Walking :
        (fuel : ℕ) (found work : List BlockId)
        → length work + pending f.blocks found ≤ fuel
        → Walking found work
        → Walking (pred_walk t f boundaries fuel found work) []
    unfolding pred_walk
    pred_walk-Walking zero found [] enough w = w
    pred_walk-Walking zero found (b ∷ work) enough w = absurd (omega arith)
    pred_walk-Walking (suc fuel) found [] enough w = w
    pred_walk-Walking (suc fuel) found (b ∷ work) enough w = elim (Bool-cases (contains found b)) [
      | inl old ↦
          rw (old, pred_walk)
            (pred_walk-Walking fuel found work (omega arith) (Walking-pop found work b old w))
      | inr new ↦
          let less = pending_find f.blocks found b (w.within b (Memᴰ.head refl)) new in
          elim (Bool-cases (contains boundaries b)) [
            | inl stop ↦
                rw (new, stop, pred_walk)
                  (pred_walk-Walking fuel (b ∷ found) work (omega arith) (
                    Walking-find found work work b
                      (λ c. (
                        λ m. inl m,
                        λ o. elim o [ inl m ↦ m | inr (n, m) ↦ absurd (false≢true (sym n ∙ stop)) ],
                      ))
                      w))
            | inr go ↦
                rw (new, go, pred_walk)
                  (pred_walk-Walking fuel (b ∷ found) (push_preds t f (f.predecessors b) work)
                    (omega (arith, length-push_preds (f.predecessors b) work))
                    (Walking-find found work (push_preds t f (f.predecessors b) work) b
                      (λ c.
                        let into = mem-push_preds (f.predecessors b) work c in
                        (
                          λ m. elim (into.0 m) [ inl k ↦ inr (go, k) | inr k ↦ inl k ],
                          λ o. into.1 (elim o [ inl k ↦ inr k | inr (n, k) ↦ inl k ]),
                        ))
                      w))
          ]
    ]

    Precedes-found :
        (found : List BlockId)
        → Walking found []
        → (b : BlockId) → Precedes b
        → contains found b ≡ true
    Precedes-found found w b (direct _ m) = elim (w.first b m) [
      | inl h ↦ h
      | inr k ↦ absurd (Memᴰ.not-nil k)
    ]
    Precedes-found found w b (farther _ c m n p) =
        elim (w.closed b c (Precedes-found found w c p) n m) [
          | inl h ↦ h
          | inr k ↦ absurd (Memᴰ.not-nil k)
        ]

    -- Where the predecessors of the function's blocks are its blocks, and the start of the region is
    -- a block of it and a boundary, the walk finds exactly the start and the blocks from which a
    -- path leads to it without a boundary between its ends.
    pub pred_block_set_iff :
        (b : BlockId)
        → Memᴰ start f.blocks
        → (contains (pred_block_set t f boundaries start) b ≡ true) ↔ (b ≡ start) ⊎ Precedes b
    unfolding pred_block_set contains
    pred_block_set_iff b known =
        let into = λ (c : BlockId). mem-push_preds (f.predecessors start) [] c in
        let w =
          pred_walk-Walking _ (start ∷ []) (push_preds t f (f.predecessors start) [])
            (omega (
              arith,
              length-push_preds (f.predecessors start) [],
              pending-le f.blocks (start ∷ []),
            ))
            (record {
              begun = ground (arith, ==_refl start);
              within = λ c m. elim ((into c).0 m) [
                | inl k ↦ inside start c known k
                | inr k ↦ absurd (Memᴰ.not-nil k)
              ];
              waits = λ c m. elim ((into c).0 m) [
                | inl k ↦ direct c k
                | inr k ↦ absurd (Memᴰ.not-nil k)
              ];
              founds = λ c h. inl (ground (arith, ==_iff c start, h));
              first = λ c m. inr ((into c).1 (inl m));
              closed = λ x c h n m. absurd (
                  false≢true (
                    sym n
                    ∙ ap (contains boundaries) (ground (arith, ==_iff c start, h))
                    ∙ bounded));
            }) in
        (
          w.founds b,
          λ o. elim o [
            | inl e ↦ ap (contains (pred_block_set t f boundaries start)) e ∙ w.begun
            | inr p ↦ Precedes-found _ w b p
          ],
        )
