-- ===== src/RockClimb/Partition/Retreating.antt =====
-- `retreatingTargets_` of passes/rockclimb-backend/RockClimbMachineOptimizer.cpp: what its two loops mark.
use bao.Prelude.{
  ◌≡◌, sym, inl, inr, true, List, [], ◌∷◌, Bool-cases, contains, insert, contains-insert_self,
  contains-insert_old, Memᴰ,
}
use bao.RockClimb.Machine.{BlockId, MachineFunction}
use bao.RockClimb.Partition.{
  rpo_index, is_retreating, retreating_of, retreating_over, retreating_targets,
}

module _ (f : MachineFunction) where
  retreating_of-keeps :
      (b x : BlockId) (succs targets : List BlockId)
      → contains targets x ≡ true
      → contains (retreating_of f b succs targets) x ≡ true
  unfolding retreating_of
  retreating_of-keeps b x [] targets h = h
  retreating_of-keeps b x (s ∷ ss) targets h =
      elim (Bool-cases (is_retreating (rpo_index f b) (rpo_index f s))) [
        | inl t ↦
            rw (t, retreating_of)
              (retreating_of-keeps b x ss (insert s targets) (contains-insert_old s x targets h))
        | inr e ↦ rw (e, retreating_of) (retreating_of-keeps b x ss targets h)
      ]

  retreating_of-adds :
      (b x : BlockId) (succs targets : List BlockId)
      → Memᴰ x succs
      → is_retreating (rpo_index f b) (rpo_index f x) ≡ true
      → contains (retreating_of f b succs targets) x ≡ true
  unfolding retreating_of
  retreating_of-adds b x [] targets m h = elim m [ ]
  retreating_of-adds b x (s ∷ ss) targets (Memᴰ.head e) h =
      rw (sym e, h, retreating_of)
        (retreating_of-keeps b x ss (insert x targets) (contains-insert_self x targets))
  retreating_of-adds b x (s ∷ ss) targets (Memᴰ.tail m) h = retreating_of-adds b x ss _ m h

  retreating_over-keeps :
      (x : BlockId) (bs targets : List BlockId)
      → contains targets x ≡ true
      → contains (retreating_over f bs targets) x ≡ true
  unfolding retreating_over
  retreating_over-keeps x [] targets h = h
  retreating_over-keeps x (b ∷ bs) targets h =
      retreating_over-keeps x bs _ (retreating_of-keeps b x (f.successors b) targets h)

  retreating_over-adds :
      (b x : BlockId) (bs targets : List BlockId)
      → Memᴰ b bs
      → Memᴰ x (f.successors b)
      → is_retreating (rpo_index f b) (rpo_index f x) ≡ true
      → contains (retreating_over f bs targets) x ≡ true
  unfolding retreating_over
  retreating_over-adds b x [] targets m k h = elim m [ ]
  retreating_over-adds b x (c ∷ cs) targets (Memᴰ.head e) k h =
      rw (sym e, retreating_over)
        (retreating_over-keeps x cs _ (retreating_of-adds b x (f.successors b) targets k h))
  retreating_over-adds b x (c ∷ cs) targets (Memᴰ.tail m) k h = retreating_over-adds b x cs _ m k h

  -- The target of an edge that does not go forward is in the set.
  pub contains-retreating_targets :
      (b x : BlockId)
      → Memᴰ b f.reverse_post_order
      → Memᴰ x (f.successors b)
      → is_retreating (rpo_index f b) (rpo_index f x) ≡ true
      → contains (retreating_targets f) x ≡ true
  unfolding retreating_targets
  contains-retreating_targets b x m k h = retreating_over-adds b x f.reverse_post_order [] m k h
