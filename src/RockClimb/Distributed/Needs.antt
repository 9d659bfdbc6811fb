-- ===== src/RockClimb/Distributed/Needs.antt =====
-- `needIn` of `findLastReachingDefs`, passes/rockclimb-backend/MachineDistributedCheckpointing.cpp: the
-- rounds come to an end, and the blocks that need the register.
use mathlib.Core.Bool.{false≢true}
use mathlib.Core.List.Memᴰ
use mathlib.Core.Path.{subst}
use bao.Prelude.{
  ℕ, ◌<◌, ◌≡◌, refl, sym, ap, inl, inr, Bool, true, false, not, ◌&&◌, ◌||◌, List, [], ◌∷◌, ◌==◌,
  ==_iff, ==_refl, if◌then◌else◌, Bool-cases, contains, Memᴰ, sum_map, sum_map_lt, arith,
}
use bao.RockClimb.Machine.{BlockId, Reg, MachineInstr, MachineFunction, Target}
use bao.RockClimb.Distributed.{
  MachineCheckpointPoint, is_def_like, reverse_transfer_instr, reverse_transfer_block, need_out,
  new_need_in,
}

module _ (t : Target) (reg : Reg) where
  abbrev pub any_def_like : List MachineInstr → Bool
  any_def_like [] = false
  any_def_like (i ∷ is) = is_def_like t reg i || any_def_like is

  transfer_instr-need :
      (id : ℕ) (start : BlockId) (i : MachineInstr) (s : Bool × List MachineCheckpointPoint)
      → (reverse_transfer_instr t reg id start i s).0 ≡ (s.0 && not (is_def_like t reg i))
  unfolding reverse_transfer_instr
  transfer_instr-need id start i (need, checkpoints) = elim (Bool-cases (is_def_like t reg i)) [
    | inl d ↦ rw (d, reverse_transfer_instr) (ground arith)
    | inr n ↦ rw (n, reverse_transfer_instr) (ground arith)
  ]

  pub reverse_transfer_block-need :
      (id : ℕ) (start : BlockId) (is : List MachineInstr) (s : Bool × List MachineCheckpointPoint)
      → (reverse_transfer_block t reg id start is s).0 ≡ (s.0 && not (any_def_like is))
  unfolding reverse_transfer_block
  reverse_transfer_block-need id start [] s = ground arith
  reverse_transfer_block-need id start (i ∷ is) s = ground (
    arith,
    transfer_instr-need id start i (reverse_transfer_block t reg id start is s),
    reverse_transfer_block-need id start is s,
  )

  module _ (f : MachineFunction) (preds : List BlockId) (start : BlockId) where
    -- From the start of the block a path inside the set leads to the region's start, through blocks
    -- that do not define the register.
    pub data IsNeeded : BlockId → Type 0 where
      at_start : IsNeeded start
      through :
          (b c : BlockId)
          → any_def_like (f.instrs b) ≡ false
          → Memᴰ c (f.successors b)
          → contains preds c ≡ true
          → IsNeeded c
          → IsNeeded b

    -- The same from the end of the block.
    abbrev pub IsNeededAfter : BlockId → Type 0
    IsNeededAfter b =
        (c : BlockId) × Memᴰ c (f.successors b) × (contains preds c ≡ true) × IsNeeded c

    abbrev pub Needs : Type 0
    Needs = BlockId → Bool

    abbrev pub out : Needs → BlockId → Bool
    out s b = need_out t f preds s (f.successors b)

    need_out-mem :
        (s : Needs) (ss : List BlockId)
        → need_out t f preds s ss ≡ true
        → (c : BlockId) × Memᴰ c ss × (contains preds c ≡ true) × (s c ≡ true)
    unfolding need_out
    need_out-mem s [] h = absurd (false≢true h)
    need_out-mem s (c ∷ cs) h = elim (Bool-cases (contains preds c && s c)) [
      | inl e ↦ (c, Memᴰ.head refl, ground arith, ground arith)
      | inr n ↦ let (d, m, k, l) = need_out-mem s cs (rw n at h) in (d, Memᴰ.tail m, k, l)
    ]

    pub mem-need_out :
        (s : Needs) (ss : List BlockId) (c : BlockId)
        → Memᴰ c ss
        → contains preds c ≡ true
        → s c ≡ true
        → need_out t f preds s ss ≡ true
    unfolding need_out
    mem-need_out s [] c m k l = absurd (Memᴰ.not-nil m)
    mem-need_out s (d ∷ ds) c m k l = elim (Memᴰ.cases_cons m) [
      | inl e ↦ ground (arith, ap s e, ap (contains preds) e)
      | inr j ↦ ground (arith, mem-need_out s ds c j k l)
    ]

    abbrev pub IsSound : Needs → Type 0
    IsSound s = (b : BlockId) → s b ≡ true → IsNeeded b

    pub need_out-after : (s : Needs) (b : BlockId) → IsSound s → out s b ≡ true → IsNeededAfter b
    need_out-after s b ok h =
        let (c, m, k, l) = need_out-mem s (f.successors b) h in (c, m, k, ok c l)

    abbrev pub new : Needs → BlockId → Bool
    new s b = new_need_in t f preds reg start s b

    pub new-start : (s : Needs) → new s start ≡ true
    unfolding new_need_in
    new-start s = rw (==_refl start) refl

    pub new-other :
        (s : Needs) (b : BlockId)
        → (b == start) ≡ false
        → new s b ≡ (out s b && not (any_def_like (f.instrs b)))
    unfolding new_need_in
    new-other s b n = rw n (reverse_transfer_block-need 0 start (f.instrs b) (out s b, []))

    pub new_sound : (s : Needs) (b : BlockId) → IsSound s → new s b ≡ true → IsNeeded b
    new_sound s b ok h = elim (Bool-cases (b == start)) [
      | inl e ↦ subst IsNeeded (sym ((==_iff b start).0 e)) at_start
      | inr n ↦
          let (c, m, k, l) = need_out-after s b ok (ground (arith, new-other s b n, h)) in
          through b c (ground (arith, new-other s b n, h)) m k l
    ]

    -- A state that a round does not lower.
    abbrev pub IsRisen : Needs → Type 0
    IsRisen s = (b : BlockId) → s b ≡ true → new s b ≡ true

    abbrev pub IsAbove : Needs → Needs → Type 0
    IsAbove s' s = (b : BlockId) → s b ≡ true → s' b ≡ true

    new_mono : (s s' : Needs) (b : BlockId) → IsAbove s' s → new s b ≡ true → new s' b ≡ true
    new_mono s s' b up h = elim (Bool-cases (b == start)) [
      | inl e ↦ subst (λ x. new s' x ≡ true) (sym ((==_iff b start).0 e)) (new-start s')
      | inr n ↦
          let (c, m, k, l) = need_out-mem s (f.successors b) (ground (arith, new-other s b n, h)) in
          ground (
            arith,
            new-other s b n,
            new-other s' b n,
            h,
            mem-need_out s' (f.successors b) c m k (up c l),
          )
    ]

    abbrev pub unneeded : Needs → ℕ
    unneeded s = sum_map (λ b. if s b then 0 else 1) f.blocks

    abbrev pub put : Needs → BlockId → Needs
    put s b x = if x == b then true else s x

    pub put-IsAbove : (s : Needs) (b : BlockId) → IsAbove (put s b) s
    put-IsAbove s b x h = ground arith

    pub put-IsRisen : (s : Needs) (b : BlockId) → IsRisen s → new s b ≡ true → IsRisen (put s b)
    put-IsRisen s b up h x k = elim (Bool-cases (x == b)) [
      | inl e ↦
          new_mono s (put s b) x (put-IsAbove s b)
            (subst (λ y. new s y ≡ true) (sym ((==_iff x b).0 e)) h)
      | inr n ↦ new_mono s (put s b) x (put-IsAbove s b) (up x (rw n at k))
    ]

    pub put-IsSound : (s : Needs) (b : BlockId) → IsSound s → new s b ≡ true → IsSound (put s b)
    put-IsSound s b ok h x k = elim (Bool-cases (x == b)) [
      | inl e ↦ subst IsNeeded (sym ((==_iff x b).0 e)) (new_sound s b ok h)
      | inr n ↦ ok x (rw n at k)
    ]

    pub put_fewer :
        (s : Needs) (b : BlockId) → Memᴰ b f.blocks → s b ≡ false → unneeded (put s b) < unneeded s
    put_fewer s b m h =
        sum_map_lt (λ x. if put s b x then 0 else 1) (λ x. if s x then 0 else 1) f.blocks b
          (λ x. ground arith) m (rw (==_refl b, h) (omega arith))
