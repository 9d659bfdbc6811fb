-- ===== src/Milp/Region/Costs.antt =====
-- What the model's expressions are worth under a feasible assignment, against the costs of the run.
use bao.Prelude.{
  ℕ, ◌+◌, ◌*◌, ◌≤◌, ◌≡◌, refl, ap, ◌⊎◌, inl, inr, Bool, true, false, ◌&&◌, List, [], ◌∷◌, Memᴰ, ltb,
  ◌==◌, ==_iff, if◌then◌else◌, Bool-cases, sum_map, arith,
}
use bao.Milp.Views.{NodeId, Value, MilpInput}
use bao.Milp.Order.{sort_unique, mem-sort_unique, mem-of_sort_unique}
use bao.Milp.Expr.{
  Var, region_start, need_restore, save, LinExpr, constant, term, ◌plus◌, ◌minus◌, added, taken,
  expr_laws,
}
use bao.Milp.Model.{
  ordered_vm_objs, need_restore_values, collect_sorted_live_in_values, save_values, keep_if,
  placement, any_dirty, predecessors, add_costs, e_blk_over, build_e_blk, build_e_start,
  build_e_end,
}
use bao.Milp.Region.Feasible.{placement_binary, need_restore_ge}
use bao.Milp.Region.{
  IsConsistent, IsFeasible, is_set, is_placed, is_written, start_cost, block_cost, end_cost,
}

module _ (one : ℕ) (x : Var → ℕ) where
  module _ (inp : MilpInput) (cost : Value → ℕ) (y : Value → Var) where
    pub added-add_costs :
        (expr : LinExpr) (vs : List Value)
        → added one x (add_costs inp cost y expr vs)
          ≡ added one x expr + sum_map (λ v. cost v * x (y v)) vs
    unfolding add_costs
    added-add_costs expr [] = omega arith
    added-add_costs expr (v ∷ vs) = elim (Bool-cases (ltb 0 (cost v))) [
      | inl t ↦
          rw t
            (omega (arith, simp expr_laws at (added-add_costs (expr plus term (cost v) (y v)) vs)))
      | inr f ↦
          let none : cost v ≡ 0 = ground arith in
          rw f (omega (arith, added-add_costs expr vs, ap (λ k. k * x (y v)) none))
    ]

    pub taken-add_costs :
        (expr : LinExpr) (vs : List Value)
        → taken one x (add_costs inp cost y expr vs) ≡ taken one x expr
    unfolding add_costs
    taken-add_costs expr [] = refl
    taken-add_costs expr (v ∷ vs) = elim (Bool-cases (ltb 0 (cost v))) [
      | inl t ↦
          rw t
            (omega (arith, simp expr_laws at (taken-add_costs (expr plus term (cost v) (y v)) vs)))
      | inr f ↦ rw f (taken-add_costs expr vs)
    ]

  -- A variable that is 1 wherever the cost is due pays for it.
  pub sum_due-le :
      (due : Value → Bool) (cost : Value → ℕ) (y : Value → Var) (vs : List Value)
      → ((v : Value) → Memᴰ v vs → due v ≡ true → one ≤ x (y v))
      → one * sum_map (λ v. if due v then cost v else 0) vs ≤ sum_map (λ v. cost v * x (y v)) vs
  sum_due-le due cost y [] h = omega arith
  sum_due-le due cost y (v ∷ vs) h =
      let ih = sum_due-le due cost y vs (λ w k. h w (Memᴰ.tail k)) in
      elim (Bool-cases (due v)) [
        | inl t ↦
            let paid : cost v * one ≤ cost v * x (y v) =
              (let p = h v (Memᴰ.head refl) t in grind arith) in
            rw t (omega arith)
        | inr f ↦ rw f (omega arith)
      ]

  -- The same where the loop skips values for which nothing is due.
  sum_kept-le :
      (test due : Value → Bool) (cost : Value → ℕ) (y : Value → Var) (vs : List Value)
      → ((v : Value) → Memᴰ v vs → due v ≡ true → (test v ≡ true) × (one ≤ x (y v)))
      → one * sum_map (λ v. if due v then cost v else 0) vs
        ≤ sum_map (λ v. cost v * x (y v)) (keep_if test vs)
  unfolding keep_if
  sum_kept-le test due cost y [] h = omega arith
  sum_kept-le test due cost y (v ∷ vs) h =
      let ih = sum_kept-le test due cost y vs (λ w k. h w (Memᴰ.tail k)) in
      elim (Bool-cases (due v)) [
        | inl t ↦
            let (kept, pays) = h v (Memᴰ.head refl) t in
            let paid : cost v * one ≤ cost v * x (y v) = grind arith in rw (t, kept) (omega arith)
        | inr f ↦ elim (Bool-cases (test v)) [
          | inl kept ↦ rw (f, kept) (omega arith)
          | inr skipped ↦ rw (f, skipped) (omega arith)
        ]
      ]

  -- A block's energy: the penalties that placement saves are subtracted.
  module _ (inp : MilpInput) (b : NodeId) where
    abbrev penalty : Value → ℕ
    penalty v = if is_placed inp one x b v then 0 else inp.e_nvm b v

    abbrev IsDecided : Value → Type 0
    IsDecided v = (x (placement inp b v) ≡ 0) ⊎ (x (placement inp b v) ≡ one)

    -- What one value adds to the block's expression.
    penalty_value :
        (v : Value)
        → 1 ≤ one
        → inp.is_ineligible v ≡ false
        → IsDecided v
        → inp.e_nvm b v * one ≡ inp.e_nvm b v * x (placement inp b v) + one * penalty v
    penalty_value v scaled elig decided =
        let k = inp.e_nvm b v in
        elim decided [
          | inl out ↦
              let off : is_set one x (placement inp b v) ≡ false = ground arith in
              rw (elig, off) (omega (arith, ap (λ t. k * t) out))
          | inr within ↦
              let on : is_set one x (placement inp b v) ≡ true = ground arith in
              rw (elig, on) (omega (arith, ap (λ t. k * t) within))
        ]

    e_blk_over_value :
        1 ≤ one
        → (expr : LinExpr) (vs : List Value)
        → ((v : Value) → Memᴰ v vs → (inp.is_ineligible v ≡ false) × IsDecided v)
        → added one x (e_blk_over inp b expr vs) + taken one x expr
          ≡ taken one x (e_blk_over inp b expr vs) + added one x expr + one * sum_map penalty vs
    unfolding e_blk_over
    e_blk_over_value scaled expr [] h = omega arith
    e_blk_over_value scaled expr (v ∷ vs) h =
        let k = inp.e_nvm b v in
        let (elig, decided) = h v (Memᴰ.head refl) in
        let here = penalty_value v scaled elig decided in
        let rest : (w : Value) → Memᴰ w vs → (inp.is_ineligible w ≡ false) × IsDecided w =
          λ w m. h w (Memᴰ.tail m) in
        elim (Bool-cases (inp.e_nvm b v == 0)) [
          | inl zero_cost ↦
              let k0 = (==_iff k 0).0 zero_cost in
              rw zero_cost (
                omega (
                  arith,
                  e_blk_over_value scaled expr vs rest,
                  here,
                  ap (λ t. t * one) k0,
                  ap (λ t. t * x (placement inp b v)) k0,
                ))
          | inr cost ↦ rw cost (
              omega (
                arith,
                here,
                simp expr_laws at (
                    e_blk_over_value scaled (expr plus constant k minus term k (placement inp b v))
                      vs rest),
              ))
        ]

module _ (inp : MilpInput) (one : ℕ) (x : Var → ℕ) (ok : IsConsistent inp)
    (feasible : IsFeasible inp one x) where
  vm_obj_elig : (v : Value) → Memᴰ v (ordered_vm_objs inp) → inp.is_ineligible v ≡ false
  vm_obj_elig v h = ok.elig v (mem-of_sort_unique inp.key_lt v inp.vm_objs h)

  -- E_blk is the energy that the block takes.
  pub build_e_blk_value :
      (b : NodeId)
      → Memᴰ b inp.blocks
      → added one x (build_e_blk inp b)
        ≡ taken one x (build_e_blk inp b) + one * block_cost inp (is_placed inp one x) b
  unfolding build_e_blk block_cost
  build_e_blk_value b hb =
      let value =
        e_blk_over_value one x inp b feasible.scaled (constant (inp.e_base b)) (ordered_vm_objs inp)
          (λ v h.
            let elig = vm_obj_elig v h in
            (elig, placement_binary inp one x feasible b v hb h elig)) in
      omega (arith, simp expr_laws at value)

  -- A placed eligible value has its placement variable set.
  pub placed_one :
      (b : NodeId) (v : Value)
      → Memᴰ b inp.blocks
      → Memᴰ v (ordered_vm_objs inp)
      → is_placed inp one x b v ≡ true
      → x (placement inp b v) ≡ one
  placed_one b v hb hv p =
      let elig = vm_obj_elig v hv in
      let scaled = feasible.scaled in
      elim (placement_binary inp one x feasible b v hb hv elig) [
        | inl out ↦ ground (arith, elig)
        | inr within ↦ within
      ]

  restore_paid :
      (b : NodeId) (v : Value)
      → Memᴰ b inp.blocks
      → x (region_start b) ≡ one
      → Memᴰ v (need_restore_values inp b)
      → is_placed inp one x b v ≡ true
      → one ≤ x (need_restore b v)
  restore_paid b v hb start h p =
      let live = mem-of_sort_unique inp.key_lt v (inp.elig_live_in b) h in
      let obj = mem-sort_unique inp.key_lt v inp.vm_objs (ok.elig_tracked b v live) in
      omega (arith, placed_one b v hb obj p, need_restore_ge inp one x feasible b v hb h)

  -- At a region start E_start pays for the prologue and the copies.
  pub build_e_start_value :
      (b : NodeId)
      → Memᴰ b inp.blocks
      → x (region_start b) ≡ one
      → one * start_cost inp (is_placed inp one x) b + taken one x (build_e_start inp b)
        ≤ added one x (build_e_start inp b)
  unfolding build_e_start start_cost
  build_e_start_value b hb start =
      let pro = inp.params.e_pro in
      let rst = inp.e_restore in
      let seed = term pro (region_start b) in
      let inner = add_costs inp rst (need_restore b) seed (need_restore_values inp b) in
      let fixed = sort_unique inp.key_lt (inp.inelig_live_in b) in
      omega (
        arith,
        added-add_costs one x inp rst (λ v. region_start b) inner fixed,
        taken-add_costs one x inp rst (λ v. region_start b) inner fixed,
        simp expr_laws at
            (added-add_costs one x inp rst (need_restore b) seed (need_restore_values inp b)),
        simp expr_laws at
            (taken-add_costs one x inp rst (need_restore b) seed (need_restore_values inp b)),
        ap (λ t. pro * t) start,
        sum_due-le one x (is_placed inp one x b) rst (need_restore b) (need_restore_values inp b)
            (λ v h p. restore_paid b v hb start h p),
        sum_due-le one x (λ v. true) rst (λ v. region_start b) fixed (λ v h p. omega arith),
      )

  -- At a region start E_end pays for the epilogue and the saves that are due.
  pub build_e_end_value :
      (run : List NodeId) (a b : NodeId)
      → ¬ (b ≡ inp.entry_block)
      → x (region_start b) ≡ one
      → ((v : Value)
          → Memᴰ v (collect_sorted_live_in_values inp b)
          → (is_written inp run v && is_placed inp one x a v) ≡ true
          → (any_dirty inp (predecessors inp b) v ≡ true) × (one ≤ x (save b v)))
      → one * end_cost inp (is_placed inp one x) run a b + taken one x (build_e_end inp b)
        ≤ added one x (build_e_end inp b)
  unfolding build_e_end end_cost save_values
  build_e_end_value run a b inner start saved =
      let epi = inp.params.e_epi in
      let seed = term epi (region_start b) in
      let live = collect_sorted_live_in_values inp b in
      let test : Value → Bool = any_dirty inp (predecessors inp b) in
      let other : (b == inp.entry_block) ≡ false = ground arith in
      rw other (
        omega (
          arith,
          simp expr_laws at
              (added-add_costs one x inp inp.e_save (save b) seed (keep_if test live)),
          simp expr_laws at
              (taken-add_costs one x inp inp.e_save (save b) seed (keep_if test live)),
          ap (λ t. epi * t) start,
          sum_kept-le one x test (λ v. is_written inp run v && is_placed inp one x a v) inp.e_save
              (save b) live saved,
        ))
