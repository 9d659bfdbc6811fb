-- ===== src/RockClimb/Distributed/Analysis.antt =====
-- `analyze` of passes/rockclimb-backend/MachineDistributedCheckpointing.cpp.
use mathlib.Core.Bool.{false≢true}
use mathlib.Core.List.Memᴰ
use mathlib.Core.Path.{subst}
use bao.Prelude.{
  ◌-◌, ◌≡◌, ◌↔◌, refl, sym, ◌∙◌, ap, ◌⊎◌, inl, inr, true, Option, some, List, [], ◌∷◌, Bool-cases,
  mem→contains, Memᴰ,
}
use bao.RockClimb.Machine.{BlockId, Reg, MachineFunction, HasSuccessors, Target}
use bao.RockClimb.Liveness.{is_reg_live_from_block}
use bao.RockClimb.Partition.{MachineRegionInfo}
use bao.RockClimb.Distributed.{
  MachineCheckpointPoint, is_checkpointable_reg, pred_block_set, defs_in_preds, save_regs,
  save_regions,
}
use bao.RockClimb.Distributed.Regs.{assign_reg_id_gpr, defs_in_preds_checkpointable}
use bao.RockClimb.Distributed.Saves.{IsLastReaching, find_last_reaching_defs-exact}

module _ (t : Target) (f : MachineFunction) where
  -- A list that a loop returns, with what it adds.
  pub record Adds (o : Option (List MachineCheckpointPoint)) (cs : List MachineCheckpointPoint)
      (P : MachineCheckpointPoint → Type 0) : Type 0 where
    pub found : List MachineCheckpointPoint
    pub returns : o ≡ some found
    pub exact : (c : MachineCheckpointPoint) → Memᴰ c found ↔ Memᴰ c cs ⊎ P c

  -- A save for a register of the list that is live at the start of the region.
  abbrev pub IsSaveOf : List BlockId → BlockId → List Reg → MachineCheckpointPoint → Type 0
  IsSaveOf preds start regs c =
      (reg : Reg) × Memᴰ reg regs
      × (is_reg_live_from_block t f start reg ≡ true)
      × IsLastReaching t reg f preds start (reg - t.r4) c

  save_regs-Adds :
      HasSuccessors f
      → (preds : List BlockId) (start : BlockId) (regs : List Reg)
        (cs : List MachineCheckpointPoint)
      → ((r : Reg) → Memᴰ r regs → is_checkpointable_reg t r ≡ true)
      → Adds (save_regs t f preds start regs cs) cs (IsSaveOf preds start regs)
  unfolding save_regs
  save_regs-Adds within preds start [] cs gpr = record {
    found = cs;
    returns = refl;
    exact =
        λ c. (λ m. inl m, λ o. elim o [ inl m ↦ m | inr (r, m, _, _) ↦ absurd (Memᴰ.not-nil m) ]);
  }
  save_regs-Adds within preds start (r ∷ rs) cs gpr =
      elim (Bool-cases (is_reg_live_from_block t f start r)) [
        | inr dead ↦
            let rest = save_regs-Adds within preds start rs cs (λ x m. gpr x (Memᴰ.tail m)) in
            rw (dead, save_regs)
              (record {
                found = rest.found;
                returns = rest.returns;
                exact = λ c. (
                  λ m. elim ((rest.exact c).0 m) [
                    | inl k ↦ inl k
                    | inr (x, j, l, q) ↦ inr (x, Memᴰ.tail j, l, q)
                  ],
                  λ o. (rest.exact c).1 (elim o [
                    | inl k ↦ inl k
                    | inr (x, j, l, q) ↦ elim (Memᴰ.cases_cons j) [
                      | inl e ↦ absurd (
                          false≢true (sym dead ∙ ap (is_reg_live_from_block t f start) (sym e) ∙ l))
                      | inr j' ↦ inr (x, j', l, q)
                    ]
                  ]),
                );
              })
        | inl live ↦
            let (more, runs, one) =
              find_last_reaching_defs-exact t r f preds start (r - t.r4) cs within
                (assign_reg_id_gpr t r (gpr r (Memᴰ.head refl))) in
            let rest = save_regs-Adds within preds start rs more (λ x m. gpr x (Memᴰ.tail m)) in
            rw (live, runs, save_regs)
              (record {
                found = rest.found;
                returns = rest.returns;
                exact = λ c. (
                  λ m. elim ((rest.exact c).0 m) [
                    | inr (x, j, l, q) ↦ inr (x, Memᴰ.tail j, l, q)
                    | inl k ↦ elim ((one c).0 k) [
                      | inl k' ↦ inl k'
                      | inr q ↦ inr (r, Memᴰ.head refl, live, q)
                    ]
                  ],
                  λ o. (rest.exact c).1 (elim o [
                    | inl k ↦ inl ((one c).1 (inl k))
                    | inr (x, j, l, q) ↦ elim (Memᴰ.cases_cons j) [
                      | inl e ↦ inl (
                          (one c).1
                            (inr (subst (λ y. IsLastReaching t y f preds start (y - t.r4) c) e q)))
                      | inr j' ↦ inr (x, j', l, q)
                    ]
                  ]),
                );
              })
      ]

  abbrev pub preds_of : List BlockId → MachineRegionInfo → List BlockId
  preds_of boundaries r = pred_block_set t f boundaries r.start_block

  -- A save for one of the regions.
  abbrev pub IsSaveIn : List BlockId → List MachineRegionInfo → MachineCheckpointPoint → Type 0
  IsSaveIn boundaries regions c =
      (r : MachineRegionInfo) × Memᴰ r regions
      × IsSaveOf (preds_of boundaries r) r.start_block
          (defs_in_preds t f (preds_of boundaries r) f.blocks []) c

  pub save_regions-Adds :
      HasSuccessors f
      → (boundaries : List BlockId) (regions : List MachineRegionInfo)
        (cs : List MachineCheckpointPoint)
      → Adds (save_regions t f boundaries regions cs) cs (IsSaveIn boundaries regions)
  unfolding save_regions
  save_regions-Adds within boundaries [] cs = record {
    found = cs;
    returns = refl;
    exact = λ c. (λ m. inl m, λ o. elim o [ inl m ↦ m | inr (r, m, _) ↦ absurd (Memᴰ.not-nil m) ]);
  }
  save_regions-Adds within boundaries (r ∷ rs) cs =
      let one =
        save_regs-Adds within (preds_of boundaries r) r.start_block
          (defs_in_preds t f (preds_of boundaries r) f.blocks []) cs
          (λ x m.
            defs_in_preds_checkpointable t f (preds_of boundaries r) x (mem→contains _ x m)) in
      let rest = save_regions-Adds within boundaries rs one.found in
      rw (one.returns, save_regions)
        (record {
          found = rest.found;
          returns = rest.returns;
          exact = λ c. (
            λ m. elim ((rest.exact c).0 m) [
              | inr (x, j, q) ↦ inr (x, Memᴰ.tail j, q)
              | inl k ↦ elim ((one.exact c).0 k) [
                | inl k' ↦ inl k'
                | inr q ↦ inr (r, Memᴰ.head refl, q)
              ]
            ],
            λ o. (rest.exact c).1 (elim o [
              | inl k ↦ inl ((one.exact c).1 (inl k))
              | inr (x, j, q) ↦ elim (Memᴰ.cases_cons j) [
                | inl e ↦ inl (
                    (one.exact c).1 (
                      inr (
                        subst
                          (λ y.
                            IsSaveOf (preds_of boundaries y) y.start_block
                              (defs_in_preds t f (preds_of boundaries y) f.blocks []) c)
                          e q)))
                | inr j' ↦ inr (x, j', q)
              ]
            ]),
          );
        })
