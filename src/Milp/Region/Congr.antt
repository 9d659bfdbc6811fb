-- ===== src/Milp/Region/Congr.antt =====
-- Runs and costs depend on the region starts and placements at the blocks alone.
use bao.Prelude.{
  ◌+◌, ◌≡◌, sym, ap, ◌∙◌, ◌⊎◌, inl, Bool, ◌&&◌, List, [], ◌∷◌, Memᴰ, if◌then◌else◌, sum_map,
  sum_map_congr, arith,
}
use bao.Milp.Views.{NodeId, Value, MilpInput}
use bao.Milp.Order.{sort_unique, mem-sort_unique, mem-of_sort_unique}
use bao.Milp.Model.{ordered_vm_objs, need_restore_values, collect_sorted_live_in_values}
use bao.Milp.Region.{IsConsistent, start_cost, block_cost, end_cost, is_written, IsRun, spent}
use bao.Milp.Region.Dirty.{live_in_tracked}

module _ (inp : MilpInput) (ok : IsConsistent inp) where
  pub IsRun-congr :
      (f g : NodeId → Bool)
      → ((b : NodeId) → Memᴰ b inp.blocks → f b ≡ g b)
      → (cur : NodeId) (past : List NodeId) → IsRun inp f cur past
      → IsRun inp g cur past
  IsRun-congr f g same cur [] (h, on) = (h, sym (same cur h) ∙ on)
  IsRun-congr f g same cur (a ∷ past) (edge, off, run) =
      (edge, sym (same cur (ok.dst_block a cur edge)) ∙ off, IsRun-congr f g same a past run)

  module _ (p q : NodeId → Value → Bool)
      (same : (b : NodeId) (v : Value)
        → Memᴰ b inp.blocks
        → Memᴰ v (ordered_vm_objs inp) ⊎ Memᴰ v inp.ineligible_objs
        → p b v ≡ q b v) where
    start_cost_congr : (b : NodeId) → Memᴰ b inp.blocks → start_cost inp p b ≡ start_cost inp q b
    unfolding start_cost
    start_cost_congr b hb =
        ap
          (λ t.
            inp.params.e_pro
            + t
            + sum_map inp.e_restore (sort_unique inp.key_lt (inp.inelig_live_in b)))
          (sum_map_congr (λ v. if p b v then inp.e_restore v else 0)
            (λ v. if q b v then inp.e_restore v else 0) (need_restore_values inp b)
            (λ v h.
              ap (λ t. if t then inp.e_restore v else 0)
                (same b v hb (
                  inl (
                    mem-sort_unique inp.key_lt v inp.vm_objs
                      (ok.elig_tracked b v (mem-of_sort_unique inp.key_lt v _ h)))))))

    pub block_cost_congr :
        (b : NodeId) → Memᴰ b inp.blocks → block_cost inp p b ≡ block_cost inp q b
    unfolding block_cost
    block_cost_congr b hb =
        ap (λ t. inp.e_base b + t)
          (sum_map_congr (λ v. if p b v then 0 else inp.e_nvm b v)
            (λ v. if q b v then 0 else inp.e_nvm b v) (ordered_vm_objs inp)
            (λ v h. ap (λ t. if t then 0 else inp.e_nvm b v) (same b v hb (inl h))))

    pub end_cost_congr :
        (run : List NodeId) (a b : NodeId)
        → Memᴰ a inp.blocks
        → end_cost inp p run a b ≡ end_cost inp q run a b
    unfolding end_cost
    end_cost_congr run a b ha =
        ap (λ t. inp.params.e_epi + t)
          (sum_map_congr (λ v. if is_written inp run v && p a v then inp.e_save v else 0)
            (λ v. if is_written inp run v && q a v then inp.e_save v else 0)
            (collect_sorted_live_in_values inp b)
            (λ v h.
              ap (λ t. if is_written inp run v && t then inp.e_save v else 0)
                (same a v ha (live_in_tracked inp ok b v h))))

    pub spent_congr :
        (start : NodeId → Bool) (cur : NodeId) (past : List NodeId)
        → IsRun inp start cur past
        → spent inp p cur past ≡ spent inp q cur past
    unfolding spent
    spent_congr start cur [] (h, on) = omega (arith, start_cost_congr cur h)
    spent_congr start cur (a ∷ past) (edge, off, run) =
        omega (arith, spent_congr start a past run, block_cost_congr a (ok.src_block a cur edge))
