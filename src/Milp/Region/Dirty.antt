-- ===== src/Milp/Region/Dirty.antt =====
-- The dirty and save variables along a region, against what its blocks write.
use mathlib.Core.List.Memᴰ
use bao.Prelude.{
  ℕ, ◌≤◌, ◌≡◌, sym, ap, ◌∙◌, ◌⊎◌, inl, inr, Bool, true, false, ◌&&◌, List, [], ◌∷◌, ◌++◌, Memᴰ,
  ◌==◌, Bool-cases, contains, mem→contains, arith,
}
use bao.Milp.Views.{NodeId, Value, MilpInput}
use bao.Milp.Order.{mem-sort_unique, mem-of_sort_unique}
use bao.Milp.Expr.{Var, region_start, dirty, save}
use bao.Milp.Graph.{is_def, compute_reachable_defs}
use bao.Milp.Graph.Closed.{
  mem-build_predecessor_map, mem-compute_reachable_defs, compute_reachable_defs-edge,
}
use bao.Milp.Model.{
  ordered_vm_objs, ordered_tracked_values, collect_sorted_live_in_values, predecessors, has_dirty,
  placement, any_dirty, keep_if, save_values,
}
use bao.Milp.Region.{IsConsistent, IsFeasible, starts, is_placed, is_written, IsRun}
use bao.Milp.Region.Feasible.{region_start_binary, dirty_ge_def, dirty_ge_pred, save_ge}
use bao.Milp.Region.Costs.{placed_one}

and_left : (p q : Bool) → (p && q) ≡ true → p ≡ true
and_left p q h = ground arith

and_right : (p q : Bool) → (p && q) ≡ true → q ≡ true
and_right p q h = ground arith

mem-of_either : (v : Value) (xs ys : List Value) → Memᴰ v xs ⊎ Memᴰ v ys → Memᴰ v (xs ++ ys)
mem-of_either v xs ys (inl h) = Memᴰ.append_left ys h
mem-of_either v xs ys (inr h) = Memᴰ.append_right xs h

mem-keep_if :
    (test : Value → Bool) (v : Value) (vs : List Value)
    → Memᴰ v vs
    → test v ≡ true
    → Memᴰ v (keep_if test vs)
unfolding keep_if
mem-keep_if test v [] h t = elim h [ ]
mem-keep_if test v (w ∷ ws) (Memᴰ.head e) t = rw (ap test (sym e) ∙ t) (Memᴰ.head e)
mem-keep_if test v (w ∷ ws) (Memᴰ.tail h) t = elim (Bool-cases (test w)) [
  | inl keep ↦ rw keep (Memᴰ.tail (mem-keep_if test v ws h t))
  | inr drop ↦ rw drop (mem-keep_if test v ws h t)
]

module _ (inp : MilpInput) where
  any_dirty-mem :
      (a : NodeId) (bs : List NodeId) (v : Value)
      → Memᴰ a bs
      → has_dirty inp a v ≡ true
      → any_dirty inp bs v ≡ true
  unfolding any_dirty
  any_dirty-mem a [] v h k = elim h [ ]
  any_dirty-mem a (b ∷ bs) v (Memᴰ.head e) k =
      let k' : has_dirty inp b v ≡ true = ap (λ n. has_dirty inp n v) (sym e) ∙ k in rw k'
  any_dirty-mem a (b ∷ bs) v (Memᴰ.tail h) k = ground (arith, any_dirty-mem a bs v h k)

  has_dirty_intro :
      (b : NodeId) (v : Value)
      → Memᴰ b inp.blocks
      → Memᴰ v (ordered_tracked_values inp)
      → contains (compute_reachable_defs inp v) b ≡ true
      → has_dirty inp b v ≡ true
  unfolding has_dirty
  has_dirty_intro b v hb hv hr =
      rw (mem→contains inp.blocks b hb, mem→contains (ordered_tracked_values inp) v hv, hr)

  has_dirty-reach :
      (b : NodeId) (v : Value)
      → has_dirty inp b v ≡ true
      → contains (compute_reachable_defs inp v) b ≡ true
  unfolding has_dirty
  has_dirty-reach b v h = ground arith

module _ (inp : MilpInput) (ok : IsConsistent inp) where
  -- A live-in value is one of the two kinds of tracked values.
  pub live_in_tracked :
      (b : NodeId) (v : Value)
      → Memᴰ v (collect_sorted_live_in_values inp b)
      → Memᴰ v (ordered_vm_objs inp) ⊎ Memᴰ v inp.ineligible_objs
  live_in_tracked b v h =
      elim (Memᴰ.append_cases (inp.elig_live_in b) (mem-of_sort_unique inp.key_lt v _ h)) [
        | inl e ↦ inl (mem-sort_unique inp.key_lt v inp.vm_objs (ok.elig_tracked b v e))
        | inr i ↦ inr (ok.inelig_tracked b v i)
      ]

module _ (inp : MilpInput) (one : ℕ) (x : Var → ℕ) (ok : IsConsistent inp)
    (feasible : IsFeasible inp one x) where
  pub not_started :
      (b : NodeId) → Memᴰ b inp.blocks → starts inp one x b ≡ false → x (region_start b) ≡ 0
  not_started b hb off =
      let scaled = feasible.scaled in
      elim (region_start_binary inp one x feasible b hb) [
        | inl out ↦ out
        | inr within ↦ ground arith
      ]

  pub started :
      (b : NodeId) → Memᴰ b inp.blocks → starts inp one x b ≡ true → x (region_start b) ≡ one
  started b hb on =
      let scaled = feasible.scaled in
      elim (region_start_binary inp one x feasible b hb) [
        | inl out ↦ ground arith
        | inr within ↦ within
      ]

  pub IsRun-mem :
      (cur : NodeId) (past : List NodeId)
      → IsRun inp (starts inp one x) cur past
      → Memᴰ cur inp.blocks
  IsRun-mem cur [] run = run.0
  IsRun-mem cur (a ∷ past) run = ok.dst_block a cur run.0

  abbrev IsDirty : NodeId → Value → Type 0
  IsDirty b v = (has_dirty inp b v ≡ true) × (one ≤ x (dirty b v))

  defined-IsDirty :
      (b : NodeId) (v : Value)
      → Memᴰ b inp.blocks
      → Memᴰ v (ordered_tracked_values inp)
      → is_def inp b v ≡ true
      → IsDirty b v
  defined-IsDirty b v hb hv def =
      let there = has_dirty_intro inp b v hb hv (mem-compute_reachable_defs inp v b hb def) in
      (there, dirty_ge_def inp one x feasible b v hb hv there def)

  -- What the run has written since the region start is dirty at its last block.
  written-IsDirty :
      (cur : NodeId) (past : List NodeId) (v : Value)
      → IsRun inp (starts inp one x) cur past
      → Memᴰ v (ordered_tracked_values inp)
      → is_written inp (cur ∷ past) v ≡ true
      → IsDirty cur v
  unfolding is_written
  written-IsDirty cur [] v run hv w = defined-IsDirty cur v run.0 hv (ground arith)
  written-IsDirty cur (a ∷ past) v (edge, inner, run) hv w = elim (Bool-cases (is_def inp cur v)) [
    | inl def ↦ defined-IsDirty cur v (ok.dst_block a cur edge) hv def
    | inr other ↦
        let (there, full) = written-IsDirty a past v run hv (ground arith) in
        let hb = ok.dst_block a cur edge in
        let reach = compute_reachable_defs-edge inp v a cur (has_dirty-reach inp a v there) edge in
        let here = has_dirty_intro inp cur v hb hv reach in
        let quiet = not_started cur hb inner in
        (here, omega (arith, dirty_ge_pred inp one x feasible a cur v edge hv there here))
  ]

  placed_now :
      (a : NodeId) (v : Value)
      → Memᴰ a inp.blocks
      → Memᴰ v (ordered_vm_objs inp) ⊎ Memᴰ v inp.ineligible_objs
      → is_placed inp one x a v ≡ true
      → (inp.is_ineligible v ≡ true) ⊎ (x (placement inp a v) ≡ one)
  placed_now a v ha (inl obj) p = inr (placed_one inp one x ok feasible a v ha obj p)
  placed_now a v ha (inr i) p = inl (ok.inelig v i)

  -- Each save that is due at a region start is paid by its variable.
  pub save_paid :
      (past : List NodeId) (a b : NodeId) (v : Value)
      → IsRun inp (starts inp one x) a past
      → Memᴰ (a, b) inp.edges
      → x (region_start b) ≡ one
      → Memᴰ v (collect_sorted_live_in_values inp b)
      → (is_written inp (a ∷ past) v && is_placed inp one x a v) ≡ true
      → (any_dirty inp (predecessors inp b) v ≡ true) × (one ≤ x (save b v))
  unfolding save_values
  save_paid past a b v run edge start live due =
      let ha = IsRun-mem a past run in
      let hb = ok.dst_block a b edge in
      let where_from = live_in_tracked inp ok b v live in
      let tracked = mem-sort_unique inp.key_lt v _ (mem-of_either v _ _ where_from) in
      let (there, full) = written-IsDirty a past v run tracked (and_left _ _ due) in
      let some_pred =
        any_dirty-mem inp a (predecessors inp b) v (mem-build_predecessor_map inp.edges a b edge)
          there in
      let other : (b == inp.entry_block) ≡ false =
        (let inner = ok.not_entry a b edge in ground arith) in
      let kept : Memᴰ v (save_values inp b) = rw other (mem-keep_if _ v _ live some_pred) in
      let placed : (inp.is_ineligible v ≡ true) ⊎ (x (placement inp a v) ≡ one) =
        placed_now a v ha where_from (and_right _ _ due) in
      (some_pred, omega (arith, save_ge inp one x feasible a b v edge hb kept there placed))
