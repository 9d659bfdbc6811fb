-- ===== src/RockClimb/Partition/Headers.antt =====
-- `identifyLoopHeaders` of passes/rockclimb-backend/RockClimbMachineOptimizer.cpp against the loops
-- of the function.
use mathlib.Core.Path.{subst}
use mathlib.Core.Bool.{false≢true}
use mathlib.Core.Option.{some-injective, none-ne-some}
use bao.Prelude.{
  ℕ, zero, suc, ◌+◌, ◌<◌, ◌≡◌, refl, sym, ap, ◌⊎◌, inl, inr, ◌↔◌, true, Option, none, some, List,
  [], ◌∷◌, ◌++◌, contains, insert, contains-insert_self, contains-insert_old, contains-insert_cases,
  sum_map, sum_map-append, arith,
}
use bao.RockClimb.Machine.{
  BlockId, MachineLoop, MachineLoops, loop, no_loops, and_loop, MachineFunction,
}
use bao.RockClimb.Partition.{
  insert_some, push_sub_loops, count_loop, count_loops, headers_of_queue, headers_of_loops,
  identify_loop_headers,
}

module _ (b : BlockId) where
  -- The block is the header of the loop or of one inside it.
  mutual
    pub data IsHeaderIn : MachineLoop → Type 0 where
      own : (subs : MachineLoops) → IsHeaderIn (loop (some b) subs)
      inner :
          (h : Option BlockId) (subs : MachineLoops) → IsHeaderAmong subs → IsHeaderIn (loop h subs)

    pub data IsHeaderAmong : MachineLoops → Type 0 where
      first : (l : MachineLoop) (ls : MachineLoops) → IsHeaderIn l → IsHeaderAmong (and_loop l ls)
      later :
          (l : MachineLoop) (ls : MachineLoops) → IsHeaderAmong ls → IsHeaderAmong (and_loop l ls)

  abbrev InQueue : List MachineLoop → Type 0
  InQueue [] = ⊥
  InQueue (l ∷ q) = IsHeaderIn l ⊎ InQueue q

  InQueue-append :
      (q : List MachineLoop) (l : MachineLoop) → InQueue (q ++ l ∷ []) ↔ InQueue q ⊎ IsHeaderIn l
  InQueue-append [] l = ground arith
  InQueue-append (k ∷ q) l = ground (arith, InQueue-append q l)

  among_cons :
      (l : MachineLoop) (ls : MachineLoops)
      → IsHeaderAmong (and_loop l ls) ↔ IsHeaderIn l ⊎ IsHeaderAmong ls
  among_cons l ls = (split, λ h. elim h [ inl a ↦ first l ls a | inr a ↦ later l ls a ])
    where
      split : IsHeaderAmong (and_loop l ls) → IsHeaderIn l ⊎ IsHeaderAmong ls
      split (first _ _ h) = inl h
      split (later _ _ h) = inr h

  in_loop :
      (h : Option BlockId) (subs : MachineLoops)
      → IsHeaderIn (loop h subs) ↔ (h ≡ some b) ⊎ IsHeaderAmong subs
  in_loop h subs = (
    split h,
    λ o. elim o [
      | inl e ↦ subst (λ x. IsHeaderIn (loop x subs)) (sym e) (own subs)
      | inr a ↦ inner h subs a
    ],
  )
    where
      split : (h : Option BlockId) → IsHeaderIn (loop h subs) → (h ≡ some b) ⊎ IsHeaderAmong subs
      split (some _) (own _) = inl refl
      split h (inner _ _ a) = inr a

  not_among : ¬ IsHeaderAmong no_loops
  not_among h = elim h [ ]

  InQueue-push_sub_loops :
      (q : List MachineLoop) (ls : MachineLoops)
      → InQueue (push_sub_loops q ls) ↔ InQueue q ⊎ IsHeaderAmong ls
  InQueue-push_sub_loops q no_loops = ground (arith, not_among)
  InQueue-push_sub_loops q (and_loop l ls) =
      ground (arith, InQueue-push_sub_loops (q ++ l ∷ []) ls, InQueue-append q l, among_cons l ls)

  insert_some_iff :
      (h : Option BlockId) (hs : List BlockId)
      → (contains (insert_some h hs) b ≡ true) ↔ (h ≡ some b) ⊎ (contains hs b ≡ true)
  insert_some_iff none hs =
      (λ k. inr k, λ o. elim o [ inl e ↦ absurd (none-ne-some b e) | inr k ↦ k ])
  insert_some_iff (some c) hs = (
    λ k. elim (contains-insert_cases c b hs k) [ inl e ↦ inl (ap some (sym e)) | inr o ↦ inr o ],
    λ o. elim o [
      | inl e ↦
          subst (λ x. contains (insert x hs) b ≡ true) (sym (some-injective c b e))
            (contains-insert_self b hs)
      | inr k ↦ contains-insert_old c b hs k
    ],
  )

  count-push_sub_loops :
      (q : List MachineLoop) (ls : MachineLoops)
      → sum_map count_loop (push_sub_loops q ls) ≡ sum_map count_loop q + count_loops ls
  unfolding count_loop
  count-push_sub_loops q no_loops = omega arith
  count-push_sub_loops q (and_loop l ls) =
      omega (arith, count-push_sub_loops (q ++ l ∷ []) ls, sum_map-append count_loop q (l ∷ []))

  headers_of_queue_iff :
      (fuel : ℕ) (q : List MachineLoop) (hs : List BlockId)
      → sum_map count_loop q < fuel
      → (contains (headers_of_queue fuel q hs) b ≡ true) ↔ (contains hs b ≡ true) ⊎ InQueue q
  unfolding headers_of_queue count_loop
  headers_of_queue_iff zero q hs enough = absurd (omega arith)
  headers_of_queue_iff (suc fuel) [] hs enough = ground arith
  headers_of_queue_iff (suc fuel) (loop h subs ∷ q) hs enough = ground (
    arith,
    headers_of_queue_iff fuel (push_sub_loops q subs) (insert_some h hs)
        (omega (arith, count-push_sub_loops q subs)),
    insert_some_iff h hs,
    InQueue-push_sub_loops q subs,
    in_loop h subs,
  )

  headers_of_loops_iff :
      (ls : MachineLoops) (hs : List BlockId)
      → (contains (headers_of_loops ls hs) b ≡ true) ↔ (contains hs b ≡ true) ⊎ IsHeaderAmong ls
  unfolding headers_of_loops
  headers_of_loops_iff no_loops hs = ground (arith, not_among)
  headers_of_loops_iff (and_loop l ls) hs = ground (
    arith,
    headers_of_loops_iff ls (headers_of_queue (suc (count_loop l)) (l ∷ []) hs),
    headers_of_queue_iff (suc (count_loop l)) (l ∷ []) hs (omega arith),
    among_cons l ls,
  )

-- A block is among the loop headers exactly when it is the header of a loop of the function, at any
-- depth: the queue never runs out of rounds.
pub identify_loop_headers_iff :
    (f : MachineFunction) (b : BlockId)
    → (contains (identify_loop_headers f) b ≡ true) ↔ IsHeaderAmong b f.loops
unfolding identify_loop_headers contains
identify_loop_headers_iff f b = ground (arith, headers_of_loops_iff b f.loops [], false≢true)
