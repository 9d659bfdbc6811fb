-- ===== src/RockClimb/Distributed/Fixpoint.antt =====
-- The loop of `findLastReachingDefs`, passes/rockclimb-backend/MachineDistributedCheckpointing.cpp.
use mathlib.Core.Bool.{false≢true}
use mathlib.Core.List.Memᴰ
use mathlib.Core.Path.{subst}
use bao.Prelude.{
  ℕ, zero, suc, ◌≤◌, ◌<◌, ◌≡◌, refl, sym, ◌∙◌, ap, ◌⊎◌, inl, inr, Bool, true, false, ◌&&◌, Option,
  some, List, [], ◌∷◌, length, ◌==◌, ==_iff, Bool-cases, contains, Memᴰ, sum_map_bound, arith,
}
use bao.RockClimb.Machine.{BlockId, Reg, MachineFunction, HasSuccessors, Target}
use bao.RockClimb.Distributed.{differs, need_round, need_rounds, need_fixpoint}
use bao.RockClimb.Distributed.Needs.{
  IsNeeded, at_start, through, Needs, mem-need_out, IsSound, new, new-start, new-other, IsRisen,
  unneeded, put, put-IsRisen, put-IsSound, put_fewer,
}

module _ (t : Target) (reg : Reg) (f : MachineFunction) (preds : List BlockId)
    (start : BlockId) where
  abbrev run : List BlockId → Needs t reg f preds start × Bool → Needs t reg f preds start × Bool
  run bs s = need_round t f preds reg start bs s

  -- The blocks whose value is what the round would compute.
  abbrev IsStable : List BlockId → Needs t reg f preds start → Type 0
  IsStable bs s =
      (b : BlockId) → Memᴰ b bs → contains preds b ≡ true → s b ≡ new t reg f preds start s b

  record Rounded (bs : List BlockId) (s : Needs t reg f preds start) (ch : Bool)
      (o : Needs t reg f preds start × Bool) : Type 0 where
    risen : IsRisen t reg f preds start o.0
    sound : IsSound t reg f preds start o.0
    fewer : unneeded t reg f preds start o.0 ≤ unneeded t reg f preds start s
    strict :
        o.1 ≡ true
        → (ch ≡ true) ⊎ (unneeded t reg f preds start o.0 < unneeded t reg f preds start s)
    still : o.1 ≡ false → (ch ≡ false) × (o.0 ≡ s) × IsStable bs s

  need_round-Rounded :
      (bs : List BlockId) (s : Needs t reg f preds start) (ch : Bool)
      → ((b : BlockId) → Memᴰ b bs → Memᴰ b f.blocks)
      → IsRisen t reg f preds start s
      → IsSound t reg f preds start s
      → Rounded bs s ch (run bs (s, ch))
  unfolding need_round
  need_round-Rounded [] s ch ins up ok = record {
    risen = up;
    sound = ok;
    fewer = omega arith;
    strict = λ h. inl h;
    still = λ h. (h, refl, λ b m. absurd (Memᴰ.not-nil m));
  }
  need_round-Rounded (b ∷ bs) s ch ins up ok =
      let tail_in : (c : BlockId) → Memᴰ c bs → Memᴰ c f.blocks = λ c m. ins c (Memᴰ.tail m) in
      elim (Bool-cases (contains preds b && differs t f (s b) (new t reg f preds start s b))) [
        | inr same ↦
            let rest = need_round-Rounded bs s ch tail_in up ok in
            rw (same, need_round)
              (record {
                risen = rest.risen;
                sound = rest.sound;
                fewer = rest.fewer;
                strict = rest.strict;
                still = λ h.
                    let (c, e, st) = rest.still h in
                    (
                      c,
                      e,
                      λ x m k. elim (Memᴰ.cases_cons m) [
                        | inl q ↦
                            subst (λ y. s y ≡ new t reg f preds start s y) (sym q)
                              (equal (contains preds b) (s b) (new t reg f preds start s b)
                                (ap (contains preds) (sym q) ∙ k) same)
                        | inr j ↦ st x j k
                      ],
                    );
              })
        | inl other ↦
            let raised =
              changes (contains preds b) (s b) (new t reg f preds start s b) (up b) other in
            let rest =
              need_round-Rounded bs (put t reg f preds start s b) true tail_in
                (put-IsRisen t reg f preds start s b up raised.1)
                (put-IsSound t reg f preds start s b ok raised.1) in
            let less = put_fewer t reg f preds start s b (ins b (Memᴰ.head refl)) raised.0 in
            rw (other, raised.1, need_round)
              (record {
                risen = rest.risen;
                sound = rest.sound;
                fewer = omega (arith, rest.fewer);
                strict = λ h. inr (omega (arith, rest.fewer));
                still = λ h. absurd (false≢true (sym ((rest.still h).0)));
              })
      ]
    where
      equal : (p q r : Bool) → p ≡ true → (p && differs t f q r) ≡ false → q ≡ r
      equal true true true h k = refl
      equal true true false h k = absurd (false≢true (sym k))
      equal true false true h k = absurd (false≢true (sym k))
      equal true false false h k = refl
      equal false q r h k = absurd (false≢true h)

      changes :
          (p q r : Bool)
          → (q ≡ true → r ≡ true)
          → (p && differs t f q r) ≡ true
          → (q ≡ false) × (r ≡ true)
      changes p true r up k = ground (arith, up refl)
      changes p false r up k = ground arith

  record Settled (o : Option (Needs t reg f preds start)) : Type 0 where
    need_in : Needs t reg f preds start
    returns : o ≡ some need_in
    sound : IsSound t reg f preds start need_in
    stable : IsStable f.blocks need_in

  need_rounds-Settled :
      (fuel : ℕ) (s : Needs t reg f preds start)
      → IsRisen t reg f preds start s
      → IsSound t reg f preds start s
      → unneeded t reg f preds start s < fuel
      → Settled (need_rounds t f preds reg start fuel s)
  unfolding need_rounds
  need_rounds-Settled zero s up ok enough = absurd (omega arith)
  need_rounds-Settled (suc fuel) s up ok enough =
      let one = need_round-Rounded f.blocks s false (λ b m. m) up ok in
      elim (Bool-cases (run f.blocks (s, false)).1) [
        | inr still ↦
            let (_, e, st) = one.still still in
            rw (still, need_rounds)
              (record {
                need_in = (run f.blocks (s, false)).0;
                returns = refl;
                sound = one.sound;
                stable = subst (IsStable f.blocks) (sym e) st;
              })
        | inl grew ↦
            let rest =
              need_rounds-Settled fuel (run f.blocks (s, false)).0 one.risen one.sound
                (elim (one.strict grew) [
                  | inl e ↦ absurd (false≢true e)
                  | inr less ↦ omega arith
                ]) in
            rw (grew, need_rounds)
              (record {
                need_in = rest.need_in;
                returns = rest.returns;
                sound = rest.sound;
                stable = rest.stable;
              })
      ]

  stable_finds :
      (s : Needs t reg f preds start)
      → HasSuccessors f
      → IsStable f.blocks s
      → (b : BlockId) → Memᴰ b f.blocks
      → contains preds b ≡ true
      → IsNeeded t reg f preds start b
      → s b ≡ true
  stable_finds s within st b m k at_start = st b m k ∙ new-start t reg f preds start s
  stable_finds s within st b m k (through _ c n j l rest) =
      let found =
        mem-need_out t reg f preds start s (f.successors b) c j l
          (stable_finds s within st c (within b c m j) l rest) in
      st b m k ∙ elim (Bool-cases (b == start)) [
        | inl e ↦
            subst (λ y. new t reg f preds start s y ≡ true) (sym ((==_iff b start).0 e))
              (new-start t reg f preds start s)
        | inr o ↦ ground (arith, new-other t reg f preds start s b o)
      ]

  pub record Solved : Type 0 where
    pub need_in : Needs t reg f preds start
    pub returns : need_fixpoint t f preds reg start ≡ some need_in
    pub sound : IsSound t reg f preds start need_in
    pub finds :
        (b : BlockId)
        → Memᴰ b f.blocks
        → contains preds b ≡ true
        → IsNeeded t reg f preds start b
        → need_in b ≡ true

  -- The loop ends, and marks the blocks of the set that need the register.
  pub need_fixpoint-Solved : HasSuccessors f → Solved
  unfolding need_fixpoint
  need_fixpoint-Solved within =
      let e =
        need_rounds-Settled (suc (length f.blocks)) (λ b. false) (λ b h. absurd (false≢true h))
          (λ b h. absurd (false≢true h))
          (omega (arith, sum_map_bound (λ b. 1) f.blocks 1 (λ b. omega arith))) in
      record {
        need_in = e.need_in;
        returns = e.returns;
        sound = e.sound;
        finds = stable_finds e.need_in within e.stable;
      }
