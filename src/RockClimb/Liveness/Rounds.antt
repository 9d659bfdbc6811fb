-- ===== src/RockClimb/Liveness/Rounds.antt =====
-- The rounds of `computeBulkLiveIn` of passes/rockclimb-backend/MachineLivenessAnalysis.cpp: the loop
-- comes to its end, and what it returns.
use mathlib.Core.List.Memᴰ
use mathlib.Core.Path.{subst}
use bao.Prelude.{
  ℕ, ◌≤◌, ◌<◌, ◌≡◌, refl, sym, ◌∙◌, ap, ◌⊎◌, inl, inr, Bool, true, false, List, [], ◌∷◌, ◌==◌,
  ==_iff, ==_refl, if◌then◌else◌, Bool-cases, contains, count_missing, sum_map, sum_map_le,
  sum_map_lt, Memᴰ, arith,
}
use bao.RockClimb.Machine.{BlockId, Reg, MachineFunction, Target}
use bao.RockClimb.Liveness.{gprs, def_set, live_out, add_undefined, live_in_round}
use bao.RockClimb.Liveness.Bulk.{
  IsSetLive, passes, live_out_iff, add_undefined-cases, add_undefined-Quiet, Grows,
  add_undefined-Grows,
}
use bao.RockClimb.Liveness.Gprs.{IsSetLive-gpr}

module _ (t : Target) (f : MachineFunction) where
  abbrev pub LiveIns : Type 0
  LiveIns = BlockId → List Reg

  abbrev put : LiveIns → BlockId → List Reg → LiveIns
  put s b li x = if x == b then li else s x

  put_same : (s : LiveIns) (b : BlockId) (li : List Reg) → li ≡ s b → put s b li ≡ s
  put_same s b li e i x = at x i
    where
      at : (x : BlockId) → put s b li x ≡ s x
      at x = elim (Bool-cases (x == b)) [
        | inl q ↦ rw q (e ∙ ap s (sym ((==_iff x b).0 q)))
        | inr n ↦ rw n refl
      ]

  abbrev pub IsSound : LiveIns → Type 0
  IsSound s = (b : BlockId) (r : Reg) → contains (s b) r ≡ true → IsSetLive t f r b

  abbrev added : LiveIns → Bool → BlockId → List Reg × Bool
  added s ch b = add_undefined t f (def_set t f b) (live_out t f s b) (s b, ch)

  put-IsSound :
      (s : LiveIns) (ch : Bool) (b : BlockId) → IsSound s → IsSound (put s b (added s ch b).0)
  put-IsSound s ch b ok x r h = elim (Bool-cases (x == b)) [
    | inr n ↦ ok x r (rw n at h)
    | inl e ↦
        subst (IsSetLive t f r) (sym ((==_iff x b).0 e))
          (elim (add_undefined-cases t f (def_set t f b) (live_out t f s b) (s b) ch r
            (rw e at h)) [
              | inl old ↦ ok b r old
              | inr (out, n) ↦
                  let (c, m, k) = (live_out_iff t f s b r).0 out in passes b c n m (ok c r k)
            ])
  ]

  pub round-IsSound :
      (bs : List BlockId) (s : LiveIns) (ch : Bool)
      → IsSound s
      → IsSound (live_in_round t f bs (s, ch)).0
  unfolding live_in_round
  round-IsSound [] s ch ok = ok
  round-IsSound (b ∷ bs) s ch ok =
      round-IsSound bs (put s b (added s ch b).0) (added s ch b).1 (put-IsSound s ch b ok)

  -- What the round would still add is there.
  abbrev pub IsClosedAt : LiveIns → BlockId → Type 0
  IsClosedAt s b =
      (r : Reg)
      → contains (live_out t f s b) r ≡ true
      → contains (def_set t f b) r ≡ false
      → contains (s b) r ≡ true

  pub record Still (bs : List BlockId) (s : LiveIns) (ch : Bool) : Type 0 where
    pub was_still : ch ≡ false
    pub same : (live_in_round t f bs (s, ch)).0 ≡ s
    pub closed : (b : BlockId) → Memᴰ b bs → IsClosedAt s b

  pub round-Still :
      (bs : List BlockId) (s : LiveIns) (ch : Bool)
      → (live_in_round t f bs (s, ch)).1 ≡ false
      → Still bs s ch
  unfolding live_in_round
  round-Still [] s ch h = record {
    was_still = h;
    same = refl;
    closed = λ b m. absurd (Memᴰ.not-nil m);
  }
  round-Still (b ∷ bs) s ch h =
      let rest = round-Still bs (put s b (added s ch b).0) (added s ch b).1 h in
      let quiet =
        add_undefined-Quiet t f (def_set t f b) (live_out t f s b) (s b) ch rest.was_still in
      let back = put_same s b (added s ch b).0 quiet.same in
      record {
        was_still = quiet.was_quiet;
        same = rest.same ∙ back;
        closed = λ c m. elim (Memᴰ.cases_cons m) [
          | inl e ↦ subst (IsClosedAt s) (sym e) quiet.holds
          | inr k ↦ subst (λ u. IsClosedAt u c) back (rest.closed c k)
        ];
      }

  abbrev pub missing : LiveIns → ℕ
  missing s = sum_map (λ b. count_missing (gprs t) (s b)) f.blocks

  pub record RoundGrows (bs : List BlockId) (s : LiveIns) (ch : Bool) : Type 0 where
    pub keeps :
        (x : BlockId) (r : Reg)
        → contains (s x) r ≡ true
        → contains ((live_in_round t f bs (s, ch)).0 x) r ≡ true
    pub fewer : missing (live_in_round t f bs (s, ch)).0 ≤ missing s
    pub strict :
        (live_in_round t f bs (s, ch)).1 ≡ true
        → (ch ≡ true) ⊎ (missing (live_in_round t f bs (s, ch)).0 < missing s)

  module _ (s : LiveIns) (ch : Bool) (b : BlockId) (ok : IsSound s) where
    abbrev li : List Reg
    li = (added s ch b).0

    one : Grows t f (s b) ch (added s ch b)
    one =
        add_undefined-Grows t f (def_set t f b) (live_out t f s b) (s b) ch
          (λ r h. let (c, m, k) = (live_out_iff t f s b r).0 h in IsSetLive-gpr t f r c (ok c r k))

    put_keeps : (x : BlockId) (r : Reg) → contains (s x) r ≡ true → contains (put s b li x) r ≡ true
    put_keeps x r h = elim (Bool-cases (x == b)) [
      | inl e ↦ rw e (one.keeps r (ap (λ y. contains (s y) r) (sym ((==_iff x b).0 e)) ∙ h))
      | inr n ↦ rw n h
    ]

    put_fewer : (x : BlockId) → count_missing (gprs t) (put s b li x) ≤ count_missing (gprs t) (s x)
    put_fewer x = elim (Bool-cases (x == b)) [
      | inl e ↦ rw (e, (==_iff x b).0 e) one.fewer
      | inr n ↦ rw n (omega arith)
    ]

  pub round-Grows :
      (bs : List BlockId) (s : LiveIns) (ch : Bool)
      → ((b : BlockId) → Memᴰ b bs → Memᴰ b f.blocks)
      → IsSound s
      → RoundGrows bs s ch
  unfolding live_in_round
  round-Grows [] s ch ins ok = record {
    keeps = λ x r h. h;
    fewer = omega arith;
    strict = λ h. inl h;
  }
  round-Grows (b ∷ bs) s ch ins ok =
      let rest =
        round-Grows bs (put s b (added s ch b).0) (added s ch b).1 (λ c m. ins c (Memᴰ.tail m))
          (put-IsSound s ch b ok) in
      record {
        keeps = λ x r h. rest.keeps x r (put_keeps s ch b ok x r h);
        fewer = omega (arith, rest.fewer, sum_map_le _ _ f.blocks (put_fewer s ch b ok));
        strict = λ h. elim (rest.strict h) [
          | inr less ↦ inr (omega (arith, sum_map_le _ _ f.blocks (put_fewer s ch b ok)))
          | inl grew ↦ elim ((one s ch b ok).strict grew) [
            | inl before ↦ inl before
            | inr less ↦ inr (
                omega (
                  arith,
                  rest.fewer,
                  sum_map_lt (λ x. count_missing (gprs t) (put s b (added s ch b).0 x))
                      (λ x. count_missing (gprs t) (s x)) f.blocks b (put_fewer s ch b ok)
                      (ins b (Memᴰ.head refl)) (rw (==_refl b) less),
                ))
          ]
        ];
      }
