-- ===== src/RockClimb/Liveness/Fixpoint.antt =====
-- What `computeBulkLiveIn` of passes/rockclimb-backend/MachineLivenessAnalysis.cpp returns.
use mathlib.Core.Bool.{false≢true}
use mathlib.Core.Path.{subst}
use bao.Prelude.{
  ℕ, zero, suc, ◌*◌, ◌<◌, ◌≡◌, ◌↔◌, refl, sym, inl, inr, true, false, Option, some, List, length,
  Bool-cases, contains, mem→contains, count_missing, count_missing-le, sum_map_bound, Memᴰ, arith,
}
use bao.RockClimb.Machine.{BlockId, Reg, MachineFunction, HasSuccessors, Target}
use bao.RockClimb.Liveness.{
  gprs, live_in_round, live_in_rounds, first_live_in, compute_bulk_live_in,
}
use bao.RockClimb.Liveness.Bulk.{IsSetLive, used, passes, live_out_iff}
use bao.RockClimb.Liveness.Rounds.{
  IsSound, IsClosedAt, round-IsSound, round-Still, missing, round-Grows,
}

module _ (t : Target) (f : MachineFunction) where
  record Ends (s : BlockId → List Reg) (o : Option (BlockId → List Reg)) : Type 0 where
    out : BlockId → List Reg
    returns : o ≡ some out
    sound : IsSound t f out
    keeps : (b : BlockId) (r : Reg) → contains (s b) r ≡ true → contains (out b) r ≡ true
    closed : (b : BlockId) → Memᴰ b f.blocks → IsClosedAt t f out b

  live_in_rounds-Ends :
      (fuel : ℕ) (s : BlockId → List Reg)
      → IsSound t f s
      → missing t f s < fuel
      → Ends s (live_in_rounds t f fuel s)
  unfolding live_in_rounds
  live_in_rounds-Ends zero s ok enough = absurd (omega arith)
  live_in_rounds-Ends (suc fuel) s ok enough =
      elim (Bool-cases (live_in_round t f f.blocks (s, false)).1) [
        | inr still ↦
            let q = round-Still t f f.blocks s false still in
            rw (still, live_in_rounds)
              (record {
                out = (live_in_round t f f.blocks (s, false)).0;
                returns = refl;
                sound = round-IsSound t f f.blocks s false ok;
                keeps = (round-Grows t f f.blocks s false (λ b m. m) ok).keeps;
                closed = λ b m. subst (λ u. IsClosedAt t f u b) (sym q.same) (q.closed b m);
              })
        | inl grew ↦
            let one = round-Grows t f f.blocks s false (λ b m. m) ok in
            let rest =
              live_in_rounds-Ends fuel (live_in_round t f f.blocks (s, false)).0
                (round-IsSound t f f.blocks s false ok)
                (elim (one.strict grew) [
                  | inl e ↦ absurd (false≢true e)
                  | inr less ↦ omega arith
                ]) in
            rw (grew, live_in_rounds)
              (record {
                out = rest.out;
                returns = rest.returns;
                sound = rest.sound;
                keeps = λ b r h. rest.keeps b r (one.keeps b r h);
                closed = rest.closed;
              })
      ]

  first-IsSound : IsSound t f (first_live_in t f)
  unfolding contains
  first-IsSound b r h = elim (Bool-cases (contains f.blocks b)) [
    | inl e ↦ used b (rw e at h)
    | inr n ↦ absurd (false≢true (rw n at h))
  ]

  pub compute_bulk_live_in-exact :
      HasSuccessors f
      → (live_in : BlockId → List Reg) × (compute_bulk_live_in t f ≡ some live_in)
        × ((b : BlockId) (r : Reg)
            → Memᴰ b f.blocks
            → (contains (live_in b) r ≡ true) ↔ IsSetLive t f r b)
  unfolding compute_bulk_live_in
  compute_bulk_live_in-exact within =
      let e = live_in_rounds-Ends (suc (12 * length f.blocks)) (first_live_in t f) first-IsSound (
        omega (
          arith,
          sum_map_bound (λ b. count_missing (gprs t) (first_live_in t f b)) f.blocks 12
              (λ b. count_missing-le (gprs t) (first_live_in t f b)),
        )) in
      (e.out, e.returns, λ b r m. (e.sound b r, complete e.out e.keeps e.closed r b m))
    where
      complete :
          (out : BlockId → List Reg)
          → ((b : BlockId) (r : Reg)
              → contains (first_live_in t f b) r ≡ true
              → contains (out b) r ≡ true)
          → ((b : BlockId) → Memᴰ b f.blocks → IsClosedAt t f out b)
          → (r : Reg) (b : BlockId) → Memᴰ b f.blocks
          → IsSetLive t f r b
          → contains (out b) r ≡ true
      complete out keeps closed r b m (used _ u) = keeps b r (rw (mem→contains f.blocks b m) u)
      complete out keeps closed r b m (passes _ c n k l) =
          closed b m r
            ((live_out_iff t f out b r).1 (c, k, complete out keeps closed r c (within b c m k) l))
            n
