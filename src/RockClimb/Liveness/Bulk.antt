-- ===== src/RockClimb/Liveness/Bulk.antt =====
-- `computeBulkLiveIn` of passes/rockclimb-backend/MachineLivenessAnalysis.cpp: what a set of the
-- result holds, and what a round that changes nothing leaves.
use mathlib.Core.Bool.{false≢true}
use mathlib.Core.List.Memᴰ
use bao.Prelude.{
  ◌≤◌, ◌<◌, ◌≡◌, ◌↔◌, refl, sym, ◌∙◌, ap, ◌⊎◌, inl, inr, Bool, true, false, not, ◌||◌, List, [],
  ◌∷◌, ◌==◌, ==_iff, ==_refl, Bool-cases, contains, insert, insert_all, contains-insert_old,
  contains-insert_cases, contains-insert_all_iff, insert_same, count_missing,
  count_missing-insert_new, Memᴰ, arith,
}
use bao.RockClimb.Machine.{BlockId, Reg, MachineFunction, Target}
use bao.RockClimb.Liveness.{gprs, use_set, def_set, union_live_ins, live_out, add_undefined}

module _ (t : Target) (f : MachineFunction) where
  -- By the sets of the blocks, some path from the start of the block reads the register first.
  pub data IsSetLive (reg : Reg) : BlockId → Type 0 where
    used : (b : BlockId) → contains (use_set t f b) reg ≡ true → IsSetLive reg b
    passes :
        (b c : BlockId)
        → contains (def_set t f b) reg ≡ false
        → Memᴰ c (f.successors b)
        → IsSetLive reg c
        → IsSetLive reg b

  union_live_ins_iff :
      (s : BlockId → List Reg) (ss : List BlockId) (regs : List Reg) (r : Reg)
      → (contains (union_live_ins t f s ss regs) r ≡ true)
        ↔ ((c : BlockId) × Memᴰ c ss × (contains (s c) r ≡ true)) ⊎ (contains regs r ≡ true)
  unfolding union_live_ins
  union_live_ins_iff s [] regs r =
      (λ h. inr h, λ o. elim o [ inl (c, m, h) ↦ absurd (Memᴰ.not-nil m) | inr h ↦ h ])
  union_live_ins_iff s (c ∷ cs) regs r =
      let rest = union_live_ins_iff s cs (insert_all (s c) regs) r in
      let here = contains-insert_all_iff (s c) regs r in
      (
        λ h. elim (rest.0 h) [
          | inl (d, m, k) ↦ inl (d, Memᴰ.tail m, k)
          | inr k ↦ elim (here.0 k) [ inl j ↦ inl (c, Memᴰ.head refl, j) | inr j ↦ inr j ]
        ],
        λ o. rest.1 (elim o [
          | inl (d, m, k) ↦ elim (Memᴰ.cases_cons m) [
            | inl e ↦ inr (here.1 (inl (ap (λ x. contains (s x) r) (sym e) ∙ k)))
            | inr m' ↦ inl (d, m', k)
          ]
          | inr k ↦ inr (here.1 (inr k))
        ]),
      )

  pub live_out_iff :
      (s : BlockId → List Reg) (b : BlockId) (r : Reg)
      → (contains (live_out t f s b) r ≡ true)
        ↔ (c : BlockId) × Memᴰ c (f.successors b) × (contains (s c) r ≡ true)
  unfolding live_out contains
  live_out_iff s b r =
      let both = union_live_ins_iff s (f.successors b) [] r in
      (λ h. elim (both.0 h) [ inl o ↦ o | inr k ↦ absurd (false≢true k) ], λ o. both.1 (inl o))

  -- What one block adds to its set.
  pub add_undefined-cases :
      (defs rs li : List Reg) (ch : Bool) (r : Reg)
      → contains (add_undefined t f defs rs (li, ch)).0 r ≡ true
      → (contains li r ≡ true) ⊎ (contains rs r ≡ true) × (contains defs r ≡ false)
  unfolding add_undefined contains
  add_undefined-cases defs [] li ch r h = inl h
  add_undefined-cases defs (x ∷ xs) li ch r h = elim (Bool-cases (contains defs x)) [
    | inl d ↦
        let rest = add_undefined-cases defs xs li ch r (rw (d, add_undefined) at h) in
        ground (arith, rest)
    | inr n ↦
        let rest =
          add_undefined-cases defs xs (insert x li) (ch || not (contains li x)) r
            (rw (n, add_undefined) at h) in
        ground (arith, rest, contains-insert_cases x r li, ap (contains defs), ==_iff r x)
  ]

  -- A block that adds nothing.
  pub record Quiet (defs rs li : List Reg) (ch : Bool) : Type 0 where
    pub was_quiet : ch ≡ false
    pub same : (add_undefined t f defs rs (li, ch)).0 ≡ li
    pub holds : (r : Reg) → contains rs r ≡ true → contains defs r ≡ false → contains li r ≡ true

  pub add_undefined-Quiet :
      (defs rs li : List Reg) (ch : Bool)
      → (add_undefined t f defs rs (li, ch)).1 ≡ false
      → Quiet defs rs li ch
  unfolding add_undefined contains
  add_undefined-Quiet defs [] li ch h = record {
    was_quiet = h;
    same = refl;
    holds = λ r k. absurd (false≢true k);
  }
  add_undefined-Quiet defs (x ∷ xs) li ch h = elim (Bool-cases (contains defs x)) [
    | inl d ↦
        let q = add_undefined-Quiet defs xs li ch (rw (d, add_undefined) at h) in
        record {
          was_quiet = q.was_quiet;
          same = rw (d, add_undefined) q.same;
          holds = λ r k n. ground (arith, q.holds r, ==_iff r x, ap (contains defs));
        }
    | inr n ↦
        let q =
          add_undefined-Quiet defs xs (insert x li) (ch || not (contains li x))
            (rw (n, add_undefined) at h) in
        let old : contains li x ≡ true = ground (arith, q.was_quiet) in
        record {
          was_quiet = ground (arith, q.was_quiet);
          same = rw (n, add_undefined) (q.same ∙ insert_same x li old);
          holds = λ r k d. elim (Bool-cases (r == x)) [
            | inl e ↦ ap (contains li) ((==_iff r x).0 e) ∙ old
            | inr o ↦ ap (λ l. contains l r) (sym (insert_same x li old)) ∙ q.holds r (rw o at k) d
          ];
        }
  ]

  -- A block that adds what is checkpointed.
  pub record Grows (li : List Reg) (ch : Bool) (out : List Reg × Bool) : Type 0 where
    pub keeps : (r : Reg) → contains li r ≡ true → contains out.0 r ≡ true
    pub fewer : count_missing (gprs t) out.0 ≤ count_missing (gprs t) li
    pub strict :
        out.1 ≡ true → (ch ≡ true) ⊎ (count_missing (gprs t) out.0 < count_missing (gprs t) li)

  pub add_undefined-Grows :
      (defs rs li : List Reg) (ch : Bool)
      → ((r : Reg) → contains rs r ≡ true → Memᴰ r (gprs t))
      → Grows li ch (add_undefined t f defs rs (li, ch))
  unfolding add_undefined contains
  add_undefined-Grows defs [] li ch g = record {
    keeps = λ r h. h;
    fewer = omega arith;
    strict = λ h. inl h;
  }
  add_undefined-Grows defs (x ∷ xs) li ch g =
      let g_tail : (r : Reg) → contains xs r ≡ true → Memᴰ r (gprs t) = λ r h. g r (ground arith) in
      elim (Bool-cases (contains defs x)) [
        | inl d ↦
            let q = add_undefined-Grows defs xs li ch g_tail in
            rw (d, add_undefined) (record { keeps = q.keeps; fewer = q.fewer; strict = q.strict })
        | inr n ↦
            let q = add_undefined-Grows defs xs (insert x li) (ch || not (contains li x)) g_tail in
            elim (Bool-cases (contains li x)) [
              | inl old ↦
                  let same = ap (count_missing (gprs t)) (insert_same x li old) in
                  rw (n, add_undefined)
                    (record {
                      keeps = λ r h. q.keeps r (contains-insert_old x r li h);
                      fewer = omega (arith, q.fewer, same);
                      strict = λ h. ground (arith, q.strict h, same);
                    })
              | inr new ↦
                  let less =
                    count_missing-insert_new x (gprs t) li (g x (ground (arith, ==_refl x))) new in
                  rw (n, add_undefined)
                    (record {
                      keeps = λ r h. q.keeps r (contains-insert_old x r li h);
                      fewer = omega (arith, q.fewer, less);
                      strict = λ h. inr (omega (arith, q.fewer, less));
                    })
            ]
      ]
