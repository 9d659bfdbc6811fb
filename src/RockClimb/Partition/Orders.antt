-- ===== src/RockClimb/Partition/Orders.antt =====
-- `rpoIndex` of passes/rockclimb-backend/RockClimbMachineOptimizer.cpp: paths whose indices rise run
-- through the order from left to right.
use mathlib.Core.List.Memᴰ
use mathlib.Core.Option.{some-injective, none-ne-some}
use mathlib.Core.Path.{subst}
use bao.Prelude.{
  ℕ, suc, ◌≤◌, ◌<◌, ◌≡◌, refl, sym, ◌∙◌, ap, ◌⊎◌, inl, inr, Option, some, List, [], ◌∷◌, ◌++◌,
  length, ◌==◌, ==_iff, ==_refl, Bool-cases, Option-cases, Memᴰ, arith,
}
use bao.RockClimb.Machine.{BlockId}
use bao.RockClimb.Partition.{index_from}

-- The blocks stand in the list in this order, perhaps with others between them.
pub data InOrder : List BlockId → List BlockId → Type 0 where
  done : (l : List BlockId) → InOrder [] l
  here : (b : BlockId) (p l : List BlockId) → InOrder p l → InOrder (b ∷ p) (b ∷ l)
  skip : (b : BlockId) (p l : List BlockId) → InOrder p l → InOrder p (b ∷ l)

pub InOrder-length : (p l : List BlockId) → InOrder p l → length p ≤ length l
InOrder-length p l (done _) = omega arith
InOrder-length p l (here b q r h) = omega (arith, InOrder-length q r h)
InOrder-length p l (skip b q r h) = omega (arith, InOrder-length q r h)

pub InOrder-nil : (b : BlockId) (p : List BlockId) → ¬ InOrder (b ∷ p) []
InOrder-nil b p h = elim h [ ]

pub InOrder-cons :
    (c : BlockId) (p : List BlockId) (b : BlockId) (l : List BlockId)
    → InOrder (c ∷ p) (b ∷ l)
    → (c ≡ b) × InOrder p l ⊎ InOrder (c ∷ p) l
InOrder-cons c p b l (here _ _ _ h) = inl (refl, h)
InOrder-cons c p b l (skip _ _ _ h) = inr h

pub InOrder-append : (p l r : List BlockId) → InOrder p l → InOrder p (l ++ r)
InOrder-append p l r (done _) = done (l ++ r)
InOrder-append p l r (here b q m h) = here b q (m ++ r) (InOrder-append q m r h)
InOrder-append p l r (skip b q m h) = skip b q (m ++ r) (InOrder-append q m r h)

index_from_at_least :
    (i : ℕ) (l : List BlockId) (b : BlockId) (k : ℕ) → index_from i l b ≡ some k → i ≤ k
unfolding index_from
index_from_at_least i [] b k h = absurd (none-ne-some k h)
index_from_at_least i (x ∷ xs) b k h = elim (Option-cases (index_from (suc i) xs b)) [
  | inr (m, e) ↦
      ground (arith, index_from_at_least (suc i) xs b m e, some-injective m k (rw e at h))
  | inl e ↦ elim (Bool-cases (x == b)) [
    | inl t ↦ ground (arith, some-injective i k (rw (e, t) at h))
    | inr n ↦ absurd (none-ne-some k (rw (e, n) at h))
  ]
]

pub index_from-mem :
    (i : ℕ) (l : List BlockId) (b : BlockId) → Memᴰ b l → (k : ℕ) × (index_from i l b ≡ some k)
unfolding index_from
index_from-mem i [] b m = elim m [ ]
index_from-mem i (x ∷ xs) b m = elim (Option-cases (index_from (suc i) xs b)) [
  | inr (k, e) ↦ (k, rw (e, index_from) refl)
  | inl e ↦ elim (Memᴰ.cases_cons m) [
    | inl q ↦ (i, rw (e, sym q, ==_refl b, index_from) refl)
    | inr t ↦ let (k, o) = index_from-mem (suc i) xs b t in absurd (none-ne-some k (sym e ∙ o))
  ]
]

-- An index above the first comes from the rest of the list.
index_from_rest :
    (i : ℕ) (x : BlockId) (xs : List BlockId) (b : BlockId) (k : ℕ)
    → index_from i (x ∷ xs) b ≡ some k
    → i < k
    → index_from (suc i) xs b ≡ some k
unfolding index_from
index_from_rest i x xs b k h lt = elim (Option-cases (index_from (suc i) xs b)) [
  | inr (m, e) ↦ e ∙ rw e at h
  | inl e ↦ elim (Bool-cases (x == b)) [
    | inl t ↦ absurd (ground (arith, some-injective i k (rw (e, t) at h)))
    | inr n ↦ absurd (none-ne-some k (rw (e, n) at h))
  ]
]

index_from_first :
    (i : ℕ) (x : BlockId) (xs : List BlockId) (b : BlockId)
    → index_from i (x ∷ xs) b ≡ some i
    → x ≡ b
unfolding index_from
index_from_first i x xs b h = elim (Option-cases (index_from (suc i) xs b)) [
  | inr (m, e) ↦
      absurd (ground (arith, index_from_at_least (suc i) xs b m e, some-injective m i (rw e at h)))
  | inl e ↦ elim (Bool-cases (x == b)) [
    | inl t ↦ (==_iff x b).0 t
    | inr n ↦ absurd (none-ne-some i (rw (e, n) at h))
  ]
]

-- The indices of the blocks rise along the path, from `low` on.
abbrev pub IsRising : (BlockId → Option ℕ) → ℕ → List BlockId → Type 0
IsRising index low [] = Unit
IsRising index low (b ∷ p) = (k : ℕ) × (index b ≡ some k) × (low ≤ k) × IsRising index (suc k) p

IsRising-rest :
    (i low : ℕ) (x : BlockId) (xs p : List BlockId)
    → i < low
    → IsRising (index_from i (x ∷ xs)) low p
    → IsRising (index_from (suc i) xs) low p
IsRising-rest i low x xs [] lt r = r
IsRising-rest i low x xs (b ∷ p) lt (k, e, le, r) = (
  k,
  index_from_rest i x xs b k e (omega arith),
  le,
  IsRising-rest i (suc k) x xs p (omega arith) r,
)

pub IsRising-InOrder :
    (i low : ℕ) (l p : List BlockId) → i ≤ low → IsRising (index_from i l) low p → InOrder p l
unfolding index_from
IsRising-InOrder i low l [] le r = done l
IsRising-InOrder i low [] (b ∷ p) le (k, e, _, _) = absurd (none-ne-some k e)
IsRising-InOrder i low (x ∷ xs) (b ∷ p) le (k, e, at_least, r) = elim (Bool-cases (k == i)) [
  | inl t ↦
      let q = (==_iff k i).0 t in
      let first = index_from_first i x xs b (e ∙ ap some q) in
      subst (λ y. InOrder (y ∷ p) (x ∷ xs)) first
        (here x p xs (
          IsRising-InOrder (suc i) (suc k) xs p (omega arith)
            (IsRising-rest i (suc k) x xs p (omega arith) r)))
  | inr n ↦ skip x (b ∷ p) xs (
      IsRising-InOrder (suc i) k xs (b ∷ p) (ground arith) (
        k,
        index_from_rest i x xs b k e (ground arith),
        omega arith,
        IsRising-rest i (suc k) x xs p (omega arith) r,
      ))
]
