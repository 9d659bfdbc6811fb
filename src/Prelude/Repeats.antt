-- ===== src/Prelude/Repeats.antt =====
-- Sums over a list without repeats are at most those over a list that holds it.
use Prim.Native.Nat.{ℕ, ◌+◌, ◌≤◌}
use mathlib.Core.Path.{◌≡◌, refl, ◌∙◌, ap, subst}
use mathlib.Core.Logic.{inl, inr}
use mathlib.Core.List.Memᴰ
use mathlib.Core.List.{List, [], ◌∷◌, Memᴰ}
use bao.Prelude.Tests.{◌==◌, ==_iff, if◌then◌else◌, Bool-cases}
use bao.Prelude.Sums.{sum_map}
use native.Mathlib.Omega.{arith}

abbrev pub Distinct {ℓ} : {A : Type ℓ} → List A → Type ℓ
Distinct [] = Unit
Distinct (x ∷ xs) = (¬ Memᴰ x xs) × Distinct xs

-- Without the first occurrence.
remove : ℕ → List ℕ → List ℕ
remove x [] = []
remove x (y ∷ ys) = let rest = remove x ys in if y == x then ys else y ∷ rest

sum_map-remove :
    (c : ℕ → ℕ) (x : ℕ) (ys : List ℕ) → Memᴰ x ys → sum_map c ys ≡ c x + sum_map c (remove x ys)
unfolding remove
sum_map-remove c x [] m = absurd (Memᴰ.not-nil m)
sum_map-remove c x (y ∷ ys) m = elim (Bool-cases (y == x)) [
  | inl e ↦ rw (e, remove) (ap (λ z. c z + sum_map c ys) ((==_iff y x).0 e))
  | inr n ↦
      rw (n, remove)
        (elim (Memᴰ.cases_cons m) [
          | inl e ↦ absurd (ground (arith, e, n))
          | inr k ↦ omega (arith, sum_map-remove c x ys k)
        ])
]

mem-remove : (x z : ℕ) (ys : List ℕ) → Memᴰ z ys → ¬ (z ≡ x) → Memᴰ z (remove x ys)
unfolding remove
mem-remove x z [] m n = absurd (Memᴰ.not-nil m)
mem-remove x z (y ∷ ys) m n = elim (Bool-cases (y == x)) [
  | inl e ↦
      rw (e, remove)
        (elim (Memᴰ.cases_cons m) [ inl q ↦ absurd (n (q ∙ (==_iff y x).0 e)) | inr k ↦ k ])
  | inr o ↦
      rw (o, remove)
        (elim (Memᴰ.cases_cons m) [
          | inl q ↦ Memᴰ.head q
          | inr k ↦ Memᴰ.tail (mem-remove x z ys k n)
        ])
]

pub sum_map_sub :
    (w c : ℕ → ℕ) (xs ys : List ℕ)
    → Distinct xs
    → ((x : ℕ) → Memᴰ x xs → Memᴰ x ys × (w x ≤ c x))
    → sum_map w xs ≤ sum_map c ys
sum_map_sub w c [] ys d h = omega arith
sum_map_sub w c (x ∷ xs) ys (new, d) h =
    let (m, le) = h x (Memᴰ.head refl) in
    let rest = sum_map_sub w c xs (remove x ys) d (λ z k.
      let (mz, lez) = h z (Memᴰ.tail k) in
      (mem-remove x z ys mz (λ e. new (subst (λ u. Memᴰ u xs) e k)), lez)) in
    omega (arith, rest, sum_map-remove c x ys m, le)
