-- ===== src/Schematic/Entries.antt =====
-- `std::map` of passes/include/schematic/SchematicSolution.h as the list of its entries in the order
-- of the keys: `find` and the assignment to a key.
use bao.Prelude.{
  ℕ, ◌≡◌, refl, sym, ◌∙◌, ap, ◌⊎◌, inl, inr, false, Option, none, some, List, [], ◌∷◌, ◌==◌, ==_iff,
  ==_refl, ltb, if◌then◌else◌, Bool-cases, arith,
}

module _ {A : Type 0} where
  unfoldable pub find : List (ℕ × A) → ℕ → Option A
  find [] k = none
  find ((x, a) ∷ es) k = if x == k then some a else find es k

  unfoldable pub assign : ℕ → A → List (ℕ × A) → List (ℕ × A)
  assign k a [] = (k, a) ∷ []
  assign k a ((x, b) ∷ es) =
      let rest = assign k a es in
      if k == x then (k, a) ∷ es else (if ltb k x then (k, a) ∷ (x, b) ∷ es else (x, b) ∷ rest)

  pub find-assign_same : (k : ℕ) (a : A) (es : List (ℕ × A)) → find (assign k a es) k ≡ some a
  unfolding find assign
  find-assign_same k a [] = rw (==_refl k) refl
  find-assign_same k a ((x, b) ∷ es) = elim (Bool-cases (k == x)) [
    | inl e ↦ rw (e, assign, ==_refl k) refl
    | inr n ↦ elim (Bool-cases (ltb k x)) [
      | inl l ↦ rw (n, l, assign, ==_refl k) refl
      | inr g ↦
          let other : (x == k) ≡ false = ground arith in
          rw (n, g, assign, other) (find-assign_same k a es)
    ]
  ]

  pub find-assign_other :
      (k j : ℕ) (a : A) (es : List (ℕ × A)) → (k == j) ≡ false → find (assign k a es) j ≡ find es j
  unfolding find assign
  find-assign_other k j a [] h = rw h refl
  find-assign_other k j a ((x, b) ∷ es) h = elim (Bool-cases (k == x)) [
    | inl e ↦ let other : (x == j) ≡ false = ground arith in rw (e, assign, h, other) refl
    | inr n ↦ elim (Bool-cases (ltb k x)) [
      | inl l ↦ rw (n, l, assign, h) refl
      | inr g ↦ elim (Bool-cases (x == j)) [
        | inl y ↦ rw (n, g, assign, y) refl
        | inr z ↦ rw (n, g, assign, z) (find-assign_other k j a es h)
      ]
    ]
  ]

  -- What is found after an assignment.
  pub find-assign_cases :
      (k j : ℕ) (a b : A) (es : List (ℕ × A))
      → find (assign k a es) j ≡ some b
      → (j ≡ k) × (some a ≡ some b) ⊎ ((k == j) ≡ false) × (find es j ≡ some b)
  find-assign_cases k j a b es h = elim (Bool-cases (k == j)) [
    | inl e ↦
        let same = (==_iff k j).0 e in
        inl (sym same, sym (find-assign_same k a es) ∙ ap (find (assign k a es)) same ∙ h)
    | inr n ↦ inr (n, sym (find-assign_other k j a es n) ∙ h)
  ]
