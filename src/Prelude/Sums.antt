-- ===== src/Prelude/Sums.antt =====
-- Sums over lists.
use Prim.Native.Nat.{ℕ, ◌+◌, ◌*◌, ◌≤◌, ◌<◌}
use mathlib.Core.Path.{◌≡◌, refl, ap}
use mathlib.Core.List.{List, [], ◌∷◌, ◌++◌, Memᴰ}
use native.Mathlib.Nat.{mul-suc}
use bao.Prelude.Lists.{length}
use native.Mathlib.Omega.{arith}

module _ {ℓ} {A : Type ℓ} where
  -- Σ_{x ∈ xs} f x
  abbrev pub sum_map : (A → ℕ) → List A → ℕ
  sum_map f [] = 0
  sum_map f (x ∷ xs) = f x + sum_map f xs

  pub sum_map-append :
      (f : A → ℕ) (xs ys : List A) → sum_map f (xs ++ ys) ≡ sum_map f xs + sum_map f ys
  sum_map-append f [] ys = omega arith
  sum_map-append f (x ∷ xs) ys = omega (arith, sum_map-append f xs ys)

  pub sum_map_congr :
      (f g : A → ℕ) (xs : List A) → ((x : A) → Memᴰ x xs → f x ≡ g x) → sum_map f xs ≡ sum_map g xs
  sum_map_congr f g [] h = refl
  sum_map_congr f g (x ∷ xs) h =
      omega (arith, h x (Memᴰ.head refl), sum_map_congr f g xs (λ y m. h y (Memᴰ.tail m)))

  pub sum_map_le : (f g : A → ℕ) (xs : List A) → ((x : A) → f x ≤ g x) → sum_map f xs ≤ sum_map g xs
  sum_map_le f g [] h = omega arith
  sum_map_le f g (x ∷ xs) h = omega (arith, h x, sum_map_le f g xs h)

  pub sum_map_le_mem :
      (f g : A → ℕ) (xs : List A) → ((x : A) → Memᴰ x xs → f x ≤ g x) → sum_map f xs ≤ sum_map g xs
  sum_map_le_mem f g [] h = omega arith
  sum_map_le_mem f g (x ∷ xs) h =
      omega (arith, h x (Memᴰ.head refl), sum_map_le_mem f g xs (λ y m. h y (Memᴰ.tail m)))

  pub sum_map_lt :
      (f g : A → ℕ) (xs : List A) (y : A)
      → ((x : A) → f x ≤ g x)
      → Memᴰ y xs
      → f y < g y
      → sum_map f xs < sum_map g xs
  sum_map_lt f g [] y h m less = elim m [ ]
  sum_map_lt f g (x ∷ xs) y h (Memᴰ.head e) less =
      omega (arith, sum_map_le f g xs h, ap f e, ap g e)
  sum_map_lt f g (x ∷ xs) y h (Memᴰ.tail m) less = omega (arith, h x, sum_map_lt f g xs y h m less)

  pub sum_map_bound :
      (f : A → ℕ) (xs : List A) (c : ℕ) → ((x : A) → f x ≤ c) → sum_map f xs ≤ c * length xs
  sum_map_bound f [] c h = omega arith
  sum_map_bound f (x ∷ xs) c h = omega (arith, h x, sum_map_bound f xs c h, mul-suc c (length xs))
