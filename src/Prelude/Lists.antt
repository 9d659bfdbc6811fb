-- ===== src/Prelude/Lists.antt =====
-- Lists measured and indexed by native numbers, lists as sets of numbers, and facts on every element.
use Prim.Native.Nat.{ℕ, zero, suc, ◌+◌}
use mathlib.Core.Path.{◌≡◌, refl, ap, sym, subst}
use mathlib.Core.Logic.{◌⊎◌, inl, inr}
use mathlib.Core.Bool.{Bool, true, false, ◌||◌}
use mathlib.Core.Option.{Option, none, some}
use mathlib.Core.List.{List, [], ◌∷◌, ◌++◌, map, Memᴰ, flat_map}
use mathlib.Core.List.Memᴰ
use native.Mathlib.Omega.{arith}
use bao.Prelude.Tests.{◌==◌, ==_iff}

module _ {ℓ} {A : Type ℓ} where
  abbrev pub length : List A → ℕ
  length [] = 0
  length (x ∷ xs) = suc (length xs)

  abbrev pub get_elem? : List A → ℕ → Option A
  get_elem? [] i = none
  get_elem? (x ∷ xs) zero = some x
  get_elem? (x ∷ xs) (suc i) = get_elem? xs i

  abbrev pub get_or : List A → ℕ → A → A
  get_or [] i d = d
  get_or (x ∷ xs) zero d = x
  get_or (x ∷ xs) (suc i) d = get_or xs i d

  -- A write out of bounds changes nothing.
  abbrev pub set : List A → ℕ → A → List A
  set [] i v = []
  set (x ∷ xs) zero v = v ∷ xs
  set (x ∷ xs) (suc i) v = x ∷ set xs i v

  abbrev pub take : ℕ → List A → List A
  take zero xs = []
  take (suc n) [] = []
  take (suc n) (x ∷ xs) = x ∷ take n xs

  abbrev pub drop : ℕ → List A → List A
  drop zero xs = xs
  drop (suc n) [] = []
  drop (suc n) (x ∷ xs) = drop n xs

  abbrev pub replicate : ℕ → A → List A
  replicate zero a = []
  replicate (suc n) a = a ∷ replicate n a

  pub length-append : (xs ys : List A) → length (xs ++ ys) ≡ length xs + length ys
  length-append [] ys = omega arith
  length-append (x ∷ xs) ys = omega (arith, length-append xs ys)

-- A predicate on every element.
abbrev pub All {ℓ κ} : {A : Type ℓ} → (A → Type κ) → List A → Type κ
All P [] = Unit
All P (x ∷ xs) = P x × All P xs

module _ {ℓ κ} {A : Type ℓ} (P : A → Type κ) where
  pub All-mem : (a : A) (xs : List A) → Memᴰ a xs → All P xs → P a
  All-mem a [] m h = elim m [ ]
  All-mem a (x ∷ xs) (Memᴰ.head e) h = subst P (sym e) h.0
  All-mem a (x ∷ xs) (Memᴰ.tail m) h = All-mem a xs m h.1

module _ {ℓ κ μ} {A : Type ℓ} (P : A → Type κ) (Q : A → Type μ) where
  pub All-weaken : (xs : List A) → ((x : A) → Memᴰ x xs → P x → Q x) → All P xs → All Q xs
  All-weaken [] h a = tt
  All-weaken (x ∷ xs) h (p, a) =
      (h x (Memᴰ.head refl) p, All-weaken xs (λ y m. h y (Memᴰ.tail m)) a)

module _ {ℓ κ} {A : Type ℓ} (P : A → Type κ) where
  pub All-of_mem : (xs : List A) → ((x : A) → Memᴰ x xs → P x) → All P xs
  All-of_mem [] h = tt
  All-of_mem (x ∷ xs) h = (h x (Memᴰ.head refl), All-of_mem xs (λ y m. h y (Memᴰ.tail m)))

module _ {ℓ κ} {A : Type ℓ} {B : Type κ} where
  pub mem-map : (f : A → B) (a : A) (xs : List A) → Memᴰ a xs → Memᴰ (f a) (map f xs)
  mem-map f a [] h = elim h [ ]
  mem-map f a (y ∷ ys) (Memᴰ.head e) = Memᴰ.head (ap f e)
  mem-map f a (y ∷ ys) (Memᴰ.tail h) = Memᴰ.tail (mem-map f a ys h)

  -- What a loop emits in one round is among what it emits.
  pub mem-flat_map :
      (f : A → List B) (a : A) (b : B) (xs : List A)
      → Memᴰ a xs
      → Memᴰ b (f a)
      → Memᴰ b (flat_map f xs)
  unfolding flat_map
  mem-flat_map f a b [] h k = elim h [ ]
  mem-flat_map f a b (x ∷ xs) (Memᴰ.head e) k =
      Memᴰ.append_left (flat_map f xs) (subst (λ y. Memᴰ b (f y)) e k)
  mem-flat_map f a b (x ∷ xs) (Memᴰ.tail h) k = Memᴰ.append_right (f x) (mem-flat_map f a b xs h k)

-- A set of numbers as a list: `count(a) != 0`.
unfoldable pub contains : List ℕ → ℕ → Bool
contains [] a = false
contains (x ∷ xs) a = a == x || contains xs a

pub contains→mem : (xs : List ℕ) (a : ℕ) → contains xs a ≡ true → Memᴰ a xs
unfolding contains
contains→mem [] a h = cc
contains→mem (x ∷ xs) a h = elim (split (a == x) (contains xs a) h) [
  | inl e ↦ Memᴰ.head ((==_iff a x).0 e)
  | inr e ↦ Memᴰ.tail (contains→mem xs a e)
]
  where
    split : (p q : Bool) → (p || q) ≡ true → (p ≡ true) ⊎ (q ≡ true)
    split true q e = inl refl
    split false q e = inr e

pub mem→contains : (xs : List ℕ) (a : ℕ) → Memᴰ a xs → contains xs a ≡ true
unfolding contains
mem→contains [] a m = elim m [ ]
mem→contains (x ∷ xs) a (Memᴰ.head e) = ground arith
mem→contains (x ∷ xs) a (Memᴰ.tail m) = ground (arith, mem→contains xs a m)
