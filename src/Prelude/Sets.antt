-- ===== src/Prelude/Sets.antt =====
-- Sets of numbers as lists: insertion, and what it keeps.
use Prim.Native.Nat.{ℕ, ◌+◌, ◌≤◌, ◌<◌}
use mathlib.Core.Path.{◌≡◌, refl, sym}
use mathlib.Core.Logic.{◌⊎◌, ◌↔◌}
use mathlib.Core.Bool.{true, false}
use mathlib.Core.List.{List, [], ◌∷◌, Memᴰ}
use native.Mathlib.Omega.{arith}
use bao.Prelude.Tests.{if◌then◌else◌, ==_iff, ==_refl}
use bao.Prelude.Lists.{contains, length}

-- An element that is in the set is not added again.
unfoldable pub insert : ℕ → List ℕ → List ℕ
insert b bs = if contains bs b then bs else b ∷ bs

pub contains-insert_self : (b : ℕ) (bs : List ℕ) → contains (insert b bs) b ≡ true
unfolding insert contains
contains-insert_self b bs = ground (arith, ==_refl b)

pub contains-insert_old :
    (b x : ℕ) (bs : List ℕ) → contains bs x ≡ true → contains (insert b bs) x ≡ true
unfolding insert contains
contains-insert_old b x bs h = ground arith

pub contains-insert_cases :
    (b x : ℕ) (bs : List ℕ) → contains (insert b bs) x ≡ true → (x ≡ b) ⊎ (contains bs x ≡ true)
unfolding insert contains
contains-insert_cases b x bs h = ground (arith, ==_iff x b)

-- `for (x : xs) set.insert(x)`
unfoldable pub insert_all : List ℕ → List ℕ → List ℕ
insert_all [] bs = bs
insert_all (x ∷ xs) bs = insert_all xs (insert x bs)

-- How many of the listed elements are not in the set.
unfoldable pub count_missing : List ℕ → List ℕ → ℕ
count_missing [] s = 0
count_missing (x ∷ xs) s = (if contains s x then 0 else 1) + count_missing xs s

pub contains-insert_all_iff :
    (xs bs : List ℕ) (x : ℕ)
    → (contains (insert_all xs bs) x ≡ true) ↔ (contains xs x ≡ true) ⊎ (contains bs x ≡ true)
unfolding insert_all contains
contains-insert_all_iff [] bs x = ground arith
contains-insert_all_iff (y ∷ ys) bs x = ground (
  arith,
  contains-insert_all_iff ys (insert y bs) x,
  contains-insert_cases y x bs,
  contains-insert_old y x bs,
  contains-insert_self y bs,
  ==_iff x y,
)

pub insert_same : (b : ℕ) (bs : List ℕ) → contains bs b ≡ true → insert b bs ≡ bs
unfolding insert
insert_same b bs h = rw h refl

count_missing-insert_le :
    (b : ℕ) (xs s : List ℕ) → count_missing xs (insert b s) ≤ count_missing xs s
unfolding count_missing
count_missing-insert_le b [] s = omega arith
count_missing-insert_le b (x ∷ xs) s =
    ground (arith, count_missing-insert_le b xs s, contains-insert_old b x s)

-- A listed element that is new to the set is missing no more.
pub count_missing-insert_new :
    (b : ℕ) (xs s : List ℕ)
    → Memᴰ b xs
    → contains s b ≡ false
    → count_missing xs (insert b s) < count_missing xs s
unfolding count_missing
count_missing-insert_new b [] s m h = elim m [ ]
count_missing-insert_new b (x ∷ xs) s (Memᴰ.head e) h =
    rw (sym e, h, contains-insert_self b s) (omega (arith, count_missing-insert_le b xs s))
count_missing-insert_new b (x ∷ xs) s (Memᴰ.tail m) h =
    ground (arith, count_missing-insert_new b xs s m h, contains-insert_old b x s)

pub count_missing-le : (xs s : List ℕ) → count_missing xs s ≤ length xs
unfolding count_missing
count_missing-le [] s = omega arith
count_missing-le (x ∷ xs) s = ground (arith, count_missing-le xs s)
