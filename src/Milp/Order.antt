-- ===== src/Milp/Order.antt =====
-- passes/include/common/ValueOrder.h: the order in which values enter the model.
use mathlib.Core.List.Memᴰ
use bao.Prelude.{
  Bool, List, [], ◌∷◌, ◌≡◌, ◌∙◌, ◌⊎◌, inl, inr, Memᴰ, ◌==◌, ==_iff, Bool-cases, if◌then◌else◌,
}
use bao.Milp.Views.{Value}

-- `stableSortValues`. Among equal keys `std::sort` fixes no order; here the later one comes first.
insert_sorted : (Value → Value → Bool) → Value → List Value → List Value
insert_sorted lt v [] = v ∷ []
insert_sorted lt v (w ∷ ws) =
    let rest = insert_sorted lt v ws in if lt w v then w ∷ rest else v ∷ w ∷ ws

unfoldable pub sort_values : (Value → Value → Bool) → List Value → List Value
unfolding insert_sorted
sort_values lt [] = []
sort_values lt (v ∷ vs) = insert_sorted lt v (sort_values lt vs)

-- `std::unique`: of equal values that stand side by side the first stays.
skip_equal : Value → List Value → List Value
skip_equal v [] = []
skip_equal v (w ∷ ws) = if w == v then skip_equal v ws else w ∷ skip_equal w ws

unfoldable pub unique_values : List Value → List Value
unfolding skip_equal
unique_values [] = []
unique_values (v ∷ vs) = v ∷ skip_equal v vs

-- `collectSortedValues`, `stableSortAndUniqueValues`
unfoldable pub sort_unique : (Value → Value → Bool) → List Value → List Value
unfolding sort_values unique_values
sort_unique lt vs = unique_values (sort_values lt vs)

module _ (lt : Value → Value → Bool) where
  mem-insert_sorted :
      (a v : Value) (ws : List Value) → (a ≡ v) ⊎ Memᴰ a ws → Memᴰ a (insert_sorted lt v ws)
  unfolding insert_sorted
  mem-insert_sorted a v [] (inl e) = Memᴰ.head e
  mem-insert_sorted a v [] (inr h) = elim h [ ]
  mem-insert_sorted a v (w ∷ ws) h = elim (Bool-cases (lt w v)) [
    | inl t ↦ rw t (elim h [
      | inl e ↦ Memᴰ.tail (mem-insert_sorted a v ws (inl e))
      | inr k ↦ elim (Memᴰ.cases_cons k) [
        | inl e ↦ Memᴰ.head e
        | inr j ↦ Memᴰ.tail (mem-insert_sorted a v ws (inr j))
      ]
    ])
    | inr f ↦ rw f (elim h [ inl e ↦ Memᴰ.head e | inr k ↦ Memᴰ.tail k ])
  ]

  mem-sort_values : (a : Value) (vs : List Value) → Memᴰ a vs → Memᴰ a (sort_values lt vs)
  unfolding sort_values
  mem-sort_values a [] h = h
  mem-sort_values a (v ∷ vs) (Memᴰ.head e) = mem-insert_sorted a v (sort_values lt vs) (inl e)
  mem-sort_values a (v ∷ vs) (Memᴰ.tail h) =
      mem-insert_sorted a v (sort_values lt vs) (inr (mem-sort_values a vs h))

mem-skip_equal : (a v : Value) (ws : List Value) → Memᴰ a ws → (a ≡ v) ⊎ Memᴰ a (skip_equal v ws)
unfolding skip_equal
mem-skip_equal a v [] h = elim h [ ]
mem-skip_equal a v (w ∷ ws) h = elim (Bool-cases (w == v)) [
  | inl t ↦ rw t (elim (Memᴰ.cases_cons h) [
    | inl e ↦ inl (e ∙ (==_iff w v).0 t)
    | inr k ↦ mem-skip_equal a v ws k
  ])
  | inr f ↦ rw f (elim (Memᴰ.cases_cons h) [
    | inl e ↦ inr (Memᴰ.head e)
    | inr k ↦ elim (mem-skip_equal a w ws k) [
      | inl e ↦ inr (Memᴰ.head e)
      | inr j ↦ inr (Memᴰ.tail j)
    ]
  ])
]

-- No value is lost.
pub mem-sort_unique :
    (lt : Value → Value → Bool) (a : Value) (vs : List Value)
    → Memᴰ a vs
    → Memᴰ a (sort_unique lt vs)
unfolding sort_unique
mem-sort_unique lt a vs h = mem-unique (sort_values lt vs) (mem-sort_values lt a vs h)
  where
    mem-unique : (ws : List Value) → Memᴰ a ws → Memᴰ a (unique_values ws)
    mem-unique [] k = k
    mem-unique (w ∷ ws) k = elim (Memᴰ.cases_cons k) [
      | inl e ↦ Memᴰ.head e
      | inr j ↦ elim (mem-skip_equal a w ws j) [ inl e ↦ Memᴰ.head e | inr i ↦ Memᴰ.tail i ]
    ]

module _ (lt : Value → Value → Bool) where
  mem-of_insert_sorted :
      (a v : Value) (ws : List Value) → Memᴰ a (insert_sorted lt v ws) → (a ≡ v) ⊎ Memᴰ a ws
  unfolding insert_sorted
  mem-of_insert_sorted a v [] h = Memᴰ.cases_cons h
  mem-of_insert_sorted a v (w ∷ ws) h = elim (Bool-cases (lt w v)) [
    | inl t ↦ elim (Memᴰ.cases_cons (rw t at h)) [
      | inl e ↦ inr (Memᴰ.head e)
      | inr k ↦ elim (mem-of_insert_sorted a v ws k) [ inl e ↦ inl e | inr j ↦ inr (Memᴰ.tail j) ]
    ]
    | inr f ↦ Memᴰ.cases_cons (rw f at h)
  ]

  mem-of_sort_values : (a : Value) (vs : List Value) → Memᴰ a (sort_values lt vs) → Memᴰ a vs
  unfolding sort_values
  mem-of_sort_values a [] h = h
  mem-of_sort_values a (v ∷ vs) h = elim (mem-of_insert_sorted a v (sort_values lt vs) h) [
    | inl e ↦ Memᴰ.head e
    | inr k ↦ Memᴰ.tail (mem-of_sort_values a vs k)
  ]

mem-of_skip_equal : (a v : Value) (ws : List Value) → Memᴰ a (skip_equal v ws) → Memᴰ a ws
unfolding skip_equal
mem-of_skip_equal a v [] h = h
mem-of_skip_equal a v (w ∷ ws) h = elim (Bool-cases (w == v)) [
  | inl t ↦ Memᴰ.tail (mem-of_skip_equal a v ws (rw t at h))
  | inr f ↦ elim (Memᴰ.cases_cons (rw f at h)) [
    | inl e ↦ Memᴰ.head e
    | inr k ↦ Memᴰ.tail (mem-of_skip_equal a w ws k)
  ]
]

mem-of_unique : (a : Value) (ws : List Value) → Memᴰ a (unique_values ws) → Memᴰ a ws
unfolding unique_values
mem-of_unique a [] h = h
mem-of_unique a (w ∷ ws) h = elim (Memᴰ.cases_cons h) [
  | inl e ↦ Memᴰ.head e
  | inr k ↦ Memᴰ.tail (mem-of_skip_equal a w ws k)
]

-- No value is made up.
pub mem-of_sort_unique :
    (lt : Value → Value → Bool) (a : Value) (vs : List Value)
    → Memᴰ a (sort_unique lt vs)
    → Memᴰ a vs
unfolding sort_unique
mem-of_sort_unique lt a vs h = mem-of_sort_values lt a vs (mem-of_unique a (sort_values lt vs) h)
