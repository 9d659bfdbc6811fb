-- ===== src/Schematic/Allocator/Addresses.antt =====
-- `VMAddressTracker` of passes/src/schematic/MemoryAllocator.cpp: the addresses it has given out.
use mathlib.Core.Option.{some-injective, none-ne-some}
use native.Mathlib.Nat.{mod-eq_of_lt}
use bao.Prelude.{
  ℕ, ◌+◌, ◌≤◌, ◌<◌, ◌≡◌, ◌≢◌, sym, ◌∙◌, ap, ◌⊎◌, inl, inr, none, some, List, ◌==◌, ==_iff,
  Bool-cases, arith,
}
use bao.Schematic.Entries.{find, assign, find-assign_same, find-assign_other, find-assign_cases}
use bao.Schematic.Allocator.{Value, VmAddressTracker, record_allocation}

module _ (sizes : Value → ℕ) where
  -- The values lie below the top, and no two share a byte.
  pub record IsPacked (tr : VmAddressTracker) : Type 0 where
    pub below :
        (v : Value) (a : ℕ) → find tr.allocated_vars v ≡ some a → a + sizes v ≤ tr.top_address
    pub apart :
        (v w : Value) (a b : ℕ)
        → v ≢ w
        → find tr.allocated_vars v ≡ some a
        → find tr.allocated_vars w ≡ some b
        → (a + sizes v ≤ b) ⊎ (b + sizes w ≤ a)

  -- The later tracker has the addresses of the earlier.
  abbrev pub Extends : VmAddressTracker → VmAddressTracker → Type 0
  Extends tr tr' =
      (v : Value) (a : ℕ) → find tr.allocated_vars v ≡ some a → find tr'.allocated_vars v ≡ some a

  -- The offsets are the tracker's addresses.
  abbrev pub Agrees : VmAddressTracker → List (Value × ℕ) → Type 0
  Agrees tr offsets =
      (v : Value) (a : ℕ) → find offsets v ≡ some a → find tr.allocated_vars v ≡ some a

  pub Agrees-Extends :
      (tr tr' : VmAddressTracker) (offsets : List (Value × ℕ))
      → Extends tr tr'
      → Agrees tr offsets
      → Agrees tr' offsets
  Agrees-Extends tr tr' offsets e h v a k = e v a (h v a k)

  pub Agrees-assign :
      (tr : VmAddressTracker) (v : Value) (a : ℕ) (offsets : List (Value × ℕ))
      → find tr.allocated_vars v ≡ some a
      → Agrees tr offsets
      → Agrees tr (assign v a offsets)
  Agrees-assign tr v a offsets known h w b k = elim (find-assign_cases v w a b offsets k) [
    | inl (same, e) ↦ ap (find tr.allocated_vars) same ∙ known ∙ e
    | inr (n, k') ↦ h w b k'
  ]

  module _ (tr : VmAddressTracker) (v : Value) (fresh : find tr.allocated_vars v ≡ none)
      (small : tr.top_address + sizes v < 4294967296) where
    abbrev grown : VmAddressTracker
    grown = record_allocation tr v (sizes v)

    pub top-record_allocation : grown.top_address ≡ tr.top_address + sizes v
    unfolding record_allocation
    top-record_allocation = mod-eq_of_lt small

    pub find-record_allocation : find grown.allocated_vars v ≡ some tr.top_address
    unfolding record_allocation
    find-record_allocation = find-assign_same v tr.top_address tr.allocated_vars

    find-grown :
        (w : Value) (b : ℕ)
        → find grown.allocated_vars w ≡ some b
        → (w ≡ v) × (b ≡ tr.top_address) ⊎ (find tr.allocated_vars w ≡ some b)
    unfolding record_allocation
    find-grown w b h = elim (find-assign_cases v w tr.top_address b tr.allocated_vars h) [
      | inl (same, e) ↦ inl (same, sym (some-injective tr.top_address b e))
      | inr (n, k) ↦ inr k
    ]

    pub record_allocation-Extends : Extends tr grown
    unfolding record_allocation
    record_allocation-Extends w b h = elim (Bool-cases (v == w)) [
      | inl e ↦
          absurd (none-ne-some b (sym fresh ∙ ap (find tr.allocated_vars) ((==_iff v w).0 e) ∙ h))
      | inr n ↦ find-assign_other v w tr.top_address tr.allocated_vars n ∙ h
    ]

    -- A value that has no address yet gets one above the others.
    pub record_allocation-IsPacked : IsPacked tr → IsPacked grown
    record_allocation-IsPacked p = record {
      below = λ w b h. elim (find-grown w b h) [
        | inl (same, e) ↦ omega (arith, top-record_allocation, e, ap sizes same)
        | inr k ↦ omega (arith, top-record_allocation, p.below w b k)
      ];
      apart = λ x w a b other h k. elim (find-grown x a h) [
        | inl (xv, ea) ↦ elim (find-grown w b k) [
          | inl (wv, eb) ↦ absurd (other (xv ∙ sym wv))
          | inr k' ↦ inr (omega (arith, p.below w b k', ea))
        ]
        | inr h' ↦ elim (find-grown w b k) [
          | inl (wv, eb) ↦ inl (omega (arith, p.below x a h', eb))
          | inr k' ↦ p.apart x w a b other h' k'
        ]
      ];
    }
