-- ===== src/Schematic/Rcg/Cuts.antt =====
-- The positions of the candidates of `getCheckpointsFromTrace`, and slices of a list between them.
use bao.Prelude.{
  ℕ, zero, suc, ◌+◌, ◌-◌, ◌≤◌, ◌<◌, ◌≡◌, refl, sym, ◌∙◌, ap, inl, inr, Bool, ◌&&◌, List, [], ◌∷◌,
  ◌++◌, Bool-cases, if◌then◌else◌, ltb, length, get_or, take, drop, arith,
}
use bao.Schematic.Types.{Block, start_node, candidate_edge, end_node, RcgNode}
use bao.Schematic.Rcg.{candidates, start_of_trace}

module _ {ℓ} {A : Type ℓ} where
  abbrev pub concat : List (List A) → List A
  concat [] = []
  concat (xs ∷ xss) = xs ++ concat xss

  pub drop-take_same : (n : ℕ) (xs : List A) → drop n (take n xs) ≡ []
  drop-take_same zero xs = refl
  drop-take_same (suc n) [] = refl
  drop-take_same (suc n) (x ∷ xs) = drop-take_same n xs

  take_append : (b c : ℕ) (xs : List A) → b ≤ c → take b xs ++ drop b (take c xs) ≡ take c xs
  take_append zero c xs le = refl
  take_append (suc b) zero xs le = absurd (omega arith)
  take_append (suc b) (suc c) [] le = refl
  take_append (suc b) (suc c) (x ∷ xs) le = ap (λ ys. x ∷ ys) (take_append b c xs (omega arith))

  -- Two slices side by side.
  pub slice_append :
      (a b c : ℕ) (xs : List A)
      → a ≤ b
      → b ≤ c
      → drop a (take b xs) ++ drop b (take c xs) ≡ drop a (take c xs)
  slice_append zero b c xs ab bc = take_append b c xs bc
  slice_append (suc a) zero c xs ab bc = absurd (omega arith)
  slice_append (suc a) (suc b) zero xs ab bc = absurd (omega arith)
  slice_append (suc a) (suc b) (suc c) [] ab bc = refl
  slice_append (suc a) (suc b) (suc c) (x ∷ xs) ab bc =
      slice_append a b c xs (omega arith) (omega arith)

-- The cut in front of a node, where the last one is at `end`.
abbrev pub cut_of : ℕ → RcgNode → ℕ
cut_of end n = elim n.kind [ candidate_edge ↦ n.block_index | _ ↦ end ]

-- Candidates at rising positions, after `low` and up to `end`.
abbrev pub IsRising : ℕ → ℕ → List RcgNode → Type 0
IsRising end low [] = low ≤ end
IsRising end low (n ∷ ns) =
    (n.kind ≡ candidate_edge) × (low < n.block_index) × IsRising end n.block_index ns

IsRising-lower :
    (end low low' : ℕ) (ns : List RcgNode) → low' ≤ low → IsRising end low ns → IsRising end low' ns
IsRising-lower end low low' [] le h = omega arith
IsRising-lower end low low' (n ∷ ns) le h = (h.0, omega (arith, h.1), h.2)

candidates-IsRising :
    (is_call : Block → Bool) (end i : ℕ) (b : Block) (bs : List Block)
    → i + length bs ≡ end
    → IsRising end i (candidates is_call i (b ∷ bs))
unfolding candidates
candidates-IsRising is_call end i b [] sum = omega arith
candidates-IsRising is_call end i a (b ∷ bs) sum =
    let rest = candidates-IsRising is_call end (suc i) b bs (omega arith) in
    elim (Bool-cases (is_call a && is_call b)) [
      | inl skip ↦ rw (skip, candidates) (IsRising-lower end (suc i) i _ (omega arith) rest)
      | inr keep ↦ rw (keep, candidates) (refl, omega arith, rest)
    ]

module _ (last : RcgNode) (end : ℕ) (at_end : cut_of end last ≡ end) where
  abbrev pub nth : List RcgNode → ℕ → RcgNode
  nth ns k = get_or (ns ++ last ∷ []) k start_of_trace

  pub nth-last : (ns : List RcgNode) → nth ns (length ns) ≡ last
  nth-last [] = refl
  nth-last (n ∷ ns) = nth-last ns

  pub nth-candidate :
      (low : ℕ) (ns : List RcgNode) (k : ℕ)
      → IsRising end low ns
      → k < length ns
      → ((nth ns k).kind ≡ candidate_edge) × (low < (nth ns k).block_index)
  nth-candidate low [] k h lt = absurd (omega arith)
  nth-candidate low (n ∷ ns) zero h lt = (h.0, h.1)
  nth-candidate low (n ∷ ns) (suc k) h lt =
      let (kind, more) = nth-candidate n.block_index ns k h.2 (omega arith) in
      (kind, omega (arith, more, h.1))

  low_le_cut :
      (low : ℕ) (ns : List RcgNode) (k : ℕ)
      → IsRising end low ns
      → k ≤ length ns
      → low ≤ cut_of end (nth ns k)
  low_le_cut low [] zero h le = omega (arith, at_end, h)
  low_le_cut low [] (suc k) h le = absurd (omega arith)
  low_le_cut low (n ∷ ns) zero h le = rw h.0 (omega (arith, h.1))
  low_le_cut low (n ∷ ns) (suc k) h le =
      omega (arith, low_le_cut n.block_index ns k h.2 (omega arith), h.1)

  pub cut_mono :
      (low : ℕ) (ns : List RcgNode) (k m : ℕ)
      → IsRising end low ns
      → k ≤ m
      → m ≤ length ns
      → cut_of end (nth ns k) ≤ cut_of end (nth ns m)
  cut_mono low ns zero zero h km le = omega arith
  cut_mono low ns (suc k) zero h km le = absurd (omega arith)
  cut_mono low [] k (suc m) h km le = absurd (omega arith)
  cut_mono low (n ∷ ns) zero (suc m) h km le =
      rw h.0 (low_le_cut n.block_index ns m h.2 (omega arith))
  cut_mono low (n ∷ ns) (suc k) (suc m) h km le =
      cut_mono n.block_index ns k m h.2 (omega arith) (omega arith)

pub all_candidates-IsRising :
    (is_call : Block → Bool) (end : ℕ) (bs : List Block)
    → length bs ≡ suc end
    → IsRising end 0 (candidates is_call 0 bs)
all_candidates-IsRising is_call end [] sum = absurd (omega arith)
all_candidates-IsRising is_call end (b ∷ bs) sum =
    candidates-IsRising is_call end 0 b bs (omega arith)

-- What the two ends of an interval read off a node.
abbrev pub first_index : RcgNode → ℕ
first_index n = elim n.kind [ start_node ↦ 1 | _ ↦ n.block_index ]

abbrev pub last_index : ℕ → RcgNode → ℕ
last_index count n = elim n.kind [ end_node ↦ count - 2 | _ ↦ n.block_index - 1 ]

pub candidate_reads :
    (end count : ℕ) (n : RcgNode)
    → n.kind ≡ candidate_edge
    → (cut_of end n ≡ n.block_index)
      × (first_index n ≡ n.block_index)
      × (last_index count n ≡ n.block_index - 1)
candidate_reads end count n h = (rw h refl, rw h refl, rw h refl)

pub slice_lem :
    (first last a b : ℕ) (bs : List Block)
    → first ≡ a
    → last + 1 ≡ b
    → a ≤ b
    → (if ltb last first then [] else drop first (take (last + 1) bs)) ≡ drop a (take b bs)
slice_lem first last a b bs fa lb ab = elim (Bool-cases (ltb last first)) [
  | inl t ↦ rw t (sym (drop-take_same a bs) ∙ ap (λ k. drop a (take k bs)) (ground arith))
  | inr f ↦ rw (f, fa, lb) refl
]
