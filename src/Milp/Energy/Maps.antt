-- ===== src/Milp/Energy/Maps.antt =====
-- The loops of `EnergyModel` of passes/src/milp/EnergyModel.cpp as writes to maps.
use mathlib.Core.Option.{some-injective, none-ne-some}
use mathlib.Core.Path.{subst}
use mathlib.Core.Bool.{false≢true}
use bao.Prelude.{
  ℕ, ◌≡◌, refl, sym, ◌∙◌, ap, ◌⊎◌, inl, inr, true, false, Option, none, some, List, [], ◌∷◌, ◌==◌,
  ==_iff, ==_refl, Bool-cases, contains,
}
use bao.Milp.Views.{NodeId, Value}
use bao.Milp.Energy.{
  EnergyInput, EnergyMaps, put_option, is_missing, frequency, frequencies_over, nvm_penalty,
  nvm_penalties_of, nvm_penalties_over, save_cost, restore_cost, save_restore_over,
}

module _ (inp : EnergyInput) (cost : Value → Option ℕ) (v : Value) where
  -- The entry is absent or final.
  abbrev pub IsPending : (Value → Option ℕ) → Type 0
  IsPending f = (f v ≡ none) ⊎ (f v ≡ cost v)

  pub puts : List Value → (Value → Option ℕ) → Value → Option ℕ
  puts [] f = f
  puts (w ∷ ws) f = puts ws (put_option inp w (cost w) f)

  put_option-other :
      (w : Value) (c : Option ℕ) (f : Value → Option ℕ)
      → (v == w) ≡ false
      → put_option inp w c f v ≡ f v
  put_option-other w none f h = refl
  put_option-other w (some e) f h = rw h refl

  put_option-same :
      (c : Option ℕ) (w : Value) (f : Value → Option ℕ)
      → (v == w) ≡ true
      → (f v ≡ none) ⊎ (f v ≡ c)
      → put_option inp w c f v ≡ c
  put_option-same none w f h (inl e) = e
  put_option-same none w f h (inr e) = e
  put_option-same (some e) w f h k = rw h refl

  put-final :
      (w : Value) (f : Value → Option ℕ)
      → (v == w) ≡ true
      → IsPending f
      → put_option inp w (cost w) f v ≡ cost v
  put-final w f h k =
      subst (λ u. put_option inp w (cost u) f v ≡ cost v) ((==_iff v w).0 h)
        (put_option-same (cost v) w f h k)

  put-IsPending :
      (w : Value) (f : Value → Option ℕ) → IsPending f → IsPending (put_option inp w (cost w) f)
  put-IsPending w f k = elim (Bool-cases (v == w)) [
    | inl t ↦ inr (put-final w f t k)
    | inr o ↦ subst (λ e. (e ≡ none) ⊎ (e ≡ cost v)) (sym (put_option-other w (cost w) f o)) k
  ]

  pub puts-IsPending :
      (ws : List Value) (f : Value → Option ℕ) → IsPending f → IsPending (puts ws f)
  unfolding puts
  puts-IsPending [] f k = k
  puts-IsPending (w ∷ ws) f k = puts-IsPending ws _ (put-IsPending w f k)

  pub puts-final : (ws : List Value) (f : Value → Option ℕ) → f v ≡ cost v → puts ws f v ≡ cost v
  unfolding puts
  puts-final [] f k = k
  puts-final (w ∷ ws) f k = puts-final ws _ (elim (Bool-cases (v == w)) [
    | inl t ↦ put-final w f t (inr k)
    | inr o ↦ put_option-other w (cost w) f o ∙ k
  ])

  pub puts-mem :
      (ws : List Value) (f : Value → Option ℕ)
      → IsPending f
      → contains ws v ≡ true
      → puts ws f v ≡ cost v
  unfolding puts contains
  puts-mem [] f k m = absurd (false≢true m)
  puts-mem (w ∷ ws) f k m = elim (Bool-cases (v == w)) [
    | inl t ↦ puts-final ws _ (put-final w f t k)
    | inr o ↦ puts-mem ws _ (put-IsPending w f k) (rw o at m)
  ]

module _ (inp : EnergyInput) where
  pub save_restore_over-saves :
      (vs : List Value) (maps : EnergyMaps) (v : Value)
      → (save_restore_over inp vs maps).e_save_by_var v
        ≡ puts inp (save_cost inp) v vs maps.e_save_by_var v
  unfolding save_restore_over puts
  save_restore_over-saves [] maps v = refl
  save_restore_over-saves (w ∷ ws) maps v = save_restore_over-saves ws _ v

  pub save_restore_over-restores :
      (vs : List Value) (maps : EnergyMaps) (v : Value)
      → (save_restore_over inp vs maps).e_restore_by_var v
        ≡ puts inp (restore_cost inp) v vs maps.e_restore_by_var v
  unfolding save_restore_over puts
  save_restore_over-restores [] maps v = refl
  save_restore_over-restores (w ∷ ws) maps v = save_restore_over-restores ws _ v

  pub save_restore_over-nvm :
      (vs : List Value) (maps : EnergyMaps) → (save_restore_over inp vs maps).e_nvm ≡ maps.e_nvm
  unfolding save_restore_over
  save_restore_over-nvm [] maps = refl
  save_restore_over-nvm (w ∷ ws) maps = save_restore_over-nvm ws _

  pub save_restore_over-f_entry :
      (vs : List Value) (maps : EnergyMaps) → (save_restore_over inp vs maps).f_entry ≡ maps.f_entry
  unfolding save_restore_over
  save_restore_over-f_entry [] maps = refl
  save_restore_over-f_entry (w ∷ ws) maps = save_restore_over-f_entry ws _

  -- One block's penalties, then all of them.
  nvm_penalties_of-puts :
      (b : NodeId) (vs : List Value) (e : NodeId → Value → Option ℕ) (v : Value)
      → nvm_penalties_of inp b vs e b v ≡ puts inp (nvm_penalty inp b) v vs (e b) v
  unfolding nvm_penalties_of puts
  nvm_penalties_of-puts b [] e v = refl
  nvm_penalties_of-puts b (w ∷ ws) e v = nvm_penalties_of-puts b ws _ v ∙ rw (==_refl b) refl

  nvm_penalties_of-other :
      (b c : NodeId) (vs : List Value) (e : NodeId → Value → Option ℕ)
      → (c == b) ≡ false
      → nvm_penalties_of inp b vs e c ≡ e c
  unfolding nvm_penalties_of
  nvm_penalties_of-other b c [] e h = refl
  nvm_penalties_of-other b c (w ∷ ws) e h = nvm_penalties_of-other b c ws _ h ∙ rw h refl

  module _ (c : NodeId) (v : Value) where
    abbrev Pending : (NodeId → Value → Option ℕ) → Type 0
    Pending e = IsPending inp (nvm_penalty inp c) v (e c)

    nvm_round :
        (b : NodeId) (e : NodeId → Value → Option ℕ)
        → Pending e
        → Pending (nvm_penalties_of inp b inp.vm_objs e)
    nvm_round b e k = elim (Bool-cases (c == b)) [
      | inl t ↦
          subst (λ o. (o ≡ none) ⊎ (o ≡ nvm_penalty inp c v))
            (sym (
              subst
                (λ a.
                  nvm_penalties_of inp a inp.vm_objs e c v
                  ≡ puts inp (nvm_penalty inp c) v inp.vm_objs (e c) v)
                ((==_iff c b).0 t) (nvm_penalties_of-puts c inp.vm_objs e v)))
            (puts-IsPending inp (nvm_penalty inp c) v inp.vm_objs (e c) k)
      | inr o ↦
          subst (λ f. IsPending inp (nvm_penalty inp c) v f)
            (sym (nvm_penalties_of-other b c inp.vm_objs e o)) k
    ]

    nvm_penalties_over-pending :
        (bs : List NodeId) (e : NodeId → Value → Option ℕ)
        → e c v ≡ nvm_penalty inp c v
        → nvm_penalties_over inp bs e c v ≡ nvm_penalty inp c v
    unfolding nvm_penalties_over
    nvm_penalties_over-pending [] e k = k
    nvm_penalties_over-pending (b ∷ bs) e k =
        nvm_penalties_over-pending bs _ (elim (Bool-cases (c == b)) [
          | inl t ↦
              subst (λ a. nvm_penalties_of inp a inp.vm_objs e c v ≡ nvm_penalty inp c v)
                ((==_iff c b).0 t)
                (nvm_penalties_of-puts c inp.vm_objs e v
                  ∙ puts-final inp (nvm_penalty inp c) v inp.vm_objs (e c) k)
          | inr o ↦ ap (λ f. f v) (nvm_penalties_of-other b c inp.vm_objs e o) ∙ k
        ])

    pub nvm_penalties_over-mem :
        (bs : List NodeId) (e : NodeId → Value → Option ℕ)
        → Pending e
        → contains bs c ≡ true
        → contains inp.vm_objs v ≡ true
        → nvm_penalties_over inp bs e c v ≡ nvm_penalty inp c v
    unfolding nvm_penalties_over contains
    nvm_penalties_over-mem [] e k m n = absurd (false≢true m)
    nvm_penalties_over-mem (b ∷ bs) e k m n = elim (Bool-cases (c == b)) [
      | inl t ↦ nvm_penalties_over-pending bs _ (
          subst (λ a. nvm_penalties_of inp a inp.vm_objs e c v ≡ nvm_penalty inp c v)
            ((==_iff c b).0 t)
            (nvm_penalties_of-puts c inp.vm_objs e v
              ∙ puts-mem inp (nvm_penalty inp c) v inp.vm_objs (e c) k n))
      | inr o ↦ nvm_penalties_over-mem bs _ (nvm_round b e k) (rw o at m) n
    ]

  module _ (n : ℕ) (b : NodeId) where
    frequencies_over-kept :
        (bs : List NodeId) (f g : NodeId → Option (ℕ × ℕ))
        → frequencies_over inp n bs f ≡ some g
        → f b ≡ some (frequency inp n b)
        → g b ≡ some (frequency inp n b)
    unfolding frequencies_over
    frequencies_over-kept [] f g h k = ap (λ u. u b) (sym (some-injective f g h)) ∙ k
    frequencies_over-kept (c ∷ cs) f g h k = elim (Bool-cases (is_missing inp c)) [
      | inl t ↦ absurd (none-ne-some g (rw (t, frequencies_over) at h))
      | inr o ↦
          frequencies_over-kept cs _ g (rw (o, frequencies_over) at h) (elim (Bool-cases (b == c)) [
            | inl t ↦ rw t (ap (λ u. some (frequency inp n u)) (sym ((==_iff b c).0 t)))
            | inr u ↦ rw u k
          ])
    ]

    pub frequencies_over-mem :
        (bs : List NodeId) (f g : NodeId → Option (ℕ × ℕ))
        → frequencies_over inp n bs f ≡ some g
        → contains bs b ≡ true
        → (g b ≡ some (frequency inp n b)) × (is_missing inp b ≡ false)
    unfolding frequencies_over contains
    frequencies_over-mem [] f g h m = absurd (false≢true m)
    frequencies_over-mem (c ∷ cs) f g h m = elim (Bool-cases (is_missing inp c)) [
      | inl t ↦ absurd (none-ne-some g (rw (t, frequencies_over) at h))
      | inr o ↦ elim (Bool-cases (b == c)) [
        | inl t ↦
            let same = sym ((==_iff b c).0 t) in
            (
              frequencies_over-kept cs _ g (rw (o, frequencies_over) at h)
                  (rw t (ap (λ u. some (frequency inp n u)) same)),
              ap (is_missing inp) (sym same) ∙ o,
            )
        | inr u ↦ frequencies_over-mem cs _ g (rw (o, frequencies_over) at h) (rw u at m)
      ]
    ]
