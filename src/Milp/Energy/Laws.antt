-- ===== src/Milp/Energy/Laws.antt =====
-- What the maps of `EnergyModel` hold once the constructor has run.
use mathlib.Core.Option.{some-injective, none-ne-some}
use mathlib.Core.Path.{subst}
use mathlib.Core.Bool.{false≢true}
use bao.Prelude.{
  ℕ, zero, suc, ◌+◌, ◌*◌, ◌%◌, ◌^◌, max, ◌≡◌, refl, sym, ◌∙◌, ap, ◌⊎◌, inl, inr, Bool, true, false,
  Option, none, some, Option-cases, if◌then◌else◌, contains, arith,
}
use bao.Milp.Views.{NodeId, Value}
use bao.Milp.Graph.Entry.{IsReachable, search-IsReachable}
use bao.Milp.Energy.{
  EnergyInput, EnergyMaps, is_missing, frequency, frequencies_over, compute_frequencies_from_file,
  nvm_penalties_over, save_cost, restore_cost, compute_save_restore_costs, energy_model, or_default,
  get_e_nvm, get_e_save, get_e_restore, get_f_entry,
}
use bao.Milp.Energy.Maps.{
  puts, puts-IsPending, puts-final, puts-mem, save_restore_over-saves, save_restore_over-restores,
  save_restore_over-nvm, save_restore_over-f_entry, nvm_penalties_over-mem, frequencies_over-mem,
}

module _ (inp : EnergyInput) where
  -- How a model comes about.
  record Built (maps : EnergyMaps) : Type 0 where
    entry_count : ℕ
    counted : inp.block_count inp.entry ≡ some entry_count
    f : NodeId → Option (ℕ × ℕ)
    ran : frequencies_over inp (max entry_count 1) inp.function_blocks (λ b. none) ≡ some f
    is_maps :
        maps
        ≡ compute_save_restore_costs inp record {
          f_entry = f;
          e_nvm = nvm_penalties_over inp inp.blocks (λ b v. none);
          e_save_by_var = λ v. none;
          e_restore_by_var = λ v. none;
        }

  energy_model-Built : (maps : EnergyMaps) → energy_model inp ≡ some maps → Built maps
  unfolding energy_model compute_frequencies_from_file
  energy_model-Built maps h = elim (Option-cases (inp.block_count inp.entry)) [
    | inl e ↦ absurd (none-ne-some maps (rw (energy_model, compute_frequencies_from_file, e) at h))
    | inr (n, e) ↦
        elim (Option-cases (frequencies_over inp (max n 1) inp.function_blocks (λ b. none))) [
          | inl e' ↦
              absurd
                (none-ne-some maps (rw (energy_model, compute_frequencies_from_file, e, e') at h))
          | inr (f, e') ↦ record {
            entry_count = n;
            counted = e;
            f = f;
            ran = e';
            is_maps = sym (
                some-injective _ maps
                  (rw (energy_model, compute_frequencies_from_file, e, e') at h));
          }
        ]
  ]

  missing_unreachable :
      (b : NodeId)
      → inp.block_count b ≡ none
      → is_missing inp b ≡ false
      → ¬ IsReachable inp.edges inp.entry b
  missing_unreachable b n found r =
      false≢true (sym (rw (n, is_missing) at found) ∙ search-IsReachable inp.edges inp.entry b r)

  -- Once the constructor has run, the entry has a count; the frequency of a block of the function that
  -- has a count is this count over that of the entry, or over 1 if that is 0; a block without a count
  -- has the frequency 0, and no path leads to it from the entry.
  pub energy_model-frequency :
      (maps : EnergyMaps) (b : NodeId)
      → energy_model inp ≡ some maps
      → contains inp.function_blocks b ≡ true
      → (k : ℕ) × (inp.block_count inp.entry ≡ some k)
        × ((n : ℕ) → inp.block_count b ≡ some n → get_f_entry maps b ≡ (n, max k 1))
        × (inp.block_count b ≡ none
            → (get_f_entry maps b ≡ (0, 1)) × ¬ IsReachable inp.edges inp.entry b)
  unfolding get_f_entry compute_save_restore_costs
  energy_model-frequency maps b h m =
      let built = energy_model-Built maps h in
      let (at, found) =
        frequencies_over-mem inp (max built.entry_count 1) b inp.function_blocks (λ b. none) built.f
          built.ran m in
      let value =
        ap (λ (u : EnergyMaps). or_default (1, 1) (u.f_entry b)) built.is_maps
        ∙ ap (λ u. or_default (1, 1) (u b))
            (save_restore_over-f_entry inp inp.ineligible_objs _
              ∙ save_restore_over-f_entry inp inp.vm_objs _)
        ∙ ap (or_default (1, 1)) at in
      (
        built.entry_count,
        built.counted,
        λ n e. value ∙ rw (e, frequency) refl,
        λ e. (value ∙ rw (e, frequency) refl, missing_unreachable b e found),
      )

  -- Once the constructor has run, the penalty of a tracked global in a block is its loads and stores
  -- there, added up in 32 bits, times the penalty of one access.
  pub energy_model-nvm :
      (maps : EnergyMaps) (b : NodeId) (v : Value)
      → energy_model inp ≡ some maps
      → contains inp.blocks b ≡ true
      → contains inp.vm_objs v ≡ true
      → get_e_nvm maps b v
        ≡ ((inp.load_count b v + inp.store_count b v) % 2 ^ 32) * inp.nvm_access_penalty
  unfolding get_e_nvm compute_save_restore_costs
  energy_model-nvm maps b v h m n =
      let built = energy_model-Built maps h in
      ap (λ (u : EnergyMaps). or_default 0 (u.e_nvm b v)) built.is_maps
      ∙ ap (λ u. or_default 0 (u b v))
          (save_restore_over-nvm inp inp.ineligible_objs _
            ∙ save_restore_over-nvm inp inp.vm_objs _)
      ∙ ap (or_default 0) (nvm_penalties_over-mem inp b v inp.blocks (λ b v. none) (inl refl) m n)
      ∙ closed ((inp.load_count b v + inp.store_count b v) % 2 ^ 32)
    where
      closed :
          (k : ℕ)
          → or_default 0 (elim k as (λ x. Option ℕ) [
            | zero ↦ none
            | suc n ↦ some (suc n * inp.nvm_access_penalty)
          ])
            ≡ k * inp.nvm_access_penalty
      closed zero = omega arith
      closed (suc k) = refl

  -- Once the constructor has run, a tracked value that is a register costs a register's energy to save
  -- and to restore, and any other its size times the energy of a byte.
  pub energy_model-copies :
      (maps : EnergyMaps) (v : Value)
      → energy_model inp ≡ some maps
      → (contains inp.vm_objs v ≡ true) ⊎ (contains inp.ineligible_objs v ≡ true)
      → (get_e_save maps v ≡ (
          if inp.is_register v
          then inp.reg_store_energy
          else inp.var_size_bytes v * inp.mem_store_energy_per_byte))
        × (get_e_restore maps v ≡ (
            if inp.is_register v
            then inp.reg_restore_energy
            else inp.var_size_bytes v * inp.mem_restore_energy_per_byte))
  unfolding get_e_save get_e_restore compute_save_restore_costs
  energy_model-copies maps v h tracked =
      let built = energy_model-Built maps h in
      (
        ap (λ (u : EnergyMaps). or_default 0 (u.e_save_by_var v)) built.is_maps
            ∙ ap (or_default 0) (
                save_restore_over-saves inp inp.ineligible_objs _ v
                ∙ both (save_cost inp) _ (save_restore_over-saves inp inp.vm_objs _ v))
            ∙ closed (inp.is_register v) (inp.var_size_bytes v) inp.reg_store_energy
                inp.mem_store_energy_per_byte,
        ap (λ (u : EnergyMaps). or_default 0 (u.e_restore_by_var v)) built.is_maps
            ∙ ap (or_default 0) (
                save_restore_over-restores inp inp.ineligible_objs _ v
                ∙ both (restore_cost inp) _ (save_restore_over-restores inp inp.vm_objs _ v))
            ∙ closed (inp.is_register v) (inp.var_size_bytes v) inp.reg_restore_energy
                inp.mem_restore_energy_per_byte,
      )
    where
      both :
          (cost : Value → Option ℕ) (g : Value → Option ℕ)
          → g v ≡ puts inp cost v inp.vm_objs (λ w. none) v
          → puts inp cost v inp.ineligible_objs g v ≡ cost v
      both cost g e = elim tracked [
        | inl m ↦
            puts-final inp cost v inp.ineligible_objs g
              (e ∙ puts-mem inp cost v inp.vm_objs (λ w. none) (inl refl) m)
        | inr m ↦
            puts-mem inp cost v inp.ineligible_objs g
              (subst (λ o. (o ≡ none) ⊎ (o ≡ cost v)) (sym e)
                (puts-IsPending inp cost v inp.vm_objs (λ w. none) (inl refl)))
              m
      ]

      closed :
          (r : Bool) (k reg byte : ℕ)
          → or_default 0 (
              if r
              then some reg
              else (elim k as (λ x. Option ℕ) [ zero ↦ none | suc n ↦ some (suc n * byte) ]))
            ≡ (if r then reg else k * byte)
      closed true k reg byte = refl
      closed false zero reg byte = omega arith
      closed false (suc k) reg byte = refl
