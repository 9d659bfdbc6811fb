-- ===== src/Analyzer/EnergyModel/Recorded.antt =====
-- The keys that `EnergyModel` reports as missing.
use mathlib.Core.List.Memᴰ
use mathlib.Core.Path.{subst}
use bao.Prelude.{
  ℕ, ◌≡◌, refl, sym, ◌∙◌, ap, inl, inr, Option, none, some, List, [], ◌∷◌, ◌++◌, Memᴰ, Bool-cases,
  Option-cases,
}
use bao.Analyzer.EnergyModel.{
  Name, EnergyModel, call_name, underscore, bytes_suffix, make_key, require, miss, get_energy,
  known_call, record_per_byte, unknown_call, is_ignored, get_call_energy, Query, instruction,
  call_to, ask, ask_all,
}

-- The model over these costs reports as missing only keys that it was asked for and has no cost for.
pub record IsRecorded (costs : Name → Option ℕ) (m : EnergyModel) : Type 0 where
  pub same_costs : m.costs ≡ costs
  pub asked : (k : Name) → Memᴰ k m.missing_keys → Memᴰ k m.required_keys
  pub unpriced : (k : Name) → Memᴰ k m.missing_keys → costs k ≡ none

module _ (costs : Name → Option ℕ) where
  abbrev Good : EnergyModel → Type 0
  Good = IsRecorded costs

  require-IsRecorded : (key : Name) (m : EnergyModel) → Good m → Good (require key m)
  require-IsRecorded key m h = record {
    same_costs = h.same_costs;
    asked = λ k i. Memᴰ.tail (h.asked k i);
    unpriced = h.unpriced;
  }

  miss-IsRecorded :
      (key : Name) (m : EnergyModel)
      → Good m
      → Memᴰ key m.required_keys
      → m.costs key ≡ none
      → Good (miss key m)
  miss-IsRecorded key m h i e = record {
    same_costs = h.same_costs;
    asked = λ k j. elim (Memᴰ.cases_cons j) [
      | inl same ↦ subst (λ n. Memᴰ n m.required_keys) (sym same) i
      | inr old ↦ h.asked k old
    ];
    unpriced = λ k j. elim (Memᴰ.cases_cons j) [
      | inl same ↦ ap costs same ∙ ap (λ f. f key) (sym h.same_costs) ∙ e
      | inr old ↦ h.unpriced k old
    ];
  }

  get_energy-IsRecorded :
      (m : EnergyModel) (mnemonic mode : Name) → Good m → Good (get_energy m mnemonic mode).0
  unfolding get_energy
  get_energy-IsRecorded m mnemonic mode h =
      let asked = require-IsRecorded (make_key mnemonic mode) m h in
      elim (Option-cases (m.costs (make_key mnemonic mode))) [
        | inr (e, q) ↦ rw (get_energy, q) asked
        | inl q ↦ elim (Option-cases (m.costs mnemonic)) [
          | inr (e, q') ↦ rw (get_energy, q, q') asked
          | inl q' ↦
              rw (get_energy, q, q')
                (miss-IsRecorded (make_key mnemonic mode) _ asked (Memᴰ.head refl) q)
        ]
      ]

  known_call-IsRecorded :
      (m : EnergyModel) (primary : Name) (base : ℕ) (size_arg : Option ℕ)
      → Good m
      → Good (known_call m primary base size_arg).0
  unfolding known_call
  known_call-IsRecorded m primary base none h = h
  known_call-IsRecorded m primary base (some size) h =
      let asked = require-IsRecorded (primary ++ bytes_suffix) m h in
      elim (Option-cases (m.costs (primary ++ bytes_suffix))) [
        | inr (e, q) ↦ rw (known_call, q) asked
        | inl q ↦
            rw (known_call, q)
              (miss-IsRecorded (primary ++ bytes_suffix) _ asked (Memᴰ.head refl) q)
      ]

  record_per_byte-IsRecorded :
      (m : EnergyModel) (primary : Name) (size_arg : Option ℕ)
      → Good m
      → Good (record_per_byte m primary size_arg)
  unfolding record_per_byte
  record_per_byte-IsRecorded m primary none h = h
  record_per_byte-IsRecorded m primary (some size) h =
      let asked = require-IsRecorded (primary ++ bytes_suffix) m h in
      elim (Option-cases (m.costs (primary ++ bytes_suffix))) [
        | inr (e, q) ↦ rw (record_per_byte, q) asked
        | inl q ↦
            rw (record_per_byte, q)
              (miss-IsRecorded (primary ++ bytes_suffix) _ asked (Memᴰ.head refl) q)
      ]

  record_per_byte-asks :
      (m : EnergyModel) (primary : Name) (size_arg : Option ℕ) (k : Name)
      → Memᴰ k m.required_keys
      → Memᴰ k (record_per_byte m primary size_arg).required_keys
  unfolding record_per_byte
  record_per_byte-asks m primary none k i = i
  record_per_byte-asks m primary (some size) k i =
      elim (Option-cases (m.costs (primary ++ bytes_suffix))) [
        | inr (e, q) ↦ rw (record_per_byte, q) (Memᴰ.tail i)
        | inl q ↦ rw (record_per_byte, q) (Memᴰ.tail i)
      ]

  unknown_call-IsRecorded :
      (m : EnergyModel) (primary mode : Name)
      → Good m
      → Memᴰ primary m.required_keys
      → costs primary ≡ none
      → Good (unknown_call m primary mode).0
  unfolding unknown_call
  unknown_call-IsRecorded m primary mode h i e =
      elim (Option-cases (m.costs (make_key call_name mode))) [
        | inr (c, q) ↦ rw (unknown_call, q) h
        | inl q ↦
            rw (unknown_call, q)
              (miss-IsRecorded primary m h i (ap (λ f. f primary) h.same_costs ∙ e))
      ]

  get_call_energy-IsRecorded :
      (m : EnergyModel) (mode target : Name) (size_arg : Option ℕ)
      → Good m
      → Good (get_call_energy m mode target size_arg).0
  unfolding get_call_energy
  get_call_energy-IsRecorded m mode [] size_arg h = get_energy-IsRecorded m call_name mode h
  get_call_energy-IsRecorded m mode (c ∷ cs) size_arg h =
      let primary = call_name ++ (underscore ++ (c ∷ cs)) in
      let asked = require-IsRecorded primary m h in
      elim (Bool-cases (is_ignored m (c ∷ cs))) [
        | inl t ↦ rw (get_call_energy, t) h
        | inr f ↦ elim (Option-cases (m.costs primary)) [
          | inr (e, q) ↦
              rw (get_call_energy, f, q) (known_call-IsRecorded _ primary e size_arg asked)
          | inl q ↦
              rw (get_call_energy, f, q)
                (unknown_call-IsRecorded _ primary mode
                  (record_per_byte-IsRecorded _ primary size_arg asked)
                  (record_per_byte-asks _ primary size_arg primary (Memᴰ.head refl))
                  (ap (λ g. g primary) (sym h.same_costs) ∙ q))
        ]
      ]

  ask-IsRecorded : (m : EnergyModel) (q : Query) → Good m → Good (ask m q).0
  ask-IsRecorded m (instruction mnemonic mode) h = get_energy-IsRecorded m mnemonic mode h
  ask-IsRecorded m (call_to mode target size_arg) h =
      get_call_energy-IsRecorded m mode target size_arg h

  -- Whatever instructions and calls the analyzer asks for, a model that reports as missing only keys
  -- that it was asked for and that have no cost goes on doing so, with the same costs.
  pub ask_all-IsRecorded :
      (m : EnergyModel) (qs : List Query) → IsRecorded costs m → IsRecorded costs (ask_all m qs)
  unfolding ask_all
  ask_all-IsRecorded m [] h = h
  ask_all-IsRecorded m (q ∷ qs) h = ask_all-IsRecorded (ask m q).0 qs (ask-IsRecorded m q h)
