-- ===== src/Analyzer/Tests.antt =====
-- A model with one cost, and the theorem on the missing keys applied to three queries.
use mathlib.Core.List.Memᴰ
use bao.Prelude.{ℕ, ◌≡◌, refl, false, true, Option, none, some, List, [], ◌∷◌}
use bao.Analyzer.EnergyModel.{Name, EnergyModel, has_energy, Query, instruction, call_to, ask_all}
use bao.Analyzer.EnergyModel.Recorded.{IsRecorded, ask_all-IsRecorded}

-- Only the mnemonic "r" has a cost.
abbrev sample_costs : Name → Option ℕ
sample_costs [] = none
sample_costs (c ∷ []) = some c
sample_costs (c ∷ d ∷ cs) = none

abbrev new_model : EnergyModel
new_model = record {
  costs = sample_costs;
  default_energy = 1;
  ignored_call_targets = λ n. false;
  required_keys = [];
  missing_keys = [];
}

abbrev sample_queries : List Query
sample_queries =
    instruction (114 ∷ []) []
    ∷ instruction (109 ∷ 111 ∷ []) (105 ∷ [])
    ∷ call_to (105 ∷ []) (102 ∷ []) (some 4)
    ∷ []

sample_has_energy : has_energy new_model (114 ∷ []) [] ≡ true
unfolding has_energy
sample_has_energy = refl

new_model-IsRecorded : IsRecorded sample_costs new_model
new_model-IsRecorded = record {
  same_costs = refl;
  asked = λ k i. absurd (Memᴰ.not-nil i);
  unpriced = λ k i. absurd (Memᴰ.not-nil i);
}

ask_all-IsRecorded_example : IsRecorded sample_costs (ask_all new_model sample_queries)
ask_all-IsRecorded_example =
    ask_all-IsRecorded sample_costs new_model sample_queries new_model-IsRecorded
