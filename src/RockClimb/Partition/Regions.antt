-- ===== src/RockClimb/Partition/Regions.antt =====
-- The regions that `partitionRegions` of passes/rockclimb-backend/RockClimbMachineOptimizer.cpp forms
-- out of the order of the blocks and the set of boundaries.
use mathlib.Core.List.{append_assoc}
use mathlib.Core.List.Memᴰ
use bao.Prelude.{
  ℕ, ◌+◌, ◌≡◌, refl, ◌∙◌, ap, ◌⊎◌, inl, inr, true, false, List, [], ◌∷◌, ◌++◌, flat_map, ◌==◌,
  ==_iff, Bool-cases, contains, All, Memᴰ, sum_map, sum_map-append, arith,
}
use bao.RockClimb.Machine.{BlockId, MachineFunction}
use bao.RockClimb.Partition.{MachineRegionInfo, OpenRegion, finish_region, form_regions}
use bao.RockClimb.Partition.Segments.{Avoids}

module _ (cost : BlockId → ℕ) (entry : BlockId) where
  -- The region begins with its start block, which is a boundary or the first block of all, has no
  -- boundary after it, and its energy is that of its blocks.
  pub record IsRegion (boundaries : List BlockId) (g : MachineRegionInfo) : Type 0 where
    pub rest : List BlockId
    pub begins : g.blocks ≡ g.start_block ∷ rest
    pub avoids : Avoids boundaries rest
    pub at_boundary : (contains boundaries g.start_block ≡ true) ⊎ (g.start_block ≡ entry)
    pub total : g.total_energy ≡ sum_map cost g.blocks

  abbrev closed : OpenRegion → MachineRegionInfo
  closed r = record { start_block = r.start; blocks = r.blocks; total_energy = r.energy }

  Avoids-append :
      (boundaries p : List BlockId) (b : BlockId)
      → Avoids boundaries p
      → contains boundaries b ≡ false
      → Avoids boundaries (p ++ b ∷ [])
  Avoids-append boundaries [] b a h = (h, tt)
  Avoids-append boundaries (c ∷ p) b a h = (a.0, Avoids-append boundaries p b a.1 h)

  pub record Formed (boundaries : List BlockId) (r : OpenRegion) (order : List BlockId)
      (out : List BlockId × List MachineRegionInfo) : Type 0 where
    pub joined : flat_map (λ g. g.blocks) out.1 ≡ r.blocks ++ order
    pub regions : All (IsRegion boundaries) out.1
    pub listed :
        (x : BlockId) → Memᴰ x order → contains boundaries x ≡ true → contains out.0 x ≡ true
    pub only : (x : BlockId) → contains out.0 x ≡ true → contains boundaries x ≡ true

  module _ (f : MachineFunction) (e_safe : ℕ) (boundaries : List BlockId) where
    finish_region_lem :
        (r : OpenRegion) (x : BlockId) (xs : List BlockId)
        → r.blocks ≡ x ∷ xs
        → finish_region f cost e_safe r ≡ closed r ∷ []
    unfolding finish_region
    finish_region_lem r x xs e = rw e refl

    abbrev started : BlockId → OpenRegion
    started b = record { start = b; blocks = b ∷ []; energy = cost b }

    -- The first block after nothing.
    abbrev first : OpenRegion
    first = record { start = entry; blocks = entry ∷ []; energy = 0 + cost entry }

    abbrev grown : OpenRegion → BlockId → OpenRegion
    grown r b = record { start = r.start; blocks = r.blocks ++ b ∷ []; energy = r.energy + cost b }

    started-IsRegion :
        (b : BlockId)
        → (contains boundaries b ≡ true) ⊎ (b ≡ entry)
        → IsRegion boundaries (closed (started b))
    started-IsRegion b h = record {
      rest = [];
      begins = refl;
      avoids = tt;
      at_boundary = h;
      total = omega arith;
    }

    first-IsRegion : IsRegion boundaries (closed first)
    first-IsRegion = record {
      rest = [];
      begins = refl;
      avoids = tt;
      at_boundary = inr refl;
      total = omega arith;
    }

    grown-IsRegion :
        (r : OpenRegion) (b : BlockId)
        → IsRegion boundaries (closed r)
        → contains boundaries b ≡ false
        → IsRegion boundaries (closed (grown r b))
    grown-IsRegion r b g h = record {
      rest = g.rest ++ b ∷ [];
      begins = ap (λ l. l ++ b ∷ []) g.begins;
      avoids = Avoids-append boundaries g.rest b g.avoids h;
      at_boundary = g.at_boundary;
      total = omega (arith, g.total, sum_map-append cost r.blocks (b ∷ []));
    }

    form_regions-Formed :
        (order : List BlockId) (r : OpenRegion)
        → IsRegion boundaries (closed r)
        → Formed boundaries r order (form_regions f cost e_safe boundaries r order)
    unfolding form_regions flat_map contains
    form_regions-Formed [] r g =
        rw (finish_region_lem r r.start g.rest g.begins) (record {
          joined = refl;
          regions = (g, tt);
          listed = λ x m. elim m [ ];
          only = λ x h. cc;
        })
    form_regions-Formed (b ∷ bs) r g = elim (Bool-cases (contains boundaries b)) [
      | inl t ↦
          let rec = form_regions-Formed bs (started b) (started-IsRegion b (inl t)) in
          rw (t, form_regions, finish_region_lem r r.start g.rest g.begins)
            (record {
              joined = ap (λ l. r.blocks ++ l) rec.joined;
              regions = (g, rec.regions);
              listed = λ x m h. elim (Memᴰ.cases_cons m) [
                | inl e ↦ ground (arith, ==_iff x b)
                | inr m' ↦ ground (arith, rec.listed x m' h)
              ];
              only = λ x h. elim (Bool-cases (x == b)) [
                | inl e ↦ ap (contains boundaries) ((==_iff x b).0 e) ∙ t
                | inr n ↦ rec.only x (rw n at h)
              ];
            })
      | inr n ↦
          let rec = form_regions-Formed bs (grown r b) (grown-IsRegion r b g n) in
          rw (n, form_regions)
            (record {
              joined = rec.joined ∙ append_assoc r.blocks (b ∷ []) bs;
              regions = rec.regions;
              listed =
                  λ x m h. elim (Memᴰ.cases_cons m) [ inl e ↦ cc | inr m' ↦ rec.listed x m' h ];
              only = rec.only;
            })
    ]

    -- The first block begins the first region whether it is a boundary or not.
    pub form_regions_all :
        (bs : List BlockId)
        → Formed boundaries
            record { start = entry; blocks = []; energy = 0 }
            (entry ∷ bs)
            (form_regions f cost e_safe boundaries
              record { start = entry; blocks = []; energy = 0 }
              (entry ∷ bs))
    unfolding form_regions contains finish_region
    form_regions_all bs =
        let rec = form_regions-Formed bs (started entry) (started-IsRegion entry (inr refl)) in
        let other = form_regions-Formed bs first first-IsRegion in
        elim (Bool-cases (contains boundaries entry)) [
          | inl t ↦
              rw (t, form_regions)
                (record {
                  joined = rec.joined;
                  regions = rec.regions;
                  listed = λ x m h. elim (Memᴰ.cases_cons m) [
                    | inl e ↦ ground (arith, ==_iff x entry)
                    | inr m' ↦ ground (arith, rec.listed x m' h)
                  ];
                  only = λ x h. elim (Bool-cases (x == entry)) [
                    | inl e ↦ ap (contains boundaries) ((==_iff x entry).0 e) ∙ t
                    | inr n ↦ rec.only x (rw n at h)
                  ];
                })
          | inr n ↦
              rw (n, form_regions)
                (record {
                  joined = other.joined;
                  regions = other.regions;
                  listed = λ x m h. elim (Memᴰ.cases_cons m) [
                    | inl e ↦ cc
                    | inr m' ↦ other.listed x m' h
                  ];
                  only = other.only;
                })
        ]
