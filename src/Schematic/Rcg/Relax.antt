-- ===== src/Schematic/Rcg/Relax.antt =====
-- One node of `getShortestPathInRCG`: what relaxing its edges does to the labels.
use mathlib.Core.List.Memᴰ
use mathlib.Core.Bool.{false≢true}
use mathlib.Core.Option.{some-injective, none-ne-some}
use mathlib.Core.Path.{subst}
use bao.Prelude.{
  ℕ, suc, ◌+◌, ◌≤◌, ◌<◌, ◌≡◌, refl, sym, ◌∙◌, ap, ◌⊎◌, inl, inr, true, false, Option, none, some,
  List, [], ◌∷◌, Memᴰ, ◌==◌, ==_iff, ==_refl, Bool-cases, Option-cases, get_elem?, arith,
}
use bao.Schematic.Types.{RcgEdge}
use bao.Schematic.Rcg.Labels.{out_edges, Labels, put, is_closer, relax, relax_edges}

abbrev pub AtMost : Option ℕ → ℕ → Type 0
AtMost o d = (c : ℕ) × (o ≡ some c) × (c ≤ d)

-- The edge that a label records: it ends at the node, comes from an earlier one, and accounts for
-- the distance.
pub record Back (adj : List RcgEdge) (bound : ℕ) (l : Labels) (n d : ℕ) : Type 0 where
  pub p : ℕ
  pub dp : ℕ
  pub idx : ℕ
  pub e : RcgEdge
  pub is_pred : l.pred n ≡ some p
  pub is_idx : l.pred_edge_idx n ≡ some idx
  pub is_edge : get_elem? (out_edges adj p) idx ≡ some e
  pub is_target : e.target ≡ n
  pub is_dist : l.dist p ≡ some dp
  pub before : p < bound
  pub sums : d ≡ dp + e.weight

abbrev pub IsBacked : List RcgEdge → ℕ → Labels → Type 0
IsBacked adj bound l = (n d : ℕ) → l.dist n ≡ some d → (n ≡ 0) ⊎ Back adj bound l n d

pub record Relaxed (adj : List RcgEdge) (i : ℕ) (es : List RcgEdge) (l l' : Labels) : Type 0 where
  pub same_dist : (n : ℕ) → n ≤ i → l'.dist n ≡ l.dist n
  pub same_pred : (n : ℕ) → n ≤ i → l'.pred n ≡ l.pred n
  pub closer : (n d : ℕ) → l.dist n ≡ some d → AtMost (l'.dist n) d
  pub backed : IsBacked adj (suc i) l → IsBacked adj (suc i) l'
  pub reaches :
      (e : RcgEdge) (d : ℕ)
      → Memᴰ e es
      → l.dist i ≡ some d
      → AtMost (l'.dist e.target) (d + e.weight)

put_at : (n v k : ℕ) (f : ℕ → Option ℕ) → (k == n) ≡ true → put n v f k ≡ some v
unfolding put
put_at n v k f h = rw h refl

put_other : (n v k : ℕ) (f : ℕ → Option ℕ) → (k == n) ≡ false → put n v f k ≡ f k
unfolding put
put_other n v k f h = rw h refl

is_closer_lt : (a c : ℕ) (o : Option ℕ) → is_closer a o ≡ true → o ≡ some c → a < c
is_closer_lt a c none h e = ground arith
is_closer_lt a c (some b) h e = ground (arith, some-injective b c e)

not_closer : (a : ℕ) (o : Option ℕ) → is_closer a o ≡ false → AtMost o a
not_closer a none h = absurd (false≢true (sym h))
not_closer a (some b) h = (b, refl, ground arith)

pub AtMost-closer :
    (f g : ℕ → Option ℕ) (n d : ℕ)
    → ((m c : ℕ) → f m ≡ some c → AtMost (g m) c)
    → AtMost (f n) d
    → AtMost (g n) d
AtMost-closer f g n d closer (c, at, le) =
    let (c', at', le') = closer n c at in (c', at', omega arith)

module _ (adj : List RcgEdge) (i : ℕ) where
  relax-reaches :
      (d idx : ℕ) (e : RcgEdge) (l : Labels)
      → AtMost ((relax i d idx e l).dist e.target) (d + e.weight)
  unfolding relax
  relax-reaches d idx e l = elim (Bool-cases (is_closer (d + e.weight) (l.dist e.target))) [
    | inl better ↦ rw better (
      d + e.weight,
      put_at e.target (d + e.weight) e.target l.dist (==_refl e.target),
      omega arith,
    )
    | inr kept ↦ rw kept (not_closer (d + e.weight) (l.dist e.target) kept)
  ]

  relax-Relaxed :
      (d idx : ℕ) (e : RcgEdge) (l : Labels)
      → l.dist i ≡ some d
      → get_elem? (out_edges adj i) idx ≡ some e
      → i < e.target
      → Relaxed adj i [] l (relax i d idx e l)
  unfolding relax
  relax-Relaxed d idx e l at edge forward =
      elim (Bool-cases (is_closer (d + e.weight) (l.dist e.target))) [
        | inl better ↦ rw better (record {
          same_dist = λ n h. put_other e.target (d + e.weight) n l.dist (ground arith);
          same_pred = λ n h. put_other e.target i n l.pred (ground arith);
          closer = λ n c h. elim (Bool-cases (n == e.target)) [
            | inl t ↦ (
              d + e.weight,
              put_at e.target (d + e.weight) n l.dist t,
              omega (
                arith,
                is_closer_lt (d + e.weight) c (l.dist e.target) better
                    (ap l.dist (sym ((==_iff n e.target).0 t)) ∙ h),
              ),
            )
            | inr f ↦ (c, put_other e.target (d + e.weight) n l.dist f ∙ h, omega arith)
          ];
          backed = λ old n c h. elim (Bool-cases (n == e.target)) [
            | inl t ↦ inr record {
              p = i;
              dp = d;
              idx = idx;
              e = e;
              is_pred = put_at e.target i n l.pred t;
              is_idx = put_at e.target idx n l.pred_edge_idx t;
              is_edge = edge;
              is_target = sym ((==_iff n e.target).0 t);
              is_dist = put_other e.target (d + e.weight) i l.dist (ground arith) ∙ at;
              before = omega arith;
              sums =
                  some-injective c (d + e.weight)
                    (sym h ∙ put_at e.target (d + e.weight) n l.dist t);
            }
            | inr f ↦ elim (old n c (sym (put_other e.target (d + e.weight) n l.dist f) ∙ h)) [
              | inl z ↦ inl z
              | inr b ↦ inr record {
                p = b.p;
                dp = b.dp;
                idx = b.idx;
                e = b.e;
                is_pred = put_other e.target i n l.pred f ∙ b.is_pred;
                is_idx = put_other e.target idx n l.pred_edge_idx f ∙ b.is_idx;
                is_edge = b.is_edge;
                is_target = b.is_target;
                is_dist =
                    put_other e.target (d + e.weight) b.p l.dist (ground (arith, b.before))
                    ∙ b.is_dist;
                before = b.before;
                sums = b.sums;
              }
            ]
          ];
          reaches = λ x c m at'. absurd (Memᴰ.not-nil m);
        })
        | inr kept ↦ rw kept (record {
          same_dist = λ n h. refl;
          same_pred = λ n h. refl;
          closer = λ n c h. (c, h, omega arith);
          backed = λ old. old;
          reaches = λ x c m at'. absurd (Memᴰ.not-nil m);
        })
      ]

  pub relax_edges-Relaxed :
      (idx : ℕ) (es : List RcgEdge) (l : Labels)
      → ((k : ℕ) → get_elem? es k ≡ get_elem? (out_edges adj i) (idx + k))
      → ((e : RcgEdge) → Memᴰ e es → i < e.target)
      → Relaxed adj i es l (relax_edges i idx es l)
  unfolding relax_edges
  relax_edges-Relaxed idx [] l same forward = record {
    same_dist = λ n h. refl;
    same_pred = λ n h. refl;
    closer = λ n c h. (c, h, omega arith);
    backed = λ old. old;
    reaches = λ x c m at. absurd (Memᴰ.not-nil m);
  }
  relax_edges-Relaxed idx (e ∷ es) l same forward = elim (Option-cases (l.dist i)) [
    | inl far ↦
        rw (far, relax_edges)
          record {
            same_dist = λ n h. refl;
            same_pred = λ n h. refl;
            closer = λ n c h. (c, h, omega arith);
            backed = λ old. old;
            reaches = λ x c m at. absurd (none-ne-some c (sym far ∙ at));
          }
    | inr (d, at) ↦
        rw (at, relax_edges)
          (let one =
              relax-Relaxed d idx e l at
                (ap (get_elem? (out_edges adj i)) (omega arith) ∙ sym (same 0))
                (forward e (Memᴰ.head refl)) in
            let rest =
              relax_edges-Relaxed (suc idx) es (relax i d idx e l)
                (λ k. same (suc k) ∙ ap (get_elem? (out_edges adj i)) (omega arith))
                (λ x m. forward x (Memᴰ.tail m)) in
            record {
              same_dist = λ n h. rest.same_dist n h ∙ one.same_dist n h;
              same_pred = λ n h. rest.same_pred n h ∙ one.same_pred n h;
              closer = λ n c h.
                  AtMost-closer (relax i d idx e l).dist _ n c rest.closer (one.closer n c h);
              backed = λ old. rest.backed (one.backed old);
              reaches = λ x c m at'. elim (Memᴰ.cases_cons m) [
                | inl q ↦
                    subst
                      (λ y.
                        AtMost ((relax_edges i (suc idx) es (relax i d idx e l)).dist y.target)
                          (c + y.weight))
                      (sym q)
                      (subst
                        (λ w.
                          AtMost ((relax_edges i (suc idx) es (relax i d idx e l)).dist e.target)
                            (w + e.weight))
                        (some-injective d c (sym at ∙ at'))
                        (AtMost-closer (relax i d idx e l).dist _ e.target (d + e.weight)
                          rest.closer (relax-reaches d idx e l)))
                | inr k ↦ rest.reaches x c k (one.same_dist i (omega arith) ∙ at')
              ];
            })
  ]
