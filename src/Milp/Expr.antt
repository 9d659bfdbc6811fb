-- ===== src/Milp/Expr.antt =====
-- The expressions and constraints that `CheckpointOptimizer` hands to the solver (`GRBLinExpr`,
-- `GRBVar`, `addConstr`). A coefficient is a natural number, so an expression keeps what is added and
-- what is subtracted apart. An assignment gives each variable a natural multiple of 1 / `one`.
use bao.Prelude.{ℕ, ◌+◌, ◌*◌, ◌≤◌, ◌≡◌, List, [], ◌∷◌, ◌++◌, sum_map, sum_map-append, arith}
use bao.Milp.Views.{NodeId, Value}

-- A variable by the map that holds it and its key there.
-- The source's names: r_, m_, mGlobal_, rHat_, d_, s_, eAccum_.
pub data Var : Type 0 where
  region_start : NodeId → Var
  place : NodeId → Value → Var
  place_global : Value → Var
  need_restore : NodeId → Value → Var
  dirty : NodeId → Value → Var
  save : NodeId → Value → Var
  e_accum : NodeId → Var

abbrev pub Term : Type 0
Term = ℕ × Var

pub record LinExpr : Type 0 where
  pub const : ℕ
  pub const_taken : ℕ
  pub terms : List Term
  pub terms_taken : List Term

abbrev pub constant : ℕ → LinExpr
constant k = record { const = k; const_taken = 0; terms = []; terms_taken = [] }

abbrev pub term : ℕ → Var → LinExpr
term k v = record { const = 0; const_taken = 0; terms = (k, v) ∷ []; terms_taken = [] }

abbrev pub var : Var → LinExpr
var v = term 1 v

infixl 65 ◌plus◌ ◌minus◌
abbrev pub ◌plus◌ : LinExpr → LinExpr → LinExpr
a plus b = record {
  const = a.const + b.const;
  const_taken = a.const_taken + b.const_taken;
  terms = a.terms ++ b.terms;
  terms_taken = a.terms_taken ++ b.terms_taken;
}

abbrev pub ◌minus◌ : LinExpr → LinExpr → LinExpr
a minus b = record {
  const = a.const + b.const_taken;
  const_taken = a.const_taken + b.const;
  terms = a.terms ++ b.terms_taken;
  terms_taken = a.terms_taken ++ b.terms;
}

abbrev scale_terms : ℕ → List Term → List Term
scale_terms k [] = []
scale_terms k ((c, v) ∷ ts) = (k * c, v) ∷ scale_terms k ts

abbrev pub scale : ℕ → LinExpr → LinExpr
scale k a = record {
  const = k * a.const;
  const_taken = k * a.const_taken;
  terms = scale_terms k a.terms;
  terms_taken = scale_terms k a.terms_taken;
}

pub data Constr : Type 0 where
  le : LinExpr → LinExpr → Constr
  ge : LinExpr → LinExpr → Constr
  eq : LinExpr → LinExpr → Constr

-- The value `one` stands for 1.
module _ (one : ℕ) (x : Var → ℕ) where
  abbrev pub term_value : Term → ℕ
  term_value t = t.0 * x t.1

  unfoldable pub added : LinExpr → ℕ
  added e = e.const * one + sum_map term_value e.terms

  unfoldable pub taken : LinExpr → ℕ
  taken e = e.const_taken * one + sum_map term_value e.terms_taken

  abbrev pub Holds : Constr → Type 0
  Holds (le a b) = added a + taken b ≤ added b + taken a
  Holds (ge a b) = added b + taken a ≤ added a + taken b
  Holds (eq a b) = added a + taken b ≡ added b + taken a

  module _ (a b : LinExpr) where
    pub added-plus : added (a plus b) ≡ added a + added b
    unfolding added
    added-plus = omega (arith, sum_map-append {0} term_value a.terms b.terms)

    pub taken-plus : taken (a plus b) ≡ taken a + taken b
    unfolding taken
    taken-plus = omega (arith, sum_map-append {0} term_value a.terms_taken b.terms_taken)

    pub added-minus : added (a minus b) ≡ added a + taken b
    unfolding added taken
    added-minus = omega (arith, sum_map-append {0} term_value a.terms b.terms_taken)

    pub taken-minus : taken (a minus b) ≡ taken a + added b
    unfolding added taken
    taken-minus = omega (arith, sum_map-append {0} term_value a.terms_taken b.terms)

  pub added-constant : (k : ℕ) → added (constant k) ≡ k * one
  unfolding added
  added-constant k = omega arith

  pub taken-constant : (k : ℕ) → taken (constant k) ≡ 0
  unfolding taken
  taken-constant k = omega arith

  pub added-term : (k : ℕ) (v : Var) → added (term k v) ≡ k * x v
  unfolding added
  added-term k v = omega arith

  pub taken-term : (k : ℕ) (v : Var) → taken (term k v) ≡ 0
  unfolding taken
  taken-term k v = omega arith

pub ruleset expr_laws = (
  added-plus, taken-plus, added-minus, taken-minus, added-constant, taken-constant, added-term,
  taken-term,
)
