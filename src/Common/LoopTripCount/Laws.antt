-- ===== src/Common/LoopTripCount/Laws.antt =====
-- What the metadata functions of passes/src/common/LoopTripCount.cpp promise together.
use mathlib.Core.Bool.{false≢true}
use mathlib.Core.List.{append-nil}
use bao.Prelude.{
  ℕ, ◌%◌, ◌^◌, ◌≡◌, refl, sym, ◌∙◌, ap, inl, inr, true, false, none, some, List, [], ◌∷◌, ◌++◌,
  Bool-cases, Option-cases, ◌⊎◌,
}
use bao.Common.LoopTripCount.{
  trip_count_tag, strip_mined_tag, other_tag, TagName, constant_int, other_payload, not_a_node,
  empty_node, loop_node, Operand, LoopId, operands, loop_id_of, is_loop_metadata_tag, without_tag,
  has_tag, remove_loop_metadata_tag, marker_value, find_marker, get_marker_trip_count,
  set_loop_trip_count_metadata, remove_loop_trip_count_metadata, has_strip_mined_loop_metadata,
  set_strip_mined_loop_metadata, remove_strip_mined_loop_metadata,
}

-- An operand without the tag has no value.
marker_value-none :
    (op : Operand) → is_loop_metadata_tag trip_count_tag op ≡ false → marker_value op ≡ none
unfolding marker_value
marker_value-none not_a_node h = refl
marker_value-none empty_node h = refl
marker_value-none (loop_node tag []) h = refl
marker_value-none (loop_node tag (constant_int n ∷ rest)) h = rw h refl
marker_value-none (loop_node tag (other_payload ∷ rest)) h = refl

-- The two tags differ.
is_loop_metadata_tag_differ :
    (op : Operand)
    → is_loop_metadata_tag strip_mined_tag op ≡ true
    → is_loop_metadata_tag trip_count_tag op ≡ false
unfolding is_loop_metadata_tag
is_loop_metadata_tag_differ not_a_node h = refl
is_loop_metadata_tag_differ empty_node h = refl
is_loop_metadata_tag_differ (loop_node none rest) h = refl
is_loop_metadata_tag_differ (loop_node (some trip_count_tag) rest) h = sym h
is_loop_metadata_tag_differ (loop_node (some strip_mined_tag) rest) h = refl
is_loop_metadata_tag_differ (loop_node (some (other_tag a)) rest) h = refl

is_loop_metadata_tag_same :
    (op : Operand)
    → is_loop_metadata_tag trip_count_tag op ≡ true
    → is_loop_metadata_tag strip_mined_tag op ≡ false
is_loop_metadata_tag_same op h = elim (Bool-cases (is_loop_metadata_tag strip_mined_tag op)) [
  | inl t ↦ absurd (false≢true (sym (is_loop_metadata_tag_differ op t) ∙ h))
  | inr f ↦ f
]

-- Operands that are taken away.
find_marker-without_tag :
    (ops more : List Operand)
    → find_marker (without_tag trip_count_tag ops ++ more) ≡ find_marker more
unfolding find_marker without_tag
find_marker-without_tag [] more = refl
find_marker-without_tag (op ∷ ops) more =
    elim (Bool-cases (is_loop_metadata_tag trip_count_tag op)) [
      | inl t ↦ rw (t, without_tag) (find_marker-without_tag ops more)
      | inr f ↦
          rw (f, without_tag, find_marker, marker_value-none op f)
            (find_marker-without_tag ops more)
    ]

-- Operands of the other kind do not matter.
find_marker-other :
    (ops more : List Operand)
    → find_marker more ≡ none
    → find_marker (without_tag strip_mined_tag ops ++ more) ≡ find_marker ops
unfolding find_marker without_tag
find_marker-other [] more h = h
find_marker-other (op ∷ ops) more h = elim (Bool-cases (is_loop_metadata_tag strip_mined_tag op)) [
  | inl t ↦
      rw (t, without_tag, find_marker, marker_value-none op (is_loop_metadata_tag_differ op t))
        (find_marker-other ops more h)
  | inr f ↦ elim (Option-cases (marker_value op)) [
    | inl e ↦ rw (f, without_tag, find_marker, e) (find_marker-other ops more h)
    | inr (n, e) ↦ rw (f, without_tag, find_marker, e) refl
  ]
]

find_marker-no_tag :
    (ops : List Operand) → has_tag trip_count_tag ops ≡ false → find_marker ops ≡ none
unfolding find_marker has_tag
find_marker-no_tag [] h = refl
find_marker-no_tag (op ∷ ops) h = elim (Bool-cases (is_loop_metadata_tag trip_count_tag op)) [
  | inl t ↦ absurd (false≢true (sym (rw (t, has_tag) at h)))
  | inr f ↦ rw (find_marker, marker_value-none op f) (find_marker-no_tag ops (rw (f, has_tag) at h))
]

module _ (name : TagName) where
  has_tag-without_tag :
      (ops more : List Operand) → has_tag name (without_tag name ops ++ more) ≡ has_tag name more
  unfolding has_tag without_tag
  has_tag-without_tag [] more = refl
  has_tag-without_tag (op ∷ ops) more = elim (Bool-cases (is_loop_metadata_tag name op)) [
    | inl t ↦ rw (t, without_tag) (has_tag-without_tag ops more)
    | inr f ↦ rw (f, without_tag, has_tag, f) (has_tag-without_tag ops more)
  ]

has_tag-other :
    (ops more : List Operand)
    → has_tag strip_mined_tag more ≡ false
    → has_tag strip_mined_tag (without_tag trip_count_tag ops ++ more) ≡ has_tag strip_mined_tag ops
unfolding has_tag without_tag
has_tag-other [] more h = h
has_tag-other (op ∷ ops) more h = elim (Bool-cases (is_loop_metadata_tag trip_count_tag op)) [
  | inl t ↦ rw (t, without_tag, has_tag, is_loop_metadata_tag_same op t) (has_tag-other ops more h)
  | inr f ↦ elim (Bool-cases (is_loop_metadata_tag strip_mined_tag op)) [
    | inl s ↦ rw (f, without_tag, has_tag, s) refl
    | inr s ↦ rw (f, without_tag, has_tag, s) (has_tag-other ops more h)
  ]
]

operands-loop_id_of : (ops : List Operand) → operands (loop_id_of ops) ≡ ops
operands-loop_id_of [] = refl
operands-loop_id_of (op ∷ ops) = refl

-- A loop ID without operands reads like no loop ID.
operands-remove :
    (name : TagName) (id : LoopId)
    → (operands (remove_loop_metadata_tag name id) ≡ without_tag name (operands id))
      ⊎ (remove_loop_metadata_tag name id ≡ id) × (has_tag name (operands id) ≡ false)
unfolding remove_loop_metadata_tag without_tag
operands-remove name none = inl refl
operands-remove name (some ops) = elim (Bool-cases (has_tag name ops)) [
  | inr f ↦ inr (rw (f, remove_loop_metadata_tag) refl, f)
  | inl t ↦ inl (rw (t, remove_loop_metadata_tag) (operands-loop_id_of (without_tag name ops)))
]

-- After `setLoopTripCountMetadata`, on any loop ID, `getMarkerTripCount` returns the count as a
-- 64-bit number, and the strip-mined mark is what it was.
pub set-get_marker_trip_count :
    (id : LoopId) (n : ℕ)
    → (get_marker_trip_count (set_loop_trip_count_metadata id n) ≡ some (n % 2 ^ 64))
      × (has_strip_mined_loop_metadata (set_loop_trip_count_metadata id n)
          ≡ has_strip_mined_loop_metadata id)
unfolding get_marker_trip_count set_loop_trip_count_metadata has_strip_mined_loop_metadata
    find_marker marker_value is_loop_metadata_tag has_tag
set-get_marker_trip_count id n =
    (find_marker-without_tag (operands id) _, has_tag-other (operands id) _ refl)

-- After `setStripMinedLoopMetadata`, on any loop ID, the loop has the mark, and its trip count is what
-- it was.
pub set-has_strip_mined :
    (id : LoopId)
    → (has_strip_mined_loop_metadata (set_strip_mined_loop_metadata id) ≡ true)
      × (get_marker_trip_count (set_strip_mined_loop_metadata id) ≡ get_marker_trip_count id)
unfolding get_marker_trip_count set_strip_mined_loop_metadata has_strip_mined_loop_metadata
    find_marker marker_value is_loop_metadata_tag has_tag
set-has_strip_mined id =
    (has_tag-without_tag strip_mined_tag (operands id) _, find_marker-other (operands id) _ refl)

-- After `removeLoopTripCountMetadata`, on any loop ID, there is no trip count, and the strip-mined mark
-- is what it was.
pub remove-get_marker_trip_count :
    (id : LoopId)
    → (get_marker_trip_count (remove_loop_trip_count_metadata id) ≡ none)
      × (has_strip_mined_loop_metadata (remove_loop_trip_count_metadata id)
          ≡ has_strip_mined_loop_metadata id)
unfolding get_marker_trip_count remove_loop_trip_count_metadata has_strip_mined_loop_metadata
    find_marker has_tag
remove-get_marker_trip_count id = elim (operands-remove trip_count_tag id) [
  | inl e ↦
      let e' = e ∙ sym (append-nil (without_tag trip_count_tag (operands id))) in
      (
        ap find_marker e' ∙ find_marker-without_tag (operands id) [],
        ap (has_tag strip_mined_tag) e' ∙ has_tag-other (operands id) [] refl,
      )
  | inr (e, f) ↦ (
    ap (λ i. find_marker (operands i)) e ∙ find_marker-no_tag (operands id) f,
    ap (λ i. has_tag strip_mined_tag (operands i)) e,
  )
]

-- After `removeStripMinedLoopMetadata`, on any loop ID, the mark is gone, and the trip count is what it
-- was.
pub remove-has_strip_mined :
    (id : LoopId)
    → (has_strip_mined_loop_metadata (remove_strip_mined_loop_metadata id) ≡ false)
      × (get_marker_trip_count (remove_strip_mined_loop_metadata id) ≡ get_marker_trip_count id)
unfolding get_marker_trip_count remove_strip_mined_loop_metadata has_strip_mined_loop_metadata
    find_marker has_tag
remove-has_strip_mined id = elim (operands-remove strip_mined_tag id) [
  | inl e ↦
      let e' = e ∙ sym (append-nil (without_tag strip_mined_tag (operands id))) in
      (
        ap (has_tag strip_mined_tag) e' ∙ has_tag-without_tag strip_mined_tag (operands id) [],
        ap find_marker e' ∙ find_marker-other (operands id) [] refl,
      )
  | inr (e, f) ↦
      (ap (λ i. has_tag strip_mined_tag (operands i)) e ∙ f, ap (λ i. find_marker (operands i)) e)
]
