-- ===== src/Common/LoopTripCount.antt =====
-- The loop metadata of passes/src/common/LoopTripCount.cpp.
-- A loop's ID is its list of operands without the self-reference in front; `none` is a loop without
-- one. Of an operand the code sees whether it is a node, its tag, and an integer behind the tag.
pub mod Laws
use bao.Prelude.{
  ℕ, ◌%◌, ◌^◌, Bool, true, false, not, ◌&&◌, Option, none, some, List, [], ◌∷◌, ◌++◌, ◌==◌,
  if◌then◌else◌,
}

-- `kTripCountTag`, `kStripMinedTag` and any other string
pub data TagName : Type 0 where
  trip_count_tag strip_mined_tag : TagName
  other_tag : ℕ → TagName

-- The second operand of a node: an integer constant, or anything else.
pub data Payload : Type 0 where
  constant_int : ℕ → Payload
  other_payload : Payload

-- `loop_node tag rest` is a node with at least one operand; `tag` is `none` where that is no string.
pub data Operand : Type 0 where
  not_a_node empty_node : Operand
  loop_node : Option TagName → List Payload → Operand

abbrev pub LoopId : Type 0
LoopId = Option (List Operand)

abbrev pub is_same_tag : TagName → TagName → Bool
is_same_tag trip_count_tag trip_count_tag = true
is_same_tag trip_count_tag strip_mined_tag = false
is_same_tag trip_count_tag (other_tag b) = false
is_same_tag strip_mined_tag trip_count_tag = false
is_same_tag strip_mined_tag strip_mined_tag = true
is_same_tag strip_mined_tag (other_tag b) = false
is_same_tag (other_tag a) trip_count_tag = false
is_same_tag (other_tag a) strip_mined_tag = false
is_same_tag (other_tag a) (other_tag b) = a == b

unfoldable pub is_loop_metadata_tag : TagName → Operand → Bool
is_loop_metadata_tag name not_a_node = false
is_loop_metadata_tag name empty_node = false
is_loop_metadata_tag name (loop_node none rest) = false
is_loop_metadata_tag name (loop_node (some tag) rest) = is_same_tag tag name

-- The loop that copies every operand but those with the tag.
unfoldable pub without_tag : TagName → List Operand → List Operand
without_tag name [] = []
without_tag name (op ∷ ops) =
    let rest = without_tag name ops in if is_loop_metadata_tag name op then rest else op ∷ rest

unfoldable pub has_tag : TagName → List Operand → Bool
has_tag name [] = false
has_tag name (op ∷ ops) = if is_loop_metadata_tag name op then true else has_tag name ops

abbrev pub operands : LoopId → List Operand
operands none = []
operands (some ops) = ops

-- No operand but the self-reference: the loop ID is cleared.
abbrev pub loop_id_of : List Operand → LoopId
loop_id_of [] = none
loop_id_of (op ∷ ops) = some (op ∷ ops)

unfoldable pub remove_loop_metadata_tag : TagName → LoopId → LoopId
unfolding has_tag without_tag
remove_loop_metadata_tag name none = none
remove_loop_metadata_tag name (some ops) =
    if has_tag name ops then loop_id_of (without_tag name ops) else some ops

-- The value of one operand, where it is a trip count: it has a second operand, an integer.
unfoldable pub marker_value : Operand → Option ℕ
marker_value not_a_node = none
marker_value empty_node = none
marker_value (loop_node tag []) = none
marker_value (loop_node tag (constant_int n ∷ rest)) =
    if is_loop_metadata_tag trip_count_tag (loop_node tag (constant_int n ∷ rest))
    then some n
    else none
marker_value (loop_node tag (other_payload ∷ rest)) = none

unfoldable pub find_marker : List Operand → Option ℕ
find_marker [] = none
find_marker (op ∷ ops) = elim (marker_value op) [ some n ↦ some n | none ↦ find_marker ops ]

unfoldable pub get_marker_trip_count : LoopId → Option ℕ
unfolding find_marker
get_marker_trip_count id = find_marker (operands id)

-- The count is a 64-bit constant.
unfoldable pub set_loop_trip_count_metadata : LoopId → ℕ → LoopId
unfolding without_tag
set_loop_trip_count_metadata id trip_count = some (
    without_tag trip_count_tag (operands id)
    ++ loop_node (some trip_count_tag) (constant_int (trip_count % 2 ^ 64) ∷ []) ∷ [])

unfoldable pub remove_loop_trip_count_metadata : LoopId → LoopId
unfolding remove_loop_metadata_tag
remove_loop_trip_count_metadata id = remove_loop_metadata_tag trip_count_tag id

unfoldable pub has_strip_mined_loop_metadata : LoopId → Bool
unfolding has_tag
has_strip_mined_loop_metadata id = has_tag strip_mined_tag (operands id)

unfoldable pub set_strip_mined_loop_metadata : LoopId → LoopId
unfolding without_tag
set_strip_mined_loop_metadata id = some (
    without_tag strip_mined_tag (operands id)
    ++ loop_node (some strip_mined_tag) (constant_int 1 ∷ []) ∷ [])

unfoldable pub remove_strip_mined_loop_metadata : LoopId → LoopId
unfolding remove_loop_metadata_tag
remove_strip_mined_loop_metadata id = remove_loop_metadata_tag strip_mined_tag id
