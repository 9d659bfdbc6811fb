-- ===== src/Common/Tests.antt =====
-- A loop with three operands, and the theorems on the metadata applied to it.
use bao.Prelude.{◌%◌, ◌^◌, ◌≡◌, refl, true, false, none, some, [], ◌∷◌}
use bao.Common.LoopTripCount.{
  trip_count_tag, strip_mined_tag, other_tag, constant_int, loop_node, LoopId, is_loop_metadata_tag,
  marker_value, get_marker_trip_count, set_loop_trip_count_metadata,
  remove_loop_trip_count_metadata, has_strip_mined_loop_metadata, set_strip_mined_loop_metadata,
  remove_strip_mined_loop_metadata,
}
use bao.Common.LoopTripCount.Laws.{
  set-get_marker_trip_count, set-has_strip_mined, remove-get_marker_trip_count,
  remove-has_strip_mined,
}

abbrev sample_loop : LoopId
sample_loop = some (
    loop_node (some (other_tag 1)) []
    ∷ loop_node (some trip_count_tag) (constant_int 8 ∷ [])
    ∷ loop_node (some strip_mined_tag) (constant_int 1 ∷ [])
    ∷ [])

sample_trip_count : get_marker_trip_count sample_loop ≡ some 8
unfolding get_marker_trip_count marker_value is_loop_metadata_tag
sample_trip_count = refl

set-get_marker_trip_count_example :
    (get_marker_trip_count (set_loop_trip_count_metadata sample_loop 12) ≡ some (12 % 2 ^ 64))
    × (has_strip_mined_loop_metadata (set_loop_trip_count_metadata sample_loop 12)
        ≡ has_strip_mined_loop_metadata sample_loop)
set-get_marker_trip_count_example = set-get_marker_trip_count sample_loop 12

set-has_strip_mined_example :
    (has_strip_mined_loop_metadata (set_strip_mined_loop_metadata sample_loop) ≡ true)
    × (get_marker_trip_count (set_strip_mined_loop_metadata sample_loop)
        ≡ get_marker_trip_count sample_loop)
set-has_strip_mined_example = set-has_strip_mined sample_loop

remove-get_marker_trip_count_example :
    (get_marker_trip_count (remove_loop_trip_count_metadata sample_loop) ≡ none)
    × (has_strip_mined_loop_metadata (remove_loop_trip_count_metadata sample_loop)
        ≡ has_strip_mined_loop_metadata sample_loop)
remove-get_marker_trip_count_example = remove-get_marker_trip_count sample_loop

remove-has_strip_mined_example :
    (has_strip_mined_loop_metadata (remove_strip_mined_loop_metadata sample_loop) ≡ false)
    × (get_marker_trip_count (remove_strip_mined_loop_metadata sample_loop)
        ≡ get_marker_trip_count sample_loop)
remove-has_strip_mined_example = remove-has_strip_mined sample_loop
