-- ===== src/Examples/Ids.antt =====
-- flarch/src/nodeids.rs at concrete lists and texts.
use fledger.Prelude.{◌≡◌, refl, none, some, [], ◌∷◌, arith}
use fledger.NodeIds.{NodeIds, slice, remove_existing, merge, remove_loop, remove}
use fledger.NodeIds.Hex.{digit_value, lower_hex, parsed, panicked, from_str}
use fledger.NodeIds.Hex.Reading.{from_str-lower_hex, from_str_odd}

abbrev ids : NodeIds
ids = 3 ∷ 1 ∷ 4 ∷ 1 ∷ []

abbrev others : NodeIds
others = 1 ∷ 5 ∷ []

slice_inside : slice ids 1 2 ≡ some (1 ∷ 4 ∷ [])
unfolding slice
slice_inside = refl

slice_outside : slice ids 2 3 ≡ none
unfolding slice
slice_outside = refl

remove_run : remove_existing ids others ≡ (3 ∷ 4 ∷ [], 1 ∷ 1 ∷ [])
unfolding remove_existing remove remove_loop
remove_run = refl

merge_run : merge ids others ≡ 3 ∷ 1 ∷ 4 ∷ 1 ∷ 5 ∷ []
unfolding merge
merge_run = refl

from_str-lower_hex_example : from_str (lower_hex 300) ≡ parsed 300
from_str-lower_hex_example = from_str-lower_hex 300 (omega arith)

-- The text "1f3".
from_str_odd_example : from_str (49 ∷ 102 ∷ 51 ∷ []) ≡ panicked
unfolding digit_value
from_str_odd_example =
    from_str_odd (49 ∷ 102 ∷ 51 ∷ []) (refl, (refl, (refl, tt))) refl (omega arith)
