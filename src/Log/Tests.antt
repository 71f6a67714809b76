-- ===== src/Log/Tests.antt =====
-- The ring of src/log_backend.cpp at concrete lines.
use tpcc_oceanbase_cpp.Common.{ℕ, ◌≡◌, refl, List, [], ◌∷◌, arith}
use tpcc_oceanbase_cpp.Log.{new, get_lines, nonempty, clear}
use tpcc_oceanbase_cpp.Log.Latest.{latest, add_lines, get_lines-add_lines}

-- Five lines, one of them empty, in a ring of three.
abbrev five_lines : List (List ℕ)
five_lines = (1 ∷ []) ∷ (2 ∷ []) ∷ (3 ∷ []) ∷ [] ∷ (5 ∷ []) ∷ []

get_lines-add_lines_example :
    get_lines (add_lines (new 3) five_lines) ≡ nonempty (latest 3 five_lines)
get_lines-add_lines_example = get_lines-add_lines 3 five_lines (omega arith)

ring_of_three : get_lines (add_lines (new 3) five_lines) ≡ (3 ∷ []) ∷ (5 ∷ []) ∷ []
unfolding get_lines add_lines new
ring_of_three = refl

cleared : get_lines (clear (add_lines (new 3) five_lines)) ≡ []
unfolding get_lines clear add_lines new
cleared = refl
