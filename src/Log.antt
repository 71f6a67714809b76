-- ===== src/Log.antt =====
-- src/log_backend.cpp, `TLogCapture`: a ring of the latest lines for the display.
-- A line is its bytes. With `maxLines` 0 the code writes out of bounds; the theorems ask for one line at
-- least.
pub mod Latest
mod Tests
use tpcc_oceanbase_cpp.Common.{
  ℕ, ◌+◌, ◌-◌, ◌%◌, Bool, true, false, ◌||◌, List, [], ◌∷◌, ◌++◌, ◌==◌, if◌then◌else◌, take, drop,
  set, replicate, map,
}

pub record LogCapture : Type 0 where
  pub lines : List (List ℕ)
  pub max_lines : ℕ
  pub write_pos : ℕ
  pub wrapped : Bool

unfoldable pub new : ℕ → LogCapture
new max_lines = record {
  lines = replicate max_lines [];
  max_lines = max_lines;
  write_pos = 0;
  wrapped = false;
}

unfoldable pub add_line : LogCapture → List ℕ → LogCapture
add_line c line =
    let next = (c.write_pos + 1) % c.max_lines in
    record c {
      lines = set c.lines c.write_pos line;
      write_pos = next;
      wrapped = if next == 0 then true else c.wrapped;
    }

-- The lines that are not empty.
abbrev pub nonempty : List (List ℕ) → List (List ℕ)
nonempty [] = []
nonempty ([] ∷ ls) = nonempty ls
nonempty ((b ∷ bs) ∷ ls) = (b ∷ bs) ∷ nonempty ls

unfoldable pub get_lines : LogCapture → List (List ℕ)
get_lines c =
    if c.wrapped
    then nonempty (drop c.write_pos c.lines) ++ nonempty (take c.write_pos c.lines)
    else nonempty (take c.write_pos c.lines)

unfoldable pub clear : LogCapture → LogCapture
clear c = record c { lines = map (λ line. []) c.lines; write_pos = 0; wrapped = false }
