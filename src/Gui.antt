-- ===== src/Gui.antt =====
-- gui.go: what the desktop GUI reads from an answer of an agent to "list". The widgets are not
-- modelled.
use ship_grip_fim.Base.{
  not, ◌||◌, List, [], ◌∷◌, Bool, Text, lit, if◌then◌else◌, is_nil, has_prefix, contains_any,
  trim_space, split,
}

unfoldable pub is_report_row : Text → Bool
is_report_row l =
    not (
      is_nil l
      || contains_any l (b' ' ∷ 9 ∷ [])
      || has_prefix (lit "-") l
      || has_prefix (lit "=") l)

unfoldable pub report_rows : List Text → List Text
unfolding is_report_row
report_rows [] = []
report_rows (raw ∷ ls) =
    let l = trim_space raw in
    let rest = report_rows ls in if is_report_row l then l ∷ rest else rest

unfoldable pub parse_report_list : Text → List Text
unfolding report_rows
parse_report_list raw = report_rows (split 10 raw)
