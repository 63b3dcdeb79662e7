-- ===== src/Sql/Combine.antt =====
-- src/sql.cpp: `SqlNormalizer::combineOutputParams`.
use pinpoint_cpp_agent.Common.{
  ℕ, zero, suc, ◌+◌, Bool, ◌||◌, none, some, List, [], ◌∷◌, ◌++◌, ◌==◌, if◌then◌else◌, get_elem?,
  is_digit, Bytes,
}
use pinpoint_cpp_agent.Sql.{
  look_ahead, read_comment, parse_index, slash_star, star_slash, two_slashes, two_dashes, newline,
}

abbrev pub is_mark : ℕ → Bool
is_mark c = (c == b'#') || (c == b'$')

-- `parseIndex(…) && index < output_params.size()`: the parameter, or the text as it stands
unfoldable pub param_or_text : List Bytes → Bytes → ℕ → Bytes
unfolding parse_index
param_or_text params output_index mark = elim (parse_index output_index) [
  | none ↦ output_index ++ mark ∷ []
  | some index ↦ elim (get_elem? params index) [
    | none ↦ output_index ++ mark ∷ []
    | some value ↦ value
  ]
]

-- The inner loop, behind the first digit: how far the index goes, and what is written.
unfoldable pub index_run : List Bytes → Bytes → Bytes → ℕ × Bytes
unfolding param_or_text
index_run params [] output_index = (0, output_index)
index_run params (c ∷ rest) output_index =
    let (k, written) = index_run params rest (output_index ++ c ∷ []) in
    if is_digit c
    then (if look_ahead rest == 0 then (1, output_index ++ c ∷ []) else (k + 1, written))
    else if is_mark c
    then (1, param_or_text params output_index c)
    else (0, output_index)

-- One round of the loop, at the byte `c` before `rest`.
unfoldable pub combine_step : List Bytes → ℕ → Bytes → ℕ × Bytes
unfolding index_run
combine_step params c rest =
    if c == b'/'
    then if look_ahead rest == b'*'
      then read_comment (c ∷ rest) slash_star star_slash
      else if look_ahead rest == b'/'
      then read_comment (c ∷ rest) two_slashes newline
      else (0, c ∷ [])
    else if c == b'-'
    then if look_ahead rest == b'-' then read_comment (c ∷ rest) two_dashes newline else (0, c ∷ [])
    else if is_digit c
    then (if look_ahead rest == 0 then (0, c ∷ []) else index_run params rest (c ∷ []))
    else (0, c ∷ [])

unfoldable pub combine_scan : List Bytes → ℕ → Bytes → Bytes → Bytes
unfolding combine_step
combine_scan params skip [] normalized = normalized
combine_scan params (suc k) (c ∷ rest) normalized = combine_scan params k rest normalized
combine_scan params zero (c ∷ rest) normalized =
    let (k, written) = combine_step params c rest in
    combine_scan params k rest (normalized ++ written)

unfoldable pub combine_output_params : Bytes → List Bytes → Bytes
unfolding combine_scan
combine_output_params sql output_params = combine_scan output_params 0 sql []
