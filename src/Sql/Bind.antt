-- ===== src/Sql/Bind.antt =====
-- src/sql.cpp: `SqlNormalizer::combineBindValues`.
use pinpoint_cpp_agent.Common.{
  ℕ, zero, suc, ◌+◌, Bool, ◌&&◌, ◌||◌, Option, none, some, List, [], ◌∷◌, ◌++◌, ◌==◌, if◌then◌else◌,
  get_elem?, is_empty, Bytes,
}
use pinpoint_cpp_agent.Sql.{
  look_ahead, read_comment, slash_star, star_slash, two_slashes, two_dashes, newline,
}
use pinpoint_cpp_agent.Sql.Normalize.{quote}

-- `in_quotes` and `quote_char` as one: the quote that is open, if one is; and `bind_index`.
pub record BindState : Type 0 where
  pub in_quotes : Option ℕ
  pub bind_index : ℕ

abbrev pub is_quote : ℕ → Bool
is_quote c = (c == quote) || (c == b'"')

-- a round inside quotes
unfoldable pub quoted_step : ℕ → ℕ → Bytes → BindState → ℕ × BindState × Bytes
quoted_step quote_char c rest st =
    if is_quote c && c == quote_char
    then if look_ahead rest == quote_char
      then (1, st, c ∷ [])
      else (0, record st { in_quotes = none }, c ∷ [])
    else (0, st, c ∷ [])

-- a round outside quotes
unfoldable pub plain_step : List Bytes → ℕ → Bytes → BindState → ℕ × BindState × Bytes
plain_step values c rest st =
    if c == b'/'
    then if look_ahead rest == b'*'
      then (let (k, s) = read_comment (c ∷ rest) slash_star star_slash in (k, st, s))
      else if look_ahead rest == b'/'
      then (let (k, s) = read_comment (c ∷ rest) two_slashes newline in (k, st, s))
      else (0, st, c ∷ [])
    else if c == b'-'
    then if look_ahead rest == b'-'
      then (let (k, s) = read_comment (c ∷ rest) two_dashes newline in (k, st, s))
      else (0, st, c ∷ [])
    else if is_quote c
    then (0, record st { in_quotes = some c }, c ∷ [])
    else if c == b'?'
    then elim (get_elem? values st.bind_index) [
      | none ↦ (0, st, [])
      | some value ↦
          (0, record st { bind_index = st.bind_index + 1 }, quote ∷ (value ++ quote ∷ []))
    ]
    else (0, st, c ∷ [])

unfoldable pub bind_step : List Bytes → ℕ → Bytes → BindState → ℕ × BindState × Bytes
unfolding quoted_step plain_step
bind_step values c rest st = elim st.in_quotes [
  | none ↦ plain_step values c rest st
  | some quote_char ↦ quoted_step quote_char c rest st
]

unfoldable pub bind_scan : List Bytes → ℕ → Bytes → BindState → Bytes → Bytes
unfolding bind_step
bind_scan values skip [] st result = result
bind_scan values (suc k) (c ∷ rest) st result = bind_scan values k rest st result
bind_scan values zero (c ∷ rest) st result =
    let (k, st', written) = bind_step values c rest st in
    bind_scan values k rest st' (result ++ written)

unfoldable pub combine_bind_values : Bytes → List Bytes → Bytes
unfolding bind_scan
combine_bind_values sql values =
    if is_empty values
    then sql
    else bind_scan values 0 sql (record { in_quotes = none; bind_index = 0 }) []
