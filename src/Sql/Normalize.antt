-- ===== src/Sql/Normalize.antt =====
-- src/sql.cpp: `SqlNormalizer::normalize`, `handleStringLiteral`, `handleNumericLiteral` and
-- `updateNumberTokenStartEnable`. One round of the `for` loop is `step`; it says how many bytes
-- after its own the index jumps over.
use pinpoint_cpp_agent.Common.{
  ℕ, zero, suc, ◌+◌, Bool, true, false, ◌&&◌, ◌||◌, [], ◌∷◌, ◌++◌, ltb, ◌==◌, if◌then◌else◌, length,
  take, any, is_digit, is_empty, min, Bytes, codes,
}
use pinpoint_cpp_agent.Sql.{
  look_ahead, read_comment, decimal, slash_star, star_slash, two_slashes, two_dashes, newline,
}

-- `SqlNormalizeResult`
pub record NormalizeResult : Type 0 where
  pub normalized_sql : Bytes
  pub parameters : Bytes
  pub param_index : ℕ

abbrev pub empty_result : NormalizeResult
empty_result = record { normalized_sql = []; parameters = []; param_index = 0 }

abbrev pub quote : ℕ
quote = 0x27

-- `normalized_sql += s`
abbrev pub emit : Bytes → NormalizeResult → NormalizeResult
emit s r = record r { normalized_sql = r.normalized_sql ++ s }

abbrev pub append_separator : NormalizeResult → NormalizeResult
append_separator r =
    if is_empty r.parameters then r else record r { parameters = r.parameters ++ b',' ∷ [] }

abbrev pub append_char : ℕ → NormalizeResult → NormalizeResult
append_char ch r = record r {
  parameters = r.parameters ++ (if ch == b',' then b',' ∷ b',' ∷ [] else ch ∷ []);
}

-- `appendParameterIndex`, the mark, and `++param_index`
abbrev pub append_index : Bytes → NormalizeResult → NormalizeResult
append_index mark r = record r {
  normalized_sql = r.normalized_sql ++ (decimal r.param_index ++ mark);
  param_index = r.param_index + 1;
}

-- The loop of `handleStringLiteral`, behind the opening quote: the bytes that it passes.
unfoldable pub string_body : Bytes → NormalizeResult → ℕ × NormalizeResult
string_body [] r = (0, r)
string_body (c ∷ []) r =
    if c == quote then (1, append_index (b'$' ∷ quote ∷ []) r) else (1, append_char c r)
string_body (c ∷ d ∷ rest) r = elim (c == quote) [
  | true ↦ elim (d == quote) [
    | true ↦
        let (k, r') =
          string_body rest (record r { parameters = r.parameters ++ quote ∷ quote ∷ [] }) in
        (k + 2, r')
    | false ↦ (1, append_index (b'$' ∷ quote ∷ []) r)
  ]
  | false ↦ let (k, r') = string_body (d ∷ rest) (append_char c r) in (k + 1, r')
]

-- `handleStringLiteral`, with the text behind the opening quote.
unfoldable pub string_literal : Bytes → NormalizeResult → ℕ × NormalizeResult
unfolding string_body
string_literal rest r =
    if look_ahead rest == quote
    then (1, emit (quote ∷ quote ∷ []) r)
    else string_body rest (append_separator (emit (quote ∷ []) r))

abbrev pub is_numeric : ℕ → Bool
is_numeric c = is_digit c || (c == b'.') || (c == b'E') || (c == b'e')

-- how far a numeric literal goes on
unfoldable pub numeric_run : Bytes → ℕ
numeric_run [] = 0
numeric_run (c ∷ rest) = let k = numeric_run rest in if is_numeric c then suc k else 0

-- `handleNumericLiteral`, with the first digit and the text behind it.
unfoldable pub numeric_literal : ℕ → Bytes → NormalizeResult → ℕ × NormalizeResult
unfolding numeric_run
numeric_literal c rest r =
    let k = numeric_run rest in
    let r' = append_index (b'#' ∷ []) (append_separator r) in
    (k, record r' { parameters = r'.parameters ++ (c ∷ take k rest) })

abbrev pub one_of : Bytes → ℕ → Bool
one_of set c = any (λ d. c == d) set

-- white space, operators and separators
abbrev pub opens_number : ℕ → Bool
opens_number = one_of (codes " \t\n\r*+%=<>&|^~!(),;")

abbrev pub joins_number : ℕ → Bool
joins_number = one_of (codes "._@:")

-- `updateNumberTokenStartEnable`
unfoldable pub update_enable : ℕ → ℕ → Bool → Bool
update_enable c next_c current =
    if opens_number c || (c == b'-') || (c == b'/')
    then true
    else if c == b'$'
    then (if is_digit next_c then false else current)
    else if joins_number c
    then false
    else (ltb c b'a' || ltb b'z' c) && (ltb c b'A' || ltb b'Z' c)

-- A comment is passed over, and is written unless comments are removed.
abbrev pub pass_comment :
    Bool → Bytes → Bytes → Bytes → Bool → NormalizeResult → ℕ × Bool × NormalizeResult
pass_comment remove text first end_ enable r =
    let (k, written) = read_comment text first end_ in
    (k, enable, if remove then r else emit written r)

-- At a slash or a minus, before `rest`: a comment, or the byte is copied.
unfoldable pub slash_step : Bool → Bytes → Bool → NormalizeResult → ℕ × Bool × NormalizeResult
slash_step remove rest enable r =
    if look_ahead rest == b'*'
    then pass_comment remove (b'/' ∷ rest) slash_star star_slash enable r
    else if look_ahead rest == b'/'
    then pass_comment remove (b'/' ∷ rest) two_slashes newline enable r
    else (0, true, emit (b'/' ∷ []) r)

unfoldable pub dash_step : Bool → Bytes → Bool → NormalizeResult → ℕ × Bool × NormalizeResult
dash_step remove rest enable r =
    if look_ahead rest == b'-'
    then pass_comment remove (b'-' ∷ rest) two_dashes newline enable r
    else (0, true, emit (b'-' ∷ []) r)

-- At a digit: a literal where one may begin, or the byte is copied.
unfoldable pub digit_step : ℕ → Bytes → Bool → NormalizeResult → ℕ × Bool × NormalizeResult
unfolding numeric_literal
digit_step c rest enable r =
    if enable
    then (let (k, r') = numeric_literal c rest r in (k, enable, r'))
    else (0, enable, emit (c ∷ []) r)

-- `number_token_start_enable` behind any other byte, which is copied
unfoldable pub plain_enable : ℕ → ℕ → Bool → Bool
unfolding update_enable
plain_enable c next_c enable =
    if opens_number c
    then true
    else if c == b'$'
    then (if is_digit next_c then false else enable)
    else if joins_number c
    then false
    else update_enable c next_c enable

-- One round of the loop, at the byte `c` before `rest`.
unfoldable pub step : Bool → ℕ → Bytes → Bool → NormalizeResult → ℕ × Bool × NormalizeResult
unfolding string_literal slash_step dash_step digit_step plain_enable
step remove c rest enable r =
    if c == b'/'
    then slash_step remove rest enable r
    else if c == b'-'
    then dash_step remove rest enable r
    else if c == quote
    then (let (k, r') = string_literal rest r in (k, enable, r'))
    else if is_digit c
    then digit_step c rest enable r
    else (0, plain_enable c (look_ahead rest) enable, emit (c ∷ []) r)

-- The `for` loop; the first number says how many bytes the index still jumps over.
unfoldable pub scan : Bool → ℕ → Bytes → Bool → NormalizeResult → NormalizeResult
unfolding step
scan remove skip [] enable r = r
scan remove (suc k) (c ∷ rest) enable r = scan remove k rest enable r
scan remove zero (c ∷ rest) enable r =
    let (k, enable', r') = step remove c rest enable r in scan remove k rest enable' r'

unfoldable pub normalize : ℕ → Bool → Bytes → NormalizeResult
unfolding scan
normalize max_sql_length remove_comments sql =
    scan remove_comments 0 (take (min (length sql) max_sql_length) sql) true empty_result
