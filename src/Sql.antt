-- ===== src/Sql.antt =====
-- src/sql.cpp: the text helpers of `SqlNormalizer`. A position in the text is the text from there
-- on, so that `sql[i]` is its head; a returned index is how many bytes the loop skips.
pub mod Normalize
pub mod Combine
pub mod Bind
pub mod Literals
pub mod Tests
use pinpoint_cpp_agent.Common.{
  ℕ, zero, suc, ◌+◌, ◌-◌, ◌*◌, ◌/◌, ◌%◌, ◌^◌, ◌<◌, ◌≡◌, refl, Bool, true, false, Option, none, some,
  List, [], ◌∷◌, ◌++◌, ◌||◌, ltb, ◌==◌, if◌then◌else◌, length, take, drop, is_digit, Bytes, codes,
  starts_with,
}

-- `lookAhead1`, from the text after the current byte
abbrev pub look_ahead : Bytes → ℕ
look_ahead [] = 0
look_ahead (c ∷ rest) = c

-- `std::string_view::find`
unfoldable pub find : Bytes → Bytes → Option ℕ
find token [] = if starts_with [] token then some 0 else none
find token (c ∷ s) =
    if starts_with (c ∷ s) token
    then some 0
    else elim (find token s) [ none ↦ none | some p ↦ some (suc p) ]

-- How many bytes of `text`, which begins with the comment, `readComment` passes over.
unfoldable pub comment_length : Bytes → Bytes → Bytes → ℕ
unfolding find
comment_length text first_token end_token = elim (find end_token (drop (length first_token) text)) [
  | none ↦ length text
  | some p ↦ length first_token + p + length end_token
]

-- `readComment`: the bytes after the first that the loop skips, and what is written.
unfoldable pub read_comment : Bytes → Bytes → Bytes → ℕ × Bytes
unfolding comment_length
read_comment text first_token end_token =
    let n = comment_length text first_token end_token in (n - 1, take n text)

abbrev pub slash_star : Bytes
slash_star = codes "/*"

abbrev pub star_slash : Bytes
star_slash = codes "*/"

abbrev pub two_slashes : Bytes
two_slashes = codes "//"

abbrev pub two_dashes : Bytes
two_dashes = codes "--"

abbrev pub newline : Bytes
newline = b'\n' ∷ []

-- `std::to_chars`: the digits of `n` before `out`; fuel above `n` is enough.
unfoldable pub digits_from : ℕ → ℕ → Bytes → Bytes
digits_from zero n out = out
digits_from (suc f) n out =
    let shown = (b'0' + n % 10) ∷ out in
    let rest = digits_from f (n / 10) shown in if n / 10 == 0 then shown else rest

unfoldable pub decimal : ℕ → Bytes
unfolding digits_from
decimal n = digits_from (suc n) n []

abbrev pub max_size : ℕ
max_size = 2 ^ 64 - 1

-- the loop of `parseIndex`
unfoldable pub parse_from : ℕ → Bytes → Option ℕ
parse_from value [] = some value
parse_from value (ch ∷ rest) =
    let digit = ch - b'0' in
    let next = parse_from (value * 10 + digit) rest in
    if is_digit ch then (if ltb ((max_size - digit) / 10) value then none else next) else none

unfoldable pub parse_index : Bytes → Option ℕ
unfolding parse_from
parse_index [] = none
parse_index (ch ∷ rest) = parse_from 0 (ch ∷ rest)
