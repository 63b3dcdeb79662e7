-- ===== src/Http/Filter.antt =====
-- src/http.cpp: `HttpUrlFilter`, with its patterns compiled to tokens and its two-row matcher.
-- A row of the table is the list of its entries, from one suffix of the URL on.
pub mod Rows
pub mod Literal
pub mod Compile
pub mod Glob
use pinpoint_cpp_agent.Common.{
  ℕ, zero, suc, ◌+◌, ◌-◌, Bool, true, false, not, ◌&&◌, ◌||◌, List, [], ◌∷◌, map, ltb, leb, ◌==◌,
  if◌then◌else◌, length, take, drop, any, is_empty, get_elem?, Bytes, bytes_eq, starts_with, Option,
  none, some,
}

-- `Token`: a `TokenKind` with its value
pub data Token : Type 0 where
  literal : ℕ → Token
  question : Token
  star : Token
  double_star : Token
  double_star_slash : Token

pub data PatternKind : Type 0 where
  exact : PatternKind
  prefix : PatternKind
  segment_prefix : PatternKind
  ant : PatternKind

pub record CompiledPattern : Type 0 where
  pub kind : PatternKind
  pub pattern : Bytes
  pub literal_prefix : Bytes
  pub tokens : List Token
  pub min_length : ℕ

-- `s[i]`; the code reads it within bounds only
abbrev pub byte_at : Bytes → ℕ → ℕ
byte_at s i = elim (get_elem? s i) [ none ↦ 0 | some c ↦ c ]

abbrev pub is_wildcard : ℕ → Bool
is_wildcard c = (c == b'*') || (c == b'?')

abbrev pub contains_wildcard : Bytes → Bool
contains_wildcard = any is_wildcard

-- The text in front of the first wildcard.
abbrev pub before_wildcard : Bytes → Bytes
before_wildcard [] = []
before_wildcard (c ∷ s) = let rest = before_wildcard s in if is_wildcard c then [] else c ∷ rest

-- The token that begins at `c` before `rest`, and how many more bytes it takes.
unfoldable pub token_at : ℕ → Bytes → ℕ × Token
token_at c rest =
    if (c == b'*') && (ltb 0 (length rest) && (byte_at rest 0 == b'*'))
    then (if ltb 1 (length rest) && (byte_at rest 1 == b'/')
        then (2, double_star_slash)
        else (1, double_star))
    else if c == b'*'
    then (0, star)
    else if c == b'?'
    then (0, question)
    else (0, literal c)

abbrev pub min_length_of : Token → ℕ
min_length_of (literal c) = 1
min_length_of question = 1
min_length_of star = 0
min_length_of double_star = 0
min_length_of double_star_slash = 0

-- The loop over the pattern; the first number says how many bytes are still part of a token.
unfoldable pub compile_tokens : ℕ → Bytes → List Token × ℕ
unfolding token_at
compile_tokens skip [] = ([], 0)
compile_tokens (suc k) (c ∷ rest) = compile_tokens k rest
compile_tokens zero (c ∷ rest) =
    let (k, t) = token_at c rest in
    let (tokens, min_length) = compile_tokens k rest in (t ∷ tokens, min_length_of t + min_length)

abbrev pub ends_in_double_star : Bytes → Bool
ends_in_double_star p =
    leb 2 (length p) && ((byte_at p (length p - 1) == b'*') && (byte_at p (length p - 2) == b'*'))

abbrev pub ends_in_star : Bytes → Bool
ends_in_star p =
    not (is_empty p)
    && ((byte_at p (length p - 1) == b'*')
        && ((length p == 1) || not (byte_at p (length p - 2) == b'*')))

unfoldable pub compile_pattern : Bytes → CompiledPattern
unfolding compile_tokens
compile_pattern p =
    let of_kind : PatternKind → Bytes → List Token → ℕ → CompiledPattern = λ k text ts n. record {
      kind = k;
      pattern = p;
      literal_prefix = text;
      tokens = ts;
      min_length = n;
    } in
    if not (contains_wildcard p)
    then of_kind exact p [] (length p)
    else if ends_in_double_star p && not (contains_wildcard (take (length p - 2) p))
    then of_kind prefix (take (length p - 2) p) [] 0
    else if ends_in_star p && not (contains_wildcard (take (length p - 1) p))
    then of_kind segment_prefix (take (length p - 1) p) [] 0
    else of_kind ant (before_wildcard p) (compile_tokens 0 p).0 (compile_tokens 0 p).1

-- an entry of a row; the code reads rows within bounds only
abbrev pub entry : List Bool → Bool
entry [] = false
entry (b ∷ row) = b

-- The rows that one token computes, from the last entry on; `next` is the row of the tokens
-- behind it.
unfoldable pub literal_row : ℕ → Bytes → List Bool → List Bool
literal_row value [] next = false ∷ []
literal_row value (c ∷ s) next =
    ((c == value) && entry (drop 1 next)) ∷ literal_row value s (drop 1 next)

unfoldable pub question_row : Bytes → List Bool → List Bool
question_row [] next = false ∷ []
question_row (c ∷ s) next = entry (drop 1 next) ∷ question_row s (drop 1 next)

unfoldable pub star_row : Bytes → List Bool → List Bool
star_row [] next = entry next ∷ []
star_row (c ∷ s) next =
    let current = star_row s (drop 1 next) in
    (if not (entry next) && not (c == b'/') then entry current else entry next) ∷ current

-- with `running`; `last` is `current[U]`
unfoldable pub double_star_row : (Bool → Bool) → Bytes → List Bool → Bool × List Bool
double_star_row last [] next = (entry next, last (entry next) ∷ [])
double_star_row last (c ∷ s) next =
    let (running, current) = double_star_row last s (drop 1 next) in
    (running || entry next, (running || entry next) ∷ current)

unfoldable pub token_row : Token → Bytes → List Bool → List Bool
unfolding literal_row question_row star_row double_star_row
token_row (literal value) url next = literal_row value url next
token_row question url next = question_row url next
token_row star url next = star_row url next
token_row double_star url next = (double_star_row (λ b. b) url next).1
token_row double_star_slash url next = (double_star_row (λ b. false) url next).1

-- `scratch.next.assign(U + 1, 0)` and `scratch.next[U] = 1`
abbrev pub last_row : Bytes → List Bool
last_row [] = true ∷ []
last_row (c ∷ s) = false ∷ last_row s

-- The loop over the tokens, the last one first: `scratch.next` when the token `t` is done.
unfoldable pub token_rows : List Token → Bytes → List Bool
unfolding token_row
token_rows [] url = last_row url
token_rows (t ∷ tokens) url = token_row t url (token_rows tokens url)

unfoldable pub ant_match : CompiledPattern → Bytes → Bool
unfolding token_rows
ant_match p url =
    if ltb (length url) p.min_length
    then false
    else if not (is_empty p.literal_prefix) && not (starts_with url p.literal_prefix)
    then false
    else entry (token_rows p.tokens url)

abbrev pub has_slash : Bytes → Bool
has_slash = any (λ c. c == b'/')

unfoldable pub pattern_matches : CompiledPattern → Bytes → Bool
unfolding ant_match
pattern_matches p url = elim p.kind [
  | exact ↦ (length url == length p.pattern) && bytes_eq url p.pattern
  | prefix ↦ starts_with url p.literal_prefix
  | segment_prefix ↦
      starts_with url p.literal_prefix && not (has_slash (drop (length p.literal_prefix) url))
  | ant ↦ ant_match p url
]

unfoldable pub url_filter : List Bytes → List CompiledPattern
unfolding compile_pattern
url_filter cfg = map compile_pattern cfg

unfoldable pub is_filtered : List CompiledPattern → Bytes → Bool
unfolding pattern_matches
is_filtered patterns url = any (λ p. pattern_matches p url) patterns
