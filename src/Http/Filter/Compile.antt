-- ===== src/Http/Filter/Compile.antt =====
-- The four kinds of a compiled pattern match what its tokens match.
use pinpoint_cpp_agent.Common.{
  ℕ, suc, ◌-◌, ◌≤◌, ◌≡◌, refl, ap, sym, Bool, true, false, not, ◌&&◌, [], ◌∷◌, ◌++◌, arith, ltb,
  ◌==◌, if◌then◌else◌, length, take, drop, is_empty, Bytes, bytes_eq, starts_with, Bool-cases, inl,
  inr, append-nil,
}
use pinpoint_cpp_agent.Http.Filter.{
  CompiledPattern, ant, star, double_star, byte_at, has_slash, compile_tokens, contains_wildcard,
  before_wildcard, ant_match, compile_pattern, pattern_matches, ends_in_star, ends_in_double_star,
}
use pinpoint_cpp_agent.Http.Filter.Rows.{tokens_match, some_segment, some_suffix, entry-token_rows}
use pinpoint_cpp_agent.Http.Filter.Literal.{
  compile_tokens-literal, tokens_match-literal, tokens_match-before_wildcard, tokens_match-length,
}

-- `**` at the end takes everything, `*` what holds no slash.
some_suffix_empty : (s : Bytes) → some_suffix is_empty s ≡ true
some_suffix_empty [] = refl
some_suffix_empty (c ∷ s) = rw (some_suffix_empty s) refl

some_segment_empty : (s : Bytes) → some_segment is_empty s ≡ not (has_slash s)
some_segment_empty [] = refl
some_segment_empty (c ∷ s) = ground (arith, some_segment_empty s)

bytes_eq-starts_with :
    (s t : Bytes)
    → ((length s == length t) && bytes_eq s t) ≡ (starts_with s t && is_empty (drop (length t) s))
bytes_eq-starts_with [] [] = refl
bytes_eq-starts_with [] (d ∷ t) = ground arith
bytes_eq-starts_with (c ∷ s) [] = ground arith
bytes_eq-starts_with (c ∷ s) (d ∷ t) = ground (arith, bytes_eq-starts_with s t)

-- A text is all but its last bytes, and these.
last_byte :
    (c : ℕ) (s : Bytes) → take (length s) (c ∷ s) ++ (byte_at (c ∷ s) (length s) ∷ []) ≡ c ∷ s
last_byte c [] = refl
last_byte c (d ∷ s) = ap (◌∷◌ c) (last_byte d s)

split_last :
    (p : Bytes) → 1 ≤ length p → take (length p - 1) p ++ (byte_at p (length p - 1) ∷ []) ≡ p
split_last [] h = absurd (omega arith)
split_last (c ∷ s) h = let n : length (c ∷ s) - 1 ≡ length s = omega arith in rw n (last_byte c s)

last_two :
    (c d : ℕ) (s : Bytes)
    → take (length s) (c ∷ d ∷ s)
        ++ (byte_at (c ∷ d ∷ s) (length s) ∷ byte_at (c ∷ d ∷ s) (suc (length s)) ∷ [])
      ≡ c ∷ d ∷ s
last_two c d [] = refl
last_two c d (e ∷ s) = ap (◌∷◌ c) (last_two d e s)

split_last_two :
    (p : Bytes)
    → 2 ≤ length p
    → take (length p - 2) p ++ (byte_at p (length p - 2) ∷ byte_at p (length p - 1) ∷ []) ≡ p
split_last_two [] h = absurd (omega arith)
split_last_two (c ∷ []) h = absurd (omega arith)
split_last_two (c ∷ d ∷ s) h =
    let n : length (c ∷ d ∷ s) - 2 ≡ length s = omega arith in
    let m : length (c ∷ d ∷ s) - 1 ≡ suc (length s) = omega arith in rw (n, m) (last_two c d s)

star_tokens : (compile_tokens 0 (b'*' ∷ [])).0 ≡ star ∷ []
unfolding compile_tokens
star_tokens = refl

double_star_tokens : (compile_tokens 0 (b'*' ∷ b'*' ∷ [])).0 ≡ double_star ∷ []
unfolding compile_tokens
double_star_tokens = refl

no_tokens : (compile_tokens 0 []).0 ≡ []
unfolding compile_tokens
no_tokens = refl

-- What the tokens of the three special kinds match.
exact_tokens :
    (p url : Bytes)
    → contains_wildcard p ≡ false
    → tokens_match (compile_tokens 0 p).0 url ≡ ((length url == length p) && bytes_eq url p)
unfolding tokens_match
exact_tokens p url h = cc (
  append-nil p,
  compile_tokens-literal p [] h,
  no_tokens,
  tokens_match-literal p [] url,
  bytes_eq-starts_with url p,
)

prefix_tokens :
    (text url : Bytes)
    → contains_wildcard text ≡ false
    → tokens_match (compile_tokens 0 (text ++ b'*' ∷ b'*' ∷ [])).0 url ≡ starts_with url text
unfolding tokens_match
prefix_tokens text url h =
    let e = some_suffix_empty (drop (length text) url) in
    let m = tokens_match-literal text (double_star ∷ []) url in
    rw (compile_tokens-literal text (b'*' ∷ b'*' ∷ []) h, double_star_tokens, m, e) (ground arith)

segment_tokens :
    (text url : Bytes)
    → contains_wildcard text ≡ false
    → tokens_match (compile_tokens 0 (text ++ b'*' ∷ [])).0 url
      ≡ (starts_with url text && not (has_slash (drop (length text) url)))
unfolding tokens_match
segment_tokens text url h =
    let e = some_segment_empty (drop (length text) url) in
    let m = tokens_match-literal text (star ∷ []) url in
    rw (compile_tokens-literal text (b'*' ∷ []) h, star_tokens, m, e) refl

-- The guards of the matcher turn down no URL that the tokens match.
guards_hold :
    (b c m : Bool)
    → (m ≡ true → b ≡ false)
    → (m ≡ true → c ≡ false)
    → (if b then false else if c then false else m) ≡ m
guards_hold b c true h k = rw (h refl, k refl) refl
guards_hold true c false h k = refl
guards_hold false true false h k = refl
guards_hold false false false h k = refl

pub ant_pattern : Bytes → CompiledPattern
ant_pattern p = record {
  kind = ant;
  pattern = p;
  literal_prefix = before_wildcard p;
  tokens = (compile_tokens 0 p).0;
  min_length = (compile_tokens 0 p).1;
}

ant_match-tokens_match :
    (p url : Bytes) → ant_match (ant_pattern p) url ≡ tokens_match (compile_tokens 0 p).0 url
unfolding ant_match ant_pattern
ant_match-tokens_match p url =
    let length_ok = tokens_match-length 0 p url in
    let begins_ok = tokens_match-before_wildcard p url in
    rw (entry-token_rows (compile_tokens 0 p).0 url) (
      guards_hold (ltb (length url) (compile_tokens 0 p).1)
        (not (is_empty (before_wildcard p)) && not (starts_with url (before_wildcard p)))
        (tokens_match (compile_tokens 0 p).0 url) (λ m. ground (arith, length_ok m))
        (λ m. ground (arith, begins_ok m)))

ends_in_double_star-split :
    (p : Bytes) → ends_in_double_star p ≡ true → p ≡ take (length p - 2) p ++ b'*' ∷ b'*' ∷ []
ends_in_double_star-split p h =
    let whole = split_last_two p (ground arith) in
    let last : byte_at p (length p - 1) ≡ b'*' = ground arith in
    let before : byte_at p (length p - 2) ≡ b'*' = ground arith in cc

ends_in_star-split : (p : Bytes) → ends_in_star p ≡ true → p ≡ take (length p - 1) p ++ b'*' ∷ []
ends_in_star-split [] h = ground arith
ends_in_star-split (c ∷ s) h =
    let whole = split_last (c ∷ s) (omega arith) in
    let last : byte_at (c ∷ s) (length (c ∷ s) - 1) ≡ b'*' = ground arith in cc

pub pattern_matches-tokens_match :
    (p url : Bytes)
    → pattern_matches (compile_pattern p) url ≡ tokens_match (compile_tokens 0 p).0 url
unfolding compile_pattern pattern_matches ant_pattern
pattern_matches-tokens_match p url = elim (Bool-cases (contains_wildcard p)) [
  | inr plain ↦ rw plain (sym (exact_tokens p url plain))
  | inl wild ↦
      elim (Bool-cases (ends_in_double_star p && not (contains_wildcard (take (length p - 2) p)))) [
        | inl double ↦
            let split = ends_in_double_star-split p (ground arith) in
            let m = prefix_tokens (take (length p - 2) p) url (ground arith) in rw (wild, double) cc
        | inr no_double ↦
            elim (Bool-cases (ends_in_star p && not (contains_wildcard (take (length p - 1) p)))) [
              | inl single ↦
                  let split = ends_in_star-split p (ground arith) in
                  let m = segment_tokens (take (length p - 1) p) url (ground arith) in
                  rw (wild, no_double, single) cc
              | inr no_single ↦ rw (wild, no_double, no_single) (ant_match-tokens_match p url)
            ]
      ]
]
