-- ===== src/Http/Filter/Literal.antt =====
-- The tokens of literal text, and what the guards of `ant_match` ask of a URL that matches.
use pinpoint_cpp_agent.Common.{
  ℕ, zero, suc, ◌+◌, ◌≤◌, ◌≡◌, refl, ap, Bool, true, false, ◌&&◌, List, [], ◌∷◌, ◌++◌, map, arith,
  ◌==◌, length, drop, Bytes, starts_with, Bool-cases, inl, inr,
}
use pinpoint_cpp_agent.Http.Filter.{
  Token, literal, question, star, double_star, double_star_slash, token_at, compile_tokens,
  min_length_of, contains_wildcard, before_wildcard, is_wildcard,
}
use pinpoint_cpp_agent.Http.Filter.Rows.{token_matches, tokens_match, some_segment, some_suffix}

token_at-literal : (c : ℕ) (rest : Bytes) → is_wildcard c ≡ false → token_at c rest ≡ (0, literal c)
unfolding token_at
token_at-literal c rest h = ground arith

pub compile_tokens-literal :
    (text rest : Bytes)
    → contains_wildcard text ≡ false
    → (compile_tokens 0 (text ++ rest)).0 ≡ map literal text ++ (compile_tokens 0 rest).0
unfolding compile_tokens
compile_tokens-literal [] rest h = refl
compile_tokens-literal (c ∷ text) rest h =
    let plain : is_wildcard c ≡ false = ground arith in
    let others : contains_wildcard text ≡ false = ground arith in
    rw (token_at-literal c (text ++ rest) plain)
      (ap (◌∷◌ (literal c)) (compile_tokens-literal text rest others))

pub tokens_match-literal :
    (text : Bytes) (tokens : List Token) (s : Bytes)
    → tokens_match (map literal text ++ tokens) s
      ≡ (starts_with s text && tokens_match tokens (drop (length text) s))
unfolding tokens_match
tokens_match-literal [] tokens s = refl
tokens_match-literal (d ∷ text) tokens [] = refl
tokens_match-literal (d ∷ text) tokens (c ∷ s) =
    elim (c == d)
      as (λ b.
        (b && tokens_match (map literal text ++ tokens) s)
        ≡ ((b && starts_with s text) && tokens_match tokens (drop (length text) s))) [
          | true ↦ tokens_match-literal text tokens s
          | false ↦ refl
        ]

-- A URL that matches begins with the text in front of the first wildcard.
pub tokens_match-before_wildcard :
    (p s : Bytes)
    → tokens_match (compile_tokens 0 p).0 s ≡ true
    → starts_with s (before_wildcard p) ≡ true
unfolding compile_tokens tokens_match
tokens_match-before_wildcard [] s h = refl
tokens_match-before_wildcard (c ∷ p) [] h = elim (Bool-cases (is_wildcard c)) [
  | inl w ↦ rw w refl
  | inr w ↦ let e = token_at-literal c p w in cc
]
tokens_match-before_wildcard (c ∷ p) (d ∷ s) h = elim (Bool-cases (is_wildcard c)) [
  | inl w ↦ rw w refl
  | inr w ↦
      let e = token_at-literal c p w in
      let m : tokens_match (literal c ∷ (compile_tokens 0 p).0) (d ∷ s) ≡ true = cc in
      rw w (ground (arith, tokens_match-before_wildcard p s))
]

some_segment-length :
    (m : Bytes → Bool) (n : ℕ) (s : Bytes)
    → ((s : Bytes) → m s ≡ true → n ≤ length s)
    → some_segment m s ≡ true
    → n ≤ length s
some_segment-length m n [] h e = h [] e
some_segment-length m n (c ∷ s) h e = ground (arith, some_segment-length m n s h, h (c ∷ s))

some_suffix-length :
    (m : Bytes → Bool) (n : ℕ) (s : Bytes)
    → ((s : Bytes) → m s ≡ true → n ≤ length s)
    → some_suffix m s ≡ true
    → n ≤ length s
some_suffix-length m n [] h e = h [] e
some_suffix-length m n (c ∷ s) h e = ground (arith, some_suffix-length m n s h, h (c ∷ s))

token_matches-length :
    (t : Token) (m : Bytes → Bool) (n : ℕ) (s : Bytes)
    → ((s : Bytes) → m s ≡ true → n ≤ length s)
    → token_matches t m s ≡ true
    → min_length_of t + n ≤ length s
token_matches-length (literal value) m n [] h e = ground arith
token_matches-length (literal value) m n (c ∷ s) h e = ground (arith, h s)
token_matches-length question m n [] h e = ground arith
token_matches-length question m n (c ∷ s) h e = ground (arith, h s)
token_matches-length star m n s h e = omega (arith, some_segment-length m n s h e)
token_matches-length double_star m n s h e = omega (arith, some_suffix-length m n s h e)
token_matches-length double_star_slash m n [] h e = ground arith
token_matches-length double_star_slash m n (c ∷ s) h e =
    omega (arith, some_suffix-length m n (c ∷ s) h e)

pub tokens_match-length :
    (k : ℕ) (p s : Bytes)
    → tokens_match (compile_tokens k p).0 s ≡ true
    → (compile_tokens k p).1 ≤ length s
unfolding compile_tokens tokens_match
tokens_match-length k [] s h = omega arith
tokens_match-length (suc k) (c ∷ p) s h = tokens_match-length k p s h
tokens_match-length zero (c ∷ p) s h =
    token_matches-length (token_at c p).1 (tokens_match (compile_tokens (token_at c p).0 p).0)
      (compile_tokens (token_at c p).0 p).1 s (λ s e. tokens_match-length (token_at c p).0 p s e) h
